-- ===== src/PluginRuntime/Writer/Conservation.antt =====
-- `FlushAll` with nothing else running: what is delivered and what stays.
use goncho.Prelude.{
  ◌+◌, ◌-◌, ◌≡◌, refl, ap, ◌∙◌, String, false, Option, [], ◌∷◌, ◌++◌, length, length-append, arith,
  contains, Bool-cases, inl, inr,
}
use goncho.Prelude.Dict.{Dict, keys, IsMap}
use mathlib.Core.List.{append-nil}
use goncho.PluginRuntime.Session.{MemorySession, Flusher}
use goncho.PluginRuntime.Writer.{
  Writer, flush_loop, values, remove_all, insert_all, flush_all, pending_count, empty_batch,
}
use goncho.PluginRuntime.Writer.Merging.{
  KeysMatch, remove_all-nil, insert_all-fresh, length-values, length-keys, writer-commit,
  pending-commit, flushed-commit,
}
use goncho.PluginRuntime.Writer.Loop.{attempt, survive, survive_cache, queue_loop}

module _ {W E : Type 0} where
  keys-survive_cache :
      (f : Option (Flusher W E)) (m : Dict MemorySession) (world : W) (j : String)
      → contains (keys m) j ≡ false
      → contains (keys (survive_cache f m world).1) j ≡ false
  unfolding survive_cache contains
  keys-survive_cache f [] world j h = h
  keys-survive_cache f ((k, session) ∷ m) world j h =
      ground (arith, keys-survive_cache f m (attempt f session world).0 j)

  survive_cache-IsMap :
      (f : Option (Flusher W E)) (m : Dict MemorySession) (world : W)
      → IsMap m
      → IsMap (survive_cache f m world).1
  unfolding survive_cache
  survive_cache-IsMap f [] world h = h
  survive_cache-IsMap f ((k, session) ∷ m) world h =
      let w₁ = (attempt f session world).0 in
      elim (Bool-cases (attempt f session world).1) [
        | inl taken ↦ rw taken (survive_cache-IsMap f m w₁ h.1)
        | inr left ↦ rw left (keys-survive_cache f m w₁ k h.0, survive_cache-IsMap f m w₁ h.1)
      ]

  -- With nothing else running, and each cached session under its own key, `FlushAll` leaves in the
  -- queue exactly the queued sessions that the flusher refused twice (or all, with no flusher), in
  -- their order, and in the cache exactly the cached ones that it refused twice, under their keys.
  -- It reports what is left, and what was flushed and what is left add up to what there was.
  pub flush_all-survivors :
      (f : Option (Flusher W E)) (w : Writer) (world : W)
      → KeysMatch w.cache
      → IsMap w.cache
      → let (world', w', result) = flush_all f w world in
        (w'.queue ≡ (survive f w.queue world).1)
        × (w'.cache ≡ (survive_cache f w.cache (survive f w.queue world).0).1)
        × (result.pending ≡ pending_count w')
        × (result.flushed_count + result.pending ≡ pending_count w)
  unfolding flush_all
  flush_all-survivors f w world keyed d =
      let items = w.queue ++ values w.cache in
      let split : 0 + length w.queue ≡ length items - length (keys w.cache) = omega (
        arith,
        length-append w.queue (values w.cache),
        length-values w.cache,
        length-keys w.cache,
      ) in
      let b = (flush_loop f 0 (length items - length (keys w.cache)) items empty_batch world).1 in
      let gathered =
        queue_loop f 0 (length items - length (keys w.cache)) w.queue w.cache empty_batch world
          split keyed d (unfold empty_batch in refl) in
      let w₁ = record w { queue = [] } in
      let left = (survive_cache f w.cache (survive f w.queue world).0).1 in
      let cleared : insert_all b.failed_cache (remove_all (keys w.cache) w.cache) ≡ left =
        rw (gathered.cache_left, remove_all-nil (keys w.cache) w.cache (λ j e. e))
          (insert_all-fresh left [] (survive_cache-IsMap f w.cache (survive f w.queue world).0 d)
            (unfold contains in λ j e. refl)) in
      let e = writer-commit (keys w.cache) b w₁ in
      let queue_left = ap (λ v. v.queue) e ∙ append-nil b.failed_queue ∙ gathered.queue_left in
      let cache_left = ap (λ v. v.cache) e ∙ cleared in
      (
        queue_left,
        cache_left,
        pending-commit (keys w.cache) b w₁,
        omega (
          arith,
          pending-commit (keys w.cache) b w₁,
          flushed-commit (keys w.cache) b w₁,
          ap length queue_left,
          ap length cache_left,
          gathered.counted,
        ),
      )
