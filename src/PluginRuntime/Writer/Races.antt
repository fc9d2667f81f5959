-- ===== src/PluginRuntime/Writer/Races.antt =====
-- `FlushAll` and the calls that arrive while it flushes.
use goncho.Prelude.{
  ◌-◌, ◌≡◌, refl, sym, ap, ◌∙◌, String, true, false, Option, List, [], ◌∷◌, ◌++◌, map, length,
  arith, contains, eq_iff,
}
use goncho.Prelude.Dict.{insert, keys, contains-keys-insert}
use mathlib.Core.List.{append-nil, append_assoc}
use goncho.PluginRuntime.Session.{MemorySession, Flusher}
use goncho.PluginRuntime.Writer.{
  Writer, Batch, Result, enqueuing, caching, call, calls, cache_session, flush_loop, values,
  remove_all, commit, flush_during, flush_all, empty_batch,
}
use goncho.PluginRuntime.Writer.Merging.{remove_all-nil, writer-commit}

-- The second critical section sees the writer only through its queue, its emptied cache and its flag.
commit-cleared :
    (ks : List String) (b : Batch) (v w : Writer)
    → remove_all ks v.cache ≡ remove_all ks w.cache
    → v.queue ≡ w.queue
    → v.is_closed ≡ w.is_closed
    → commit ks b v ≡ commit ks b w
unfolding commit
commit-cleared ks b v w cleared queued flag = ground arith

call-open :
    (session : MemorySession) (w : Writer)
    → w.is_closed ≡ false
    → call (enqueuing session) w ≡ record w { queue = w.queue ++ session ∷ [] }
unfolding call
call-open session w h = ground arith

queue-calls :
    (sessions : List MemorySession) (w : Writer)
    → w.is_closed ≡ false
    → calls (map enqueuing sessions) w ≡ record w { queue = w.queue ++ sessions }
unfolding calls
queue-calls [] w h = ap (λ q. record w { queue = q }) (sym (append-nil w.queue))
queue-calls (session ∷ sessions) w h =
    ap (calls (map enqueuing sessions)) (call-open session w h)
    ∙ queue-calls sessions (record w { queue = w.queue ++ session ∷ [] }) h
    ∙ ap (λ q. record w { queue = q }) (append_assoc w.queue (session ∷ []) sessions)

module _ {W E : Type 0} (f : Option (Flusher W E)) where
  -- A session that is cached while `FlushAll` flushes, under a key that the cache held when it began,
  -- is lost: the external state, the writer and the result are those of a `FlushAll` with no such
  -- call, so the session is neither flushed nor pending, whatever the flusher does.
  pub flush_during-caching :
      (item : MemorySession) (w : Writer) (world : W)
      → contains (keys w.cache) item.key ≡ true
      → flush_during f (caching item ∷ []) w world ≡ flush_all f w world
  unfolding flush_during flush_all
  flush_during-caching item w world held =
      let items = w.queue ++ values w.cache in
      let (world', b) =
        flush_loop f 0 (length items - length (keys w.cache)) items empty_batch world in
      let cleared : remove_all (keys w.cache) (insert item.key item w.cache)
          ≡ remove_all (keys w.cache) w.cache =
        remove_all-nil (keys w.cache) (insert item.key item w.cache) (λ j e.
          ground (arith, held, contains-keys-insert item.key j item w.cache, eq_iff item.key j))
        ∙ sym (remove_all-nil (keys w.cache) w.cache (λ j e. e)) in
      let e =
        commit-cleared (keys w.cache) b (cache_session item (record w { queue = [] }))
          (record w { queue = [] }) (unfold cache_session in cleared) (unfold cache_session in refl)
          (unfold cache_session in refl) in
      ap (λ (r : Writer × Result). (world', r.0, r.1)) e

  -- The sessions that are enqueued while `FlushAll` flushes an open writer are kept: they stand in
  -- the queue, in order, behind the queued sessions that failed.
  flush_during-enqueuing :
      (sessions : List MemorySession) (w : Writer) (world : W)
      → w.is_closed ≡ false
      → (flush_during f (map enqueuing sessions) w world).1.queue
        ≡ (flush_all f w world).1.queue ++ sessions
  unfolding flush_during flush_all
  flush_during-enqueuing sessions w world h =
      let items = w.queue ++ values w.cache in
      let b = (flush_loop f 0 (length items - length (keys w.cache)) items empty_batch world).1 in
      let w₁ = record w { queue = [] } in
      let ks = keys w.cache in
      ap (λ v. (commit ks b v).0.queue) (queue-calls sessions w₁ h)
      ∙ ap (λ v. v.queue) (writer-commit ks b (record w { queue = sessions }))
      ∙ ap (λ q. q ++ sessions)
          (sym (append-nil b.failed_queue) ∙ sym (ap (λ v. v.queue) (writer-commit ks b w₁)))
