-- ===== src/PluginRuntime/Writer/Loop.antt =====
-- The loop of `FlushAll`: what the flusher refuses twice, of the queue and of the cache.
use goncho.Prelude.{
  ℕ, suc, ◌+◌, ◌≡◌, ◌≤◌, refl, sym, ap, ◌∙◌, Bool, true, false, Option, none, some, List, [], ◌∷◌,
  ◌++◌, if◌then◌else◌, length, arith, contains, Bool-cases, Option-cases, ◌<◌, inl, inr,
}
use goncho.Prelude.Dict.{Dict, insert, IsMap}
use mathlib.Core.List.{append-nil, append_assoc}
use goncho.PluginRuntime.Session.{MemorySession, Flusher}
use goncho.PluginRuntime.Writer.{AsyncCode, Batch, flush_with_retry, flush_loop, values}
use goncho.PluginRuntime.Writer.Merging.{
  KeysMatch, is_none, is_none-rejection, settle-taken, settle-queued, settle-cached, insert-fresh,
  Apart, snoc-Apart, head-Apart, tail-Apart,
}

module _ {W E : Type 0} where
  -- A session is tried a second time only if the first attempt fails; `true` if the flusher took it.
  unfoldable pub attempt : Option (Flusher W E) → MemorySession → W → W × Bool
  attempt none session world = (world, false)
  attempt (some f) session world =
      let (world₁, first) = f.flush_plugin_session session world in
      let (world₂, second) = f.flush_plugin_session session world₁ in
      if is_none first then (world₁, true) else (world₂, is_none second)

  -- The sessions that are not delivered, in order.
  unfoldable pub survive : Option (Flusher W E) → List MemorySession → W → W × List MemorySession
  survive f [] world = (world, [])
  survive f (session ∷ rest) world =
      let (world₁, taken) = attempt f session world in
      let (world₂, left) = survive f rest world₁ in (world₂, if taken then left else session ∷ left)

  unfoldable pub survive_cache :
      Option (Flusher W E) → Dict MemorySession → W → W × Dict MemorySession
  survive_cache f [] world = (world, [])
  survive_cache f ((k, session) ∷ rest) world =
      let (world₁, taken) = attempt f session world in
      let (world₂, left) = survive_cache f rest world₁ in
      (world₂, if taken then left else (k, session) ∷ left)

  world-flush :
      (f : Option (Flusher W E)) (session : MemorySession) (evidence : List AsyncCode) (world : W)
      → (flush_with_retry f session evidence world).0 ≡ (attempt f session world).0
  unfolding flush_with_retry attempt
  world-flush none session evidence world = refl
  world-flush (some f) session evidence world =
      elim (Option-cases (f.flush_plugin_session session world).1) [
        | inl e ↦ rw e
        | inr (x, e) ↦ rw e
      ]

  failed-flush :
      (f : Option (Flusher W E)) (session : MemorySession) (evidence : List AsyncCode) (world : W)
      → is_none (flush_with_retry f session evidence world).2 ≡ (attempt f session world).1
  unfolding flush_with_retry attempt
  failed-flush none session evidence world = refl
  failed-flush (some f) session evidence world =
      elim (Option-cases (f.flush_plugin_session session world).1) [
        | inl e ↦ rw e
        | inr (x, e) ↦ rw e (
            is_none-rejection
              (f.flush_plugin_session session (f.flush_plugin_session session world).0).1)
      ]

  -- One round of the loop, by its outcome.
  loop-taken :
      (f : Option (Flusher W E)) (i queued : ℕ) (session : MemorySession)
      (items : List MemorySession) (b : Batch) (world : W)
      → (attempt f session world).1 ≡ true
      → flush_loop f i queued (session ∷ items) b world
        ≡ flush_loop f
            (suc i)
            queued
            items
            (record b {
              evidence = (flush_with_retry f session b.evidence world).1;
              flushed_count = b.flushed_count + 1;
            })
            (attempt f session world).0
  unfolding flush_loop
  loop-taken f i queued session items b world h = cc (
    world-flush f session b.evidence world,
    settle-taken i queued session (flush_with_retry f session b.evidence world).2
        (record b { evidence = (flush_with_retry f session b.evidence world).1 })
        (failed-flush f session b.evidence world ∙ h),
  )

  loop-queued :
      (f : Option (Flusher W E)) (i queued : ℕ) (session : MemorySession)
      (items : List MemorySession) (b : Batch) (world : W)
      → (attempt f session world).1 ≡ false
      → i < queued
      → flush_loop f i queued (session ∷ items) b world
        ≡ flush_loop f
            (suc i)
            queued
            items
            (record b {
              evidence = (flush_with_retry f session b.evidence world).1;
              failed_queue = b.failed_queue ++ session ∷ [];
            })
            (attempt f session world).0
  unfolding flush_loop
  loop-queued f i queued session items b world h l = cc (
    world-flush f session b.evidence world,
    settle-queued i queued session (flush_with_retry f session b.evidence world).2
        (record b { evidence = (flush_with_retry f session b.evidence world).1 })
        (failed-flush f session b.evidence world ∙ h) l,
  )

  loop-cached :
      (f : Option (Flusher W E)) (i queued : ℕ) (session : MemorySession)
      (items : List MemorySession) (b : Batch) (world : W)
      → (attempt f session world).1 ≡ false
      → queued ≤ i
      → flush_loop f i queued (session ∷ items) b world
        ≡ flush_loop f
            (suc i)
            queued
            items
            (record b {
              evidence = (flush_with_retry f session b.evidence world).1;
              failed_cache = insert session.key session b.failed_cache;
            })
            (attempt f session world).0
  unfolding flush_loop
  loop-cached f i queued session items b world h l = cc (
    world-flush f session b.evidence world,
    settle-cached i queued session (flush_with_retry f session b.evidence world).2
        (record b { evidence = (flush_with_retry f session b.evidence world).1 })
        (failed-flush f session b.evidence world ∙ h) l,
  )

  -- What the loop has done with the cached sessions that it started from.
  pub record CacheDone (f : Option (Flusher W E)) (m : Dict MemorySession) (world : W)
      (b b' : Batch) : Type 0 where
    pub queue_kept : b'.failed_queue ≡ b.failed_queue
    pub cache_left : b'.failed_cache ≡ b.failed_cache ++ (survive_cache f m world).1
    pub counted : b'.flushed_count + length (survive_cache f m world).1 ≡ b.flushed_count + length m

  cache_loop :
      (f : Option (Flusher W E)) (i queued : ℕ) (m : Dict MemorySession) (b : Batch) (world : W)
      → queued ≤ i
      → KeysMatch m
      → IsMap m
      → Apart b.failed_cache m
      → CacheDone f m world b (flush_loop f i queued (values m) b world).1
  unfolding flush_loop survive_cache
  cache_loop f i queued [] b world past keyed d h = record {
    queue_kept = refl;
    cache_left = sym (append-nil b.failed_cache);
    counted = refl;
  }
  cache_loop f i queued ((k, session) ∷ m) b world past keyed d h =
      let b₁ = record b { evidence = (flush_with_retry f session b.evidence world).1 } in
      let w₁ = (attempt f session world).0 in
      elim (Bool-cases (attempt f session world).1) [
        | inl taken ↦
            let ih =
              cache_loop f (suc i) queued m (record b₁ { flushed_count = b.flushed_count + 1 }) w₁
                (omega arith) keyed.1 d.1 (tail-Apart b.failed_cache k session m h) in
            rw (loop-taken f i queued session (values m) b world taken) (record {
              queue_kept = ih.queue_kept;
              cache_left = rw taken ih.cache_left;
              counted = rw taken (omega (arith, ih.counted));
            })
        | inr left ↦
            let ih =
              cache_loop f (suc i) queued m
                (record b₁ { failed_cache = b.failed_cache ++ (k, session) ∷ [] }) w₁ (omega arith)
                keyed.1 d.1 (snoc-Apart b.failed_cache k session m d h) in
            rw
              (
                loop-cached f i queued session (values m) b world left past,
                ap (λ key. insert key session b.failed_cache) keyed.0
                    ∙ insert-fresh k session b.failed_cache
                        (head-Apart b.failed_cache k session m h),
              )
              (record {
                queue_kept = ih.queue_kept;
                cache_left = rw left (
                    ih.cache_left
                    ∙ append_assoc b.failed_cache ((k, session) ∷ []) (survive_cache f m w₁).1);
                counted = rw left (omega (arith, ih.counted));
              })
      ]

  -- What the loop has done with the queue and then the cache that it started from.
  pub record AllDone (f : Option (Flusher W E)) (qs : List MemorySession) (m : Dict MemorySession)
      (world : W) (b b' : Batch) : Type 0 where
    pub queue_left : b'.failed_queue ≡ b.failed_queue ++ (survive f qs world).1
    pub cache_left : b'.failed_cache ≡ (survive_cache f m (survive f qs world).0).1
    pub counted :
        b'.flushed_count
          + length (survive f qs world).1
          + length (survive_cache f m (survive f qs world).0).1
        ≡ b.flushed_count + length qs + length m

  pub queue_loop :
      (f : Option (Flusher W E)) (i queued : ℕ) (qs : List MemorySession) (m : Dict MemorySession)
      (b : Batch) (world : W)
      → i + length qs ≡ queued
      → KeysMatch m
      → IsMap m
      → b.failed_cache ≡ []
      → AllDone f qs m world b (flush_loop f i queued (qs ++ values m) b world).1
  unfolding flush_loop survive
  queue_loop f i queued [] m b world at keyed d none_yet =
      let ih =
        cache_loop f i queued m b world (omega arith) keyed d
          (rw none_yet (unfold contains in λ j e. refl)) in
      record {
        queue_left = ih.queue_kept ∙ sym (append-nil b.failed_queue);
        cache_left = ih.cache_left ∙ ap (λ c. c ++ (survive_cache f m world).1) none_yet;
        counted = omega (arith, ih.counted);
      }
  queue_loop f i queued (session ∷ qs) m b world at keyed d none_yet =
      let b₁ = record b { evidence = (flush_with_retry f session b.evidence world).1 } in
      let w₁ = (attempt f session world).0 in
      elim (Bool-cases (attempt f session world).1) [
        | inl taken ↦
            let ih =
              queue_loop f (suc i) queued qs m (record b₁ { flushed_count = b.flushed_count + 1 })
                w₁ (omega arith) keyed d none_yet in
            rw (loop-taken f i queued session (qs ++ values m) b world taken) (record {
              queue_left = rw taken ih.queue_left;
              cache_left = ih.cache_left;
              counted = rw taken (omega (arith, ih.counted));
            })
        | inr left ↦
            let ih =
              queue_loop f (suc i) queued qs m
                (record b₁ { failed_queue = b.failed_queue ++ session ∷ [] }) w₁ (omega arith) keyed
                d none_yet in
            rw (loop-queued f i queued session (qs ++ values m) b world left (omega arith))
              (record {
                queue_left = rw left (
                    ih.queue_left ∙ append_assoc b.failed_queue (session ∷ []) (survive f qs w₁).1);
                cache_left = ih.cache_left;
                counted = rw left (omega (arith, ih.counted));
              })
      ]
