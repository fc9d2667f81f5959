-- ===== src/PluginRuntime/Writer.antt =====
-- internal/pluginruntime/asyncwrite/writer.go. `FlushAll` holds the lock twice, to take the sessions
-- and to put back what failed; `collect`, `flush_loop` and `commit` are its three parts, and
-- `flush_during` runs it with the calls that other goroutines make while it flushes.
pub mod Merging
pub mod Loop
pub mod Conservation
pub mod Races
use goncho.Prelude.{
  ℕ, zero, suc, ◌+◌, ◌-◌, ◌≡◌, String, Bool, true, false, Option, none, some, List, [], ◌∷◌, ◌++◌,
  ltb, eqb, if◌then◌else◌, length, ◌||◌,
}
use goncho.Prelude.Dict.{Dict, lookup, insert, remove, keys}
use goncho.PluginRuntime.Session.{MemorySession, Flusher}

-- The codes `goncho_async_enqueued`, `_flushed`, `_retry`, `_flush_failed`, `_shutdown`, `_closed`.
pub data AsyncCode : Type 0 where
  enqueued flushed retry flush_failed shutdown closed : AsyncCode

pub data FlushError (E : Type 0) : Type 0 where
  no_flusher : FlushError E
  rejected : E → FlushError E

pub record Result : Type 0 where
  pub code : AsyncCode
  pub flushed_count : ℕ
  pub pending : ℕ
  pub evidence : List AsyncCode

pub record Writer : Type 0 where
  pub queue : List MemorySession
  pub cache : Dict MemorySession
  pub is_closed : Bool

unfoldable new_writer : Writer
new_writer = record { queue = []; cache = []; is_closed = false }

abbrev same_code : AsyncCode → AsyncCode → Bool
same_code enqueued enqueued = true
same_code flushed flushed = true
same_code retry retry = true
same_code flush_failed flush_failed = true
same_code shutdown shutdown = true
same_code closed closed = true
same_code _ _ = false

-- evidence.Has, evidence.Append
unfoldable pub has : List AsyncCode → AsyncCode → Bool
has [] code = false
has (item ∷ items) code = same_code item code || has items code

unfoldable pub append : List AsyncCode → AsyncCode → List AsyncCode
append items code = if has items code then items else items ++ code ∷ []

abbrev pub pending_count : Writer → ℕ
pending_count w = length w.queue + length w.cache

unfoldable pub enqueue : MemorySession → Writer → Writer × Result
enqueue session w =
    let w' = record w { queue = w.queue ++ session ∷ [] } in
    if w.is_closed
    then (w, record { code = closed; flushed_count = 0; pending = pending_count w; evidence = [] })
    else (
      w',
      record { code = enqueued; flushed_count = 0; pending = pending_count w'; evidence = [] },
    )

unfoldable pub cache_session : MemorySession → Writer → Writer
cache_session item w = record w { cache = insert item.key item w.cache }

abbrev pub values : Dict MemorySession → List MemorySession
values [] = []
values ((k, session) ∷ m) = session ∷ values m

-- The first critical section of `FlushAll`: the sessions to flush, the keys of the cached ones, and
-- the writer with its queue emptied.
unfoldable collect : Writer → List MemorySession × List String × Writer
collect w = (w.queue ++ values w.cache, keys w.cache, record w { queue = [] })

-- What the loop of `FlushAll` has gathered.
pub record Batch : Type 0 where
  pub flushed_count : ℕ
  pub evidence : List AsyncCode
  pub failed_queue : List MemorySession
  pub failed_cache : Dict MemorySession

unfoldable pub empty_batch : Batch
empty_batch = record { flushed_count = 0; evidence = []; failed_queue = []; failed_cache = [] }

-- The error of the second attempt, as `flushWithRetry` returns it.
abbrev pub rejection : {E : Type 0} → Option E → Option (FlushError E)
rejection none = none
rejection (some e) = some (rejected e)

-- What one round of the loop does with the outcome for the session at index `i`.
unfoldable pub settle : {E : Type 0} → ℕ → ℕ → MemorySession → Option (FlushError E) → Batch → Batch
settle i queued session none b = record b { flushed_count = b.flushed_count + 1 }
settle i queued session (some e) b =
    if ltb i queued
    then record b { failed_queue = b.failed_queue ++ session ∷ [] }
    else record b { failed_cache = insert session.key session b.failed_cache }

module _ {W E : Type 0} where
  -- The second attempt, after a first one that failed.
  unfoldable retry_flush :
      Flusher W E
      → MemorySession
      → Option E
      → List AsyncCode
      → W
      → W × List AsyncCode × Option (FlushError E)
  unfolding append
  retry_flush f session none evidence world = (world, evidence, none)
  retry_flush f session (some _) evidence world =
      let (world', second) = f.flush_plugin_session session world in
      (world', append evidence retry, rejection second)

  unfoldable pub flush_with_retry :
      Option (Flusher W E)
      → MemorySession
      → List AsyncCode
      → W
      → W × List AsyncCode × Option (FlushError E)
  unfolding retry_flush
  flush_with_retry none session evidence world = (world, evidence, some no_flusher)
  flush_with_retry (some f) session evidence world =
      let (world', first) = f.flush_plugin_session session world in
      retry_flush f session first evidence world'

  -- The loop over the items from index `i` on; the first `queued` of them came from the queue.
  unfoldable pub flush_loop :
      Option (Flusher W E) → ℕ → ℕ → List MemorySession → Batch → W → W × Batch
  unfolding flush_with_retry settle
  flush_loop f i queued [] b world = (world, b)
  flush_loop f i queued (session ∷ items) b world =
      let (world', evidence, failed) = flush_with_retry f session b.evidence world in
      flush_loop f (suc i) queued items
        (settle i queued session failed (record b { evidence = evidence })) world'

abbrev pub remove_all : List String → Dict MemorySession → Dict MemorySession
remove_all [] m = m
remove_all (k ∷ ks) m = remove_all ks (remove k m)

abbrev pub insert_all : Dict MemorySession → Dict MemorySession → Dict MemorySession
insert_all [] m = m
insert_all ((k, session) ∷ failed) m = insert_all failed (insert k session m)

-- The second critical section of `FlushAll`, and its return.
unfoldable pub commit : List String → Batch → Writer → Writer × Result
unfolding append
commit cache_keys b w =
    let w' = record w {
      queue = b.failed_queue ++ w.queue;
      cache = insert_all b.failed_cache (remove_all cache_keys w.cache);
    } in
    let left = pending_count w' in
    if ltb 0 left
    then (
      w',
      record {
        code = flush_failed;
        flushed_count = b.flushed_count;
        pending = left;
        evidence = append b.evidence flush_failed;
      },
    )
    else (
      w',
      record {
        code = flushed;
        flushed_count = b.flushed_count;
        pending = left;
        evidence = b.evidence;
      },
    )

-- A call that another goroutine makes while the sessions are flushed, with the lock free.
pub data Call : Type 0 where
  enqueuing caching : MemorySession → Call

unfoldable pub call : Call → Writer → Writer
unfolding enqueue cache_session
call (enqueuing session) w = (enqueue session w).0
call (caching session) w = cache_session session w

unfoldable pub calls : List Call → Writer → Writer
unfolding call
calls [] w = w
calls (c ∷ cs) w = calls cs (call c w)

module _ {W E : Type 0} (f : Option (Flusher W E)) where
  -- `FlushAll`, with the given calls between its two critical sections.
  unfoldable pub flush_during : List Call → Writer → W → W × Writer × Result
  unfolding collect flush_loop commit calls empty_batch
  flush_during during w world =
      let (items, cache_keys, w₁) = collect w in
      let (world', b) = flush_loop f 0 (length items - length cache_keys) items empty_batch world in
      let (w₂, result) = commit cache_keys b (calls during w₁) in (world', w₂, result)

  unfoldable pub flush_all : Writer → W → W × Writer × Result
  unfolding flush_during
  flush_all w world = flush_during [] w world

  -- `Shutdown`: flush, then close.
  unfoldable shut_down : Writer → W → W × Writer × Result
  unfolding flush_all
  shut_down w world =
      let (world', w₁, result) = flush_all w world in
      let w₂ = record w₁ { is_closed = true } in
      (world', w₂, record result { code = shutdown; pending = pending_count w₂ })
