-- ===== src/PluginRuntime/Router.antt =====
-- internal/pluginruntime/writerouter/router.go, with the frequency of
-- internal/pluginruntime/writefrequency/frequency.go. The turn counter is an unbounded number: an
-- `int` of 64 bits does not wrap in any run.
pub mod Cadence
use goncho.Prelude.{
  ℕ, zero, suc, ◌+◌, ◌%◌, ◌≡◌, String, Bool, true, false, Option, none, some, List, [], ◌∷◌, ◌++◌,
  ltb, eqb, if◌then◌else◌, ◌&&◌,
}
use goncho.Prelude.Int.{ℤ, pos, pos_part}
use goncho.PluginRuntime.Session.{MemorySession, Flusher}
use goncho.PluginRuntime.Writer
use goncho.PluginRuntime.Writer.{Writer, AsyncCode, enqueue, cache_session}

-- `other` stands for a string that is none of the constants; `unset` is the empty string.
pub data Mode : Type 0 where
  unset invalid async turn session every : Mode
  other : String → Mode

pub record Frequency : Type 0 where
  pub mode : Mode
  pub every_count : ℤ
  pub raw : String

-- The codes `goncho_write_flushed`, `_deferred`, `_queued` and `_flush_failed`.
pub data RouteCode : Type 0 where
  flushed deferred queued flush_failed : RouteCode

pub data Note : Type 0 where
  route : RouteCode → Note
  writer : AsyncCode → Note

pub record RouteResult : Type 0 where
  pub code : RouteCode
  pub evidence : List Note

abbrev pub just : RouteCode → RouteResult
just c = record { code = c; evidence = [] }

-- The router, and the asynchronous writer that it shares.
pub record Router : Type 0 where
  pub frequency : Frequency
  pub turn_count : ℕ
  pub async_writer : Option Writer

abbrev pub async_frequency : Frequency
async_frequency = record { mode = async; every_count = pos 0; raw = "async" }

abbrev effective : Mode → Frequency → Frequency
effective unset f = async_frequency
effective invalid f = async_frequency
effective _ f = f

unfoldable pub new : Frequency → Option Writer → Router
new frequency w = record {
  frequency = effective frequency.mode frequency;
  turn_count = 0;
  async_writer = w;
}

-- What `Save` makes of the answer of `Enqueue`.
unfoldable enqueue_result : AsyncCode → RouteResult
enqueue_result AsyncCode.enqueued = just queued
enqueue_result c = record { code = flush_failed; evidence = writer c ∷ [] }

unfoldable save_async : MemorySession → Option Writer → Option Writer × RouteResult
unfolding enqueue enqueue_result
save_async s none = (none, just deferred)
save_async s (some w) = let (w', result) = enqueue s w in (some w', enqueue_result result.code)

unfoldable save_session : MemorySession → Option Writer → Option Writer
unfolding cache_session
save_session s none = none
save_session s (some w) = some (cache_session s w)

-- The test of the `Every` case, on the counter after its increment.
unfoldable pub is_due : ℤ → ℕ → Bool
is_due n count = ltb 0 (pos_part n) && eqb (count % pos_part n) 0

unfoldable pub flush_outcome : {E : Type 0} → Option E → RouteResult
flush_outcome none = just flushed
flush_outcome (some e) = record { code = flush_failed; evidence = route flush_failed ∷ [] }

module _ {W E : Type 0} where
  unfoldable pub flush : Option (Flusher W E) → MemorySession → W → W × RouteResult
  unfolding flush_outcome
  flush none s world = (world, just flush_failed)
  flush (some f) s world =
      let (world', failed) = f.flush_plugin_session s world in (world', flush_outcome failed)

  -- The `switch` of `Save`, on the router with its counter advanced.
  unfoldable dispatch :
      Option (Flusher W E) → Mode → Router → MemorySession → W → Router × W × RouteResult
  unfolding flush save_async save_session is_due
  dispatch f async r s world =
      let (w, result) = save_async s r.async_writer in
      (record r { async_writer = w }, world, result)
  dispatch f turn r s world = let (world', result) = flush f s world in (r, world', result)
  dispatch f session r s world =
      (record r { async_writer = save_session s r.async_writer }, world, just deferred)
  dispatch f every r s world =
      let (world', result) = flush f s world in
      if is_due r.frequency.every_count r.turn_count
      then (r, world', result)
      else (r, world, just deferred)
  dispatch f _ r s world = (r, world, just deferred)

  -- `Save` on a router that is not nil.
  unfoldable pub save : Option (Flusher W E) → Router → MemorySession → W → Router × W × RouteResult
  unfolding dispatch
  save f r s world =
      dispatch f r.frequency.mode (record r { turn_count = r.turn_count + 1 }) s world

  -- A series of calls of `Save`, with their results.
  unfoldable pub save_all :
      Option (Flusher W E) → Router → List MemorySession → W → Router × W × List RouteResult
  save_all f r [] world = (r, world, [])
  save_all f r (s ∷ rest) world =
      let (r₁, world₁, result) = save f r s world in
      let (r₂, world₂, results) = save_all f r₁ rest world₁ in (r₂, world₂, result ∷ results)
