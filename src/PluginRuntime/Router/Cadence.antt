-- ===== src/PluginRuntime/Router/Cadence.antt =====
-- What each write frequency makes of a series of calls of `Save`.
use goncho.Prelude.{
  String, not, ℕ, suc, ◌+◌, ◌/◌, ◌%◌, ◌<◌, ◌≡◌, refl, Bool, true, false, Option, none, some, List,
  [], ◌∷◌, ◌++◌, map, eqb, if◌then◌else◌, length, arith, Bool-cases, inl, inr, lt→ltb,
}
use goncho.Prelude.Int.{pos}
use native.Mathlib.Nat.{add-zero}
use mathlib.Core.List.{append-nil, append_assoc}
use goncho.PluginRuntime.Session.{MemorySession, Flusher}
use goncho.PluginRuntime.Writer.{Writer}
use goncho.PluginRuntime.Router.{
  Router, RouteResult, RouteCode, async, every, deferred, just, queued, is_due, flush, save,
  save_all, flush_outcome,
}

abbrev is_deferred : RouteCode → Bool
is_deferred deferred = true
is_deferred _ = false

-- How many calls of `Save` went to the flusher.
abbrev attempts : List RouteResult → ℕ
attempts [] = 0
attempts (r ∷ rs) = let rest = attempts rs in if is_deferred r.code then rest else suc rest

pub div-suc : (t n : ℕ) → 0 < n → (t + 1) / n ≡ t / n + (if eqb ((t + 1) % n) 0 then 1 else 0)
div-suc t n h = grind arith

-- A router with the frequency "every n turns", after `t` turns.
abbrev every_router : ℕ → ℕ → String → Option Writer → Router
every_router n t raw w = record {
  frequency = record { mode = every; every_count = pos n; raw = raw };
  turn_count = t;
  async_writer = w;
}

-- A router with the frequency "async" and the given writer, after `t` turns.
abbrev async_router : ℕ → String → Writer → Router
async_router t raw w = record {
  frequency = record { mode = async; every_count = pos 0; raw = raw };
  turn_count = t;
  async_writer = some w;
}

outcome_attempts : {E : Type 0} (o : Option E) → is_deferred (flush_outcome o).code ≡ false
unfolding flush_outcome
outcome_attempts none = refl
outcome_attempts (some e) = refl

flush_attempts :
    {W E : Type 0} (f : Option (Flusher W E)) (s : MemorySession) (world : W)
    → is_deferred (flush f s world).1.code ≡ false
unfolding flush
flush_attempts none s world = refl
flush_attempts (some f) s world = outcome_attempts (f.flush_plugin_session s world).1

module _ {W E : Type 0} (f : Option (Flusher W E)) where
  save_every :
      (n t : ℕ) (raw : String) (w : Option Writer) (s : MemorySession) (world : W)
      → 0 < n
      → ((save f (every_router n t raw w) s world).0 ≡ every_router n (t + 1) raw w)
        × (is_deferred (save f (every_router n t raw w) s world).2.code ≡ not (eqb ((t + 1) % n) 0))
  unfolding save is_due
  save_every n t raw w s world h = elim (Bool-cases (eqb ((t + 1) % n) 0)) [
    | inl e ↦ rw (lt→ltb 0 n h, e) (refl, flush_attempts f s world)
    | inr e ↦ rw (lt→ltb 0 n h, e) (refl, refl)
  ]

  -- With the frequency "every n turns", n positive, the number of calls of `Save` in a series that
  -- go to the flusher is the number of multiples of n that the turn counter passes; the others
  -- answer that the write is deferred.
  save_all-every :
      (n : ℕ) (raw : String) (w : Option Writer) (ss : List MemorySession) (t : ℕ) (world : W)
      → 0 < n
      → attempts (save_all f (every_router n t raw w) ss world).2 + t / n ≡ (t + length ss) / n
  unfolding save_all
  save_all-every n raw w [] t world h = ground arith
  save_all-every n raw w (s ∷ ss) t world h =
      let world₁ = (save f (every_router n t raw w) s world).1 in
      let (kept, due) = save_every n t raw w s world h in
      let e : t + suc (length ss) ≡ t + 1 + length ss = omega arith in
      rw (kept, e) (ground (arith, due, div-suc t n h, save_all-every n raw w ss (t + 1) world₁ h))

  save_async_open :
      (raw : String) (t : ℕ) (w : Writer) (s : MemorySession) (world : W)
      → w.is_closed ≡ false
      → save f (async_router t raw w) s world
        ≡ (async_router (t + 1) raw (record w { queue = w.queue ++ s ∷ [] }), world, just queued)
  unfolding save
  save_async_open raw t w s world h = ground arith

  -- With the frequency "async" and an open writer, each call of `Save` answers that the session is
  -- queued, the sessions are appended to the queue of the writer in order, and the flusher is not
  -- called.
  save_all-async :
      (raw : String) (ss : List MemorySession) (t : ℕ) (w : Writer) (world : W)
      → w.is_closed ≡ false
      → save_all f (async_router t raw w) ss world ≡ (
        async_router (t + length ss) raw (record w { queue = w.queue ++ ss }),
        world,
        map (λ s. just queued) ss,
      )
  unfolding save_all
  save_all-async raw [] t w world h = rw (append-nil w.queue, add-zero)
  save_all-async raw (s ∷ ss) t w world h =
      let e : t + suc (length ss) ≡ t + 1 + length ss = omega arith in
      rw (
        save_async_open raw t w s world h,
        save_all-async raw ss (t + 1) (record w { queue = w.queue ++ s ∷ [] }) world h,
        append_assoc w.queue (s ∷ []) ss,
        e,
      )
