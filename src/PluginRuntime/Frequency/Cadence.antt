-- ===== src/PluginRuntime/Frequency/Cadence.antt =====
-- How often a router with a configured frequency goes to the flusher.
use goncho.Prelude.{
  String, ℕ, suc, ◌+◌, ◌/◌, ◌%◌, ◌<◌, ◌≡◌, refl, ◌∙◌, Bool, true, false, ◌&&◌, Option, none, some,
  List, [], ◌∷◌, eqb, if◌then◌else◌, length, arith, Bool-cases, inl, inr, lt→ltb, if_cases,
  if_intro,
}
use goncho.Prelude.Int.{ℤ, pos, negsuc, pos_part, not_positive}
use goncho.Prelude.Text.{trim_space}
use goncho.PluginRuntime.Session.{MemorySession, Flusher}
use goncho.PluginRuntime.Writer.{Writer}
use goncho.PluginRuntime.Router.{
  Router, Frequency, Mode, async, turn, session, every, async_frequency, new, is_due, flush, save,
  save_all,
}
use goncho.PluginRuntime.Router.Cadence.{div-suc}
use goncho.PluginRuntime.Frequency.{
  RawValue, nil, another, int, int64, float64, text, invalid_frequency, turn_frequency,
  session_frequency, if_positive, if_whole, if_number, parse,
}

-- What a configured value is read as.
data IsParsed : Frequency → Type 0 where
  parsed_async : IsParsed async_frequency
  parsed_turn : IsParsed turn_frequency
  parsed_session : IsParsed session_frequency
  parsed_invalid : IsParsed invalid_frequency
  parsed_every :
      (n : ℕ) (raw : String)
      → 0 < n
      → IsParsed (record { mode = every; every_count = pos n; raw = raw })

abbrev pub is_every : Mode → Bool
is_every every = true
is_every _ = false

IsParsed-positive :
    (fr : Frequency) → IsParsed fr → (is_every fr.mode && not_positive fr.every_count) ≡ false
IsParsed-positive _ parsed_async = refl
IsParsed-positive _ parsed_turn = refl
IsParsed-positive _ parsed_session = refl
IsParsed-positive _ parsed_invalid = refl
IsParsed-positive _ (parsed_every n raw h) = ground arith

if_positive-IsParsed : (n : ℤ) (raw : String) → IsParsed (if_positive n raw)
if_positive-IsParsed (pos n) raw =
    if_cases IsParsed (not_positive (pos n)) _ _ (λ zero. parsed_invalid)
      (λ more. parsed_every n raw (ground (arith, more)))
if_positive-IsParsed (negsuc n) raw = parsed_invalid

module _ {F : Type 0} (to_lower : String → String) (atoi : String → Option ℤ) (itoa : ℤ → String)
    (whole : F → Option ℤ) where
  if_whole-IsParsed : (o : Option ℤ) → IsParsed (if_whole to_lower atoi itoa whole o)
  if_whole-IsParsed none = parsed_invalid
  if_whole-IsParsed (some n) = if_positive-IsParsed n (itoa n)

  if_number-IsParsed :
      (trimmed : String) (o : Option ℤ) → IsParsed (if_number to_lower atoi itoa whole trimmed o)
  if_number-IsParsed trimmed none = parsed_invalid
  if_number-IsParsed trimmed (some n) = if_positive-IsParsed n trimmed

  parse-IsParsed : (v : RawValue F) → IsParsed (parse to_lower atoi itoa whole v)
  unfolding parse
  parse-IsParsed nil = parsed_async
  parse-IsParsed another = parsed_invalid
  parse-IsParsed (int n) = if_positive-IsParsed n (itoa n)
  parse-IsParsed (int64 n) = if_positive-IsParsed n (itoa n)
  parse-IsParsed (float64 v) = if_whole-IsParsed (whole v)
  parse-IsParsed (text value) = if_intro IsParsed _ _ _ parsed_async (
      if_intro IsParsed _ _ _ parsed_turn (
        if_intro IsParsed _ _ _ parsed_session
          (if_number-IsParsed (to_lower (trim_space value)) (atoi (to_lower (trim_space value))))))

module _ {W E : Type 0} (f : Flusher W E) where
  -- The flusher, with the number of its calls as part of what it acts on.
  abbrev pub counting : Flusher (W × ℕ) E
  counting = record {
    flush_plugin_session =
        λ s x. let (world, failed) = f.flush_plugin_session s x.0 in ((world, suc x.1), failed);
  }

  abbrev calls_after : Router → List MemorySession → W × ℕ → ℕ
  calls_after r ss x = (save_all (some counting) r ss x).1.1

  abbrev router : Mode → ℤ → String → ℕ → Option Writer → Router
  router mode n raw t w = record {
    frequency = record { mode = mode; every_count = n; raw = raw };
    turn_count = t;
    async_writer = w;
  }

  save-every :
      (n : ℕ) (raw : String) (t : ℕ) (w : Option Writer) (s : MemorySession) (x : W × ℕ)
      → 0 < n
      → ((save (some counting) (router every (pos n) raw t w) s x).0
          ≡ router every (pos n) raw (t + 1) w)
        × ((save (some counting) (router every (pos n) raw t w) s x).1.1
            ≡ (if eqb ((t + 1) % n) 0 then suc x.1 else x.1))
  unfolding save is_due flush
  save-every n raw t w s x h = elim (Bool-cases (eqb ((t + 1) % n) 0)) [
    | inl e ↦ rw (lt→ltb 0 n h, e) (refl, refl)
    | inr e ↦ rw (lt→ltb 0 n h, e) (refl, refl)
  ]

  calls-every :
      (n : ℕ) (raw : String) (ss : List MemorySession) (t : ℕ) (w : Option Writer) (x : W × ℕ)
      → 0 < n
      → calls_after (router every (pos n) raw t w) ss x + t / n ≡ x.1 + (t + length ss) / n
  unfolding save_all
  calls-every n raw [] t w x h = ground arith
  calls-every n raw (s ∷ ss) t w x h =
      let y = save (some counting) (router every (pos n) raw t w) s x in
      let (kept, counted) = save-every n raw t w s x h in
      let e : t + suc (length ss) ≡ t + 1 + length ss = omega arith in
      rw (kept, e) (ground (arith, counted, div-suc t n h, calls-every n raw ss (t + 1) w y.1 h))

  calls-turn :
      (ss : List MemorySession) (t : ℕ) (w : Option Writer) (x : W × ℕ)
      → calls_after (router turn (pos 0) "turn" t w) ss x ≡ x.1 + length ss
  unfolding save_all save flush
  calls-turn [] t w x = omega arith
  calls-turn (s ∷ ss) t w x =
      calls-turn ss (t + 1) w ((f.flush_plugin_session s x.0).0, suc x.1) ∙ omega arith

  calls-session :
      (ss : List MemorySession) (t : ℕ) (w : Option Writer) (x : W × ℕ)
      → calls_after (router session (pos 0) "session" t w) ss x ≡ x.1
  unfolding save_all save
  calls-session [] t w x = refl
  calls-session (s ∷ ss) t w x = calls-session ss (t + 1) _ x

  calls-async :
      (ss : List MemorySession) (t : ℕ) (w : Option Writer) (x : W × ℕ)
      → calls_after (router async (pos 0) "async" t w) ss x ≡ x.1
  unfolding save_all save
  calls-async [] t w x = refl
  calls-async (s ∷ ss) t w x = calls-async ss (t + 1) _ x

  -- How many of so many turns flush at once with a frequency.
  abbrev pub flushes : Mode → ℤ → ℕ → ℕ
  flushes every n turns = turns / pos_part n
  flushes turn n turns = turns
  flushes _ n turns = 0

  IsParsed-flushes :
      (fr : Frequency) (w : Option Writer) (ss : List MemorySession) (world : W)
      → IsParsed fr
      → calls_after (new fr w) ss (world, 0) ≡ flushes fr.mode fr.every_count (length ss)
  unfolding new
  IsParsed-flushes _ w ss world parsed_async = calls-async ss 0 w (world, 0)
  IsParsed-flushes _ w ss world parsed_turn = calls-turn ss 0 w (world, 0) ∙ omega arith
  IsParsed-flushes _ w ss world parsed_session = calls-session ss 0 w (world, 0)
  IsParsed-flushes _ w ss world parsed_invalid = calls-async ss 0 w (world, 0)
  IsParsed-flushes _ w ss world (parsed_every n raw h) =
      let e = calls-every n raw ss 0 w (world, 0) h in ground (arith, e)

module _ {F : Type 0} (to_lower : String → String) (atoi : String → Option ℤ) (itoa : ℤ → String)
    (whole : F → Option ℤ) {W E : Type 0} (f : Flusher W E) where
  -- For every value of the configuration, a new router with the frequency that is read from it calls the
  -- flusher in a series of calls of `Save` as often as the frequency says: with "every n turns" the
  -- number of turns divided by n, which is then positive, with "turn" once for each, and otherwise,
  -- where the write is queued or deferred, never.
  pub parse-flushes :
      (v : RawValue F) (w : Option Writer) (ss : List MemorySession) (world : W)
      → let fr = parse to_lower atoi itoa whole v in
        ((save_all (some (counting f)) (new fr w) ss (world, 0)).1.1
          ≡ flushes f fr.mode fr.every_count (length ss))
        × ((is_every fr.mode && not_positive fr.every_count) ≡ false)
  parse-flushes v w ss world =
      let parsed = parse-IsParsed to_lower atoi itoa whole v in
      (IsParsed-flushes f _ w ss world parsed, IsParsed-positive _ parsed)
