-- ===== src/PluginRuntime/Examples.antt =====
-- Runs of the plugin write path on concrete data.
use goncho.Prelude.Int.{ℤ, pos, not_positive}
use goncho.Prelude.Text.{trim_space, is_space}
use goncho.Prelude.{
  ℕ, ◌&&◌, ◌==◌, if◌then◌else◌, length, ◌+◌, ◌≡◌, refl, String, Bool, true, false, Option, none,
  some, List, [], ◌∷◌, ◌++◌, contains,
}
use goncho.Prelude.Dict.{insert, remove}
use goncho.PluginRuntime.Session.{MemorySession, Flusher}
use goncho.PluginRuntime.Router.{new, save, save_all}
use goncho.PluginRuntime.Frequency.{RawValue, text, parse}
use goncho.PluginRuntime.Frequency.Cadence.{counting, flushes, is_every, parse-flushes}
use goncho.PluginRuntime.Writer.{Writer, caching, flush_during, flush_all, pending_count}
use goncho.PluginRuntime.Writer.Loop.{survive, survive_cache}
use goncho.PluginRuntime.Writer.Conservation.{flush_all-survivors}
use goncho.PluginRuntime.Writer.Races.{flush_during-caching}

-- A flusher that refuses the key "b" and notes the keys that it takes.
abbrev take_key : Bool → MemorySession → List String → List String × Option String
take_key true s taken = (taken, some "refused")
take_key false s taken = (taken ++ s.key ∷ [], none)

abbrev flusher : Option (Flusher (List String) String)
flusher =
    some (record { flush_plugin_session = λ s taken. take_key (contains ("b" ∷ []) s.key) s taken })

abbrev session_of : String → MemorySession
session_of key = record {
  key = key;
  user_peer_id = "u";
  assistant_peer_id = "p";
  honcho_session_id = "h";
  messages = [];
}

abbrev busy : Writer
busy = record {
  queue = session_of "a" ∷ session_of "b" ∷ [];
  cache = ("c", session_of "c") ∷ ("b", session_of "b") ∷ [];
  is_closed = false;
}

flush_busy : (flush_all flusher busy []).0 ≡ "a" ∷ "c" ∷ []
unfolding flush_all contains
flush_busy = refl

flush_busy_pending : (flush_all flusher busy []).2.pending ≡ 2
unfolding flush_all contains insert remove
flush_busy_pending = refl

flush_all-survivors_example :
    let (world', w', result) = flush_all flusher busy [] in
    (w'.queue ≡ (survive flusher busy.queue []).1)
    × (w'.cache ≡ (survive_cache flusher busy.cache (survive flusher busy.queue []).0).1)
    × (result.pending ≡ pending_count w')
    × (result.flushed_count + result.pending ≡ 4)
unfolding contains
flush_all-survivors_example =
    flush_all-survivors flusher busy [] (refl, (refl, tt)) (refl, (refl, tt))

flush_during-caching_example :
    flush_during flusher (caching (session_of "c") ∷ []) busy [] ≡ flush_all flusher busy []
unfolding contains
flush_during-caching_example = flush_during-caching flusher (session_of "c") busy [] refl

-- Numbers of one digit, and floats that are their own integers.
abbrev number : String → Option ℤ
number digits = if digits == "2" then some (pos 2) else none

abbrev digit : ℤ → String
digit n = "2"

abbrev float_to_int : ℕ → Option ℤ
float_to_int v = some (pos v)

abbrev sure : Flusher (List String) String
sure = record { flush_plugin_session = λ s taken. (taken ++ s.key ∷ [], none) }

abbrev abc : List MemorySession
abc = session_of "a" ∷ session_of "b" ∷ session_of "c" ∷ []

abbrev every_second : RawValue ℕ
every_second = text " 2"

second_flushed :
    (save_all
      (some (counting sure))
      (new (parse (λ t. t) number digit float_to_int every_second) none)
      abc
      ([], 0)).1
    ≡ ("b" ∷ [], 1)
unfolding save_all save new parse trim_space is_space
second_flushed = refl

parse-flushes_example :
    let fr = parse (λ t. t) number digit float_to_int every_second in
    ((save_all (some (counting sure)) (new fr none) abc ([], 0)).1.1
      ≡ flushes sure fr.mode fr.every_count (length abc))
    × ((is_every fr.mode && not_positive fr.every_count) ≡ false)
parse-flushes_example =
    parse-flushes (λ t. t) number digit float_to_int sure every_second none abc []
