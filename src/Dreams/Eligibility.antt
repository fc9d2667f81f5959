-- ===== src/Dreams/Eligibility.antt =====
-- internal/dreamscheduler/scheduler.go: the configuration and the parameters of a request, and
-- `readEligibility`, what the tables say of a peer.
use goncho.Prelude.{ℕ, ◌+◌, ◌/◌, String, Bool, Option, none, some, eqb, if◌then◌else◌}
use goncho.Prelude.Int.{ℤ, pos_part, not_positive}
use goncho.Prelude.Text.{trim_space}
use goncho.Prelude.Result.{Result, ok, err}
use goncho.Dreams.Evidence.{Intent}
use goncho.Dreams.Table.{Db, DbError, Counted, coalesce, latest_completed_intent, count_processed}

-- Durations are nanoseconds.
pub record ScheduleConfig : Type 0 where
  pub workspace_id : String
  pub observer_peer_id : String
  pub dream_enabled : Bool
  pub idle_timeout : ℤ
  pub min_conclusions : ℤ
  pub cooldown : ℤ

-- `now` is `none` for the zero time.
pub record DreamScheduleParams : Type 0 where
  pub peer : String
  pub now : Option ℕ
  pub manual : Bool
  pub reason : String

pub record DreamEligibility : Type 0 where
  pub new_conclusions : ℕ
  pub max_conclusion_id : ℕ
  pub last_conclusion_id : ℕ
  pub last_activity_at : ℕ
  pub idle_until : ℕ
  pub cooldown_until : ℕ
  pub last_dream_id : ℕ

abbrev pub second : ℕ
second = 1000000000

-- One hour, 8 hours, in nanoseconds; 50 conclusions.
abbrev default_idle_timeout : ℕ
default_idle_timeout = 3600000000000

abbrev default_cooldown : ℕ
default_cooldown = 28800000000000

abbrev default_min_conclusions : ℕ
default_min_conclusions = 50

abbrev pub or_default : ℤ → ℕ → ℕ
or_default n d = if not_positive n then d else pos_part n

-- The configuration after `normalizeScheduleConfig`, with whole seconds.
pub record Normal : Type 0 where
  pub workspace_id : String
  pub observer_peer_id : String
  pub idle_seconds : ℕ
  pub min_conclusions : ℕ
  pub cooldown_seconds : ℕ

unfoldable pub normalize : ScheduleConfig → Normal
normalize cfg = record {
  workspace_id = trim_space cfg.workspace_id;
  observer_peer_id = trim_space cfg.observer_peer_id;
  idle_seconds = or_default cfg.idle_timeout default_idle_timeout / second;
  min_conclusions = or_default cfg.min_conclusions default_min_conclusions;
  cooldown_seconds = or_default cfg.cooldown default_cooldown / second;
}

-- What the last completed dream contributes.
abbrev from_last : ℕ → Option Intent → DreamEligibility
from_last cooldown none = record {
  new_conclusions = 0;
  max_conclusion_id = 0;
  last_conclusion_id = 0;
  last_activity_at = 0;
  idle_until = 0;
  cooldown_until = 0;
  last_dream_id = 0;
}
from_last cooldown (some last) = record {
  new_conclusions = 0;
  max_conclusion_id = 0;
  last_conclusion_id = last.last_conclusion_id;
  last_activity_at = 0;
  idle_until = 0;
  cooldown_until =
      if eqb last.cooldown_until 0 then last.last_activity_at + cooldown else last.cooldown_until;
  last_dream_id = last.id;
}

abbrev idle_from : ℕ → Option ℕ → ℕ
idle_from idle none = 0
idle_from idle (some t) = t + idle

abbrev with_counts : ℕ → DreamEligibility → Counted → DreamEligibility
with_counts idle e c = record e {
  new_conclusions = c.count;
  max_conclusion_id = coalesce c.max_id 0;
  last_activity_at = coalesce c.max_created_at 0;
  idle_until = idle_from idle c.max_created_at;
}

abbrev counted_eligibility :
    ℕ → DreamEligibility → Result DbError Counted → Result DbError DreamEligibility
counted_eligibility idle e (err x) = err x
counted_eligibility idle e (ok c) = ok (with_counts idle e c)

abbrev eligibility_after :
    Db → Normal → String → Result DbError (Option Intent) → Result DbError DreamEligibility
eligibility_after db n peer (err x) = err x
eligibility_after db n peer (ok last) =
    let e = from_last n.cooldown_seconds last in
    counted_eligibility n.idle_seconds e
      (count_processed db n.workspace_id n.observer_peer_id peer e.last_conclusion_id)

unfoldable pub read_eligibility : Db → Normal → String → Result DbError DreamEligibility
read_eligibility db n peer =
    eligibility_after db n peer
      (latest_completed_intent db n.workspace_id n.observer_peer_id peer n.cooldown_seconds)
