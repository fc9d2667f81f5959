-- ===== src/Dreams/Examples.antt =====
-- Concrete runs of the dream scheduler.
use goncho.Prelude.{Bool, true, false, some, [], ◌∷◌, arith}
use goncho.Prelude.Int.{pos}
use goncho.Dreams.Table.{Conclusion, Db, Statement}
use goncho.Dreams.Eligibility.{DreamEligibility, ScheduleConfig, DreamScheduleParams}
use goncho.Dreams.Scheduler.{schedule, cancel_pending_for_observed}
use goncho.Dreams.Dedupe.{IsSingle}
use goncho.Dreams.Cancellation.{begin, scheduled, cancelled, Run-IsSingle}

abbrev no_failures : Statement → Bool
no_failures s = false

abbrev note : Conclusion
note = record {
  id = 5;
  workspace_id = "default";
  observer_peer_id = "goncho";
  peer_id = "ana";
  status = "processed";
  created_at = 100;
}

abbrev empty_db : Db
empty_db = record {
  has_dreams = true;
  conclusions = note ∷ [];
  dreams = [];
  next_id = 1;
  fails = no_failures;
}

abbrev config : ScheduleConfig
config = record {
  workspace_id = "default";
  observer_peer_id = "goncho";
  dream_enabled = true;
  idle_timeout = pos 60000000000;
  min_conclusions = pos 1;
  cooldown = pos 0;
}

abbrev request : DreamScheduleParams
request = record { peer = " ana "; now = some 200; manual = false; reason = "" }

empty_db-IsSingle : IsSingle empty_db
empty_db-IsSingle workspace_id observer peer = omega arith

Run-IsSingle_example :
    IsSingle
      (cancel_pending_for_observed "default" "ana" 300 ""
        (schedule false 0 config request empty_db).0).0
Run-IsSingle_example =
    Run-IsSingle empty_db _ empty_db-IsSingle
      (cancelled "default" "ana" 300 "" (scheduled false 0 config request begin))

abbrev ready_eligibility : DreamEligibility
ready_eligibility = record {
  new_conclusions = 1;
  max_conclusion_id = 5;
  last_conclusion_id = 0;
  last_activity_at = 100;
  idle_until = 160;
  cooldown_until = 0;
  last_dream_id = 0;
}
