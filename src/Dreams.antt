-- ===== src/Dreams.antt =====
-- internal/dreamscheduler: the local scheduling of dream work. `Table` is the SQL table with the
-- statements that the source runs on it, `Evidence` the results, `Eligibility` what the tables say of a
-- peer, `Scheduler` the scheduler.
pub mod Evidence
pub mod Table
pub mod Eligibility
pub mod Scheduler
pub mod Gates
pub mod Dedupe
pub mod Cancellation
mod Examples
