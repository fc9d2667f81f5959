-- ===== src/Leases.antt =====
-- service/action_leases.go: leases on actions. `Table` is the two SQL tables with their statements,
-- `Params` the normalized parameters, `Service` the operations, one transaction each.
pub mod Table
pub mod Rows
pub mod Params
pub mod Service
mod Examples
