-- ===== src/Schedules.antt =====
-- src/suiban/schedules: cadences and their next run (Cadence), the stored schedules (Store), and the
-- scheduler that fires them (Runner).
pub mod Cadence
pub mod Store
pub mod Runner
mod Parsing
mod Earliest
mod Due
mod Overlap
mod Tests
