-- ===== src/Jobs.antt =====
-- src/suiban/research/jobs.py: the job table (Store), the manager's operations (Manager), what may happen
-- to it (Steps), and what holds then.
pub mod Store
pub mod Manager
mod Rows
mod Steps
mod Lookup
mod Admission
mod Tasks
mod Single
mod Final
mod Tests
