-- ===== src/Sched.antt =====
-- src/suiban/sched and src/suiban/kv.py: the VRAM budget, KV-cache resolution, the loadout planner.
pub mod Budget
pub mod Notices
pub mod Kv
pub mod Planner
