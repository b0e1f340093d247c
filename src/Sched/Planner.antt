-- ===== src/Sched/Planner.antt =====
-- src/suiban/sched/planner.py: the loadout of a run. The model is split as `plan_loadout` is read:
-- the data (Types), the mandatory slots (Orchestrator), the worker ladder (Workers), the slots and
-- the CPU plan (Slots), the assembled plan (Plan). `_now_iso()` is an argument, and a notice's text is not modelled.
pub mod Types
pub mod Orchestrator
pub mod Workers
pub mod Slots
pub mod Plan
pub mod Cases
pub mod Fits
pub mod Vram
pub mod Shape
pub mod Context
pub mod Tests
