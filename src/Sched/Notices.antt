-- ===== src/Sched/Notices.antt =====
-- `Notice` of src/suiban/sched/planner.py: the planner's and the KV resolver's visible notices. A
-- message is the constructor of its notice code, with the values that its text interpolates.
use suiban.Prelude.{ℕ, Bool, true, false, List}
use suiban.Sched.Budget.{Model}

pub data Level : Type 0 where
  info warn : Level

pub data Message : Type 0 where
  gpu_too_small : (vram_mb : ℕ) → Message
  family_degraded : (vram_mb : ℕ) → Message
  dspark_unavailable vram_tight loadout_overflow ultra_sequential no_27b_resident : Message
  orchestrator_ctx_reduced : (ctx configured : ℕ) → Message
  workers_degraded : List Model → Message
  cpu_only : Model → Message
  kv_fa_fallback turboquant_prebuilt_fallback : Message

pub record Notice : Type 0 where
  pub level : Level
  pub message : Message

-- Whether the notice's code is `ultra_sequential`, or `vram_tight`.
abbrev pub is_ultra_sequential : Notice → Bool
is_ultra_sequential n = elim n.message [ ultra_sequential ↦ true | _ ↦ false ]

abbrev pub is_vram_tight : Notice → Bool
is_vram_tight n = elim n.message [ vram_tight ↦ true | _ ↦ false ]
