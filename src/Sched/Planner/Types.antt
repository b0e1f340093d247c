-- ===== src/Sched/Planner/Types.antt =====
-- The data of src/suiban/sched/planner.py, the settings it reads (config.py) and the telemetry it
-- plans from (sched/telemetry.py).
use suiban.Prelude.{
  ℕ, ◌*◌, ◌/◌, Bool, true, false, ◌&&◌, Option, none, some, List, String, max, leb, ltb, length,
  keep, find_first, any, if◌then◌else◌,
}
use suiban.Prelude.Int.{ℤ}
use suiban.Sched.Budget.{Model, bonsai_27b, Family, Quant, quant_name, same_model}
use suiban.Sched.Notices.{Notice}

pub record GpuInfo : Type 0 where
  pub index : ℕ
  pub name : String
  pub vram_total_mb : ℕ
  pub vram_used_mb : ℕ
  pub source : String

pub record TelemetrySnapshot : Type 0 where
  pub source : String
  pub gpus : Option (List GpuInfo)
  pub ram_total_mb : ℕ

pub record LoadoutSettings : Type 0 where
  pub prefer_workers : ℕ
  pub worker_ctx : ℕ
  pub orchestrator_ctx : ℕ

pub record BrowseSettings : Type 0 where
  pub tier2_enabled : Bool

-- The settings that the planner and the capability report read.
pub record Settings : Type 0 where
  pub quant_family : Family
  pub loadout : LoadoutSettings
  pub dspark_enabled : Bool
  pub browse : BrowseSettings

pub data Backend : Type 0 where
  cpu cuda metal vulkan : Backend

pub data Role : Type 0 where
  orchestrator worker utility : Role

pub data SlotId : Type 0 where
  orchestrator utility : SlotId
  worker : ℕ → SlotId

pub data SlotState : Type 0 where
  planned cold starting ready failed : SlotState

pub record PlannedSlot : Type 0 where
  pub slot_id : SlotId
  pub role : Role
  pub model : Model
  pub family : Family
  pub ctx : ℕ
  pub gpu : Option ℕ
  pub port : ℕ
  pub vram_mb : ℕ
  pub mmproj : Bool
  pub dspark : Bool
  pub state : SlotState

pub data Tier : Type 0 where
  gb24 gb16 gb12 gb8 cpu : Tier

pub record Loadout : Type 0 where
  pub planned_at : String
  pub tier : Tier
  pub slots : List PlannedSlot
  pub headroom_mb : ℤ
  pub family_configured : Family
  pub family_effective : Family
  pub family_degraded : Bool
  pub family_reason : Option ℕ
  pub utility_shared_with_orchestrator : Bool
  pub notices : List Notice

abbrev pub port_pool_start : ℕ
port_pool_start = 8701

unfoldable pub slot_quant : PlannedSlot → Quant
unfolding quant_name
slot_quant s = quant_name s.family

abbrev pub is_orchestrator : Role → Bool
is_orchestrator Role.orchestrator = true
is_orchestrator _ = false

abbrev pub is_worker : Role → Bool
is_worker Role.worker = true
is_worker _ = false

unfoldable pub orchestrator_slot : Loadout → Option PlannedSlot
orchestrator_slot l = find_first (λ s. is_orchestrator s.role) l.slots

unfoldable pub workers : Loadout → List PlannedSlot
workers l = keep (λ s. is_worker s.role) l.slots

unfoldable pub slot_for_model : Loadout → Model → Option PlannedSlot
slot_for_model l model = find_first (λ s. same_model s.model model) l.slots

pub record Capabilities : Type 0 where
  pub vision : Bool
  pub browse_t2 : Bool
  pub skill_writes : Bool
  pub ultra_parallel : Bool

unfoldable pub capabilities : Loadout → Settings → Capabilities
unfolding workers same_model
capabilities l settings =
    let has_27b = any (λ s. same_model s.model bonsai_27b) l.slots in
    record {
      vision = has_27b && any (λ s. s.mmproj) l.slots;
      browse_t2 = has_27b && settings.browse.tier2_enabled;
      skill_writes = has_27b;
      ultra_parallel = ltb 0 (length (workers l));
    }

-- `_tier_for`, over `_TIER_THRESHOLDS_MB`; `none` is a GPU below the smallest tier.
unfoldable pub tier_for : ℕ → Option Tier
tier_for vram_mb =
    if leb (20 * 1024) vram_mb
    then some gb24
    else if leb (14 * 1024) vram_mb
    then some gb16
    else if leb (10 * 1024) vram_mb
    then some gb12
    else if leb (6 * 1024) vram_mb
    then some gb8
    else none

-- `max(int(1.5 * 1024), int(vram * 0.08))`.
unfoldable pub margin_mb : ℕ → ℕ
margin_mb vram_mb = max 1536 (vram_mb * 2 / 25)
