-- ===== src/Sched/Planner/Slots.antt =====
-- `_plan_cpu`, and the slots and the worker pool of `plan_loadout` (src/suiban/sched/planner.py).
use suiban.Prelude.{
  ℕ, suc, any, ◌≡◌, refl, arith, ◌+◌, ◌*◌, ◌-◌, Bool, true, false, ◌&&◌, none, some, List, [], ◌∷◌,
  String, min, leb, if◌then◌else◌,
}
use suiban.Prelude.Int.{ℤ, pos, sub_ℕ}
use suiban.Sched.Budget.{Model, bonsai_27b, bonsai_8b, Family, KvType, max_ctx, same_model}
use suiban.Sched.Budget.Provider.{BudgetProvider, SlotCost, slot_cost, total_mb}
use suiban.Sched.Notices.{Notice, Level, Message}
use suiban.Sched.Planner.Types.{
  GpuInfo, TelemetrySnapshot, Settings, Backend, PlannedSlot, Loadout, Tier, Role, SlotId,
  SlotState, margin_mb, port_pool_start,
}
use suiban.Sched.Planner.Orchestrator.{utility_model}

abbrev pub warn : Message → Notice
warn m = record { level = Level.warn; message = m }

abbrev pub info : Message → Notice
info m = record { level = Level.info; message = m }

-- `if condition: notices.append(notice)`
abbrev pub note : Bool → Notice → List Notice
note condition notice = if condition then notice ∷ [] else []

pub any-note : (p : Notice → Bool) (b : Bool) (n : Notice) → any p (note b n) ≡ (b && p n)
any-note p true n = ground arith
any-note p false n = refl

unfoldable pub cpu_model : ℕ → Model
cpu_model ram_total_mb = if leb (16 * 1024) ram_total_mb then bonsai_27b else bonsai_8b

-- What every branch reads.
pub record Request : Type 0 where
  pub now : String
  pub telemetry : TelemetrySnapshot
  pub settings : Settings
  pub budget : BudgetProvider
  pub backend : Backend
  pub k_type : KvType
  pub v_type : KvType

unfoldable pub cpu_cost : Request → SlotCost
unfolding cpu_model
cpu_cost r =
    let model = cpu_model r.telemetry.ram_total_mb in
    slot_cost r.budget model r.settings.quant_family
      (min r.settings.loadout.orchestrator_ctx (max_ctx model)) r.k_type r.v_type
      (same_model model bonsai_27b) false

-- `_plan_cpu`
unfoldable pub plan_cpu : Request → Loadout
unfolding cpu_cost
plan_cpu r =
    let model = cpu_model r.telemetry.ram_total_mb in
    let cost = cpu_cost r in
    record {
      planned_at = r.now;
      tier = Tier.cpu;
      slots =
          record {
            slot_id = SlotId.orchestrator;
            role = Role.orchestrator;
            model = model;
            family = r.settings.quant_family;
            ctx = min r.settings.loadout.orchestrator_ctx (max_ctx model);
            gpu = none;
            port = port_pool_start;
            vram_mb = total_mb cost;
            mmproj = same_model model bonsai_27b;
            dspark = false;
            state = SlotState.planned;
          }
          ∷ [];
      headroom_mb = pos (r.telemetry.ram_total_mb - total_mb cost);
      family_configured = r.settings.quant_family;
      family_effective = r.settings.quant_family;
      family_degraded = false;
      family_reason = none;
      utility_shared_with_orchestrator = true;
      notices =
          info (Message.cpu_only model)
          ∷ note (same_model model bonsai_8b) (warn Message.no_27b_resident);
    }

-- `loadout.notices.insert(0, ...)`
unfoldable pub fall_back : Request → Message → Loadout
fall_back r message =
    let loadout = plan_cpu r in record loadout { notices = warn message ∷ loadout.notices }

unfoldable pub orchestrator_slot_of : Family → Bool → SlotCost → PlannedSlot
orchestrator_slot_of effective dspark cost = record {
  slot_id = SlotId.orchestrator;
  role = Role.orchestrator;
  model = bonsai_27b;
  family = effective;
  ctx = cost.ctx;
  gpu = some 0;
  port = port_pool_start;
  vram_mb = total_mb cost;
  mmproj = true;
  dspark = dspark;
  state = SlotState.planned;
}

unfoldable pub utility_slot_of : Family → Tier → SlotCost → PlannedSlot
utility_slot_of effective tier cost = record {
  slot_id = SlotId.utility;
  role = Role.utility;
  model = utility_model tier;
  family = effective;
  ctx = cost.ctx;
  gpu = some 0;
  port = port_pool_start + 1;
  vram_mb = total_mb cost;
  mmproj = false;
  dspark = false;
  state = SlotState.planned;
}

-- `for i, cost in enumerate(chosen_costs, start=1): ... port += 1`
unfoldable pub worker_slots : Family → ℕ → ℕ → ℕ → List SlotCost → List PlannedSlot
worker_slots effective gpu i port [] = []
worker_slots effective gpu i port (cost ∷ costs) =
    record {
      slot_id = SlotId.worker i;
      role = Role.worker;
      model = cost.model;
      family = effective;
      ctx = cost.ctx;
      gpu = some gpu;
      port = port;
      vram_mb = total_mb cost;
      mmproj = false;
      dspark = false;
      state = SlotState.planned;
    }
    ∷ worker_slots effective gpu (suc i) (suc port) costs

-- The VRAM that workers may use, and the GPU they go to: the second GPU's, behind its own margin,
-- or what the mandatory slots leave of the first.
unfoldable pub worker_pool_mb : GpuInfo → List GpuInfo → Bool → ℕ → ℤ
worker_pool_mb gpu0 [] tight_fit mandatory_mb =
    if tight_fit
    then pos 0
    else sub_ℕ (gpu0.vram_total_mb - margin_mb gpu0.vram_total_mb) mandatory_mb
worker_pool_mb gpu0 (gpu1 ∷ rest) tight_fit mandatory_mb =
    sub_ℕ gpu1.vram_total_mb (margin_mb gpu1.vram_total_mb)

unfoldable pub worker_gpu : List GpuInfo → ℕ
worker_gpu [] = 0
worker_gpu (gpu1 ∷ rest) = 1

unfoldable pub is_cuda : Backend → Bool
is_cuda Backend.cuda = true
is_cuda _ = false
