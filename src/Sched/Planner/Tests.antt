-- ===== src/Sched/Planner/Tests.antt =====
-- Plans for concrete machines, and the planner's theorems at them.
use suiban.Prelude.{ℕ, ◌≤◌, ◌≡◌, refl, true, false, some, List, [], ◌∷◌, map, any}
use suiban.Sched.Budget.{
  bonsai_27b, bonsai_8b, bonsai_4b, ternary, one_bit, q8_0, tq4_0, max_ctx, weights_gib,
  buffer_prior_gib,
}
use suiban.Sched.Budget.Rounding.{gib_to_mb, kv_mb, kv_per_token}
use suiban.Sched.Budget.Provider.{unmeasured, SlotCost, slot_cost}
use suiban.Sched.Notices.{is_vram_tight}
use suiban.Sched.Planner.Types.{GpuInfo, Backend, Loadout, Tier, gb8, tier_for, margin_mb}
use suiban.Sched.Planner.Orchestrator.{
  orch_cost, fit_orchestrator, first_ctx, orch_ctx_ladder, effective_family, utility_cost,
}
use suiban.Sched.Planner.Workers.{walk, rung_costs, worker_cost}
use suiban.Sched.Planner.Slots.{
  Request, fall_back, plan_cpu, worker_slots, orchestrator_slot_of, utility_slot_of, worker_pool_mb,
}
use suiban.Sched.Planner.Context.{OrchestratorCtx, ctx-orchestrator}
use suiban.Sched.Planner.Plan.{plan_loadout}
use suiban.Sched.Planner.Cases.{OnGpu}
use suiban.Sched.Planner.Vram.{vram_on, room, plan_loadout-fits}

abbrev gpu : ℕ → GpuInfo
gpu vram_mb = record {
  index = 0;
  name = "gpu";
  vram_total_mb = vram_mb;
  vram_used_mb = 0;
  source = "nvml";
}

abbrev request : List GpuInfo → ℕ → Request
request gpus orchestrator_ctx = record {
  now = "2026-01-01T00:00:00Z";
  telemetry = record { source = "nvml"; gpus = some gpus; ram_total_mb = 32768 };
  settings = record {
    quant_family = ternary;
    loadout = record {
      prefer_workers = 2;
      worker_ctx = 16384;
      orchestrator_ctx = orchestrator_ctx;
    };
    dspark_enabled = false;
    browse = record { tier2_enabled = true };
  };
  budget = unmeasured;
  backend = Backend.cuda;
  k_type = q8_0;
  v_type = tq4_0;
}

abbrev desktop : Request
desktop = request (gpu 24576 ∷ []) 32768

abbrev laptop : Request
laptop = request (gpu 8192 ∷ []) 4096

-- `plan_loadout`, with all that it calls open.
run : Request → Loadout
unfolding plan_loadout slot_cost gib_to_mb weights_gib buffer_prior_gib kv_mb kv_per_token tier_for
    margin_mb max_ctx fit_orchestrator first_ctx orch_ctx_ladder orch_cost effective_family
    utility_cost orchestrator_slot_of utility_slot_of worker_slots walk rung_costs worker_cost
    worker_pool_mb fall_back plan_cpu
run r = plan_loadout r

desktop_run :
    (map (λ s. s.model) (plan_loadout desktop).slots
      ≡ bonsai_27b ∷ bonsai_4b ∷ bonsai_8b ∷ bonsai_8b ∷ [])
    × (map (λ s. s.ctx) (plan_loadout desktop).slots ≡ 32768 ∷ 8192 ∷ 16384 ∷ 16384 ∷ [])
    × (map (λ s. s.vram_mb) (plan_loadout desktop).slots ≡ 9536 ∷ 2106 ∷ 3629 ∷ 3629 ∷ [])
unfolding run
desktop_run = (refl, refl, refl)

-- Configured to 4096, run at 8192.
laptop_run : map (λ s. s.ctx) (plan_loadout laptop).slots ≡ 8192 ∷ 8192 ∷ []
unfolding run
laptop_run = refl

-- A 7 GiB card could hold the configured context, and the last resort does not fit it.
overflow_run : (plan_loadout (request (gpu 6900 ∷ []) 4096)).tier ≡ Tier.cpu
unfolding run
overflow_run = refl

abbrev desktop_cost : SlotCost
desktop_cost = orch_cost unmeasured ternary q8_0 tq4_0 false 32768

abbrev laptop_cost : SlotCost
laptop_cost = orch_cost unmeasured one_bit q8_0 tq4_0 false 8192

laptop-OnGpu : OnGpu laptop (gpu 8192) [] gb8 true laptop_cost
unfolding run
laptop-OnGpu = record { gpus = refl; has_tier = refl; has_fit = refl }

plan_loadout-fits_example :
    (vram_on 0 (plan_loadout laptop).slots ≤ 8192)
    × (vram_on 0 (plan_loadout laptop).slots
        ≤ room (any is_vram_tight (plan_loadout laptop).notices) (gpu 8192))
plan_loadout-fits_example = plan_loadout-fits laptop 0 (gpu 8192) refl

ctx-orchestrator_example : OrchestratorCtx laptop (plan_loadout laptop)
ctx-orchestrator_example = ctx-orchestrator laptop
