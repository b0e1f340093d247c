-- ===== src/Sched/Planner/Plan.antt =====
-- `plan_loadout` of src/suiban/sched/planner.py.
use suiban.Prelude.{
  ℕ, ◌+◌, ◌-◌, Bool, true, false, not, ◌&&◌, none, some, List, [], ◌∷◌, ◌++◌, min, ltb, sum_of,
  if◌then◌else◌,
}
use suiban.Prelude.Int.{sub_ℕ}
use suiban.Sched.Budget.{bonsai_1_7b, Family, max_ctx}
use suiban.Sched.Budget.Provider.{SlotCost, total_mb}
use suiban.Sched.Notices.{Notice, Message}
use suiban.Sched.Planner.Types.{
  GpuInfo, PlannedSlot, Loadout, Tier, tier_for, margin_mb, port_pool_start,
}
use suiban.Sched.Planner.Orchestrator.{
  OrchFit, fits, tight, overflow, effective_family, degrades, utility_cost, fit_orchestrator,
}
use suiban.Sched.Planner.Workers.{Choice, walk, preferred, nonempty}
use suiban.Sched.Planner.Slots.{
  Request, warn, info, note, is_cuda, fall_back, plan_cpu, orchestrator_slot_of, utility_slot_of,
  worker_slots, worker_pool_mb, worker_gpu,
}

-- One GPU or more, `gpu0` large enough for `tier`. `gpu0.vram_total_mb - margin_mb ...` is not
-- truncated: a tier has at least 6 GiB.
module _ (r : Request) (gpu0 : GpuInfo) (more : List GpuInfo) (tier : Tier) where
  unfoldable pub effective : Family
  effective = effective_family gpu0.vram_total_mb r.settings.quant_family

  unfoldable pub degraded : Bool
  degraded = degrades gpu0.vram_total_mb r.settings.quant_family

  unfoldable pub dspark : Bool
  unfolding is_cuda
  dspark = r.settings.dspark_enabled && is_cuda r.backend

  unfoldable pub avail0 : ℕ
  avail0 = gpu0.vram_total_mb - margin_mb gpu0.vram_total_mb

  unfoldable pub utility : SlotCost
  unfolding effective
  utility = utility_cost r.budget effective r.k_type r.v_type tier

  unfoldable pub orchestrator_fit : OrchFit
  unfolding effective dspark utility avail0
  orchestrator_fit =
      fit_orchestrator r.budget effective r.k_type r.v_type dspark (total_mb utility) avail0
        gpu0.vram_total_mb r.settings.loadout.orchestrator_ctx

  module _ (tight_fit : Bool) (orch : SlotCost) where
    unfoldable pub choice : Choice
    unfolding effective utility
    choice =
        walk r.budget effective r.k_type r.v_type
          (min r.settings.loadout.worker_ctx (max_ctx bonsai_1_7b))
          (worker_pool_mb gpu0 more tight_fit (total_mb orch + total_mb utility)) 0
          (preferred r.settings.loadout.prefer_workers)

    unfoldable pub all_slots : List PlannedSlot
    unfolding effective dspark utility choice
    all_slots =
        orchestrator_slot_of effective dspark orch
        ∷ utility_slot_of effective tier utility
        ∷ worker_slots effective (worker_gpu more) 1 (port_pool_start + 2) choice.costs

    unfoldable pub all_notices : List Notice
    unfolding degraded dspark choice
    all_notices =
        note degraded (warn (Message.family_degraded gpu0.vram_total_mb))
        ++ (note (r.settings.dspark_enabled && not (is_cuda r.backend))
              (info Message.dspark_unavailable)
            ++ (note tight_fit (warn Message.vram_tight)
                ++ (note (ltb orch.ctx r.settings.loadout.orchestrator_ctx) (
                      warn (
                        Message.orchestrator_ctx_reduced orch.ctx
                          r.settings.loadout.orchestrator_ctx))
                    ++ (note choice.degraded (info (Message.workers_degraded choice.rung))
                        ++ note (not (nonempty choice.rung)) (warn Message.ultra_sequential)))))

    unfoldable pub assemble : Loadout
    unfolding effective degraded all_slots all_notices
    assemble = record {
      planned_at = r.now;
      tier = tier;
      slots = all_slots;
      headroom_mb =
          sub_ℕ (sum_of (λ g. g.vram_total_mb) (gpu0 ∷ more)) (sum_of (λ s. s.vram_mb) all_slots);
      family_configured = r.settings.quant_family;
      family_effective = effective;
      family_degraded = degraded;
      family_reason = if degraded then some gpu0.vram_total_mb else none;
      utility_shared_with_orchestrator = false;
      notices = all_notices;
    }

  unfoldable pub finish : OrchFit → Loadout
  unfolding assemble
  finish (fits cost) = assemble false cost
  finish (tight cost) = assemble true cost
  finish overflow = fall_back r Message.loadout_overflow

  unfoldable pub plan_gpu : Loadout
  unfolding orchestrator_fit finish
  plan_gpu = finish orchestrator_fit

unfoldable pub plan_on : Request → List GpuInfo → Loadout
unfolding plan_gpu
plan_on r [] = plan_cpu r
plan_on r (gpu0 ∷ more) = elim (tier_for gpu0.vram_total_mb) [
  | none ↦ fall_back r (Message.gpu_too_small gpu0.vram_total_mb)
  | some tier ↦ plan_gpu r gpu0 more tier
]

-- `telemetry.gpus`, `None` read as no GPU.
abbrev pub gpus_of : Request → List GpuInfo
gpus_of r = elim r.telemetry.gpus [ none ↦ [] | some gpus ↦ gpus ]

unfoldable pub plan_loadout : Request → Loadout
unfolding plan_on
plan_loadout r = plan_on r (gpus_of r)
