-- ===== src/Sched/Planner/Context.antt =====
-- The contexts of the planned slots (src/suiban/sched/planner.py).
use suiban.Sched.Planner.Vram.{is_vram_tight-assemble}
use suiban.Sched.Notices.{is_vram_tight}
use suiban.Prelude.{
  any, ◌⊎◌, inl, inr, ℕ, suc, ◌≤◌, ◌≡◌, refl, Bool, true, false, some, List, [], ◌∷◌, arith, All,
  if◌then◌else◌,
}
use suiban.Sched.Budget.{Family, KvType, max_ctx}
use suiban.Sched.Budget.Provider.{BudgetProvider, SlotCost, slot_cost}
use suiban.Sched.Planner.Types.{GpuInfo, PlannedSlot, Loadout, Tier, orchestrator_slot}
use suiban.Sched.Planner.Orchestrator.{
  orch_cost, first_ctx, fit_orchestrator, orch_ctx_ladder, utility_model, utility_cost,
}
use suiban.Sched.Planner.Workers.{Rung, rung_costs, worker_cost, preferred}
use suiban.Sched.Planner.Slots.{
  Request, plan_cpu, fall_back, orchestrator_slot_of, utility_slot_of, worker_slots,
}
use suiban.Sched.Planner.Plan.{utility, orchestrator_fit, choice, all_slots, assemble, plan_loadout}
use suiban.Sched.Planner.Fits.{costs-walk}
use suiban.Sched.Planner.Cases.{placed, OnGpu, plan_ind}

orch_ctx_ladder-le :
    (configured : ℕ) → All (λ c. (c ≤ configured) × (c ≤ 262144)) (orch_ctx_ladder configured)
unfolding orch_ctx_ladder
orch_ctx_ladder-le configured = ground arith

module _ (budget : BudgetProvider) (effective : Family) (k v : KvType) (dspark : Bool)
    (utility_mb avail vram configured : ℕ) where
  ctx-first_ctx :
      (ladder : List ℕ) (cost : SlotCost)
      → All (λ c. (c ≤ configured) × (c ≤ 262144)) ladder
      → first_ctx budget effective k v dspark utility_mb avail ladder ≡ some cost
      → (cost.ctx ≤ configured) × (cost.ctx ≤ 262144)
  unfolding first_ctx orch_cost slot_cost
  ctx-first_ctx [] cost all h = ground arith
  ctx-first_ctx (ctx ∷ ladder) cost all h = ground (arith, ctx-first_ctx ladder cost)

  ctx-fit_orchestrator :
      (tight_fit : Bool) (cost : SlotCost)
      → fit_orchestrator budget effective k v dspark utility_mb avail vram configured
        ≡ placed tight_fit cost
      → if tight_fit then cost.ctx ≡ 8192 else (cost.ctx ≤ configured) × (cost.ctx ≤ 262144)
  unfolding fit_orchestrator orch_cost slot_cost
  ctx-fit_orchestrator true cost h = ground arith
  ctx-fit_orchestrator false cost h =
      ground
        (arith, ctx-first_ctx (orch_ctx_ladder configured) cost (orch_ctx_ladder-le configured))

abbrev Bounded : SlotCost → Type 0
Bounded c = c.ctx ≤ max_ctx c.model

ctx-rung_costs :
    (budget : BudgetProvider) (family : Family) (k v : KvType) (ctx : ℕ) (rung : Rung)
    → All Bounded (rung_costs budget family k v ctx rung)
unfolding rung_costs worker_cost slot_cost
ctx-rung_costs budget family k v ctx [] = tt
ctx-rung_costs budget family k v ctx (m ∷ rung) =
    (omega arith, ctx-rung_costs budget family k v ctx rung)

ctx-worker_slots :
    (family : Family) (gpu n port : ℕ) (costs : List SlotCost)
    → All Bounded costs
    → All (λ s. s.ctx ≤ max_ctx s.model) (worker_slots family gpu n port costs)
unfolding worker_slots
ctx-worker_slots family gpu n port [] h = tt
ctx-worker_slots family gpu n port (c ∷ costs) h =
    (h.0, ctx-worker_slots family gpu (suc n) (suc port) costs h.1)

module _ (r : Request) (gpu0 : GpuInfo) (more : List GpuInfo) (tier : Tier) (tight_fit : Bool)
    (cost : SlotCost) (h : OnGpu r gpu0 more tier tight_fit cost) where
  ctx-placed :
      if tight_fit
      then cost.ctx ≡ 8192
      else (cost.ctx ≤ r.settings.loadout.orchestrator_ctx) × (cost.ctx ≤ 262144)
  unfolding orchestrator_fit
  ctx-placed = ctx-fit_orchestrator _ _ _ _ _ _ _ _ _ tight_fit cost h.has_fit

  ctx-choice : All Bounded (choice r gpu0 more tier tight_fit cost).costs
  unfolding choice
  ctx-choice =
      rw (costs-walk _ _ _ _ _ _ 0 (preferred r.settings.loadout.prefer_workers))
        (ctx-rung_costs _ _ _ _ _ _)

  ctx-mandatory :
      (cost.ctx ≤ 262144) × ((utility r gpu0 more tier).ctx ≤ max_ctx (utility_model tier))
  unfolding utility utility_cost slot_cost max_ctx utility_model
  ctx-mandatory = ground (arith, ctx-placed)

  ctx-all_slots : All (λ s. s.ctx ≤ max_ctx s.model) (all_slots r gpu0 more tier tight_fit cost)
  unfolding all_slots orchestrator_slot_of utility_slot_of max_ctx
  ctx-all_slots = (ctx-mandatory.0, (ctx-mandatory.1, ctx-worker_slots _ _ 1 _ _ ctx-choice))

-- The context of the orchestrator that a loadout has is at most the configured one, or it is the 8192 of
-- the last resort, and the loadout carries the notice of that.
abbrev pub OrchestratorCtx : Request → Loadout → Type 0
OrchestratorCtx r l =
    (s : PlannedSlot) × ((orchestrator_slot l ≡ some s)
      × ((s.ctx ≤ r.settings.loadout.orchestrator_ctx)
          ⊎ ((s.ctx ≡ 8192) × (any is_vram_tight l.notices ≡ true))))

ctx-assemble :
    (r : Request) (gpu0 : GpuInfo) (more : List GpuInfo) (tier : Tier) (tight_fit : Bool)
    (cost : SlotCost)
    → OnGpu r gpu0 more tier tight_fit cost
    → OrchestratorCtx r (assemble r gpu0 more tier tight_fit cost)
unfolding assemble all_slots orchestrator_slot_of orchestrator_slot
ctx-assemble r gpu0 more tier true cost h = (
  _,
  (
    refl,
    inr (
      ctx-placed r gpu0 more tier true cost h,
      is_vram_tight-assemble r gpu0 more tier true cost,
    ),
  ),
)
ctx-assemble r gpu0 more tier false cost h =
    (_, (refl, inl (ctx-placed r gpu0 more tier false cost h).0))

-- Every loadout, on a GPU or on the CPU, has an orchestrator. Its context is at most the configured one, or
-- it is the 8192 of the last resort, whatever is configured, and the loadout carries the notice of that.
pub ctx-orchestrator : (r : Request) → OrchestratorCtx r (plan_loadout r)
unfolding plan_cpu fall_back orchestrator_slot
ctx-orchestrator r =
    plan_ind (OrchestratorCtx r) r
      ((_, (refl, inl (omega arith))), λ m. (_, (refl, inl (omega arith)))) (ctx-assemble r)

abbrev pub CtxBounded : Loadout → Type 0
CtxBounded l = All (λ s. s.ctx ≤ max_ctx s.model) l.slots

-- No slot of any loadout is planned with a context above its model's maximum.
ctx-plan_loadout : (r : Request) → CtxBounded (plan_loadout r)
unfolding plan_cpu fall_back assemble
ctx-plan_loadout r =
    plan_ind CtxBounded r ((omega arith), λ m. omega arith)
      λ gpu0 more tier tight_fit cost h. ctx-all_slots r gpu0 more tier tight_fit cost h
