-- ===== src/Sched/Planner/Vram.antt =====
-- The slots of a loadout fit in the VRAM of the GPUs they are put on (src/suiban/sched/planner.py).
use suiban.Prelude.{
  ℕ, zero, suc, ◌+◌, ◌-◌, ◌≤◌, ◌≡◌, Bool, false, none, some, List, [], ◌∷◌, arith, ◌==◌, sum_of,
  if◌then◌else◌, get_elem?, any, any-append, subst,
}
use suiban.Prelude.Int.{pos, ◌≤ℤ◌}
use suiban.Sched.Budget.{Family}
use suiban.Sched.Budget.Provider.{SlotCost, total_mb}
use suiban.Sched.Notices.{Message, is_vram_tight}
use suiban.Sched.Planner.Types.{
  GpuInfo, PlannedSlot, Loadout, Tier, tier_for, margin_mb, port_pool_start,
}
use suiban.Sched.Planner.Slots.{
  Request, any-note, plan_cpu, fall_back, orchestrator_slot_of, utility_slot_of, worker_slots,
  worker_pool_mb, worker_gpu,
}
use suiban.Sched.Planner.Plan.{
  utility, avail0, orchestrator_fit, choice, effective, all_slots, all_notices, assemble,
  plan_loadout, gpus_of,
}
use suiban.Sched.Planner.Fits.{fit_orchestrator-le, walk-le}
use suiban.Sched.Planner.Cases.{OnGpu, plan_ind}

abbrev on_gpu : ℕ → PlannedSlot → Bool
on_gpu i s = elim s.gpu [ none ↦ false | some j ↦ i == j ]

-- The MiB that a list of slots takes on GPU `i`.
abbrev pub vram_on : ℕ → List PlannedSlot → ℕ
vram_on i slots = sum_of (λ s. if on_gpu i s then s.vram_mb else 0) slots

vram_on-worker_slots :
    (i : ℕ) (family : Family) (gpu n port : ℕ) (costs : List SlotCost)
    → vram_on i (worker_slots family gpu n port costs)
      ≡ (if i == gpu then sum_of total_mb costs else 0)
unfolding worker_slots
vram_on-worker_slots i family gpu n port [] = ground arith
vram_on-worker_slots i family gpu n port (cost ∷ costs) =
    ground (arith, vram_on-worker_slots i family gpu (suc n) (suc port) costs)

tier_vram : (vram : ℕ) (tier : Tier) → tier_for vram ≡ some tier → 6144 ≤ vram
unfolding tier_for
tier_vram vram tier h = ground arith

margin-le : (vram : ℕ) → 6144 ≤ vram → (margin_mb vram ≤ vram) × (1536 ≤ margin_mb vram)
unfolding margin_mb
margin-le vram h = omega arith

module _ (r : Request) (gpu0 : GpuInfo) (more : List GpuInfo) (tier : Tier) (tight_fit : Bool)
    (cost : SlotCost) (h : OnGpu r gpu0 more tier tight_fit cost) where
  mandatory-le : total_mb cost + total_mb (utility r gpu0 more tier) ≤ (
      if tight_fit then gpu0.vram_total_mb else gpu0.vram_total_mb - margin_mb gpu0.vram_total_mb)
  unfolding orchestrator_fit avail0
  mandatory-le = fit_orchestrator-le _ _ _ _ _ _ _ _ _ tight_fit cost h.has_fit

  abbrev mandatory_mb : ℕ
  mandatory_mb = total_mb cost + total_mb (utility r gpu0 more tier)

  abbrev workers_mb : ℕ
  workers_mb = sum_of total_mb (choice r gpu0 more tier tight_fit cost).costs

  -- The room that the worker walk was given, as a number.
  abbrev worker_cap : List GpuInfo → ℕ
  worker_cap [] =
      if tight_fit then 0 else gpu0.vram_total_mb - margin_mb gpu0.vram_total_mb - mandatory_mb
  worker_cap (gpu1 ∷ rest) = gpu1.vram_total_mb - margin_mb gpu1.vram_total_mb

  worker_pool-le :
      (gpus : List GpuInfo)
      → worker_pool_mb gpu0 gpus tight_fit mandatory_mb ≤ℤ pos (worker_cap gpus)
  unfolding worker_pool_mb
  worker_pool-le [] = ground (arith, mandatory-le)
  worker_pool-le (gpu1 ∷ rest) = ground arith

  workers-le : workers_mb ≤ worker_cap more
  unfolding choice
  workers-le = walk-le _ _ _ _ _ _ 0 _ (worker_cap more) (worker_pool-le more)

  vram_on-all_slots :
      (i : ℕ)
      → vram_on i (all_slots r gpu0 more tier tight_fit cost)
        ≡ (if i == 0 then mandatory_mb else 0) + (if i == worker_gpu more then workers_mb else 0)
  unfolding all_slots orchestrator_slot_of utility_slot_of
  vram_on-all_slots i = ground (
    arith,
    vram_on-worker_slots i (effective r gpu0 more tier) (worker_gpu more) 1 (port_pool_start + 2)
        (choice r gpu0 more tier tight_fit cost).costs,
  )

  shares-le :
      (gpus : List GpuInfo) (i : ℕ) (g : GpuInfo) (w : ℕ)
      → get_elem? (gpu0 ∷ gpus) i ≡ some g
      → w ≤ worker_cap gpus
      → (if i == 0 then mandatory_mb else 0) + (if i == worker_gpu gpus then w else 0)
        ≤ (if tight_fit then g.vram_total_mb else g.vram_total_mb - margin_mb g.vram_total_mb)
  unfolding worker_gpu
  shares-le [] zero g w e room = ground (arith, mandatory-le)
  shares-le [] (suc i) g w e room = ground arith
  shares-le (gpu1 ∷ rest) zero g w e room = ground (arith, mandatory-le)
  shares-le (gpu1 ∷ rest) (suc zero) g w e room = ground arith
  shares-le (gpu1 ∷ rest) (suc (suc i)) g w e room = ground arith

  -- The slots put on a GPU fit in it, behind its margin unless the fit is tight.
  pub assemble-le :
      (i : ℕ) (g : GpuInfo)
      → get_elem? (gpu0 ∷ more) i ≡ some g
      → vram_on i (all_slots r gpu0 more tier tight_fit cost)
        ≤ (if tight_fit then g.vram_total_mb else g.vram_total_mb - margin_mb g.vram_total_mb)
  assemble-le i g e = rw (vram_on-all_slots i) (shares-le more i g workers_mb e workers-le)

-- The room for slots on a GPU: all of it, or what its safety margin leaves.
abbrev pub room : Bool → GpuInfo → ℕ
room tight_fit g =
    if tight_fit then g.vram_total_mb else g.vram_total_mb - margin_mb g.vram_total_mb

module _ (r : Request) where
  -- No slot of a CPU plan is on a GPU.
  vram_on-plan_cpu : (i : ℕ) → vram_on i (plan_cpu r).slots ≡ 0
  unfolding plan_cpu
  vram_on-plan_cpu i = omega arith

  vram_on-fall_back : (m : Message) (i : ℕ) → vram_on i (fall_back r m).slots ≡ 0
  unfolding fall_back plan_cpu
  vram_on-fall_back m i = omega arith

  abbrev Within : Loadout → Type 0
  Within l =
      (i : ℕ) (g : GpuInfo)
      → get_elem? (gpus_of r) i ≡ some g
      → vram_on i l.slots ≤ room (any is_vram_tight l.notices) g

  pub is_vram_tight-assemble :
      (gpu0 : GpuInfo) (more : List GpuInfo) (tier : Tier) (tight_fit : Bool) (cost : SlotCost)
      → any is_vram_tight (assemble r gpu0 more tier tight_fit cost).notices ≡ tight_fit
  unfolding assemble all_notices
  is_vram_tight-assemble gpu0 more tier tight_fit cost = simp (any-append, any-note) (ground arith)

plan_loadout-Within : (r : Request) → Within r (plan_loadout r)
unfolding assemble
plan_loadout-Within r =
    plan_ind (Within r) r
      (
        (λ i g e. rw (vram_on-plan_cpu r i) (omega arith)),
        (λ m i g e. rw (vram_on-fall_back r m i) (omega arith)),
      )
      λ gpu0 more tier tight_fit cost h i g e.
        rw (is_vram_tight-assemble r gpu0 more tier tight_fit cost) (
          assemble-le r gpu0 more tier tight_fit cost h i g
            (subst (λ l. get_elem? l i ≡ some g) h.gpus e))

-- On every machine, the slots planned for a GPU fit in that GPU's physical memory, and they leave
-- its safety margin alone unless the loadout carries the `vram_tight` notice.
pub plan_loadout-fits :
    (r : Request) (i : ℕ) (g : GpuInfo)
    → get_elem? (gpus_of r) i ≡ some g
    → (vram_on i (plan_loadout r).slots ≤ g.vram_total_mb)
      × (vram_on i (plan_loadout r).slots ≤ room (any is_vram_tight (plan_loadout r).notices) g)
plan_loadout-fits r i g e = ground (arith, plan_loadout-Within r i g e)
