-- ===== src/Sched/Planner/Cases.antt =====
-- The outcomes of `plan_loadout` (src/suiban/sched/planner.py), as one rule for proofs about it.
use suiban.Prelude.{
  ◌≡◌, refl, Bool, true, false, some, List, [], ◌∷◌, if◌then◌else◌, inl, inr, Option-cases,
}
use suiban.Sched.Budget.Provider.{SlotCost}
use suiban.Sched.Notices.{Message}
use suiban.Sched.Planner.Types.{GpuInfo, Loadout, Tier, tier_for}
use suiban.Sched.Planner.Orchestrator.{OrchFit, fits, tight, overflow}
use suiban.Sched.Planner.Slots.{Request, plan_cpu, fall_back}
use suiban.Sched.Planner.Plan.{
  orchestrator_fit, finish, assemble, plan_gpu, plan_on, plan_loadout, gpus_of,
}

-- How the orchestrator was placed: `tight_fit` and its cost.
abbrev pub placed : Bool → SlotCost → OrchFit
placed tight_fit cost = if tight_fit then tight cost else fits cost

-- What holds of a loadout with GPU slots.
pub record OnGpu (r : Request) (gpu0 : GpuInfo) (more : List GpuInfo) (tier : Tier)
    (tight_fit : Bool) (cost : SlotCost) : Type 0 where
  pub gpus : gpus_of r ≡ gpu0 ∷ more
  pub has_tier : tier_for gpu0.vram_total_mb ≡ some tier
  pub has_fit : orchestrator_fit r gpu0 more tier ≡ placed tight_fit cost

module _ {ℓ} (P : Loadout → Type ℓ) (r : Request) where
  abbrev pub OnCpu : Type ℓ
  OnCpu = P (plan_cpu r) × ((m : Message) → P (fall_back r m))

  abbrev pub OnGpus : Type ℓ
  OnGpus =
      (gpu0 : GpuInfo) (more : List GpuInfo) (tier : Tier) (tight_fit : Bool) (cost : SlotCost)
      → OnGpu r gpu0 more tier tight_fit cost
      → P (assemble r gpu0 more tier tight_fit cost)

  finish_ind :
      (gpu0 : GpuInfo) (more : List GpuInfo) (tier : Tier) (fit : OrchFit)
      → OnCpu
      → OnGpus
      → gpus_of r ≡ gpu0 ∷ more
      → tier_for gpu0.vram_total_mb ≡ some tier
      → orchestrator_fit r gpu0 more tier ≡ fit
      → P (finish r gpu0 more tier fit)
  unfolding finish
  finish_ind gpu0 more tier (fits cost) on_cpu on_gpu e t f =
      on_gpu gpu0 more tier false cost (record { gpus = e; has_tier = t; has_fit = f })
  finish_ind gpu0 more tier (tight cost) on_cpu on_gpu e t f =
      on_gpu gpu0 more tier true cost (record { gpus = e; has_tier = t; has_fit = f })
  finish_ind gpu0 more tier overflow on_cpu on_gpu e t f = on_cpu.1 Message.loadout_overflow

  plan_on_ind : (gpus : List GpuInfo) → gpus_of r ≡ gpus → OnCpu → OnGpus → P (plan_on r gpus)
  unfolding plan_on
  plan_on_ind [] e on_cpu on_gpu = on_cpu.0
  plan_on_ind (gpu0 ∷ more) e on_cpu on_gpu = elim (Option-cases (tier_for gpu0.vram_total_mb)) [
    | inl none_fits ↦ rw (none_fits, plan_on) (on_cpu.1 (Message.gpu_too_small gpu0.vram_total_mb))
    | inr (tier, t) ↦ rw (t, plan_on) (finish_ind gpu0 more tier _ on_cpu on_gpu e t refl)
  ]

  pub plan_ind : OnCpu → OnGpus → P (plan_loadout r)
  unfolding plan_loadout
  plan_ind on_cpu on_gpu = plan_on_ind (gpus_of r) refl on_cpu on_gpu

-- Where a tier and a fit are found, the loadout is the one assembled from them.
pub plan_loadout-OnGpu :
    (r : Request) (gpu0 : GpuInfo) (more : List GpuInfo) (tier : Tier) (tight_fit : Bool)
    (cost : SlotCost)
    → OnGpu r gpu0 more tier tight_fit cost
    → plan_loadout r ≡ assemble r gpu0 more tier tight_fit cost
unfolding plan_loadout plan_on plan_gpu finish
plan_loadout-OnGpu r gpu0 more tier true cost h = rw (h.gpus, plan_on, h.has_tier, h.has_fit)
plan_loadout-OnGpu r gpu0 more tier false cost h = rw (h.gpus, plan_on, h.has_tier, h.has_fit)
