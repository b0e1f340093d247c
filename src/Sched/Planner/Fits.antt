-- ===== src/Sched/Planner/Fits.antt =====
-- What the walks of `plan_loadout` (src/suiban/sched/planner.py) end in: an orchestrator that fits,
-- and the first rung of the worker ladder that fits.
use suiban.Prelude.{
  ℕ, suc, ◌+◌, ◌≤◌, ◌≡◌, refl, Bool, true, false, some, List, [], ◌∷◌, ◌++◌, arith, if◌then◌else◌,
  sum_of, inl, inr, All, ap, Bool-cases,
}
use suiban.Prelude.Int.{ℤ, pos, leb_ℤ, ◌≤ℤ◌}
use suiban.Sched.Budget.{Family, KvType}
use suiban.Sched.Budget.Provider.{BudgetProvider, SlotCost, total_mb}
use suiban.Sched.Planner.Orchestrator.{first_ctx, fit_orchestrator, orch_ctx_ladder}
use suiban.Sched.Planner.Workers.{Rung, walk, rung_costs}
use suiban.Sched.Planner.Cases.{placed}

module _ (budget : BudgetProvider) (effective : Family) (k v : KvType) (dspark : Bool)
    (utility_mb avail vram configured : ℕ) where
  first_ctx-le :
      (ladder : List ℕ) (cost : SlotCost)
      → first_ctx budget effective k v dspark utility_mb avail ladder ≡ some cost
      → total_mb cost + utility_mb ≤ avail
  unfolding first_ctx
  first_ctx-le [] cost h = ground arith
  first_ctx-le (ctx ∷ ladder) cost h = ground (arith, first_ctx-le ladder cost)

  -- A placed orchestrator leaves the margin alone, or, as a last resort, stays in physical VRAM.
  pub fit_orchestrator-le :
      (tight_fit : Bool) (cost : SlotCost)
      → fit_orchestrator budget effective k v dspark utility_mb avail vram configured
        ≡ placed tight_fit cost
      → total_mb cost + utility_mb ≤ (if tight_fit then vram else avail)
  unfolding fit_orchestrator
  fit_orchestrator-le true cost h = ground (arith, first_ctx-le (orch_ctx_ladder configured) cost)
  fit_orchestrator-le false cost h = ground (arith, first_ctx-le (orch_ctx_ladder configured) cost)

module _ (budget : BudgetProvider) (effective : Family) (k v : KvType) (worker_ctx : ℕ)
    (pool : ℤ) where
  abbrev rung_mb : Rung → ℕ
  rung_mb rung = sum_of total_mb (rung_costs budget effective k v worker_ctx rung)

  abbrev pub fits_pool : Rung → Bool
  fits_pool rung = leb_ℤ (pos (rung_mb rung)) pool

  pub walk-le :
      (index : ℕ) (ladder : List Rung) (cap : ℕ)
      → pool ≤ℤ pos cap
      → sum_of total_mb (walk budget effective k v worker_ctx pool index ladder).costs ≤ cap
  unfolding walk
  walk-le index [] cap h = omega arith
  walk-le index (rung ∷ ladder) cap h = ground (arith, walk-le (suc index) ladder cap h)

  -- A walk of the ladder stopped at the first rung that fits the pool, or fell off its end.
  pub data FirstFit (ladder : List Rung) (rung : Rung) : Type 0 where
    chosen :
        (before after : List Rung)
        → ladder ≡ before ++ rung ∷ after
        → All (λ other. fits_pool other ≡ false) before
        → fits_pool rung ≡ true
        → FirstFit ladder rung
    exhausted : All (λ other. fits_pool other ≡ false) ladder → rung ≡ [] → FirstFit ladder rung

  FirstFit-cons :
      (rung other : Rung) (ladder : List Rung)
      → fits_pool other ≡ false
      → FirstFit ladder rung
      → FirstFit (other ∷ ladder) rung
  FirstFit-cons rung other ladder h (chosen before after e fails ok) =
      chosen (other ∷ before) after (ap (λ l. other ∷ l) e) (h, fails) ok
  FirstFit-cons rung other ladder h (exhausted fails e) = exhausted (h, fails) e

  pub walk-FirstFit :
      (index : ℕ) (ladder : List Rung)
      → FirstFit ladder (walk budget effective k v worker_ctx pool index ladder).rung
  unfolding walk
  walk-FirstFit index [] = exhausted tt refl
  walk-FirstFit index (rung ∷ ladder) = elim (Bool-cases (fits_pool rung)) [
    | inl ok ↦ rw ok (chosen [] ladder refl tt ok)
    | inr fails ↦ rw fails (FirstFit-cons _ rung ladder fails (walk-FirstFit (suc index) ladder))
  ]

  pub costs-walk :
      (index : ℕ) (ladder : List Rung)
      → (walk budget effective k v worker_ctx pool index ladder).costs
        ≡ rung_costs budget effective k v worker_ctx
            (walk budget effective k v worker_ctx pool index ladder).rung
  unfolding walk rung_costs
  costs-walk index [] = refl
  costs-walk index (rung ∷ ladder) = ground (arith, costs-walk (suc index) ladder)
