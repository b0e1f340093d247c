-- ===== src/Sched/Planner/Workers.antt =====
-- The worker ladder of `plan_loadout` (src/suiban/sched/planner.py).
use suiban.Prelude.{
  ℕ, suc, Bool, true, false, List, [], ◌∷◌, min, leb, ltb, length, keep, sum_of, if◌then◌else◌,
  ◌&&◌,
}
use suiban.Prelude.Int.{ℤ, pos, leb_ℤ}
use suiban.Sched.Budget.{Model, bonsai_8b, bonsai_4b, bonsai_1_7b, Family, KvType, max_ctx}
use suiban.Sched.Budget.Provider.{BudgetProvider, SlotCost, slot_cost, total_mb}

abbrev pub Rung : Type 0
Rung = List Model

abbrev pub worker_ladder : List Rung
worker_ladder =
    (bonsai_8b ∷ bonsai_8b ∷ [])
    ∷ (bonsai_8b ∷ bonsai_4b ∷ [])
    ∷ (bonsai_4b ∷ bonsai_4b ∷ [])
    ∷ (bonsai_8b ∷ [])
    ∷ (bonsai_4b ∷ [])
    ∷ (bonsai_1_7b ∷ [])
    ∷ []
    ∷ []

abbrev pub preferred : ℕ → List Rung
preferred prefer_workers = keep (λ rung. leb (length rung) prefer_workers) worker_ladder

-- What the walk leaves in `chosen_rung` and `chosen_costs`, and whether it said `workers_degraded`.
pub record Choice : Type 0 where
  pub rung : Rung
  pub costs : List SlotCost
  pub degraded : Bool

abbrev pub nonempty : Rung → Bool
nonempty [] = false
nonempty (m ∷ rung) = true

module _ (budget : BudgetProvider) (effective : Family) (k_type v_type : KvType)
    (worker_ctx : ℕ) where
  unfoldable pub worker_cost : Model → SlotCost
  worker_cost m =
      slot_cost budget m effective (min worker_ctx (max_ctx m)) k_type v_type false false

  -- `[budget.slot_cost(m, ...) for m in rung]`
  unfoldable pub rung_costs : Rung → List SlotCost
  rung_costs [] = []
  rung_costs (m ∷ rung) = worker_cost m ∷ rung_costs rung

  -- `for rung_index, rung in enumerate(ladder): ... break`
  unfoldable pub walk : ℤ → ℕ → List Rung → Choice
  walk pool index [] = record { rung = []; costs = []; degraded = false }
  walk pool index (rung ∷ ladder) =
      let later = walk pool (suc index) ladder in
      if leb_ℤ (pos (sum_of total_mb (rung_costs rung))) pool
      then record { rung = rung; costs = rung_costs rung; degraded = ltb 0 index && nonempty rung }
      else later
