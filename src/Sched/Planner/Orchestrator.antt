-- ===== src/Sched/Planner/Orchestrator.antt =====
-- The mandatory slots of `plan_loadout` (src/suiban/sched/planner.py): family, utility model, and
-- the orchestrator's context.
use suiban.Prelude.{
  ℕ, ◌+◌, ◌*◌, Bool, true, false, Option, none, some, List, [], ◌∷◌, min, leb, ltb, ◌==◌, keep,
  if◌then◌else◌,
}
use suiban.Sched.Budget.{
  Model, bonsai_27b, bonsai_4b, bonsai_1_7b, Family, ternary, one_bit, KvType, max_ctx,
}
use suiban.Sched.Budget.Provider.{BudgetProvider, SlotCost, slot_cost, total_mb}
use suiban.Sched.Planner.Types.{Tier, gb8}

-- The comparison with `_FAMILY_DEGRADE_BELOW_MB`.
unfoldable pub degrades : ℕ → Family → Bool
degrades vram_mb ternary = ltb vram_mb (14 * 1024)
degrades vram_mb one_bit = false

unfoldable pub effective_family : ℕ → Family → Family
unfolding degrades
effective_family vram_mb configured = if degrades vram_mb configured then one_bit else configured

unfoldable pub utility_model : Tier → Model
utility_model gb8 = bonsai_1_7b
utility_model _ = bonsai_4b

-- `sorted({...}, reverse=True)`: descending, without duplicates.
insert_desc : ℕ → List ℕ → List ℕ
insert_desc n [] = n ∷ []
insert_desc n (x ∷ xs) =
    let rest = insert_desc n xs in
    if n == x then x ∷ xs else if ltb x n then n ∷ x ∷ xs else x ∷ rest

unfoldable pub orch_ctx_ladder : ℕ → List ℕ
unfolding insert_desc max_ctx
orch_ctx_ladder configured =
    keep (λ c. leb c configured)
      (insert_desc (min configured (max_ctx bonsai_27b)) (insert_desc 16384 (insert_desc 8192 [])))

-- What the walk of the context ladder ends in: a context within the margin, the last resort that
-- eats into the margin, or no GPU loadout at all.
pub data OrchFit : Type 0 where
  fits tight : SlotCost → OrchFit
  overflow : OrchFit

module _ (budget : BudgetProvider) (effective : Family) (k_type v_type : KvType) where
  unfoldable pub utility_cost : Tier → SlotCost
  unfolding utility_model
  utility_cost tier = slot_cost budget (utility_model tier) effective 8192 k_type v_type false false

module _ (budget : BudgetProvider) (effective : Family) (k_type v_type : KvType)
    (dspark : Bool) where
  unfoldable pub orch_cost : ℕ → SlotCost
  orch_cost ctx = slot_cost budget bonsai_27b effective ctx k_type v_type true dspark

  -- `for ctx in orch_ctx_ladder: ... break`
  unfoldable pub first_ctx : ℕ → ℕ → List ℕ → Option SlotCost
  first_ctx utility_mb avail [] = none
  first_ctx utility_mb avail (ctx ∷ rest) =
      let later = first_ctx utility_mb avail rest in
      if leb (total_mb (orch_cost ctx) + utility_mb) avail then some (orch_cost ctx) else later

  unfoldable pub fit_orchestrator : ℕ → ℕ → ℕ → ℕ → OrchFit
  fit_orchestrator utility_mb avail vram_mb configured_ctx =
      elim (first_ctx utility_mb avail (orch_ctx_ladder configured_ctx)) [
        | some cost ↦ fits cost
        | none ↦
            if leb (total_mb (orch_cost 8192) + utility_mb) vram_mb
            then tight (orch_cost 8192)
            else overflow
      ]
