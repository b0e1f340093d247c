-- ===== src/Effort/Tests.antt =====
-- Runs of the effort ladder, and its theorems at concrete inputs.
use suiban.Prelude.{◌*◌, ◌≤◌, ◌≡◌, [], ◌∷◌, map, refl, arith}
use suiban.Effort.{high, xhigh, effort_levels, thinking_budget, max_tool_iterations}
use suiban.Effort.Bounds.{ladder_monotone}

-- In a 16K slot the cap cuts `high` and above.
budgets_16k : map (λ e. thinking_budget e 16384) effort_levels ≡ 0 ∷ 4096 ∷ 6553 ∷ 6553 ∷ 6553 ∷ []
unfolding thinking_budget
budgets_16k = refl

ladder_monotone_example :
    (thinking_budget xhigh 16384 * 5 ≤ 16384 * 2)
    × (thinking_budget high 16384 ≤ thinking_budget xhigh 16384)
    × (max_tool_iterations high ≤ max_tool_iterations xhigh)
ladder_monotone_example = ladder_monotone high xhigh 16384 (omega arith)
