-- ===== src/Effort/Bounds.antt =====
-- What the effort ladder promises of the thinking budgets (src/suiban/effort.py).
use suiban.Prelude.{ℕ, ◌*◌, ◌≤◌, ◌≡◌, ◌↔◌, true, arith}
use suiban.Effort.{
  Effort, low, mid, high, xhigh, max, thinking_budget, enable_thinking, slot_reasoning_budget,
  max_tool_iterations,
}

-- A rung's place on the ladder.
abbrev pub rank : Effort → ℕ
rank low = 0
rank mid = 1
rank high = 2
rank xhigh = 3
rank max = 4

pub thinking_budget-le-cap : (e : Effort) (ctx : ℕ) → thinking_budget e ctx * 5 ≤ ctx * 2
unfolding thinking_budget
thinking_budget-le-cap low ctx = omega arith
thinking_budget-le-cap _ ctx = omega arith

-- At every slot context: no effort thinks past 40% of it, and a higher effort has at least the
-- thinking budget and the tool iterations of a lower one.
pub ladder_monotone :
    (e f : Effort) (ctx : ℕ)
    → rank e ≤ rank f
    → (thinking_budget f ctx * 5 ≤ ctx * 2)
      × (thinking_budget e ctx ≤ thinking_budget f ctx)
      × (max_tool_iterations e ≤ max_tool_iterations f)
unfolding thinking_budget max_tool_iterations
ladder_monotone e f ctx h = ground (arith, thinking_budget-le-cap f ctx)

-- Every effort but `max` stays within the ceiling that the slot is launched with.
budget-le-slot_budget :
    (e : Effort) (ctx : ℕ) → rank e ≤ 3 → thinking_budget e ctx ≤ slot_reasoning_budget ctx
unfolding thinking_budget slot_reasoning_budget
budget-le-slot_budget e ctx h = ground arith

-- In a slot of at least three tokens, the request enables thinking exactly above effort `low`.
thinking_enabled_iff :
    (e : Effort) (ctx : ℕ)
    → 3 ≤ ctx
    → (enable_thinking (thinking_budget e ctx) ≡ true) ↔ (1 ≤ rank e)
unfolding thinking_budget enable_thinking
thinking_enabled_iff low ctx h = ground arith
thinking_enabled_iff _ ctx h = ground arith
