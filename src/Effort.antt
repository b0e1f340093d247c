-- ===== src/Effort.antt =====
-- src/suiban/effort.py: the effort ladder, thinking budgets and tool-loop limits.
-- A budget of `none` is the ladder's -1 (unlimited). `int(ctx * 0.4)` is `ctx * 2 / 5`.
pub mod Bounds
pub mod Tests
use text.Mathlib.Text.{◌==◌ as str_eq}
use suiban.Prelude.{
  String, if◌then◌else◌, ℕ, ◌*◌, ◌/◌, Bool, true, false, Option, none, some, List, [], ◌∷◌, min,
  ◌==◌, not,
}

pub data Effort : Type 0 where
  low mid high xhigh max : Effort

abbrev pub effort_levels : List Effort
effort_levels = low ∷ mid ∷ high ∷ xhigh ∷ max ∷ []

-- The two columns of `_LADDER`.
ladder : Effort → Option ℕ × ℕ
ladder low = (some 0, 8)
ladder mid = (some 4096, 16)
ladder high = (some 12288, 32)
ladder xhigh = (some 24576, 48)
ladder max = (none, 64)

thinking_cap : ℕ → ℕ
thinking_cap slot_ctx = slot_ctx * 2 / 5

unfoldable pub thinking_budget : Effort → ℕ → ℕ
unfolding ladder thinking_cap
thinking_budget effort slot_ctx = elim ((ladder effort).0) [
  | none ↦ thinking_cap slot_ctx
  | some raw ↦ min raw (thinking_cap slot_ctx)
]

-- The value of `chat_template_kwargs.enable_thinking`.
unfoldable pub enable_thinking : ℕ → Bool
enable_thinking thinking_budget_tokens = not (thinking_budget_tokens == 0)

unfoldable pub slot_reasoning_budget : ℕ → ℕ
unfolding thinking_cap
slot_reasoning_budget slot_ctx = min 24576 (thinking_cap slot_ctx)

unfoldable pub max_tool_iterations : Effort → ℕ
unfolding ladder
max_tool_iterations effort = (ladder effort).1

-- The sampling defaults of a model. Temperature and top-p are in hundredths.
pub record Sampling : Type 0 where
  pub temperature : ℕ
  pub top_p : ℕ
  pub top_k : ℕ

unfoldable pub sampling_for : String → Sampling
sampling_for model =
    if str_eq model "bonsai-27b"
    then record { temperature = 70; top_p = 95; top_k = 20 }
    else record { temperature = 50; top_p = 85; top_k = 20 }
