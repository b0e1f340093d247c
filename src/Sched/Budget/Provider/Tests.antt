-- ===== src/Sched/Budget/Provider/Tests.antt =====
-- Prices of concrete slots, and the theorems of the budget at them.
use suiban.Prelude.{◌≡◌, refl, true, false, some, none}
use suiban.Sched.Budget.Models.{
  bonsai_27b, ternary, q8_0, tq4_0, weights_gib, buffer_prior_gib, same_model, same_family,
}
use suiban.Sched.Budget.Rounding.{gib_to_mb, kv_mb, kv_per_token}
use suiban.Sched.Budget.Provider.{BudgetProvider, unmeasured, slot_cost, total_mb, record_measured}
use suiban.Sched.Budget.Provider.Overrides.{slot_cost-record_measured_all}

-- 6.67 GiB of weights, 1.2 GiB of buffers, 832 MiB of KV cache and 0.63 GiB of projector.
orchestrator_mb :
    total_mb (slot_cost unmeasured bonsai_27b ternary 32768 q8_0 tq4_0 true false) ≡ 9536
unfolding slot_cost gib_to_mb weights_gib buffer_prior_gib kv_mb kv_per_token
orchestrator_mb = refl

abbrev measured_27b : BudgetProvider
measured_27b = record_measured unmeasured bonsai_27b ternary (some 7000) none

measured_mb :
    total_mb (slot_cost measured_27b bonsai_27b ternary 32768 q8_0 tq4_0 true false) ≡ 9706
unfolding slot_cost record_measured gib_to_mb weights_gib buffer_prior_gib kv_mb kv_per_token
    same_model same_family
measured_mb = refl

slot_cost-record_measured_all_example :
    let before = slot_cost unmeasured bonsai_27b ternary 8192 q8_0 tq4_0 true false in
    let after = slot_cost measured_27b bonsai_27b ternary 8192 q8_0 tq4_0 true false in
    (after.weights_mb ≡ 7000)
    × (after.buffers_mb ≡ before.buffers_mb)
    × (after.kv_mb ≡ before.kv_mb)
    × (after.extras_mb ≡ before.extras_mb)
unfolding same_model slot_cost same_family gib_to_mb
slot_cost-record_measured_all_example =
    slot_cost-record_measured_all unmeasured bonsai_27b ternary (some 7000) none bonsai_27b ternary
      8192 q8_0 tq4_0 true false
