-- ===== src/Sched/Kv/Fallback.antt =====
-- The KV fallback chain of src/suiban/kv.py: total, never silent, and TurboQuant where it can run.
use suiban.Prelude.{Bool, true, false, some, ◌≡◌, ◌↔◌, ◌⊎◌, arith}
use suiban.Sched.Budget.{f16, q8_0, tq4_0, tq3_0}
use suiban.Sched.Kv.{KvSettings, KvState, resolve_kv_state, is_off}

-- TurboQuant types are used exactly when flash attention, the kernels, the switch and a preset
-- other than "off" are all there, and only for V; without flash attention both caches are f16.
quantised_iff :
    (settings : KvSettings) (backend fa : Bool) (st : KvState)
    → resolve_kv_state settings backend fa ≡ some st
    → (((st.v_type ≡ tq4_0) ⊎ (st.v_type ≡ tq3_0)) ↔ (
        (fa ≡ true)
        × (backend ≡ true)
        × (settings.turboquant_enabled ≡ true)
        × (is_off settings.preset ≡ false)))
      × ((st.k_type ≡ f16) ↔ (fa ≡ false))
      × ((st.v_type ≡ f16) ↔ (fa ≡ false))
      × ((st.k_type ≡ q8_0) ⊎ (st.k_type ≡ f16))
unfolding resolve_kv_state
quantised_iff s b fa st h = ground arith
