-- ===== src/Sched/Kv/Tests.antt =====
-- Runs of the KV resolver, and its theorems at those inputs.
use suiban.Prelude.{true, some, ◌≡◌, refl}
use suiban.Sched.Budget.{tq4_0}
use suiban.Sched.Kv.{KvSettings, recommended, turboquant, resolve_kv_state}

abbrev settings : KvSettings
settings = record { turboquant_enabled = true; preset = recommended }

-- The default settings, on a build with the kernels.
resolved : resolve_kv_state settings true true ≡ some (turboquant settings tq4_0)
unfolding resolve_kv_state
resolved = refl
