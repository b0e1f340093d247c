-- ===== src/Sched/Kv.antt =====
-- src/suiban/kv.py: which KV-cache types a slot runs with, and the fallback chain.
pub mod Fallback
pub mod Tests
use suiban.Prelude.{Bool, true, false, not, ◌||◌, Option, none, some, if◌then◌else◌}
use suiban.Sched.Budget.{KvType, f16, q8_0, tq4_0, tq3_0}
use suiban.Sched.Notices.{Notice, Level, Message}

pub data KvPreset : Type 0 where
  recommended aggressive off : KvPreset

pub record KvSettings : Type 0 where
  pub turboquant_enabled : Bool
  pub preset : KvPreset

-- `_PRESET_V_TYPE[preset]`: `none` is the `KeyError` at "off".
preset_v_type : KvPreset → Option KvType
preset_v_type recommended = some tq4_0
preset_v_type aggressive = some tq3_0
preset_v_type off = none

pub is_off : KvPreset → Bool
is_off off = true
is_off _ = false

pub record KvState : Type 0 where
  pub k_type : KvType
  pub v_type : KvType
  pub enabled : Bool
  pub preset : KvPreset
  pub backend_supported : Bool
  pub fallback_active : Bool
  pub fallback_reason : Option Message
  pub notice : Option Notice

abbrev warning : Message → Option Notice
warning m = some (record { level = Level.warn; message = m })

no_flash_attention : KvSettings → Bool → KvState
no_flash_attention settings backend_supported = record {
  k_type = f16;
  v_type = f16;
  enabled = settings.turboquant_enabled;
  preset = settings.preset;
  backend_supported = backend_supported;
  fallback_active = true;
  fallback_reason = some Message.kv_fa_fallback;
  notice = warning Message.kv_fa_fallback;
}

switched_off : KvSettings → Bool → KvState
switched_off settings backend_supported = record {
  k_type = q8_0;
  v_type = q8_0;
  enabled = false;
  preset = settings.preset;
  backend_supported = backend_supported;
  fallback_active = false;
  fallback_reason = none;
  notice = none;
}

prebuilt_binary : KvSettings → KvState
prebuilt_binary settings = record {
  k_type = q8_0;
  v_type = q8_0;
  enabled = true;
  preset = settings.preset;
  backend_supported = false;
  fallback_active = true;
  fallback_reason = some Message.turboquant_prebuilt_fallback;
  notice = warning Message.turboquant_prebuilt_fallback;
}

turboquant : KvSettings → KvType → KvState
turboquant settings v_type = record {
  k_type = q8_0;
  v_type = v_type;
  enabled = true;
  preset = settings.preset;
  backend_supported = true;
  fallback_active = false;
  fallback_reason = none;
  notice = none;
}

-- `none` would be an uncaught `KeyError`.
pub resolve_kv_state : KvSettings → Bool → Bool → Option KvState
unfolding no_flash_attention switched_off prebuilt_binary turboquant preset_v_type is_off
resolve_kv_state settings backend_supported fa_available =
    if not fa_available
    then some (no_flash_attention settings backend_supported)
    else if not settings.turboquant_enabled || is_off settings.preset
    then some (switched_off settings backend_supported)
    else if not backend_supported
    then some (prebuilt_binary settings)
    else elim (preset_v_type settings.preset) [
      | none ↦ none
      | some v ↦ some (turboquant settings v)
    ]
