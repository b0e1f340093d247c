-- ===== src/Residency.antt =====
-- src/suiban/llama/load_controller.py: who holds the models in VRAM. The code between two awaits is
-- one function here, `ensure_*` for `ensure_loaded` and `reap_*` for `_reap_once`; Steps interleaves
-- them. Time is the monotonic clock in whole ticks, and the idle window is in ticks too.
pub mod Steps
pub mod KeepAlive
pub mod Exclusion
pub mod Traces
pub mod Tests
use suiban.Prelude.{
  ℕ, ◌+◌, Bool, true, false, not, ◌&&◌, ◌||◌, Option, none, some, List, [], ◌∷◌, ltb, if◌then◌else◌,
}

pub data SlotState : Type 0 where
  planned cold starting ready failed : SlotState

pub record Controller : Type 0 where
  pub loaded : Bool
  pub loading : Bool
  pub unloading : Bool
  pub last_activity : ℕ
  -- The states of `manager.loadout.slots`.
  pub slots : List SlotState

pub data Report : Type 0 where
  cold loading ready idle_unloading : Report

-- The `state` property.
unfoldable pub state : Controller → Report
state c =
    if c.unloading
    then idle_unloading
    else if c.loading
    then Report.loading
    else if c.loaded
    then Report.ready
    else Report.cold

cool : SlotState → SlotState
cool failed = failed
cool _ = SlotState.cold

-- `_mark_cold`
unfoldable pub mark_cold : List SlotState → List SlotState
unfolding cool
mark_cold [] = []
mark_cold (s ∷ slots) = cool s ∷ mark_cold slots

-- `__init__`, at clock reading `now`.
unfoldable pub init : List SlotState → ℕ → Controller
init slots now = record {
  loaded = false;
  loading = false;
  unloading = false;
  last_activity = now;
  slots = mark_cold slots;
}

unfoldable pub touch : Controller → ℕ → Controller
touch c now = record c { last_activity = now }

-- The test of both paths of `ensure_loaded`: resident and settled.
abbrev pub resident : Controller → Bool
resident c = c.loaded && not c.unloading

-- `ensure_loaded` without the lock, and again once it has the lock: `none` goes on to the lock, or to
-- the warm-up; `some` returns False.
unfoldable pub ensure_fast : Controller → ℕ → Option Controller
unfolding touch
ensure_fast c now = if resident c then some (touch c now) else none

unfoldable pub ensure_begin : Controller → Controller
ensure_begin c = record c { loading = true }

-- `start_all()` returned, with the slot states that it left.
unfoldable pub ensure_warmed : Controller → List SlotState → ℕ → Controller
unfolding touch
ensure_warmed c slots now = record (touch (record c { loaded = true; slots = slots }) now) {
  loading = false;
}

-- `start_all()` raised, or the task was cancelled in it.
unfoldable pub ensure_failed : Controller → List SlotState → Controller
ensure_failed c slots = record c { loading = false; slots = slots }

-- `self._clock() - self._last_activity < idle_minutes * 60`
abbrev pub too_early : Controller → ℕ → ℕ → Bool
too_early c window now = ltb now (c.last_activity + window)

-- The checks of `_reap_once` before the lock; the window is what `parse_keep_alive` made of the
-- setting. True goes on to the lock.
unfoldable pub reap_precheck : Controller → Option ℕ → Bool → ℕ → Bool
reap_precheck c none busy now = false
reap_precheck c (some window) busy now =
    if not c.loaded || c.loading || c.unloading
    then false
    else if busy
    then false
    else if too_early c window now
    then false
    else true

-- The checks under the lock.
unfoldable pub reap_recheck : Controller → ℕ → Bool → ℕ → Bool
reap_recheck c window busy now =
    if not c.loaded || busy then false else if too_early c window now then false else true

unfoldable pub reap_begin : Controller → Controller
reap_begin c = record c { unloading = true }

-- `shutdown()` returned; `slots` is what it left.
unfoldable pub reap_unloaded : Controller → List SlotState → Controller
reap_unloaded c slots = record c { loaded = false; slots = mark_cold slots; unloading = false }

-- `shutdown()` raised.
unfoldable pub reap_failed : Controller → List SlotState → Controller
reap_failed c slots = record c { slots = slots; unloading = false }
