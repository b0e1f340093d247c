-- ===== src/Residency/Tests.antt =====
-- A day of one server: a cold start for a request, an idle window, an unload.
use suiban.Prelude.{◌+◌, ◌≡◌, true, false, Option, none, some, List, [], ◌∷◌, refl, String}
use suiban.Prelude.Int.{ℤ, pos}
use suiban.Residency.{
  SlotState, planned, ready, failed, init, ensure_fast, ensure_begin, ensure_warmed, reap_precheck,
  reap_recheck, mark_cold,
}
use suiban.Residency.KeepAlive.{parse_keep_alive}
use suiban.Residency.Steps.{
  reaper, nobody, System, boot, Event, began, ended, ticked, queued, warm_begin, warm_end,
  reap_queued, unload_begin, Step, begin, end, tick, queue, warm, warmed, reap_queue, unload, Run,
  start, next,
}
use suiban.Residency.Exclusion.{Honest, boot-Honest}
use suiban.Residency.Traces.{
  InUse, never_unloaded-InUse, count, is_warm_begin, is_lost, alive, warm_once,
}

abbrev slots : List SlotState
slots = planned ∷ planned ∷ []

abbrev warm_slots : List SlotState
warm_slots = ready ∷ failed ∷ []

abbrev warm_events : List Event
warm_events = warm_end ∷ warm_begin ∷ queued ∷ began ∷ []

abbrev served : System
served = record {
  controller = ensure_warmed (ensure_begin (init slots 100)) warm_slots 100;
  holder = nobody;
  before = [];
  busy = true;
  now = 100;
}

warm-Run : Run (boot slots 100) warm_events served
unfolding init ensure_fast ensure_begin
warm-Run =
    next (next (next (next start begin) (queue refl)) (warm [] [] refl refl refl))
      (warmed warm_slots refl)

abbrev idle : System
idle = record served { busy = false; now = 400; before = reaper 300 ∷ [] }

unload_ready : (s : System) × Step idle unload_begin s
unfolding init ensure_begin ensure_warmed reap_recheck
unload_ready = (_, unload 300 [] [] refl refl refl)

idle-Run : Run served (reap_queued ∷ ticked ∷ ended ∷ []) idle
unfolding init ensure_begin ensure_warmed reap_precheck
idle-Run = next (next (next start end) (tick 300)) (reap_queue 300 refl)

boot-Honest_example : Honest warm_events served
boot-Honest_example = boot-Honest slots 100 warm_events served warm-Run

never_unloaded-InUse_example : InUse (record served { now = 500 })
unfolding init ensure_begin ensure_warmed
never_unloaded-InUse_example =
    never_unloaded-InUse slots 100 warm_events (ticked ∷ []) served (record served { now = 500 })
      warm-Run (refl, refl) (next start (tick 400)) (refl, tt)

warm_once_example : count is_warm_begin warm_events ≡ count is_lost warm_events + alive served
warm_once_example = warm_once slots 100 warm_events served warm-Run

-- A reading of the one number that the test uses.
abbrev five : String → Option ℤ
five token = some (pos 5)

always : parse_keep_alive five "always" ≡ none
unfolding parse_keep_alive
always = refl

failed_stays : mark_cold warm_slots ≡ SlotState.cold ∷ failed ∷ []
unfolding mark_cold
failed_stays = refl
