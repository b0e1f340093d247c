-- ===== src/Schedules/Tests.antt =====
-- Cadences and schedules, and the theorems about them.
use suiban.Prelude.{
  List, ◌↔◌, false, ℕ, ◌+◌, ◌-◌, ◌*◌, ◌<◌, ◌≡◌, refl, true, ◌&&◌, [], ◌∷◌, ◌++◌, Option, none, some,
  String, arith, leb, map, if◌then◌else◌, ◌==◌,
}
use suiban.Prelude.Int.{pos}
use suiban.Json.{Value, obj, member, no_member, str, int}
use suiban.Schedules.Cadence.{
  weekly, Cadence, ok, validate_cadence, compute_next_run, clock, hour_of, minute_of, time_of,
  timed_cadence, weekly_cadence, as_dict,
}
use suiban.Schedules.Earliest.{IsValid, is_weekly, IsEarliest, Names}
use suiban.Schedules.Parsing.{validated_next_run, validate-as_dict}
use suiban.Schedules.Store.{Schedule, get, list}
use suiban.Schedules.Runner.{Scheduler, tick, in_flight}
use suiban.Schedules.Due.{InOrder, Among, IsDue, DistinctIds, DistinctIds, ids, ids-tick}
use suiban.Schedules.Overlap.{NoOverlap, here, next, ticks, Reach-NoOverlap}

abbrev decimal : ℕ → Option ℕ
decimal c = if leb b'0' c && leb c b'9' then some (c - b'0') else none

digits : (c d : ℕ) → decimal c ≡ some d → d < 10
digits c d h = ground arith

-- Sundays at 07:30.
abbrev request : Value
request = obj (
    member "kind" (str "weekly")
      (member "weekday" (int (pos 6)) (member "time" (str "07:30") no_member)))

abbrev sundays : Cadence
sundays = record { kind = weekly; time = some "07:30"; weekday = some 6; every_minutes = none }

request_read : validate_cadence decimal request ≡ ok sundays
unfolding validate_cadence time_of timed_cadence weekly_cadence clock hour_of minute_of
request_read = refl

-- `re` lets one newline follow `$`.
newline_read : clock decimal "07:30\n" ≡ some (7, 30)
unfolding clock hour_of minute_of
newline_read = refl

-- From a Sunday at 07:30 on, the next run is a week later.
a_week_later :
    compute_next_run decimal sundays (6 * 86400000000 + 450 * 60000000)
    ≡ some (13 * 86400000000 + 450 * 60000000)
unfolding compute_next_run clock hour_of minute_of
a_week_later = refl

validated_next_run_example :
    (valid : IsValid decimal sundays) × ((t : ℕ) × (compute_next_run decimal sundays 5 ≡ some t)
      × IsEarliest (Names valid 5) 5 t)
validated_next_run_example =
    validated_next_run decimal digits request sundays 5 request_read (omega arith)

validate-as_dict_example : validate_cadence decimal (as_dict sundays) ≡ ok sundays
validate-as_dict_example = validate-as_dict decimal request sundays request_read

abbrev digest : Schedule
digest = record {
  id = "sched_1";
  name = "digest";
  prompt = "news of the week";
  mode = "chat";
  effort = "low";
  project_id = none;
  cadence = sundays;
  enabled = true;
  created_at = 3;
  last_run_at = none;
  next_run_at = some 545400;
  last_session_id = none;
  last_error = none;
}

abbrev backup : Schedule
backup = record digest { id = "sched_2"; name = "backup"; created_at = 2 }

abbrev at_rest : Scheduler
at_rest = record { schedules = digest ∷ backup ∷ []; running = []; launches = 0; notified = [] }

abbrev session : ℕ → String
session n = if n == 0 then "sched-a" else "sched-b"

abbrev sunday : ℕ
sunday = 545400 * 1000000

rows_distinct : DistinctIds (list (digest ∷ backup ∷ []))
unfolding list
rows_distinct = ((refl, tt), (tt, tt))

digest_found : get (digest ∷ backup ∷ []) "sched_1" ≡ some digest
unfolding get
digest_found = refl

sundays-IsValid : IsValid decimal sundays
unfolding clock hour_of minute_of
sundays-IsValid = is_weekly "07:30" (7, 30) 6 refl (omega arith) refl

ids-tick_example :
    (fired : List Schedule) × ((ids (tick session at_rest sunday).running
        ≡ ids at_rest.running ++ map (λ x. x.id) fired)
      × (InOrder fired
          × (DistinctIds fired
              × ((x : Schedule)
                  → Among x fired ↔ (
                      Among x at_rest.schedules
                      × (IsDue x sunday × (in_flight x.id at_rest.running ≡ false)))))))
ids-tick_example = ids-tick session at_rest sunday rows_distinct

Reach-NoOverlap_example : NoOverlap (tick session at_rest sunday).running
Reach-NoOverlap_example =
    Reach-NoOverlap decimal session (digest ∷ backup ∷ []) (tick session at_rest sunday)
      (next here (ticks sunday))
