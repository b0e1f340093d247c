-- ===== src/Schedules/Overlap.antt =====
-- No schedule has two runs in flight (src/suiban/schedules/runner.py).
use suiban.Prelude.{
  ℕ, ◌≡◌, true, false, not, List, [], ◌∷◌, ◌++◌, Option, none, some, String, arith, keep,
  Option-cases, Bool-cases, inl, inr,
}
use text.Mathlib.Text.{◌==◌ as str_eq}
use text.Mathlib.TextEquality.{eq_iff}
use mathlib.Core.List.{Mem}
use suiban.Schedules.Cadence.{compute_next_run}
use suiban.Schedules.Store.{Schedule, get, list}
use suiban.Schedules.Runner.{
  InFlight, Scheduler, in_flight, launch, tick_one, tick_over, tick, run_now, execute_end, set_over,
  task_over, release, fires, run_found, record_current, record_next,
}

abbrev pub NoOverlap : List InFlight → Type 0
NoOverlap [] = Unit
NoOverlap (r ∷ rs) = (in_flight r.schedule_id rs ≡ false) × NoOverlap rs

in_flight-snoc :
    (id : String) (r : InFlight) (rs : List InFlight)
    → str_eq r.schedule_id id ≡ false
    → in_flight id rs ≡ false
    → in_flight id (rs ++ r ∷ []) ≡ false
in_flight-snoc id r [] apart free = ground arith
in_flight-snoc id r (q ∷ rs) apart free = ground (arith, in_flight-snoc id r rs apart)

snoc-NoOverlap :
    (r : InFlight) (rs : List InFlight)
    → in_flight r.schedule_id rs ≡ false
    → NoOverlap rs
    → NoOverlap (rs ++ r ∷ [])
snoc-NoOverlap r [] free d = ground arith
snoc-NoOverlap r (q ∷ rs) free d = (
  in_flight-snoc q.schedule_id r rs
      (ground (arith, eq_iff q.schedule_id r.schedule_id, eq_iff r.schedule_id q.schedule_id)) d.0,
  snoc-NoOverlap r rs (ground arith) d.1,
)

in_flight-keep :
    (id gone : String) (rs : List InFlight)
    → in_flight id rs ≡ false
    → in_flight id (keep (λ r. not (str_eq r.schedule_id gone)) rs) ≡ false
in_flight-keep id gone [] free = free
in_flight-keep id gone (r ∷ rs) free = ground (arith, in_flight-keep id gone rs)

keep-NoOverlap :
    (gone : String) (rs : List InFlight)
    → NoOverlap rs
    → NoOverlap (keep (λ r. not (str_eq r.schedule_id gone)) rs)
keep-NoOverlap gone [] d = d
keep-NoOverlap gone (r ∷ rs) d = elim (Bool-cases (str_eq r.schedule_id gone)) [
  | inl same ↦ rw same (keep-NoOverlap gone rs d.1)
  | inr other ↦ rw other (in_flight-keep r.schedule_id gone rs d.0, keep-NoOverlap gone rs d.1)
]

in_flight-set_over :
    (id session : String) (rs : List InFlight)
    → in_flight id (set_over session rs) ≡ in_flight id rs
unfolding set_over
in_flight-set_over id session [] = ground arith
in_flight-set_over id session (r ∷ rs) = ground (arith, in_flight-set_over id session rs)

set_over-NoOverlap :
    (session : String) (rs : List InFlight) → NoOverlap rs → NoOverlap (set_over session rs)
unfolding set_over
set_over-NoOverlap session [] d = d
set_over-NoOverlap session (r ∷ rs) d =
    (ground (arith, in_flight-set_over r.schedule_id session rs), set_over-NoOverlap session rs d.1)

fires_free :
    (s : Scheduler) (x : Schedule) (now : ℕ)
    → fires s x now ≡ true
    → in_flight x.id s.running ≡ false
unfolding fires
fires_free s x now h = ground arith

module _ (new_session : ℕ → String) where
  launch-NoOverlap :
      (s : Scheduler) (x : Schedule)
      → in_flight x.id s.running ≡ false
      → NoOverlap s.running
      → NoOverlap (launch new_session s x).running
  unfolding launch
  launch-NoOverlap s x free d = snoc-NoOverlap _ s.running free d

  tick_one-NoOverlap :
      (s : Scheduler) (x : Schedule) (now : ℕ)
      → NoOverlap s.running
      → NoOverlap (tick_one new_session s x now).running
  unfolding tick_one
  tick_one-NoOverlap s x now d = elim (Bool-cases (fires s x now)) [
    | inl fire ↦ rw fire (launch-NoOverlap s x (fires_free s x now fire) d)
    | inr idle ↦ rw idle d
  ]

  tick_over-NoOverlap :
      (rows : List Schedule) (s : Scheduler) (now : ℕ)
      → NoOverlap s.running
      → NoOverlap (tick_over new_session rows s now).running
  unfolding tick_over
  tick_over-NoOverlap [] s now d = d
  tick_over-NoOverlap (x ∷ rows) s now d =
      tick_over-NoOverlap rows _ now (tick_one-NoOverlap s x now d)

  run_found-NoOverlap :
      (s : Scheduler) (found : Option Schedule)
      → NoOverlap s.running
      → NoOverlap (run_found new_session s found).0.running
  unfolding run_found
  run_found-NoOverlap s none d = d
  run_found-NoOverlap s (some x) d = elim (Bool-cases (in_flight x.id s.running)) [
    | inl busy ↦ rw busy d
    | inr free ↦ rw free (launch-NoOverlap s x free d)
  ]

  run_now-NoOverlap :
      (s : Scheduler) (id : String)
      → NoOverlap s.running
      → NoOverlap (run_now new_session s id).0.running
  unfolding run_now
  run_now-NoOverlap s id d = run_found-NoOverlap s _ d

module _ (decimal : ℕ → Option ℕ) where
  execute_end-running :
      (s : Scheduler) (x : Schedule) (session text : String) (error : Option String) (finished : ℕ)
      → (execute_end decimal s x session text error finished).running ≡ s.running
  unfolding execute_end record_current record_next
  execute_end-running s x session text error finished = elim (Option-cases (get s.schedules x.id)) [
    | inl gone ↦ rw gone
    | inr (row, there) ↦ elim (Option-cases (compute_next_run decimal row.cadence finished)) [
      | inl never ↦ rw (there, never)
      | inr (t, at) ↦ rw (there, at)
    ]
  ]

-- What a running scheduler may do: a check of the clock, an immediate run, the end of a run with its
-- record, the end of one without (its row is gone, or it was cancelled), the callback that takes an
-- ended run off the list, and any change of the schedules over HTTP.
module _ (decimal : ℕ → Option ℕ) (new_session : ℕ → String) where
  pub data Step (s : Scheduler) : Scheduler → Type 0 where
    ticks : (now : ℕ) → Step s (tick new_session s now)
    runs_now : (id : String) → Step s (run_now new_session s id).0
    ends :
        (x : Schedule) (session text : String) (error : Option String) (finished : ℕ)
        → Step s (task_over (execute_end decimal s x session text error finished) session)
    stops : (session : String) → Step s (task_over s session)
    releases : (r : InFlight) → Mem r s.running → r.over ≡ true → Step s (release s r.schedule_id)
    edits : (rows : List Schedule) → Step s (record s { schedules = rows })

  pub data Reach (s : Scheduler) : Scheduler → Type 0 where
    here : Reach s s
    next : {t u : Scheduler} → Reach s t → Step t u → Reach s u

  Step-NoOverlap : {s t : Scheduler} → Step s t → NoOverlap s.running → NoOverlap t.running
  unfolding tick task_over release
  Step-NoOverlap {s} (ticks now) d = tick_over-NoOverlap new_session (list s.schedules) s now d
  Step-NoOverlap {s} (runs_now id) d = run_now-NoOverlap new_session s id d
  Step-NoOverlap {s} (ends x session text error finished) d =
      set_over-NoOverlap session _
        (rw (execute_end-running decimal s x session text error finished) d)
  Step-NoOverlap {s} (stops session) d = set_over-NoOverlap session s.running d
  Step-NoOverlap {s} (releases r m o) d = keep-NoOverlap r.schedule_id s.running d
  Step-NoOverlap (edits rows) d = d

  -- From a scheduler with nothing in flight, whatever the clock, the requests and the runs do, no
  -- schedule ever has two runs in flight.
  pub Reach-NoOverlap :
      (rows : List Schedule) (t : Scheduler)
      → Reach (record { schedules = rows; running = []; launches = 0; notified = [] }) t
      → NoOverlap t.running
  Reach-NoOverlap rows t here = tt
  Reach-NoOverlap rows t (next r st) = Step-NoOverlap st (Reach-NoOverlap rows _ r)
