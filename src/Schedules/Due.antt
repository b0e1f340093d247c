-- ===== src/Schedules/Due.antt =====
-- What one check of the clock launches, and when an ended run is due again
-- (src/suiban/schedules/runner.py).
use suiban.Prelude.{
  ℕ, ◌+◌, ◌*◌, ◌/◌, ◌%◌, ◌≡◌, ◌<◌, ◌≤◌, ◌↔◌, ◌⊎◌, leb, Bool, refl, sym, ap, ◌∙◌, true, false, List,
  [], ◌∷◌, ◌++◌, Option, some, String, arith, map, keep, All, Bool-cases, Option-cases, inl, inr,
}
use text.Mathlib.Text.{◌==◌ as str_eq}
use mathlib.Core.List.{append_assoc, append-nil, map-append}
use suiban.Schedules.Cadence.{Cadence, compute_next_run, limit}
use suiban.Schedules.Earliest.{
  IsValid, is_interval, is_daily, is_weekly, IsEarliest, Names, next_run-IsEarliest,
}
use suiban.Schedules.Parsing.{reach, valid-Runs}
use suiban.Schedules.Store.{Schedule, iso_utc, insert_created, get, list, update, has_id}
use suiban.Schedules.Runner.{
  InFlight, started, Scheduler, in_flight, is_due, fires, launch, tick_one, tick_over, tick,
  execute_end, recorded, record_current, record_next,
}

abbrev pub DistinctIds : List Schedule → Type 0
DistinctIds [] = Unit
DistinctIds (x ∷ rows) = All (λ y. str_eq x.id y.id ≡ false) rows × DistinctIds rows

-- The schedules of `rows` that are due at `now` and have no run in flight.
abbrev pub to_fire : Scheduler → ℕ → List Schedule → List Schedule
to_fire s now rows = keep (λ x. fires s x now) rows

abbrev pub ids : List InFlight → List String
ids running = map (λ r. r.schedule_id) running

in_flight-launch :
    (id : String) (r : InFlight) (rs : List InFlight)
    → str_eq r.schedule_id id ≡ false
    → in_flight id (rs ++ r ∷ []) ≡ in_flight id rs
in_flight-launch id r [] apart = ground arith
in_flight-launch id r (q ∷ rs) apart = ground (arith, in_flight-launch id r rs apart)

module _ (new_session : ℕ → String) where
  fires-launch :
      (s : Scheduler) (x y : Schedule) (now : ℕ)
      → str_eq x.id y.id ≡ false
      → fires (launch new_session s x) y now ≡ fires s y now
  unfolding fires launch
  fires-launch s x y now apart =
      rw (in_flight-launch y.id (started x.id (new_session s.launches)) s.running apart)

  to_fire-launch :
      (s : Scheduler) (x : Schedule) (now : ℕ) (rows : List Schedule)
      → All (λ y. str_eq x.id y.id ≡ false) rows
      → to_fire (launch new_session s x) now rows ≡ to_fire s now rows
  to_fire-launch s x now [] apart = refl
  to_fire-launch s x now (y ∷ rows) apart =
      rw (fires-launch s x y now apart.0, to_fire-launch s x now rows apart.1)

  ids-launch :
      (s : Scheduler) (x : Schedule)
      → ids (launch new_session s x).running ≡ ids s.running ++ x.id ∷ []
  unfolding launch
  ids-launch s x = map-append _ s.running _

  tick_one_fire :
      (s : Scheduler) (x : Schedule) (now : ℕ)
      → fires s x now ≡ true
      → tick_one new_session s x now ≡ launch new_session s x
  unfolding tick_one
  tick_one_fire s x now fire = rw fire

  tick_one_idle :
      (s : Scheduler) (x : Schedule) (now : ℕ)
      → fires s x now ≡ false
      → tick_one new_session s x now ≡ s
  unfolding tick_one
  tick_one_idle s x now idle = rw idle

  ids-tick_over :
      (rows : List Schedule) (s : Scheduler) (now : ℕ)
      → DistinctIds rows
      → ids (tick_over new_session rows s now).running
        ≡ ids s.running ++ map (λ x. x.id) (to_fire s now rows)
  unfolding tick_over
  ids-tick_over [] s now d = sym (append-nil _)
  ids-tick_over (x ∷ rows) s now d = elim (Bool-cases (fires s x now)) [
    | inl fire ↦
        ids-tick_over rows (tick_one new_session s x now) now d.1
        ∙ rw (tick_one_fire s x now fire, fire, ids-launch s x, to_fire-launch s x now rows d.0)
            (append_assoc (ids s.running) _ _)
    | inr idle ↦
        ids-tick_over rows (tick_one new_session s x now) now d.1
        ∙ rw (tick_one_idle s x now idle, idle)
  ]

  fired_in_order :
      (s : Scheduler) (now : ℕ)
      → DistinctIds (list s.schedules)
      → ids (tick new_session s now).running
        ≡ ids s.running ++ map (λ x. x.id) (to_fire s now (list s.schedules))
  unfolding tick
  fired_in_order s now d = ids-tick_over (list s.schedules) s now d

-- A schedule is one of these.
abbrev pub Among : Schedule → List Schedule → Type 0
Among x [] = ⊥
Among x (y ∷ ys) = (x ≡ y) ⊎ Among x ys

-- None was created before one that stands before it.
abbrev pub InOrder : List Schedule → Type 0
InOrder [] = Unit
InOrder (x ∷ xs) = All (λ y. x.created_at ≤ y.created_at) xs × InOrder xs

-- Enabled, and its next run has come; `now` is in microseconds.
abbrev pub IsDue : Schedule → ℕ → Type 0
IsDue x now = (x.enabled ≡ true) × ((n : ℕ) × ((x.next_run_at ≡ some n) × (n * 1000000 ≤ now)))

insert_created-All :
    (P : Schedule → Type 0) (x : Schedule) (rows : List Schedule)
    → P x
    → All P rows
    → All P (insert_created x rows)
unfolding insert_created
insert_created-All P x [] p h = (p, tt)
insert_created-All P x (r ∷ rows) p h = elim (Bool-cases (leb x.created_at r.created_at)) [
  | inl first ↦ rw first (p, h)
  | inr later_ ↦ rw later_ (h.0, insert_created-All P x rows p h.1)
]

All-later :
    (t u : ℕ) (rows : List Schedule)
    → t ≤ u
    → All (λ y. u ≤ y.created_at) rows
    → All (λ y. t ≤ y.created_at) rows
All-later t u [] le h = tt
All-later t u (r ∷ rows) le h = (omega (arith, h.0), All-later t u rows le h.1)

insert_created-InOrder :
    (x : Schedule) (rows : List Schedule) → InOrder rows → InOrder (insert_created x rows)
unfolding insert_created
insert_created-InOrder x [] h = (tt, tt)
insert_created-InOrder x (r ∷ rows) h = elim (Bool-cases (leb x.created_at r.created_at)) [
  | inl first ↦
      let le : x.created_at ≤ r.created_at = ground arith in
      rw first ((le, All-later x.created_at r.created_at rows le h.0), h)
  | inr later_ ↦
      let le : r.created_at ≤ x.created_at = ground arith in
      rw later_ (
        insert_created-All (λ y. r.created_at ≤ y.created_at) x rows le h.0,
        insert_created-InOrder x rows h.1,
      )
]

list-InOrder : (rows : List Schedule) → InOrder (list rows)
unfolding list
list-InOrder [] = tt
list-InOrder (x ∷ rows) = insert_created-InOrder x (list rows) (list-InOrder rows)

insert_created-Among :
    (y x : Schedule) (rows : List Schedule)
    → Among y (insert_created x rows) ↔ ((y ≡ x) ⊎ Among y rows)
unfolding insert_created
insert_created-Among y x [] = ((λ h. h), λ h. h)
insert_created-Among y x (r ∷ rows) =
    let rest = insert_created-Among y x rows in
    elim (Bool-cases (leb x.created_at r.created_at)) [
      | inl first ↦ rw first ((λ h. h), λ h. h)
      | inr later_ ↦ rw later_ (
        (λ h. elim h [
          | inl e ↦ inr (inl e)
          | inr m ↦ elim (rest.0 m) [ inl e ↦ inl e | inr k ↦ inr (inr k) ]
        ]),
        λ h. elim h [
          | inl e ↦ inr (rest.1 (inl e))
          | inr m ↦ elim m [ inl e ↦ inl e | inr k ↦ inr (rest.1 (inr k)) ]
        ],
      )
    ]

list-Among : (y : Schedule) (rows : List Schedule) → Among y (list rows) ↔ Among y rows
unfolding list
list-Among y [] = ((λ h. h), λ h. h)
list-Among y (x ∷ rows) =
    let one = insert_created-Among y x (list rows) in
    let rest = list-Among y rows in
    (
      (λ h. elim (one.0 h) [ inl e ↦ inl e | inr m ↦ inr (rest.0 m) ]),
      λ h. one.1 (elim h [ inl e ↦ inl e | inr m ↦ inr (rest.1 m) ]),
    )

keep-All :
    (P : Schedule → Type 0) (p : Schedule → Bool) (rows : List Schedule)
    → All P rows
    → All P (keep p rows)
keep-All P p [] h = tt
keep-All P p (r ∷ rows) h = elim (Bool-cases (p r)) [
  | inl holds ↦ rw holds (h.0, keep-All P p rows h.1)
  | inr out ↦ rw out (keep-All P p rows h.1)
]

keep-InOrder : (p : Schedule → Bool) (rows : List Schedule) → InOrder rows → InOrder (keep p rows)
keep-InOrder p [] h = tt
keep-InOrder p (r ∷ rows) h = elim (Bool-cases (p r)) [
  | inl holds ↦
      rw holds (keep-All (λ y. r.created_at ≤ y.created_at) p rows h.0, keep-InOrder p rows h.1)
  | inr out ↦ rw out (keep-InOrder p rows h.1)
]

keep-DistinctIds :
    (p : Schedule → Bool) (rows : List Schedule) → DistinctIds rows → DistinctIds (keep p rows)
keep-DistinctIds p [] h = tt
keep-DistinctIds p (r ∷ rows) h = elim (Bool-cases (p r)) [
  | inl holds ↦
      rw holds (keep-All (λ y. str_eq r.id y.id ≡ false) p rows h.0, keep-DistinctIds p rows h.1)
  | inr out ↦ rw out (keep-DistinctIds p rows h.1)
]

keep-Among :
    (y : Schedule) (p : Schedule → Bool) (rows : List Schedule)
    → Among y (keep p rows) ↔ (Among y rows × (p y ≡ true))
keep-Among y p [] = ((λ h. absurd h), λ h. h.0)
keep-Among y p (r ∷ rows) =
    let rest = keep-Among y p rows in
    elim (Bool-cases (p r)) [
      | inl holds ↦ rw holds (
        (λ h. elim h [
          | inl e ↦ (inl e, ap p e ∙ holds)
          | inr m ↦ (inr (rest.0 m).0, (rest.0 m).1)
        ]),
        λ h. elim h.0 [ inl e ↦ inl e | inr m ↦ inr (rest.1 (m, h.1)) ],
      )
      | inr out ↦ rw out (
        (λ h. (inr (rest.0 h).0, (rest.0 h).1)),
        λ h. elim h.0 [ inl e ↦ cc (ap p e) | inr m ↦ rest.1 (m, h.1) ],
      )
    ]

fires-IsDue :
    (s : Scheduler) (x : Schedule) (now : ℕ)
    → (fires s x now ≡ true) ↔ (IsDue x now × (in_flight x.id s.running ≡ false))
unfolding fires is_due
fires-IsDue s x now = elim (Option-cases x.next_run_at) [
  | inl never ↦ rw never ((λ h. ground arith), λ h. ground arith)
  | inr (n, e) ↦ (
    (λ h.
        let h' = rw e at h in
        let come : n * 1000000 ≤ now = ground arith in
        let on : x.enabled ≡ true = ground arith in
        let free : in_flight x.id s.running ≡ false = ground arith in ((on, (n, (e, come))), free)),
    λ h. let on = h.0.0 in let come = h.0.1.1.1 in let free = h.1 in rw h.0.1.1.0 (ground arith),
  )
]

module _ (new_session : ℕ → String) where
  -- One check of the clock starts a run of each schedule that is enabled, whose next run has come, and that
  -- has none in flight, of no other and of each once, in the order of their creation, and ends none, if the
  -- stored ids are distinct.
  pub ids-tick :
      (s : Scheduler) (now : ℕ)
      → DistinctIds (list s.schedules)
      → (fired : List Schedule) × ((ids (tick new_session s now).running
            ≡ ids s.running ++ map (λ x. x.id) fired)
          × (InOrder fired
              × (DistinctIds fired
                  × ((x : Schedule)
                      → Among x fired ↔ (
                          Among x s.schedules
                          × (IsDue x now × (in_flight x.id s.running ≡ false)))))))
  ids-tick s now d =
      let rows = list s.schedules in
      let due : Schedule → Bool = λ x. fires s x now in
      (
        to_fire s now rows,
        (
          fired_in_order new_session s now d,
          (
            keep-InOrder due rows (list-InOrder s.schedules),
            (
              keep-DistinctIds due rows d,
              λ x.
                  let kept = keep-Among x due rows in
                  let stored = list-Among x s.schedules in
                  let fire = fires-IsDue s x now in
                  (
                    (λ h. (stored.0 (kept.0 h).0, fire.0 (kept.0 h).1)),
                    λ h. kept.1 (stored.1 h.0, fire.1 h.1),
                  ),
            ),
          ),
        ),
      )

get-update :
    (rows : List Schedule) (id : String) (f : Schedule → Schedule) (x : Schedule)
    → ((r : Schedule) → (f r).id ≡ r.id)
    → get rows id ≡ some x
    → get (update rows id f) id ≡ some (f x)
unfolding get update
get-update [] id f x keeps h = cc
get-update (r ∷ rows) id f x keeps h = elim (Bool-cases (has_id id r)) [
  | inl same ↦
      let kept : has_id id (f r) ≡ true = ap (λ i. str_eq i id) (keeps r) ∙ same in
      let h' = rw same at h in let e : r ≡ x = cc in rw same (rw kept (ap (λ y. some (f y)) e))
  | inr other ↦ rw (other, other) (get-update rows id f x keeps (rw other at h))
]

whole_second : (t n : ℕ) → t % 86400000000 ≡ n * 60000000 → t / 1000000 * 1000000 ≡ t
whole_second t n h = omega arith

module _ (decimal : ℕ → Option ℕ) (digits : (x d : ℕ) → decimal x ≡ some d → d < 10) where
  -- The next run is still ahead when it is cut to its second.
  later :
      (c : Cadence) (valid : IsValid decimal c) (after t : ℕ)
      → IsEarliest (Names valid after) after t
      → after < t / 1000000 * 1000000
  later c (is_interval n h e) after t (lt, at, least) = omega arith
  later c (is_daily s (h, m) e c_eq) after t (lt, at, least) =
      omega (arith, whole_second t (h * 60 + m) at)
  later c (is_weekly s (h, m) w e hw c_eq) after t (lt, at, least) =
      omega (arith, whole_second t (h * 60 + m) at.0)

  get-execute_end :
      (s : Scheduler) (x current : Schedule) (session text : String) (error : Option String)
      (finished t : ℕ)
      → get s.schedules x.id ≡ some current
      → compute_next_run decimal current.cadence finished ≡ some t
      → get (execute_end decimal s x session text error finished).schedules x.id
        ≡ some (recorded session error finished t current)
  unfolding execute_end record_current record_next
  get-execute_end s x current session text error finished t there next =
      rw (there, next)
        (get-update s.schedules x.id (recorded session error finished t) current (λ r. refl) there)

  -- A run that ended is recorded in the row of its schedule as that is now, if it is still there, which
  -- keeps the rest of the row, and the schedule is then not due before its next run, after the end of this one.
  execute_end_reschedules :
      (s : Scheduler) (x current : Schedule) (session text : String) (error : Option String)
      (finished : ℕ)
      → get s.schedules x.id ≡ some current
      → IsValid decimal current.cadence
      → finished + reach current.cadence < limit
      → (row : Schedule) × (get (execute_end decimal s x session text error finished).schedules x.id
          ≡ some row)
        × ((row.cadence ≡ current.cadence)
            × (row.enabled ≡ current.enabled)
            × (row.last_run_at ≡ some (iso_utc finished))
            × (row.last_session_id ≡ some session)
            × (row.last_error ≡ error))
        × (is_due row finished ≡ false)
  unfolding is_due recorded
  execute_end_reschedules s x current session text error finished there valid room =
      let (t, next) = valid-Runs decimal digits current.cadence finished valid room in
      let ahead =
        later current.cadence valid finished t
          (next_run-IsEarliest decimal digits current.cadence valid finished t next) in
      (
        recorded session error finished t current,
        get-execute_end s x current session text error finished t there next,
        (refl, refl, refl, refl, refl),
        ground arith,
      )
