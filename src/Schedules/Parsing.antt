-- ===== src/Schedules/Parsing.antt =====
-- What cadence validation accepts (src/suiban/schedules/store.py), and that it accepts its own output.
use suiban.Prelude.{
  ℕ, ◌+◌, ◌*◌, ◌≤◌, ◌<◌, ◌≡◌, refl, List, [], ◌∷◌, Option, none, some, String, arith, ltb, leb,
  Option-cases, Bool-cases, inl, inr, subst, sym,
}
use suiban.Prelude.Int.{pos}
use suiban.Json.{Value, null, int, str, obj, Members, lookup}
use suiban.Schedules.Cadence.{
  Kind, daily, weekly, interval, Cadence, ok, Time, no_time, invalid_time, at_time, clock, limit,
  on_day_of, next_daily, next_weekly, checked, compute_next_run, time_of, interval_cadence,
  weekly_cadence, timed_cadence, kinded_cadence, fields_cadence, validate_cadence, as_dict,
}
use suiban.Schedules.Earliest.{
  IsValid, is_interval, is_daily, is_weekly, Names, IsEarliest, start, next_run-IsEarliest,
  clock_bounds,
}

-- How far ahead a cadence may reach.
abbrev pub reach : Cadence → ℕ
reach c = elim c.every_minutes [ none ↦ 7 * 86400000000 | some n ↦ n * 60000000 ]

module _ (decimal : ℕ → Option ℕ) where
  interval-IsValid :
      (v : Option Value) (c : Cadence) → interval_cadence v ≡ ok c → IsValid decimal c
  unfolding interval_cadence
  interval-IsValid none c e = cc
  interval-IsValid (some (int (pos n))) c e = elim (Bool-cases (ltb n 5)) [
    | inl less ↦ ground (arith, less)
    | inr enough ↦ is_interval n (ground arith) (ground (arith, enough))
  ]
  interval-IsValid (some null) c e = cc
  interval-IsValid (some _) c e = cc

  weekly-IsValid :
      (s : String) (at : ℕ × ℕ) (v : Option Value) (c : Cadence)
      → clock decimal s ≡ some at
      → weekly_cadence s v ≡ ok c
      → IsValid decimal c
  unfolding weekly_cadence
  weekly-IsValid s at none c h e = cc
  weekly-IsValid s at (some (int (pos n))) c h e = elim (Bool-cases (leb n 6)) [
    | inl within ↦ is_weekly s at n h (ground arith) (ground (arith, within))
    | inr beyond ↦ ground (arith, beyond)
  ]
  weekly-IsValid s at (some _) c h e = cc

  time_of_lem :
      (v : Option Value) (s : String)
      → time_of decimal v ≡ at_time s
      → (at : ℕ × ℕ) × (clock decimal s ≡ some at)
  unfolding time_of
  time_of_lem none s e = cc
  time_of_lem (some null) s e = cc
  time_of_lem (some (str u)) s e = elim (Option-cases (clock decimal u)) [
    | inl missing ↦ ground (arith, missing)
    | inr (at, found) ↦ (at, ground (arith, found))
  ]
  time_of_lem (some _) s e = cc

  timed-IsValid :
      (kind : Kind) (t : Time) (raw : Members) (c : Cadence)
      → ((s : String) → t ≡ at_time s → (at : ℕ × ℕ) × (clock decimal s ≡ some at))
      → timed_cadence kind t raw ≡ ok c
      → IsValid decimal c
  unfolding timed_cadence
  timed-IsValid kind invalid_time raw c h e = cc
  timed-IsValid interval no_time raw c h e = interval-IsValid (lookup "every_minutes" raw) c e
  timed-IsValid interval (at_time s) raw c h e = interval-IsValid (lookup "every_minutes" raw) c e
  timed-IsValid daily no_time raw c h e = cc
  timed-IsValid daily (at_time s) raw c h e =
      let found = h s refl in is_daily s found.0 found.1 (cc)
  timed-IsValid weekly no_time raw c h e = cc
  timed-IsValid weekly (at_time s) raw c h e =
      let found = h s refl in weekly-IsValid s found.0 (lookup "weekday" raw) c found.1 e

  kinded-IsValid :
      (kind : Option Kind) (raw : Members) (c : Cadence)
      → kinded_cadence decimal kind raw ≡ ok c
      → IsValid decimal c
  unfolding kinded_cadence
  kinded-IsValid none raw c e = cc
  kinded-IsValid (some kind) raw c e =
      timed-IsValid kind _ raw c (time_of_lem (lookup "time" raw)) e

  fields-IsValid :
      (unknown : List String) (raw : Members) (c : Cadence)
      → fields_cadence decimal unknown raw ≡ ok c
      → IsValid decimal c
  unfolding fields_cadence
  fields-IsValid [] raw c e = kinded-IsValid _ raw c e
  fields-IsValid (k ∷ ks) raw c e = cc

  validate-IsValid :
      (raw : Value) (c : Cadence) → validate_cadence decimal raw ≡ ok c → IsValid decimal c
  unfolding validate_cadence
  validate-IsValid (obj raw) c e = fields-IsValid _ raw c e
  validate-IsValid _ c e = cc

  validate-as_dict_of :
      (c : Cadence) → IsValid decimal c → validate_cadence decimal (as_dict c) ≡ ok c
  unfolding validate_cadence as_dict time_of timed_cadence interval_cadence weekly_cadence
  validate-as_dict_of c (is_interval n h e) =
      subst (λ c. validate_cadence decimal (as_dict c) ≡ ok c) (sym e) (ground arith)
  validate-as_dict_of c (is_daily s at h e) =
      subst (λ c. validate_cadence decimal (as_dict c) ≡ ok c) (sym e) (ground (arith, h))
  validate-as_dict_of c (is_weekly s at w h hw e) =
      subst (λ c. validate_cadence decimal (as_dict c) ≡ ok c) (sym e) (ground (arith, h))

checked_of_lt : (t : ℕ) → t < limit → checked t ≡ some t
unfolding checked
checked_of_lt t h = ground arith

next_daily-le :
    (after : ℕ) (at : ℕ × ℕ)
    → start at < 86400000000
    → next_daily after (on_day_of after at) ≤ after + 86400000000
unfolding next_daily on_day_of
next_daily-le after (h, m) b = ground arith

next_weekly-le :
    (after w : ℕ) (at : ℕ × ℕ)
    → start at < 86400000000
    → next_weekly after (on_day_of after at) w ≤ after + 7 * 86400000000
unfolding next_weekly on_day_of
next_weekly-le after w (h, m) b = ground arith

module _ (decimal : ℕ → Option ℕ) (digits : (x d : ℕ) → decimal x ≡ some d → d < 10) where
  abbrev pub Runs : Cadence → ℕ → Type 0
  Runs c after = (t : ℕ) × (compute_next_run decimal c after ≡ some t)

  pub valid-Runs :
      (c : Cadence) (after : ℕ) → IsValid decimal c → after + reach c < limit → Runs c after
  unfolding compute_next_run
  valid-Runs c after (is_interval n h e) room =
      subst (λ c. Runs c after) (sym e)
        (after + n * 60000000, checked_of_lt _ (subst (λ c. after + reach c < limit) e room))
  valid-Runs c after (is_daily s at h e) room =
      let bound = next_daily-le after at (clock_bounds decimal digits s at h) in
      let room' = subst (λ c. after + reach c < limit) e room in
      subst (λ c. Runs c after) (sym e)
        (next_daily after (on_day_of after at), rw h (checked_of_lt _ (omega arith)))
  valid-Runs c after (is_weekly s at w h hw e) room =
      let bound = next_weekly-le after w at (clock_bounds decimal digits s at h) in
      let room' = subst (λ c. after + reach c < limit) e room in
      subst (λ c. Runs c after) (sym e)
        (next_weekly after (on_day_of after at) w, rw h (checked_of_lt _ (omega arith)))

  -- A cadence that `validate_cadence` returns has a next run after every moment, until the reach of
  -- the cadence leads past year 9999, and it is the earliest moment after it that the cadence names: by
  -- the interval from it, or at its time of day, on its weekday where it is weekly. The hypothesis on
  -- `decimal` is that a digit is less than ten.
  pub validated_next_run :
      (raw : Value) (c : Cadence) (after : ℕ)
      → validate_cadence decimal raw ≡ ok c
      → after + reach c < limit
      → (valid : IsValid decimal c) × ((t : ℕ) × (compute_next_run decimal c after ≡ some t)
          × IsEarliest (Names valid after) after t)
  validated_next_run raw c after parsed room =
      let valid = validate-IsValid decimal raw c parsed in
      let next = valid-Runs c after valid room in
      (valid, (next.0, next.1, next_run-IsEarliest decimal digits c valid after next.0 next.1))

-- What a cadence is shown as, `as_dict`, is accepted again, and gives the same cadence.
pub validate-as_dict :
    (decimal : ℕ → Option ℕ) (raw : Value) (c : Cadence)
    → validate_cadence decimal raw ≡ ok c
    → validate_cadence decimal (as_dict c) ≡ ok c
validate-as_dict decimal raw c parsed =
    validate-as_dict_of decimal c (validate-IsValid decimal raw c parsed)
