-- ===== src/Schedules/Earliest.antt =====
-- The next run is the earliest moment that the cadence names (src/suiban/schedules/store.py).
use suiban.Prelude.{
  ℕ, List, [], ◌∷◌, ◌&&◌, ◌==◌, Bool-cases, Option-cases, inl, inr, subst, ◌+◌, ◌*◌, ◌/◌, ◌%◌, ◌≤◌,
  ◌<◌, ◌≡◌, Option, none, some, String, arith,
}
use suiban.Schedules.Cadence.{
  daily, weekly, interval, Cadence, hour_of, minute_of, with_tens, both, clock_codes, at_end, codes,
  checked, clock, on_day_of, next_daily, next_weekly, compute_next_run,
}

-- Microseconds past midnight.
abbrev pub start : ℕ × ℕ → ℕ
start (h, m) = (h * 60 + m) * 60000000

abbrev pub IsEarliest : (ℕ → Type 0) → ℕ → ℕ → Type 0
IsEarliest P after t = (after < t) × P t × ((u : ℕ) → after < u → P u → t ≤ u)

abbrev pub IsDailyAt : ℕ × ℕ → ℕ → Type 0
IsDailyAt at t = t % 86400000000 ≡ start at

abbrev pub IsWeeklyAt : ℕ → ℕ × ℕ → ℕ → Type 0
IsWeeklyAt w at t = (t % 86400000000 ≡ start at) × (t / 86400000000 % 7 ≡ w)

next_daily-IsEarliest :
    (after : ℕ) (at : ℕ × ℕ)
    → start at < 86400000000
    → IsEarliest (IsDailyAt at) after (next_daily after (on_day_of after at))
unfolding next_daily on_day_of
next_daily-IsEarliest after (h, m) b = (ground arith, ground arith, λ u lt e. ground arith)

next_weekly-IsEarliest :
    (after w : ℕ) (at : ℕ × ℕ)
    → start at < 86400000000
    → w < 7
    → IsEarliest (IsWeeklyAt w at) after (next_weekly after (on_day_of after at) w)
unfolding next_weekly on_day_of
next_weekly-IsEarliest after w (h, m) b bw =
    (ground arith, (ground arith, ground arith), λ u lt e. ground arith)

-- A cadence that `validate_cadence` can return.
pub data IsValid (decimal : ℕ → Option ℕ) (c : Cadence) : Type 0 where
  is_interval :
      (n : ℕ)
      → 5 ≤ n
      → c ≡ record { kind = interval; time = none; weekday = none; every_minutes = some n }
      → IsValid decimal c
  is_daily :
      (s : String) (at : ℕ × ℕ)
      → clock decimal s ≡ some at
      → c ≡ record { kind = daily; time = some s; weekday = none; every_minutes = none }
      → IsValid decimal c
  is_weekly :
      (s : String) (at : ℕ × ℕ) (w : ℕ)
      → clock decimal s ≡ some at
      → w ≤ 6
      → c ≡ record { kind = weekly; time = some s; weekday = some w; every_minutes = none }
      → IsValid decimal c

-- The moments that a cadence names: after `after` by the interval, or at its time on its days.
abbrev pub Names : {decimal : ℕ → Option ℕ} {c : Cadence} → IsValid decimal c → ℕ → ℕ → Type 0
Names (is_interval n h e) after t = t ≡ after + n * 60000000
Names (is_daily s at h e) after t = IsDailyAt at t
Names (is_weekly s at w h hw e) after t = IsWeeklyAt w at t

checked_eq : (x t : ℕ) → checked x ≡ some t → x ≡ t
unfolding checked
checked_eq x t e = ground arith

module _ (decimal : ℕ → Option ℕ) (digits : (c d : ℕ) → decimal c ≡ some d → d < 10) where
  hour_bound : (a b h : ℕ) → hour_of decimal a b ≡ some h → h < 24
  unfolding hour_of with_tens
  hour_bound a b h e = elim (Option-cases (decimal b)) [
    | inl none_b ↦ ground (arith, none_b)
    | inr (d, some_b) ↦ ground (arith, some_b, digits b d some_b)
  ]

  minute_bound : (a b m : ℕ) → minute_of decimal a b ≡ some m → m < 60
  unfolding minute_of with_tens
  minute_bound a b m e = elim (Option-cases (decimal b)) [
    | inl none_b ↦ ground (arith, none_b)
    | inr (d, some_b) ↦ ground (arith, some_b, digits b d some_b)
  ]

  both_bound :
      (a b c d : ℕ) (at : ℕ × ℕ)
      → both (hour_of decimal a b) (minute_of decimal c d) ≡ some at
      → start at < 86400000000
  unfolding both
  both_bound a b c d (h, m) e = elim (Option-cases (hour_of decimal a b)) [
    | inl none_h ↦ ground (arith, none_h)
    | inr (h', some_h) ↦ elim (Option-cases (minute_of decimal c d)) [
      | inl none_m ↦ ground (arith, none_m)
      | inr (m', some_m) ↦ ground (arith, hour_bound a b h' some_h, minute_bound c d m' some_m)
    ]
  ]

  codes_bound :
      (cs : List ℕ) (at : ℕ × ℕ) → clock_codes decimal cs ≡ some at → start at < 86400000000
  unfolding clock_codes
  codes_bound (a ∷ b ∷ c ∷ d ∷ e ∷ cs) at h = elim (Bool-cases (c == b':' && at_end cs)) [
    | inl matched ↦ both_bound a b d e at (rw matched at h)
    | inr other ↦ ground (arith, other)
  ]
  codes_bound [] at h = cc
  codes_bound (a ∷ []) at h = cc
  codes_bound (a ∷ b ∷ []) at h = cc
  codes_bound (a ∷ b ∷ c ∷ []) at h = cc
  codes_bound (a ∷ b ∷ c ∷ d ∷ []) at h = cc

  pub clock_bounds : (s : String) (at : ℕ × ℕ) → clock decimal s ≡ some at → start at < 86400000000
  unfolding clock
  clock_bounds s at e = codes_bound (codes s) at e

  pub next_run-IsEarliest :
      (c : Cadence) (valid : IsValid decimal c) (after t : ℕ)
      → compute_next_run decimal c after ≡ some t
      → IsEarliest (Names valid after) after t
  unfolding compute_next_run
  next_run-IsEarliest c (is_interval n h e) after t r =
      let q = checked_eq _ t (subst (λ c. compute_next_run decimal c after ≡ some t) e r) in
      (omega arith, omega arith, λ u lt names. omega arith)
  next_run-IsEarliest c (is_daily s at h e) after t r =
      let q = subst (λ c. compute_next_run decimal c after ≡ some t) e r in
      subst (IsEarliest (IsDailyAt at) after) (checked_eq _ t (rw h at q))
        (next_daily-IsEarliest after at (clock_bounds s at h))
  next_run-IsEarliest c (is_weekly s at w h hw e) after t r =
      let q = subst (λ c. compute_next_run decimal c after ≡ some t) e r in
      subst (IsEarliest (IsWeeklyAt w at) after) (checked_eq _ t (rw h at q))
        (next_weekly-IsEarliest after w at (clock_bounds s at h) (omega arith))
