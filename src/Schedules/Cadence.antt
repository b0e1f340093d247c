-- ===== src/Schedules/Cadence.antt =====
-- Cadence validation and next-run arithmetic (src/suiban/schedules/store.py). A moment is the server's
-- wall clock in microseconds since 0001-01-01, a Monday. `decimal` gives the digit that a character is
-- to Python, which has more digits than the ASCII ones.
use Prim.Native.Char.{code}
use suiban.Prelude.{
  ℕ, ◌+◌, ◌-◌, ◌*◌, ◌/◌, ◌%◌, Bool, true, false, ◌&&◌, ◌||◌, not, Option, none, some, List, [], ◌∷◌,
  String, ltb, leb, ◌==◌, keep, if◌then◌else◌,
}
use suiban.Prelude.Int.{pos}
use suiban.Json.{Value, null, int, str, obj, Members, no_member, member, lookup, keys}
use text.Mathlib.Text.{◌==◌ as str_eq}

pub data Kind : Type 0 where
  daily weekly interval : Kind

pub record Cadence : Type 0 where
  pub kind : Kind
  pub time : Option String
  pub weekday : Option ℕ
  pub every_minutes : Option ℕ

-- Why a cadence is refused; each is the one error code `cadence_invalid`.
pub data Reason : Type 0 where
  not_object : Reason
  unknown_fields : List String → Reason
  unknown_kind bad_time bad_interval missing_time bad_weekday : Reason

pub data Parsed : Type 0 where
  ok : Cadence → Parsed
  bad : Reason → Parsed

abbrev pub codes : String → List ℕ
codes String.[] = []
codes (String.◌∷◌ c s) = code c ∷ codes s

unfoldable pub kind_of : Option Value → Option Kind
kind_of (some (str s)) =
    if str_eq s "daily"
    then some daily
    else if str_eq s "weekly"
    then some weekly
    else if str_eq s "interval"
    then some interval
    else none
kind_of _ = none

-- `raw.get("time")`: absent or null, a text that matches, or something else.
pub data Time : Type 0 where
  no_time invalid_time : Time
  at_time : String → Time

unfoldable pub interval_cadence : Option Value → Parsed
interval_cadence (some (int (pos n))) =
    if ltb n 5
    then bad bad_interval
    else ok (record { kind = interval; time = none; weekday = none; every_minutes = some n })
interval_cadence _ = bad bad_interval

unfoldable pub weekly_cadence : String → Option Value → Parsed
weekly_cadence time (some (int (pos n))) =
    if leb n 6
    then ok (record { kind = weekly; time = some time; weekday = some n; every_minutes = none })
    else bad bad_weekday
weekly_cadence time _ = bad bad_weekday

unfoldable pub timed_cadence : Kind → Time → Members → Parsed
unfolding interval_cadence weekly_cadence
timed_cadence kind invalid_time raw = bad bad_time
timed_cadence interval t raw = interval_cadence (lookup "every_minutes" raw)
timed_cadence daily no_time raw = bad missing_time
timed_cadence daily (at_time s) raw =
    ok (record { kind = daily; time = some s; weekday = none; every_minutes = none })
timed_cadence weekly no_time raw = bad missing_time
timed_cadence weekly (at_time s) raw = weekly_cadence s (lookup "weekday" raw)

abbrev is_known : String → Bool
is_known k = str_eq k "kind" || str_eq k "time" || str_eq k "weekday" || str_eq k "every_minutes"

abbrev pub day : ℕ
day = 86400000000

-- The first moment that no datetime holds: 10000-01-01. Arithmetic past it raises.
abbrev pub limit : ℕ
limit = 3652059 * 86400000000

unfoldable pub checked : ℕ → Option ℕ
checked t = if ltb t limit then some t else none

-- `after.replace(hour=hour, minute=minute, second=0, microsecond=0)`
unfoldable pub on_day_of : ℕ → ℕ × ℕ → ℕ
on_day_of after (h, m) = after / day * day + (h * 60 + m) * 60000000

unfoldable pub next_daily : ℕ → ℕ → ℕ
next_daily after candidate = if leb candidate after then candidate + day else candidate

-- `(weekday - after.weekday()) % 7` days on, and a week more where that is not after `after`.
unfoldable pub next_weekly : ℕ → ℕ → ℕ → ℕ
next_weekly after candidate weekday =
    let moved = candidate + (weekday + 7 - after / day % 7) % 7 * day in
    if leb moved after then moved + 7 * day else moved

unfoldable pub next_timed : ℕ → Kind → Option (ℕ × ℕ) → Option ℕ → Option ℕ
unfolding on_day_of next_daily next_weekly checked
next_timed after weekly (some at) (some w) = checked (next_weekly after (on_day_of after at) w)
next_timed after daily (some at) w = checked (next_daily after (on_day_of after at))
next_timed after _ _ _ = none

unfoldable pub next_interval : ℕ → Option ℕ → Option ℕ
unfolding checked
next_interval after none = none
next_interval after (some n) = checked (after + n * 60000000)

unfoldable pub with_tens : ℕ → Option ℕ → Option ℕ
with_tens tens none = none
with_tens tens (some d) = some (tens * 10 + d)

-- `$` stands before one last newline too.
abbrev pub at_end : List ℕ → Bool
at_end [] = true
at_end (c ∷ []) = c == 10
at_end (c ∷ d ∷ cs) = false

unfoldable pub both : Option ℕ → Option ℕ → Option (ℕ × ℕ)
both (some h) (some m) = some (h, m)
both _ _ = none

module _ (decimal : ℕ → Option ℕ) where
  -- `[01]\d|2[0-3]`
  unfoldable pub hour_of : ℕ → ℕ → Option ℕ
  unfolding with_tens
  hour_of a b =
      if a == b'0' || a == b'1'
      then with_tens (a - b'0') (decimal b)
      else if a == b'2' && (leb b'0' b && leb b b'3')
      then some (20 + (b - b'0'))
      else none

  -- `[0-5]\d`
  unfoldable pub minute_of : ℕ → ℕ → Option ℕ
  unfolding with_tens
  minute_of a b = if leb b'0' a && leb a b'5' then with_tens (a - b'0') (decimal b) else none

  unfoldable pub clock_codes : List ℕ → Option (ℕ × ℕ)
  unfolding both
  clock_codes (a ∷ b ∷ c ∷ d ∷ e ∷ cs) =
      if c == b':' && at_end cs then both (hour_of a b) (minute_of d e) else none
  clock_codes _ = none

  -- The hour and minute of a text that `_TIME_RE` matches.
  unfoldable pub clock : String → Option (ℕ × ℕ)
  unfolding clock_codes both
  clock s = clock_codes (codes s)

  unfoldable pub time_of : Option Value → Time
  time_of none = no_time
  time_of (some null) = no_time
  time_of (some (str s)) = elim (clock s) [ none ↦ invalid_time | some _ ↦ at_time s ]
  time_of (some v) = invalid_time

  unfoldable pub kinded_cadence : Option Kind → Members → Parsed
  unfolding timed_cadence time_of
  kinded_cadence none raw = bad unknown_kind
  kinded_cadence (some kind) raw = timed_cadence kind (time_of (lookup "time" raw)) raw

  unfoldable pub fields_cadence : List String → Members → Parsed
  unfolding kinded_cadence kind_of
  fields_cadence [] raw = kinded_cadence (kind_of (lookup "kind" raw)) raw
  fields_cadence (k ∷ ks) raw = bad (unknown_fields (k ∷ ks))

  unfoldable pub validate_cadence : Value → Parsed
  unfolding fields_cadence kinded_cadence kind_of
  validate_cadence (obj raw) = fields_cadence (keep (λ k. not (is_known k)) (keys raw)) raw
  validate_cadence _ = bad not_object

  unfoldable pub clock_of : Option String → Option (ℕ × ℕ)
  clock_of none = none
  clock_of (some s) = clock s

  unfoldable pub next_run : Kind → Cadence → ℕ → Option ℕ
  unfolding next_interval next_timed clock_of
  next_run interval c after = next_interval after c.every_minutes
  next_run kind c after = next_timed after kind (clock_of c.time) c.weekday

  -- `compute_next_run`; nothing where it raises.
  unfoldable pub compute_next_run : Cadence → ℕ → Option ℕ
  unfolding next_run next_interval next_timed clock_of checked
  compute_next_run c after = next_run c.kind c after

-- `as_dict`
unfoldable pub optional_field : String → Option Value → Members → Members
optional_field k none rest = rest
optional_field k (some v) rest = member k v rest

unfoldable pub kind_name : Kind → String
kind_name daily = "daily"
kind_name weekly = "weekly"
kind_name interval = "interval"

unfoldable pub as_dict : Cadence → Value
unfolding optional_field kind_name
as_dict c = obj (
    member "kind" (str (kind_name c.kind)) (
      optional_field "time" (elim c.time [ none ↦ none | some t ↦ some (str t) ])
        (optional_field "weekday" (elim c.weekday [ none ↦ none | some n ↦ some (int (pos n)) ])
          (optional_field "every_minutes"
            (elim c.every_minutes [ none ↦ none | some n ↦ some (int (pos n)) ]) no_member))))
