-- ===== src/Schedules/Store.antt =====
-- The stored schedules (src/suiban/schedules/store.py): the rows of the table, in the order of their
-- insertion. A timestamp is in whole seconds; the zone's offset is taken to be constant.
use suiban.Prelude.{
  ℕ, ◌/◌, Bool, not, Option, none, some, List, [], ◌∷◌, ◌++◌, String, map, any, keep, find_first,
  leb, if◌then◌else◌,
}
use text.Mathlib.Text.{◌==◌ as str_eq}
use suiban.Schedules.Cadence.{Cadence}

pub record Schedule : Type 0 where
  pub id : String
  pub name : String
  pub prompt : String
  pub mode : String
  pub effort : String
  pub project_id : Option String
  pub cadence : Cadence
  pub enabled : Bool
  pub created_at : ℕ
  pub last_run_at : Option ℕ
  pub next_run_at : Option ℕ
  pub last_session_id : Option String
  pub last_error : Option String

-- `iso_utc`: a moment in microseconds, to its second.
abbrev pub iso_utc : ℕ → ℕ
iso_utc t = t / 1000000

abbrev pub has_id : String → Schedule → Bool
has_id id s = str_eq s.id id

-- `INSERT`; nothing where the primary key is taken, which raises.
unfoldable pub add : List Schedule → Schedule → Option (List Schedule)
add rows s = if any (has_id s.id) rows then none else some (rows ++ s ∷ [])

unfoldable pub get : List Schedule → String → Option Schedule
get rows id = find_first (has_id id) rows

unfoldable pub insert_created : Schedule → List Schedule → List Schedule
insert_created s [] = s ∷ []
insert_created s (r ∷ rows) =
    let rest = insert_created s rows in
    if leb s.created_at r.created_at then s ∷ r ∷ rows else r ∷ rest

-- `ORDER BY created_at ASC, rowid ASC`
unfoldable pub list : List Schedule → List Schedule
unfolding insert_created
list [] = []
list (s ∷ rows) = insert_created s (list rows)

-- `UPDATE ... WHERE id = ?`
unfoldable pub update : List Schedule → String → (Schedule → Schedule) → List Schedule
update rows id change = map (λ s. if has_id id s then change s else s) rows

unfoldable pub delete : List Schedule → String → List Schedule × Bool
delete rows id = (keep (λ s. not (has_id id s)) rows, any (has_id id) rows)

unfoldable pub with_cadence : Schedule → Cadence → Schedule
with_cadence s cadence = record s { cadence = cadence }
