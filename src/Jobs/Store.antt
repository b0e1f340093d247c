-- ===== src/Jobs/Store.antt =====
-- The `jobs` table (src/suiban/research/jobs.py), in the order of insertion. A timestamp is in whole
-- seconds, and each statement is one call under the store's lock.
use suiban.Prelude.{
  ℕ, Bool, true, false, Option, none, some, List, [], ◌∷◌, ◌++◌, String, any, keep, find_first,
  length, leb, take, if◌then◌else◌,
}
use text.Mathlib.Text.{◌==◌ as str_eq}

pub data State : Type 0 where
  queued running completed failed cancelled : State

abbrev pub is_active : State → Bool
is_active queued = true
is_active running = true
is_active _ = false

-- `terminal`: each state is active or terminal.
abbrev pub is_terminal : State → Bool
is_terminal queued = false
is_terminal running = false
is_terminal _ = true

pub record Job : Type 0 where
  pub id : String
  pub query : String
  pub effort : String
  pub state : State
  pub stage : Option String
  pub percent : ℕ
  pub created_at : ℕ
  pub started_at : Option ℕ
  pub finished_at : Option ℕ
  pub error : Option String

abbrev pub has_id : String → Job → Bool
has_id id j = str_eq j.id id

-- `INSERT`; nothing where the primary key is taken, which raises.
unfoldable pub add : List Job → Job → Option (List Job)
add rows j = if any (has_id j.id) rows then none else some (rows ++ j ∷ [])

unfoldable pub get : List Job → String → Option Job
get rows id = find_first (has_id id) rows

-- `UPDATE ... WHERE id = ?`
unfoldable pub update : List Job → String → (Job → Job) → List Job
update [] id change = []
update (j ∷ rows) id change = (if has_id id j then change j else j) ∷ update rows id change

unfoldable pub insert_newest : Job → List Job → List Job
insert_newest j [] = j ∷ []
insert_newest j (r ∷ rows) =
    let rest = insert_newest j rows in
    if leb r.created_at j.created_at
    then (if leb j.created_at r.created_at then r ∷ rest else j ∷ r ∷ rows)
    else r ∷ rest

unfoldable pub newest_first : List Job → List Job
unfolding insert_newest
newest_first [] = []
newest_first (j ∷ rows) = insert_newest j (newest_first rows)

-- `ORDER BY created_at DESC, rowid DESC LIMIT ?`
unfoldable pub list : List Job → ℕ → List Job
unfolding newest_first insert_newest
list rows limit = take limit (newest_first rows)

unfoldable pub active_count : List Job → ℕ
active_count rows = length (keep (λ j. is_active j.state) rows)

unfoldable pub fail_orphan : String → ℕ → Job → Job
fail_orphan reason now j = record j { state = failed; error = some reason; finished_at = some now }

-- The rows after `fail_orphans`; its count is `active_count` before.
unfoldable pub fail_orphans : List Job → String → ℕ → List Job
unfolding fail_orphan
fail_orphans [] reason now = []
fail_orphans (j ∷ rows) reason now =
    (if is_active j.state then fail_orphan reason now j else j) ∷ fail_orphans rows reason now
