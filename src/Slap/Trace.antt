-- ===== src/Slap/Trace.antt =====
-- The bounded store of recorded message sequences (src/suiban/slap/trace.py). Its rows stand newest first,
-- so that the end of the OrderedDict is the head here. A deep copy is the value itself.
use suiban.Prelude.{ℕ, zero, suc, List, [], ◌∷◌, String, if◌then◌else◌}
use text.Mathlib.Text.{◌==◌ as str_eq}
use suiban.Json.{Value}

pub record SlapTraceStore : Type 0 where
  pub by_session : List (String × List Value)
  pub max_sessions : ℕ

abbrev pub new_store : ℕ → SlapTraceStore
new_store max_sessions = record { by_session = []; max_sessions = max_sessions }

-- `self._by_session.pop(session_id, None)`
unfoldable pub without : String → List (String × List Value) → List (String × List Value)
without id [] = []
without id ((s, ms) ∷ rows) =
    let rest = without id rows in if str_eq s id then rest else (s, ms) ∷ rest

-- What `popitem(last=False)` leaves once at most `n` sessions are there.
unfoldable pub newest : ℕ → List (String × List Value) → List (String × List Value)
newest zero rows = []
newest (suc n) [] = []
newest (suc n) (row ∷ rows) = row ∷ newest n rows

unfoldable pub record_trace : SlapTraceStore → String → List Value → SlapTraceStore
unfolding without newest
record_trace store id messages = record store {
  by_session = newest store.max_sessions ((id, messages) ∷ without id store.by_session);
}

unfoldable pub find_trace : String → List (String × List Value) → List Value
find_trace id [] = []
find_trace id ((s, ms) ∷ rows) = let rest = find_trace id rows in if str_eq s id then ms else rest

unfoldable pub get_trace : SlapTraceStore → String → List Value
unfolding find_trace
get_trace store id = find_trace id store.by_session

unfoldable pub reset : SlapTraceStore → SlapTraceStore
reset store = record store { by_session = [] }
