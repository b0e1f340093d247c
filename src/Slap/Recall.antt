-- ===== src/Slap/Recall.antt =====
-- What the trace store remembers (src/suiban/slap/trace.py).
use suiban.Prelude.{
  ℕ, zero, suc, ◌≡◌, refl, ap, sym, subst, str_eq_sym, ◌∙◌, true, false, List, [], ◌∷◌, String, any,
  All, if◌then◌else◌, Bool-cases, inl, inr,
}
use text.Mathlib.Text.{◌==◌ as str_eq}
use text.Mathlib.TextEquality.{eq_iff}
use suiban.Json.{Value}
use suiban.Slap.Trace.{
  SlapTraceStore, new_store, without, newest, record_trace, find_trace, get_trace,
}

-- The store after a history of records, the latest of which is the head.
unfoldable pub replay : ℕ → List (String × List Value) → SlapTraceStore
replay n [] = new_store n
replay n ((s, ms) ∷ history) = record_trace (replay n history) s ms

-- The messages last recorded for a session, if fewer than `n` sessions that are neither it nor in `seen`
-- were recorded since.
unfoldable pub recent : List String → ℕ → String → List (String × List Value) → List Value
recent seen zero id history = []
recent seen (suc n) id [] = []
recent seen (suc n) id ((s, ms) ∷ history) =
    let again = recent seen (suc n) id history in
    let other = recent (s ∷ seen) n id history in
    if str_eq s id then ms else if any (λ t. str_eq s t) seen then again else other

unfoldable deduped_history : List (String × List Value) → List (String × List Value)
deduped_history [] = []
deduped_history ((s, ms) ∷ history) = (s, ms) ∷ without s (deduped_history history)

abbrev IsAbsent : String → List (String × List Value) → Type 0
IsAbsent id rows = All (λ r. str_eq r.0 id ≡ false) rows

abbrev IsDistinct : List (String × List Value) → Type 0
IsDistinct [] = Unit
IsDistinct ((s, ms) ∷ rows) = IsAbsent s rows × IsDistinct rows

without-IsAbsent : (id : String) (rows : List (String × List Value)) → IsAbsent id (without id rows)
unfolding without
without-IsAbsent id [] = tt
without-IsAbsent id ((s, ms) ∷ rows) = elim (Bool-cases (str_eq s id)) [
  | inl same ↦ rw same (without-IsAbsent id rows)
  | inr other ↦ rw other (other, without-IsAbsent id rows)
]

keeps_IsAbsent :
    (id k : String) (rows : List (String × List Value))
    → IsAbsent id rows
    → IsAbsent id (without k rows)
unfolding without
keeps_IsAbsent id k [] h = tt
keeps_IsAbsent id k ((s, ms) ∷ rows) h = elim (Bool-cases (str_eq s k)) [
  | inl same ↦ rw same (keeps_IsAbsent id k rows h.1)
  | inr other ↦ rw other (h.0, keeps_IsAbsent id k rows h.1)
]

keeps_IsDistinct :
    (k : String) (rows : List (String × List Value)) → IsDistinct rows → IsDistinct (without k rows)
unfolding without
keeps_IsDistinct k [] h = tt
keeps_IsDistinct k ((s, ms) ∷ rows) h = elim (Bool-cases (str_eq s k)) [
  | inl same ↦ rw same (keeps_IsDistinct k rows h.1)
  | inr other ↦ rw other (keeps_IsAbsent s k rows h.0, keeps_IsDistinct k rows h.1)
]

deduped_history-IsDistinct :
    (history : List (String × List Value)) → IsDistinct (deduped_history history)
unfolding deduped_history
deduped_history-IsDistinct [] = tt
deduped_history-IsDistinct ((s, ms) ∷ history) = (
  without-IsAbsent s (deduped_history history),
  keeps_IsDistinct s (deduped_history history) (deduped_history-IsDistinct history),
)

without-absent :
    (id : String) (rows : List (String × List Value)) → IsAbsent id rows → without id rows ≡ rows
unfolding without
without-absent id [] h = refl
without-absent id ((s, ms) ∷ rows) h = rw h.0 (ap (λ r. (s, ms) ∷ r) (without-absent id rows h.1))

newest-IsAbsent :
    (n : ℕ) (id : String) (rows : List (String × List Value))
    → IsAbsent id rows
    → IsAbsent id (newest n rows)
unfolding newest
newest-IsAbsent zero id rows h = tt
newest-IsAbsent (suc n) id [] h = tt
newest-IsAbsent (suc n) id (row ∷ rows) h = (h.0, newest-IsAbsent n id rows h.1)

newest-newest :
    (n : ℕ) (rows : List (String × List Value)) → newest n (newest n rows) ≡ newest n rows
unfolding newest
newest-newest zero rows = refl
newest-newest (suc n) [] = refl
newest-newest (suc n) (row ∷ rows) = ap (λ r. row ∷ r) (newest-newest n rows)

IsAbsent-same :
    (s id : String) (rows : List (String × List Value))
    → str_eq s id ≡ true
    → IsAbsent s rows
    → IsAbsent id rows
IsAbsent-same s id rows same h = subst (λ t. IsAbsent t rows) ((eq_iff s id).0 same) h

newest-without :
    (n : ℕ) (id : String) (rows : List (String × List Value))
    → IsDistinct rows
    → newest n (without id (newest (suc n) rows)) ≡ newest n (without id rows)
unfolding newest without
newest-without zero id rows h = refl
newest-without (suc n) id [] h = refl
newest-without (suc n) id ((s, ms) ∷ rows) h = elim (Bool-cases (str_eq s id)) [
  | inl same ↦
      let gone = IsAbsent-same s id rows same h.0 in
      rw same (
        ap (newest (suc n))
          (without-absent id (newest (suc n) rows) (newest-IsAbsent (suc n) id rows gone))
        ∙ newest-newest (suc n) rows
        ∙ ap (newest (suc n)) (sym (without-absent id rows gone)))
  | inr other ↦ rw other (ap (λ r. (s, ms) ∷ r) (newest-without n id rows h.1))
]

omit : List String → List (String × List Value) → List (String × List Value)
omit seen [] = []
omit seen ((s, ms) ∷ rows) =
    let rest = omit seen rows in if any (λ t. str_eq s t) seen then rest else (s, ms) ∷ rest

omit-none : (rows : List (String × List Value)) → omit [] rows ≡ rows
unfolding omit
omit-none [] = refl
omit-none ((s, ms) ∷ rows) = ap (λ r. (s, ms) ∷ r) (omit-none rows)

omit-without-seen :
    (seen : List String) (s : String) (rows : List (String × List Value))
    → any (λ t. str_eq s t) seen ≡ true
    → omit seen (without s rows) ≡ omit seen rows
unfolding omit without
omit-without-seen seen s [] h = refl
omit-without-seen seen s ((k, ms) ∷ rows) h = elim (Bool-cases (str_eq k s)) [
  | inl same ↦
      let named : any (λ t. str_eq k t) seen ≡ true =
        subst (λ j. any (λ t. str_eq j t) seen ≡ true) (sym ((eq_iff k s).0 same)) h in
      rw (same, named) (omit-without-seen seen s rows h)
  | inr other ↦ rw (other, omit-without-seen seen s rows h) refl
]

omit-without :
    (seen : List String) (s : String) (rows : List (String × List Value))
    → omit seen (without s rows) ≡ omit (s ∷ seen) rows
unfolding omit without
omit-without seen s [] = refl
omit-without seen s ((k, ms) ∷ rows) = elim (Bool-cases (str_eq k s)) [
  | inl same ↦ rw same (omit-without seen s rows)
  | inr other ↦ rw (other, omit-without seen s rows) refl
]

-- A name that is in a list is no name that is not.
unnamed :
    (s id : String) (seen : List String)
    → any (λ t. str_eq s t) seen ≡ true
    → any (λ t. str_eq id t) seen ≡ false
    → str_eq s id ≡ false
unnamed s id seen h g = elim (Bool-cases (str_eq s id)) [
  | inl same ↦
      let moved : any (λ t. str_eq id t) seen ≡ true =
        subst (λ j. any (λ t. str_eq j t) seen ≡ true) ((eq_iff s id).0 same) h in
      cc
  | inr other ↦ other
]

find-recent :
    (seen : List String) (n : ℕ) (id : String) (history : List (String × List Value))
    → any (λ t. str_eq id t) seen ≡ false
    → find_trace id (newest n (omit seen (deduped_history history))) ≡ recent seen n id history
unfolding find_trace newest omit deduped_history recent
find-recent seen zero id history h = refl
find-recent seen (suc n) id [] h = refl
find-recent seen (suc n) id ((s, ms) ∷ history) h = elim (Bool-cases (any (λ t. str_eq s t) seen)) [
  | inl old ↦
      let rest = find-recent seen (suc n) id history h in
      rw (old, unnamed s id seen old h, omit-without-seen seen s (deduped_history history) old) rest
  | inr new ↦ elim (Bool-cases (str_eq s id)) [
    | inl same ↦ rw (new, same) refl
    | inr other ↦
        let stays : any (λ t. str_eq id t) (s ∷ seen) ≡ false = rw (str_eq_sym id s, other) h in
        rw (new, other, omit-without seen s (deduped_history history))
          (find-recent (s ∷ seen) n id history stays)
  ]
]

replay-max_sessions :
    (n : ℕ) (history : List (String × List Value)) → (replay n history).max_sessions ≡ n
unfolding replay record_trace
replay-max_sessions n [] = refl
replay-max_sessions n ((s, ms) ∷ history) = replay-max_sessions n history

newest-row :
    (n : ℕ) (s : String) (ms : List Value) (history : List (String × List Value))
    → newest n ((s, ms) ∷ without s (newest n (deduped_history history)))
      ≡ newest n ((s, ms) ∷ without s (deduped_history history))
unfolding newest
newest-row zero s ms history = refl
newest-row (suc n) s ms history =
    ap (λ r. (s, ms) ∷ r)
      (newest-without n s (deduped_history history) (deduped_history-IsDistinct history))

by_session-replay :
    (n : ℕ) (history : List (String × List Value))
    → (replay n history).by_session ≡ newest n (deduped_history history)
unfolding replay record_trace deduped_history
by_session-replay zero [] = refl
by_session-replay (suc n) [] = refl
by_session-replay n ((s, ms) ∷ history) =
    rw (replay-max_sessions n history, by_session-replay n history) (newest-row n s ms history)

-- After any records, a session's trace is the messages last recorded for it, if fewer than the store's
-- maximum of other sessions were recorded since, and none otherwise.
pub get_trace-recent :
    (n : ℕ) (history : List (String × List Value)) (id : String)
    → get_trace (replay n history) id ≡ recent [] n id history
unfolding get_trace
get_trace-recent n history id = rw (by_session-replay n history) (
    ap (λ r. find_trace id (newest n r)) (sym (omit-none (deduped_history history)))
    ∙ find-recent [] n id history refl)
