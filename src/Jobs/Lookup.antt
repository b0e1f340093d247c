-- ===== src/Jobs/Lookup.antt =====
-- What a change of the rows leaves of a look-up (src/suiban/research/jobs.py).
use suiban.Prelude.{
  ◌≡◌, refl, ap, subst, ◌∙◌, true, false, List, [], ◌∷◌, ◌++◌, some, String, arith, Bool-cases, inl,
  inr, if◌then◌else◌,
}
use text.Mathlib.Text.{◌==◌ as str_eq}
use text.Mathlib.TextEquality.{eq_iff}
use suiban.Jobs.Store.{queued, Job, has_id, update, get}
use suiban.Jobs.Rows.{QueuedOnly}

pub get-update_self :
    (rows : List Job) (id : String) (f : Job → Job) (j : Job)
    → ((r : Job) → (f r).id ≡ r.id)
    → get rows id ≡ some j
    → get (update rows id f) id ≡ some (f j)
unfolding get update
get-update_self [] id f j keeps h = cc
get-update_self (r ∷ rows) id f j keeps h = elim (Bool-cases (has_id id r)) [
  | inl same ↦
      let kept : has_id id (f r) ≡ true = ap (λ i. str_eq i id) (keeps r) ∙ same in
      let h' = rw same at h in let e : r ≡ j = cc in rw same (rw kept (ap (λ y. some (f y)) e))
  | inr other ↦ rw (other, other) (get-update_self rows id f j keeps (rw other at h))
]

pub get-update_other :
    (rows : List Job) (id other : String) (f : Job → Job)
    → ((r : Job) → (f r).id ≡ r.id)
    → str_eq other id ≡ false
    → get (update rows other f) id ≡ get rows id
unfolding get update
get-update_other [] id other f keeps apart = refl
get-update_other (r ∷ rows) id other f keeps apart = elim (Bool-cases (has_id other r)) [
  | inl same ↦
      let far : has_id id r ≡ false =
        ground (arith, same, eq_iff r.id other, eq_iff r.id id, eq_iff other id) in
      let far' : has_id id (f r) ≡ false = ap (λ i. str_eq i id) (keeps r) ∙ far in
      rw (same, far) (rw far' (get-update_other rows id other f keeps apart))
  | inr differs ↦
      rw differs
        (ap (λ o. if has_id id r then some r else o) (get-update_other rows id other f keeps apart))
]

pub get-append :
    (rows more : List Job) (id : String) (j : Job)
    → get rows id ≡ some j
    → get (rows ++ more) id ≡ some j
unfolding get
get-append [] more id j h = cc
get-append (r ∷ rows) more id j h = elim (Bool-cases (has_id id r)) [
  | inl same ↦ rw same (rw same at h)
  | inr other ↦ rw other (get-append rows more id j (rw other at h))
]

pub state-get-QueuedOnly :
    (id : String) (rows : List Job) (j : Job)
    → QueuedOnly id rows
    → get rows id ≡ some j
    → j.state ≡ queued
unfolding get
state-get-QueuedOnly id [] j q h = cc
state-get-QueuedOnly id (r ∷ rows) j q h = elim (Bool-cases (has_id id r)) [
  | inl same ↦
      let h' = rw same at h in let e : r ≡ j = cc in subst (λ x. x.state ≡ queued) e (q.0 same)
  | inr other ↦ state-get-QueuedOnly id rows j q.1 (rw other at h)
]
