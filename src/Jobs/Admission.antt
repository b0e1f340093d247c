-- ===== src/Jobs/Admission.antt =====
-- The invariant of one research job at a time, and that a submission keeps it (src/suiban/research/jobs.py).
use suiban.Prelude.{
  ℕ, ◌+◌, ◌≤◌, ◌≡◌, refl, subst, true, false, List, [], ◌∷◌, ◌++◌, Option, none, some, String,
  arith, any, ltb, Bool-cases, inl, inr,
}
use text.Mathlib.Text.{◌==◌ as str_eq}
use text.Mathlib.TextEquality.{eq_iff}
use suiban.Jobs.Store.{Job, has_id, add, active_count}
use suiban.Jobs.Manager.{Task, Manager, new_job, new_task, admit, unwinding, submit}
use suiban.Jobs.Rows.{QueuedOnly, QueuedOnly-snoc, active_count-snoc, waiting, undone}

-- A task that has yet to begin, and is not cancelled, has its job queued.
abbrev pub Linked : List Task → List Job → Type 0
Linked tasks rows = (id : String) → waiting id tasks ≡ true → QueuedOnly id rows

pub record IsSingle (m : Manager) : Type 0 where
  pub one_active : active_count m.jobs ≤ 1
  pub one_task : undone m.tasks ≤ 1
  pub linked : Linked m.tasks m.jobs

none_unwinding : (tasks : List Task) → unwinding tasks ≡ false → undone tasks ≡ 0
none_unwinding [] h = refl
none_unwinding (t ∷ tasks) h = ground (arith, none_unwinding tasks)

undone-snoc : (tasks : List Task) (t : Task) → undone (tasks ++ t ∷ []) ≤ undone tasks + 1
undone-snoc [] t = ground arith
undone-snoc (u ∷ tasks) t = ground (arith, undone-snoc tasks t)

waiting-snoc :
    (id new : String) (tasks : List Task)
    → unwinding tasks ≡ false
    → waiting id (tasks ++ new_task new ∷ []) ≡ true
    → str_eq new id ≡ true
waiting-snoc id new [] h w = ground arith
waiting-snoc id new (t ∷ tasks) h w = ground (arith, waiting-snoc id new tasks)

absent-QueuedOnly :
    (id : String) (rows : List Job) → any (has_id id) rows ≡ false → QueuedOnly id rows
absent-QueuedOnly id [] h = tt
absent-QueuedOnly id (j ∷ rows) h =
    ((λ same. ground (arith, same)), absent-QueuedOnly id rows (ground arith))

added :
    (rows rows' : List Job) (j : Job)
    → add rows j ≡ some rows'
    → (any (has_id j.id) rows ≡ false) × (rows ++ j ∷ [] ≡ rows')
unfolding add
added rows rows' j e = elim (Bool-cases (any (has_id j.id) rows)) [
  | inl taken ↦ ground (arith, taken)
  | inr free ↦ (free, ground (arith, free))
]

admit-IsSingle :
    (m : Manager) (id query effort : String) (now : ℕ) (found : Option (List Job))
    → add m.jobs (new_job id query effort now) ≡ found
    → active_count m.jobs ≡ 0
    → unwinding m.tasks ≡ false
    → IsSingle m
    → IsSingle (admit m (new_job id query effort now) found).0
unfolding admit
admit-IsSingle m id query effort now none e idle quiet s = s
admit-IsSingle m id query effort now (some rows) e idle quiet s =
    let j = new_job id query effort now in
    let (absent, grown) = added m.jobs rows j e in
    record {
      one_active =
          subst (λ r. active_count r ≤ 1) grown (omega (arith, active_count-snoc m.jobs j));
      one_task = omega (arith, none_unwinding m.tasks quiet, undone-snoc m.tasks (new_task id));
      linked = λ other w.
          subst (λ i. QueuedOnly i rows)
            ((eq_iff id other).0 (waiting-snoc other id m.tasks quiet w))
            (subst (QueuedOnly id) grown
              (QueuedOnly-snoc id m.jobs j refl (absent-QueuedOnly id m.jobs absent)));
    }

pub submit-IsSingle :
    (m : Manager) (id query effort : String) (now : ℕ)
    → IsSingle m
    → IsSingle (submit m id query effort now).0
unfolding submit
submit-IsSingle m id query effort now s = elim (Bool-cases (ltb 0 (active_count m.jobs))) [
  | inl busy ↦ rw busy s
  | inr idle ↦ elim (Bool-cases (unwinding m.tasks)) [
    | inl dying ↦ rw (idle, dying) s
    | inr quiet ↦
        rw (idle, quiet) (admit-IsSingle m id query effort now _ refl (ground arith) quiet s)
  ]
]
