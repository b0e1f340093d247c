-- ===== src/Jobs/Rows.antt =====
-- What the operations do to the rows and to the tasks (src/suiban/research/jobs.py).
use suiban.Prelude.{
  ℕ, ◌+◌, ◌≤◌, ◌≡◌, refl, ap, ◌∙◌, sym, Bool, true, false, not, ◌&&◌, ◌||◌, List, [], ◌∷◌, ◌++◌,
  String, arith, any, keep, length, Bool-cases, inl, inr,
}
use text.Mathlib.Text.{◌==◌ as str_eq}
use text.Mathlib.TextEquality.{eq_iff}
use suiban.Jobs.Store.{queued, is_active, Job, has_id, update, active_count}
use suiban.Jobs.Manager.{created, is_done, Task, change_task}

abbrev pub QueuedOnly : String → List Job → Type 0
QueuedOnly id [] = Unit
QueuedOnly id (j ∷ rows) = (has_id id j ≡ true → j.state ≡ queued) × QueuedOnly id rows

pub QueuedOnly-snoc :
    (id : String) (rows : List Job) (j : Job)
    → j.state ≡ queued
    → QueuedOnly id rows
    → QueuedOnly id (rows ++ j ∷ [])
QueuedOnly-snoc id [] j q h = ((λ same. q), tt)
QueuedOnly-snoc id (r ∷ rows) j q h = (h.0, QueuedOnly-snoc id rows j q h.1)

apart_has_id :
    (id other : String) (j : Job)
    → str_eq other id ≡ false
    → has_id other j ≡ true
    → has_id id j ≡ false
apart_has_id id other j apart same =
    ground (arith, eq_iff j.id other, eq_iff j.id id, eq_iff other id)

-- A change of the rows of another job.
pub QueuedOnly-update :
    (id other : String) (rows : List Job) (f : Job → Job)
    → ((j : Job) → (f j).id ≡ j.id)
    → str_eq other id ≡ false
    → QueuedOnly id rows
    → QueuedOnly id (update rows other f)
unfolding update
QueuedOnly-update id other [] f keeps apart h = h
QueuedOnly-update id other (j ∷ rows) f keeps apart h = elim (Bool-cases (has_id other j)) [
  | inl same ↦
      let away : has_id id (f j) ≡ false =
        ap (λ i. str_eq i id) (keeps j) ∙ apart_has_id id other j apart same in
      rw same ((λ clash. cc), QueuedOnly-update id other rows f keeps apart h.1)
  | inr differs ↦ rw differs (h.0, QueuedOnly-update id other rows f keeps apart h.1)
]

-- A change that leaves the ids and states alone.
pub QueuedOnly-update_of_same :
    (id other : String) (rows : List Job) (f : Job → Job)
    → ((j : Job) → (f j).id ≡ j.id)
    → ((j : Job) → (f j).state ≡ j.state)
    → QueuedOnly id rows
    → QueuedOnly id (update rows other f)
unfolding update
QueuedOnly-update_of_same id other [] f same_id same_state h = h
QueuedOnly-update_of_same id other (j ∷ rows) f same_id same_state h =
    elim (Bool-cases (has_id other j)) [
      | inl same ↦ rw same (
        (λ e. same_state j ∙ h.0 (sym (ap (λ i. str_eq i id) (same_id j)) ∙ e)),
        QueuedOnly-update_of_same id other rows f same_id same_state h.1,
      )
      | inr differs ↦
          rw differs (h.0, QueuedOnly-update_of_same id other rows f same_id same_state h.1)
    ]

-- A row that is not active stays so.
abbrev pub Calms : String → (Job → Job) → List Job → Type 0
Calms id f [] = Unit
Calms id f (j ∷ rows) =
    (has_id id j ≡ true → is_active (f j).state ≡ true → is_active j.state ≡ true) × Calms id f rows

pub active_count-update :
    (id : String) (f : Job → Job) (rows : List Job)
    → Calms id f rows
    → active_count (update rows id f) ≤ active_count rows
unfolding active_count update
active_count-update id f [] h = omega arith
active_count-update id f (j ∷ rows) h = elim (Bool-cases (has_id id j)) [
  | inl same ↦ elim (Bool-cases (is_active (f j).state)) [
    | inl busy ↦ rw (same, busy, h.0 same busy) (omega (arith, active_count-update id f rows h.1))
    | inr calm ↦ rw (same, calm) (ground (arith, active_count-update id f rows h.1))
  ]
  | inr differs ↦ rw differs (ground (arith, active_count-update id f rows h.1))
]

pub all-Calms :
    (id : String) (f : Job → Job) (rows : List Job)
    → ((j : Job) → is_active (f j).state ≡ true → is_active j.state ≡ true)
    → Calms id f rows
all-Calms id f [] h = tt
all-Calms id f (j ∷ rows) h = ((λ same. h j), all-Calms id f rows h)

pub QueuedOnly-Calms :
    (id : String) (f : Job → Job) (rows : List Job) → QueuedOnly id rows → Calms id f rows
QueuedOnly-Calms id f [] h = tt
QueuedOnly-Calms id f (j ∷ rows) h =
    ((λ same busy. ap is_active (h.0 same)), QueuedOnly-Calms id f rows h.1)

pub active_count-snoc :
    (rows : List Job) (j : Job) → active_count (rows ++ j ∷ []) ≤ active_count rows + 1
unfolding active_count
active_count-snoc [] j = ground arith
active_count-snoc (r ∷ rows) j = ground (arith, active_count-snoc rows j)

abbrev pub is_waiting : Task → Bool
is_waiting t = (elim t.phase [ created ↦ true | _ ↦ false ]) && not t.cancel_requested

-- Whether the body of a job's task is still to begin.
abbrev pub waiting : String → List Task → Bool
waiting id tasks = any (λ t. str_eq t.job_id id && is_waiting t) tasks

abbrev pub undone : List Task → ℕ
undone tasks = length (keep (λ t. not (is_done t.phase)) tasks)

pub waiting-change_task :
    (id other : String) (f : Task → Task) (tasks : List Task)
    → ((t : Task) → (f t).job_id ≡ t.job_id)
    → ((t : Task) → is_waiting (f t) ≡ false)
    → waiting id (change_task other f tasks) ≡ true
    → (waiting id tasks ≡ true) × (str_eq other id ≡ false)
unfolding change_task
waiting-change_task id other f [] same_id none_waits h = cc
waiting-change_task id other f (t ∷ tasks) same_id none_waits h =
    elim (Bool-cases (str_eq t.job_id other)) [
      | inl same ↦
          let rest : waiting id (change_task other f tasks) ≡ true =
            ground (arith, rw same at h, none_waits t) in
          ground (arith, waiting-change_task id other f tasks same_id none_waits rest)
      | inr differs ↦ elim (Bool-cases (str_eq t.job_id id && is_waiting t)) [
        | inl mine ↦ (
          ground (arith, mine),
          ground (arith, mine, eq_iff t.job_id id, eq_iff t.job_id other, eq_iff other id),
        )
        | inr not_mine ↦
            let rest : waiting id (change_task other f tasks) ≡ true =
              ground (arith, rw differs at h, not_mine) in
            ground (arith, waiting-change_task id other f tasks same_id none_waits rest)
      ]
    ]

-- A change that makes no task wait that did not.
pub waiting-change_task_of_same :
    (id other : String) (f : Task → Task) (tasks : List Task)
    → ((t : Task) → (f t).job_id ≡ t.job_id)
    → ((t : Task) → is_waiting (f t) ≡ is_waiting t)
    → waiting id (change_task other f tasks) ≡ waiting id tasks
unfolding change_task
waiting-change_task_of_same id other f [] same_id same_wait = refl
waiting-change_task_of_same id other f (t ∷ tasks) same_id same_wait =
    elim (Bool-cases (str_eq t.job_id other)) [
      | inl same ↦
          rw (same, waiting-change_task_of_same id other f tasks same_id same_wait, same_wait t)
            (ap (λ i. (str_eq i id && is_waiting t) || waiting id tasks) (same_id t))
      | inr differs ↦ rw (differs, waiting-change_task_of_same id other f tasks same_id same_wait)
    ]

pub undone-change_task :
    (other : String) (f : Task → Task) (tasks : List Task)
    → ((t : Task) → is_done t.phase ≡ true → is_done (f t).phase ≡ true)
    → undone (change_task other f tasks) ≤ undone tasks
unfolding change_task
undone-change_task other f [] keeps = omega arith
undone-change_task other f (t ∷ tasks) keeps = elim (Bool-cases (str_eq t.job_id other)) [
  | inl same ↦ rw same (ground (arith, keeps t, undone-change_task other f tasks keeps))
  | inr differs ↦ rw differs (ground (arith, undone-change_task other f tasks keeps))
]

pub waiting-keep :
    (id gone : String) (tasks : List Task)
    → waiting id (keep (λ t. not (str_eq t.job_id gone)) tasks) ≡ true
    → (waiting id tasks ≡ true) × (str_eq gone id ≡ false)
waiting-keep id gone [] h = cc
waiting-keep id gone (t ∷ tasks) h = elim (Bool-cases (str_eq t.job_id gone)) [
  | inl same ↦ ground (arith, waiting-keep id gone tasks (rw same at h))
  | inr differs ↦ elim (Bool-cases (str_eq t.job_id id && is_waiting t)) [
    | inl mine ↦ (
      ground (arith, mine),
      ground (arith, mine, eq_iff t.job_id id, eq_iff t.job_id gone, eq_iff gone id),
    )
    | inr not_mine ↦
        let rest : waiting id (keep (λ t. not (str_eq t.job_id gone)) tasks) ≡ true =
          ground (arith, rw differs at h, not_mine) in
        ground (arith, waiting-keep id gone tasks rest)
  ]
]

pub undone-keep :
    (gone : String) (tasks : List Task)
    → undone (keep (λ t. not (str_eq t.job_id gone)) tasks) ≤ undone tasks
undone-keep gone [] = omega arith
undone-keep gone (t ∷ tasks) = ground (arith, undone-keep gone tasks)
