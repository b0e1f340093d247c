-- ===== src/Jobs/Final.antt =====
-- How a research job ended stays as it was recorded (src/suiban/research/jobs.py).
use suiban.Prelude.{
  ℕ, ◌≡◌, refl, sym, subst, ◌∙◌, true, false, List, [], ◌∷◌, ◌++◌, Option, none, some, String,
  arith, any, ltb, Bool-cases, inl, inr,
}
use suiban.Prelude.Int.{ℤ}
use text.Mathlib.Text.{◌==◌ as str_eq}
use text.Mathlib.TextEquality.{eq_iff}
use suiban.Jobs.Store.{
  State, queued, cancelled, is_terminal, Job, has_id, add, update, get, active_count,
}
use suiban.Jobs.Manager.{
  Task, begun, with_progress, Manager, startup, new_job, admit, unwinding, submit, terminate,
  set_found, set_terminal, cancel_found, cancel, start, progress, same_progress, clamp_percent,
  Ending, reported, stopped, raised, record_ending, finish, drop_task, shutdown_begin, shutdown_end,
}
use suiban.Jobs.Rows.{QueuedOnly}
use suiban.Jobs.Steps.{
  Step, submits, cancels, starts, progresses, finishes, drops, shuts_down, shut_down, Reach, here,
  next, id-with_terminal,
}
use suiban.Jobs.Admission.{IsSingle}
use suiban.Jobs.Single.{Step-IsSingle, Reach-IsSingle}
use suiban.Jobs.Lookup.{get-update_self, get-update_other, get-append, state-get-QueuedOnly}

-- The job `id` has ended as `j` records it: its state, its error and when.
pub record Ended (id : String) (j : Job) (rows : List Job) : Type 0 where
  pub row : Job
  pub found : get rows id ≡ some row
  pub final : is_terminal row.state ≡ true
  pub same_state : row.state ≡ j.state
  pub same_error : row.error ≡ j.error
  pub same_time : row.finished_at ≡ j.finished_at

module _ (id : String) (j : Job) where
  get-Ended :
      (rows rows' : List Job) → get rows' id ≡ get rows id → Ended id j rows → Ended id j rows'
  get-Ended rows rows' e h = record {
    row = h.row;
    found = e ∙ h.found;
    final = h.final;
    same_state = h.same_state;
    same_error = h.same_error;
    same_time = h.same_time;
  }

  Ended-update_other :
      (rows : List Job) (other : String) (f : Job → Job)
      → ((r : Job) → (f r).id ≡ r.id)
      → str_eq other id ≡ false
      → Ended id j rows
      → Ended id j (update rows other f)
  Ended-update_other rows other f keeps apart =
      get-Ended rows _ (get-update_other rows id other f keeps apart)

  active-ne-Ended :
      (rows : List Job) (other : String) (k : Job)
      → Ended id j rows
      → get rows other ≡ some k
      → is_terminal k.state ≡ false
      → str_eq other id ≡ false
  active-ne-Ended rows other k h found active = elim (Bool-cases (str_eq other id)) [
    | inl same ↦
        let there = subst (λ i. get rows i ≡ some k) ((eq_iff other id).0 same) found in
        let row = h.row in
        let found' = h.found in
        let e : row ≡ k = cc in
        let clash = subst (λ r. is_terminal r.state ≡ true) e h.final in
        ground (arith, clash, active)
    | inr apart ↦ apart
  ]

  set_found-Ended :
      (m : Manager) (other : String) (state : State) (error : Option String) (now : ℕ)
      (found : Option Job)
      → get m.jobs other ≡ found
      → Ended id j m.jobs
      → Ended id j (set_found m other state error now found).jobs
  unfolding set_found terminate
  set_found-Ended m other state error now none e h = h
  set_found-Ended m other state error now (some k) e h = elim (Bool-cases (is_terminal k.state)) [
    | inl ended ↦ rw ended h
    | inr active ↦ rw active (
        Ended-update_other m.jobs other _ (id-with_terminal state error now)
          (active-ne-Ended m.jobs other k h e active) h)
  ]

  set_terminal-Ended :
      (m : Manager) (other : String) (state : State) (error : Option String) (now : ℕ)
      → Ended id j m.jobs
      → Ended id j (set_terminal m other state error now).jobs
  unfolding set_terminal
  set_terminal-Ended m other state error now h = set_found-Ended m other state error now _ refl h

  record_ending-Ended :
      (m : Manager) (other : String) (ending : Ending) (now : ℕ)
      → Ended id j m.jobs
      → Ended id j (record_ending m other ending now).jobs
  unfolding record_ending
  record_ending-Ended m other reported now h = set_terminal-Ended m other _ none now h
  record_ending-Ended m other stopped now h = set_terminal-Ended m other _ none now h
  record_ending-Ended m other (raised e) now h = set_terminal-Ended m other _ (some e) now h

  cancel_found-Ended :
      (m : Manager) (other : String) (now : ℕ) (found : Option Job)
      → Ended id j m.jobs
      → Ended id j (cancel_found m other now found).0.jobs
  unfolding cancel_found
  cancel_found-Ended m other now none h = h
  cancel_found-Ended m other now (some k) h = elim (Bool-cases (is_terminal k.state)) [
    | inl ended ↦ rw ended h
    | inr active ↦ rw active (set_terminal-Ended m other cancelled none now h)
  ]

  start-Ended :
      (m : Manager) (other : String) (now : ℕ)
      → QueuedOnly other m.jobs
      → Ended id j m.jobs
      → Ended id j (start m other now).jobs
  unfolding start
  start-Ended m other now q h = elim (Bool-cases (str_eq other id)) [
    | inl same ↦
        let q' = subst (λ i. QueuedOnly i m.jobs) ((eq_iff other id).0 same) q in
        let waits = state-get-QueuedOnly id m.jobs h.row q' h.found in
        let clash : is_terminal queued ≡ true = subst (λ x. is_terminal x ≡ true) waits h.final in
        ground (arith, clash)
    | inr apart ↦ Ended-update_other m.jobs other (begun now) (λ r. refl) apart h
  ]

  with_progress-Ended :
      (rows : List Job) (other stage : String) (p : ℕ)
      → Ended id j rows
      → Ended id j (update rows other (with_progress stage p))
  with_progress-Ended rows other stage p h = elim (Bool-cases (str_eq other id)) [
    | inl same ↦
        subst (λ i. Ended id j (update rows i (with_progress stage p)))
          (sym ((eq_iff other id).0 same))
          (record {
            row = with_progress stage p h.row;
            found = get-update_self rows id (with_progress stage p) h.row (λ r. refl) h.found;
            final = h.final;
            same_state = h.same_state;
            same_error = h.same_error;
            same_time = h.same_time;
          })
    | inr apart ↦ Ended-update_other rows other (with_progress stage p) (λ r. refl) apart h
  ]

  progress-Ended :
      (m : Manager) (t : Task) (stage : String) (percent : ℤ)
      → Ended id j m.jobs
      → Ended id j (progress m t stage percent).jobs
  unfolding progress
  progress-Ended m t stage percent h =
      elim (Bool-cases (same_progress t.last stage (clamp_percent percent))) [
        | inl same ↦ rw same h
        | inr new ↦ rw new (with_progress-Ended m.jobs t.job_id stage (clamp_percent percent) h)
      ]

  admit-Ended :
      (m : Manager) (new : Job) (found : Option (List Job))
      → add m.jobs new ≡ found
      → Ended id j m.jobs
      → Ended id j (admit m new found).0.jobs
  unfolding admit add
  admit-Ended m new none e h = h
  admit-Ended m new (some rows) e h = elim (Bool-cases (any (has_id new.id) m.jobs)) [
    | inl taken ↦ ground (arith, rw taken at e)
    | inr free ↦
        let grown : m.jobs ++ new ∷ [] ≡ rows = ground (arith, rw free at e) in
        subst (Ended id j) grown
          (get-Ended m.jobs _ (get-append m.jobs (new ∷ []) id h.row h.found ∙ sym h.found) h)
  ]

  submit-Ended :
      (m : Manager) (new query effort : String) (now : ℕ)
      → Ended id j m.jobs
      → Ended id j (submit m new query effort now).0.jobs
  unfolding submit
  submit-Ended m new query effort now h = elim (Bool-cases (ltb 0 (active_count m.jobs))) [
    | inl busy ↦ rw busy h
    | inr idle ↦ elim (Bool-cases (unwinding m.tasks)) [
      | inl dying ↦ rw (idle, dying) h
      | inr quiet ↦ rw (idle, quiet) (admit-Ended m (new_job new query effort now) _ refl h)
    ]
  ]

  Step-Ended : {m n : Manager} → Step m n → IsSingle m → Ended id j m.jobs → Ended id j n.jobs
  unfolding cancel finish drop_task shutdown_begin shutdown_end
  Step-Ended {m} (submits new query effort now) s h = submit-Ended m new query effort now h
  Step-Ended {m} (cancels other now) s h = cancel_found-Ended m other now _ h
  Step-Ended {m} (starts other now w) s h = start-Ended m other now (s.linked other w) h
  Step-Ended {m} (progresses t stage percent mem phase) s h = progress-Ended m t stage percent h
  Step-Ended {m} (finishes t ending now mem phase) s h = record_ending-Ended m t.job_id ending now h
  Step-Ended (drops t mem phase asked) s h = h
  Step-Ended shuts_down s h = h
  Step-Ended (shut_down none_left) s h = h

  Reach-Ended :
      {m n : Manager} → Reach m n → IsSingle m → Ended id j m.jobs → IsSingle n × Ended id j n.jobs
  Reach-Ended here s h = (s, h)
  Reach-Ended (next r st) s h =
      let (s', h') = Reach-Ended r s h in (Step-IsSingle st s', Step-Ended st s' h')

-- Once a research job has completed, failed or been cancelled, whatever its task still does and whoever
-- cancels or submits, its row stays, with that state, error and finishing time.
pub Reach-final :
    (rows : List Job) (now : ℕ) (m n : Manager) (id : String) (j : Job)
    → Reach (startup rows now) m
    → get m.jobs id ≡ some j
    → is_terminal j.state ≡ true
    → Reach m n
    → Ended id j n.jobs
Reach-final rows now m n id j before found final after =
    (Reach-Ended id j after (Reach-IsSingle rows now m before) (record {
      row = j;
      found = found;
      final = final;
      same_state = refl;
      same_error = refl;
      same_time = refl;
    })).1
