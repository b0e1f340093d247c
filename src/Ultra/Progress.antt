-- ===== src/Ultra/Progress.antt =====
-- The workers of a parallel dispatch are shared out one by one, and it comes to its end
-- (src/suiban/modes/ultra.py).
use suiban.Prelude.{
  ℕ, suc, ◌+◌, ◌*◌, ◌≤◌, ◌≡◌, ◌⊎◌, inl, inr, refl, ap, ◌∙◌, Bool, List, [], ◌∷◌, ◌++◌, String, map,
  length, sum_of, sum_of-append, arith, Bool-cases, ltb, ltb→lt, if◌then◌else◌,
}
use text.Mathlib.Text.{◌==◌ as str_eq}
use suiban.Agent.Calls.{no_usage}
use suiban.Slap.Messages.{MessageError}
use suiban.Ultra.{UltraWorker, Subtask, UltraRun, UltraState}
use suiban.Ultra.Trace.{never_ran}
use suiban.Ultra.Parallel.{
  Job, created, waiting, running, over, Dispatch, dispatch_start, begin, take_worker, finish_job,
  Step, begins, takes, ends, Reach, here, next,
}

-- What a job holds of the workers, each counted by `g`.
abbrev pub load : (UltraWorker → ℕ) → Job → ℕ
load g (running s c w) = g w
load g _ = 0

-- The stretches that a job has to come.
abbrev pub left : Job → ℕ
left (created s) = 3
left (waiting s c) = 2
left (running s c w) = 1
left (over s) = 0

abbrev pub remaining : Dispatch → ℕ
remaining d = sum_of left d.jobs

pub sum_of_split :
    (f : Job → ℕ) (jobs before : List Job) (j : Job) (after : List Job)
    → jobs ≡ before ++ j ∷ after
    → sum_of f jobs ≡ sum_of f before + (f j + sum_of f after)
sum_of_split f jobs before j after e = ap (sum_of f) e ∙ sum_of-append f before (j ∷ after)

module _ (matches : String → String → Bool) (text : MessageError → String) (run : UltraRun) where
  Step_shared :
      (g : UltraWorker → ℕ) {d e : Dispatch}
      → Step matches text run d e
      → sum_of (load g) e.jobs + sum_of g e.pool ≡ sum_of (load g) d.jobs + sum_of g d.pool
  unfolding begin take_worker finish_job
  Step_shared g {d} (begins before s after e) = omega (
    arith,
    sum_of_split (load g) d.jobs before (created s) after e,
    sum_of-append (load g) before _,
  )
  Step_shared g {d} (takes before s c after w pool e p) = omega (
    arith,
    sum_of_split (load g) d.jobs before (waiting s c) after e,
    sum_of-append (load g) before (running s c w ∷ after),
    ap (sum_of g) p,
  )
  Step_shared g {d} (ends before s c after w outcome tokens e) = omega (
    arith,
    sum_of_split (load g) d.jobs before (running s c w) after e,
    sum_of-append (load g) before _,
    sum_of-append g d.pool (w ∷ []),
  )

  Step_less : {d e : Dispatch} → Step matches text run d e → suc (remaining e) ≡ remaining d
  unfolding begin take_worker finish_job
  Step_less {d} (begins before s after e) =
      omega
        (arith, sum_of_split left d.jobs before (created s) after e, sum_of-append left before _)
  Step_less {d} (takes before s c after w pool e p) = omega (
    arith,
    sum_of_split left d.jobs before (waiting s c) after e,
    sum_of-append left before (running s c w ∷ after),
  )
  Step_less {d} (ends before s c after w outcome tokens e) =
      omega (
        arith,
        sum_of_split left d.jobs before (running s c w) after e,
        sum_of-append left before _,
      )

ones : (workers : List UltraWorker) → sum_of (λ (w : UltraWorker). 1) workers ≡ length workers
ones [] = refl
ones (w ∷ workers) = omega (arith, ones workers)

-- Where `f` counts something, a job that it counts.
abbrev Picked : (Job → ℕ) → List Job → Type 0
Picked f jobs =
    (before : List Job) × ((j : Job) × ((after : List Job) × ((jobs ≡ before ++ j ∷ after)
          × (1 ≤ f j))))

pick : (f : Job → ℕ) (jobs : List Job) → 1 ≤ sum_of f jobs → Picked f jobs
pick f [] h = absurd (omega arith)
pick f (j ∷ jobs) h = elim (Bool-cases (ltb 0 (f j))) [
  | inl busy ↦ ([], (j, (jobs, (refl, ltb→lt 0 (f j) busy))))
  | inr none_here ↦
      let (before, (k, (after, (e, h')))) = pick f jobs (ground arith) in
      (j ∷ before, (k, (after, (ap (λ js. j ∷ js) e, h'))))
]

module _ (matches : String → String → Bool) (text : MessageError → String) (run : UltraRun) where
  abbrev pub CanStep : Dispatch → Type 0
  CanStep d = (e : Dispatch) × Step matches text run d e

  running_steps : (d : Dispatch) → Picked (load (λ w. 1)) d.jobs → CanStep d
  running_steps d (before, (running s c w, (after, (e, h)))) =
      (_, ends before s c after w (inl never_ran) no_usage e)
  running_steps d (before, (created s, (after, (e, h)))) = absurd (omega arith)
  running_steps d (before, (waiting s c, (after, (e, h)))) = absurd (omega arith)
  running_steps d (before, (over s, (after, (e, h)))) = absurd (omega arith)

  waiting_steps :
      (d : Dispatch) (before : List Job) (s : Subtask) (c : String) (after : List Job)
      (pool : List UltraWorker)
      → d.jobs ≡ before ++ waiting s c ∷ after
      → d.pool ≡ pool
      → 1 ≤ sum_of (load (λ w. 1)) d.jobs + sum_of (λ (w : UltraWorker). 1) pool
      → CanStep d
  waiting_steps d before s c after (w ∷ pool) e p h = (_, takes before s c after w pool e p)
  waiting_steps d before s c after [] e p h =
      running_steps d (pick (load (λ w. 1)) d.jobs (omega arith))

  open_steps :
      (d : Dispatch)
      → Picked left d.jobs
      → 1 ≤ sum_of (load (λ w. 1)) d.jobs + sum_of (λ (w : UltraWorker). 1) d.pool
      → CanStep d
  open_steps d (before, (created s, (after, (e, h)))) busy = (_, begins before s after e)
  open_steps d (before, (waiting s c, (after, (e, h)))) busy =
      waiting_steps d before s c after d.pool e refl busy
  open_steps d (before, (running s c w, (after, (e, h)))) busy =
      (_, ends before s c after w (inl never_ran) no_usage e)
  open_steps d (before, (over s, (after, (e, h)))) busy = absurd (omega arith)

  pub steps : {d e : Dispatch} → Reach matches text run d e → ℕ
  steps here = 0
  steps (next r st) = suc (steps r)

  Reach_shared :
      (g : UltraWorker → ℕ) {d e : Dispatch}
      → Reach matches text run d e
      → sum_of (load g) e.jobs + sum_of g e.pool ≡ sum_of (load g) d.jobs + sum_of g d.pool
  Reach_shared g here = refl
  Reach_shared g (next r st) = Step_shared matches text run g st ∙ Reach_shared g r

  Reach_left :
      {d e : Dispatch} (r : Reach matches text run d e) → steps r + remaining e ≡ remaining d
  unfolding steps
  Reach_left here = omega arith
  Reach_left (next r st) = omega (arith, Reach_left r, Step_less matches text run st)

  created_left :
      (subtasks : List Subtask) → sum_of left (map created subtasks) ≡ 3 * length subtasks
  created_left [] = omega arith
  created_left (s ∷ subtasks) = omega (arith, created_left subtasks)

  created_load :
      (g : UltraWorker → ℕ) (subtasks : List Subtask) → sum_of (load g) (map created subtasks) ≡ 0
  created_load g [] = refl
  created_load g (s ∷ subtasks) = omega (arith, created_load g subtasks)

  -- In every interleaving of a dispatch that has workers, a step can be taken until all jobs are over, and
  -- that takes three steps for each sub-task.
  pub Reach-progress :
      (workers : List UltraWorker) (s : UltraState) (subtasks : List Subtask) {d : Dispatch}
      (r : Reach matches text run (dispatch_start workers s subtasks) d)
      → 1 ≤ length workers
      → (steps r + remaining d ≡ 3 * length subtasks) × ((remaining d ≡ 0) ⊎ CanStep d)
  unfolding dispatch_start
  Reach-progress workers s subtasks {d} r h =
      let shared = Reach_shared (λ w. 1) r in
      let unloaded = created_load (λ w. 1) subtasks in
      let all = ones workers in
      let ended = Reach_left r in
      (
        ended ∙ created_left subtasks,
        elim (Bool-cases (ltb 0 (remaining d))) [
          | inl more ↦
              inr (open_steps d (pick left d.jobs (ltb→lt 0 (remaining d) more)) (omega arith))
          | inr none_left ↦ inl (ground arith)
        ],
      )

  abbrev pub on_slot : String → UltraWorker → ℕ
  on_slot slot w = if str_eq w.slot_id slot then 1 else 0

  -- In every interleaving, the sub-agents that run on a slot are never more than the workers that it has.
  pub Reach-exclusive :
      (workers : List UltraWorker) (s : UltraState) (subtasks : List Subtask) {d : Dispatch}
      (slot : String)
      → Reach matches text run (dispatch_start workers s subtasks) d
      → sum_of (load (on_slot slot)) d.jobs ≤ sum_of (on_slot slot) workers
  unfolding dispatch_start
  Reach-exclusive workers s subtasks slot r =
      let shared = Reach_shared (on_slot slot) r in
      let unloaded = created_load (on_slot slot) subtasks in omega arith
