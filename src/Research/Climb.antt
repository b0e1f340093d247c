-- ===== src/Research/Climb.antt =====
-- What a reader sees of a run of the pipeline (src/suiban/research/engine.py): percentages that climb, each
-- within the span of its stage.
use native.Mathlib.Nat.{
  div-mul-le_self, div-add-mod', le-div_iff_mul-le, mul-div_cancel, mul-mod_left,
}
use mathlib.Core.List.{append-nil}
use suiban.Prelude.{
  ℕ, ◌+◌, ◌*◌, ◌/◌, ◌%◌, ◌≤◌, ◌≡◌, refl, ap, subst, Option, none, some, List, [], ◌∷◌, ◌++◌, String,
  length, max, All, All-append, arith, Bool-cases, inl, inr, ltb,
}
use suiban.Sched.Budget.Rounding.{round_div}
use suiban.Research.{
  ResearchStage, planning_queries, collecting_sources, cross_checking, writing_report,
  StageProgress, at, ResearchPlan, Source, Searched, Fetched, Seams,
}
use suiban.Research.Engine.{
  ask_research_plan, after_plan, Written, raises, wrote, Research, text_of, report_of_text, headed,
  told_of_report, plan_research, cross_check_messages, report_messages, write_report,
  after_cross_check, told_until, run_research,
}
use suiban.Research.Sources.{
  Selected, selected, select_sources_with, select_sources, Gathered, gather_percent, gather_from,
  gather,
}

-- The span of a stage, in percent.
abbrev pub starts : ResearchStage → ℕ
starts planning_queries = 0
starts collecting_sources = 10
starts cross_checking = 55
starts writing_report = 80

abbrev pub finishes : ResearchStage → ℕ
finishes planning_queries = 10
finishes collecting_sources = 55
finishes cross_checking = 80
finishes writing_report = 100

abbrev pub InSpan : StageProgress → Type 0
InSpan p = (starts p.stage ≤ p.percent) × (p.percent ≤ finishes p.stage)

-- The percentages do not fall, from `lo` up to `hi`.
abbrev pub Climbs : ℕ → ℕ → List StageProgress → Type 0
Climbs lo hi [] = lo ≤ hi
Climbs lo hi (p ∷ ps) = (lo ≤ p.percent) × Climbs p.percent hi ps

pub Climbs-append :
    (lo mid hi : ℕ) (xs ys : List StageProgress)
    → Climbs lo mid xs
    → Climbs mid hi ys
    → Climbs lo hi (xs ++ ys)
Climbs-append lo mid hi [] [] h k = omega arith
Climbs-append lo mid hi [] (y ∷ ys) h k = (omega (arith, k.0), k.1)
Climbs-append lo mid hi (x ∷ xs) ys h k = (h.0, Climbs-append x.percent mid hi xs ys h.1 k)

div_climbs : (a b n : ℕ) → 1 ≤ n → a ≤ b → a / n ≤ b / n
div_climbs a b n pos h = (le-div_iff_mul-le pos).1 (omega (arith, div-mul-le_self a n))

round_div_climbs : (a b n : ℕ) → 1 ≤ n → a ≤ b → round_div a n ≤ round_div b n
unfolding round_div
round_div_climbs a b n pos h =
    let quotient = div_climbs a b n pos h in
    let of_a = div-add-mod' a n in
    let of_b = div-add-mod' b n in
    elim (Bool-cases (ltb (a / n) (b / n))) [
      | inl more ↦ ground arith
      | inr same ↦
          let e : a / n ≡ b / n = ground arith in
          let left : a % n ≤ b % n = omega (arith, ap (λ q. q * n) e) in rw e (ground arith)
    ]

round_div_whole : (n : ℕ) → 1 ≤ n → round_div (45 * n) n ≡ 45
unfolding round_div
round_div_whole n h = rw (mul-div_cancel 45 h, mul-mod_left 45 n) (ground arith)

gather_climbs :
    (i total : ℕ) → i + 1 ≤ total → gather_percent i total ≤ gather_percent (i + 1) total
unfolding gather_percent
gather_climbs i total h =
    omega
      (arith, round_div_climbs (45 * i) (45 * (i + 1)) (max total 1) (ground arith) (omega arith))

gather_bounded : (i total : ℕ) → i + 1 ≤ total → gather_percent i total ≤ 55
unfolding gather_percent
gather_bounded i total h =
    let m = max total 1 in
    omega (
      arith,
      round_div_climbs (45 * i) (45 * m) m (ground arith) (ground arith),
      round_div_whole m (ground arith),
    )

module _ {World : Type 0} (fetch : World → String → Fetched × World) where
  gather_from-Climbs :
      (lo i total : ℕ) (ss : List Source) (w : World)
      → i + length ss ≡ total
      → 10 ≤ lo
      → lo ≤ 55
      → ((1 ≤ length ss) → lo ≤ gather_percent i total)
      → Climbs lo 55 (gather_from fetch i total ss w).told
        × All InSpan (gather_from fetch i total ss w).told
  unfolding gather_from
  gather_from-Climbs lo i total [] w e ten h k =
      ((h, omega arith), ((omega arith, omega arith), tt))
  gather_from-Climbs lo i total (s ∷ ss) w e ten h k =
      let here = k (omega arith) in
      let top = gather_bounded i total (omega (arith, e)) in
      let rest =
        gather_from-Climbs (gather_percent i total) (i + 1) total ss (fetch w s.url).1
          (omega (arith, e)) (omega (arith, here)) top
          (λ more. gather_climbs i total (omega (arith, e))) in
      ((here, rest.0), ((omega (arith, here), top), rest.1))

select-Climbs :
    {World : Type 0} (search : Option (World → String → ℕ → Searched × World)) (cap : ℕ)
    (query : String) (plan : ResearchPlan) (w : World)
    → Climbs 10 10 (select_sources_with search cap query plan w).told
      × All InSpan (select_sources_with search cap query plan w).told
unfolding select_sources_with selected
select-Climbs {World = World} none cap query plan w = (omega arith, tt)
select-Climbs {World = World} (some search) cap query plan w = picked_climbs _ _ _
  where
    picked_climbs :
        (picked : List Source) (errors : List String) (v : World)
        → Climbs 10 10 (selected cap plan picked errors v).told
          × All InSpan (selected cap plan picked errors v).told
    picked_climbs [] errors v = ((omega arith, omega arith), ((omega arith, omega arith), tt))
    picked_climbs (s ∷ ss) errors v = ((omega arith, omega arith), ((omega arith, omega arith), tt))

-- A run that made a report told 100 percent last, and one that raises never got beyond 85.
abbrev pub Ended : Written → List StageProgress → Type 0
Ended (wrote t) told =
    (before : List StageProgress) × ((told ≡ before ++ at writing_report 100 ∷ [])
      × Climbs 0 85 before)
Ended (raises exc) told = Climbs 0 85 told

-- What holds of all that a run tells.
abbrev IsHonest : {World : Type 0} → Research World → Type 0
IsHonest r = All InSpan r.told × Ended r.outcome r.told

headed-Ended :
    (provider : String) (reason : Option String) (written : Written) (told : List StageProgress)
    → Climbs 0 85 told
    → Ended (headed provider reason written) (told ++ told_of_report written)
unfolding headed
headed-Ended provider none (raises exc) told h = Climbs-append 0 85 85 told [] h (omega arith)
headed-Ended provider none (wrote t) told h = (told, (refl, h))
headed-Ended provider (some reason) (raises exc) told h =
    Climbs-append 0 85 85 told [] h (omega arith)
headed-Ended provider (some reason) (wrote t) told h = (told, (refl, h))

told_of_report-InSpan : (written : Written) → All InSpan (told_of_report written)
told_of_report-InSpan (raises exc) = tt
told_of_report-InSpan (wrote t) = ((omega arith, omega arith), tt)

module _ {World : Type 0} (seams : Seams World) (query prompt : String) where
  after_cross_check-IsHonest :
      (chosen : Selected World) (read : Gathered World) (plan : ResearchPlan) (written : Written)
      (w : World) (told : List StageProgress)
      → Climbs 0 60 told
      → All InSpan told
      → IsHonest (after_cross_check seams query prompt chosen read plan written w told)
  unfolding after_cross_check write_report
  after_cross_check-IsHonest chosen read plan (raises exc) w told h k =
      (k, subst (Climbs 0 85) (append-nil told) (Climbs-append 0 60 85 told [] h (omega arith)))
  after_cross_check-IsHonest chosen read plan (wrote cross_check) w told h k =
      let written = report_of_text (
        text_of
          (seams.complete w (report_messages seams query prompt plan read.notes cross_check)).0) in
      let late = at cross_checking 80 ∷ at writing_report 85 ∷ [] in
      (
        All-append InSpan (told ++ late) (told_of_report written)
            (All-append InSpan told late k
              ((omega arith, omega arith), ((omega arith, omega arith), tt)))
            (told_of_report-InSpan written),
        headed-Ended seams.search_provider chosen.degrade_reason written (told ++ late)
            (Climbs-append 0 60 85 told late h (omega arith, (omega arith, omega arith))),
      )

  after_plan-IsHonest :
      (plan : ResearchPlan) (w : World) (raised : Option String)
      → IsHonest (after_plan seams query prompt plan w raised)
  unfolding after_plan select_sources gather
  after_plan-IsHonest plan w (some exc) =
      (((omega arith, omega arith), tt), (omega arith, omega arith))
  after_plan-IsHonest plan w none =
      let chosen = select_sources seams query plan w in
      let read = gather seams chosen.sources chosen.world in
      let found = select-Climbs seams.search seams.max_sources query plan w in
      let fetched =
        gather_from-Climbs seams.fetch 10 0 (length chosen.sources) chosen.sources chosen.world
          (omega arith) (omega arith) (omega arith) (λ more. ground arith) in
      let told = told_until seams query prompt chosen read in
      after_cross_check-IsHonest chosen read plan
        (text_of
          (seams.complete read.world (cross_check_messages seams query prompt plan read.notes)).0)
        _ told
        (
          omega arith,
          (
            omega arith,
            Climbs-append 10 10 60 chosen.told (read.told ++ at cross_checking 60 ∷ []) found.0 (
                Climbs-append 10 55 60 read.told (at cross_checking 60 ∷ []) fetched.0
                  (omega arith, omega arith)),
          ),
        )
        (
          (omega arith, omega arith),
          (
            (omega arith, omega arith),
            All-append InSpan chosen.told (read.told ++ at cross_checking 60 ∷ []) found.1 (
                All-append InSpan read.told (at cross_checking 60 ∷ []) fetched.1
                  ((omega arith, omega arith), tt)),
          ),
        )

  -- The percentages that a run tells never fall, and each lies in the span of its stage; a run that makes a
  -- report tells 100 once, at its end, and one that raises stays at 85 or below.
  pub run_research_climbs :
      (w : World)
      → let r = run_research seams query prompt w in All InSpan r.told × Ended r.outcome r.told
  unfolding run_research
  run_research_climbs w =
      let planned = plan_research seams query prompt w in
      after_plan-IsHonest planned.0 planned.1 (ask_research_plan seams query prompt w).raises
