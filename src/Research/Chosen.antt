-- ===== src/Research/Chosen.antt =====
-- Which sources a report is built on (src/suiban/research/engine.py).
use Prim.Native.String.{count}
use suiban.Prelude.{
  ℕ, zero, suc, ◌+◌, ◌≤◌, ◌≡◌, refl, ap, sym, subst, ◌∙◌, Option, none, some, List, [], ◌∷◌, String,
  ◌++◌, length, map, All, arith, length-take, inl, inr, true, take,
}
use suiban.Json.{Members}
use suiban.Research.{
  ResearchPlan, Source, Searched, Seams, research_plan_of, planned_urls, untitled, SourceNote,
  note_max_chars, Fetched, fetched, fetch_crashed, StageProgress,
}
use suiban.Research.Sources.{
  search_each, Searches, Selected, selected, pick_all, select_sources_with, select_sources,
  queries_of, note_of, gather_from, gather, Gathered,
}
use suiban.Agent.Text.{first_chars}
use text.Mathlib.Text.{◌==◌ as str_eq}
use text.Mathlib.TextLemmas.{length-cons}
use suiban.Research.Distinct.{
  AreDistinct, AreSome, IsCovered, found_by, search_each_picked, pick_all-AreDistinct,
  pick_all-Adds, pick_all-IsCovered,
}
use suiban.Research.Engine.{
  ask_research_plan, after_plan, text_of, cross_check_messages, told_until, Written, raises, wrote,
  Research, plan_research, run_research, after_cross_check, write_report,
}

-- What is picked of the sources that were found: some of them, in their order and distinct, where none
-- that has a URL is left out.
abbrev pub IsPicked : List Source → List Source → Type 0
IsPicked found picked =
    (1 ≤ length picked) × AreDistinct picked × AreSome picked found × All (IsCovered picked) found

abbrev pub HasNoUrl : Source → Type 0
HasNoUrl s = str_eq s.url "" ≡ true

-- What the sources are, with or without a search provider, and with or without a reason not to use it, of
-- a plan whose searches begin in the world `w`.
abbrev pub AreFrom :
    {World : Type 0}
    → Option (World → String → ℕ → Searched × World)
    → (cap : ℕ) (query : String) → ResearchPlan
    → World
    → Option String
    → List Source
    → Type 0
AreFrom none cap query plan w none sources = sources ≡ map untitled plan.source_urls
AreFrom none cap query plan w (some reason) sources = ⊥
AreFrom (some search) cap query plan w none sources =
    (picked : List Source) × (IsPicked (found_by search (queries_of query plan) w) picked
      × (sources ≡ take cap picked))
AreFrom (some search) cap query plan w (some reason) sources =
    (sources ≡ map untitled plan.source_urls)
    × All HasNoUrl (found_by search (queries_of query plan) w)

uncovered : (found : List Source) → All (IsCovered []) found → All HasNoUrl found
uncovered [] h = tt
uncovered (s ∷ ss) (inl empty, h) = (empty, uncovered ss h)
uncovered (s ∷ ss) (inr there, h) = ground arith

selected-AreFrom :
    {World : Type 0} (search : World → String → ℕ → Searched × World) (cap : ℕ) (query : String)
    (plan : ResearchPlan) (picked : List Source) (errors : List String) (w v : World)
    → picked ≡ pick_all [] (found_by search (queries_of query plan) w)
    → AreFrom
        (some search)
        cap
        query
        plan
        w
        (selected cap plan picked errors v).degrade_reason
        (selected cap plan picked errors v).sources
unfolding selected
selected-AreFrom search cap query plan [] errors w v e =
    let found = found_by search (queries_of query plan) w in
    (
      refl,
      uncovered found
          (subst (λ ps. All (IsCovered ps) found) (sym e) (pick_all-IsCovered [] found)),
    )
selected-AreFrom search cap query plan (s ∷ ss) errors w v e =
    let found = found_by search (queries_of query plan) w in
    (
      s ∷ ss,
      (
        (
          omega arith,
          subst AreDistinct (sym e) (pick_all-AreDistinct [] found tt),
          some_of (pick_all-Adds [] found),
          subst (λ ps. All (IsCovered ps) found) (sym e) (pick_all-IsCovered [] found),
        ),
        refl,
      ),
    )
  where
    some_of :
        let found = found_by search (queries_of query plan) w in
        (added : List Source) × ((pick_all [] found ≡ [] ++ added) × AreSome added found)
        → AreSome (s ∷ ss) found
    some_of (added, (same, h)) =
        subst (λ ps. AreSome ps (found_by search (queries_of query plan) w)) (sym (e ∙ same)) h

select-AreFrom :
    {World : Type 0} (search : Option (World → String → ℕ → Searched × World)) (cap : ℕ)
    (query : String) (plan : ResearchPlan) (w : World)
    → AreFrom search cap query plan w
        (select_sources_with search cap query plan w).degrade_reason
        (select_sources_with search cap query plan w).sources
unfolding select_sources_with
select-AreFrom none cap query plan w = refl
select-AreFrom {World = World} (some search) cap query plan w =
    let start : Searches World = record { picked = []; errors = []; world = w } in
    let found = search_each search (queries_of query plan) start in
    selected-AreFrom search cap query plan found.picked found.errors w found.world
      (search_each_picked search (queries_of query plan) start)

length-map {ℓ κ} :
    {A : Type ℓ} {B : Type κ} (f : A → B) (xs : List A) → length (map f xs) ≡ length xs
length-map f [] = refl
length-map f (x ∷ xs) = omega (arith, length-map f xs)

select_within :
    {World : Type 0} (search : Option (World → String → ℕ → Searched × World)) (cap : ℕ)
    (query : String) (plan : ResearchPlan) (w : World)
    → length plan.source_urls ≤ cap
    → length (select_sources_with search cap query plan w).sources ≤ cap
unfolding select_sources_with selected
select_within none cap query plan w h = omega (arith, h, length-map untitled plan.source_urls)
select_within {World = World} (some search) cap query plan w h = among _ _ _
  where
    among :
        (picked : List Source) (errors : List String) (v : World)
        → length (selected cap plan picked errors v).sources ≤ cap
    among [] errors v = omega (arith, h, length-map untitled plan.source_urls)
    among (s ∷ ss) errors v = omega (arith, length-take cap (s ∷ ss))

plan_within :
    (query : String) (cap : ℕ) (d : Option Members)
    → length (research_plan_of query cap d).source_urls ≤ cap
unfolding research_plan_of
plan_within query cap none = omega arith
plan_within query cap (some ms) = omega (arith, length-take cap (planned_urls ms))

-- The source that a note is of.
abbrev pub source_of : SourceNote → Source
source_of note = record { url = note.url; title = note.title }

abbrev pub IsShort : SourceNote → Type 0
IsShort note = count note.text ≤ note_max_chars

count-first_chars : (n : ℕ) (t : String) → count (first_chars n t) ≤ n
unfolding first_chars
count-first_chars zero t = omega arith
count-first_chars (suc n) String.[] = omega arith
count-first_chars (suc n) (String.◌∷◌ c t) =
    omega (arith, count-first_chars n t, length-cons c (first_chars n t))

note_of-IsShort : (s : Source) (answer : Fetched) → IsShort (note_of s answer)
unfolding note_of
note_of-IsShort s (fetch_crashed exc) = count-first_chars note_max_chars _
note_of-IsShort s (fetched ok text) = count-first_chars note_max_chars text

source_of-note_of : (s : Source) (answer : Fetched) → source_of (note_of s answer) ≡ s
unfolding note_of
source_of-note_of s (fetch_crashed exc) = refl
source_of-note_of s (fetched ok text) = refl

module _ {World : Type 0} (fetch : World → String → Fetched × World) where
  gather_sources :
      (i total : ℕ) (ss : List Source) (w : World)
      → (map source_of (gather_from fetch i total ss w).notes ≡ ss)
        × All IsShort (gather_from fetch i total ss w).notes
  unfolding gather_from
  gather_sources i total [] w = (refl, tt)
  gather_sources i total (s ∷ ss) w =
      let answer = fetch w s.url in
      let rest = gather_sources (i + 1) total ss answer.1 in
      (
        ap (λ t. t ∷ map source_of (gather_from fetch (i + 1) total ss answer.1).notes)
              (source_of-note_of s answer.0)
            ∙ ap (λ ts. s ∷ ts) rest.0,
        (note_of-IsShort s answer.0, rest.1),
      )

module _ {World : Type 0} (seams : Seams World) (query prompt : String) where
  -- A run of the pipeline keeps what its report is built on.
  abbrev IsBuiltOn : List SourceNote → Option String → Research World → Type 0
  IsBuiltOn notes reason r = (r.notes ≡ notes) × (r.degrade_reason ≡ reason)

  after_cross_check-IsBuiltOn :
      (chosen : Selected World) (read : Gathered World) (plan : ResearchPlan) (written : Written)
      (w : World) (told : List StageProgress)
      → IsBuiltOn read.notes chosen.degrade_reason
          (after_cross_check seams query prompt chosen read plan written w told)
  unfolding after_cross_check write_report
  after_cross_check-IsBuiltOn chosen read plan (raises exc) w told = (refl, refl)
  after_cross_check-IsBuiltOn chosen read plan (wrote t) w told = (refl, refl)

  -- What a run leaves of the sources of the plan: none where asking for the plan raised, and else at most
  -- `max_sources` notes, short ones, of the sources that `AreFrom` describes.
  abbrev pub AreRead : ResearchPlan → World → Option String → Research World → Type 0
  AreRead plan w (some exc) r = r.notes ≡ []
  AreRead plan w none r =
      (length r.notes ≤ seams.max_sources)
      × All IsShort r.notes
      × AreFrom seams.search seams.max_sources query plan w r.degrade_reason (map source_of r.notes)

  after_plan-AreRead :
      (plan : ResearchPlan) (w : World) (raised : Option String)
      → length plan.source_urls ≤ seams.max_sources
      → AreRead plan w raised (after_plan seams query prompt plan w raised)
  unfolding after_plan select_sources gather
  after_plan-AreRead plan w (some exc) h = refl
  after_plan-AreRead plan w none h =
      let chosen = select_sources seams query plan w in
      let read = gather seams chosen.sources chosen.world in
      let ms = cross_check_messages seams query prompt plan read.notes in
      let (same_notes, same_reason) =
        after_cross_check-IsBuiltOn chosen read plan (text_of (seams.complete read.world ms).0)
          (seams.complete read.world ms).1 (told_until seams query prompt chosen read) in
      let (same_sources, short) =
        gather_sources seams.fetch 0 (length chosen.sources) chosen.sources chosen.world in
      (
        omega (
          arith,
          select_within seams.search seams.max_sources query plan w h,
          ap length same_notes,
          ap length same_sources,
          length-map source_of read.notes,
        ),
        subst (All IsShort) (sym same_notes) short,
        rw (same_reason, same_notes, same_sources)
            (select-AreFrom seams.search seams.max_sources query plan w),
      )

  -- A run whose request for a plan raises reads nothing. Any other reads at most `max_sources` sources, and
  -- keeps at most 8,000 characters of each. Without a search provider they are the URLs of the plan. With
  -- one, its searches decide: the sources that they found, in their order, less those without a URL and with
  -- each URL once, of which the first `max_sources` are read; only if nothing that they found has a URL, there
  -- is a reason not to use the search, and the sources are the URLs of the plan.
  pub run_research_sources :
      (w : World)
      → let (plan, v) = plan_research seams query prompt w in
        AreRead plan v
          (ask_research_plan seams query prompt w).raises
          (run_research seams query prompt w)
  unfolding run_research plan_research
  run_research_sources w =
      let planned = plan_research seams query prompt w in
      after_plan-AreRead planned.0 planned.1 (ask_research_plan seams query prompt w).raises
        (plan_within query seams.max_sources _)
