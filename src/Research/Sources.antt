-- ===== src/Research/Sources.antt =====
-- The sources of a report (`_select_sources` and `_gather` of src/suiban/research/engine.py).
use suiban.Prelude.{
  ℕ, ◌+◌, ◌*◌, Bool, false, not, Option, none, some, List, [], ◌∷◌, ◌++◌, String, length, take,
  keep, map, any, max, if◌then◌else◌,
}
use text.Mathlib.Text.{◌==◌ as str_eq}
use suiban.Agent.Text.{concat, first_chars}
use suiban.Sched.Budget.Rounding.{round_div}
use suiban.Research.{
  StageProgress, at, collecting_sources, max_search_queries, results_per_query, note_max_chars,
  SourceNote, ResearchPlan, Source, Searched, search_failed, results, Fetched, fetched,
  fetch_crashed, Seams, or_query, questions_in, untitled, joined_by,
}

-- Whether a URL is among the sources.
abbrev pub has_url : String → List Source → Bool
has_url url sources = any (λ (s : Source). str_eq s.url url) sources

-- One result of a search: it is picked if it has a URL that no other has yet.
unfoldable pub pick_one : List Source → Source → List Source
pick_one picked s =
    if str_eq s.url "" then picked else if has_url s.url picked then picked else picked ++ s ∷ []

unfoldable pub pick_all : List Source → List Source → List Source
unfolding pick_one
pick_all picked [] = picked
pick_all picked (s ∷ ss) = pick_all (pick_one picked s) ss

-- `dict.fromkeys`
unfoldable pub distinct : List String → List String
distinct [] = []
distinct (t ∷ ts) = t ∷ keep (λ u. not (str_eq u t)) (distinct ts)

-- What the searches came to so far.
pub record Searches (World : Type 0) : Type 0 where
  pub picked : List Source
  pub errors : List String
  pub world : World

unfoldable pub note_searched : {World : Type 0} → Searches World → Searched → World → Searches World
unfolding pick_all
note_searched s (search_failed exc) w = record {
  picked = s.picked;
  errors = s.errors ++ exc ∷ [];
  world = w;
}
note_searched s (results found) w = record {
  picked = pick_all s.picked found;
  errors = s.errors;
  world = w;
}

unfoldable pub search_each :
    {World : Type 0}
    → (World → String → ℕ → Searched × World)
    → List String
    → Searches World
    → Searches World
unfolding note_searched
search_each search [] s = s
search_each search (q ∷ qs) s =
    let (answer, w) = search s.world q results_per_query in
    search_each search qs (note_searched s answer w)

-- The sources, why search could not be used, and what was told.
pub record Selected (World : Type 0) : Type 0 where
  pub sources : List Source
  pub degrade_reason : Option String
  pub told : List StageProgress
  pub world : World

unfoldable pub degrade_reason_of : List String → String
unfolding distinct joined_by
degrade_reason_of errors =
    let reason = joined_by "; " (distinct errors) in
    if str_eq reason "" then "search returned no results" else reason

unfoldable pub selected :
    {World : Type 0} → ℕ → ResearchPlan → List Source → List String → World → Selected World
unfolding degrade_reason_of
selected cap plan [] errors w = record {
  sources = map untitled plan.source_urls;
  degrade_reason = some (degrade_reason_of errors);
  told = at collecting_sources 10 ∷ [];
  world = w;
}
selected cap plan (s ∷ ss) errors w = record {
  sources = take cap (s ∷ ss);
  degrade_reason = none;
  told = at collecting_sources 10 ∷ [];
  world = w;
}

abbrev pub queries_of : String → ResearchPlan → List String
queries_of query plan = or_query query (take max_search_queries (questions_in plan.subquestions))

unfoldable pub select_sources_with :
    {World : Type 0}
    → Option (World → String → ℕ → Searched × World)
    → ℕ
    → String
    → ResearchPlan
    → World
    → Selected World
unfolding search_each selected
select_sources_with none cap query plan w = record {
  sources = map untitled plan.source_urls;
  degrade_reason = none;
  told = [];
  world = w;
}
select_sources_with (some search) cap query plan w =
    let found =
      search_each search (queries_of query plan) (record { picked = []; errors = []; world = w }) in
    selected cap plan found.picked found.errors found.world

unfoldable pub note_of : Source → Fetched → SourceNote
note_of s (fetch_crashed exc) = record {
  url = s.url;
  ok = false;
  text = first_chars note_max_chars (concat ("fetch crashed: " ∷ exc ∷ []));
  title = s.title;
}
note_of s (fetched ok text) = record {
  url = s.url;
  ok = ok;
  text = first_chars note_max_chars text;
  title = s.title;
}

pub record Gathered (World : Type 0) : Type 0 where
  pub notes : List SourceNote
  pub told : List StageProgress
  pub world : World

-- `10 + round(45 * i / max(total, 1))`
unfoldable pub gather_percent : ℕ → ℕ → ℕ
unfolding round_div
gather_percent i total = 10 + round_div (45 * i) (max total 1)

-- The loop over the sources, from the `i`-th on.
unfoldable pub gather_from :
    {World : Type 0}
    → (World → String → Fetched × World)
    → (i total : ℕ) → List Source
    → World
    → Gathered World
unfolding note_of gather_percent
gather_from fetch i total [] w = record {
  notes = [];
  told = at collecting_sources 55 ∷ [];
  world = w;
}
gather_from fetch i total (s ∷ ss) w =
    let (answer, w') = fetch w s.url in
    let rest = gather_from fetch (i + 1) total ss w' in
    record {
      notes = note_of s answer ∷ rest.notes;
      told = at collecting_sources (gather_percent i total) ∷ rest.told;
      world = rest.world;
    }

module _ {World : Type 0} (seams : Seams World) where
  -- `_select_sources`
  unfoldable pub select_sources : String → ResearchPlan → World → Selected World
  unfolding select_sources_with
  select_sources query plan w = select_sources_with seams.search seams.max_sources query plan w

  -- `_gather`
  unfoldable pub gather : List Source → World → Gathered World
  unfolding gather_from
  gather sources w = gather_from seams.fetch 0 (length sources) sources w
