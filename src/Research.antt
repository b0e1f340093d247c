-- ===== src/Research.antt =====
-- The deep-research pipeline (src/suiban/research/engine.py): its data, its seams, and its texts. `World` is
-- the state of what is outside: the slot, the fetcher and the search provider.
use Prim.Native.String.{◌++◌ as append}
use suiban.Prelude.{
  ℕ, ◌+◌, Bool, true, false, not, Option, none, some, List, [], ◌∷◌, String, length, take, keep,
  map, if◌then◌else◌,
}
use text.Mathlib.Text.{◌==◌ as str_eq}
use suiban.Json.{Value, Members, lookup}
use suiban.Json.Schema.{object, array, Schema, plain, property, no_property}
use suiban.Agent.Text.{str, concat, first_chars}
use suiban.Agent.Structured.{Decoded, Mismatch, Reply}
use suiban.Memory.Compression.{Message}
use suiban.Slap.Shapes.{any_rules, some_text, list_of}
use suiban.Ultra.Plan.{items_at, text_in, text_at, text_or_empty, joined}
use suiban.Ultra.Contained.{is_blank}
pub mod Sources
pub mod Engine
mod Climb
mod Distinct
mod Chosen
mod Noted
mod Tests

-- STAGE_PLAN, STAGE_COLLECT, STAGE_CROSSCHECK, STAGE_WRITE
pub data ResearchStage : Type 0 where
  planning_queries collecting_sources cross_checking writing_report : ResearchStage

-- A call of the progress seam.
pub record StageProgress : Type 0 where
  pub stage : ResearchStage
  pub percent : ℕ

abbrev pub at : ResearchStage → ℕ → StageProgress
at stage percent = record { stage = stage; percent = percent }

abbrev pub max_search_queries : ℕ
max_search_queries = 3

abbrev pub results_per_query : ℕ
results_per_query = 4

abbrev pub note_max_chars : ℕ
note_max_chars = 8000

pub record SourceNote : Type 0 where
  pub url : String
  pub ok : Bool
  pub text : String
  pub title : String

pub record ResearchPlan : Type 0 where
  pub subquestions : List String
  pub source_urls : List String

-- A (url, title) pair. So is a search result, as far as it is read.
pub record Source : Type 0 where
  pub url : String
  pub title : String

pub data Searched : Type 0 where
  search_failed : String → Searched
  results : List Source → Searched

pub data Fetched : Type 0 where
  -- The `repr` of the exception.
  fetch_crashed : String → Fetched
  fetched : Bool → String → Fetched

-- What an engine is made with. `complete` answers, or raises what a structured completion catches.
pub record Seams (World : Type 0) : Type 0 where
  pub complete : World → List Message → Reply × World
  pub loads : String → Decoded
  pub mismatch_text : Mismatch → String
  pub fetch : World → String → Fetched × World
  pub search : Option (World → String → ℕ → Searched × World)
  pub search_provider : String
  pub max_sources : ℕ

abbrev pub research_plan_schema : Schema
research_plan_schema =
    plain
      (record any_rules {
        expected = some object;
        required = "subquestions" ∷ "sources" ∷ [];
        closed = true;
      })
      (property "subquestions" (list_of some_text) (
        property "sources"
          (list_of (
            plain
              (record any_rules { expected = some object; required = "url" ∷ []; closed = true })
              (property "url" some_text no_property)))
          no_property))

-- `[q for q in questions if q.strip()] or [query]`
unfoldable pub or_query : String → List String → List String
or_query query [] = query ∷ []
or_query query (q ∷ qs) = q ∷ qs

abbrev pub questions_in : List String → List String
questions_in qs = keep (λ q. not (is_blank q)) qs

abbrev pub planned_questions : Members → List String
planned_questions ms =
    map (λ v. text_or_empty (text_in (some v))) (items_at (lookup "subquestions" ms))

abbrev pub planned_urls : Members → List String
planned_urls ms = map (λ v. text_or_empty (text_at "url" v)) (items_at (lookup "sources" ms))

-- The plan that the orchestrator's answer comes to.
unfoldable pub research_plan_of : String → ℕ → Option Members → ResearchPlan
unfolding or_query
research_plan_of query cap none = record { subquestions = query ∷ []; source_urls = [] }
research_plan_of query cap (some ms) = record {
  subquestions = or_query query (questions_in (planned_questions ms));
  source_urls = take cap (planned_urls ms);
}

abbrev pub untitled : String → Source
untitled url = record { url = url; title = "" }

-- `sep.join(ts)`
unfoldable pub joined_by : String → List String → String
joined_by sep [] = ""
joined_by sep (t ∷ []) = t
joined_by sep (t ∷ u ∷ ts) = append t (append sep (joined_by sep (u ∷ ts)))

-- `_degrade_note`
unfoldable pub degrade_note : String → String → String
degrade_note provider reason = concat (
    "> **Note:** web search"
    ∷ (if str_eq provider "" then "" else concat (" (" ∷ provider ∷ ")" ∷ []))
    ∷ " was unavailable for this run: "
    ∷ reason
    ∷ ". Sources fell back to model-proposed URLs, which biases coverage toward well-known sources.\n\n"
    ∷ [])

unfoldable pub digest_of : ℕ → SourceNote → String
digest_of i note = concat (
    "--- Source "
    ∷ str i
    ∷ " ["
    ∷ (if note.ok then "retrieved" else "UNAVAILABLE")
    ∷ "] "
    ∷ note.url
    ∷ (if str_eq note.title "" then "" else concat (" (" ∷ note.title ∷ ")" ∷ []))
    ∷ "\n"
    ∷ (if note.ok
        then note.text
        else concat ("(not readable: " ∷ first_chars 200 note.text ∷ ")" ∷ []))
    ∷ [])

unfoldable pub digests_from : ℕ → List SourceNote → List String
unfolding digest_of
digests_from i [] = []
digests_from i (note ∷ notes) = digest_of i note ∷ digests_from (i + 1) notes

-- `_notes_digest`
unfoldable pub notes_digest : List SourceNote → String
unfolding joined digests_from
notes_digest [] = "(no sources were planned)"
notes_digest (note ∷ notes) = joined (digests_from 1 (note ∷ notes))

unfoldable pub coverage_of : List SourceNote → String
coverage_of [] = "No sources could be planned or retrieved for this run."
coverage_of (note ∷ notes) = concat (
    str (length (keep (λ (n : SourceNote). n.ok) (note ∷ notes)))
    ∷ " of "
    ∷ str (length (note ∷ notes))
    ∷ " planned sources were retrieved."
    ∷ [])
