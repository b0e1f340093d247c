-- ===== src/Research/Engine.antt =====
-- The stages of the pipeline (src/suiban/research/engine.py), and the pipeline.
use Prim.Native.String.{◌++◌ as append}
use suiban.Prelude.{Option, none, some, List, [], ◌∷◌, ◌++◌, String, if◌then◌else◌}
use text.Mathlib.Text.{◌==◌ as str_eq}
use suiban.Agent.Text.{str, concat}
use suiban.Agent.Structured.{
  Exchange, Content, missing, unusable, content_text, Reply, failed, responded,
  structured_repair_attempts, request_structured,
}
use suiban.Memory.Compression.{Message}
use suiban.Ultra.Plan.{said}
use suiban.Ultra.Contained.{is_blank}
use suiban.Research.{
  StageProgress, at, planning_queries, cross_checking, writing_report, SourceNote, ResearchPlan,
  Seams, research_plan_schema, research_plan_of, joined_by, degrade_note, notes_digest, coverage_of,
}
use suiban.Research.Sources.{Selected, Gathered, select_sources, gather}

-- How a text or a run comes out: what it made, or the exception that it raises.
pub data Written : Type 0 where
  raises : String → Written
  wrote : String → Written

-- What a run leaves: its outcome, what was told of it, the sources that were read, and why web search was
-- not used.
pub record Research (World : Type 0) : Type 0 where
  pub outcome : Written
  pub told : List StageProgress
  pub notes : List SourceNote
  pub degrade_reason : Option String
  pub world : World

-- `_text_completion`, which reads no token counts
unfoldable pub text_of_content : Content → Written
text_of_content missing = wrote ""
text_of_content (unusable exc) = raises exc
text_of_content (content_text t) = wrote t

unfoldable pub text_of : Reply → Written
unfolding text_of_content
text_of (failed exc) = raises exc
text_of (responded r) = text_of_content r.content

-- The end of `_write_report`.
unfoldable pub report_of_text : Written → Written
report_of_text (raises exc) = raises exc
report_of_text (wrote t) =
    if is_blank t then raises "report synthesis produced no text" else wrote t

-- The report, under the note that says why search was not used.
unfoldable pub headed : String → Option String → Written → Written
unfolding degrade_note
headed provider none written = written
headed provider (some reason) (raises exc) = raises exc
headed provider (some reason) (wrote t) = wrote (append (degrade_note provider reason) t)

-- What is told after the report: nothing where it raises.
abbrev pub told_of_report : Written → List StageProgress
told_of_report (raises exc) = []
told_of_report (wrote t) = at writing_report 100 ∷ []

module _ {World : Type 0} (seams : Seams World) (query prompt : String) where
  unfoldable pub research_plan_messages : List Message
  research_plan_messages =
      said "system" prompt
      ∷ said "user" (
          concat (
            "Research question: "
            ∷ query
            ∷ "\n\nStage 1 (Scope) + start of Stage 2: list the sub-questions the report must resolve, and the concrete source URLs (primary sources preferred) to fetch and read. Only URLs you can defend as likely relevant; at most "
            ∷ str seams.max_sources
            ∷ "."
            ∷ []))
      ∷ []

  unfoldable pub ask_research_plan : World → Exchange World Message
  unfolding research_plan_messages
  ask_research_plan w =
      request_structured seams.complete seams.loads said seams.mismatch_text research_plan_schema
        "research_plan" structured_repair_attempts research_plan_messages w

  -- `_plan`, where its completion does not raise
  unfoldable pub plan_research : World → ResearchPlan × World
  unfolding ask_research_plan research_plan_of
  plan_research w =
      let asked = ask_research_plan w in
      (research_plan_of query seams.max_sources asked.result.instance_data, asked.world)

  unfoldable pub cross_check_messages : ResearchPlan → List SourceNote → List Message
  unfolding joined_by notes_digest
  cross_check_messages plan notes =
      said "system" prompt
      ∷ said "user" (
          concat (
            "Research question: "
            ∷ query
            ∷ "\nSub-questions: "
            ∷ joined_by "; " plan.subquestions
            ∷ "\n\nStage 3 (Cross-check). Source material follows. Sort the load-bearing claims into corroborated / disputed / single-source / unverifiable, and note the strongest counter-evidence you can find in the material. This analysis is internal working state.\n\n"
            ∷ notes_digest notes
            ∷ []))
      ∷ []

  unfoldable pub report_messages : ResearchPlan → List SourceNote → String → List Message
  unfolding joined_by notes_digest coverage_of
  report_messages plan notes cross_check =
      said "system" prompt
      ∷ said "user" (
          concat (
            "Research question: "
            ∷ query
            ∷ "\nSub-questions: "
            ∷ joined_by "; " plan.subquestions
            ∷ "\nSource coverage: "
            ∷ coverage_of notes
            ∷ "\n\nStage 4 (Synthesize). Write the final markdown report per your instructions: answer first, body by sub-question with inline citations to the sources below, then a limitations section. Be explicit about anything single-source or unverifiable; if source coverage is thin, say so plainly instead of padding.\n\n## Source material\n"
            ∷ notes_digest notes
            ∷ "\n\n## Cross-check analysis (internal)\n"
            ∷ (if str_eq cross_check "" then "(unavailable)" else cross_check)
            ∷ []))
      ∷ []

  -- `_write_report`, and what is left of `run` after it.
  unfoldable pub write_report :
      Selected World
      → Gathered World
      → ResearchPlan
      → String
      → World
      → List StageProgress
      → Research World
  unfolding text_of report_of_text headed report_messages
  write_report chosen read plan cross_check w told =
      let (reply, w') = seams.complete w (report_messages plan read.notes cross_check) in
      let written = report_of_text (text_of reply) in
      record {
        outcome = headed seams.search_provider chosen.degrade_reason written;
        told = told ++ told_of_report written;
        notes = read.notes;
        degrade_reason = chosen.degrade_reason;
        world = w';
      }

  -- What follows the cross-check, which may raise.
  unfoldable pub after_cross_check :
      Selected World
      → Gathered World
      → ResearchPlan
      → Written
      → World
      → List StageProgress
      → Research World
  unfolding write_report
  after_cross_check chosen read plan (raises exc) w told = record {
    outcome = raises exc;
    told = told;
    notes = read.notes;
    degrade_reason = chosen.degrade_reason;
    world = w;
  }
  after_cross_check chosen read plan (wrote cross_check) w told =
      write_report chosen read plan cross_check w
        (told ++ at cross_checking 80 ∷ at writing_report 85 ∷ [])

  -- What is told up to the cross-check.
  abbrev pub told_until : Selected World → Gathered World → List StageProgress
  told_until chosen read =
      at planning_queries 2
      ∷ at planning_queries 10
      ∷ (chosen.told ++ (read.told ++ at cross_checking 60 ∷ []))

  -- `run`, after its plan, which may raise.
  unfoldable pub after_plan : ResearchPlan → World → Option String → Research World
  unfolding select_sources gather text_of after_cross_check cross_check_messages
  after_plan plan w (some exc) = record {
    outcome = raises exc;
    told = at planning_queries 2 ∷ [];
    notes = [];
    degrade_reason = none;
    world = w;
  }
  after_plan plan w none =
      let chosen = select_sources seams query plan w in
      let read = gather seams chosen.sources chosen.world in
      let (reply, w2) = seams.complete read.world (cross_check_messages plan read.notes) in
      after_cross_check chosen read plan (text_of reply) w2 (told_until chosen read)

  -- `run`
  unfoldable pub run_research : World → Research World
  unfolding ask_research_plan plan_research after_plan
  run_research w =
      let (plan, w1) = plan_research w in after_plan plan w1 (ask_research_plan w).raises
