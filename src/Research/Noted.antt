-- ===== src/Research/Noted.antt =====
-- The report of a run whose slot answers, whatever its searches and fetches come to
-- (src/suiban/research/engine.py).
use Prim.Native.String.{◌++◌ as append}
use suiban.Prelude.{◌≡◌, false, Option, none, some, String}
use suiban.Agent.Types.{Counted, counted, uncountable}
use suiban.Agent.Structured.{Content, missing, unusable, content_text, Reply, failed, responded}
use suiban.Agent.Settles.{Says}
use suiban.Ultra.Contained.{is_blank}
use suiban.Research.{ResearchPlan, Seams, degrade_note}
use suiban.Research.Engine.{
  Written, wrote, text_of, report_messages, Research, cross_check_messages,
}

-- An answer with a text that is not blank, whose tokens can be counted.
abbrev AnswersIn : Content → Counted → Type 0
AnswersIn c (uncountable u exc) = ⊥
AnswersIn missing (counted u) = ⊥
AnswersIn (unusable exc) (counted u) = ⊥
AnswersIn (content_text t) (counted u) = is_blank t ≡ false

abbrev pub Answers : Reply → Type 0
Answers (failed exc) = ⊥
Answers (responded r) = AnswersIn r.content r.usage

-- An answer with the text `t`, which is not blank.
abbrev Spoken : String → Reply → Type 0
Spoken t reply = (is_blank t ≡ false) × (Says t reply × (text_of reply ≡ wrote t))

-- The outcome that is the report `body`, under a note if there is a reason for one.
abbrev pub Heads : String → Option String → String → Written → Type 0
Heads provider none body outcome = outcome ≡ wrote body
Heads provider (some reason) body outcome =
    outcome ≡ wrote (append (degrade_note provider reason) body)

module _ {World : Type 0} (seams : Seams World) (query prompt : String) where
  -- What a run made: the slot wrote a cross-check of the plan and the notes of the run, and after it, asked
  -- for the report of these, a text that is not blank. That text is the report, under a note if there is a
  -- reason for one.
  abbrev pub IsReported : ResearchPlan → Research World → Type 0
  IsReported plan r =
      (u : World) × ((cross_check : String) × ((body : String) × (Says cross_check
              (seams.complete u (cross_check_messages seams query prompt plan r.notes)).0
            × (Says body
                  (seams.complete
                    (seams.complete u (cross_check_messages seams query prompt plan r.notes)).1
                    (report_messages seams query prompt plan r.notes cross_check)).0
                × ((is_blank body ≡ false)
                    × Heads seams.search_provider r.degrade_reason body r.outcome)))))
