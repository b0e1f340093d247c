-- ===== src/Research/Tests.antt =====
-- A run of the pipeline whose first search fails and whose second finds a page twice, and one whose
-- searches all fail (src/suiban/research/engine.py).
use suiban.Prelude.{ℕ, suc, ◌≡◌, refl, true, some, List, [], ◌∷◌, String, All, if◌then◌else◌}
use text.Mathlib.Text.{◌==◌ as str_eq}
use suiban.Json.{obj, arr, str, member, no_member, element, no_element}
use suiban.Agent.Calls.{no_usage}
use suiban.Agent.Types.{counted}
use suiban.Agent.Structured.{Decoded, decoded, Reply, responded, content_text}
use suiban.Memory.Compression.{Message}
use suiban.Sched.Budget.Rounding.{round_div}
use suiban.Research.{Source, Searched, search_failed, results, Fetched, fetched, Seams}
use suiban.Research.Sources.{gather_percent, pick_all, pick_one, distinct}
use suiban.Research.Engine.{ask_research_plan, plan_research, run_research}
use suiban.Research.Climb.{InSpan, Ended, run_research_climbs}
use suiban.Research.Chosen.{AreRead, run_research_sources}

abbrev loads_plan : String → Decoded
loads_plan t = decoded (
    obj (
      member "subquestions" (arr (element (str "what?") (element (str "why?") no_element))) (
        member "sources" (arr (element (obj (member "url" (str "http://a") no_member)) no_element))
          no_member)))

abbrev slot : ℕ → List Message → Reply × ℕ
slot w messages =
    (responded (record { usage = counted no_usage; content = content_text "a text" }), suc w)

abbrev page : Source
page = record { url = "http://b"; title = "B" }

abbrev search_page : ℕ → String → ℕ → Searched × ℕ
search_page w query n =
    (if str_eq query "what?" then search_failed "timed out" else results (page ∷ page ∷ []), suc w)

abbrev fetch_page : ℕ → String → Fetched × ℕ
fetch_page w url = (fetched true "a page", suc w)

abbrev connected : Seams ℕ
connected = record {
  complete = slot;
  loads = loads_plan;
  mismatch_text = λ m. "wrong";
  fetch = fetch_page;
  search = some search_page;
  search_provider = "web";
  max_sources = 6;
}

run_research_climbs_example :
    let r = run_research connected "q" "prompt" 0 in All InSpan r.told × Ended r.outcome r.told
run_research_climbs_example = run_research_climbs connected "q" "prompt" 0

run_research_sources_example :
    let (plan, v) = plan_research connected "q" "prompt" 0 in
    AreRead connected "q" "prompt" plan v
      (ask_research_plan connected "q" "prompt" 0).raises
      (run_research connected "q" "prompt" 0)
run_research_sources_example = run_research_sources connected "q" "prompt" 0

-- Ties go to the even neighbour: 22.5 is 22.
half_way : (gather_percent 1 2 ≡ 32) × (gather_percent 3 4 ≡ 44)
unfolding gather_percent round_div
half_way = (refl, refl)

picked_once : pick_all [] (page ∷ page ∷ []) ≡ page ∷ []
unfolding pick_all pick_one
picked_once = refl

errors_once : distinct ("a" ∷ "b" ∷ "a" ∷ []) ≡ "a" ∷ "b" ∷ []
unfolding distinct
errors_once = refl
