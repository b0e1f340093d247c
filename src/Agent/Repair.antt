-- ===== src/Agent/Repair.antt =====
-- The per-run repair budget of src/suiban/agent/loop.py.
use suiban.Prelude.{
  ℕ, ◌+◌, ◌-◌, ◌≤◌, ◌<◌, ◌≡◌, true, List, [], ◌∷◌, String, arith, length, ltb, length_snoc,
  Bool-cases, inl, inr,
}
use suiban.Agent.Types.{Message, Environment, LoopState, ToolStats}
use suiban.Agent.Calls.{
  contains, add, discard, fresh, accumulate_usage, count_call, append_tool_message, repair_call,
  abandon_call, execute_call, dispatch_call, run_call,
}
use suiban.Agent.Loop.{run}
use suiban.Agent.Induction.{IsKept, rounds_keeps}

length-discard : (name : String) (names : List String) → length (discard name names) ≤ length names
length-discard name [] = omega arith
length-discard name (n ∷ names) = ground (arith, length-discard name names)

length-discard_of_contains :
    (name : String) (names : List String)
    → contains name names ≡ true
    → length (discard name names) < length names
length-discard_of_contains name [] h = cc
length-discard_of_contains name (n ∷ names) h =
    ground (arith, length-discard name names, length-discard_of_contains name names)

length-add : (name : String) (names : List String) → length (add name names) ≤ length names + 1
length-add name names = ground arith

-- The counters at a point of a run, with the number of tool messages. The first two malformed calls are
-- answered by a repair prompt, every later one is abandoned; a repair takes a prompt that is pending.
pub record Counts (stats : ToolStats) (left pending replies : ℕ) : Type 0 where
  pub budget : left ≡ 2 - stats.malformed_calls
  pub abandoned : stats.abandoned_calls ≡ stats.malformed_calls - 2
  pub repaired : stats.repaired_calls + pending + left ≤ 2
  pub malformed : stats.malformed_calls ≤ stats.tool_calls
  pub answered : replies ≡ stats.tool_calls

abbrev pub IsBalanced : {Args : Type 0} → LoopState Args → Type 0
IsBalanced s =
    Counts s.tool_stats s.repair_budget_left (length s.pending_repairs) (length s.tool_messages)

module _ {World Args : Type 0} (env : Environment World Args) where
  dispatch-IsBalanced :
      (s : LoopState Args) (w : World) (id name : String) (args : Args) (errors : List String)
      → IsBalanced s
      → IsBalanced (dispatch_call env (count_call env s) w id name args errors).state
  unfolding dispatch_call count_call execute_call repair_call abandon_call append_tool_message
  dispatch-IsBalanced s w id name args [] b = elim (Bool-cases (contains name s.pending_repairs)) [
    | inl pending ↦
        rw (pending, length_snoc s.tool_messages)
          (ground (arith, length-discard_of_contains name s.pending_repairs pending))
    | inr settled ↦ rw (settled, length_snoc s.tool_messages) (ground arith)
  ]
  dispatch-IsBalanced s w id name args (e ∷ errors) b =
      elim (Bool-cases (ltb 0 s.repair_budget_left)) [
        | inl left ↦
            rw (left, length_snoc s.tool_messages)
              (ground (arith, length-add name s.pending_repairs))
        | inr spent ↦
            rw (spent, length_snoc s.tool_messages)
              (ground (arith, length-discard name s.pending_repairs))
      ]

  IsBalanced-IsKept : IsKept env (λ s. IsBalanced s)
  unfolding accumulate_usage run_call
  IsBalanced-IsKept = record {
    on_usage = λ s u b. b;
    on_assistant = λ s content calls b. b;
    on_system = λ s content b. b;
    on_end = λ s final reason b. b;
    on_abort = λ s message b. b;
    on_call = λ s w c b. dispatch-IsBalanced s w _ c.name _ _ b;
  }

  -- A whole run keeps its counts: at its end the repair budget is 2 less the malformed calls, exactly
  -- the malformed calls after the second were abandoned, repaired calls are at most the prompts used,
  -- malformed calls are at most the calls, and every call has its one tool message.
  pub run-IsBalanced :
      (messages : List (Message Args)) (w : World) → IsBalanced (run env messages w).state
  unfolding run fresh
  run-IsBalanced messages w =
      rounds_keeps env (λ s. IsBalanced s) IsBalanced-IsKept env.max_iterations _ w (ground arith)
