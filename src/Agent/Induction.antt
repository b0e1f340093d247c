-- ===== src/Agent/Induction.antt =====
-- One rule for what a whole run of the loop keeps (src/suiban/agent/loop.py).
use suiban.Prelude.{zero, suc, ℕ, Option, some, List, [], ◌∷◌, ◌++◌, String}
use suiban.Agent.Types.{
  Usage, Call, ModelMessage, Outcome, raised, answered, Counted, counted, uncountable, Choice,
  no_message, no_choice, bad_message, chosen, assistant, system, Environment, LoopState,
}
use suiban.Agent.Calls.{Progress, accumulate_usage, run_call, run_calls}
use suiban.Agent.Loop.{
  abort, answer, after_calls, on_message, on_choice, on_outcome, wrap_up, ceiling, rounds, before,
  sending, crash, on_counted, last_answer, wrap_up_choice, wrap_up_counted,
}

module _ {World Args : Type 0} (env : Environment World Args) (P : LoopState Args → Type 0) where
  -- `P` does not look at what these stretches change.
  pub record IsKept : Type 0 where
    pub on_usage : (s : LoopState Args) (u : Usage) → P s → P (accumulate_usage env s u)
    pub on_assistant :
        (s : LoopState Args) (content : String) (calls : List (Call Args))
        → P s
        → P (record s { messages = s.messages ++ assistant content calls ∷ [] })
    pub on_system :
        (s : LoopState Args) (content : String)
        → P s
        → P (record s { messages = s.messages ++ system content ∷ [] })
    pub on_end :
        (s : LoopState Args) (final reason : String)
        → P s
        → P (record s { final_text = final; finish_reason = reason })
    pub on_abort :
        (s : LoopState Args) (message : String)
        → P s
        → P (record s { error_message = some message; finish_reason = "error" })
    pub on_call :
        (s : LoopState Args) (w : World) (c : Call Args) → P s → P (run_call env s w c).state

  module _ (keeps : IsKept) where
    pub run_calls_keeps :
        (calls : List (Call Args)) (s : LoopState Args) (w : World)
        → P s
        → P (run_calls env s w calls).state
    unfolding run_calls
    run_calls_keeps [] s w p = p
    run_calls_keeps (c ∷ calls) s w p =
        run_calls_keeps calls (run_call env s w c).state (run_call env s w c).world
          (keeps.on_call s w c p)

    module _ (continue : LoopState Args → World → Progress World Args)
        (goes_on : (s : LoopState Args) (w : World) → P s → P (continue s w).state) where
      on_message_keeps :
          (s : LoopState Args) (w : World) (reason : Option String) (m : ModelMessage Args)
          (calls : List (Call Args))
          → P s
          → P (on_message env continue s w reason m calls).state
      unfolding on_message answer after_calls before
      on_message_keeps s w reason m [] p = keeps.on_end s _ _ p
      on_message_keeps s w reason m (c ∷ calls) p =
          goes_on _ _
            (run_calls_keeps (c ∷ calls) _ w (keeps.on_assistant s m.content (c ∷ calls) p))

      on_choice_keeps :
          (s : LoopState Args) (w : World) (reason : Option String) (m : Choice Args)
          → P s
          → P (on_choice env continue s w reason m).state
      unfolding on_choice abort crash
      on_choice_keeps s w reason no_message p = keeps.on_abort s _ p
      on_choice_keeps s w reason (no_choice exc) p = keeps.on_abort s _ p
      on_choice_keeps s w reason (bad_message exc) p = p
      on_choice_keeps s w reason (chosen m) p = on_message_keeps s w reason m m.tool_calls p

      on_counted_keeps :
          (s : LoopState Args) (w : World) (reason : Option String) (m : Choice Args) (u : Counted)
          → P s
          → P (on_counted env continue s w reason m u).state
      unfolding on_counted before crash
      on_counted_keeps s w reason m (counted u) p =
          on_choice_keeps _ w reason m (keeps.on_usage s u p)
      on_counted_keeps s w reason m (uncountable u exc) p = keeps.on_usage s u p

      on_outcome_keeps :
          (s : LoopState Args) (w : World) (o : Outcome Args)
          → P s
          → P (on_outcome env continue s w o).state
      unfolding on_outcome abort
      on_outcome_keeps s w (raised e) p = keeps.on_abort s _ p
      on_outcome_keeps s w (answered r) p = on_counted_keeps s w r.finish_reason r.message r.usage p

    wrap_up_choice_keeps :
        (s : LoopState Args) (w : World) (m : Choice Args)
        → P s
        → P (wrap_up_choice env s w m).state
    unfolding wrap_up_choice last_answer crash
    wrap_up_choice_keeps s w no_message p = keeps.on_end s _ _ p
    wrap_up_choice_keeps s w (no_choice exc) p = p
    wrap_up_choice_keeps s w (bad_message exc) p = p
    wrap_up_choice_keeps s w (chosen m) p = keeps.on_end s _ _ p

    wrap_up_counted_keeps :
        (s : LoopState Args) (w : World) (m : Choice Args) (u : Counted)
        → P s
        → P (wrap_up_counted env s w m u).state
    unfolding wrap_up_counted crash
    wrap_up_counted_keeps s w m (counted u) p = wrap_up_choice_keeps _ w m (keeps.on_usage s u p)
    wrap_up_counted_keeps s w m (uncountable u exc) p = keeps.on_usage s u p

    wrap_up_keeps :
        (s : LoopState Args) (w : World) (o : Outcome Args) → P s → P (wrap_up env s w o).state
    unfolding wrap_up abort
    wrap_up_keeps s w (raised e) p = keeps.on_abort s _ p
    wrap_up_keeps s w (answered r) p = wrap_up_counted_keeps s w r.message r.usage p

    pub rounds_keeps : (n : ℕ) (s : LoopState Args) (w : World) → P s → P (rounds env n s w).state
    unfolding rounds ceiling sending before
    rounds_keeps zero s w p = wrap_up_keeps _ _ _ (keeps.on_system s _ p)
    rounds_keeps (suc n) s w p = on_outcome_keeps (λ s w. rounds env n s w) (rounds_keeps n) s _ _ p
