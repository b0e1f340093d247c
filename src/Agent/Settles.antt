-- ===== src/Agent/Settles.antt =====
-- What a structured completion comes to (src/suiban/agent/structured.py).
use suiban.Prelude.{
  ℕ, zero, suc, ◌+◌, ◌≤◌, ◌≡◌, refl, Option, none, some, List, [], ◌∷◌, ◌++◌, String, length, arith,
}
use suiban.Json.{obj, Members}
use suiban.Json.Schema.{Schema, Error}
use suiban.Tools.Arguments.{validate}
use suiban.Agent.Types.{Usage, Counted, counted, uncountable}
use suiban.Agent.Calls.{no_usage}
use suiban.Agent.Structured.{
  Decoded, syntax_error, decoded, Mismatch, not_json, not_a_dict, violates, Instance, accepted,
  refused, checked, instance_of, Content, missing, unusable, content_text, Reply, failed, responded,
  Fault, request_failed, malformed_completion, mismatched, StructuredResult, accumulate, Exchange,
  repair_prompt, on_instance, on_content, on_usage, on_reply, attempts, finished, raising,
  request_structured,
}

module _ (schema : Schema) where
  -- An output that is no JSON, no object, or an object that the schema refuses, and what is wrong with it.
  abbrev pub Refuses : Decoded → Mismatch → Type 0
  Refuses (syntax_error exc) m = m ≡ not_json exc
  Refuses (decoded (obj ms)) (violates e es) = validate (obj ms) schema "$" ≡ e ∷ es
  Refuses (decoded (obj ms)) m = ⊥
  Refuses (decoded v) m = m ≡ not_a_dict v

  -- An output that is an object which the schema accepts.
  abbrev pub Takes : Decoded → Members → Type 0
  Takes d ms = (d ≡ decoded (obj ms)) × (validate (obj ms) schema "$" ≡ [])

  abbrev pub IsValid : Option Members → Type 0
  IsValid none = Unit
  IsValid (some ms) = validate (obj ms) schema "$" ≡ []

  Judged : Decoded → Instance → Type 0
  Judged d (accepted ms) = Takes d ms
  Judged d (refused m) = Refuses d m

  checked-Judged :
      (ms : Members) (es : List Error)
      → validate (obj ms) schema "$" ≡ es
      → Judged (decoded (obj ms)) (checked ms es)
  unfolding checked Judged
  checked-Judged ms [] h = (refl, h)
  checked-Judged ms (e ∷ es) h = h

  instance_of-Judged : (d : Decoded) → Judged d (instance_of schema d)
  unfolding instance_of Judged
  instance_of-Judged (syntax_error e) = refl
  instance_of-Judged (decoded (obj ms)) = checked-Judged ms _ refl
  instance_of-Judged (decoded _) = refl

  -- How a call ends on its last output, with `left` repairs left.
  abbrev pub Resolves : ℕ → Decoded → Option Members → Option Fault → Type 0
  Resolves left d (some ms) none = Takes d ms
  Resolves left d none (some (mismatched m)) = Refuses d m × (left ≡ 0)
  Resolves left d _ _ = ⊥

  abbrev pub EndsOn : (String → Decoded) → ℕ → Content → StructuredResult → Option String → Type 0
  EndsOn loads left missing r raises =
      (r.instance_data ≡ none) × ((r.error ≡ some malformed_completion) × (raises ≡ none))
  EndsOn loads left (unusable exc) r raises = (r.instance_data ≡ none) × (raises ≡ some exc)
  EndsOn loads left (content_text t) r raises =
      Resolves left (loads t) r.instance_data r.error × (raises ≡ none)

  abbrev pub EndsCounted :
      (String → Decoded) → ℕ → Content → Counted → StructuredResult → Option String → Type 0
  EndsCounted loads left c (counted u) r raises = EndsOn loads left c r raises
  EndsCounted loads left c (uncountable u exc) r raises =
      (r.instance_data ≡ none) × (raises ≡ some exc)

  -- How a call ends on its last reply.
  abbrev pub Ends : (String → Decoded) → ℕ → Reply → StructuredResult → Option String → Type 0
  Ends loads left (failed exc) r raises =
      (r.instance_data ≡ none) × ((r.error ≡ some (request_failed exc)) × (raises ≡ none))
  Ends loads left (responded c) r raises = EndsCounted loads left c.content c.usage r raises

-- A reply on which reading it raises nothing that is not caught.
abbrev pub IsReadableIn : Content → Counted → Type 0
IsReadableIn c (uncountable u exc) = ⊥
IsReadableIn (unusable exc) (counted u) = ⊥
IsReadableIn c (counted u) = Unit

abbrev pub IsReadable : Reply → Type 0
IsReadable (failed exc) = Unit
IsReadable (responded c) = IsReadableIn c.content c.usage

-- A reply that is the text `t`.
abbrev SaysIn : String → Content → Counted → Type 0
SaysIn t c (counted u) = c ≡ content_text t
SaysIn t c (uncountable u exc) = ⊥

abbrev pub Says : String → Reply → Type 0
Says t (failed exc) = ⊥
Says t (responded c) = SaysIn t c.content c.usage

module _ {World M : Type 0} (complete : World → List M → Reply × World) (loads : String → Decoded)
    (spoken : (role content : String) → M) (text : Mismatch → String) (schema : Schema)
    (schema_name : String) (max_repair_attempts : ℕ) where
  -- The requests from attempt `attempt` on, with `left` repairs left: the first has `messages`. It is the
  -- last, and the call ends on the reply of the slot to it, or the reply is an output that is refused, a
  -- repair is left, and the next request adds that output and the prompt that says why it was refused.
  abbrev pub Dialog :
      ℕ → ℕ → List M → World → List (List M) → StructuredResult → Option String → Type 0
  Dialog attempt left messages w [] r raises = ⊥
  Dialog attempt left messages w (m ∷ []) r raises =
      (m ≡ messages) × Ends schema loads left (complete w messages).0 r raises
  Dialog attempt left messages w (m ∷ n ∷ rest) r raises =
      (m ≡ messages)
      × ((k : ℕ) × ((left ≡ suc k)
            × ((content : String) × ((error : Mismatch) × (Says content (complete w messages).0
                    × (Refuses schema (loads content) error
                        × Dialog (attempt + 1) k
                            (messages
                              ++ spoken "assistant" content
                                ∷ spoken "user" (
                                    repair_prompt complete loads spoken text schema_name attempt
                                      max_repair_attempts error)
                                ∷ [])
                            (complete w messages).1 (n ∷ rest) r raises))))))

  abbrev IsDialog : ℕ → ℕ → List M → World → Exchange World M → Type 0
  IsDialog attempt left ms w e = Dialog attempt left ms w e.sent e.result e.raises

  -- What follows a refused output: nothing where no repair is left, and else the next request.
  abbrev After : ℕ → ℕ → List M → World → Mismatch → Exchange World M → Type 0
  After zero attempt ms w m e =
      (e.sent ≡ [])
      × ((e.result.instance_data ≡ none)
          × ((e.result.error ≡ some (mismatched m)) × (e.raises ≡ none)))
  After (suc k) attempt ms w m e =
      (rest : List (List M)) × ((e.sent ≡ ms ∷ rest)
        × Dialog (attempt + 1) k ms w (ms ∷ rest) e.result e.raises)

  -- The next request of a call, after the output `t`, refused for `m`.
  abbrev repaired : ℕ → List M → String → Mismatch → List M
  repaired attempt ms t m =
      ms
      ++ spoken "assistant" t
        ∷ spoken "user"
            (repair_prompt complete loads spoken text schema_name attempt max_repair_attempts m)
        ∷ []

  refused-Dialog :
      (left attempt : ℕ) (ms : List M) (w : World) (u : Usage) (t : String) (m : Mismatch)
      (e : Exchange World M)
      → (complete w ms).0 ≡ responded (record { usage = counted u; content = content_text t })
      → Refuses schema (loads t) m
      → After left attempt (repaired attempt ms t m) (complete w ms).1 m e
      → Dialog attempt left ms w (ms ∷ e.sent) e.result e.raises
  refused-Dialog zero attempt ms w u t m e said refuses h =
      rw (h.0, said, h.1.0, h.1.1.0, h.1.1.1) (refl, ((refuses, refl), refl))
  refused-Dialog (suc k) attempt ms w u t m e said refuses (rest, (sent, dialog)) =
      rw (sent, said) (refl, (k, (refl, (t, (m, (refl, (refuses, dialog)))))))

  module _ (left attempt : ℕ) (retry : StructuredResult → List M → World → Exchange World M)
      (goes_on : (r : StructuredResult) (ms : List M) (w : World) (m : Mismatch)
        → r.instance_data ≡ none
        → r.error ≡ some (mismatched m)
        → After left attempt ms w m (retry r ms w)) where
    abbrev First : List M → World → Exchange World M → Type 0
    First ms w e = Dialog attempt left ms w (ms ∷ e.sent) e.result e.raises

    instance_Dialog :
        (r : StructuredResult) (ms : List M) (w : World) (u : Usage) (t : String) (i : Instance)
        → (complete w ms).0 ≡ responded (record { usage = counted u; content = content_text t })
        → Judged schema (loads t) i
        → r.instance_data ≡ none
        → First ms w (
            on_instance complete loads spoken text schema schema_name max_repair_attempts retry
              attempt r ms
              (complete w ms).1
              t
              i)
    unfolding on_instance Judged finished
    instance_Dialog r ms w u t (accepted d) said takes h = rw said (refl, (takes, refl))
    instance_Dialog r ms w u t (refused m) said refuses h =
        let next = record r { error = some (mismatched m) } in
        refused-Dialog left attempt ms w u t m
          (retry next (repaired attempt ms t m) (complete w ms).1) said refuses
          (goes_on next (repaired attempt ms t m) (complete w ms).1 m h refl)

    content_Dialog :
        (r : StructuredResult) (ms : List M) (w : World) (u : Usage) (c : Content)
        → (complete w ms).0 ≡ responded (record { usage = counted u; content = c })
        → r.instance_data ≡ none
        → First ms w (
            on_content complete loads spoken text schema schema_name max_repair_attempts retry
              attempt r ms
              (complete w ms).1
              c)
    unfolding on_content finished raising
    content_Dialog r ms w u missing said h = rw (said, h) (refl, (refl, (refl, refl)))
    content_Dialog r ms w u (unusable exc) said h = rw (said, h) (refl, (refl, refl))
    content_Dialog r ms w u (content_text t) said h =
        instance_Dialog r ms w u t (instance_of schema (loads t)) said
          (instance_of-Judged schema (loads t)) h

    usage_Dialog :
        (r : StructuredResult) (ms : List M) (w : World) (c : Content) (u : Counted)
        → (complete w ms).0 ≡ responded (record { usage = u; content = c })
        → r.instance_data ≡ none
        → First ms w (
            on_usage complete loads spoken text schema schema_name max_repair_attempts retry attempt
              r ms
              (complete w ms).1
              c
              u)
    unfolding on_usage raising
    usage_Dialog r ms w c (counted u) said h =
        content_Dialog (record r { usage = accumulate r.usage u }) ms w u c said h
    usage_Dialog r ms w c (uncountable u exc) said h = rw (said, h) (refl, (refl, refl))

    reply_Dialog :
        (r : StructuredResult) (ms : List M) (w : World) (reply : Reply)
        → (complete w ms).0 ≡ reply
        → r.instance_data ≡ none
        → First ms w (
            on_reply complete loads spoken text schema schema_name max_repair_attempts retry attempt
              r ms
              (complete w ms).1
              reply)
    unfolding on_reply finished
    reply_Dialog r ms w (failed exc) said h = rw (said, h) (refl, (refl, (refl, refl)))
    reply_Dialog r ms w (responded c) said h = usage_Dialog r ms w c.content c.usage said h

  attempts_Dialog :
      (left attempt : ℕ) (r : StructuredResult) (ms : List M) (w : World)
      → r.instance_data ≡ none
      → IsDialog attempt left ms w (
          attempts complete loads spoken text schema schema_name max_repair_attempts
            (suc left)
            attempt
            r
            ms
            w)
  unfolding attempts finished
  attempts_Dialog zero attempt r ms w h =
      reply_Dialog zero attempt
        (λ r ms v.
          attempts complete loads spoken text schema schema_name max_repair_attempts zero
            (attempt + 1) r ms v)
        (λ r ms v m h e. (refl, (h, (e, refl)))) r ms w (complete w ms).0 refl h
  attempts_Dialog (suc k) attempt r ms w h =
      reply_Dialog (suc k) attempt
        (λ r ms v.
          attempts complete loads spoken text schema schema_name max_repair_attempts (suc k)
            (attempt + 1) r ms v)
        (λ r ms v m h e. (_, (refl, attempts_Dialog k (attempt + 1) r ms v h))) r ms w
        (complete w ms).0 refl h

  length-Dialog :
      (attempt left : ℕ) (ms : List M) (w : World) (sent : List (List M)) (r : StructuredResult)
      (raises : Option String)
      → Dialog attempt left ms w sent r raises
      → (1 ≤ length sent) × (length sent ≤ left + 1)
  length-Dialog attempt left ms w [] r raises h = absurd h
  length-Dialog attempt left ms w (m ∷ []) r raises h = (omega arith, omega arith)
  length-Dialog attempt left ms w (m ∷ n ∷ rest) r raises
        (same, (k, (e, (t, (error, (said, (refuses, later))))))) =
      let within = length-Dialog (attempt + 1) k _ _ (n ∷ rest) r raises later in
      (omega arith, omega (arith, within.1, e))

  Ends-IsValid :
      (left : ℕ) (reply : Reply) (r : StructuredResult) (raises : Option String)
      → Ends schema loads left reply r raises
      → IsValid schema r.instance_data
  Ends-IsValid left (failed exc) r raises h = rw (h.0) tt
  Ends-IsValid left (responded c) r raises h = counted_valid c.content c.usage h
    where
      resolved_valid :
          (t : String) (d : Option Members) (e : Option Fault)
          → Resolves schema left (loads t) d e
          → IsValid schema d
      resolved_valid t none e h = tt
      resolved_valid t (some ms) none h = h.1
      resolved_valid t (some ms) (some e) h = absurd h

      counted_valid :
          (c : Content) (u : Counted)
          → EndsCounted schema loads left c u r raises
          → IsValid schema r.instance_data
      counted_valid c (uncountable u exc) h = rw (h.0) tt
      counted_valid missing (counted u) h = rw (h.0) tt
      counted_valid (unusable exc) (counted u) h = rw (h.0) tt
      counted_valid (content_text t) (counted u) h = resolved_valid t r.instance_data r.error h.0

  Dialog-IsValid :
      (attempt left : ℕ) (ms : List M) (w : World) (sent : List (List M)) (r : StructuredResult)
      (raises : Option String)
      → Dialog attempt left ms w sent r raises
      → IsValid schema r.instance_data
  Dialog-IsValid attempt left ms w [] r raises h = absurd h
  Dialog-IsValid attempt left ms w (m ∷ []) r raises h =
      Ends-IsValid left (complete w ms).0 r raises h.1
  Dialog-IsValid attempt left ms w (m ∷ n ∷ rest) r raises
        (same, (k, (e, (t, (error, (said, (refuses, later))))))) =
      Dialog-IsValid (attempt + 1) k _ _ (n ∷ rest) r raises later

  pub request_structured_settles :
      (ms : List M) (w : World)
      → let e =
          request_structured complete loads spoken text schema schema_name max_repair_attempts ms
            w in
        (1 ≤ length e.sent)
        × (length e.sent ≤ max_repair_attempts + 1)
        × Dialog 0 max_repair_attempts ms w e.sent e.result e.raises
  unfolding request_structured
  request_structured_settles ms w =
      let dialog =
        attempts_Dialog max_repair_attempts 0
          (record { instance_data = none; error = none; usage = no_usage }) ms w refl in
      let within = length-Dialog 0 max_repair_attempts ms w _ _ _ dialog in
      (within.0, within.1, dialog)

  Ends-returns :
      (left : ℕ) (reply : Reply) (r : StructuredResult) (raises : Option String)
      → IsReadable reply
      → Ends schema loads left reply r raises
      → raises ≡ none
  Ends-returns left (failed exc) r raises k h = h.1.1
  Ends-returns left (responded c) r raises k h = counted_returns c.content c.usage k h
    where
      counted_returns :
          (c : Content) (u : Counted)
          → IsReadableIn c u
          → EndsCounted schema loads left c u r raises
          → raises ≡ none
      counted_returns c (uncountable u exc) k h = absurd k
      counted_returns missing (counted u) k h = h.1.1
      counted_returns (unusable exc) (counted u) k h = absurd k
      counted_returns (content_text t) (counted u) k h = h.1

  Dialog-returns :
      (readable : (w : World) (ms : List M) → IsReadable (complete w ms).0) (attempt left : ℕ)
      (ms : List M) (w : World) (sent : List (List M)) (r : StructuredResult)
      (raises : Option String)
      → Dialog attempt left ms w sent r raises
      → raises ≡ none
  Dialog-returns readable attempt left ms w [] r raises h = absurd h
  Dialog-returns readable attempt left ms w (m ∷ []) r raises h =
      Ends-returns left (complete w ms).0 r raises (readable w ms) h.1
  Dialog-returns readable attempt left ms w (m ∷ n ∷ rest) r raises
        (same, (k, (e, (t, (error, (said, (refuses, later))))))) =
      Dialog-returns readable (attempt + 1) k _ _ (n ∷ rest) r raises later

  -- If every reply can be read, a call does not raise.
  pub request_structured_returns :
      (readable : (w : World) (ms : List M) → IsReadable (complete w ms).0) (ms : List M)
      (w : World)
      → (request_structured complete loads spoken text schema schema_name max_repair_attempts ms
          w).raises
        ≡ none
  request_structured_returns readable ms w =
      Dialog-returns readable 0 max_repair_attempts ms w _ _ _ (request_structured_settles ms w).2

  pub request_structured-IsValid :
      (ms : List M) (w : World)
      → IsValid schema
          (request_structured complete loads spoken text schema schema_name max_repair_attempts ms
            w).result.instance_data
  request_structured-IsValid ms w =
      Dialog-IsValid 0 max_repair_attempts ms w _ _ _ (request_structured_settles ms w).2
