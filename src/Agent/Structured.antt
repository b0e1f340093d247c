-- ===== src/Agent/Structured.antt =====
-- Completions whose output must be an instance of a schema (src/suiban/agent/structured.py). `complete` is the
-- slot's endpoint over its state `World`, `loads` is `json.loads`, `spoken` makes a message from a role and
-- a content, and `text` renders what is wrong with an output. The other fields of a request do not change.
use suiban.Prelude.{ℕ, zero, suc, ◌+◌, Option, none, some, List, [], ◌∷◌, ◌++◌, String}
use suiban.Json.{Value, obj, Members}
use suiban.Json.Schema.{Schema, Error}
use suiban.Agent.Types.{Usage, Counted, counted, uncountable}
use suiban.Agent.Text.{str, concat}
use suiban.Agent.Calls.{no_usage}
use suiban.Tools.Arguments.{validate}

abbrev pub structured_repair_attempts : ℕ
structured_repair_attempts = 2

-- `json.loads`: its error text, or a value.
pub data Decoded : Type 0 where
  syntax_error : String → Decoded
  decoded : Value → Decoded

-- What is wrong with an output.
pub data Mismatch : Type 0 where
  not_json : String → Mismatch
  -- With the value, whose type the text names.
  not_a_dict : Value → Mismatch
  violates : Error → List Error → Mismatch

-- `_parse_instance`, which returns the instance or an error.
pub data Instance : Type 0 where
  accepted : Members → Instance
  refused : Mismatch → Instance

unfoldable pub checked : Members → List Error → Instance
checked ms [] = accepted ms
checked ms (e ∷ es) = refused (violates e es)

unfoldable pub instance_of : Schema → Decoded → Instance
unfolding checked
instance_of schema (syntax_error exc) = refused (not_json exc)
instance_of schema (decoded (obj ms)) = checked ms (validate (obj ms) schema "$")
instance_of schema (decoded v) = refused (not_a_dict v)

-- `choices[0]["message"].get("content") or ""`: it raises an exception that is caught, or one that is not,
-- as for a message that is null, or it is a text.
pub data Content : Type 0 where
  missing : Content
  unusable : (exc : String) → Content
  content_text : String → Content

-- A response: its token counts and its content.
pub record Completion : Type 0 where
  pub usage : Counted
  pub content : Content

-- A completion, or an exception that is caught.
pub data Reply : Type 0 where
  failed : String → Reply
  responded : Completion → Reply

pub data Fault : Type 0 where
  request_failed : String → Fault
  malformed_completion : Fault
  mismatched : Mismatch → Fault

pub record StructuredResult : Type 0 where
  pub instance_data : Option Members
  pub error : Option Fault
  pub usage : Usage

-- `_accumulate`
unfoldable pub accumulate : Usage → Usage → Usage
accumulate u got = record {
  prompt_tokens = u.prompt_tokens + got.prompt_tokens;
  completion_tokens = u.completion_tokens + got.completion_tokens;
  thinking_tokens = u.thinking_tokens + got.thinking_tokens;
}

-- What a call leaves: its result, or the exception that it raises, the messages of each request that it
-- sent, and the slot.
pub record Exchange (World M : Type 0) : Type 0 where
  pub result : StructuredResult
  pub raises : Option String
  pub sent : List (List M)
  pub world : World

module _ {World M : Type 0} (complete : World → List M → Reply × World) (loads : String → Decoded)
    (spoken : (role content : String) → M) (text : Mismatch → String) where
  -- The re-prompt after attempt `attempt`, of `max_repair_attempts`.
  unfoldable pub repair_prompt : String → ℕ → ℕ → Mismatch → String
  repair_prompt schema_name attempt max_repair_attempts error = concat (
      "Your output did not match the required "
      ∷ schema_name
      ∷ " schema: "
      ∷ text error
      ∷ ". Repair attempt "
      ∷ str (attempt + 1)
      ∷ "/"
      ∷ str max_repair_attempts
      ∷ ": reply with ONLY a corrected JSON object."
      ∷ [])

  module _ (schema : Schema) (schema_name : String) (max_repair_attempts : ℕ) where
    unfoldable pub finished : StructuredResult → World → Exchange World M
    finished result w = record { result = result; raises = none; sent = []; world = w }

    -- An exception that is not caught.
    unfoldable pub raising : StructuredResult → World → String → Exchange World M
    raising result w exc = record { result = result; raises = some exc; sent = []; world = w }

    -- One output, and the rest of the loop, `retry`, where it is refused.
    unfoldable pub on_instance :
        (StructuredResult → List M → World → Exchange World M)
        → ℕ
        → StructuredResult
        → List M
        → World
        → String
        → Instance
        → Exchange World M
    unfolding finished repair_prompt
    on_instance retry attempt result messages w content (accepted ms) =
        finished (record result { instance_data = some ms; error = none }) w
    on_instance retry attempt result messages w content (refused error) =
        retry (record result { error = some (mismatched error) })
          (messages
            ++ spoken "assistant" content
              ∷ spoken "user" (repair_prompt schema_name attempt max_repair_attempts error)
              ∷ [])
          w

    unfoldable pub on_content :
        (StructuredResult → List M → World → Exchange World M)
        → ℕ
        → StructuredResult
        → List M
        → World
        → Content
        → Exchange World M
    unfolding finished raising on_instance
    on_content retry attempt result messages w missing =
        finished (record result { error = some malformed_completion }) w
    on_content retry attempt result messages w (unusable exc) = raising result w exc
    on_content retry attempt result messages w (content_text content) =
        on_instance retry attempt result messages w content (instance_of schema (loads content))

    unfoldable pub on_usage :
        (StructuredResult → List M → World → Exchange World M)
        → ℕ
        → StructuredResult
        → List M
        → World
        → Content
        → Counted
        → Exchange World M
    unfolding raising on_content accumulate
    on_usage retry attempt result messages w content (counted got) =
        on_content retry attempt (record result { usage = accumulate result.usage got }) messages w
          content
    on_usage retry attempt result messages w content (uncountable got exc) =
        raising (record result { usage = accumulate result.usage got }) w exc

    unfoldable pub on_reply :
        (StructuredResult → List M → World → Exchange World M)
        → ℕ
        → StructuredResult
        → List M
        → World
        → Reply
        → Exchange World M
    unfolding finished on_usage
    on_reply retry attempt result messages w (failed exc) =
        finished (record result { error = some (request_failed exc) }) w
    on_reply retry attempt result messages w (responded response) =
        on_usage retry attempt result messages w response.content response.usage

    -- `for attempt in range(...)`, by the attempts left.
    unfoldable pub attempts : ℕ → ℕ → StructuredResult → List M → World → Exchange World M
    unfolding finished on_reply
    attempts zero attempt result messages w = finished result w
    attempts (suc left) attempt result messages w =
        let (reply, w') = complete w messages in
        let rest =
          on_reply (λ r ms v. attempts left (attempt + 1) r ms v) attempt result messages w'
            reply in
        record rest { sent = messages ∷ rest.sent }

    unfoldable pub request_structured : List M → World → Exchange World M
    request_structured messages w =
        attempts (suc max_repair_attempts) 0
          (record { instance_data = none; error = none; usage = no_usage }) messages w
