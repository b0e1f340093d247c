-- ===== src/Slap/Messages.antt =====
-- Whole protocol messages (src/suiban/slap/validation.py, slap/protocol.py). `load_schema` gives the schema
-- of an operation, or nothing where that raises, and `text` the text of an error.
use Prim.Native.String.{String}
use suiban.Prelude.{
  Bool, true, false, Option, none, some, List, [], ◌∷◌, ◌++◌, any, ◌==◌, if◌then◌else◌,
}
use Prim.Native.Char.{code}
use text.Mathlib.Text.{◌==◌ as str_eq}
use suiban.Json.{Value, obj, str, Members, lookup}
use suiban.Json.Schema.{Schema, Error}
use suiban.Slap.Validation.{validate_instance}

abbrev pub version : String
version = "1.0"

abbrev pub operations : List String
operations =
    "assign" ∷ "result" ∷ "review" ∷ "decide" ∷ "error" ∷ "cancel" ∷ "heartbeat" ∷ "capability"
    ∷ "status" ∷ []

-- `version.split(".", 1)[0]`
unfoldable pub major : String → String
major String.[] = ""
major (String.◌∷◌ c s) = let rest = major s in if code c == b'.' then "" else String.◌∷◌ c rest

pub data MessageError : Type 0 where
  not_an_object not_slap unsupported_version unknown_operation : MessageError
  invalid : Error → MessageError

abbrev pub is_str : String → Option Value → Bool
is_str t (some (str s)) = str_eq s t
is_str t _ = false

unfoldable pub protocol_errors : Option Value → List MessageError
protocol_errors v = if is_str "SLAP" v then [] else not_slap ∷ []

unfoldable pub version_errors : Option Value → List MessageError
version_errors (some (str v)) =
    if str_eq (major v) (major version) then [] else unsupported_version ∷ []
version_errors _ = []

unfoldable pub wrapped : List Error → List MessageError
wrapped [] = []
wrapped (e ∷ es) = invalid e ∷ wrapped es

module _ (text : MessageError → String) where
  -- `[e for e in errors if not (e in seen or seen.add(e))]`
  unfoldable pub deduped : List String → List MessageError → List MessageError
  deduped seen [] = []
  deduped seen (e ∷ es) =
      let rest = deduped seen es in
      let more = deduped (text e ∷ seen) es in
      if any (λ t. str_eq t (text e)) seen then rest else e ∷ more

unfoldable pub schema_of : (String → Option Schema) → Option Value → Option Schema
schema_of load_schema (some (str operation)) = load_schema operation
schema_of load_schema _ = none

module _ (matches : String → String → Bool) (load_schema : String → Option Schema)
    (text : MessageError → String) where
  unfoldable pub routed : Members → List MessageError → Option Schema → List MessageError
  routed ms errors none = errors ++ unknown_operation ∷ []
  routed ms errors (some schema) =
      deduped text [] (errors ++ wrapped (validate_instance matches (obj ms) schema "$"))

  unfoldable pub validate_message : Value → List MessageError
  unfolding routed schema_of wrapped
  validate_message (obj ms) =
      routed ms (protocol_errors (lookup "protocol" ms) ++ version_errors (lookup "version" ms))
        (schema_of load_schema (lookup "operation" ms))
  validate_message v = not_an_object ∷ []

  unfoldable pub is_valid : Value → Bool
  is_valid message = elim (validate_message message) [ [] ↦ true | e ∷ es ↦ false ]
