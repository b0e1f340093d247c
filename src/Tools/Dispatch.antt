-- ===== src/Tools/Dispatch.antt =====
-- Looking a tool up, checking its arguments and running it (src/suiban/tools/registry.py). What a tool's body
-- does in its time, `perform`, is a parameter.
use suiban.Prelude.{◌≡◌, ◌↔◌, refl, Bool, Option, none, some, List, [], ◌∷◌, String, if◌then◌else◌}
use text.Mathlib.Text.{◌==◌ as str_eq}
use suiban.Json.{Value, obj}
use suiban.Json.Schema.{Schema, Error}
use suiban.Agent.Types.{ToolResult, error}
use suiban.Tools.Arguments.{validate}
use suiban.Slap.Accepts.{Accepts, validate_instance-Accepts}
use suiban.Slap.Mirror.{IsBasic, validate_mirrors}

pub record Tool : Type 0 where
  pub name : String
  pub parameters : Schema

-- `self._tools.get(name)`: of two tools with one name the later is in the dict.
unfoldable pub get_tool : String → List Tool → Option Tool
get_tool name [] = none
get_tool name (tool ∷ tools) =
    later (get_tool name tools) (if str_eq tool.name name then some tool else none)
  where
    later : Option Tool → Option Tool → Option Tool
    later none earlier = earlier
    later (some t) earlier = some t

pub data ArgumentError : Type 0 where
  unknown_tool not_an_object : ArgumentError
  rejected : Error → ArgumentError

unfoldable pub rejections : List Error → List ArgumentError
rejections [] = []
rejections (e ∷ es) = rejected e ∷ rejections es

unfoldable pub checked_args : Option Tool → Value → List ArgumentError
unfolding rejections
checked_args none args = unknown_tool ∷ []
checked_args (some tool) (obj ms) = rejections (validate (obj ms) tool.parameters "$")
checked_args (some tool) args = not_an_object ∷ []

unfoldable pub validate_args : List Tool → String → Value → List ArgumentError
unfolding checked_args get_tool
validate_args tools name args = checked_args (get_tool name tools) args

-- How the body of a tool ends.
pub data Ending : Type 0 where
  returned : ToolResult → Ending
  timed_out : Ending
  crashed : String → Ending

-- A `ToolResult` without a summary, which is its content then.
abbrev pub failure : String → ToolResult
failure text = record { status = error; content = text; summary = text; confirm_token = none }

module _ (perform : Tool → Value → Ending) (unknown timeout : String → String)
    (crash : String → String → String) where
  unfoldable pub ended : String → Ending → ToolResult
  ended name (returned result) = result
  ended name timed_out = failure (timeout name)
  ended name (crashed exc) = failure (crash name exc)

  unfoldable pub dispatch : String → Value → Option Tool → ToolResult
  unfolding ended
  dispatch name args none = failure (unknown name)
  dispatch name args (some tool) = ended name (perform tool args)

  unfoldable pub run_tool : List Tool → String → Value → ToolResult
  unfolding dispatch get_tool
  run_tool tools name args = dispatch name args (get_tool name tools)

-- The tool takes this object.
abbrev pub Takes : (String → String → Bool) → Option Tool → Value → Type 0
Takes matches (some tool) (obj ms) = Accepts matches tool.parameters (obj ms)
Takes matches tool args = ⊥

abbrev pub HasBasic : Option Tool → Type 0
HasBasic none = Unit
HasBasic (some tool) = IsBasic tool.parameters

rejections-nil : (es : List Error) → (rejections es ≡ []) ↔ (es ≡ [])
unfolding rejections
rejections-nil [] = ((λ e. refl), λ h. refl)
rejections-nil (e ∷ es) = ((λ h. cc), λ h. cc)

checked_args-Takes :
    (matches : String → String → Bool) (tool : Option Tool) (args : Value)
    → HasBasic tool
    → (checked_args tool args ≡ []) ↔ Takes matches tool args
unfolding checked_args
checked_args-Takes matches none args basic = ((λ h. cc), λ h. absurd h)
checked_args-Takes matches (some tool) (obj ms) basic =
    let mirrors = validate_mirrors matches (obj ms) tool.parameters "$" basic in
    let accepts = validate_instance-Accepts matches (obj ms) tool.parameters "$" in
    let nil = rejections-nil (validate (obj ms) tool.parameters "$") in
    ((λ h. accepts.0 (mirrors.0 (nil.0 h))), λ h. nil.1 (mirrors.1 (accepts.1 h)))
checked_args-Takes matches (some tool) _ basic = ((λ h. cc), λ h. absurd h)

-- If the schema of the named tool has no const, pattern or minItems, the arguments of a call pass exactly
-- where the registry has the tool, they are an object, and the schema accepts it.
pub validate_args-Takes :
    (matches : String → String → Bool) (tools : List Tool) (name : String) (args : Value)
    → HasBasic (get_tool name tools)
    → (validate_args tools name args ≡ []) ↔ Takes matches (get_tool name tools) args
unfolding validate_args
validate_args-Takes matches tools name args basic =
    checked_args-Takes matches (get_tool name tools) args basic
