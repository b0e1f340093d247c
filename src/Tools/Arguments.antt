-- ===== src/Tools/Arguments.antt =====
-- The validator of tool arguments (src/suiban/tools/schema.py).
use Prim.Native.String.{◌++◌ as append}
use suiban.Prelude.{ℕ, ◌+◌, Option, none, some, List, [], ◌∷◌, ◌++◌, String}
use suiban.Agent.Text.{str as show_ℕ}
use suiban.Json.{Value, obj, arr, str, Members, Elements, element, no_element, lookup}
use suiban.Json.Schema.{
  Kind, object, array, string, Rules, Schema, plain, with_items, Properties, property, no_property,
  Error, type_errors, enum_errors, number_errors, length_errors, required_errors, unexpected_errors,
  property_names, at_key,
}

-- f"{path}[{i}]"
unfoldable pub at_index : String → ℕ → String
at_index path i = append path (append "[" (append (show_ℕ i) "]"))

unfoldable pub item_errors : (Value → String → List Error) → Elements → String → ℕ → List Error
item_errors check no_element path i = []
item_errors check (element v vs) path i =
    check v (at_index path i) ++ item_errors check vs path (i + 1)

-- `expected == "array" and isinstance(instance, list)`
unfoldable pub array_errors :
    Option Kind → (Value → String → List Error) → Value → String → List Error
array_errors (some array) check (arr vs) path = item_errors check vs path 0
array_errors expected check v path = []

unfoldable pub text_errors : Option Kind → Rules → Value → String → List Error
text_errors (some string) r (str s) path = length_errors r s path
text_errors expected r v path = []

unfoldable pub object_errors :
    Option Kind → Rules → List String → (Members → List Error) → Value → String → List Error
object_errors (some object) r names inner (obj ms) path =
    required_errors r.required ms path ++ (unexpected_errors r.closed names ms path ++ inner ms)
object_errors expected r names inner v path = []

unfoldable pub unless_any : List Error → List Error → List Error
unless_any [] rest = rest
unless_any (e ∷ es) rest = e ∷ es

unfoldable pub present_errors : Option Value → (Value → List Error) → List Error
present_errors none check = []
present_errors (some v) check = check v

unfoldable mutual
  pub validate : Value → Schema → String → List Error
  validate v (plain r ps) path = unless_any (type_errors r.expected v path) (
      enum_errors r.enum v path
      ++ (object_errors r.expected r (property_names ps) (λ ms. validate_properties ms ps path) v
            path
          ++ (number_errors r.expected r v path ++ text_errors r.expected r v path)))
  validate v (with_items r ps items) path = unless_any (type_errors r.expected v path) (
      enum_errors r.enum v path
      ++ (object_errors r.expected r (property_names ps) (λ ms. validate_properties ms ps path) v
            path
          ++ (array_errors r.expected (λ w p. validate w items p) v path
              ++ (number_errors r.expected r v path ++ text_errors r.expected r v path))))

  pub validate_properties : Members → Properties → String → List Error
  validate_properties ms no_property path = []
  validate_properties ms (property k s ps) path =
      present_errors (lookup k ms) (λ v. validate v s (at_key path k))
      ++ validate_properties ms ps path
