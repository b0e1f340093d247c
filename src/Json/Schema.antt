-- ===== src/Json/Schema.antt =====
-- JSON schemas of the keywords that the program's two validators know (src/suiban/tools/schema.py and
-- slap/validation.py), and the checks that both make. The values of `const` and `enum` are texts, and
-- those of the bounds are integers, as in every schema of the program.
use Prim.Native.String.{◌++◌ as append, count}
use suiban.Prelude.{
  ℕ, suc, ◌*◌, Bool, true, false, not, Option, none, some, List, [], ◌∷◌, ◌++◌, String, any, ltb,
  if◌then◌else◌,
}
use suiban.Prelude.Int.{ℤ, pos, negsuc, sub_ℕ, leb_ℤ}
use text.Mathlib.Text.{◌==◌ as str_eq}
use suiban.Json.{Value, obj, arr, str, int, float, bool, null, Members, keys}

pub data Kind : Type 0 where
  object array string integer number boolean null_type : Kind
  -- A name that no check knows: everything has this type.
  other_kind : Kind

-- The keywords of one schema but for its parts.
pub record Rules : Type 0 where
  pub expected : Option Kind
  pub constant : Option String
  pub enum : Option (List String)
  pub pattern : Option String
  pub min_length : Option ℕ
  pub max_length : Option ℕ
  pub min_items : Option ℕ
  pub minimum : Option ℤ
  pub maximum : Option ℤ
  pub required : List String
  -- `additionalProperties` is false.
  pub closed : Bool

-- A schema with its properties, and with `items` or without.
mutual
  pub data Schema : Type 0 where
    plain : Rules → Properties → Schema
    with_items : Rules → Properties → Schema → Schema

  pub data Properties : Type 0 where
    property : String → Schema → Properties → Properties
    no_property : Properties

pub data Problem : Type 0 where
  wrong_constant wrong_type got_boolean not_listed too_short too_long no_match below above too_few :
      Problem
  missing unexpected : String → Problem

-- An error text, as the path and what is wrong there.
pub record Error : Type 0 where
  pub path : String
  pub problem : Problem

abbrev pub error_if : Bool → String → Problem → List Error
error_if false path problem = []
error_if true path problem = record { path = path; problem = problem } ∷ []

-- `isinstance` with the types of a kind; a boolean is no number.
abbrev pub is_of : Kind → Value → Bool
is_of object (obj ms) = true
is_of array (arr xs) = true
is_of string (str s) = true
is_of integer (int n) = true
is_of number (int n) = true
is_of number (float n d) = true
is_of boolean (bool b) = true
is_of null_type null = true
is_of other_kind v = true
is_of kind v = false

abbrev pub of_expected : Option Kind → Value → Bool
of_expected none v = true
of_expected (some kind) v = is_of kind v

unfoldable pub boolean_as_number : Option Kind → Value → Bool
boolean_as_number (some integer) (bool b) = true
boolean_as_number (some number) (bool b) = true
boolean_as_number kind v = false

-- The error that ends the validation of a value.
unfoldable pub type_errors : Option Kind → Value → String → List Error
unfolding boolean_as_number
type_errors expected v path =
    if boolean_as_number expected v
    then error_if true path got_boolean
    else error_if (not (of_expected expected v)) path wrong_type

abbrev pub is_text : String → Value → Bool
is_text t (str s) = str_eq s t
is_text t v = false

unfoldable pub enum_errors : Option (List String) → Value → String → List Error
enum_errors none v path = []
enum_errors (some texts) v path = error_if (not (any (λ t. is_text t v) texts)) path not_listed

-- `value < bound` and `value > bound`
unfoldable pub times : ℤ → ℕ → ℤ
times (pos a) k = pos (a * k)
times (negsuc a) k = sub_ℕ 0 (suc a * k)

unfoldable pub is_below : Value → ℤ → Bool
unfolding times
is_below (int n) bound = not (leb_ℤ bound n)
is_below (float n d) bound = not (leb_ℤ (times bound (suc d)) n)
is_below v bound = false

unfoldable pub is_above : Value → ℤ → Bool
unfolding times
is_above (int n) bound = not (leb_ℤ n bound)
is_above (float n d) bound = not (leb_ℤ n (times bound (suc d)))
is_above v bound = false

abbrev pub when_given {ℓ κ} : {A : Type ℓ} {B : Type κ} → Option A → (A → List B) → List B
when_given none check = []
when_given (some a) check = check a

unfoldable pub bound_errors : Rules → Value → String → List Error
bound_errors r v path =
    when_given r.minimum (λ m. error_if (is_below v m) path below)
    ++ when_given r.maximum (λ m. error_if (is_above v m) path above)

-- The checks of an `integer` or a `number`.
unfoldable pub number_errors : Option Kind → Rules → Value → String → List Error
number_errors (some integer) r v path = bound_errors r v path
number_errors (some number) r v path = bound_errors r v path
number_errors kind r v path = []

unfoldable pub length_errors : Rules → String → String → List Error
length_errors r s path =
    when_given r.min_length (λ n. error_if (ltb (count s) n) path too_short)
    ++ when_given r.max_length (λ n. error_if (ltb n (count s)) path too_long)

unfoldable pub required_errors : List String → Members → String → List Error
required_errors [] ms path = []
required_errors (k ∷ ks) ms path =
    error_if (not (any (λ j. str_eq j k) (keys ms))) path (missing k) ++ required_errors ks ms path

abbrev pub property_names : Properties → List String
property_names no_property = []
property_names (property k s ps) = k ∷ property_names ps

unfoldable pub unexpected_keys : List String → List String → String → List Error
unexpected_keys [] names path = []
unexpected_keys (k ∷ ks) names path =
    error_if (not (any (λ n. str_eq n k) names)) path (unexpected k)
    ++ unexpected_keys ks names path

unfoldable pub unexpected_errors : Bool → List String → Members → String → List Error
unfolding unexpected_keys
unexpected_errors false names ms path = []
unexpected_errors true names ms path = unexpected_keys (keys ms) names path

-- f"{path}.{key}"
unfoldable pub at_key : String → String → String
at_key path key = append path (append "." key)
