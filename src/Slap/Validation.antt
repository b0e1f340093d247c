-- ===== src/Slap/Validation.antt =====
-- The validator of protocol messages (src/suiban/slap/validation.py). `matches pattern text` stands for
-- `re.search`, and `load_schema` gives the schema of an operation from its file, if it is one.
use suiban.Prelude.{ℕ, ◌+◌, Bool, not, Option, some, List, [], ◌++◌, String, ltb}
use suiban.Json.{Value, arr, str, Members, Elements, element, no_element, lookup}
use suiban.Json.Schema.{
  Kind, array, string, Rules, Schema, plain, with_items, Properties, property, no_property,
  wrong_constant, no_match, too_few, Error, error_if, is_text, when_given, type_errors, enum_errors,
  number_errors, length_errors, property_names, at_key,
}
use suiban.Tools.Arguments.{array_errors, object_errors, unless_any, present_errors}

abbrev pub element_count : Elements → ℕ
element_count no_element = 0
element_count (element v vs) = element_count vs + 1

unfoldable pub constant_errors : Rules → Value → String → List Error
constant_errors r v path =
    when_given r.constant (λ t. error_if (not (is_text t v)) path wrong_constant)

module _ (matches : String → String → Bool) where
  unfoldable pub text_errors : Option Kind → Rules → Value → String → List Error
  text_errors (some string) r (str s) path =
      length_errors r s path
      ++ when_given r.pattern (λ p. error_if (not (matches p s)) path no_match)
  text_errors expected r v path = []

unfoldable pub count_errors : Option Kind → Rules → Value → String → List Error
count_errors (some array) r (arr vs) path =
    when_given r.min_items (λ n. error_if (ltb (element_count vs) n) path too_few)
count_errors expected r v path = []

module _ (matches : String → String → Bool) where
  unfoldable mutual
    pub validate_instance : Value → Schema → String → List Error
    validate_instance v (plain r ps) path =
        constant_errors r v path
        ++ unless_any (type_errors r.expected v path) (
            enum_errors r.enum v path
            ++ (text_errors matches r.expected r v path
                ++ (number_errors r.expected r v path
                    ++ (object_errors r.expected r (property_names ps)
                          (λ ms. validate_members ms ps path) v path
                        ++ count_errors r.expected r v path))))
    validate_instance v (with_items r ps items) path =
        constant_errors r v path
        ++ unless_any (type_errors r.expected v path) (
            enum_errors r.enum v path
            ++ (text_errors matches r.expected r v path
                ++ (number_errors r.expected r v path
                    ++ (object_errors r.expected r (property_names ps)
                          (λ ms. validate_members ms ps path) v path
                        ++ (count_errors r.expected r v path
                            ++ array_errors r.expected (λ w p. validate_instance w items p) v
                                path)))))

    pub validate_members : Members → Properties → String → List Error
    validate_members ms no_property path = []
    validate_members ms (property k s ps) path =
        present_errors (lookup k ms) (λ v. validate_instance v s (at_key path k))
        ++ validate_members ms ps path
