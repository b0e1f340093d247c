-- ===== src/Slap/Mirror.antt =====
-- The two validators agree on the schemas of tools (src/suiban/tools/schema.py, slap/validation.py).
use suiban.Prelude.{◌≡◌, ◌↔◌, refl, Bool, Option, none, some, [], String}
use suiban.Json.{Value, arr, str, Members, lookup}
use suiban.Json.Schema.{
  Kind, string, Rules, Schema, plain, with_items, Properties, property, no_property, property_names,
  at_key,
}
use suiban.Json.Accepts.{
  Given, Checks, Checks-append, Checks-iff, type_errors-Checks, enum_errors-Checks,
  number_errors-Checks, length_errors-Checks,
}
use suiban.Tools.Arguments.{text_errors, validate, validate_properties}
use suiban.Slap.Validation.{validate_instance}
use suiban.Slap.Accepts.{
  HasItems, Checks-unless_any, array_errors-Checks, object_errors-Checks, present_errors-Checks,
  IsText, Accepts, AcceptsMembers, validate_instance-Accepts,
}

-- A schema without `const`, `pattern` and `minItems`, in all its parts.
abbrev pub HasNoExtras : Rules → Type 0
HasNoExtras r = (r.constant ≡ none) × (r.pattern ≡ none) × (r.min_items ≡ none)

unfoldable mutual
  pub IsBasic : Schema → Type 0
  IsBasic (plain r ps) = HasNoExtras r × AreBasic ps
  IsBasic (with_items r ps items) = HasNoExtras r × (AreBasic ps × IsBasic items)

  pub AreBasic : Properties → Type 0
  AreBasic no_property = Unit
  AreBasic (property k s ps) = IsBasic s × AreBasic ps

Given-none {ℓ} : {A : Type ℓ} (o : Option A) (P : A → Type 0) → o ≡ none → Given o P
Given-none none P e = tt
Given-none (some a) P e = cc

IsText-basic :
    (matches : String → String → Bool) (expected : Option Kind) (r : Rules) (v : Value)
    (path : String)
    → r.pattern ≡ none
    → Checks (text_errors expected r v path) (IsText matches expected r v)
unfolding text_errors
IsText-basic matches (some string) r (str s) path e =
    Checks-iff (length_errors-Checks r s path) ((λ h. (h, Given-none r.pattern _ e)), λ h. h.0)
IsText-basic matches _ r _ path e = ((λ e. tt), λ h. refl)

HasItems-basic :
    (expected : Option Kind) (r : Rules) (v : Value) → r.min_items ≡ none → HasItems expected r v
HasItems-basic (some Kind.array) r (arr vs) e = Given-none r.min_items _ e
HasItems-basic _ r _ e = tt

module _ (matches : String → String → Bool) where
  mutual
    unfolding validate Accepts IsBasic

    argument-Checks :
        (s : Schema) (v : Value) (path : String)
        → IsBasic s
        → Checks (validate v s path) (Accepts matches s v)
    argument-Checks (plain r ps) v path ((no_const, no_pattern, no_min), basic) =
        Checks-iff
          (Checks-unless_any _ _ _ _ (type_errors-Checks r v path) (
            Checks-append _ _ _ _ (enum_errors-Checks r v path) (
              Checks-append _ _ _ _
                (object_errors-Checks r.expected r (property_names ps) _ _ v path
                  (λ ms. arguments-Checks ps ms path basic))
                (Checks-append _ _ _ _ (number_errors-Checks r v path)
                  (IsText-basic matches r.expected r v path no_pattern)))))
          (
            (λ (t, (l, (o, (b, x)))). (
              Given-none r.constant _ no_const,
              (t, (l, (x, (b, (o, HasItems-basic r.expected r v no_min))))),
            )),
            λ (c, (t, (l, (x, (b, (o, i)))))). (t, (l, (o, (b, x)))),
          )
    argument-Checks (with_items r ps items) v path
          ((no_const, no_pattern, no_min), (basic, basic_items)) =
        Checks-iff
          (Checks-unless_any _ _ _ _ (type_errors-Checks r v path) (
            Checks-append _ _ _ _ (enum_errors-Checks r v path) (
              Checks-append _ _ _ _
                (object_errors-Checks r.expected r (property_names ps) _ _ v path
                  (λ ms. arguments-Checks ps ms path basic))
                (Checks-append _ _ _ _
                  (array_errors-Checks r.expected _ _ v path
                    (λ w p. argument-Checks items w p basic_items))
                  (Checks-append _ _ _ _ (number_errors-Checks r v path)
                    (IsText-basic matches r.expected r v path no_pattern))))))
          (
            (λ (t, (l, (o, (a, (b, x))))). (
              Given-none r.constant _ no_const,
              (t, (l, (x, (b, (o, (HasItems-basic r.expected r v no_min, a)))))),
            )),
            λ (c, (t, (l, (x, (b, (o, (i, a))))))). (t, (l, (o, (a, (b, x))))),
          )

    arguments-Checks :
        (ps : Properties) (ms : Members) (path : String)
        → AreBasic ps
        → Checks (validate_properties ms ps path) (AcceptsMembers matches ps ms)
    arguments-Checks no_property ms path basic = ((λ e. tt), λ h. refl)
    arguments-Checks (property k s ps) ms path (basic, rest) =
        Checks-append _ _ _ _
          (present_errors-Checks (lookup k ms) _ _ (λ v. argument-Checks s v (at_key path k) basic))
          (arguments-Checks ps ms path rest)

  -- On a schema without `const`, `pattern` and `minItems` the validator of tool arguments accepts
  -- exactly what the validator of messages accepts, although they check in another order.
  pub validate_mirrors :
      (v : Value) (s : Schema) (path : String)
      → IsBasic s
      → (validate v s path ≡ []) ↔ (validate_instance matches v s path ≡ [])
  validate_mirrors v s path basic =
      let argument = argument-Checks s v path basic in
      let message = validate_instance-Accepts matches v s path in
      ((λ e. message.1 (argument.0 e)), λ e. argument.1 (message.0 e))
