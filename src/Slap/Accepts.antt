-- ===== src/Slap/Accepts.antt =====
-- Message validation against what a schema means (src/suiban/slap/validation.py).
use suiban.Prelude.{
  ℕ, ◌+◌, ◌≤◌, ◌≡◌, ◌↔◌, refl, Bool, true, Option, none, some, List, [], ◌∷◌, String, ltb,
}
use suiban.Json.{Value, obj, arr, str, Members, Elements, element, no_element, lookup}
use suiban.Json.Schema.{
  Kind, object, array, string, Rules, Schema, plain, with_items, Properties, property, no_property,
  Problem, Error, is_text, property_names, at_key,
}
use suiban.Json.Accepts.{
  Given, IsTyped, IsListed, InLength, IsBounded, IsObject, Checks, Checks-append,
  error_unless-Checks, Checks-error_if, Checks-iff, Checks-when_given, type_errors-Checks,
  enum_errors-Checks, number_errors-Checks, length_errors-Checks, required_errors-Checks,
  unexpected_errors-Checks, short_iff,
}
use suiban.Tools.Arguments.{
  at_index, item_errors, array_errors, object_errors, unless_any, present_errors,
}
use suiban.Slap.Validation.{
  element_count, constant_errors, text_errors, count_errors, validate_instance, validate_members,
}

abbrev pub IsConstant : Rules → Value → Type 0
IsConstant r v = Given r.constant (λ t. is_text t v ≡ true)

abbrev pub Elementwise : (Value → Type 0) → Elements → Type 0
Elementwise P no_element = Unit
Elementwise P (element v vs) = P v × Elementwise P vs

abbrev pub IsArray : Option Kind → (Value → Type 0) → Value → Type 0
IsArray (some array) P (arr vs) = Elementwise P vs
IsArray expected P v = Unit

abbrev pub HasItems : Option Kind → Rules → Value → Type 0
HasItems (some array) r (arr vs) = Given r.min_items (λ n. n ≤ element_count vs)
HasItems expected r v = Unit

pub Checks-unless_any :
    (xs ys : List Error) (P Q : Type 0)
    → Checks xs P
    → Checks ys Q
    → Checks (unless_any xs ys) (P × Q)
unfolding unless_any
Checks-unless_any [] ys P Q c d = ((λ e. (c.0 refl, d.0 e)), λ h. d.1 h.1)
Checks-unless_any (x ∷ xs) ys P Q c d = ((λ e. cc), λ h. let clash = c.1 h.0 in cc)

item_errors-Checks :
    (check : Value → String → List Error) (P : Value → Type 0)
    → ((v : Value) (path : String) → Checks (check v path) (P v))
    → (vs : Elements) (path : String) (i : ℕ)
    → Checks (item_errors check vs path i) (Elementwise P vs)
unfolding item_errors
item_errors-Checks check P c no_element path i = ((λ e. tt), λ h. refl)
item_errors-Checks check P c (element v vs) path i =
    Checks-append _ _ _ _ (c v (at_index path i)) (item_errors-Checks check P c vs path (i + 1))

pub array_errors-Checks :
    (expected : Option Kind) (check : Value → String → List Error) (P : Value → Type 0) (v : Value)
    (path : String)
    → ((w : Value) (p : String) → Checks (check w p) (P w))
    → Checks (array_errors expected check v path) (IsArray expected P v)
unfolding array_errors
array_errors-Checks (some array) check P (arr vs) path c = item_errors-Checks check P c vs path 0
array_errors-Checks _ check P _ path c = ((λ e. tt), λ h. refl)

pub object_errors-Checks :
    (expected : Option Kind) (r : Rules) (names : List String) (inner : Members → List Error)
    (Inner : Members → Type 0) (v : Value) (path : String)
    → ((ms : Members) → Checks (inner ms) (Inner ms))
    → Checks (object_errors expected r names inner v path) (IsObject expected r names Inner v)
unfolding object_errors
object_errors-Checks (some object) r names inner Inner (obj ms) path c =
    Checks-append _ _ _ _ (required_errors-Checks r.required ms path)
      (Checks-append _ _ _ _ (unexpected_errors-Checks r.closed names ms path) (c ms))
object_errors-Checks _ r names inner Inner _ path c = ((λ e. tt), λ h. refl)

count_errors-Checks :
    (expected : Option Kind) (r : Rules) (v : Value) (path : String)
    → Checks (count_errors expected r v path) (HasItems expected r v)
unfolding count_errors
count_errors-Checks (some array) r (arr vs) path = Checks-when_given r.min_items _ _ (λ n.
    Checks-iff (Checks-error_if (ltb (element_count vs) n) path Problem.too_few)
      (short_iff n (element_count vs)))
count_errors-Checks _ r _ path = ((λ e. tt), λ h. refl)

constant_errors-Checks :
    (r : Rules) (v : Value) (path : String) → Checks (constant_errors r v path) (IsConstant r v)
unfolding constant_errors
constant_errors-Checks r v path =
    Checks-when_given r.constant _ _
      (λ t. error_unless-Checks (is_text t v) path Problem.wrong_constant)

pub present_errors-Checks :
    (found : Option Value) (check : Value → List Error) (P : Value → Type 0)
    → ((v : Value) → Checks (check v) (P v))
    → Checks (present_errors found check) (Given found P)
unfolding present_errors
present_errors-Checks none check P c = ((λ e. tt), λ h. refl)
present_errors-Checks (some v) check P c = c v

module _ (matches : String → String → Bool) where
  abbrev pub IsText : Option Kind → Rules → Value → Type 0
  IsText (some string) r (str s) = InLength r s × Given r.pattern (λ p. matches p s ≡ true)
  IsText expected r v = Unit

  text_errors-Checks :
      (expected : Option Kind) (r : Rules) (v : Value) (path : String)
      → Checks (text_errors matches expected r v path) (IsText expected r v)
  unfolding text_errors
  text_errors-Checks (some string) r (str s) path =
      Checks-append _ _ _ _ (length_errors-Checks r s path) (
        Checks-when_given r.pattern _ _
          (λ p. error_unless-Checks (matches p s) path Problem.no_match))
  text_errors-Checks _ r _ path = ((λ e. tt), λ h. refl)

  -- The meaning of a schema: what holds of the value itself, of each property that it has, and of each
  -- of its items.
  unfoldable mutual
    pub Accepts : Schema → Value → Type 0
    Accepts (plain r ps) v =
        IsConstant r v
        × (IsTyped r v
            × (IsListed r v
                × (IsText r.expected r v
                    × (IsBounded r.expected r v
                        × (IsObject r.expected r (property_names ps) (λ ms. AcceptsMembers ps ms) v
                            × HasItems r.expected r v)))))
    Accepts (with_items r ps items) v =
        IsConstant r v
        × (IsTyped r v
            × (IsListed r v
                × (IsText r.expected r v
                    × (IsBounded r.expected r v
                        × (IsObject r.expected r (property_names ps) (λ ms. AcceptsMembers ps ms) v
                            × (HasItems r.expected r v
                                × IsArray r.expected (λ w. Accepts items w) v))))))

    pub AcceptsMembers : Properties → Members → Type 0
    AcceptsMembers no_property ms = Unit
    AcceptsMembers (property k s ps) ms =
        Given (lookup k ms) (λ v. Accepts s v) × AcceptsMembers ps ms

  mutual
    unfolding validate_instance Accepts

    instance-Checks :
        (s : Schema) (v : Value) (path : String)
        → Checks (validate_instance matches v s path) (Accepts s v)
    instance-Checks (plain r ps) v path = Checks-append _ _ _ _ (constant_errors-Checks r v path) (
        Checks-unless_any _ _ _ _ (type_errors-Checks r v path) (
          Checks-append _ _ _ _ (enum_errors-Checks r v path) (
            Checks-append _ _ _ _ (text_errors-Checks r.expected r v path) (
              Checks-append _ _ _ _ (number_errors-Checks r v path) (
                Checks-append _ _ _ _
                  (object_errors-Checks r.expected r (property_names ps) _ _ v path
                    (λ ms. members-Checks ps ms path))
                  (count_errors-Checks r.expected r v path))))))
    instance-Checks (with_items r ps items) v path =
        Checks-append _ _ _ _ (constant_errors-Checks r v path) (
          Checks-unless_any _ _ _ _ (type_errors-Checks r v path) (
            Checks-append _ _ _ _ (enum_errors-Checks r v path) (
              Checks-append _ _ _ _ (text_errors-Checks r.expected r v path) (
                Checks-append _ _ _ _ (number_errors-Checks r v path) (
                  Checks-append _ _ _ _
                    (object_errors-Checks r.expected r (property_names ps) _ _ v path
                      (λ ms. members-Checks ps ms path))
                    (Checks-append _ _ _ _ (count_errors-Checks r.expected r v path) (
                      array_errors-Checks r.expected _ _ v path
                        (λ w p. instance-Checks items w p))))))))

    members-Checks :
        (ps : Properties) (ms : Members) (path : String)
        → Checks (validate_members matches ms ps path) (AcceptsMembers ps ms)
    members-Checks no_property ms path = ((λ e. tt), λ h. refl)
    members-Checks (property k s ps) ms path =
        Checks-append _ _ _ _
          (present_errors-Checks (lookup k ms) _ _ (λ v. instance-Checks s v (at_key path k)))
          (members-Checks ps ms path)

  -- The validator reports nothing exactly for the values that the schema accepts.
  pub validate_instance-Accepts :
      (v : Value) (s : Schema) (path : String)
      → (validate_instance matches v s path ≡ []) ↔ Accepts s v
  validate_instance-Accepts v s path = instance-Checks s v path
