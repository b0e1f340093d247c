-- ===== src/Json/Accepts.antt =====
-- What a value must be like for a schema to accept it, and the checks that both validators share, against
-- that (src/suiban/tools/schema.py, slap/validation.py).
use Prim.Native.String.{count}
use suiban.Prelude.{
  ℕ, ◌≤◌, ◌≡◌, ◌↔◌, refl, Bool, true, false, not, Option, none, some, List, [], ◌∷◌, ◌++◌, String,
  arith, any, All, ltb, Bool-cases, inl, inr,
}
use text.Mathlib.Text.{◌==◌ as str_eq}
use suiban.Json.{Value, obj, bool, Members, keys}
use suiban.Json.Schema.{
  Kind, object, integer, number, Rules, Error, error_if, when_given, Problem, of_expected,
  type_errors, boolean_as_number, is_text, enum_errors, is_below, is_above, bound_errors,
  number_errors, length_errors, required_errors, unexpected_keys, unexpected_errors,
}

abbrev pub Given {ℓ} : {A : Type ℓ} → Option A → (A → Type 0) → Type 0
Given none P = Unit
Given (some a) P = P a

abbrev pub IsTyped : Rules → Value → Type 0
IsTyped r v = of_expected r.expected v ≡ true

abbrev pub IsListed : Rules → Value → Type 0
IsListed r v = Given r.enum (λ texts. any (λ t. is_text t v) texts ≡ true)

abbrev pub InLength : Rules → String → Type 0
InLength r s = Given r.min_length (λ n. n ≤ count s) × Given r.max_length (λ n. count s ≤ n)

abbrev pub InBounds : Rules → Value → Type 0
InBounds r v =
    Given r.minimum (λ m. is_below v m ≡ false) × Given r.maximum (λ m. is_above v m ≡ false)

abbrev pub IsBounded : Option Kind → Rules → Value → Type 0
IsBounded (some integer) r v = InBounds r v
IsBounded (some number) r v = InBounds r v
IsBounded kind r v = Unit

abbrev pub HasKey : List String → String → Type 0
HasKey names k = any (λ n. str_eq n k) names ≡ true

abbrev pub IsClosed : Bool → List String → Members → Type 0
IsClosed false names ms = Unit
IsClosed true names ms = All (HasKey names) (keys ms)

abbrev pub IsObject : Option Kind → Rules → List String → (Members → Type 0) → Value → Type 0
IsObject (some object) r names Inner (obj ms) =
    All (HasKey (keys ms)) r.required × (IsClosed r.closed names ms × Inner ms)
IsObject expected r names Inner v = Unit

-- No error comes of a check exactly where `P` holds.
abbrev pub Checks : List Error → Type 0 → Type 0
Checks errors P = (errors ≡ []) ↔ P

pub Checks-append :
    (xs ys : List Error) (P Q : Type 0) → Checks xs P → Checks ys Q → Checks (xs ++ ys) (P × Q)
Checks-append [] ys P Q c d = ((λ e. (c.0 refl, d.0 e)), λ h. d.1 h.1)
Checks-append (x ∷ xs) ys P Q c d = ((λ e. cc), λ h. let clash = c.1 h.0 in cc)

pub error_unless-Checks :
    (b : Bool) (path : String) (problem : Problem)
    → Checks (error_if (not b) path problem) (b ≡ true)
error_unless-Checks true path problem = ((λ e. refl), λ e. refl)
error_unless-Checks false path problem = ((λ e. cc), λ e. cc)

pub Checks-error_if :
    (b : Bool) (path : String) (problem : Problem) → Checks (error_if b path problem) (b ≡ false)
Checks-error_if false path problem = ((λ e. refl), λ e. refl)
Checks-error_if true path problem = ((λ e. cc), λ e. cc)

pub Checks-iff : {errors : List Error} {P Q : Type 0} → Checks errors P → P ↔ Q → Checks errors Q
Checks-iff c i = ((λ e. i.0 (c.0 e)), λ q. c.1 (i.1 q))

pub Checks-when_given {ℓ} :
    {A : Type ℓ} (given : Option A) (check : A → List Error) (P : A → Type 0)
    → ((a : A) → Checks (check a) (P a))
    → Checks (when_given given check) (Given given P)
Checks-when_given none check P c = ((λ e. tt), λ h. refl)
Checks-when_given (some a) check P c = c a

boolean_is_no_number :
    (expected : Option Kind) (v : Value)
    → boolean_as_number expected v ≡ true
    → of_expected expected v ≡ false
unfolding boolean_as_number
boolean_is_no_number (some integer) (bool b) h = refl
boolean_is_no_number (some number) (bool b) h = refl
boolean_is_no_number _ _ h = cc

pub type_errors-Checks :
    (r : Rules) (v : Value) (path : String) → Checks (type_errors r.expected v path) (IsTyped r v)
unfolding type_errors
type_errors-Checks r v path = elim (Bool-cases (boolean_as_number r.expected v)) [
  | inl boolean_given ↦
      let wrong = boolean_is_no_number r.expected v boolean_given in
      rw boolean_given ((λ e. cc), λ e. cc)
  | inr other ↦ rw other (error_unless-Checks (of_expected r.expected v) path Problem.wrong_type)
]

pub enum_errors-Checks :
    (r : Rules) (v : Value) (path : String) → Checks (enum_errors r.enum v path) (IsListed r v)
unfolding enum_errors
enum_errors-Checks r v path = go r.enum
  where
    go :
        (texts : Option (List String))
        → Checks
            (enum_errors texts v path)
            (Given texts (λ texts. any (λ t. is_text t v) texts ≡ true))
    go none = ((λ e. tt), λ h. refl)
    go (some texts) = error_unless-Checks (any (λ t. is_text t v) texts) path Problem.not_listed

pub bound_errors-Checks :
    (r : Rules) (v : Value) (path : String) → Checks (bound_errors r v path) (InBounds r v)
unfolding bound_errors
bound_errors-Checks r v path =
    Checks-append _ _ _ _
      (Checks-when_given r.minimum _ _ (λ m. Checks-error_if (is_below v m) path Problem.below))
      (Checks-when_given r.maximum _ _ (λ m. Checks-error_if (is_above v m) path Problem.above))

pub number_errors-Checks :
    (r : Rules) (v : Value) (path : String)
    → Checks (number_errors r.expected r v path) (IsBounded r.expected r v)
unfolding number_errors
number_errors-Checks r v path = go r.expected
  where
    go :
        (expected : Option Kind) → Checks (number_errors expected r v path) (IsBounded expected r v)
    go (some integer) = bound_errors-Checks r v path
    go (some number) = bound_errors-Checks r v path
    go _ = ((λ e. tt), λ h. refl)

pub short_iff : (n k : ℕ) → (ltb k n ≡ false) ↔ (n ≤ k)
short_iff n k = ((λ e. ground arith), λ h. ground arith)

pub length_errors-Checks :
    (r : Rules) (s path : String) → Checks (length_errors r s path) (InLength r s)
unfolding length_errors
length_errors-Checks r s path =
    Checks-append _ _ _ _
      (Checks-when_given r.min_length _ _ (λ n.
        Checks-iff (Checks-error_if (ltb (count s) n) path Problem.too_short)
          (short_iff n (count s))))
      (Checks-when_given r.max_length _ _ (λ n.
        Checks-iff (Checks-error_if (ltb n (count s)) path Problem.too_long)
          (short_iff (count s) n)))

pub required_errors-Checks :
    (ks : List String) (ms : Members) (path : String)
    → Checks (required_errors ks ms path) (All (HasKey (keys ms)) ks)
unfolding required_errors
required_errors-Checks [] ms path = ((λ e. tt), λ h. refl)
required_errors-Checks (k ∷ ks) ms path =
    Checks-append _ _ _ _
      (error_unless-Checks (any (λ j. str_eq j k) (keys ms)) path (Problem.missing k))
      (required_errors-Checks ks ms path)

unexpected_keys-Checks :
    (ks names : List String) (path : String)
    → Checks (unexpected_keys ks names path) (All (HasKey names) ks)
unfolding unexpected_keys
unexpected_keys-Checks [] names path = ((λ e. tt), λ h. refl)
unexpected_keys-Checks (k ∷ ks) names path =
    Checks-append _ _ _ _
      (error_unless-Checks (any (λ n. str_eq n k) names) path (Problem.unexpected k))
      (unexpected_keys-Checks ks names path)

pub unexpected_errors-Checks :
    (closed : Bool) (names : List String) (ms : Members) (path : String)
    → Checks (unexpected_errors closed names ms path) (IsClosed closed names ms)
unfolding unexpected_errors
unexpected_errors-Checks false names ms path = ((λ e. tt), λ h. refl)
unexpected_errors-Checks true names ms path = unexpected_keys-Checks (keys ms) names path
