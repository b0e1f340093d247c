-- ===== src/Slap/Valid.antt =====
-- What it means that a whole message is valid (src/suiban/slap/validation.py).
use suiban.Prelude.{
  ◌≡◌, ◌↔◌, refl, Bool, true, Option, none, some, List, [], ◌∷◌, ◌++◌, String, arith,
}
use text.Mathlib.Text.{◌==◌ as str_eq}
use suiban.Json.{Value, obj, str, Members, lookup}
use suiban.Json.Schema.{Schema, Error}
use suiban.Slap.Validation.{validate_instance}
use suiban.Slap.Accepts.{Accepts, validate_instance-Accepts}
use suiban.Slap.Messages.{
  MessageError, is_str, protocol_errors, version_errors, major, version, wrapped, deduped,
  schema_of, routed, validate_message,
}

IsOk : List MessageError → Type 0 → Type 0
IsOk errors P = (errors ≡ []) ↔ P

IsOk-append :
    (xs ys : List MessageError) (P Q : Type 0) → IsOk xs P → IsOk ys Q → IsOk (xs ++ ys) (P × Q)
unfolding IsOk
IsOk-append [] ys P Q c d = ((λ e. (c.0 refl, d.0 e)), λ h. d.1 h.1)
IsOk-append (x ∷ xs) ys P Q c d = ((λ e. cc), λ h. let clash = c.1 h.0 in cc)

-- The version, where it is a text, has the major number that the program speaks.
abbrev pub SpeaksVersion : Option Value → Type 0
SpeaksVersion (some (str v)) = str_eq (major v) (major version) ≡ true
SpeaksVersion _ = Unit

protocol-IsOk : (v : Option Value) → IsOk (protocol_errors v) (is_str "SLAP" v ≡ true)
unfolding IsOk protocol_errors
protocol-IsOk v = ((λ e. ground arith), λ h. ground arith)

version-IsOk : (v : Option Value) → IsOk (version_errors v) (SpeaksVersion v)
unfolding IsOk version_errors
version-IsOk (some (str v)) = ((λ e. ground arith), λ h. ground arith)
version-IsOk _ = ((λ e. tt), λ h. refl)

wrapped-nil : (es : List Error) → (wrapped es ≡ []) ↔ (es ≡ [])
unfolding wrapped
wrapped-nil [] = ((λ e. refl), λ h. refl)
wrapped-nil (e ∷ es) = ((λ h. cc), λ h. cc)

deduped-nil :
    (text : MessageError → String) (es : List MessageError) → (deduped text [] es ≡ []) ↔ (es ≡ [])
unfolding deduped
deduped-nil text [] = ((λ e. refl), λ h. refl)
deduped-nil text (e ∷ es) = ((λ h. cc), λ h. cc)

module _ (matches : String → String → Bool) (load_schema : String → Option Schema)
    (text : MessageError → String) where
  abbrev pub FitsSchema : Members → Option Schema → Type 0
  FitsSchema ms none = ⊥
  FitsSchema ms (some schema) = Accepts matches schema (obj ms)

  routed-IsOk :
      (ms : Members) (errors : List MessageError) (found : Option Schema) (P : Type 0)
      → IsOk errors P
      → IsOk (routed matches load_schema text ms errors found) (P × FitsSchema ms found)
  unfolding routed IsOk
  routed-IsOk ms [] none P c = ((λ e. cc), λ h. absurd h.1)
  routed-IsOk ms (x ∷ xs) none P c = ((λ e. cc), λ h. absurd h.1)
  routed-IsOk ms errors (some schema) P c =
      let es = validate_instance matches (obj ms) schema "$" in
      let accepts = validate_instance-Accepts matches (obj ms) schema "$" in
      let wraps = wrapped-nil es in
      let dedupes = deduped-nil text (errors ++ wrapped es) in
      let all =
        IsOk-append errors (wrapped es) P (Accepts matches schema (obj ms)) c
          ((λ e. accepts.0 (wraps.0 e)), λ h. wraps.1 (accepts.1 h)) in
      ((λ e. all.0 (dedupes.0 e)), λ h. dedupes.1 (all.1 h))

  -- An object of protocol SLAP whose version, if it is a text, has the major number 1, whose operation has
  -- a schema, and which that schema accepts.
  abbrev pub IsMessage : Value → Type 0
  IsMessage (obj ms) =
      ((is_str "SLAP" (lookup "protocol" ms) ≡ true) × SpeaksVersion (lookup "version" ms))
      × FitsSchema ms (schema_of load_schema (lookup "operation" ms))
  IsMessage v = ⊥

  -- The validator of messages reports nothing exactly for the objects of protocol SLAP whose version, if
  -- it is a text, has the major number 1, whose operation has a schema, and which that schema accepts.
  pub validate_message-IsMessage :
      (message : Value)
      → (validate_message matches load_schema text message ≡ []) ↔ IsMessage message
  unfolding validate_message IsOk
  validate_message-IsMessage (obj ms) =
      routed-IsOk ms _ (schema_of load_schema (lookup "operation" ms)) _ (
        IsOk-append _ _ _ _ (protocol-IsOk (lookup "protocol" ms))
          (version-IsOk (lookup "version" ms)))
  validate_message-IsMessage _ = ((λ e. cc), λ h. absurd h)
