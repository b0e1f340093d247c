-- ===== src/Slap/Parts.antt =====
-- The values that the builders put into a message, against their schemas, and the envelope of a message
-- (src/suiban/slap/builders.py).
use Prim.Native.String.{count}
use suiban.Prelude.{
  ◌≤◌, ◌≡◌, refl, sym, subst, Bool, true, Option, none, some, List, [], ◌∷◌, String, any, All,
}
use text.Mathlib.Text.{◌==◌ as str_eq}
use suiban.Json.{Value, obj, str, bool, lookup}
use suiban.Json.Schema.{boolean, Schema, Properties, property_names}
use suiban.Json.Accepts.{Given}
use suiban.Slap.Accepts.{Accepts, Elementwise}
use suiban.Slap.Builders.{
  Envelope, texts, text_value, texts_value, list_value, optional, set_fields, envelope,
}
use suiban.Slap.Messages.{version}
use suiban.Slap.Shapes.{
  of_kind, any_text, some_text, list_of, one_of, constant_text, version_pattern, version_schema,
  envelope_properties, operation_schema,
}
use suiban.Slap.Looks.{
  or_else, found, given_fields, base, look, AllHeld, IsHeld, AllNamed, Sees, built-Accepts,
}

abbrev pub AreSome : List String → Type 0
AreSome ts = All (λ t. 1 ≤ count t) ts

-- The ids of a message are not empty.
abbrev pub IsAddressed : Envelope → Type 0
IsAddressed e = (1 ≤ count e.message_id) × (1 ≤ count e.task_id)

-- The fields of an operation have none of these keys.
abbrev pub LeavesOut : List (String × Option Value) → List String → Type 0
LeavesOut fields [] = Unit
LeavesOut fields (k ∷ ks) = ((d : Option Value) → found k fields d ≡ d) × LeavesOut fields ks

abbrev pub LeavesEnvelope : List (String × Option Value) → Type 0
LeavesEnvelope fields = LeavesOut fields (
    "protocol" ∷ "version" ∷ "message_id" ∷ "task_id" ∷ "operation" ∷ "parent_task" ∷ "depends_on"
    ∷ "created_at" ∷ [])

module _ (matches : String → String → Bool) where
  pub text_given :
      (t : Option String) → Given (or_else (text_value t) none) (Accepts matches any_text)
  unfolding Accepts
  text_given none = tt
  text_given (some t) = (tt, (refl, (tt, (((tt, tt), tt), (tt, (tt, tt))))))

  text_items : (ts : List String) → Elementwise (Accepts matches any_text) (texts ts)
  unfolding Accepts texts
  text_items [] = tt
  text_items (t ∷ ts) = ((tt, (refl, (tt, (((tt, tt), tt), (tt, (tt, tt)))))), text_items ts)

  pub texts_given :
      (ts : Option (List String))
      → Given (or_else (texts_value ts) none) (Accepts matches (list_of any_text))
  unfolding Accepts
  texts_given none = tt
  texts_given (some ts) = (tt, (refl, (tt, (tt, (tt, (tt, (tt, text_items ts)))))))

  some_text_items :
      (ts : List String) → AreSome ts → Elementwise (Accepts matches some_text) (texts ts)
  unfolding Accepts texts
  some_text_items [] h = tt
  some_text_items (t ∷ ts) h =
      ((tt, (refl, (tt, (((h.0, tt), tt), (tt, (tt, tt)))))), some_text_items ts h.1)

  pub some_texts_given :
      (ts : Option (List String))
      → Given ts AreSome
      → Given (or_else (texts_value ts) none) (Accepts matches (list_of some_text))
  unfolding Accepts
  some_texts_given none h = tt
  some_texts_given (some ts) h = (tt, (refl, (tt, (tt, (tt, (tt, (tt, some_text_items ts h)))))))

  pub any_text_accepts : (t : String) → Accepts matches any_text (str t)
  unfolding Accepts
  any_text_accepts t = (tt, (refl, (tt, (((tt, tt), tt), (tt, (tt, tt))))))

  pub some_text_accepts : (t : String) → 1 ≤ count t → Accepts matches some_text (str t)
  unfolding Accepts
  some_text_accepts t h = (tt, (refl, (tt, (((h, tt), tt), (tt, (tt, tt))))))

  pub bool_given :
      (b : Option Bool) → Given (or_else (optional bool b) none) (Accepts matches (of_kind boolean))
  unfolding Accepts
  bool_given none = tt
  bool_given (some b) = (tt, (refl, (tt, (tt, (tt, (tt, tt))))))

  pub value_given :
      (s : Schema) (v : Option Value)
      → Given v (Accepts matches s)
      → Given (or_else v none) (Accepts matches s)
  value_given s none h = tt
  value_given s (some v) h = h

  pub list_given :
      (s : Schema) (vs : Option (List Value))
      → Given (list_value vs) (Accepts matches s)
      → Given (or_else (list_value vs) none) (Accepts matches s)
  list_given s none h = tt
  list_given s (some vs) h = h

  pub one_of_accepts :
      (ts : List String) (t : String)
      → any (λ u. str_eq t u) ts ≡ true
      → Accepts matches (one_of ts) (str t)
  unfolding Accepts
  one_of_accepts ts t h = (tt, (refl, (h, (tt, (tt, (tt, tt))))))

  constant_accepts : (t : String) → str_eq t t ≡ true → Accepts matches (constant_text t) (str t)
  unfolding Accepts
  constant_accepts t h = (h, (refl, (tt, (tt, (tt, (tt, tt))))))

  version_accepts :
      matches version_pattern version ≡ true → Accepts matches version_schema (str version)
  unfolding Accepts
  version_accepts speaks = (tt, (refl, (tt, (((tt, tt), speaks), (tt, (tt, tt))))))

  module _ (operation : String) (e : Envelope) (fields : List (String × Option Value)) where
    -- What the envelope holds under `k`.
    abbrev mail : String → Option Value
    mail k = found k (given_fields e) (lookup k (base operation e))

    kept :
        (k : String) (s : Schema)
        → ((d : Option Value) → found k fields d ≡ d)
        → Given (mail k) (Accepts matches s)
        → Given (look operation e fields k) (Accepts matches s)
    kept k s same h = subst (λ o. Given o (Accepts matches s)) (sym (same (mail k))) h

    kept-IsHeld :
        (k : String)
        → ((d : Option Value) → found k fields d ≡ d)
        → IsHeld (mail k)
        → IsHeld (look operation e fields k)
    kept-IsHeld k same h = subst IsHeld (sym (same (mail k))) h

    -- A message is accepted if its own fields leave the envelope alone and are accepted, and the required
    -- ones are there.
    pub message-Accepts :
        (required : List String) (ps : Properties)
        → str_eq operation operation ≡ true
        → matches version_pattern version ≡ true
        → IsAddressed e
        → LeavesEnvelope fields
        → AllHeld (look operation e fields) required
        → AllNamed (property_names (envelope_properties operation ps)) fields
        → Sees matches ps (look operation e fields)
        → Accepts matches
            (operation_schema operation required ps)
            (obj (set_fields (envelope operation e) fields))
    message-Accepts required ps same speaks (m, t) (p, (v, (mi, (ti, (o, (pt, (d, (c, l)))))))) held
          named sees =
        built-Accepts matches operation required ps e fields
          (
            kept-IsHeld "protocol" p tt,
            (
              kept-IsHeld "version" v tt,
              (
                kept-IsHeld "message_id" mi tt,
                (kept-IsHeld "task_id" ti tt, (kept-IsHeld "operation" o tt, held)),
              ),
            ),
          )
          named
          (
            kept "protocol" (constant_text "SLAP") p (constant_accepts "SLAP" refl),
            (
              kept "version" version_schema v (version_accepts speaks),
              (
                kept "message_id" some_text mi (some_text_accepts e.message_id m),
                (
                  kept "task_id" some_text ti (some_text_accepts e.task_id t),
                  (
                    kept "operation" (constant_text operation) o (constant_accepts operation same),
                    (
                      kept "parent_task" any_text pt (text_given e.parent_task),
                      (
                        kept "depends_on" (list_of any_text) d (texts_given e.depends_on),
                        (kept "created_at" any_text c (text_given e.created_at), sees),
                      ),
                    ),
                  ),
                ),
              ),
            ),
          )
