-- ===== src/Slap/Looks.antt =====
-- What a built message holds under each key (src/suiban/slap/builders.py), and when its schema accepts it.
use suiban.Prelude.{
  ◌≡◌, refl, ap, sym, ◌∙◌, subst, Bool, Option, none, some, List, [], ◌∷◌, String, All, arith,
  if◌then◌else◌, Bool-cases, inl, inr,
}
use text.Mathlib.Text.{◌==◌ as str_eq}
use text.Mathlib.TextEquality.{eq_iff}
use suiban.Json.{Value, obj, str, Members, member, no_member, lookup, keys}
use suiban.Json.Schema.{Properties, property, no_property, property_names}
use suiban.Json.Accepts.{Given, HasKey}
use suiban.Slap.Accepts.{Accepts, AcceptsMembers}
use suiban.Slap.Builders.{Envelope, text_value, texts_value, put, put_given, set_fields, envelope}
use suiban.Slap.Messages.{version}
use suiban.Slap.Shapes.{envelope_properties, envelope_keys, operation_schema}

abbrev pub or_else : Option Value → Option Value → Option Value
or_else none d = d
or_else (some v) d = some v

-- What stands under `j` after the fields are set, where `d` stood before.
abbrev pub found : String → List (String × Option Value) → Option Value → Option Value
found j [] d = d
found j ((k, v) ∷ fields) d = found j fields (if str_eq k j then or_else v d else d)

lookup-put :
    (j k : String) (v : Value) (ms : Members)
    → lookup j (put k v ms) ≡ (if str_eq k j then some v else lookup j ms)
unfolding put
lookup-put j k v no_member = refl
lookup-put j k v (member i w ms) =
    ground (arith, eq_iff k j, eq_iff i k, eq_iff i j, lookup-put j k v ms)

lookup-put_given :
    (j k : String) (v : Option Value) (ms : Members)
    → lookup j (put_given k v ms) ≡ (if str_eq k j then or_else v (lookup j ms) else lookup j ms)
unfolding put_given
lookup-put_given j k none ms = ground arith
lookup-put_given j k (some v) ms = lookup-put j k v ms

lookup-set_fields :
    (j : String) (fields : List (String × Option Value)) (ms : Members)
    → lookup j (set_fields ms fields) ≡ found j fields (lookup j ms)
unfolding set_fields
lookup-set_fields j [] ms = refl
lookup-set_fields j ((k, v) ∷ fields) ms =
    lookup-set_fields j fields (put_given k v ms) ∙ ap (found j fields) (lookup-put_given j k v ms)

keys-put :
    (names : List String) (k : String) (v : Value) (ms : Members)
    → HasKey names k
    → All (HasKey names) (keys ms)
    → All (HasKey names) (keys (put k v ms))
unfolding put
keys-put names k v no_member h hs = (h, tt)
keys-put names k v (member j w ms) h hs = elim (Bool-cases (str_eq j k)) [
  | inl same ↦ rw same hs
  | inr other ↦ rw other (hs.0, keys-put names k v ms h hs.1)
]

keys-put_given :
    (names : List String) (k : String) (v : Option Value) (ms : Members)
    → HasKey names k
    → All (HasKey names) (keys ms)
    → All (HasKey names) (keys (put_given k v ms))
unfolding put_given
keys-put_given names k none ms h hs = hs
keys-put_given names k (some v) ms h hs = keys-put names k v ms h hs

abbrev pub AllNamed : List String → List (String × Option Value) → Type 0
AllNamed names [] = Unit
AllNamed names ((k, v) ∷ fields) = HasKey names k × AllNamed names fields

keys-set_fields :
    (names : List String) (fields : List (String × Option Value)) (ms : Members)
    → AllNamed names fields
    → All (HasKey names) (keys ms)
    → All (HasKey names) (keys (set_fields ms fields))
unfolding set_fields
keys-set_fields names [] ms h hs = hs
keys-set_fields names ((k, v) ∷ fields) ms h hs =
    keys-set_fields names fields (put_given k v ms) h.1 (keys-put_given names k v ms h.0 hs)

abbrev pub IsHeld : Option Value → Type 0
IsHeld none = ⊥
IsHeld (some v) = Unit

held-HasKey : (k : String) (ms : Members) → IsHeld (lookup k ms) → HasKey (keys ms) k
held-HasKey k no_member h = absurd h
held-HasKey k (member j v ms) h = elim (Bool-cases (str_eq j k)) [
  | inl same ↦ rw same
  | inr other ↦ rw other (held-HasKey k ms (rw other at h))
]

abbrev pub base : String → Envelope → Members
base operation e = member "protocol" (str "SLAP") (
    member "version" (str version) (
      member "message_id" (str e.message_id)
        (member "task_id" (str e.task_id) (member "operation" (str operation) no_member))))

abbrev pub given_fields : Envelope → List (String × Option Value)
given_fields e =
    ("parent_task", text_value e.parent_task)
    ∷ ("depends_on", texts_value e.depends_on)
    ∷ ("created_at", text_value e.created_at)
    ∷ []

-- What a built message holds under `k`.
abbrev pub look : String → Envelope → List (String × Option Value) → String → Option Value
look operation e fields k = found k fields (found k (given_fields e) (lookup k (base operation e)))

pub lookup-built :
    (operation : String) (e : Envelope) (fields : List (String × Option Value)) (k : String)
    → lookup k (set_fields (envelope operation e) fields) ≡ look operation e fields k
unfolding envelope set_fields
lookup-built operation e fields k =
    lookup-set_fields k fields (envelope operation e)
    ∙ ap (found k fields) (lookup-set_fields k (given_fields e) (base operation e))

abbrev pub AllHeld : (String → Option Value) → List String → Type 0
AllHeld see [] = Unit
AllHeld see (k ∷ ks) = IsHeld (see k) × AllHeld see ks

held-All :
    (see : String → Option Value) (ks : List String) (ms : Members)
    → ((k : String) → lookup k ms ≡ see k)
    → AllHeld see ks
    → All (HasKey (keys ms)) ks
held-All see [] ms e h = tt
held-All see (k ∷ ks) ms e h =
    (held-HasKey k ms (subst IsHeld (sym (e k)) h.0), held-All see ks ms e h.1)

module _ (matches : String → String → Bool) where
  abbrev pub Sees : Properties → (String → Option Value) → Type 0
  Sees no_property see = Unit
  Sees (property k s ps) see = Given (see k) (Accepts matches s) × Sees ps see

  Sees-AcceptsMembers :
      (ps : Properties) (see : String → Option Value) (ms : Members)
      → ((k : String) → lookup k ms ≡ see k)
      → Sees ps see
      → AcceptsMembers matches ps ms
  unfolding Accepts
  Sees-AcceptsMembers no_property see ms e h = tt
  Sees-AcceptsMembers (property k s ps) see ms e h = (
    subst (λ o. Given o (Accepts matches s)) (sym (e k)) h.0,
    Sees-AcceptsMembers ps see ms e h.1,
  )

  pub built-Accepts :
      (operation : String) (required : List String) (ps : Properties) (e : Envelope)
      (fields : List (String × Option Value))
      → AllHeld (look operation e fields) (envelope_keys required)
      → AllNamed (property_names (envelope_properties operation ps)) fields
      → Sees (envelope_properties operation ps) (look operation e fields)
      → Accepts matches
          (operation_schema operation required ps)
          (obj (set_fields (envelope operation e) fields))
  unfolding Accepts envelope set_fields
  built-Accepts operation required ps e fields held named sees =
      let same = lookup-built operation e fields in
      let names = property_names (envelope_properties operation ps) in
      let ms = set_fields (envelope operation e) fields in
      let given : AllNamed names (given_fields e) = (refl, (refl, (refl, tt))) in
      let based : All (HasKey names) (keys (base operation e)) =
        (refl, (refl, (refl, (refl, (refl, tt))))) in
      let closed =
        keys-set_fields names fields (envelope operation e) named
          (keys-set_fields names (given_fields e) (base operation e) given based) in
      (
        tt,
        (
          refl,
          (
            tt,
            (
              tt,
              (
                tt,
                (
                  (
                    held-All _ (envelope_keys required) ms same held,
                    (
                      closed,
                      Sees-AcceptsMembers (envelope_properties operation ps)
                          (look operation e fields) ms same sees,
                    ),
                  ),
                  tt,
                ),
              ),
            ),
          ),
        ),
      )
