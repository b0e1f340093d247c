-- ===== src/Json.antt =====
-- The values that Python's `json` gives: what request bodies, tool arguments and messages hold.
use suiban.Prelude.{ℕ, Bool, Option, none, some, String, List, [], ◌∷◌, if◌then◌else◌}
use suiban.Prelude.Int.{ℤ}
use text.Mathlib.Text.{◌==◌ as str_eq}
pub mod Schema
pub mod Accepts

-- `float n d` is the fraction n / (d + 1): each finite float is one.
mutual
  pub data Value : Type 0 where
    obj : Members → Value
    arr : Elements → Value
    str : String → Value
    int : ℤ → Value
    float : ℤ → ℕ → Value
    bool : Bool → Value
    null : Value

  -- The keys of a dict with their values, in its order.
  pub data Members : Type 0 where
    member : String → Value → Members → Members
    no_member : Members

  pub data Elements : Type 0 where
    element : Value → Elements → Elements
    no_element : Elements

-- `d.get(key)`, and whether the key is there.
abbrev pub lookup : String → Members → Option Value
lookup key no_member = none
lookup key (member k v members) =
    let rest = lookup key members in if str_eq k key then some v else rest

abbrev pub keys : Members → List String
keys no_member = []
keys (member k v members) = k ∷ keys members
