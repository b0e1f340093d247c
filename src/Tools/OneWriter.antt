-- ===== src/Tools/OneWriter.antt =====
-- The one-writer rule (src/suiban/tools/registry.py).
use suiban.Prelude.{
  Ordering, sym, ap, ◌∙◌, Bool, true, false, ◌≡◌, refl, ◌&&◌, ◌||◌, List, [], ◌∷◌, ◌++◌, String,
  arith, any, any-append, keep, All, Bool-cases, inl, inr, if◌then◌else◌,
}
use Prim.Native.String.{compare}
use text.Mathlib.TextEquality.{path_by_compare}
use text.Mathlib.Text.{is_eq, ◌==◌ as str_eq, starts_with}
use suiban.Tools.{
  contains, dict_keys, mode_toolsets, write_tool_names, is_write_mode, available, build_registry,
}

abbrev pub is_write : String → Bool
is_write n = contains n write_tool_names

abbrev pub IsMcpName : String → Type 0
IsMcpName n = starts_with n "mcp_" ≡ true

-- The static tools that a mode has in a registry.
abbrev static_tools : String → Bool → List String
static_tools mode t2 = keep (λ n. contains n (available t2)) (mode_toolsets mode)

static-is_write : (mode : String) (t2 : Bool) → any is_write (static_tools mode t2) ≡ false
unfolding mode_toolsets available
static-is_write mode true = ground arith
static-is_write mode false = ground arith

eq_of_is_eq : (o : Ordering) → is_eq o ≡ true → o ≡ Ordering.eq
eq_of_is_eq Ordering.lt h = ground arith
eq_of_is_eq Ordering.eq h = refl
eq_of_is_eq Ordering.gt h = ground arith

apart_of_prefix : (w n : String) → starts_with w "mcp_" ≡ false → IsMcpName n → str_eq w n ≡ false
apart_of_prefix w n hw hn = elim (Bool-cases (str_eq w n)) [
  | inl same ↦
      let e = path_by_compare w n (eq_of_is_eq (compare w n) same) in
      let clash : true ≡ false = sym hn ∙ (ap (λ t. starts_with t "mcp_") (sym e) ∙ hw) in
      ground (arith, clash)
  | inr apart ↦ apart
]

mcp-is_write : (extra : List String) → All IsMcpName extra → any is_write extra ≡ false
mcp-is_write [] h = refl
mcp-is_write (n ∷ extra) h = rw (
  apart_of_prefix "memory_write" n refl h.0,
  apart_of_prefix "skill_save" n refl h.0,
  apart_of_prefix "skill_improve" n refl h.0,
  mcp-is_write extra h.1,
)

held_any :
    (p : String → Bool) (n : String) (names : List String)
    → contains n names ≡ true
    → (p n || any p names) ≡ any p names
held_any p n [] h = ground arith
held_any p n (m ∷ names) h = elim (Bool-cases (str_eq m n)) [
  | inl same ↦ rw (path_by_compare m n (eq_of_is_eq (compare m n) same)) (ground arith)
  | inr apart ↦
      let later : contains n names ≡ true = ground arith in ground (arith, held_any p n names later)
]

any-dict_keys :
    (p : String → Bool) (seen names : List String)
    → any p (dict_keys seen names) ≡ (any p seen || any p names)
unfolding dict_keys
any-dict_keys p seen [] = ground arith
any-dict_keys p seen (n ∷ names) = elim (Bool-cases (contains n seen)) [
  | inl held ↦ rw (held, any-dict_keys p seen names) (ground (arith, held_any p n seen held))
  | inr new ↦
      rw (new, any-dict_keys p (seen ++ n ∷ []) names, any-append p seen (n ∷ [])) (ground arith)
]

writes-is_write :
    (b : Bool) (extra : List String)
    → any is_write extra ≡ false
    → any is_write ((if b then write_tool_names else []) ++ extra) ≡ b
writes-is_write true extra h = refl
writes-is_write false extra h = h

-- A registry holds a write tool exactly where the orchestrator drives a chat or code run, whatever mode
-- and role it is built for, if its extra tools have names that start with `mcp_`.
pub any-build_registry :
    (mode role : String) (t2 : Bool) (extra : List String)
    → All IsMcpName extra
    → any is_write (build_registry mode role t2 extra)
      ≡ (str_eq role "orchestrator" && is_write_mode mode)
unfolding build_registry
any-build_registry mode role t2 extra h =
    any-dict_keys is_write [] _
    ∙ (any-append is_write (static_tools mode t2) _
        ∙ (ap
              (λ b.
                b
                || any is_write (
                    (if str_eq role "orchestrator" && is_write_mode mode
                      then write_tool_names
                      else [])
                    ++ extra))
              (static-is_write mode t2)
            ∙ writes-is_write (str_eq role "orchestrator" && is_write_mode mode) extra
                (mcp-is_write extra h)))
