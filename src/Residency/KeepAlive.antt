-- ===== src/Residency/KeepAlive.antt =====
-- `parse_keep_alive` of src/suiban/llama/load_controller.py. The argument is the setting after
-- `str(value).strip().lower()`; Python's `float` is a parameter, `none` where it raises or gives NaN.
use suiban.Prelude.{
  ℕ, ◌≡◌, ◌↔◌, ◌<◌, Bool, false, ◌||◌, Option, none, some, String, arith, if◌then◌else◌, suc, zero,
}
use suiban.Prelude.Int.{ℤ, pos, negsuc}
use text.Mathlib.Text.{◌==◌}

-- `_NEVER_UNLOAD_TOKENS`
unfoldable pub never_unload : String → Bool
never_unload token = token == "24/7" || token == "0" || token == "always" || token == "-1"

positive : Option ℤ → Option ℕ
positive none = none
positive (some (negsuc n)) = none
positive (some (pos zero)) = none
positive (some (pos (suc n))) = some (suc n)

module _ (float : String → Option ℤ) where
  unfoldable pub parse_keep_alive : String → Option ℕ
  unfolding positive never_unload
  parse_keep_alive token = if never_unload token then none else positive (float token)

  -- A finite window comes back exactly when the token is not one of the never-unload tokens and reads
  -- as a number above zero, which is then the window; all else keeps the models hot.
  parse_keep_alive_iff :
      (token : String) (window : ℕ)
      → (parse_keep_alive token ≡ some window)
        ↔ ((never_unload token ≡ false) × (float token ≡ some (pos window)) × (0 < window))
  unfolding parse_keep_alive
  parse_keep_alive_iff token window = ground arith
