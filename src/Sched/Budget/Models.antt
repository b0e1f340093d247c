-- ===== src/Sched/Budget/Models.antt =====
-- The model table of src/suiban/sched/budget.py.
use suiban.Prelude.{ℕ, ◌*◌, Bool, true, false, List, [], ◌∷◌}

pub data Model : Type 0 where
  bonsai_27b bonsai_8b bonsai_4b bonsai_1_7b : Model

pub data Family : Type 0 where
  ternary one_bit : Family

pub data KvType : Type 0 where
  f16 q8_0 tq4_0 tq3_0 : KvType

pub data Quant : Type 0 where
  q2_0 q1_0 : Quant

abbrev pub models : List Model
models = bonsai_27b ∷ bonsai_8b ∷ bonsai_4b ∷ bonsai_1_7b ∷ []

-- Sixteenths of a byte.
unfoldable pub kv_bytes_per_element : KvType → ℕ
kv_bytes_per_element f16 = 32
kv_bytes_per_element q8_0 = 17
kv_bytes_per_element tq4_0 = 9
kv_bytes_per_element tq3_0 = 7

unfoldable pub kv_elements_per_token : Model → ℕ
kv_elements_per_token bonsai_27b = 16 * 4 * 256
kv_elements_per_token bonsai_8b = 36 * 8 * 128
kv_elements_per_token bonsai_4b = 36 * 8 * 128
kv_elements_per_token bonsai_1_7b = 28 * 8 * 128

-- Hundredths of a GiB.
unfoldable pub weights_gib : Model → Family → ℕ
weights_gib bonsai_27b ternary = 667
weights_gib bonsai_27b one_bit = 354
weights_gib bonsai_8b ternary = 203
weights_gib bonsai_8b one_bit = 108
weights_gib bonsai_4b ternary = 100
weights_gib bonsai_4b one_bit = 53
weights_gib bonsai_1_7b ternary = 43
weights_gib bonsai_1_7b one_bit = 23

unfoldable pub buffer_prior_gib : Model → ℕ
buffer_prior_gib bonsai_27b = 120
buffer_prior_gib _ = 60

abbrev pub mmproj_gib : ℕ
mmproj_gib = 63

abbrev pub dspark_gib : ℕ
dspark_gib = 180

unfoldable pub max_ctx : Model → ℕ
max_ctx bonsai_27b = 262144
max_ctx bonsai_8b = 65536
max_ctx bonsai_4b = 32768
max_ctx bonsai_1_7b = 32768

unfoldable pub quant_name : Family → Quant
quant_name ternary = q2_0
quant_name one_bit = q1_0

-- Comparison of the id strings.
unfoldable pub same_model : Model → Model → Bool
same_model bonsai_27b bonsai_27b = true
same_model bonsai_8b bonsai_8b = true
same_model bonsai_4b bonsai_4b = true
same_model bonsai_1_7b bonsai_1_7b = true
same_model _ _ = false

unfoldable pub same_family : Family → Family → Bool
same_family ternary ternary = true
same_family one_bit one_bit = true
same_family _ _ = false
