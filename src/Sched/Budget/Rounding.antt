-- ===== src/Sched/Budget/Rounding.antt =====
-- Python's `round` of a quotient, and MiB figures from the tables of src/suiban/sched/budget.py.
use suiban.Prelude.{ℕ, ◌+◌, ◌*◌, ◌/◌, ◌%◌, ◌≤◌, arith, ltb, ◌==◌, if◌then◌else◌}
use suiban.Sched.Budget.Models.{Model, KvType, kv_bytes_per_element, kv_elements_per_token}

-- `round(a / b)`: half goes to the even neighbour.
unfoldable pub round_div : ℕ → ℕ → ℕ
round_div a b =
    let q = a / b in
    let r = 2 * (a % b) in
    if ltb r b then q else if ltb b r then q + 1 else if q % 2 == 0 then q else q + 1

-- `round(gib * 1024)`, of hundredths of a GiB.
unfoldable pub gib_to_mb : ℕ → ℕ
unfolding round_div
gib_to_mb hundredths = round_div (hundredths * 1024) 100

-- `kv_kib_per_token`, in sixteenths of a byte.
unfoldable pub kv_per_token : Model → KvType → KvType → ℕ
unfolding kv_bytes_per_element kv_elements_per_token
kv_per_token model k_type v_type =
    kv_elements_per_token model * (kv_bytes_per_element k_type + kv_bytes_per_element v_type)

-- `round(kv_gib(...) * 1024)`.
unfoldable pub kv_mb : Model → ℕ → KvType → KvType → ℕ
unfolding round_div
kv_mb model ctx k_type v_type = round_div (kv_per_token model k_type v_type * ctx) 16777216

pub round_div_mono : (a b : ℕ) → a ≤ b → round_div a 16777216 ≤ round_div b 16777216
unfolding round_div
round_div_mono a b h = ground arith

-- A longer context never costs less KV memory.
pub kv_mb_mono :
    (model : Model) (k_type v_type : KvType) (c d : ℕ)
    → c ≤ d
    → kv_mb model c k_type v_type ≤ kv_mb model d k_type v_type
unfolding kv_mb
kv_mb_mono model k v c d h =
    round_div_mono (kv_per_token model k v * c) (kv_per_token model k v * d) (grind arith)
