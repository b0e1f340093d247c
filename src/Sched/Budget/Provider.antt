-- ===== src/Sched/Budget/Provider.antt =====
-- `SlotCost` and `BudgetProvider` of src/suiban/sched/budget.py. The provider's state is the table
-- of measured overrides, whose figures are sizes in MiB; an entry under another key than "<model>/<family>" is never read, and the
-- file that `record_measured` rewrites holds that same table.
pub mod Overrides
pub mod Tests
use suiban.Prelude.{ℕ, ◌+◌, Bool, ◌&&◌, Option, none, some, List, [], ◌∷◌, if◌then◌else◌}
use suiban.Sched.Budget.Models.{
  Model, Family, KvType, weights_gib, buffer_prior_gib, mmproj_gib, dspark_gib, same_model,
  same_family,
}
use suiban.Sched.Budget.Rounding.{gib_to_mb, kv_mb}

pub record Measured : Type 0 where
  pub weights_mb : Option ℕ
  pub buffers_mb : Option ℕ

pub record Row : Type 0 where
  pub model : Model
  pub family : Family
  pub entry : Measured

pub record BudgetProvider : Type 0 where
  pub measured : List Row

abbrev pub unmeasured : BudgetProvider
unmeasured = record { measured = [] }

pub data Source : Type 0 where
  analytic measured : Source

pub record SlotCost : Type 0 where
  pub model : Model
  pub family : Family
  pub ctx : ℕ
  pub k_type : KvType
  pub v_type : KvType
  pub weights_mb : ℕ
  pub kv_mb : ℕ
  pub buffers_mb : ℕ
  pub extras_mb : ℕ
  pub source : Source

abbrev pub total_mb : SlotCost → ℕ
total_mb c = c.weights_mb + c.kv_mb + c.buffers_mb + c.extras_mb

abbrev empty_entry : Measured
empty_entry = record { weights_mb = none; buffers_mb = none }

is_key : Model → Family → Row → Bool
is_key model family row = same_model model row.model && same_family family row.family

-- `self._measured.get(key, {})`
lookup : Model → Family → List Row → Measured
unfolding is_key
lookup model family [] = empty_entry
lookup model family (row ∷ rows) =
    let rest = lookup model family rows in if is_key model family row then row.entry else rest

or_else : Option ℕ → Option ℕ → Option ℕ
or_else none old = old
or_else (some new) old = some new

abbrev pub get_or : Option ℕ → ℕ → ℕ
get_or none d = d
get_or (some x) d = x

merge : Option ℕ → Option ℕ → Measured → Measured
unfolding or_else
merge weights buffers old = record {
  weights_mb = or_else weights old.weights_mb;
  buffers_mb = or_else buffers old.buffers_mb;
}

-- `entry = setdefault(key, {})`, and the assignments to it.
store : Model → Family → Option ℕ → Option ℕ → List Row → List Row
unfolding is_key merge
store model family weights buffers [] =
    record { model = model; family = family; entry = merge weights buffers empty_entry } ∷ []
store model family weights buffers (row ∷ rows) =
    let rest = store model family weights buffers rows in
    if is_key model family row
    then record row { entry = merge weights buffers row.entry } ∷ rows
    else row ∷ rest

unfoldable pub record_measured :
    BudgetProvider → Model → Family → Option ℕ → Option ℕ → BudgetProvider
unfolding store
record_measured p model family weights buffers = record {
  measured = store model family weights buffers p.measured;
}

-- An empty override is falsy.
source_of : Measured → Source
source_of e = elim e.weights_mb [
  | some _ ↦ measured
  | none ↦ elim e.buffers_mb [ some _ ↦ measured | none ↦ analytic ]
]

unfoldable pub slot_cost :
    BudgetProvider → Model → Family → ℕ → KvType → KvType → Bool → Bool → SlotCost
unfolding lookup source_of
slot_cost p model family ctx k v with_mmproj with_dspark =
    let override = lookup model family p.measured in
    record {
      model = model;
      family = family;
      ctx = ctx;
      k_type = k;
      v_type = v;
      weights_mb = get_or override.weights_mb (gib_to_mb (weights_gib model family));
      kv_mb = kv_mb model ctx k v;
      buffers_mb = get_or override.buffers_mb (gib_to_mb (buffer_prior_gib model));
      extras_mb =
          (if with_mmproj then gib_to_mb mmproj_gib else 0)
          + (if with_dspark then gib_to_mb dspark_gib else 0);
      source = source_of override;
    }
