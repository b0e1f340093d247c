-- ===== src/Sched/Budget/Provider/Overrides.antt =====
-- Measured overrides against analytic priors (src/suiban/sched/budget.py).
use suiban.Prelude.{
  ℕ, ◌≤◌, ◌≡◌, ◌≢◌, ◌⊎◌, refl, Bool, true, false, Option, none, some, List, [], ◌∷◌, arith, ◌&&◌,
  if◌then◌else◌, Bool-cases, inl, inr,
}
use suiban.Sched.Budget.Models.{Model, Family, KvType, same_model, same_family}
use suiban.Sched.Budget.Rounding.{kv_mb_mono}
use suiban.Sched.Budget.Provider.{
  BudgetProvider, Row, total_mb, slot_cost, record_measured, lookup, store, merge, or_else, get_or,
  is_key,
}

same_model_iff : (a b : Model) → same_model a b ≡ true → a ≡ b
unfolding same_model
same_model_iff a b h = ground arith

same_family_iff : (a b : Family) → same_family a b ≡ true → a ≡ b
unfolding same_family
same_family_iff a b h = ground arith

same_model_refl : (a : Model) → same_model a a ≡ true
unfolding same_model
same_model_refl a = ground arith

same_family_refl : (a : Family) → same_family a a ≡ true
unfolding same_family
same_family_refl a = ground arith

lookup-store_self :
    (m : Model) (f : Family) (w b : Option ℕ) (rows : List Row)
    → lookup m f (store m f w b rows) ≡ merge w b (lookup m f rows)
unfolding lookup store is_key
lookup-store_self m f w b [] = ground (arith, same_model_refl m, same_family_refl f)
lookup-store_self m f w b (row ∷ rows) = ground (arith, lookup-store_self m f w b rows)

lookup-store_ne :
    (m n : Model) (f g : Family) (w b : Option ℕ) (rows : List Row)
    → (same_model n m && same_family g f) ≡ false
    → lookup n g (store m f w b rows) ≡ lookup n g rows
unfolding lookup store is_key
lookup-store_ne m n f g w b [] h = ground arith
lookup-store_ne m n f g w b (row ∷ rows) h = ground (
  arith,
  lookup-store_ne m n f g w b rows,
  same_model_iff m row.model,
  same_family_iff f row.family,
  same_model_iff n row.model,
  same_family_iff g row.family,
)

get_or-or_else :
    (new old : Option ℕ) (d : ℕ) → get_or (or_else new old) d ≡ get_or new (get_or old d)
unfolding or_else
get_or-or_else none old d = refl
get_or-or_else (some n) old d = refl

other_key :
    (m n : Model) (f g : Family) → (n ≢ m) ⊎ (g ≢ f) → (same_model n m && same_family g f) ≡ false
other_key m n f g h = ground (arith, same_model_iff n m, same_family_iff g f)

same_key :
    (m n : Model) (f g : Family) → (same_model n m && same_family g f) ≡ true → (n ≡ m) × (g ≡ f)
same_key m n f g h = ground (arith, same_model_iff n m, same_family_iff g f)

module _ (p : BudgetProvider) (m : Model) (f : Family) (w b : Option ℕ) where
  -- After `record_measured`, a slot of that model and family is priced with the recorded figures;
  -- a figure that was not given, the KV cache and the extras cost what they did.
  pub slot_cost-record_measured :
      (ctx : ℕ) (k v : KvType) (mm ds : Bool)
      → let before = slot_cost p m f ctx k v mm ds in
        let after = slot_cost (record_measured p m f w b) m f ctx k v mm ds in
        (after.weights_mb ≡ get_or w before.weights_mb)
        × (after.buffers_mb ≡ get_or b before.buffers_mb)
        × (after.kv_mb ≡ before.kv_mb)
        × (after.extras_mb ≡ before.extras_mb)
  unfolding slot_cost record_measured merge
  slot_cost-record_measured ctx k v mm ds =
      rw (lookup-store_self m f w b p.measured)
        (get_or-or_else w _ _, get_or-or_else b _ _, refl, refl)

  -- Every other slot costs what it did.
  pub slot_cost-record_measured_ne :
      (n : Model) (g : Family) (ctx : ℕ) (k v : KvType) (mm ds : Bool)
      → (n ≢ m) ⊎ (g ≢ f)
      → slot_cost (record_measured p m f w b) n g ctx k v mm ds ≡ slot_cost p n g ctx k v mm ds
  unfolding slot_cost record_measured
  slot_cost-record_measured_ne n g ctx k v mm ds h =
      rw (lookup-store_ne m n f g w b p.measured (other_key m n f g h))

  -- After `record_measured`, a slot of that model and family is priced with the recorded figures, where
  -- they were given; every other figure, and every figure of another model or family, is what it was.
  pub slot_cost-record_measured_all :
      (n : Model) (g : Family) (ctx : ℕ) (k v : KvType) (mm ds : Bool)
      → let before = slot_cost p n g ctx k v mm ds in
        let after = slot_cost (record_measured p m f w b) n g ctx k v mm ds in
        let same = same_model n m && same_family g f in
        (after.weights_mb ≡ (if same then get_or w before.weights_mb else before.weights_mb))
        × (after.buffers_mb ≡ (if same then get_or b before.buffers_mb else before.buffers_mb))
        × (after.kv_mb ≡ before.kv_mb)
        × (after.extras_mb ≡ before.extras_mb)
  unfolding slot_cost record_measured merge
  slot_cost-record_measured_all n g ctx k v mm ds =
      elim (Bool-cases (same_model n m && same_family g f)) [
        | inl same ↦
            let key = same_key m n f g same in
            rw (same, key.0, key.1, lookup-store_self m f w b p.measured)
              (get_or-or_else w _ _, get_or-or_else b _ _, refl, refl)
        | inr other ↦
            rw (other, lookup-store_ne m n f g w b p.measured other) (refl, refl, refl, refl)
      ]

-- A slot with a longer context costs no less, whatever was measured.
total_mb-slot_cost_mono :
    (p : BudgetProvider) (m : Model) (f : Family) (c d : ℕ) (k v : KvType) (mm ds : Bool)
    → c ≤ d
    → total_mb (slot_cost p m f c k v mm ds) ≤ total_mb (slot_cost p m f d k v mm ds)
unfolding slot_cost
total_mb-slot_cost_mono p m f c d k v mm ds h = omega (arith, kv_mb_mono m k v c d h)
