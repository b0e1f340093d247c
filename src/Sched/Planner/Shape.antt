-- ===== src/Sched/Planner/Shape.antt =====
-- The slots of a loadout and what it reports of itself (src/suiban/sched/planner.py).
use suiban.Prelude.{
  ℕ, suc, ◌+◌, ◌*◌, ◌<◌, ◌≡◌, ◌≢◌, ◌↔◌, ◌⊎◌, refl, sym, ap, ◌∙◌, Bool, true, false, not, ◌&&◌, ◌||◌,
  some, List, [], ◌∷◌, arith, map, length, keep, any, any-append, All, leb, ltb,
}
use suiban.Sched.Budget.{Model, Family, KvType, ternary, one_bit}
use suiban.Sched.Budget.Provider.{BudgetProvider, SlotCost, slot_cost}
use suiban.Sched.Notices.{is_ultra_sequential}
use suiban.Sched.Planner.Types.{
  GpuInfo, Loadout, Tier, is_orchestrator, is_worker, capabilities, workers, port_pool_start,
  tier_for,
}
use suiban.Sched.Planner.Orchestrator.{effective_family, degrades}
use suiban.Sched.Planner.Workers.{Rung, nonempty, rung_costs, worker_cost, preferred}
use suiban.Sched.Planner.Slots.{
  Request, any-note, plan_cpu, fall_back, cpu_model, orchestrator_slot_of, utility_slot_of,
  worker_slots, worker_gpu,
}
use suiban.Sched.Planner.Plan.{
  effective, degraded, choice, all_slots, all_notices, assemble, plan_loadout,
}
use suiban.Sched.Planner.Fits.{costs-walk}
use suiban.Sched.Planner.Cases.{OnGpu, plan_ind, plan_loadout-OnGpu}

-- `start`, `start + 1`, …
abbrev pub count_up {ℓ} : {A : Type ℓ} → ℕ → List A → List ℕ
count_up start [] = []
count_up start (x ∷ xs) = start ∷ count_up (suc start) xs

ports-worker_slots :
    (family : Family) (gpu n port : ℕ) (costs : List SlotCost)
    → map (λ s. s.port) (worker_slots family gpu n port costs)
      ≡ count_up port (worker_slots family gpu n port costs)
unfolding worker_slots
ports-worker_slots family gpu n port [] = refl
ports-worker_slots family gpu n port (c ∷ costs) =
    ap (λ l. port ∷ l) (ports-worker_slots family gpu (suc n) (suc port) costs)

abbrev Ported : Loadout → Type 0
Ported l = map (λ s. s.port) l.slots ≡ count_up port_pool_start l.slots

-- The slots of every loadout take consecutive ports from 8701 on, so no two share one.
ports-plan_loadout : (r : Request) → Ported (plan_loadout r)
unfolding plan_cpu fall_back assemble all_slots orchestrator_slot_of utility_slot_of
ports-plan_loadout r =
    plan_ind Ported r (refl, λ m. refl)
      λ gpu0 more tier tight_fit cost h.
        ap (λ l. port_pool_start ∷ (port_pool_start + 1) ∷ l)
          (ports-worker_slots _ _ 1 (port_pool_start + 2)
            (choice r gpu0 more tier tight_fit cost).costs)

workers-worker_slots :
    (family : Family) (gpu n port : ℕ) (costs : List SlotCost)
    → keep (λ s. is_worker s.role) (worker_slots family gpu n port costs)
      ≡ worker_slots family gpu n port costs
unfolding worker_slots
workers-worker_slots family gpu n port [] = refl
workers-worker_slots family gpu n port (c ∷ costs) =
    rw (workers-worker_slots family gpu (suc n) (suc port) costs)

orchestrators-worker_slots :
    (family : Family) (gpu n port : ℕ) (costs : List SlotCost)
    → keep (λ s. is_orchestrator s.role) (worker_slots family gpu n port costs) ≡ []
unfolding worker_slots
orchestrators-worker_slots family gpu n port [] = refl
orchestrators-worker_slots family gpu n port (c ∷ costs) =
    orchestrators-worker_slots family gpu (suc n) (suc port) costs

models-worker_slots :
    (family : Family) (gpu n port : ℕ) (costs : List SlotCost)
    → map (λ s. s.model) (worker_slots family gpu n port costs) ≡ map (λ c. c.model) costs
unfolding worker_slots
models-worker_slots family gpu n port [] = refl
models-worker_slots family gpu n port (c ∷ costs) =
    ap (λ l. c.model ∷ l) (models-worker_slots family gpu (suc n) (suc port) costs)

models-rung_costs :
    (budget : BudgetProvider) (family : Family) (k v : KvType) (ctx : ℕ) (rung : Rung)
    → map (λ c. c.model) (rung_costs budget family k v ctx rung) ≡ rung
unfolding rung_costs worker_cost slot_cost
models-rung_costs budget family k v ctx [] = refl
models-rung_costs budget family k v ctx (m ∷ rung) =
    ap (λ l. m ∷ l) (models-rung_costs budget family k v ctx rung)

nonempty-map {ℓ} :
    {A : Type ℓ} (f : A → Model) (xs : List A) → nonempty (map f xs) ≡ ltb 0 (length xs)
nonempty-map f [] = refl
nonempty-map f (x ∷ xs) = ground arith

module _ (r : Request) (gpu0 : GpuInfo) (more : List GpuInfo) (tier : Tier) (tight_fit : Bool)
    (cost : SlotCost) where
  workers-assemble :
      workers (assemble r gpu0 more tier tight_fit cost)
      ≡ worker_slots
          (effective r gpu0 more tier)
          (worker_gpu more)
          1
          (port_pool_start + 2)
          (choice r gpu0 more tier tight_fit cost).costs
  unfolding workers assemble all_slots orchestrator_slot_of utility_slot_of
  workers-assemble = workers-worker_slots _ _ 1 (port_pool_start + 2) _

  rung-choice :
      map (λ c. c.model) (choice r gpu0 more tier tight_fit cost).costs
      ≡ (choice r gpu0 more tier tight_fit cost).rung
  unfolding choice
  rung-choice =
      rw (costs-walk _ _ _ _ _ _ 0 (preferred r.settings.loadout.prefer_workers))
        (models-rung_costs _ _ _ _ _ _)

  vision-assemble :
      let caps = capabilities (assemble r gpu0 more tier tight_fit cost) r.settings in
      (caps.vision ≡ true)
      × (caps.skill_writes ≡ true)
      × (caps.browse_t2 ≡ r.settings.browse.tier2_enabled)
  unfolding capabilities assemble all_slots orchestrator_slot_of utility_slot_of
  vision-assemble = (refl, refl, refl)

  tier-assemble : (assemble r gpu0 more tier tight_fit cost).tier ≡ tier
  unfolding assemble
  tier-assemble = refl

  any_sequential-assemble :
      any is_ultra_sequential (assemble r gpu0 more tier tight_fit cost).notices
      ≡ not (nonempty (choice r gpu0 more tier tight_fit cost).rung)
  unfolding assemble all_notices
  any_sequential-assemble = simp (any-append, any-note) (ground arith)

  nonempty-workers :
      ltb 0 (length (workers (assemble r gpu0 more tier tight_fit cost)))
      ≡ nonempty (choice r gpu0 more tier tight_fit cost).rung
  nonempty-workers = rw workers-assemble (
      sym (nonempty-map (λ s. s.model) _)
      ∙ ap nonempty (models-worker_slots _ _ 1 (port_pool_start + 2) _ ∙ rung-choice))

  parallel-assemble :
      (capabilities (assemble r gpu0 more tier tight_fit cost) r.settings).ultra_parallel
      ≡ not (any is_ultra_sequential (assemble r gpu0 more tier tight_fit cost).notices)
  unfolding capabilities
  parallel-assemble = ground (arith, nonempty-workers, any_sequential-assemble)

abbrev pub is_cpu : Tier → Bool
is_cpu Tier.cpu = true
is_cpu _ = false

is_cpu-tier_for : (vram_mb : ℕ) (tier : Tier) → tier_for vram_mb ≡ some tier → is_cpu tier ≡ false
unfolding tier_for
is_cpu-tier_for vram_mb tier h = ground arith

abbrev pub Has27b : Request → Loadout → Type 0
Has27b r l =
    let has_27b = not (is_cpu l.tier) || leb (16 * 1024) r.telemetry.ram_total_mb in
    let caps = capabilities l r.settings in
    (caps.vision ≡ has_27b)
    × (caps.skill_writes ≡ has_27b)
    × (caps.browse_t2 ≡ (has_27b && r.settings.browse.tier2_enabled))

-- The capability report: the 27B is there on every GPU tier, and on a CPU plan exactly from 16 GiB of RAM on; with
-- it come vision and skill writes, and tier-2 browsing if it is switched on.
capabilities-plan_loadout : (r : Request) → Has27b r (plan_loadout r)
unfolding plan_cpu fall_back capabilities cpu_model
capabilities-plan_loadout r =
    plan_ind (Has27b r) r ((ground arith), λ m. ground arith)
      λ gpu0 more tier tight_fit cost h. ground (
        arith,
        is_cpu-tier_for gpu0.vram_total_mb tier h.has_tier,
        vision-assemble r gpu0 more tier tight_fit cost,
        tier-assemble r gpu0 more tier tight_fit cost,
      )

abbrev pub ParallelOrNoticed : Request → Loadout → Type 0
ParallelOrNoticed r l =
    (capabilities l r.settings).ultra_parallel
    ≡ (not (is_cpu l.tier) && not (any is_ultra_sequential l.notices))

-- Ultra runs in parallel exactly on the GPU loadouts that carry no `ultra_sequential` notice.
parallel-plan_loadout : (r : Request) → ParallelOrNoticed r (plan_loadout r)
unfolding plan_cpu fall_back capabilities workers
parallel-plan_loadout r =
    plan_ind (ParallelOrNoticed r) r (refl, λ m. refl)
      λ gpu0 more tier tight_fit cost h. ground (
        arith,
        is_cpu-tier_for gpu0.vram_total_mb tier h.has_tier,
        parallel-assemble r gpu0 more tier tight_fit cost,
        tier-assemble r gpu0 more tier tight_fit cost,
      )

families-worker_slots :
    (family : Family) (gpu n port : ℕ) (costs : List SlotCost)
    → All (λ s. s.family ≡ family) (worker_slots family gpu n port costs)
unfolding worker_slots
families-worker_slots family gpu n port [] = tt
families-worker_slots family gpu n port (c ∷ costs) =
    (refl, families-worker_slots family gpu (suc n) (suc port) costs)

abbrev pub SharesFamily : Loadout → Type 0
SharesFamily l = All (λ s. s.family ≡ l.family_effective) l.slots

abbrev pub Degradation : ℕ → Family → Family → Bool → Type 0
Degradation vram_mb configured family_effective family_degraded =
    ((family_effective ≡ one_bit) ↔ ((vram_mb < 14 * 1024) ⊎ (configured ≡ one_bit)))
    × ((family_degraded ≡ true) ↔ (family_effective ≢ configured))

effective_family-Degradation :
    (vram_mb : ℕ) (configured : Family)
    → Degradation vram_mb configured
        (effective_family vram_mb configured)
        (degrades vram_mb configured)
unfolding effective_family
effective_family-Degradation vram_mb ternary = ground arith
effective_family-Degradation vram_mb one_bit = ground arith

-- A GPU loadout runs the 1-bit family exactly where that is configured or the first GPU has less than
-- 14 GiB, is marked degraded exactly where that differs from the configured family, which it still
-- reports, and runs every slot in that one family.
family-plan_loadout :
    (r : Request) (gpu0 : GpuInfo) (more : List GpuInfo) (tier : Tier) (tight_fit : Bool)
    (cost : SlotCost)
    → OnGpu r gpu0 more tier tight_fit cost
    → let l = plan_loadout r in
      Degradation gpu0.vram_total_mb r.settings.quant_family l.family_effective l.family_degraded
      × (l.family_configured ≡ r.settings.quant_family)
      × SharesFamily l
family-plan_loadout r gpu0 more tier tight_fit cost h =
    rw (plan_loadout-OnGpu r gpu0 more tier tight_fit cost h) (
      unfold assemble degraded all_slots orchestrator_slot_of utility_slot_of effective in
      (
        effective_family-Degradation gpu0.vram_total_mb r.settings.quant_family,
        refl,
        (refl, (refl, families-worker_slots _ _ 1 _ _)),
      ))
