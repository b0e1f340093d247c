-- ===== src/Residency/Exclusion.antt =====
-- What every interleaving of `ensure_loaded` and the reaper keeps (llama/load_controller.py).
use suiban.Prelude.{ℕ, Bool, true, false, not, ◌≡◌, ◌↔◌, List, [], ◌∷◌, ◌++◌, arith, refl}
use mathlib.Core.List.{Memᴰ}
use suiban.Residency.{
  SlotState, Report, init, idle_unloading, state, ensure_fast, ensure_begin, ensure_warmed,
  ensure_failed, reap_recheck, reap_begin, reap_unloaded, reap_failed,
}
use suiban.Residency.Steps.{
  Waiter, Holder, nobody, warming, releasing, System, boot, Event, warm_end, warm_fail, unload_end,
  Step, begin, end, tick, answer, queue, give_up, answer_locked, warm, warmed, warming_fails,
  reap_queue, pass, unload, unloaded, unloading_fails, Run, start, next,
}

abbrev pub is_warming : Holder → Bool
is_warming warming = true
is_warming _ = false

abbrev pub is_releasing : Holder → Bool
is_releasing releasing = true
is_releasing _ = false

memᴰ_middle : {a : Waiter} (xs ys : List Waiter) → Memᴰ a (xs ++ a ∷ ys)
memᴰ_middle [] ys = Memᴰ.head refl
memᴰ_middle (x ∷ xs) ys = Memᴰ.tail (memᴰ_middle xs ys)

-- A warm-up starts from nothing resident, an unload from a resident loadout.
abbrev agrees : Holder → Bool → Bool
agrees nobody loaded = true
agrees warming loaded = not loaded
agrees releasing loaded = loaded

pub record IsExclusive (s : System) : Type 0 where
  pub loading : s.controller.loading ≡ is_warming s.holder
  pub unloading : s.controller.unloading ≡ is_releasing s.holder
  pub agreed : agrees s.holder s.controller.loaded ≡ true

pub boot-IsExclusive : (slots : List SlotState) (now : ℕ) → IsExclusive (boot slots now)
unfolding init
boot-IsExclusive slots now = ground arith

pub Step-IsExclusive : {s t : System} {e : Event} → Step s e t → IsExclusive s → IsExclusive t
unfolding ensure_fast ensure_begin ensure_warmed ensure_failed reap_recheck reap_begin reap_unloaded
    reap_failed
Step-IsExclusive begin v = ground arith
Step-IsExclusive end v = ground arith
Step-IsExclusive (tick d) v = ground arith
Step-IsExclusive (answer c h) v = ground arith
Step-IsExclusive (queue h) v = ground arith
Step-IsExclusive (give_up w xs ys h) v = ground arith
Step-IsExclusive (answer_locked c xs ys free w h) v = ground arith
Step-IsExclusive (warm xs ys free w h) v = ground arith
Step-IsExclusive (warmed slots h) v = ground arith
Step-IsExclusive (warming_fails slots h) v = ground arith
Step-IsExclusive (reap_queue window h) v = ground arith
Step-IsExclusive (pass window xs ys free w h) v = ground arith
Step-IsExclusive (unload window xs ys free w h) v = ground arith
Step-IsExclusive (unloaded slots h) v = ground arith
Step-IsExclusive (unloading_fails slots h) v = ground arith

pub Run-IsExclusive : {s t : System} {es : List Event} → Run s es t → IsExclusive s → IsExclusive t
Run-IsExclusive start v = v
Run-IsExclusive (next r st) v = Step-IsExclusive st (Run-IsExclusive r v)

-- Whether the models stand in memory after a run, its latest event first: the last `start_all` that
-- succeeded came after every unload that ended and every warm-up that failed.
abbrev pub standing : List Event → Bool
standing [] = false
standing (warm_end ∷ es) = true
standing (warm_fail ∷ es) = false
standing (unload_end ∷ es) = false
standing (e ∷ es) = standing es

Step-standing :
    {s t : System} {e : Event} (es : List Event)
    → Step s e t
    → IsExclusive s
    → s.controller.loaded ≡ standing es
    → t.controller.loaded ≡ standing (e ∷ es)
unfolding ensure_fast ensure_begin ensure_warmed ensure_failed reap_recheck reap_begin reap_unloaded
    reap_failed
Step-standing es begin v h = h
Step-standing es end v h = h
Step-standing es (tick d) v h = h
Step-standing es (answer c e) v h = ground arith
Step-standing es (queue e) v h = h
Step-standing es (give_up w xs ys e) v h = h
Step-standing es (answer_locked c xs ys free w e) v h = ground arith
Step-standing es (warm xs ys free w e) v h = h
Step-standing es (warmed slots e) v h = refl
Step-standing es (warming_fails slots e) v h = ground arith
Step-standing es (reap_queue window e) v h = h
Step-standing es (pass window xs ys free w e) v h = h
Step-standing es (unload window xs ys free w e) v h = h
Step-standing es (unloaded slots e) v h = refl
Step-standing es (unloading_fails slots e) v h = h

Run-standing :
    {s t : System} {es : List Event}
    → Run s es t
    → IsExclusive s
    → s.controller.loaded ≡ false
    → t.controller.loaded ≡ standing es
Run-standing start v h = h
Run-standing (next {es = es} r st) v h =
    Step-standing es st (Run-IsExclusive r v) (Run-standing r v h)

-- `GET /v1/system` tells the truth after the events `es`: what it reports is which await the lock's holder
-- is in, and otherwise whether the models stand.
abbrev pub Honest : List Event → System → Type 0
Honest es s =
    ((state s.controller ≡ idle_unloading) ↔ (s.holder ≡ releasing))
    × ((state s.controller ≡ Report.loading) ↔ (s.holder ≡ warming))
    × ((state s.controller ≡ Report.ready) ↔ ((s.holder ≡ nobody) × (standing es ≡ true)))
    × ((s.holder ≡ warming) → standing es ≡ false)
    × ((s.holder ≡ releasing) → standing es ≡ true)

IsExclusive-Honest :
    (es : List Event) (s : System) → IsExclusive s → s.controller.loaded ≡ standing es → Honest es s
unfolding state
IsExclusive-Honest es s v h = (
  ((λ e. ground arith), λ e. ground arith),
  ((λ e. ground arith), λ e. ground arith),
  ((λ e. ground arith), λ e. ground arith),
  (λ e. ground arith),
  λ e. ground arith,
)

init_loaded : (slots : List SlotState) (now : ℕ) → (boot slots now).controller.loaded ≡ false
unfolding init
init_loaded slots now = refl

-- From boot on, in every interleaving of requests and reaper passes, failures and cancellations included,
-- the reported state is the true one: unloading and warming up are told exactly while they run, a warm-up
-- starts from models that do not stand, and `ready` is told exactly where nothing runs and a `start_all`
-- has succeeded since the last unload that ended and the last warm-up that failed.
pub boot-Honest :
    (slots : List SlotState) (now : ℕ) (es : List Event) (t : System)
    → Run (boot slots now) es t
    → Honest es t
boot-Honest slots now es t r =
    IsExclusive-Honest es t (Run-IsExclusive r (boot-IsExclusive slots now))
      (Run-standing r (boot-IsExclusive slots now) (init_loaded slots now))
