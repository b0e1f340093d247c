-- ===== src/Residency/Traces.antt =====
-- Whole runs of the residency controller (llama/load_controller.py).
use suiban.Prelude.{
  ℕ, ◌+◌, Bool, true, false, ◌||◌, ◌≡◌, List, [], ◌∷◌, arith, All, if◌then◌else◌, refl,
}
use suiban.Residency.{
  SlotState, init, resident, ensure_fast, ensure_begin, ensure_warmed, ensure_failed, reap_recheck,
  reap_begin, reap_unloaded, reap_failed,
}
use suiban.Residency.Steps.{
  System, boot, Event, ended, warm_begin, warm_fail, unload_end, Step, begin, end, tick, answer,
  queue, give_up, answer_locked, warm, warmed, warming_fails, reap_queue, pass, unload, unloaded,
  unloading_fails, Run, start, next,
}
use suiban.Residency.Exclusion.{IsExclusive, is_warming, boot-IsExclusive, Run-IsExclusive}

abbrev pub not_ended : Event → Bool
not_ended ended = false
not_ended _ = true

-- In use: work is in flight, and the loadout is resident and not being released.
abbrev pub InUse : System → Type 0
InUse s = (s.busy ≡ true) × (resident s.controller ≡ true)

Step-InUse :
    {s t : System} {e : Event} → Step s e t → IsExclusive s → not_ended e ≡ true → InUse s → InUse t
unfolding ensure_fast ensure_begin ensure_warmed ensure_failed reap_recheck reap_begin reap_unloaded
    reap_failed
Step-InUse begin v n u = ground arith
Step-InUse end v n u = ground arith
Step-InUse (tick d) v n u = ground arith
Step-InUse (answer c h) v n u = ground arith
Step-InUse (queue h) v n u = ground arith
Step-InUse (give_up w xs ys h) v n u = ground arith
Step-InUse (answer_locked c xs ys free w h) v n u = ground arith
Step-InUse (warm xs ys free w h) v n u = ground arith
Step-InUse (warmed slots h) v n u = ground arith
Step-InUse (warming_fails slots h) v n u = ground arith
Step-InUse (reap_queue window h) v n u = ground arith
Step-InUse (pass window xs ys free w h) v n u = ground arith
Step-InUse (unload window xs ys free w h) v n u = ground arith
Step-InUse (unloaded slots h) v n u = ground arith
Step-InUse (unloading_fails slots h) v n u = ground arith

Run-InUse :
    {s t : System} {es : List Event}
    → Run s es t
    → IsExclusive s
    → All (λ e. not_ended e ≡ true) es
    → InUse s
    → InUse t
Run-InUse start v n u = u
Run-InUse (next r st) v n u = Step-InUse st (Run-IsExclusive r v) n.0 (Run-InUse r v n.1 u)

-- Models are never unloaded in mid-generation: once the loadout is resident with work in flight, it
-- stays resident, whatever else runs, as long as the work does not end.
pub never_unloaded-InUse :
    (slots : List SlotState) (now : ℕ) (before during : List Event) (s t : System)
    → Run (boot slots now) before s
    → InUse s
    → Run s during t
    → All (λ e. not_ended e ≡ true) during
    → InUse t
never_unloaded-InUse slots now before during s t r u d n =
    Run-InUse d (Run-IsExclusive r (boot-IsExclusive slots now)) n u

-- How many events of a run pass a test.
abbrev pub count : (Event → Bool) → List Event → ℕ
count p [] = 0
count p (e ∷ es) = (if p e then 1 else 0) + count p es

abbrev pub is_warm_begin : Event → Bool
is_warm_begin warm_begin = true
is_warm_begin _ = false

-- What ends a residency, or a warm-up without one.
abbrev pub is_lost : Event → Bool
is_lost warm_fail = true
is_lost unload_end = true
is_lost _ = false

-- One for a loadout that is resident or warming up.
abbrev pub alive : System → ℕ
alive s = if s.controller.loaded || is_warming s.holder then 1 else 0

Step-count :
    {s t : System} {e : Event}
    → Step s e t
    → IsExclusive s
    → (if is_warm_begin e then 1 else 0) + alive s ≡ (if is_lost e then 1 else 0) + alive t
unfolding ensure_fast ensure_begin ensure_warmed ensure_failed reap_recheck reap_begin reap_unloaded
    reap_failed
Step-count begin v = ground arith
Step-count end v = ground arith
Step-count (tick d) v = ground arith
Step-count (answer c h) v = ground arith
Step-count (queue h) v = ground arith
Step-count (give_up w xs ys h) v = ground arith
Step-count (answer_locked c xs ys free w h) v = ground arith
Step-count (warm xs ys free w h) v = ground arith
Step-count (warmed slots h) v = ground arith
Step-count (warming_fails slots h) v = ground arith
Step-count (reap_queue window h) v = ground arith
Step-count (pass window xs ys free w h) v = ground arith
Step-count (unload window xs ys free w h) v = ground arith
Step-count (unloaded slots h) v = ground arith
Step-count (unloading_fails slots h) v = ground arith

Run-count :
    {s t : System} {es : List Event}
    → Run s es t
    → IsExclusive s
    → count is_warm_begin es + alive s ≡ count is_lost es + alive t
Run-count start v = refl
Run-count (next r st) v = omega (arith, Step-count st (Run-IsExclusive r v), Run-count r v)

-- From boot, `start_all()` is called once for each time that the loadout was lost (by an unload or a
-- failed warm-up), and once more for the loadout that is resident or warming up: a burst of requests
-- on a cold server warms it exactly once.
pub warm_once :
    (slots : List SlotState) (now : ℕ) (es : List Event) (t : System)
    → Run (boot slots now) es t
    → count is_warm_begin es ≡ count is_lost es + alive t
unfolding init
warm_once slots now es t r = omega (arith, Run-count r (boot-IsExclusive slots now))
