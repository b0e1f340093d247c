-- ===== src/Residency/Steps.antt =====
-- Interleavings of `ensure_loaded` calls and reaper passes. asyncio switches tasks at awaits only: at
-- the lock, in `start_all()` and in `shutdown()`. Each step reads `is_busy()` and the clock as they then are.
use suiban.Prelude.{ℕ, ◌+◌, Bool, true, false, none, some, List, [], ◌∷◌, ◌++◌, ◌≡◌}
use suiban.Residency.{
  SlotState, Controller, init, ensure_fast, ensure_begin, ensure_warmed, ensure_failed,
  reap_precheck, reap_recheck, reap_begin, reap_unloaded, reap_failed,
}

-- Tasks that wait for the lock: a request, or a reaper pass with its idle window.
pub data Waiter : Type 0 where
  request : Waiter
  reaper : ℕ → Waiter

-- Who is inside the lock, at its await.
pub data Holder : Type 0 where
  nobody warming releasing : Holder

pub record System : Type 0 where
  pub controller : Controller
  pub holder : Holder
  pub before : List Waiter
  -- What `is_busy()` answers, and the clock.
  pub busy : Bool
  pub now : ℕ

abbrev pub boot : List SlotState → ℕ → System
boot slots now = record {
  controller = init slots now;
  holder = Holder.nobody;
  before = [];
  busy = false;
  now = now;
}

pub data Event : Type 0 where
  began ended ticked answered queued cancelled warm_begin warm_end warm_fail passed reap_queued
        unload_begin unload_end unload_fail :
      Event

-- One atomic stretch of code. A waiter is served from anywhere in the queue, which allows more orders
-- than asyncio's.
pub data Step (s : System) : Event → System → Type 0 where
  -- the environment: work comes in flight, the last of it ends, time passes
  begin : Step s began (record s { busy = true })
  end : Step s ended (record s { busy = false })
  tick : (d : ℕ) → Step s ticked (record s { now = s.now + d })
  -- `ensure_loaded` on its fast path
  answer :
      (c : Controller)
      → ensure_fast s.controller s.now ≡ some c
      → Step s answered (record s { controller = c })
  -- `ensure_loaded` comes to the lock
  queue :
      ensure_fast s.controller s.now ≡ none
      → Step s queued (record s { before = s.before ++ request ∷ [] })
  -- a waiting task is cancelled
  give_up :
      (w : Waiter) (xs ys : List Waiter)
      → s.before ≡ xs ++ w ∷ ys
      → Step s cancelled (record s { before = xs ++ ys })
  -- a request has the lock, and finds the models resident
  answer_locked :
      (c : Controller) (xs ys : List Waiter)
      → s.holder ≡ nobody
      → s.before ≡ xs ++ request ∷ ys
      → ensure_fast s.controller s.now ≡ some c
      → Step s answered (record s { controller = c; before = xs ++ ys })
  -- a request has the lock, and calls `start_all()`
  warm :
      (xs ys : List Waiter)
      → s.holder ≡ nobody
      → s.before ≡ xs ++ request ∷ ys
      → ensure_fast s.controller s.now ≡ none
      → Step s warm_begin
          (record s { controller = ensure_begin s.controller; holder = warming; before = xs ++ ys })
  warmed :
      (slots : List SlotState)
      → s.holder ≡ warming
      → Step s warm_end
          (record s { controller = ensure_warmed s.controller slots s.now; holder = nobody })
  warming_fails :
      (slots : List SlotState)
      → s.holder ≡ warming
      → Step s warm_fail
          (record s { controller = ensure_failed s.controller slots; holder = nobody })
  -- a reaper pass comes to the lock
  reap_queue :
      (window : ℕ)
      → reap_precheck s.controller (some window) s.busy s.now ≡ true
      → Step s reap_queued (record s { before = s.before ++ reaper window ∷ [] })
  -- a reaper pass has the lock, and leaves the models alone
  pass :
      (window : ℕ) (xs ys : List Waiter)
      → s.holder ≡ nobody
      → s.before ≡ xs ++ reaper window ∷ ys
      → reap_recheck s.controller window s.busy s.now ≡ false
      → Step s passed (record s { before = xs ++ ys })
  -- a reaper pass has the lock, and calls `shutdown()`
  unload :
      (window : ℕ) (xs ys : List Waiter)
      → s.holder ≡ nobody
      → s.before ≡ xs ++ reaper window ∷ ys
      → reap_recheck s.controller window s.busy s.now ≡ true
      → Step s unload_begin
          (record s { controller = reap_begin s.controller; holder = releasing; before = xs ++ ys })
  unloaded :
      (slots : List SlotState)
      → s.holder ≡ releasing
      → Step s unload_end
          (record s { controller = reap_unloaded s.controller slots; holder = nobody })
  unloading_fails :
      (slots : List SlotState)
      → s.holder ≡ releasing
      → Step s unload_fail
          (record s { controller = reap_failed s.controller slots; holder = nobody })

-- A run, its latest event first.
pub data Run (s : System) : List Event → System → Type 0 where
  start : Run s [] s
  next : {es : List Event} {e : Event} {t u : System} → Run s es t → Step t e u → Run s (e ∷ es) u
