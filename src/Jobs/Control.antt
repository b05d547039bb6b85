-- ===== src/Jobs/Control.antt =====
-- Pausing and cancelling a job (crates/logscope-jobs/src/control.rs), as the atomic steps of any
-- number of threads that share one `JobControl`. A thread stands between two operations on the
-- atomic flag, the mutex or the condition variable. A wait releases the mutex and sleeps in one
-- step, and only a notification ends it.
pub mod Invariant
pub mod Wakeups
pub mod Resumes
use log_scope.Prelude.{ℕ, ◌≡◌, Bool, true, false, not, Option, none, some, ◌==◌, if◌then◌else◌}

-- Where a thread stands. What follows `locks` in a name is done with the mutex held.
pub data Thread : Type 0 where
  idle : Thread
  cancel_locks cancel_notifies : Thread
  pause_locks pause_stores : Thread
  resume_locks resume_stores resume_notifies : Thread
  checkpoint_locks tests_paused tests_cancel waits sleeps wakes drops checks_again : Thread
  returns : (cancelled : Bool) → Thread

-- `ControlInner`: the flag, the value in the mutex with the thread that holds it, and the threads.
pub record State : Type 0 where
  pub cancel_requested : Bool
  pub paused : Bool
  pub holder : Option ℕ
  pub threads : ℕ → Thread

-- `JobControl::new`
unfoldable pub new : State
new = record { cancel_requested = false; paused = false; holder = none; threads = λ i. idle }

unfoldable pub set : (ℕ → Thread) → ℕ → Thread → ℕ → Thread
set threads i t j = if j == i then t else threads j

-- What a notification does to one thread.
unfoldable pub wake : Thread → Thread
wake sleeps = wakes
wake t = t

abbrev pub moved : State → ℕ → Thread → State
moved s i t = record s { threads = set s.threads i t }

abbrev pub acquired : State → ℕ → Thread → State
acquired s i t = record s { holder = some i; threads = set s.threads i t }

abbrev pub released : State → ℕ → Thread → State
released s i t = record s { holder = none; threads = set s.threads i t }

-- `notify_all`, and the guard that is dropped after it
abbrev pub notified : State → ℕ → State
notified s i = record s { holder = none; threads = set (λ j. wake (s.threads j)) i idle }

pub data Step (s : State) : State → Type 0 where
  -- `cancel`
  cancel_store :
      (i : ℕ)
      → s.threads i ≡ idle
      → Step s (record (moved s i cancel_locks) { cancel_requested = true })
  cancel_lock :
      (i : ℕ) → s.threads i ≡ cancel_locks → s.holder ≡ none → Step s (acquired s i cancel_notifies)
  cancel_notify : (i : ℕ) → s.threads i ≡ cancel_notifies → Step s (notified s i)
  -- `pause`
  pause_call : (i : ℕ) → s.threads i ≡ idle → Step s (moved s i pause_locks)
  pause_lock :
      (i : ℕ) → s.threads i ≡ pause_locks → s.holder ≡ none → Step s (acquired s i pause_stores)
  pause_store :
      (i : ℕ) → s.threads i ≡ pause_stores → Step s (record (released s i idle) { paused = true })
  -- `resume`
  resume_call : (i : ℕ) → s.threads i ≡ idle → Step s (moved s i resume_locks)
  resume_lock :
      (i : ℕ) → s.threads i ≡ resume_locks → s.holder ≡ none → Step s (acquired s i resume_stores)
  resume_store :
      (i : ℕ)
      → s.threads i ≡ resume_stores
      → Step s (record (moved s i resume_notifies) { paused = false })
  resume_notify : (i : ℕ) → s.threads i ≡ resume_notifies → Step s (notified s i)
  -- `checkpoint`: the first check of the flag
  checkpoint_call :
      (i : ℕ)
      → s.threads i ≡ idle
      → Step s (moved s i (if s.cancel_requested then returns true else checkpoint_locks))
  checkpoint_lock :
      (i : ℕ)
      → s.threads i ≡ checkpoint_locks
      → s.holder ≡ none
      → Step s (acquired s i tests_paused)
  -- its loop, whose test reads `paused` and then the flag
  test_paused :
      (i : ℕ)
      → s.threads i ≡ tests_paused
      → Step s (moved s i (if s.paused then tests_cancel else drops))
  test_cancel :
      (i : ℕ)
      → s.threads i ≡ tests_cancel
      → Step s (moved s i (if s.cancel_requested then drops else waits))
  wait : (i : ℕ) → s.threads i ≡ waits → Step s (released s i sleeps)
  wake_lock : (i : ℕ) → s.threads i ≡ wakes → s.holder ≡ none → Step s (acquired s i tests_paused)
  -- `drop(paused)` and the second check of the flag
  drop_guard : (i : ℕ) → s.threads i ≡ drops → Step s (released s i checks_again)
  check_again :
      (i : ℕ) → s.threads i ≡ checks_again → Step s (moved s i (returns s.cancel_requested))
  -- the thread goes on with its work
  return : (i : ℕ) {r : Bool} → s.threads i ≡ returns r → Step s (moved s i idle)

-- The states that are reached from a new control.
pub data Reached : State → Type 0 where
  start : Reached new
  next : {s s' : State} → Reached s → Step s s' → Reached s'
