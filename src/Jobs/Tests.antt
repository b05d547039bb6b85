-- ===== src/Jobs/Tests.antt =====
-- A run of a paused job that is cancelled, and the theorems of `JobControl` in its last state.
use log_scope.Prelude.{
  Option, none, some, ℕ, List, [], ◌∷◌, ◌++◌, map, ◌≡◌, refl, ◌⊎◌, true, false, if◌then◌else◌,
}
use log_scope.Jobs.Control.{Thread, State, Step, Reached, new, set, moved, acquired, released}
use log_scope.Text.{codes}
use log_scope.Jobs.Runner.{JobStatus, JobProgress, JobEvent, JobError, Unwound, run_job}
use log_scope.Jobs.Runner.Lifecycle.{Agrees, run_job-Agrees}
use log_scope.Jobs.Control.Resumes.{Reached-paused}
use log_scope.Jobs.Control.Wakeups.{Reached-sleeps}
use Thread.{
  idle, resume_notifies, cancel_locks, cancel_notifies, pause_locks, pause_stores, checkpoint_locks,
  tests_paused, tests_cancel, waits, sleeps, drops, returns,
}
use Step.{
  cancel_store, pause_call, pause_lock, pause_store, checkpoint_call, checkpoint_lock, test_paused,
  test_cancel, wait,
}
use Reached.{start, next}

-- Thread 1 pauses.
abbrev paused_1 : State
paused_1 = moved new 1 pause_locks

abbrev paused_2 : State
paused_2 = acquired paused_1 1 pause_stores

abbrev paused_3 : State
paused_3 = record (released paused_2 1 idle) { paused = true }

-- Thread 0 reaches a checkpoint.
abbrev checked_1 : State
checked_1 = moved paused_3 0 (if false then returns true else checkpoint_locks)

abbrev checked_2 : State
checked_2 = acquired checked_1 0 tests_paused

abbrev checked_3 : State
checked_3 = moved checked_2 0 (if true then tests_cancel else drops)

abbrev checked_4 : State
checked_4 = moved checked_3 0 (if false then drops else waits)

abbrev asleep : State
asleep = released checked_4 0 sleeps

-- Thread 2 cancels.
abbrev cancelled : State
cancelled = record (moved asleep 2 cancel_locks) { cancel_requested = true }

checked_2-Reached : Reached checked_2
unfolding set new
checked_2-Reached =
    next
      (next
        (next (next (next start (pause_call 1 refl)) (pause_lock 1 refl refl)) (pause_store 1 refl))
        (checkpoint_call 0 refl))
      (checkpoint_lock 0 refl refl)

cancelled-Reached : Reached cancelled
unfolding set new
cancelled-Reached =
    next
      (next (next (next checked_2-Reached (test_paused 0 refl)) (test_cancel 0 refl)) (wait 0 refl))
      (cancel_store 2 refl)

Reached-sleeps_example :
    (k : ℕ) × ((cancelled.threads k ≡ cancel_locks) ⊎ (cancelled.threads k ≡ cancel_notifies))
unfolding set new
Reached-sleeps_example = Reached-sleeps cancelled 0 cancelled-Reached refl refl

Reached-paused_example :
    (cancelled.paused ≡ true) ⊎ ((k : ℕ) × (cancelled.threads k ≡ resume_notifies))
unfolding set new
Reached-paused_example = Reached-paused cancelled 0 cancelled-Reached refl

-- A channel that keeps its events, and a body that panics behind one report.
abbrev Channel : Type 0
Channel = List (JobEvent ℕ)

abbrev send : Channel → JobEvent ℕ → Channel
send events e = events ++ e ∷ []

abbrev half_done : JobProgress
half_done = record {
  stage = codes "read";
  current_item = none;
  records_accepted = 5;
  records_rejected = 0;
  records_unparsed = 0;
  records_duplicate = 0;
  bytes_processed = 80;
  bytes_total = some 160;
}

abbrev panics : Channel → Channel × Unwound ℕ ℕ
panics events =
    (send events (JobEvent.progress (codes "j1") half_done), Unwound.panicked_str (codes "full"))

run_job-Agrees_example :
    (ps : List JobProgress) × (status : JobStatus) × (error : Option (JobError ℕ)) × ((run_job send
        (codes "j1")
        (codes "import")
        10
        20
        panics
        []).0
      ≡ []
        ++ (JobEvent.started (codes "j1") (codes "import") 10
            ∷ (map (λ p. JobEvent.progress (codes "j1") p) ps
                ++ JobEvent.finished (codes "j1") status error 20 ∷ [])))
    × Agrees (run_job send (codes "j1") (codes "import") 10 20 panics []).1 status error
run_job-Agrees_example =
    run_job-Agrees send (λ c. c) (codes "j1") (codes "import") 10 20 panics [] (λ c e. refl)
      (λ c. (half_done ∷ [], refl))
