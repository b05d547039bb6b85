-- ===== src/Jobs/Control/Wakeups.antt =====
-- No wake-up is lost: a sleeping thread is woken after a cancellation.
use log_scope.Prelude.{
  ℕ, ◌≡◌, refl, ap, ◌⊎◌, inl, inr, Bool, true, false, if_both, none, if◌then◌else◌,
}
use log_scope.Jobs.Control.{Thread, State, Step, Reached, new, moved, acquired, released, notified}
use log_scope.Jobs.Control.Invariant.{
  holds, cancels, dozes, LockedBy, AwakeIn, LockedBy-keep, LockedBy-acquire, LockedBy-release,
  LockedBy-notify, AwakeIn-move, AwakeIn-store, AwakeIn-notify, AwakeIn-test,
}
use Thread.{
  idle, cancel_locks, cancel_notifies, pause_locks, pause_stores, resume_locks, resume_stores,
  resume_notifies, checkpoint_locks, tests_paused, tests_cancel, waits, sleeps, wakes, drops,
  checks_again, returns,
}
use Step.{
  cancel_store, cancel_lock, cancel_notify, pause_call, pause_lock, pause_store, resume_call,
  resume_lock, resume_store, resume_notify, checkpoint_call, checkpoint_lock, test_paused,
  test_cancel, wait, wake_lock, drop_guard, check_again, return,
}
use Reached.{start, next}

pub record Inv (s : State) : Type 0 where
  pub locked : LockedBy s.holder s.threads
  pub awake : AwakeIn s.cancel_requested s.threads

-- A step of one thread that neither takes nor leaves the mutex.
Inv-moved :
    (s : State) (i : ℕ) (p q : Thread)
    → s.threads i ≡ p
    → holds q ≡ holds p
    → cancels q ≡ cancels p
    → dozes q ≡ dozes p
    → Inv s
    → Inv (moved s i q)
Inv-moved s i p q at h c d v = record {
  locked = LockedBy-keep s.holder s.threads i p q at h v.locked;
  awake = AwakeIn-move s.cancel_requested s.threads i p q at c d v.awake;
}

Inv-acquired :
    (s : State) (i : ℕ) (p q : Thread)
    → s.threads i ≡ p
    → s.holder ≡ none
    → cancels q ≡ cancels p
    → dozes q ≡ dozes p
    → Inv s
    → Inv (acquired s i q)
Inv-acquired s i p q at free c d v = record {
  locked = LockedBy-acquire s.holder s.threads i q free v.locked;
  awake = AwakeIn-move s.cancel_requested s.threads i p q at c d v.awake;
}

Inv-released :
    (s : State) (i : ℕ) (p q : Thread)
    → s.threads i ≡ p
    → holds p ≡ true
    → holds q ≡ false
    → cancels q ≡ cancels p
    → dozes q ≡ dozes p
    → Inv s
    → Inv (released s i q)
Inv-released s i p q at held free c d v = record {
  locked = LockedBy-release s.holder s.threads i p q at held free v.locked;
  awake = AwakeIn-move s.cancel_requested s.threads i p q at c d v.awake;
}

Inv-notified :
    (s : State) (i : ℕ) (p : Thread) → s.threads i ≡ p → holds p ≡ true → Inv s → Inv (notified s i)
Inv-notified s i p at held v = record {
  locked = LockedBy-notify s.holder s.threads i p at held v.locked;
  awake = AwakeIn-notify s.cancel_requested s.holder s.threads i p at held v.locked;
}

-- A conditional is of the kind of both its branches.
pub same_kind :
    (P : Thread → Bool) (k b : Bool) {x y : Thread} → P x ≡ k → P y ≡ k → P (if b then x else y) ≡ k
same_kind P k b hx hy = if_both (λ t. P t ≡ k) b (λ _. hx) (λ _. hy)

Inv-Step : {s s' : State} → Step s s' → Inv s → Inv s'
Inv-Step {s} (cancel_store i at) v = record {
  locked = LockedBy-keep s.holder s.threads i idle cancel_locks at refl v.locked;
  awake = AwakeIn-store true s.threads i;
}
Inv-Step {s} (cancel_lock i at free) v = Inv-acquired s i _ cancel_notifies at free refl refl v
Inv-Step {s} (cancel_notify i at) v = Inv-notified s i _ at refl v
Inv-Step {s} (pause_call i at) v = Inv-moved s i _ pause_locks at refl refl refl v
Inv-Step {s} (pause_lock i at free) v = Inv-acquired s i _ pause_stores at free refl refl v
Inv-Step {s} (pause_store i at) v =
    let r = Inv-released s i _ idle at refl refl refl refl v in
    record { locked = r.locked; awake = r.awake }
Inv-Step {s} (resume_call i at) v = Inv-moved s i _ resume_locks at refl refl refl v
Inv-Step {s} (resume_lock i at free) v = Inv-acquired s i _ resume_stores at free refl refl v
Inv-Step {s} (resume_store i at) v =
    let r = Inv-moved s i _ resume_notifies at refl refl refl v in
    record { locked = r.locked; awake = r.awake }
Inv-Step {s} (resume_notify i at) v = Inv-notified s i _ at refl v
Inv-Step {s} (checkpoint_call i at) v =
    Inv-moved s i _ (if s.cancel_requested then returns true else checkpoint_locks) at
      (same_kind holds false s.cancel_requested refl refl)
      (same_kind cancels false s.cancel_requested refl refl)
      (same_kind dozes false s.cancel_requested refl refl) v
Inv-Step {s} (checkpoint_lock i at free) v = Inv-acquired s i _ tests_paused at free refl refl v
Inv-Step {s} (test_paused i at) v =
    Inv-moved s i _ (if s.paused then tests_cancel else drops) at
      (same_kind holds true s.paused refl refl) (same_kind cancels false s.paused refl refl)
      (same_kind dozes false s.paused refl refl) v
Inv-Step {s} (test_cancel i at) v = record {
  locked =
      LockedBy-keep s.holder s.threads i _ _ at (same_kind holds true s.cancel_requested refl refl)
        v.locked;
  awake = AwakeIn-test s.cancel_requested s.threads i at v.awake;
}
Inv-Step {s} (wait i at) v = Inv-released s i _ sleeps at refl refl refl refl v
Inv-Step {s} (wake_lock i at free) v = Inv-acquired s i _ tests_paused at free refl refl v
Inv-Step {s} (drop_guard i at) v = Inv-released s i _ checks_again at refl refl refl refl v
Inv-Step {s} (check_again i at) v = Inv-moved s i _ (returns s.cancel_requested) at refl refl refl v
Inv-Step {s} (return i at) v = Inv-moved s i _ idle at refl refl refl v

pub Reached-Inv : {s : State} → Reached s → Inv s
unfolding new
Reached-Inv start = record { locked = λ i h. absurd (cc h); awake = λ h. absurd (cc h) }
Reached-Inv (next r t) = Inv-Step t (Reached-Inv r)

cancels-cases : (t : Thread) → cancels t ≡ true → (t ≡ cancel_locks) ⊎ (t ≡ cancel_notifies)
cancels-cases cancel_locks h = inl refl
cancels-cases cancel_notifies h = inr refl
cancels-cases idle h = absurd (cc h)
cancels-cases pause_locks h = absurd (cc h)
cancels-cases pause_stores h = absurd (cc h)
cancels-cases resume_locks h = absurd (cc h)
cancels-cases resume_stores h = absurd (cc h)
cancels-cases resume_notifies h = absurd (cc h)
cancels-cases checkpoint_locks h = absurd (cc h)
cancels-cases tests_paused h = absurd (cc h)
cancels-cases tests_cancel h = absurd (cc h)
cancels-cases waits h = absurd (cc h)
cancels-cases sleeps h = absurd (cc h)
cancels-cases wakes h = absurd (cc h)
cancels-cases drops h = absurd (cc h)
cancels-cases checks_again h = absurd (cc h)
cancels-cases (returns r) h = absurd (cc h)

-- In every reached state in which the cancellation is requested and a thread sleeps in
-- `checkpoint`, another thread is still on its way to notify it.
pub Reached-sleeps :
    (s : State) (i : ℕ)
    → Reached s
    → s.cancel_requested ≡ true
    → s.threads i ≡ sleeps
    → (k : ℕ) × ((s.threads k ≡ cancel_locks) ⊎ (s.threads k ≡ cancel_notifies))
Reached-sleeps s i r requested at = elim ((Reached-Inv r).awake requested) [
  | inl (k, h) ↦ (k, cancels-cases (s.threads k) h)
  | inr none_dozes ↦ absurd (cc (ap dozes at, none_dozes i))
]
