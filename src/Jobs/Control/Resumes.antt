-- ===== src/Jobs/Control/Resumes.antt =====
-- A sleeping thread is paused: otherwise a thread that resumes is about to notify it.
use log_scope.Prelude.{
  ℕ, ◌≡◌, refl, sym, ap, ◌∙◌, ◌⊎◌, inl, inr, Bool, true, false, Bool-cases, Option, ◌==◌, ==_iff,
  if◌then◌else◌,
}
use log_scope.Jobs.Control.{Thread, State, Step, Reached, new, set, wake}
use log_scope.Jobs.Control.Invariant.{holds, LockedBy, set_self, set_other, set_all, only_holder}
use log_scope.Jobs.Control.Wakeups.{Inv, Reached-Inv, same_kind}
use Thread.{
  idle, cancel_locks, cancel_notifies, pause_locks, pause_stores, resume_locks, resume_stores,
  resume_notifies, checkpoint_locks, tests_paused, tests_cancel, waits, sleeps, wakes, drops,
  checks_again, returns,
}
use Step.{
  cancel_store, cancel_lock, cancel_notify, pause_call, pause_lock, pause_store, resume_call,
  resume_lock, resume_store, resume_notify, checkpoint_call, checkpoint_lock, test_paused,
  test_cancel, wait, wake_lock, drop_guard, check_again, return,
}
use Reached.{start, next}

-- The thread has stored the end of the pause and will notify.
abbrev resumes : Thread → Bool
resumes resume_notifies = true
resumes _ = false

-- The thread sleeps, or has read that it has to pause.
abbrev rests : Thread → Bool
rests tests_cancel = true
rests waits = true
rests sleeps = true
rests _ = false

-- Without a pause, a thread is on its way to notify, or none rests.
abbrev RestIn : Bool → (ℕ → Thread) → Type 0
RestIn paused f =
    paused ≡ false → ((i : ℕ) × (resumes (f i) ≡ true)) ⊎ ((i : ℕ) → rests (f i) ≡ false)

RestIn-move :
    (b : Bool) (f : ℕ → Thread) (i : ℕ) (p q : Thread)
    → f i ≡ p
    → resumes p ≡ false
    → (rests p ≡ false → rests q ≡ false)
    → RestIn b f
    → RestIn b (set f i q)
RestIn-move b f i p q at quiet keeps r e = elim (r e) [
  | inl (k, hk) ↦ elim (Bool-cases (k == i)) [
    | inl ki ↦
        let same : k ≡ i = (==_iff k i).0 ki in
        let both : true ≡ false =
          sym hk ∙ ap (λ (n : ℕ). resumes (f n)) same ∙ ap resumes at ∙ quiet in
        absurd (cc both)
    | inr ki ↦ inl (k, ap resumes (set_other f i q k ki) ∙ hk)
  ]
  | inr none_rests ↦ inr (
      set_all (λ j t. rests t ≡ false) f i q (keeps (sym (ap rests at) ∙ none_rests i))
        (λ j _. none_rests j))
]

wake-rests : (t : Thread) → rests (wake t) ≡ true → holds t ≡ true
unfolding wake
wake-rests waits h = refl
wake-rests tests_cancel h = refl
wake-rests idle h = absurd (cc h)
wake-rests cancel_locks h = absurd (cc h)
wake-rests cancel_notifies h = absurd (cc h)
wake-rests pause_locks h = absurd (cc h)
wake-rests pause_stores h = absurd (cc h)
wake-rests resume_locks h = absurd (cc h)
wake-rests resume_stores h = absurd (cc h)
wake-rests resume_notifies h = absurd (cc h)
wake-rests checkpoint_locks h = absurd (cc h)
wake-rests tests_paused h = absurd (cc h)
wake-rests sleeps h = absurd (cc h)
wake-rests wakes h = absurd (cc h)
wake-rests drops h = absurd (cc h)
wake-rests checks_again h = absurd (cc h)
wake-rests (returns r) h = absurd (cc h)

RestIn-notify :
    (b : Bool) (h : Option ℕ) (f : ℕ → Thread) (i : ℕ) (p : Thread)
    → f i ≡ p
    → holds p ≡ true
    → LockedBy h f
    → RestIn b (set (λ j. wake (f j)) i idle)
RestIn-notify b h f i p at held l e = inr (
    set_all (λ j t. rests t ≡ false) (λ j. wake (f j)) i idle refl
      (λ j other. elim (Bool-cases (rests (wake (f j)))) [
        | inl d ↦ absurd (only_holder h f i j l (ap holds at ∙ held) (wake-rests (f j) d) other)
        | inr d ↦ d
      ]))

RestIn-test :
    (b : Bool) (f : ℕ → Thread) (i : ℕ)
    → f i ≡ tests_paused
    → RestIn b f
    → RestIn b (set f i (if b then tests_cancel else drops))
RestIn-test true f i at r e = absurd (cc e)
RestIn-test false f i at r e = RestIn-move false f i tests_paused drops at refl (λ _. refl) r e

RestIn-Step :
    {s s' : State} → Step s s' → Inv s → RestIn s.paused s.threads → RestIn s'.paused s'.threads
RestIn-Step {s} (cancel_store i at) v r =
    RestIn-move s.paused s.threads i idle cancel_locks at refl (λ _. refl) r
RestIn-Step {s} (cancel_lock i at free) v r =
    RestIn-move s.paused s.threads i cancel_locks cancel_notifies at refl (λ _. refl) r
RestIn-Step {s} (pause_call i at) v r =
    RestIn-move s.paused s.threads i idle pause_locks at refl (λ _. refl) r
RestIn-Step {s} (pause_lock i at free) v r =
    RestIn-move s.paused s.threads i pause_locks pause_stores at refl (λ _. refl) r
RestIn-Step {s} (resume_call i at) v r =
    RestIn-move s.paused s.threads i idle resume_locks at refl (λ _. refl) r
RestIn-Step {s} (resume_lock i at free) v r =
    RestIn-move s.paused s.threads i resume_locks resume_stores at refl (λ _. refl) r
RestIn-Step {s} (checkpoint_lock i at free) v r =
    RestIn-move s.paused s.threads i checkpoint_locks tests_paused at refl (λ _. refl) r
RestIn-Step {s} (wait i at) v r = RestIn-move s.paused s.threads i waits sleeps at refl (λ h. h) r
RestIn-Step {s} (wake_lock i at free) v r =
    RestIn-move s.paused s.threads i wakes tests_paused at refl (λ _. refl) r
RestIn-Step {s} (drop_guard i at) v r =
    RestIn-move s.paused s.threads i drops checks_again at refl (λ _. refl) r
RestIn-Step {s} (check_again i at) v r =
    RestIn-move s.paused s.threads i checks_again (returns s.cancel_requested) at refl (λ _. refl) r
RestIn-Step {s} (cancel_notify i at) v r =
    RestIn-notify s.paused s.holder s.threads i _ at refl v.locked
RestIn-Step {s} (resume_notify i at) v r =
    RestIn-notify s.paused s.holder s.threads i _ at refl v.locked
RestIn-Step {s} (pause_store i at) v r = λ e. absurd (cc e)
RestIn-Step {s} (resume_store i at) v r =
    λ e. inl (i, ap resumes (set_self s.threads i resume_notifies))
RestIn-Step {s} (checkpoint_call i at) v r =
    RestIn-move s.paused s.threads i idle
      (if s.cancel_requested then returns true else checkpoint_locks) at refl
      (λ _. same_kind rests false s.cancel_requested refl refl) r
RestIn-Step {s} (test_paused i at) v r = RestIn-test s.paused s.threads i at r
RestIn-Step {s} (test_cancel i at) v r =
    RestIn-move s.paused s.threads i tests_cancel (if s.cancel_requested then drops else waits) at
      refl (λ h. absurd (cc h)) r
RestIn-Step {s} (return i {r = c} at) v r =
    RestIn-move s.paused s.threads i (returns c) idle at refl (λ _. refl) r

Reached-RestIn : {s : State} → Reached s → RestIn s.paused s.threads
unfolding new
Reached-RestIn start = λ e. inr (λ i. refl)
Reached-RestIn (next r t) = RestIn-Step t (Reached-Inv r) (Reached-RestIn r)

resumes_notify : (t : Thread) → resumes t ≡ true → t ≡ resume_notifies
resumes_notify resume_notifies h = refl
resumes_notify idle h = absurd (cc h)
resumes_notify cancel_locks h = absurd (cc h)
resumes_notify cancel_notifies h = absurd (cc h)
resumes_notify pause_locks h = absurd (cc h)
resumes_notify pause_stores h = absurd (cc h)
resumes_notify resume_locks h = absurd (cc h)
resumes_notify resume_stores h = absurd (cc h)
resumes_notify checkpoint_locks h = absurd (cc h)
resumes_notify tests_paused h = absurd (cc h)
resumes_notify tests_cancel h = absurd (cc h)
resumes_notify waits h = absurd (cc h)
resumes_notify sleeps h = absurd (cc h)
resumes_notify wakes h = absurd (cc h)
resumes_notify drops h = absurd (cc h)
resumes_notify checks_again h = absurd (cc h)
resumes_notify (returns r) h = absurd (cc h)

-- In every reached state in which a thread sleeps in `checkpoint`, the job is paused, or a thread
-- that ended the pause is about to notify it.
pub Reached-paused :
    (s : State) (i : ℕ)
    → Reached s
    → s.threads i ≡ sleeps
    → (s.paused ≡ true) ⊎ ((k : ℕ) × (s.threads k ≡ resume_notifies))
Reached-paused s i r at = elim (Bool-cases s.paused) [
  | inl e ↦ inl e
  | inr e ↦ elim (Reached-RestIn r e) [
    | inl (k, h) ↦ inr (k, resumes_notify (s.threads k) h)
    | inr none_rests ↦
        let both : true ≡ false = sym (ap rests at) ∙ none_rests i in absurd (cc both)
  ]
]
