-- ===== src/Jobs/Control/Invariant.antt =====
-- What every reached state keeps: who holds the mutex, and who wakes the waiting threads.
use log_scope.Prelude.{
  ℕ, ◌≡◌, refl, sym, ap, ◌∙◌, subst, ◌≢◌, ◌⊎◌, inl, inr, Bool, true, false, Bool-cases, Option,
  none, some, ◌==◌, ==_iff, if◌then◌else◌,
}
use log_scope.Jobs.Control.{Thread, set, wake}
use Thread.{
  idle, cancel_locks, cancel_notifies, pause_locks, pause_stores, resume_locks, resume_stores,
  resume_notifies, checkpoint_locks, tests_paused, tests_cancel, waits, sleeps, wakes, drops,
  checks_again, returns,
}

-- The thread holds the mutex.
abbrev pub holds : Thread → Bool
holds cancel_notifies = true
holds pause_stores = true
holds resume_stores = true
holds resume_notifies = true
holds tests_paused = true
holds tests_cancel = true
holds waits = true
holds drops = true
holds _ = false

-- The thread has stored the cancellation and will notify.
abbrev pub cancels : Thread → Bool
cancels cancel_locks = true
cancels cancel_notifies = true
cancels _ = false

-- The thread sleeps, or has found no reason not to.
abbrev pub dozes : Thread → Bool
dozes waits = true
dozes sleeps = true
dozes _ = false

-- A thread that holds the mutex is the one that the mutex names.
abbrev pub LockedBy : Option ℕ → (ℕ → Thread) → Type 0
LockedBy holder threads = (i : ℕ) → holds (threads i) ≡ true → holder ≡ some i

-- Once the cancellation is stored, a thread is on its way to notify, or none dozes.
abbrev pub AwakeIn : Bool → (ℕ → Thread) → Type 0
AwakeIn cancel_requested threads =
    cancel_requested ≡ true
    → ((i : ℕ) × (cancels (threads i) ≡ true)) ⊎ ((i : ℕ) → dozes (threads i) ≡ false)

pub set_self : (threads : ℕ → Thread) (i : ℕ) (t : Thread) → set threads i t i ≡ t
unfolding set
set_self threads i t = rw ((==_iff i i).1 refl) refl

pub set_other :
    (threads : ℕ → Thread) (i : ℕ) (t : Thread) (j : ℕ)
    → (j == i) ≡ false
    → set threads i t j ≡ threads j
unfolding set
set_other threads i t j h = rw h refl

-- What holds of the new thread and of the others holds of all.
pub set_all :
    (P : ℕ → Thread → Type 0) (threads : ℕ → Thread) (i : ℕ) (t : Thread)
    → P i t
    → ((j : ℕ) → (j == i) ≡ false → P j (threads j))
    → (j : ℕ) → P j (set threads i t j)
set_all P threads i t self others j = elim (Bool-cases (j == i)) [
  | inl e ↦
      let same : j ≡ i = (==_iff j i).0 e in
      subst (λ k. P k (set threads i t k)) (sym same)
        (subst (P i) (sym (set_self threads i t)) self)
  | inr e ↦ subst (P j) (sym (set_other threads i t j e)) (others j e)
]

pub LockedBy-keep :
    (h : Option ℕ) (f : ℕ → Thread) (i : ℕ) (p q : Thread)
    → f i ≡ p
    → holds q ≡ holds p
    → LockedBy h f
    → LockedBy h (set f i q)
LockedBy-keep h f i p q at same l =
    set_all (λ j t. holds t ≡ true → h ≡ some j) f i q (λ e. l i (ap holds at ∙ sym same ∙ e))
      (λ j _. l j)

pub LockedBy-acquire :
    (h : Option ℕ) (f : ℕ → Thread) (i : ℕ) (q : Thread)
    → h ≡ none
    → LockedBy h f
    → LockedBy (some i) (set f i q)
LockedBy-acquire h f i q free l =
    set_all (λ j t. holds t ≡ true → some i ≡ some j) f i q (λ _. refl)
      (λ j _ e. absurd (cc (free, l j e)))

some_injective : {a b : ℕ} → some a ≡ some b → a ≡ b
some_injective h = cc h

-- Two threads do not hold the mutex.
pub only_holder :
    (h : Option ℕ) (f : ℕ → Thread) (i j : ℕ)
    → LockedBy h f
    → holds (f i) ≡ true
    → holds (f j) ≡ true
    → (j == i) ≢ false
only_holder h f i j l hi hj other =
    let same : j ≡ i = some_injective (sym (l j hj) ∙ l i hi) in cc (other, (==_iff j i).1 same)

pub LockedBy-release :
    (h : Option ℕ) (f : ℕ → Thread) (i : ℕ) (p q : Thread)
    → f i ≡ p
    → holds p ≡ true
    → holds q ≡ false
    → LockedBy h f
    → LockedBy none (set f i q)
LockedBy-release h f i p q at held free l =
    set_all (λ j t. holds t ≡ true → none ≡ some j) f i q (λ e. absurd (cc (free, e)))
      (λ j other e. absurd (only_holder h f i j l (ap holds at ∙ held) e other))

wake-holds : (t : Thread) → holds (wake t) ≡ holds t
unfolding wake
wake-holds sleeps = refl
wake-holds idle = refl
wake-holds cancel_locks = refl
wake-holds cancel_notifies = refl
wake-holds pause_locks = refl
wake-holds pause_stores = refl
wake-holds resume_locks = refl
wake-holds resume_stores = refl
wake-holds resume_notifies = refl
wake-holds checkpoint_locks = refl
wake-holds tests_paused = refl
wake-holds tests_cancel = refl
wake-holds waits = refl
wake-holds wakes = refl
wake-holds drops = refl
wake-holds checks_again = refl
wake-holds (returns r) = refl

wake-dozes : (t : Thread) → dozes (wake t) ≡ true → holds t ≡ true
unfolding wake
wake-dozes waits h = refl
wake-dozes idle h = absurd (cc h)
wake-dozes cancel_locks h = absurd (cc h)
wake-dozes cancel_notifies h = absurd (cc h)
wake-dozes pause_locks h = absurd (cc h)
wake-dozes pause_stores h = absurd (cc h)
wake-dozes resume_locks h = absurd (cc h)
wake-dozes resume_stores h = absurd (cc h)
wake-dozes resume_notifies h = absurd (cc h)
wake-dozes checkpoint_locks h = absurd (cc h)
wake-dozes tests_paused h = absurd (cc h)
wake-dozes tests_cancel h = absurd (cc h)
wake-dozes sleeps h = absurd (cc h)
wake-dozes wakes h = absurd (cc h)
wake-dozes drops h = absurd (cc h)
wake-dozes checks_again h = absurd (cc h)
wake-dozes (returns r) h = absurd (cc h)

pub LockedBy-notify :
    (h : Option ℕ) (f : ℕ → Thread) (i : ℕ) (p : Thread)
    → f i ≡ p
    → holds p ≡ true
    → LockedBy h f
    → LockedBy none (set (λ j. wake (f j)) i idle)
LockedBy-notify h f i p at held l =
    LockedBy-release h (λ j. wake (f j)) i (wake p) idle (ap wake at) (wake-holds p ∙ held) refl
      (λ j e. l j (sym (wake-holds (f j)) ∙ e))

pub AwakeIn-move :
    (c : Bool) (f : ℕ → Thread) (i : ℕ) (p q : Thread)
    → f i ≡ p
    → cancels q ≡ cancels p
    → dozes q ≡ dozes p
    → AwakeIn c f
    → AwakeIn c (set f i q)
AwakeIn-move c f i p q at same_cancels same_dozes a e = elim (a e) [
  | inl (k, ck) ↦ elim (Bool-cases (k == i)) [
    | inl ki ↦
        let same : k ≡ i = (==_iff k i).0 ki in
        inl (
          i,
          ap cancels (set_self f i q)
              ∙ same_cancels
              ∙ sym (ap cancels at)
              ∙ sym (ap (λ (n : ℕ). cancels (f n)) same)
              ∙ ck,
        )
    | inr ki ↦ inl (k, ap cancels (set_other f i q k ki) ∙ ck)
  ]
  | inr none_dozes ↦ inr (
      set_all (λ j t. dozes t ≡ false) f i q (same_dozes ∙ sym (ap dozes at) ∙ none_dozes i)
        (λ j _. none_dozes j))
]

pub AwakeIn-store : (c : Bool) (f : ℕ → Thread) (i : ℕ) → AwakeIn c (set f i cancel_locks)
AwakeIn-store c f i e = inl (i, ap cancels (set_self f i cancel_locks))

pub AwakeIn-notify :
    (c : Bool) (h : Option ℕ) (f : ℕ → Thread) (i : ℕ) (p : Thread)
    → f i ≡ p
    → holds p ≡ true
    → LockedBy h f
    → AwakeIn c (set (λ j. wake (f j)) i idle)
AwakeIn-notify c h f i p at held l e = inr (
    set_all (λ j t. dozes t ≡ false) (λ j. wake (f j)) i idle refl
      (λ j other. elim (Bool-cases (dozes (wake (f j)))) [
        | inl d ↦ absurd (only_holder h f i j l (ap holds at ∙ held) (wake-dozes (f j) d) other)
        | inr d ↦ d
      ]))

pub AwakeIn-test :
    (c : Bool) (f : ℕ → Thread) (i : ℕ)
    → f i ≡ tests_cancel
    → AwakeIn c f
    → AwakeIn c (set f i (if c then drops else waits))
AwakeIn-test true f i at a e = AwakeIn-move true f i tests_cancel drops at refl refl a e
AwakeIn-test false f i at a e = absurd (cc e)
