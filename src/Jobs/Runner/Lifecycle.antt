-- ===== src/Jobs/Runner/Lifecycle.antt =====
-- The events of a job that runs, and what they say of its result.
use log_scope.Prelude.{
  ◌≡◌, ◌≢◌, sym, ap, ◌∙◌, ℕ, Bool-cases, inl, inr, List, [], ◌∷◌, ◌++◌, map, append_assoc, Option,
  none, some,
}
use log_scope.Text.{Text, codes, text_eq, text_eq→eq, text_eq_refl}
use log_scope.Jobs.Runner.{
  JobError, JobStatus, JobProgress, JobEvent, JobResult, Unwound, result_of, status_of, run_job,
}
use JobStatus.{completed, cancelled, failed}
use JobResult.{ok, err}
use JobEvent.{started, finished, progress}

-- What the last event has to say of a result.
pub data Agrees {V T : Type 0} : JobResult V T → JobStatus → Option (JobError V) → Type 0 where
  done : (t : T) → Agrees (ok t) completed none
  stopped : (e : JobError V) → e.code ≡ codes "job/cancelled" → Agrees (err e) cancelled (some e)
  broke : (e : JobError V) → e.code ≢ codes "job/cancelled" → Agrees (err e) failed (some e)

status_of-Agrees : {V T : Type 0} (r : JobResult V T) → Agrees r (status_of r).0 (status_of r).1
unfolding status_of
status_of-Agrees (ok t) = done t
status_of-Agrees (err e) = elim (Bool-cases (text_eq e.code (codes "job/cancelled"))) [
  | inl h ↦ rw h (stopped e (text_eq→eq e.code (codes "job/cancelled") h))
  | inr h ↦ rw h (
      broke e (λ same. cc (
        sym h
        ∙ (ap (λ c. text_eq c (codes "job/cancelled")) same
            ∙ text_eq_refl (codes "job/cancelled")))))
]

in_order :
    {A : Type 0} (before begun reported middle : List A) (x y : A)
    → reported ≡ begun ++ middle
    → begun ≡ before ++ x ∷ []
    → reported ++ y ∷ [] ≡ before ++ (x ∷ (middle ++ y ∷ []))
in_order before begun reported middle x y reports begins =
    ap (λ l. l ++ y ∷ []) reports
    ∙ ap (λ l. (l ++ middle) ++ y ∷ []) begins
    ∙ append_assoc (before ++ x ∷ []) middle (y ∷ [])
    ∙ append_assoc before (x ∷ []) (middle ++ y ∷ [])

-- A job whose channel keeps every event and whose body sends nothing but its progress sends,
-- whatever the body returns or panics with, the start, that progress, and one end that agrees with
-- the result.
pub run_job-Agrees :
    {V T C : Type 0} (try_send : C → JobEvent V → C) (sent : C → List (JobEvent V))
    (job_id kind : Text) (at_start at_end : ℕ) (work : C → C × Unwound V T) (events : C)
    → ((c : C) (e : JobEvent V) → sent (try_send c e) ≡ sent c ++ e ∷ [])
    → ((c : C)
        → (ps : List JobProgress) × (sent (work c).0 ≡ sent c ++ map (λ p. progress job_id p) ps))
    → (ps : List JobProgress) × (status : JobStatus) × (error : Option (JobError V)) × (sent
          (run_job try_send job_id kind at_start at_end work events).0
        ≡ sent events
          ++ (started job_id kind at_start
              ∷ (map (λ p. progress job_id p) ps ++ finished job_id status error at_end ∷ [])))
      × Agrees (run_job try_send job_id kind at_start at_end work events).1 status error
unfolding run_job
run_job-Agrees try_send sent job_id kind at_start at_end work events sends reports =
    let begun = try_send events (started job_id kind at_start) in
    let result = result_of (work begun).1 in
    let (ps, reported) = reports begun in
    let whole =
      sends (work begun).0 (finished job_id (status_of result).0 (status_of result).1 at_end) in
    (
      ps,
      (status_of result).0,
      (status_of result).1,
      whole
          ∙ in_order (sent events) _ _ (map (λ p. progress job_id p) ps) _ _ reported
              (sends events (started job_id kind at_start)),
      status_of-Agrees result,
    )
