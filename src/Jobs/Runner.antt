-- ===== src/Jobs/Runner.antt =====
-- Running a job with lifecycle events and panic isolation (crates/logscope-jobs/src/runner.rs and
-- error.rs). The event channel, the clock, the job's body and JSON values are parameters: a body
-- takes the channel and leaves it with the events that it reported.
pub mod Lifecycle
use log_scope.Prelude.{
  String, ℕ, Bool, true, false, List, [], ◌∷◌, ◌++◌, Option, none, some, if◌then◌else◌,
}
use log_scope.Text.{Text, codes, text_eq}

pub record JobError (V : Type 0) : Type 0 where
  pub code : Text
  pub message : Text
  pub detail : Option V
  pub retryable : Bool

pub data JobStatus : Type 0 where
  pending running paused cancelled failed completed : JobStatus

pub record JobProgress : Type 0 where
  pub stage : Text
  pub current_item : Option Text
  pub records_accepted : ℕ
  pub records_rejected : ℕ
  pub records_unparsed : ℕ
  pub records_duplicate : ℕ
  pub bytes_processed : ℕ
  pub bytes_total : Option ℕ

pub data JobEvent (V : Type 0) : Type 0 where
  started : (job_id kind : Text) (at_unix_ms : ℕ) → JobEvent V
  progress : (job_id : Text) (progress : JobProgress) → JobEvent V
  finished :
      (job_id : Text) (status : JobStatus) (error : Option (JobError V)) (at_unix_ms : ℕ)
      → JobEvent V

-- `Result<T, JobError>`
pub data JobResult (V T : Type 0) : Type 0 where
  ok : T → JobResult V T
  err : JobError V → JobResult V T

-- What `catch_unwind` gives; a panic carries a `&str`, a `String`, or something else.
pub data Unwound (V T : Type 0) : Type 0 where
  returned : JobResult V T → Unwound V T
  panicked_str panicked_string : Text → Unwound V T
  panicked_other : Unwound V T

module _ {V : Type 0} where
  -- `JobError::new`
  unfoldable pub new_error : Text → Text → JobError V
  new_error code message = record {
    code = code;
    message = message;
    detail = none;
    retryable = false;
  }

  -- `JobError::retryable`
  unfoldable pub as_retryable : JobError V → JobError V
  as_retryable e = record e { retryable = true }

  -- `JobError::with_detail`
  unfoldable pub with_detail : JobError V → V → JobError V
  with_detail e d = record e { detail = some d }

  unfoldable pub panic_error : Text → JobError V
  panic_error msg = new_error (codes "job/panic") (codes "job panicked: " ++ msg)

  -- `From<Cancelled> for JobError`
  unfoldable pub from_cancelled : JobError V
  from_cancelled = new_error (codes "job/cancelled") (codes "the job was cancelled")

module _ {V T : Type 0} where
  unfoldable pub result_of : Unwound V T → JobResult V T
  result_of (returned r) = r
  result_of (panicked_str msg) = err (panic_error msg)
  result_of (panicked_string msg) = err (panic_error msg)
  result_of panicked_other = err (panic_error (codes "unknown panic payload"))

  unfoldable pub status_of : JobResult V T → JobStatus × Option (JobError V)
  status_of (ok t) = (completed, none)
  status_of (err e) =
      if text_eq e.code (codes "job/cancelled") then (cancelled, some e) else (failed, some e)

  -- `JobHandle::join`, for a thread that ended with a result, or that panicked itself
  unfoldable pub join : Option (JobResult V T) → JobResult V T
  join (some r) = r
  join none =
      err (
        new_error (codes "job/panic")
          (codes "job thread panicked; see application log for details"))

module _ {V C : Type 0} (try_send : C → JobEvent V → C) where
  -- `JobContext::report`
  unfoldable pub report : Text → C → JobProgress → C
  report job_id events p = try_send events (progress job_id p)

  -- The thread of `spawn_job`, from the start of its closure; the two times are what `now_ms` says
  -- there.
  unfoldable pub run_job :
      {T : Type 0} (job_id kind : Text) (at_start at_end : ℕ)
      → (work : C → C × Unwound V T) → C
      → C × JobResult V T
  run_job job_id kind at_start at_end work events =
      let ran = work (try_send events (started job_id kind at_start)) in
      let result = result_of ran.1 in
      (try_send ran.0 (finished job_id (status_of result).0 (status_of result).1 at_end), result)
