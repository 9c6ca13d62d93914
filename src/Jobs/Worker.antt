-- ===== src/Jobs/Worker.antt =====
-- jobs/worker.py: one round of a worker. The processor is a parameter, and so is what the heartbeat
-- thread, other workers and the API do to the queue while it works (`meanwhile`).
use Prim.Native.String.{count}
use decision_assurance.Prelude.{
  String, Bool, true, false, not, ◌&&◌, ◌||◌, Option, none, some, ◌==◌, ltb, Result, ok, err,
  if◌then◌else◌,
}
use decision_assurance.Jobs.Contracts.{JobPolicy, cancelled, Instant, ResearchJob}
use decision_assurance.Jobs.Store.{Db, JobError}
use decision_assurance.Jobs.Repository
use decision_assurance.Jobs.Repository.{View, is_cancelled}

-- how the processor ends: with `partial`, with RetryableJobError or NonRetryableJobError and its text, or
-- with another exception, which `run_once` lets through
pub data Processed : Type 0 where
  worked : Bool → Processed
  retryable_error terminal_error other_error : String → Processed

-- an exception of a round: one of the repository or one of the processor
pub data RoundError : Type 0 where
  of_repository : JobError → RoundError
  of_processor : String → RoundError

-- what a round returns or raises, and the queue that it leaves: its transactions are separate
pub record Round : Type 0 where
  pub result : Result RoundError Bool
  pub db : Db

-- `_reason`
unfoldable pub reason_of : String → String → String
reason_of value fallback =
    if not (value == "") && not (ltb 128 (count value)) then value else fallback

abbrev pub has_status_cancelled : ResearchJob → Bool
has_status_cancelled job = elim job.status [ cancelled ↦ true | _ ↦ false ]

-- the last transaction of a round
abbrev pub ended : Result JobError (Unit {0} × Db) → Db → Round
ended (ok (_, db')) db = record { result = ok true; db = db' }
ended (err e) db = record { result = err (of_repository e); db = db }

module _ (sha256_hex : String → String) (policy : JobPolicy) where
  -- `complete` or `fail`, as the processor has ended
  unfoldable pub settle : ResearchJob → String → Processed → Instant → Db → Round
  unfolding reason_of
  settle job token (worked is_partial) now db =
      ended (Repository.complete sha256_hex policy job.tenant_id job.job_id token is_partial now db)
        db
  settle job token (retryable_error text) now db =
      ended
        (Repository.fail sha256_hex policy job.tenant_id job.job_id token
          (reason_of text "RETRYABLE_JOB_FAILURE") true now db)
        db
  settle job token (terminal_error text) now db =
      ended
        (Repository.fail sha256_hex policy job.tenant_id job.job_id token
          (reason_of text "NON_RETRYABLE_JOB_FAILURE") false now db)
        db
  settle job token (other_error text) now db = record { result = err (of_processor text); db = db }

  -- the end of a round after the processor has ended: another exception leaves at once, and a job that
  -- is cancelled or whose lease is lost is not settled
  unfoldable pub finish : Bool → Instant → ResearchJob → String → Processed → Db → Round
  unfolding settle is_cancelled
  finish lost later job token (other_error text) db = settle job token (other_error text) later db
  finish lost later job token outcome db =
      if lost || is_cancelled job.tenant_id job.job_id db
      then record { result = ok true; db = db }
      else settle job token outcome later db

  -- the work on a claimed job; `lost` says whether the lease was lost on the way
  unfoldable pub work :
      (ResearchJob → Processed) → (Db → Db) → Bool → Instant → ResearchJob → String → Db → Round
  unfolding finish is_cancelled
  work processor meanwhile lost later job token db =
      if has_status_cancelled job || is_cancelled job.tenant_id job.job_id db
      then record { result = ok true; db = db }
      else finish lost later job token (processor job) (meanwhile db)

  -- what a round does with the outcome of its claim
  unfoldable pub after_claim :
      (ResearchJob → Processed)
      → (Db → Db)
      → Bool
      → Instant
      → Db
      → Result JobError (Option (ResearchJob × String) × Db)
      → Round
  unfolding work
  after_claim processor meanwhile lost later db (err e) = record {
    result = err (of_repository e);
    db = db;
  }
  after_claim processor meanwhile lost later db (ok (none, db')) = record {
    result = ok false;
    db = db';
  }
  after_claim processor meanwhile lost later db (ok (some (job, token), db')) =
      work processor meanwhile lost later job token db'

  -- `run_once`; `token` is the fresh lease token and `later` the clock's reading at the end
  unfoldable pub run_once :
      (ResearchJob → Processed)
      → (Db → Db)
      → Bool
      → View
      → String
      → String
      → Instant
      → Instant
      → Db
      → Round
  unfolding after_claim
  run_once processor meanwhile lost view worker_id token now later db =
      after_claim processor meanwhile lost later db
        (Repository.claim sha256_hex policy view worker_id token now db)
