-- ===== src/Jobs/Calls.antt =====
-- The calls of a job repository, as the API and the workers make them in any order, each a
-- transaction: one that raises is rolled back.
use decision_assurance.Prelude.{String, Bool, List, [], ◌∷◌, Result, ok, err}
use decision_assurance.Jobs.Contracts.{JobPolicy, Instant, ResearchJob}
use decision_assurance.Jobs.Store.{Db, JobError}
use decision_assurance.Jobs.Repository
use decision_assurance.Jobs.Repository.{View, enqueue, requeue, cancel}

pub data Call : Type 0 where
  enqueue_job : String → ResearchJob → Call
  requeue_job : String → String → String → Instant → Call
  claim_job : View → String → String → Instant → Call
  heartbeat_job : String → String → String → Instant → Call
  complete_job : String → String → String → Bool → Instant → Call
  fail_job : String → String → String → String → Bool → Instant → Call
  cancel_job : String → String → Instant → Call
  recover_jobs : Instant → Call

-- the tables after a transaction
abbrev pub committed : {A : Type 0} → Result JobError (A × Db) → Db → Db
committed (ok (a, db')) db = db'
committed (err e) db = db

module _ (sha : String → String) (policy : JobPolicy) where
  unfoldable pub perform : Call → Db → Db
  perform (enqueue_job tenant job) db = committed (enqueue tenant job db) db
  perform (requeue_job tenant job_id correlation_id now) db =
      committed (requeue tenant job_id correlation_id now db) db
  perform (claim_job view worker_id token now) db =
      committed (Repository.claim sha policy view worker_id token now db) db
  perform (heartbeat_job tenant job_id token now) db =
      committed (Repository.heartbeat sha policy tenant job_id token now db) db
  perform (complete_job tenant job_id token is_partial now) db =
      committed (Repository.complete sha policy tenant job_id token is_partial now db) db
  perform (fail_job tenant job_id token reason_code retryable now) db =
      committed (Repository.fail sha policy tenant job_id token reason_code retryable now db) db
  perform (cancel_job tenant job_id now) db = committed (cancel tenant job_id now db) db
  perform (recover_jobs now) db = committed (Repository.recover_stale sha policy now db) db

  unfoldable pub perform_all : List Call → Db → Db
  unfolding perform
  perform_all [] db = db
  perform_all (c ∷ cs) db = perform_all cs (perform c db)
