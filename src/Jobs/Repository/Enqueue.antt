-- ===== src/Jobs/Repository/Enqueue.antt =====
-- jobs/postgresql.py: `PostgresJobRepository.enqueue` and `requeue`. `tenant` is the text of a
-- `TenantContext`.
use decision_assurance.Prelude.{
  String, Bool, true, false, not, ◌&&◌, ◌||◌, Option, none, some, [], ◌∷◌, ◌++◌, ◌==◌, any,
  find_first, if◌then◌else◌, ok, err,
}
use decision_assurance.Jobs.Contracts.{
  JobStatus, queued, completed, partial, failed, dead_letter, Instant, ResearchJob,
}
use decision_assurance.Jobs.Store.{
  Row, Db, Tx, ◌>>=◌, ◌>>◌, pure, raise, gets, or_raise, has_key, has_run, update_returning,
  row_to_job, append_event, invalid_job_enqueue, convergence_failed, job_payload_conflict,
  unique_violation, foreign_key_violation, job_not_found, job_not_retryable,
}

-- the columns that the INSERT names; the lease columns and the error are NULL
abbrev pub new_row : String → ResearchJob → Row
new_row tenant job = record {
  job = record job { tenant_id = tenant; lease_token_hash = none; lease_expires_at = none };
  last_error_code = none;
}

-- FOREIGN KEY (tenant_id, research_run_id) REFERENCES research_runs
abbrev pub run_exists : String → String → Db → Bool
run_exists tenant run_id db = any (λ run. run.0 == tenant && run.1 == run_id) db.runs

-- INSERT … ON CONFLICT (tenant_id, research_run_id) DO NOTHING; true if the row went in
unfoldable pub insert_job : String → ResearchJob → Tx Bool
insert_job tenant job db =
    if any (has_run tenant job.research_run_id) db.jobs
    then ok (false, db)
    else if any (has_key tenant job.job_id) db.jobs
    then err unique_violation
    else if run_exists tenant job.research_run_id db
    then ok (true, record db { jobs = db.jobs ++ new_row tenant job ∷ [] })
    else err foreign_key_violation

abbrev pub is_queued : JobStatus → Bool
is_queued queued = true
is_queued _ = false

-- `if inserted.rowcount == 1: self._append_event(…)`
unfoldable pub note_insert : Bool → ResearchJob → Instant → Tx (Unit {0})
unfolding append_event
note_insert true job now = append_event job "JOB_QUEUED" now none none
note_insert false job now = pure tt

-- the comparison of the stored job with the one to enqueue, and the queue event
unfoldable pub settle_insert : Bool → ResearchJob → ResearchJob → Tx ResearchJob
unfolding note_insert
settle_insert inserted job existing =
    if not (existing.payload_hash == job.payload_hash)
    then raise job_payload_conflict
    else do note_insert inserted existing job.updated_at; pure existing

-- the transaction of `enqueue`
unfoldable pub enqueue_tx : String → ResearchJob → Tx ResearchJob
unfolding insert_job row_to_job settle_insert
enqueue_tx tenant job = do
  inserted ← insert_job tenant job
  found ← gets (λ db. find_first (has_run tenant job.research_run_id) db.jobs)
  row ← or_raise found convergence_failed
  existing ← row_to_job row
  settle_insert inserted job existing

unfoldable pub enqueue : String → ResearchJob → Tx ResearchJob
unfolding enqueue_tx
enqueue tenant job =
    if not (tenant == job.tenant_id) || not (is_queued job.status)
    then raise invalid_job_enqueue
    else enqueue_tx tenant job

abbrev pub is_retryable : JobStatus → Bool
is_retryable completed = true
is_retryable partial = true
is_retryable failed = true
is_retryable dead_letter = true
is_retryable _ = false

abbrev pub requeued : String → Instant → Row → Row
requeued correlation_id now r = record {
  job = record r.job {
    status = queued;
    correlation_id = correlation_id;
    attempt_count = 0;
    available_at = now;
    lease_token_hash = none;
    lease_expires_at = none;
    updated_at = now;
  };
  last_error_code = none;
}

-- the branch `row is None` of `requeue`
unfoldable pub refuse_requeue : Bool → Tx ResearchJob
refuse_requeue true = raise job_not_retryable
refuse_requeue false = raise job_not_found

-- what `requeue` does with the row that the UPDATE returned
unfoldable pub record_requeue : String → String → Instant → Option Row → Tx ResearchJob
unfolding row_to_job append_event refuse_requeue
record_requeue tenant job_id now none = do
  exists ← gets (λ db. any (has_key tenant job_id) db.jobs)
  refuse_requeue exists
record_requeue tenant job_id now (some r) = do
  job ← row_to_job r
  append_event job "JOB_REQUEUED" now none none
  pure job

unfoldable pub requeue : String → String → String → Instant → Tx ResearchJob
unfolding update_returning record_requeue
requeue tenant job_id correlation_id now = do
  row ←
      update_returning (λ r. has_key tenant job_id r && is_retryable r.status)
        (requeued correlation_id now)
  record_requeue tenant job_id now row
