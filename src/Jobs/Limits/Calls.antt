-- ===== src/Jobs/Limits/Calls.antt =====
-- jobs/postgresql.py: every call of `PostgresJobRepository` and the concurrency limits of the tenants.
use Prim.Native.String.{count}
use decision_assurance.Prelude.{
  ℕ, ◌+◌, String, ◌≡◌, refl, Bool, true, false, not, ◌&&◌, ◌||◌, Option, none, some, List, [], ◌∷◌,
  ◌++◌, arith, ◌==◌, eqb, ltb, any, Bool-cases, inl, inr, count_if, count_if-append, All,
}
use decision_assurance.Jobs.Contracts.{JobStatus, JobPolicy, Instant, ResearchJob, cancelled}
use decision_assurance.Jobs.Store.{
  Row, Db, ◌>>=◌, pure, raise, update_returning, has_key, has_run, is_running, invalid_job_enqueue,
  job_payload_conflict, invalid_job_failure_reason,
}
use decision_assurance.Jobs.Rows.{UniqueKeys-append}
use decision_assurance.Jobs.Keeps.{
  Keeps, Keeps-pure, Keeps-raise, Keeps-if, Keeps-bind, Keeps-gets, Keeps-required, Keeps-reads,
}
use decision_assurance.Jobs.Repository
use decision_assurance.Jobs.Repository.{
  running_count, concurrency_limit, new_row, run_exists, insert_job, is_queued, note_insert,
  settle_insert, enqueue, enqueue_tx, refuse_requeue, record_requeue, requeue, requeued, cancel,
  stop_job, completion, finished, released, sort_by_lease_end, is_stale, is_terminal,
}
use decision_assurance.Jobs.Invariant.Leases
use decision_assurance.Jobs.Limits.{
  IsWithinLimits, SeesRunning, append_event-IsWithinLimits, row_to_job-IsWithinLimits,
  claim-IsWithinLimits, update_where-IsWithinLimits, update_returning-IsWithinLimits,
}
use decision_assurance.Jobs.Queue.{committed_keeps}
use decision_assurance.Jobs.Calls.{
  Call, enqueue_job, requeue_job, claim_job, heartbeat_job, complete_job, fail_job, cancel_job,
  recover_jobs, perform, perform_all,
}

-- a claim, if the call is one, misses no running job
abbrev pub Sees : Call → Type 0
Sees (claim_job view worker_id token now) = SeesRunning view
Sees _ = Unit

note_insert-IsWithinLimits :
    (b : Bool) (job : ResearchJob) (now : Instant) (db : Db)
    → Keeps IsWithinLimits (note_insert b job now) db
unfolding note_insert
note_insert-IsWithinLimits true job now db =
    append_event-IsWithinLimits job "JOB_QUEUED" now none none db
note_insert-IsWithinLimits false job now db = Keeps-pure tt db

running_count-new_row :
    (t u : String) (job : ResearchJob) (rs : List Row)
    → is_queued job.status ≡ true
    → running_count u (rs ++ new_row t job ∷ []) ≡ running_count u rs
running_count-new_row t u job rs q =
    rw (count_if-append (λ r. r.tenant_id == u && is_running r.status) rs (new_row t job ∷ []))
      (ground arith)

insert_job-IsWithinLimits :
    (t : String) (job : ResearchJob) (db : Db)
    → is_queued job.status ≡ true
    → Keeps IsWithinLimits (insert_job t job) db
unfolding insert_job
insert_job-IsWithinLimits t job db q = record {
  at = λ v. elim (Bool-cases (any (has_run t job.research_run_id) db.jobs)) [
    | inl e ↦ rw e v
    | inr e ↦ elim (Bool-cases (any (has_key t job.job_id) db.jobs)) [
      | inl k ↦ rw (e, k) tt
      | inr k ↦ elim (Bool-cases (run_exists t job.research_run_id db)) [
        | inl f ↦
            rw (e, k, f)
              (record {
                unique = UniqueKeys-append db.jobs (new_row t job) k v.unique;
                within = λ u. rw (running_count-new_row t u job db.jobs q) (v.within u);
              })
        | inr f ↦ rw (e, k, f) tt
      ]
    ]
  ];
}

settle_insert-IsWithinLimits :
    (b : Bool) (job existing : ResearchJob) (db : Db)
    → Keeps IsWithinLimits (settle_insert b job existing) db
unfolding settle_insert
settle_insert-IsWithinLimits b job existing db =
    Keeps-if (not (existing.payload_hash == job.payload_hash)) (raise job_payload_conflict)
      (note_insert b existing job.updated_at >>= λ _. pure existing) db
      (λ _. Keeps-raise job_payload_conflict db)
      λ _.
        Keeps-bind _ _ db (note_insert-IsWithinLimits b existing job.updated_at db)
          λ _ d _. Keeps-pure existing d

enqueue-IsWithinLimits :
    (t : String) (job : ResearchJob) (db : Db) → Keeps IsWithinLimits (enqueue t job) db
unfolding enqueue enqueue_tx
enqueue-IsWithinLimits t job db =
    Keeps-if (not (t == job.tenant_id) || not (is_queued job.status)) (raise invalid_job_enqueue)
      (enqueue_tx t job) db (λ bad. Keeps-raise invalid_job_enqueue db)
      λ good.
        Keeps-bind _ _ db (insert_job-IsWithinLimits t job db (ground arith)) λ inserted db' _.
          Keeps-gets _ _ db' (
            Keeps-required _ _ _ db' λ row _.
              Keeps-bind _ _ db' (row_to_job-IsWithinLimits row db')
                λ existing db'' _. settle_insert-IsWithinLimits inserted job existing db'')

refuse_requeue-IsWithinLimits : (b : Bool) (db : Db) → Keeps IsWithinLimits (refuse_requeue b) db
unfolding refuse_requeue
refuse_requeue-IsWithinLimits true db = Keeps-raise _ db
refuse_requeue-IsWithinLimits false db = Keeps-raise _ db

record_requeue-IsWithinLimits :
    (t j : String) (now : Instant) (o : Option Row) (db : Db)
    → Keeps IsWithinLimits (record_requeue t j now o) db
unfolding record_requeue
record_requeue-IsWithinLimits t j now none db =
    Keeps-gets _ _ db (refuse_requeue-IsWithinLimits _ db)
record_requeue-IsWithinLimits t j now (some r) db =
    Keeps-bind _ _ db (row_to_job-IsWithinLimits r db) λ job d _.
      Keeps-bind _ _ d (append_event-IsWithinLimits job _ now none none d)
        λ _ d' _. Keeps-pure job d'

requeue-IsWithinLimits :
    (t j c : String) (now : Instant) (db : Db) → Keeps IsWithinLimits (requeue t j c now) db
unfolding requeue
requeue-IsWithinLimits t j c now db =
    Keeps-bind _ _ db
      (update_returning-IsWithinLimits _ (requeued c now) db (λ r. (refl, refl))
        λ r _ h. ground arith)
      λ o d _. record_requeue-IsWithinLimits t j now o d

stop_job-IsWithinLimits :
    (t j : String) (now : Instant) (db : Db) → Keeps IsWithinLimits (stop_job t j now) db
unfolding stop_job
stop_job-IsWithinLimits t j now db =
    Keeps-bind _ _ db
      (update_returning-IsWithinLimits _ (finished cancelled now) db (λ r. (refl, refl))
        λ r _ h. ground arith)
      λ o d _. Keeps-required _ _ _ d λ r _.
        Keeps-bind _ _ d (row_to_job-IsWithinLimits r d) λ job d' _.
          Keeps-bind _ _ d' (append_event-IsWithinLimits job _ now none none d')
            λ _ d'' _. Keeps-pure job d''

cancel-IsWithinLimits :
    (t j : String) (now : Instant) (db : Db) → Keeps IsWithinLimits (cancel t j now) db
unfolding cancel
cancel-IsWithinLimits t j now db = Keeps-gets _ _ db (
    Keeps-required _ _ _ db λ current _.
      Keeps-bind _ _ db (row_to_job-IsWithinLimits current db) λ job d _.
        Keeps-if (is_terminal job.status) (pure job) (stop_job t j now) d (λ _. Keeps-pure job d)
          λ _. stop_job-IsWithinLimits t j now d)

finished_stops :
    (b : Bool) (now : Instant) (r : Row)
    → is_running (finished (completion b) now r).status ≡ true
    → is_running r.status ≡ true
finished_stops b now r h = ground arith

module _ (sha : String → String) (policy : JobPolicy) where
  heartbeat-IsWithinLimits :
      (t j token : String) (now : Instant) (db : Db)
      → Keeps IsWithinLimits (Repository.heartbeat sha policy t j token now) db
  unfolding Repository.heartbeat
  heartbeat-IsWithinLimits t j token now db = record {
    at = λ v.
        let held = Repository.holds_lease sha policy t j token now in
        elim (Bool-cases (eqb (count_if held db.jobs) 1)) [
          | inl e ↦ rw e (
              update_where-IsWithinLimits held (Repository.renewed sha policy now) db
                (λ r. (refl, refl)) (λ r _ h. h) v)
          | inr e ↦ rw e tt
        ];
  }

  complete-IsWithinLimits :
      (t j token : String) (b : Bool) (now : Instant) (db : Db)
      → Keeps IsWithinLimits (Repository.complete sha policy t j token b now) db
  unfolding Repository.complete
  complete-IsWithinLimits t j token b now db =
      Keeps-bind _ _ db
        (update_returning-IsWithinLimits _ (finished (completion b) now) db (λ r. (refl, refl))
          λ r _ h. finished_stops b now r h)
        λ o d _. Keeps-required _ _ _ d λ r _.
          Keeps-bind _ _ d (row_to_job-IsWithinLimits r d)
            λ job d' _. append_event-IsWithinLimits job _ now none none d'

  after_failure-IsWithinLimits :
      (retryable : Bool) (attempts : ℕ) (db : Db)
      → Keeps IsWithinLimits (Repository.after_failure sha policy retryable attempts) db
  after_failure-IsWithinLimits retryable attempts db =
      Keeps-reads _ _ db (Leases.after_failure_reads sha policy retryable attempts db)

  release-IsWithinLimits :
      (t j reason : String) (now : Instant) (outcome : JobStatus × ℕ) (db : Db)
      → is_running outcome.0 ≡ false
      → Keeps IsWithinLimits
          (update_returning (has_key t j) (released outcome.0 outcome.1 reason now))
          db
  release-IsWithinLimits t j reason now outcome db stopped =
      update_returning-IsWithinLimits _ _ db (λ r. (refl, refl)) λ r _ h. ground arith

  release_failed-IsWithinLimits :
      (t j reason : String) (now : Instant) (outcome : JobStatus × ℕ) (db : Db)
      → is_running outcome.0 ≡ false
      → Keeps IsWithinLimits (Repository.release_failed sha policy t j reason now outcome) db
  unfolding Repository.release_failed
  release_failed-IsWithinLimits t j reason now (target, delay) db stopped =
      Keeps-bind _ _ db (release-IsWithinLimits t j reason now (target, delay) db stopped) λ o d _.
        Keeps-required _ _ _ d λ r _.
          Keeps-bind _ _ d (row_to_job-IsWithinLimits r d)
            λ job d' _. append_event-IsWithinLimits job _ now none (some reason) d'

  fail-IsWithinLimits :
      (t j token reason : String) (retryable : Bool) (now : Instant) (db : Db)
      → Keeps IsWithinLimits (Repository.fail sha policy t j token reason retryable now) db
  unfolding Repository.fail Repository.fail_tx
  fail-IsWithinLimits t j token reason retryable now db =
      Keeps-if (reason == "" || ltb 128 (count reason)) (raise invalid_job_failure_reason)
        (Repository.fail_tx sha policy t j token reason retryable now) db
        (λ _. Keeps-raise invalid_job_failure_reason db)
        λ _. Keeps-gets _ _ db (
          Keeps-required _ _ _ db λ c _.
            Keeps-bind _ _ db (after_failure-IsWithinLimits retryable c.attempt_count db)
              λ outcome d e.
                release_failed-IsWithinLimits t j reason now outcome d
                  (Leases.after_failure_lem sha policy retryable c.attempt_count db d outcome e).0)

  release_stale-IsWithinLimits :
      (c : Row) (now : Instant) (n : ℕ) (outcome : JobStatus × ℕ) (db : Db)
      → is_running outcome.0 ≡ false
      → Keeps IsWithinLimits (Repository.release_stale sha policy c now n outcome) db
  unfolding Repository.release_stale
  release_stale-IsWithinLimits c now n (target, delay) db stopped =
      Keeps-bind _ _ db
        (release-IsWithinLimits c.tenant_id c.job_id "STALE_LEASE_RECOVERED" now (target, delay) db
          stopped)
        (elim [
          | none ↦ λ d _. Keeps-pure n d
          | some r ↦ λ d _. Keeps-bind _ _ d (row_to_job-IsWithinLimits r d) λ job d' _.
              Keeps-bind _ _ d' (append_event-IsWithinLimits job _ now none none d')
                λ _ d'' _. Keeps-pure (n + 1) d''
        ])

  recover_all-IsWithinLimits :
      (now : Instant) (rs : List Row) (n : ℕ) (db : Db)
      → Keeps IsWithinLimits (Repository.recover_all sha policy now rs n) db
  unfolding Repository.recover_all Repository.recover_one
  recover_all-IsWithinLimits now [] n db = Keeps-pure n db
  recover_all-IsWithinLimits now (c ∷ rs) n db =
      Keeps-bind _ _ db
        (Keeps-bind _ _ db (after_failure-IsWithinLimits true c.attempt_count db) λ outcome d e.
          release_stale-IsWithinLimits c now n outcome d
            (Leases.after_failure_lem sha policy true c.attempt_count db d outcome e).0)
        λ k d _. recover_all-IsWithinLimits now rs k d

  recover_stale-IsWithinLimits :
      (now : Instant) (db : Db) → Keeps IsWithinLimits (Repository.recover_stale sha policy now) db
  unfolding Repository.recover_stale
  recover_stale-IsWithinLimits now db = Keeps-gets _ _ db (recover_all-IsWithinLimits now _ 0 db)

  perform-IsWithinLimits :
      (c : Call) (db : Db) → Sees c → IsWithinLimits db → IsWithinLimits (perform sha policy c db)
  unfolding perform
  perform-IsWithinLimits (enqueue_job t job) db sees v =
      committed_keeps IsWithinLimits _ db (enqueue-IsWithinLimits t job db) v
  perform-IsWithinLimits (requeue_job t j c now) db sees v =
      committed_keeps IsWithinLimits _ db (requeue-IsWithinLimits t j c now db) v
  perform-IsWithinLimits (claim_job view w token now) db sees v =
      committed_keeps IsWithinLimits _ db (claim-IsWithinLimits sha policy view w token now db sees)
        v
  perform-IsWithinLimits (heartbeat_job t j token now) db sees v =
      committed_keeps IsWithinLimits _ db (heartbeat-IsWithinLimits t j token now db) v
  perform-IsWithinLimits (complete_job t j token b now) db sees v =
      committed_keeps IsWithinLimits _ db (complete-IsWithinLimits t j token b now db) v
  perform-IsWithinLimits (fail_job t j token reason retryable now) db sees v =
      committed_keeps IsWithinLimits _ db (fail-IsWithinLimits t j token reason retryable now db) v
  perform-IsWithinLimits (cancel_job t j now) db sees v =
      committed_keeps IsWithinLimits _ db (cancel-IsWithinLimits t j now db) v
  perform-IsWithinLimits (recover_jobs now) db sees v =
      committed_keeps IsWithinLimits _ db (recover_stale-IsWithinLimits now db) v

  -- After any calls of the repository, in any order and whether they commit or raise, no tenant runs
  -- more jobs than its concurrency limit allows, and no two jobs of a tenant share a key, if that held
  -- before and if no claim misses a running job in its count, as a claim may that overlaps another.
  -- Claims may pass over any locked rows.
  pub perform_all-IsWithinLimits :
      (cs : List Call) (db : Db)
      → All Sees cs
      → IsWithinLimits db
      → IsWithinLimits (perform_all sha policy cs db)
  unfolding perform_all
  perform_all-IsWithinLimits [] db sees v = v
  perform_all-IsWithinLimits (c ∷ cs) db sees v =
      perform_all-IsWithinLimits cs (perform sha policy c db) sees.1
        (perform-IsWithinLimits c db sees.0 v)
