-- ===== src/Jobs/Repository.antt =====
-- jobs/postgresql.py: `PostgresJobRepository`. A parameter `sha256_hex` stands for
-- `hashlib.sha256(…).hexdigest()`, `token` for the text that `secrets.token_urlsafe(32)` gives.
-- `tenant` is the text of a `TenantContext`.
pub mod Enqueue
pub mod Candidates
unfoldable pub use Enqueue.*
unfoldable pub use Candidates.*
use Prim.Native.String.{count, compare as compare_text}
use Prim.Native.Nat.{Ordering}
use decision_assurance.Prelude.{
  ℕ, ◌+◌, ◌*◌, String, Bool, true, false, not, ◌&&◌, ◌||◌, Option, none, some, List, [], ◌∷◌, ◌++◌,
  ltb, leb, eqb, ◌==◌, option_eq, or_default, any, keep, find_first, count_if, if◌then◌else◌, ok,
  err, ◌⧺◌, is_blank,
}
use decision_assurance.Jobs.Contracts.{
  JobStatus, queued, running, retry_wait, completed, partial, failed, cancelled, dead_letter,
  JobPolicy, Instant, ResearchJob, check_lease_token,
}
use decision_assurance.Jobs.Lifecycle.{retry_delay}
use decision_assurance.Jobs.Store.{
  Row, Db, Tx, ◌>>=◌, ◌>>◌, pure, raise, gets, lift_contract, lift_lifecycle, or_raise, is_running,
  is_waiting, has_key, has_run, update_where, update_returning, row_to_job, append_event,
  invalid_job_enqueue, convergence_failed, job_payload_conflict, unique_violation,
  foreign_key_violation, job_not_found, job_not_retryable, invalid_worker_id, lease_rejected,
  invalid_job_failure_reason, update_failed,
}

abbrev pub second : ℕ
second = 1000000

-- lease_expires_at > now
abbrev pub expires_after : Instant → Option Instant → Bool
expires_after now none = false
expires_after now (some t) = ltb now t

abbrev pub finished : JobStatus → Instant → Row → Row
finished target now r = record r {
  job = record r.job {
    status = target;
    lease_token_hash = none;
    lease_expires_at = none;
    updated_at = now;
  };
}

abbrev pub completion : Bool → JobStatus
completion true = partial
completion false = completed

-- JobStatus.value
abbrev pub status_text : JobStatus → String
status_text queued = "QUEUED"
status_text running = "RUNNING"
status_text retry_wait = "RETRY_WAIT"
status_text completed = "COMPLETED"
status_text partial = "PARTIAL"
status_text failed = "FAILED"
status_text cancelled = "CANCELLED"
status_text dead_letter = "DEAD_LETTER"

abbrev pub released : JobStatus → ℕ → String → Instant → Row → Row
released target delay reason_code now r = record {
  job = record r.job {
    status = target;
    available_at = now + delay * second;
    lease_token_hash = none;
    lease_expires_at = none;
    updated_at = now;
  };
  last_error_code = some reason_code;
}

abbrev pub is_terminal : JobStatus → Bool
is_terminal completed = true
is_terminal partial = true
is_terminal failed = true
is_terminal dead_letter = true
is_terminal cancelled = true
is_terminal _ = false

-- lease_expires_at <= now
abbrev pub is_stale : Instant → Row → Bool
is_stale now r =
    is_running r.status && elim r.lease_expires_at [ none ↦ false | some t ↦ leb t now ]

-- ORDER BY lease_expires_at
unfoldable pub by_lease_end : Row → List Row → List Row
by_lease_end r [] = r ∷ []
by_lease_end r (s ∷ rs) =
    let rest = by_lease_end r rs in
    if leb (or_default r.lease_expires_at 0) (or_default s.lease_expires_at 0)
    then r ∷ s ∷ rs
    else s ∷ rest

unfoldable pub sort_by_lease_end : List Row → List Row
unfolding by_lease_end
sort_by_lease_end [] = []
sort_by_lease_end (r ∷ rs) = by_lease_end r (sort_by_lease_end rs)

-- the branch of `cancel` that stops the job
unfoldable pub stop_job : String → String → Instant → Tx ResearchJob
unfolding update_returning row_to_job append_event
stop_job tenant job_id now = do
  row ← update_returning (has_key tenant job_id) (finished cancelled now)
  r ← or_raise row update_failed
  stopped ← row_to_job r
  append_event stopped "JOB_CANCELLED" now none none
  pure stopped

unfoldable pub cancel : String → String → Instant → Tx ResearchJob
unfolding row_to_job stop_job
cancel tenant job_id now = do
  found ← gets (λ db. find_first (has_key tenant job_id) db.jobs)
  current ← or_raise found job_not_found
  job ← row_to_job current
  if is_terminal job.status then pure job else stop_job tenant job_id now

module _ (sha256_hex : String → String) (policy : JobPolicy) where
  abbrev pub lease_hash : String → String
  lease_hash token = "sha256:" ⧺ sha256_hex token

  abbrev pub lease_end : Instant → Instant
  lease_end now = now + policy.lease_seconds * second

  abbrev pub claimed : String → Instant → Row → Row
  claimed token now r = record r {
    job = record r.job {
      status = running;
      attempt_count = r.attempt_count + 1;
      lease_token_hash = some (lease_hash token);
      lease_expires_at = some (lease_end now);
      updated_at = now;
    };
  }

  -- the UPDATE … FROM candidate
  unfoldable pub claim_row : String → Instant → Option Row → Tx (Option Row)
  unfolding update_returning
  claim_row token now none = pure none
  claim_row token now (some c) = update_returning (has_key c.tenant_id c.job_id) (claimed token now)

  -- what `claim` does with the row that the UPDATE returned
  unfoldable pub record_claim :
      String → String → Instant → Option Row → Tx (Option (ResearchJob × String))
  unfolding row_to_job append_event
  record_claim worker_id lease now none = pure none
  record_claim worker_id lease now (some r) = do
    job ← row_to_job r
    append_event job "JOB_CLAIMED" now (some worker_id) none
    pure (some (job, lease))

  unfoldable pub claim_tx : View → String → String → Instant → Tx (Option (ResearchJob × String))
  unfolding check_lease_token first_in_order claim_row record_claim
  claim_tx view worker_id token now = do
    lease ← lift_contract (check_lease_token token)
    candidate ← gets (λ db. first_in_order (keep (is_candidate view db now) db.jobs))
    row ← claim_row lease now candidate
    record_claim worker_id lease now row

  unfoldable pub claim : View → String → String → Instant → Tx (Option (ResearchJob × String))
  unfolding claim_tx
  claim view worker_id token now =
      if is_blank worker_id then raise invalid_worker_id else claim_tx view worker_id token now

  -- … AND status = 'RUNNING' AND lease_token_hash = … AND lease_expires_at > …
  abbrev pub holds_lease : String → String → String → Instant → Row → Bool
  holds_lease tenant job_id token now r =
      has_key tenant job_id r
      && is_running r.status
      && option_eq r.lease_token_hash (some (lease_hash token))
      && expires_after now r.lease_expires_at

  abbrev pub renewed : Instant → Row → Row
  renewed now r = record r {
    job = record r.job { lease_expires_at = some (lease_end now); updated_at = now };
  }

  unfoldable pub heartbeat : String → String → String → Instant → Tx (Unit {0})
  unfolding update_where
  heartbeat tenant job_id token now db =
      let held = holds_lease tenant job_id token now in
      if eqb (count_if held db.jobs) 1
      then ok (tt, record db { jobs = update_where held (renewed now) db.jobs })
      else err lease_rejected

  unfoldable pub complete : String → String → String → Bool → Instant → Tx (Unit {0})
  unfolding update_returning row_to_job append_event
  complete tenant job_id token is_partial now = do
    let target = completion is_partial
    row ← update_returning (holds_lease tenant job_id token now) (finished target now)
    r ← or_raise row lease_rejected
    job ← row_to_job r
    append_event job ("JOB_" ⧺ status_text target) now none none

  -- the target status of a failed attempt, and the delay in seconds
  unfoldable pub after_failure : Bool → ℕ → Tx (JobStatus × ℕ)
  unfolding retry_delay
  after_failure retryable attempt_count =
      if retryable && ltb attempt_count policy.max_attempts
      then (do delay ← lift_lifecycle (retry_delay policy attempt_count); pure (retry_wait, delay))
      else if retryable
      then pure (dead_letter, 0)
      else pure (failed, 0)

  -- the UPDATE of `fail`, and its event
  unfoldable pub release_failed : String → String → String → Instant → JobStatus × ℕ → Tx (Unit {0})
  unfolding update_returning row_to_job append_event
  release_failed tenant job_id reason_code now (target, delay) = do
    row ← update_returning (has_key tenant job_id) (released target delay reason_code now)
    r ← or_raise row update_failed
    job ← row_to_job r
    append_event job ("JOB_" ⧺ status_text target) now none (some reason_code)

  unfoldable pub fail_tx : String → String → String → String → Bool → Instant → Tx (Unit {0})
  unfolding after_failure release_failed
  fail_tx tenant job_id token reason_code retryable now = do
    found ← gets (λ db. find_first (holds_lease tenant job_id token now) db.jobs)
    current ← or_raise found lease_rejected
    outcome ← after_failure retryable current.attempt_count
    release_failed tenant job_id reason_code now outcome

  unfoldable pub fail : String → String → String → String → Bool → Instant → Tx (Unit {0})
  unfolding fail_tx
  fail tenant job_id token reason_code retryable now =
      if reason_code == "" || ltb 128 (count reason_code)
      then raise invalid_job_failure_reason
      else fail_tx tenant job_id token reason_code retryable now

  -- the UPDATE of `recover_stale` for one row, its event, and the count of recovered rows
  unfoldable pub release_stale : Row → Instant → ℕ → JobStatus × ℕ → Tx ℕ
  unfolding update_returning row_to_job append_event
  release_stale current now recovered (target, delay) = do
    row ←
        update_returning (has_key current.tenant_id current.job_id)
          (released target delay "STALE_LEASE_RECOVERED" now)
    elim row [
      | none ↦ pure recovered
      | some r ↦ do
        job ← row_to_job r
        append_event job "JOB_STALE_LEASE_RECOVERED" now none none
        pure (recovered + 1)
    ]

  -- one round of the loop
  unfoldable pub recover_one : Instant → Row → ℕ → Tx ℕ
  unfolding after_failure release_stale
  recover_one now current recovered = do
    outcome ← after_failure true current.attempt_count
    release_stale current now recovered outcome

  unfoldable pub recover_all : Instant → List Row → ℕ → Tx ℕ
  unfolding recover_one
  recover_all now [] recovered = pure recovered
  recover_all now (r ∷ rs) recovered = do
    recovered' ← recover_one now r recovered
    recover_all now rs recovered'

  unfoldable pub recover_stale : Instant → Tx ℕ
  unfolding recover_all sort_by_lease_end
  recover_stale now = do
    rows ← gets (λ db. sort_by_lease_end (keep (is_stale now) db.jobs))
    recover_all now rows 0

unfoldable pub is_cancelled : String → String → Db → Bool
is_cancelled tenant job_id db = elim (find_first (has_key tenant job_id) db.jobs) [
  | none ↦ false
  | some r ↦ elim r.status [ cancelled ↦ true | _ ↦ false ]
]
