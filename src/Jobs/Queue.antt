-- ===== src/Jobs/Queue.antt =====
-- What holds of the queue after any calls.
use decision_assurance.Prelude.{ℕ, ◌≤◌, ◌<◌, String, List, [], ◌∷◌, Result, ok, err, All}
use decision_assurance.Jobs.Contracts.{JobPolicy}
use decision_assurance.Jobs.Store.{Db, JobError, Tx}
use decision_assurance.Jobs.Repository
use decision_assurance.Jobs.Repository.{enqueue, requeue, cancel}
use decision_assurance.Jobs.Keeps.{Post, Keeps}
use decision_assurance.Jobs.Invariant.{IsValid}
use decision_assurance.Jobs.Invariant.Calls.{enqueue-IsValid, requeue-IsValid, cancel-IsValid}
use decision_assurance.Jobs.Invariant.Leases
use decision_assurance.Jobs.Invariant.Recovery
use decision_assurance.Jobs.Calls.{
  Call, enqueue_job, requeue_job, claim_job, heartbeat_job, complete_job, fail_job, cancel_job,
  recover_jobs, committed, perform, perform_all,
}

-- A job is put in with attempts to spare. (The service creates jobs with no attempts.)
abbrev pub IsFresh : ℕ → Call → Type 0
IsFresh m (enqueue_job tenant job) = job.attempt_count < m
IsFresh m _ = Unit

committed_cases {ℓ} :
    {A : Type 0} (P : Db → Type ℓ) (r : Result JobError (A × Db)) (db : Db)
    → P db
    → Post P r
    → P (committed r db)
committed_cases P (ok (a, db')) db h p = p
committed_cases P (err e) db h p = h

pub committed_keeps {ℓ} :
    {A : Type 0} (P : Db → Type ℓ) (m : Tx A) (db : Db)
    → Keeps P m db
    → P db
    → P (committed (m db) db)
committed_keeps P m db k h = committed_cases P (m db) db h (k.at h)

module _ (sha : String → String) (policy : JobPolicy) (at_least_one : 1 ≤ policy.max_attempts) where
  -- Each call of the repository, whether it commits or raises, keeps the invariant of the queue:
  -- exactly the running jobs hold leases, jobs that wait have attempts to spare, no job has more
  -- attempts than the policy allows, and no two jobs share a key.
  pub perform-IsValid :
      (c : Call) (db : Db)
      → IsFresh policy.max_attempts c
      → IsValid policy.max_attempts db
      → IsValid policy.max_attempts (perform sha policy c db)
  unfolding perform
  perform-IsValid (enqueue_job t job) db f v =
      committed_keeps (IsValid policy.max_attempts) (enqueue t job) db
        (enqueue-IsValid policy.max_attempts t job db f) v
  perform-IsValid (requeue_job t j c now) db f v =
      committed_keeps (IsValid policy.max_attempts) (requeue t j c now) db
        (requeue-IsValid policy.max_attempts t j c now db at_least_one) v
  perform-IsValid (claim_job view w token now) db f v =
      committed_keeps (IsValid policy.max_attempts) (Repository.claim sha policy view w token now)
        db (Leases.claim-IsValid sha policy view w token now db) v
  perform-IsValid (heartbeat_job t j token now) db f v =
      committed_keeps (IsValid policy.max_attempts) (Repository.heartbeat sha policy t j token now)
        db (Leases.heartbeat-IsValid sha policy t j token now db) v
  perform-IsValid (complete_job t j token b now) db f v =
      committed_keeps (IsValid policy.max_attempts) (Repository.complete sha policy t j token b now)
        db (Leases.complete-IsValid sha policy t j token b now db) v
  perform-IsValid (fail_job t j token reason b now) db f v =
      committed_keeps (IsValid policy.max_attempts)
        (Repository.fail sha policy t j token reason b now) db
        (Leases.fail-IsValid sha policy t j token reason b now db) v
  perform-IsValid (cancel_job t j now) db f v =
      committed_keeps (IsValid policy.max_attempts) (cancel t j now) db
        (cancel-IsValid policy.max_attempts t j now db) v
  perform-IsValid (recover_jobs now) db f v =
      committed_keeps (IsValid policy.max_attempts) (Repository.recover_stale sha policy now) db
        (Recovery.recover_stale-IsValid sha policy now db) v

  -- After any calls of the repository, in any order and whether they commit or raise, exactly the running
  -- jobs hold leases, jobs that wait have attempts to spare, no job has more attempts than the policy
  -- allows, and no two jobs of a tenant share a key, if that held before; the jobs that are put in have
  -- attempts to spare, and the policy allows at least one attempt. A claim may pass over locked rows and
  -- count the running jobs of an earlier moment, as claims that overlap do.
  pub perform_all-IsValid :
      (cs : List Call) (db : Db)
      → All (IsFresh policy.max_attempts) cs
      → IsValid policy.max_attempts db
      → IsValid policy.max_attempts (perform_all sha policy cs db)
  unfolding perform_all
  perform_all-IsValid [] db f v = v
  perform_all-IsValid (c ∷ cs) db f v =
      perform_all-IsValid cs (perform sha policy c db) f.1 (perform-IsValid c db f.0 v)
