-- ===== src/Jobs/Examples.antt =====
-- The theorems on the job queue at a queue of one tenant.
use decision_assurance.Prelude.{String, true, none, some, List, [], ◌∷◌, arith}
use decision_assurance.Jobs.Contracts.{queued, ResearchJob, default_policy}
use decision_assurance.Jobs.Store.{Db}
use decision_assurance.Jobs.Calls.{
  Call, enqueue_job, claim_job, fail_job, recover_jobs, perform, perform_all,
}
use decision_assurance.Jobs.Repository
use decision_assurance.Jobs.Repository.{View, running_count}
use decision_assurance.Jobs.Lifecycle.{retry_delay}
use decision_assurance.Jobs.Store.{lease_rejected, invalid_job_failure_reason}
use decision_assurance.Jobs.Contracts.{check_policy, matches_id}
use decision_assurance.Jobs.Store
use decision_assurance.Jobs.Leases.{complete_once}
use decision_assurance.Jobs.Backoff.{retry_delay_bounds}
use decision_assurance.Prelude.{is_blank, decimal, ok, err, ◌⊎◌, ◌≤◌, ◌≡◌, refl, ℕ, true, false}
use decision_assurance.Jobs.Calls.{complete_job, cancel_job}
use decision_assurance.Jobs.Worker.{Processed, worked, retryable_error}
use decision_assurance.Jobs.Invariant.{IsValid}
use decision_assurance.Jobs.Limits.{IsWithinLimits}
use decision_assurance.Jobs.Limits.Calls.{perform_all-IsWithinLimits}
use decision_assurance.Jobs.Queue.{perform_all-IsValid}

abbrev sha : String → String
sha s = s

abbrev job : ResearchJob
job = record {
  job_id = "job-0001";
  tenant_id = "tenant-a";
  research_run_id = "run-0001";
  correlation_id = "corr-0001";
  payload_hash = "sha256:0000000000000000000000000000000000000000000000000000000000000000";
  status = queued;
  attempt_count = 0;
  available_at = 0;
  created_at = 0;
  updated_at = 0;
  lease_token_hash = none;
  lease_expires_at = none;
}

abbrev empty : Db
empty = record {
  jobs = [];
  events = [];
  runs = ("tenant-a", "run-0001") ∷ [];
  limits = λ tenant. none;
}

empty-IsValid : IsValid 5 empty
empty-IsValid = record { rows_ok = tt; keys_unique = tt }

-- a claim that no other transaction overlaps
abbrev alone : View
alone = record { is_locked = λ r. false; counted = λ rows. rows }

abbrev calls : List Call
calls =
    enqueue_job "tenant-a" job
    ∷ claim_job alone "worker-1" "token-000000000001" 10
    ∷ fail_job "tenant-a" "job-0001" "token-000000000001" "TIMEOUT" true 20
    ∷ claim_job alone "worker-1" "token-000000000002" 6000000
    ∷ recover_jobs 70000000
    ∷ []

empty-IsWithinLimits : IsWithinLimits empty
empty-IsWithinLimits = record { unique = tt; within = λ t. omega arith }

perform_all-IsWithinLimits_example : IsWithinLimits (perform_all sha default_policy calls empty)
perform_all-IsWithinLimits_example =
    perform_all-IsWithinLimits sha default_policy calls empty
      (tt, (λ t rows. omega arith, (tt, (λ t rows. omega arith, (tt, tt))))) empty-IsWithinLimits

perform_all-IsValid_example : IsValid 5 (perform_all sha default_policy calls empty)
perform_all-IsValid_example =
    perform_all-IsValid sha default_policy (omega arith) calls empty
      (omega arith, (tt, (tt, (tt, (tt, tt))))) empty-IsValid

abbrev token : String
token = "token-000000000001"

abbrev claimed_db : Db
claimed_db =
    perform_all sha default_policy
      (enqueue_job "tenant-a" job ∷ claim_job alone "worker-1" token 10 ∷ []) empty

abbrev completed_db : Db
completed_db =
    perform sha default_policy (complete_job "tenant-a" "job-0001" token false 20) claimed_db

completes :
    Repository.complete sha default_policy "tenant-a" "job-0001" token false 20 claimed_db
    ≡ ok (tt, completed_db)
unfolding perform_all Repository.enqueue Repository.claim Repository.complete Store.◌>>=◌ is_blank
    matches_id decimal
completes = refl

claimed_db-IsValid : IsValid 5 claimed_db
claimed_db-IsValid =
    perform_all-IsValid sha default_policy (omega arith)
      (enqueue_job "tenant-a" job ∷ claim_job alone "worker-1" token 10 ∷ []) empty
      (omega arith, (tt, tt)) empty-IsValid

complete_once_example :
    (Repository.heartbeat sha default_policy "tenant-a" "job-0001" token 30 completed_db
      ≡ err lease_rejected)
    × (Repository.complete sha default_policy "tenant-a" "job-0001" token true 30 completed_db
        ≡ err lease_rejected)
    × ((Repository.fail sha default_policy "tenant-a" "job-0001" token "TIMEOUT" true 30
            completed_db
          ≡ err lease_rejected)
        ⊎ (Repository.fail sha default_policy "tenant-a" "job-0001" token "TIMEOUT" true 30
              completed_db
            ≡ err invalid_job_failure_reason))
complete_once_example =
    complete_once sha default_policy 5 "tenant-a" "job-0001" token "TIMEOUT" false true 20 30
      claimed_db completed_db claimed_db-IsValid completes

is_accepted : check_policy default_policy ≡ ok default_policy
unfolding check_policy
is_accepted = refl

retry_delay_bounds_example :
    (d : ℕ) × (e : ℕ) × (retry_delay default_policy 2 ≡ ok d)
    × (retry_delay default_policy 4 ≡ ok e)
    × (5 ≤ d)
    × (d ≤ e)
    × (e ≤ 300)
retry_delay_bounds_example =
    retry_delay_bounds default_policy default_policy 2 4 is_accepted (omega arith) (omega arith)

-- A claim that began before another one has committed counts no running job yet.
abbrev overlapping : View
overlapping = record { is_locked = λ r. false; counted = λ rows. [] }

abbrev second_job : ResearchJob
second_job = record job { job_id = "job-0002"; research_run_id = "run-0002" }

-- a queue of a tenant that may run one job at a time
abbrev one_at_a_time : Db
one_at_a_time = record empty {
  runs = ("tenant-a", "run-0001") ∷ ("tenant-a", "run-0002") ∷ [];
  limits = λ tenant. some 1;
}

-- Two claims that overlap exceed the limit.
both_run :
    running_count "tenant-a"
      (perform_all sha default_policy
        (enqueue_job "tenant-a" job
          ∷ enqueue_job "tenant-a" second_job
          ∷ claim_job overlapping "worker-1" "token-000000000001" 10
          ∷ claim_job overlapping "worker-2" "token-000000000002" 10
          ∷ [])
        one_at_a_time).jobs
    ≡ 2
unfolding perform_all Repository.enqueue Repository.claim Store.◌>>=◌ is_blank matches_id decimal
both_run = refl

abbrev finds_nothing : ResearchJob → Processed
finds_nothing j = worked true

abbrev times_out : ResearchJob → Processed
times_out j = retryable_error "TIMEOUT"

-- a queue with one job, and what is left of it when the job is cancelled during the work
abbrev queued_db : Db
queued_db = perform sha default_policy (enqueue_job "tenant-a" job) empty

abbrev cancelled_meanwhile : Db → Db
cancelled_meanwhile db = perform sha default_policy (cancel_job "tenant-a" "job-0001" 15) db
