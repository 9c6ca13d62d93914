-- ===== src/Jobs/Contracts.antt =====
-- Jobs, job statuses and the retry policy: `JobStatus`, `JobPolicy`, `ResearchJob` of
-- production/contracts.py and `LeaseToken` of jobs/contracts.py.
use Prim.Native.String.{count}
use text.Mathlib.Text.{starts_with}
use decision_assurance.Prelude.{
  ℕ, String, Bool, true, false, not, ◌&&◌, ◌||◌, Option, [], ◌∷◌, leb, ltb, eqb, any, codes,
  matches_name, is_some, Result, ok, ◌>>◌, raise_if,
}

pub data JobStatus : Type 0 where
  queued running retry_wait completed partial failed cancelled dead_letter : JobStatus

pub record JobPolicy : Type 0 where
  pub max_attempts : ℕ
  pub lease_seconds : ℕ
  pub base_backoff_seconds : ℕ
  pub maximum_backoff_seconds : ℕ

abbrev pub default_policy : JobPolicy
default_policy = record {
  max_attempts = 5;
  lease_seconds = 60;
  base_backoff_seconds = 5;
  maximum_backoff_seconds = 300;
}

pub data ContractError : Type 0 where
  invalid_job_attempt_limit invalid_job_lease invalid_job_backoff : ContractError
  invalid_job_identity invalid_job_payload_hash : ContractError
  invalid_job_attempt_count incomplete_job_lease : ContractError
  invalid_lease_token : ContractError

-- `JobPolicy.__post_init__`
unfoldable pub check_policy : JobPolicy → Result ContractError JobPolicy
check_policy p = do
  raise_if (not (leb 1 p.max_attempts && leb p.max_attempts 20)) invalid_job_attempt_limit
  raise_if (not (leb 5 p.lease_seconds && leb p.lease_seconds 3600)) invalid_job_lease
  raise_if
      (not (
        leb 1 p.base_backoff_seconds
        && leb p.base_backoff_seconds p.maximum_backoff_seconds
        && leb p.maximum_backoff_seconds 86400))
      invalid_job_backoff
  ok p

-- An instant, in microseconds; the code keeps ISO texts of instants.
abbrev pub Instant : Type 0
Instant = ℕ

pub record ResearchJob : Type 0 where
  pub job_id : String
  pub tenant_id : String
  pub research_run_id : String
  pub correlation_id : String
  pub payload_hash : String
  pub status : JobStatus
  pub attempt_count : ℕ
  pub available_at : Instant
  pub created_at : Instant
  pub updated_at : Instant
  pub lease_token_hash : Option String
  pub lease_expires_at : Option Instant

-- `_ID.fullmatch`
unfoldable pub matches_id : String → Bool
unfolding matches_name
matches_id s =
    matches_name (λ c. eqb c b'.' || eqb c b'_' || eqb c b':' || eqb c b'-') 255 (codes s)

abbrev pub bool_ne : Bool → Bool → Bool
bool_ne true b = not b
bool_ne false b = b

-- `ResearchJob.__post_init__`; the attempt count is a natural number here
unfoldable pub check_job : ResearchJob → Result ContractError ResearchJob
check_job job = do
  raise_if
      (any (λ item. not (matches_id item))
        (job.job_id ∷ job.tenant_id ∷ job.research_run_id ∷ job.correlation_id ∷ []))
      invalid_job_identity
  raise_if (not (starts_with job.payload_hash "sha256:") || not (eqb (count job.payload_hash) 71))
      invalid_job_payload_hash
  raise_if (bool_ne (not (is_some job.lease_token_hash)) (not (is_some job.lease_expires_at)))
      incomplete_job_lease
  ok job

-- `LeaseToken.__post_init__`
unfoldable pub check_lease_token : String → Result ContractError String
check_lease_token value = do raise_if (ltb (count value) 12) invalid_lease_token; ok value
