-- ===== src/Jobs/Lifecycle.antt =====
-- jobs/lifecycle.py: the transition table and the retry delay.
use Prim.Native.Nat.{min}
use decision_assurance.Prelude.{
  ℕ, ◌-◌, ◌*◌, ◌^◌, Bool, true, false, Result, ok, err, ltb, if◌then◌else◌,
}
use decision_assurance.Jobs.Contracts.{
  JobStatus, queued, running, retry_wait, completed, partial, failed, cancelled, dead_letter,
  JobPolicy,
}

pub data LifecycleError : Type 0 where
  invalid_job_transition : JobStatus → JobStatus → LifecycleError
  invalid_job_attempt_count : LifecycleError

-- `target in _ALLOWED.get(source, frozenset())`
unfoldable pub allowed : JobStatus → JobStatus → Bool
allowed queued running = true
allowed queued cancelled = true
allowed retry_wait running = true
allowed retry_wait cancelled = true
allowed running completed = true
allowed running partial = true
allowed running retry_wait = true
allowed running failed = true
allowed running cancelled = true
allowed running dead_letter = true
allowed completed queued = true
allowed partial queued = true
allowed failed queued = true
allowed dead_letter queued = true
allowed _ _ = false

unfoldable pub transition : JobStatus → JobStatus → Result LifecycleError JobStatus
unfolding allowed
transition source target =
    if allowed source target then ok target else err (invalid_job_transition source target)

-- `1 << exponent` is `2 ^ exponent`
unfoldable pub retry_delay : JobPolicy → ℕ → Result LifecycleError ℕ
retry_delay policy attempt_count =
    if ltb attempt_count 1
    then err invalid_job_attempt_count
    else ok (
        min policy.maximum_backoff_seconds
          (policy.base_backoff_seconds * 2 ^ min (attempt_count - 1) 30))
