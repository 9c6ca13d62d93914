-- ===== src/Research/Breaker.antt =====
-- web_research/circuit_breaker.py: `InMemoryProviderCircuitBreaker`, one circuit for each tenant and
-- provider. The clock's readings are natural numbers here. Each method holds the lock.
use decision_assurance.Prelude.{
  ℕ, suc, ◌+◌, ◌-◌, ◌*◌, String, Bool, not, ◌&&◌, ◌||◌, Option, none, some, ◌==◌, ltb, leb, eqb,
  is_blank, or_default, Result, ok, err, if◌then◌else◌,
}

pub record Circuit : Type 0 where
  pub failures : ℕ
  pub opened_until : ℕ

pub record BreakerPolicy : Type 0 where
  pub failure_threshold : ℕ
  pub recovery : ℕ

abbrev pub Circuits : Type 0
Circuits = String → String → Option Circuit

pub data BreakerError : Type 0 where
  provider_circuit_open invalid_circuit_context invalid_circuit_breaker_policy : BreakerError

-- `__init__`; `unit` is the number of clock ticks in a second
unfoldable pub check_breaker : ℕ → BreakerPolicy → Result BreakerError BreakerPolicy
check_breaker unit p =
    if not (leb 1 p.failure_threshold && leb p.failure_threshold 100)
      || not (leb (1 * unit) p.recovery && leb p.recovery (3600 * unit))
    then err invalid_circuit_breaker_policy
    else ok p

-- `_key`
abbrev pub is_key : String → String → Bool
is_key tenant provider = not (is_blank tenant) && not (is_blank provider)

-- `self._states[key] = …` and `self._states.pop(key, None)`
abbrev pub with_circuit : Circuits → String → String → Option Circuit → Circuits
with_circuit circuits tenant provider c t p =
    if t == tenant && p == provider then c else circuits t p

-- the circuit that a call finds in `before_call`
unfoldable pub admit : BreakerPolicy → ℕ → Circuit → Result BreakerError Circuit
admit policy now c =
    if ltb now c.opened_until
    then err provider_circuit_open
    else if not (eqb c.opened_until 0)
    then ok (record { failures = policy.failure_threshold - 1; opened_until = 0 })
    else ok c

unfoldable pub before_call :
    BreakerPolicy → String → String → ℕ → Circuits → Result BreakerError Circuits
before_call policy tenant provider now circuits =
    if not (is_key tenant provider)
    then err invalid_circuit_context
    else elim (circuits tenant provider) [
      | none ↦ ok circuits
      | some c ↦ elim (admit policy now c) [
        | err e ↦ err e
        | ok d ↦ ok (with_circuit circuits tenant provider (some d))
      ]
    ]

unfoldable pub record_success : String → String → Circuits → Result BreakerError Circuits
record_success tenant provider circuits =
    if not (is_key tenant provider)
    then err invalid_circuit_context
    else ok (with_circuit circuits tenant provider none)

abbrev pub new_circuit : Circuit
new_circuit = record { failures = 0; opened_until = 0 }

-- one more retryable failure of a circuit
unfoldable pub failed_once : BreakerPolicy → ℕ → Circuit → Circuit
failed_once policy now c = record {
  failures = suc c.failures;
  opened_until =
      if leb policy.failure_threshold (suc c.failures)
      then now + policy.recovery
      else c.opened_until;
}

unfoldable pub record_failure :
    BreakerPolicy → String → String → Bool → ℕ → Circuits → Result BreakerError Circuits
record_failure policy tenant provider retryable now circuits =
    if not (is_key tenant provider)
    then err invalid_circuit_context
    else if not retryable
    then ok (with_circuit circuits tenant provider none)
    else ok (
        with_circuit circuits tenant provider
          (some (failed_once policy now (or_default (circuits tenant provider) new_circuit))))
