-- ===== src/Research/Outage.antt =====
-- When the circuit of a provider (web_research/circuit_breaker.py) is open.
use decision_assurance.Prelude.{
  ℕ, suc, ◌+◌, String, ◌≡◌, refl, ap, ◌∙◌, Bool, true, false, not, ◌&&◌, ◌||◌, Option, none, some,
  List, [], ◌∷◌, arith, ◌==◌, eq_refl, leb, length, or_default, Result, ok, err, is_ok,
  if◌then◌else◌,
}
use decision_assurance.Research.Breaker.{
  Circuit, BreakerPolicy, Circuits, BreakerError, is_key, with_circuit, admit, before_call,
  record_failure, failed_once, new_circuit,
}

-- the circuits after a call that returns
abbrev kept : Circuits → Result BreakerError Circuits → Circuits
kept circuits (ok c) = c
kept circuits (err e) = circuits

-- the circuits after retryable failures at these instants, the last one first
unfoldable pub after_failures : BreakerPolicy → String → String → List ℕ → Circuits → Circuits
after_failures policy tenant provider [] circuits = circuits
after_failures policy tenant provider (t ∷ ts) circuits =
    let before = after_failures policy tenant provider ts circuits in
    kept before (record_failure policy tenant provider true t before)

-- the circuit of a provider that has failed at these instants and not succeeded since
abbrev expected : BreakerPolicy → List ℕ → Option Circuit
expected policy [] = none
expected policy (t ∷ ts) = some (record {
  failures = suc (length ts);
  opened_until = if leb policy.failure_threshold (suc (length ts)) then t + policy.recovery else 0;
})

same_key : (a b : String) → (a == a && b == b) ≡ true
same_key a b = ground (arith, eq_refl a, eq_refl b)

opened_once :
    (threshold n a b : ℕ)
    → (if leb threshold (suc n) then a else if leb threshold n then b else 0)
      ≡ (if leb threshold (suc n) then a else 0)
opened_once threshold n a b = ground arith

failed_once-expected :
    (policy : BreakerPolicy) (t : ℕ) (ts : List ℕ)
    → some (failed_once policy t (or_default (expected policy ts) new_circuit))
      ≡ expected policy (t ∷ ts)
unfolding failed_once
failed_once-expected policy t [] = refl
failed_once-expected policy t (u ∷ ts) =
    ap (λ o. some (record { failures = suc (suc (length ts)); opened_until = o }))
      (opened_once policy.failure_threshold (suc (length ts)) (t + policy.recovery)
        (u + policy.recovery))

after_failures-expected :
    (policy : BreakerPolicy) (tenant provider : String) (ts : List ℕ) (circuits : Circuits)
    → is_key tenant provider ≡ true
    → circuits tenant provider ≡ none
    → after_failures policy tenant provider ts circuits tenant provider ≡ expected policy ts
unfolding after_failures record_failure
after_failures-expected policy tenant provider [] circuits key fresh = fresh
after_failures-expected policy tenant provider (t ∷ ts) circuits key fresh =
    rw
      (
        key,
        same_key tenant provider,
        after_failures-expected policy tenant provider ts circuits key fresh,
      )
      (failed_once-expected policy t ts)

-- whether a provider that has failed at these instants is called at `now`
abbrev pub is_admitted : BreakerPolicy → ℕ → List ℕ → Bool
is_admitted policy now [] = true
is_admitted policy now (t ∷ ts) =
    not (leb policy.failure_threshold (suc (length ts))) || leb (t + policy.recovery) now

admit-ok :
    (policy : BreakerPolicy) (now n o : ℕ) (b : Bool)
    → is_ok (admit policy now (record { failures = n; opened_until = if b then o else 0 }))
      ≡ (not b || leb o now)
unfolding admit
admit-ok policy now n o true = ground arith
admit-ok policy now n o false = ground arith

admitted_cases :
    (r : Result BreakerError Circuit) (f : Circuit → Circuits)
    → is_ok (elim r as (λ x. Result BreakerError Circuits) [ err e ↦ err e | ok d ↦ ok (f d) ])
      ≡ is_ok r
admitted_cases (ok d) f = refl
admitted_cases (err e) f = refl

before_call-admit :
    (policy : BreakerPolicy) (tenant provider : String) (now : ℕ) (c : Circuit)
    (circuits : Circuits)
    → is_key tenant provider ≡ true
    → circuits tenant provider ≡ some c
    → is_ok (before_call policy tenant provider now circuits) ≡ is_ok (admit policy now c)
unfolding before_call
before_call-admit policy tenant provider now c circuits key e =
    rw (key, before_call, e)
      (admitted_cases (admit policy now c) (λ d. with_circuit circuits tenant provider (some d)))

before_call-cases :
    (policy : BreakerPolicy) (tenant provider : String) (now : ℕ) (ts : List ℕ)
    (circuits : Circuits)
    → is_key tenant provider ≡ true
    → circuits tenant provider ≡ expected policy ts
    → is_ok (before_call policy tenant provider now circuits) ≡ is_admitted policy now ts
unfolding before_call
before_call-cases policy tenant provider now [] circuits key e = ground (arith, key, e)
before_call-cases policy tenant provider now (t ∷ ts) circuits key e =
    before_call-admit policy tenant provider now _ circuits key e
    ∙ admit-ok policy now (suc (length ts)) (t + policy.recovery)
        (leb policy.failure_threshold (suc (length ts)))

-- After retryable failures of a provider of which no circuit was kept, a call is refused exactly if
-- there were as many failures as the threshold and the recovery time has not passed since the last.
pub before_call-after_failures :
    (policy : BreakerPolicy) (tenant provider : String) (now : ℕ) (ts : List ℕ)
    (circuits : Circuits)
    → is_key tenant provider ≡ true
    → circuits tenant provider ≡ none
    → is_ok
        (before_call policy tenant provider now (after_failures policy tenant provider ts circuits))
      ≡ is_admitted policy now ts
before_call-after_failures policy tenant provider now ts circuits key fresh =
    before_call-cases policy tenant provider now ts
      (after_failures policy tenant provider ts circuits) key
      (after_failures-expected policy tenant provider ts circuits key fresh)
