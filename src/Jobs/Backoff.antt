-- ===== src/Jobs/Backoff.antt =====
-- The delay before a retry (jobs/lifecycle.py) under a policy that has been accepted.
use Prim.Native.Nat.{min}
use native.Mathlib.Nat.{one-le-pow, pow-le-pow_right, mul-le-mul_left, le-mul_of_pos_right}
use decision_assurance.Prelude.{ℕ, ◌-◌, ◌*◌, ◌^◌, ◌≤◌, ◌≡◌, arith, ok}
use decision_assurance.Jobs.Contracts.{JobPolicy, check_policy}
use decision_assurance.Jobs.Lifecycle.{retry_delay}

-- the delay of attempt n + 1
abbrev delay_after : JobPolicy → ℕ → ℕ
delay_after p n = min p.maximum_backoff_seconds (p.base_backoff_seconds * 2 ^ min n 30)

accepted_backoff :
    (p q : JobPolicy) → check_policy p ≡ ok q → p.base_backoff_seconds ≤ p.maximum_backoff_seconds
unfolding check_policy
accepted_backoff p q h = ground arith

retry_delay-ok : (p : JobPolicy) (n : ℕ) → 1 ≤ n → retry_delay p n ≡ ok (delay_after p (n - 1))
unfolding retry_delay
retry_delay-ok p n h = ground arith

delay_after-base :
    (p : JobPolicy) (n : ℕ)
    → p.base_backoff_seconds ≤ p.maximum_backoff_seconds
    → p.base_backoff_seconds ≤ delay_after p n
delay_after-base p n h =
    omega
      (arith, h, le-mul_of_pos_right p.base_backoff_seconds (one-le-pow (min n 30) 2 (omega arith)))

delay_after-grows : (p : JobPolicy) (n m : ℕ) → n ≤ m → delay_after p n ≤ delay_after p m
delay_after-grows p n m h = omega (
  arith,
  mul-le-mul_left p.base_backoff_seconds
      (pow-le-pow_right {n = 2} (omega arith) {i = min n 30} {j = min m 30} (omega (arith, h))),
)

-- Under an accepted policy every attempt has a delay, which is between the base and the maximum of the
-- policy and does not fall from one attempt to a later one.
pub retry_delay_bounds :
    (p q : JobPolicy) (n m : ℕ)
    → check_policy p ≡ ok q
    → 1 ≤ n
    → n ≤ m
    → (d : ℕ) × (e : ℕ) × (retry_delay p n ≡ ok d)
      × (retry_delay p m ≡ ok e)
      × (p.base_backoff_seconds ≤ d)
      × (d ≤ e)
      × (e ≤ p.maximum_backoff_seconds)
retry_delay_bounds p q n m accepted first order = (
  delay_after p (n - 1),
  delay_after p (m - 1),
  retry_delay-ok p n first,
  retry_delay-ok p m (omega arith),
  delay_after-base p (n - 1) (accepted_backoff p q accepted),
  delay_after-grows p (n - 1) (m - 1) (omega arith),
  omega arith,
)
