-- ===== src/Intake/Violations.antt =====
-- intake/verification.py: what the comparison with the policy always finds.
use mathlib.Core.Path.{subst}
use decision_assurance.Prelude.{
  ltb, ℕ, ◌+◌, String, ◌≡◌, refl, Bool, true, false, ◌||◌, Option, none, some, List, [], ◌∷◌, arith,
  any, any-append, find_first, mem, decimal, ◌⧺◌, length, Bool-cases, if_cases, Option-cases, inl,
  inr, ◌⊎◌, ok, >>=-eq-ok, ok_inj, if◌then◌else◌, or-true,
}
use decision_assurance.Intake.Contracts.{CandidateFact, DerivedFinding, PolicyContext}
use decision_assurance.Intake.Comparison.{
  Values, invalid_decimal, invalid_date, or_error, value_of, is_instruction, is_evidence_date,
  is_duration, is_amount, is_discount, is_margin, is_override, given, derived, policy_ref,
  is_refused_policy_claim, is_confirmed_self_approval, compare_registry, compare_self_approval,
  compare_override, compare_effective, compare_limit, compare_freshness, compare_duration,
  compare_approvals, compare_policy,
}
use decision_assurance.Intake.Verification.{is_foreign_claim, verify_policy_references}
use decision_assurance.Intake.Compiler.{mandatory_codes}

-- a finding that becomes a mandatory constraint
abbrev pub is_mandatory_finding : DerivedFinding → Bool
is_mandatory_finding f = mem f.result_code mandatory_codes

abbrev pub Found : List DerivedFinding → Type 0
Found fs = any is_mandatory_finding fs ≡ true

-- A self-approval that a human has confirmed, a claim about a policy that does not name the trusted
-- one, or a first instruction that mentions a generator, a validator, an approver or an approval.
abbrev pub is_violated : PolicyContext → List CandidateFact → Bool
is_violated policy cs =
    any is_confirmed_self_approval cs
    || any (is_foreign_claim policy) cs
    || (elim (value_of is_instruction cs) [ none ↦ false | some c ↦ is_override c.raw_value ])

Found-derived :
    (id : String) (policy : PolicyContext) (rule : String) (refs : List String) (calc code : String)
    (fs : List DerivedFinding)
    → mem code mandatory_codes ≡ true
    → Found (derived id policy rule refs calc code fs)
Found-derived id policy rule refs calc code fs h =
    rw
      (
        any-append is_mandatory_finding fs (
            record {
              finding_id = id ⧺ ":derived:" ⧺ decimal (length fs + 1);
              rule_id = rule;
              fact_refs = refs;
              policy_ref = some (policy_ref policy);
              calculation = calc;
              result_code = code;
              uncertainty = none;
            }
            ∷ []),
        h,
      )
      (ground arith)

Found-more :
    (id : String) (policy : PolicyContext) (rule : String) (refs : List String) (calc code : String)
    (b : Bool) (fs : List DerivedFinding)
    → Found fs
    → Found (if b then derived id policy rule refs calc code fs else fs)
Found-more id policy rule refs calc code false fs h = h
Found-more id policy rule refs calc code true fs h =
    rw
      (
        any-append is_mandatory_finding fs (
            record {
              finding_id = id ⧺ ":derived:" ⧺ decimal (length fs + 1);
              rule_id = rule;
              fact_refs = refs;
              policy_ref = some (policy_ref policy);
              calculation = calc;
              result_code = code;
              uncertainty = none;
            }
            ∷ []),
        h,
      )
      refl

find_some :
    (p : CandidateFact → Bool) (cs : List CandidateFact)
    → any p cs ≡ true
    → (c : CandidateFact) × (find_first p cs ≡ some c)
find_some p [] h = absurd (ground arith)
find_some p (c ∷ cs) h = elim (Bool-cases (p c)) [
  | inl e ↦ (c, rw e refl)
  | inr e ↦ rw e (find_some p cs (ground arith))
]

-- Claims that do not name the trusted policy have been refused.
pub foreign-refused :
    (policy : PolicyContext) (cs : List CandidateFact)
    → any (is_foreign_claim policy) (verify_policy_references (some policy) cs) ≡ true
    → any is_refused_policy_claim (verify_policy_references (some policy) cs) ≡ true
unfolding verify_policy_references
foreign-refused policy [] h = h
foreign-refused policy (c ∷ cs) h = elim (Bool-cases (is_foreign_claim policy c)) [
  | inl e ↦ rw e (ground (arith, e))
  | inr e ↦
      let rest = foreign-refused policy cs (rw (e, e) at h) in
      rw (e, rest) (or-true (is_refused_policy_claim c))
]

registry-Found :
    (id : String) (cs : List CandidateFact) (policy : PolicyContext)
    → any is_refused_policy_claim cs ≡ true
    → Found (compare_registry id cs policy [])
unfolding compare_registry
registry-Found id cs policy h =
    let (c, e) = find_some is_refused_policy_claim cs h in rw (e, compare_registry) refl

self_approval-Found :
    (id : String) (cs : List CandidateFact) (policy : PolicyContext) (fs : List DerivedFinding)
    → (Found fs ⊎ (any is_confirmed_self_approval cs ≡ true))
    → Found (compare_self_approval id cs policy fs)
unfolding compare_self_approval
self_approval-Found id cs policy fs h =
    elim (Option-cases (find_first is_confirmed_self_approval cs)) [
      | inl e ↦
          rw (e, compare_self_approval)
            (elim h [
              | inl f ↦ f
              | inr s ↦ absurd (let (c, k) = find_some is_confirmed_self_approval cs s in cc (e, k))
            ])
      | inr (c, e) ↦
          rw (e, compare_self_approval)
            (Found-derived id policy _ _ _ "SEPARATION_OF_DUTIES_VIOLATION" fs refl)
    ]

override-Found :
    (id : String) (cs : List CandidateFact) (policy : PolicyContext) (fs : List DerivedFinding)
    → (Found fs
        ⊎ ((elim (value_of is_instruction cs) [ none ↦ false | some c ↦ is_override c.raw_value ])
            ≡ true))
    → Found (compare_override id cs policy fs)
unfolding compare_override
override-Found id cs policy fs h = elim (Option-cases (value_of is_instruction cs)) [
  | inl e ↦ rw (e, compare_override) (elim h [ inl f ↦ f | inr s ↦ absurd (ground arith) ])
  | inr (c, e) ↦
      rw (e, compare_override)
        (if_cases Found (is_override c.raw_value) _ fs
          (λ _. Found-derived id policy _ _ _ "GOVERNANCE_OVERRIDE_ATTEMPT" fs refl)
          (λ n. elim h [ inl f ↦ f | inr s ↦ absurd (ground arith) ]))
]

module _ (values : Values) where
  effective-Found :
      (id : String) (policy : PolicyContext) (today : ℕ) (fs gs : List DerivedFinding)
      → Found fs
      → compare_effective values id policy today fs ≡ ok gs
      → Found gs
  unfolding compare_effective
  effective-Found id policy today fs gs h e =
      let (effective, _, k) =
        >>=-eq-ok (or_error (values.day_of policy.effective_date) invalid_date) _ e in
      subst Found (ok_inj _ gs k)
        (Found-more id policy _ _ _ "POLICY_NOT_EFFECTIVE" (ltb today effective) fs h)

  limit-Found :
      (id : String) (policy : PolicyContext)
      (violates : values.Number → values.Number → Option Bool) (rule code : String)
      (o : Option CandidateFact) (limit : values.Number) (fs gs : List DerivedFinding)
      → Found fs
      → compare_limit values id policy violates rule code o limit fs ≡ ok gs
      → Found gs
  unfolding compare_limit
  limit-Found id policy violates rule code none limit fs gs h e = subst Found (ok_inj fs gs e) h
  limit-Found id policy violates rule code (some c) limit fs gs h e =
      elim (Option-cases c.normalized_value) [
        | inl n ↦ subst Found (ok_inj fs gs (rw n at e)) h
        | inr (text, n) ↦
            let (actual, _, k) =
              >>=-eq-ok (or_error (values.parse text) invalid_decimal) _ (rw n at e) in
            let (violated, _, l) =
              >>=-eq-ok (or_error (violates actual limit) invalid_decimal) _ k in
            subst Found (ok_inj _ gs l) (Found-more id policy rule _ _ code violated fs h)
      ]

  freshness-Found :
      (id : String) (cs : List CandidateFact) (policy : PolicyContext) (today : ℕ)
      (fs gs : List DerivedFinding)
      → Found fs
      → compare_freshness values id cs policy today fs ≡ ok gs
      → Found gs
  unfolding compare_freshness
  freshness-Found id cs policy today fs gs h e =
      elim (Option-cases (value_of is_evidence_date cs)) [
        | inl n ↦ subst Found (ok_inj fs gs (rw (n, compare_freshness) at e)) h
        | inr (c, n) ↦ elim (Option-cases (given c.normalized_value)) [
          | inl m ↦ subst Found (ok_inj fs gs (rw (n, m, compare_freshness) at e)) h
          | inr (text, m) ↦
              let (observed, _, k) =
                >>=-eq-ok (or_error (values.day_of text) invalid_date) _
                  (rw (n, m, compare_freshness) at e) in
              subst Found (ok_inj _ gs k) (Found-more id policy _ _ _ "EVIDENCE_OUTDATED" _ fs h)
        ]
      ]

  duration-Found :
      (id : String) (cs : List CandidateFact) (policy : PolicyContext) (fs gs : List DerivedFinding)
      → Found fs
      → compare_duration values id cs policy fs ≡ ok gs
      → Found gs
  unfolding compare_duration
  duration-Found id cs policy fs gs h e = elim (Option-cases (value_of is_duration cs)) [
    | inl n ↦ subst Found (ok_inj fs gs (rw (n, compare_duration) at e)) h
    | inr (c, n) ↦ elim (Option-cases (given c.normalized_value)) [
      | inl m ↦ subst Found (ok_inj fs gs (rw (n, m, compare_duration) at e)) h
      | inr (text, m) ↦
          let (months, _, k) =
            >>=-eq-ok (or_error (values.parse text) invalid_decimal) _
              (rw (n, m, compare_duration) at e) in
          let (long, _, l) =
            >>=-eq-ok
              (or_error (values.whole_above months policy.maximum_duration_months_without_exception)
                invalid_decimal)
              _ k in
          subst Found (ok_inj _ gs l)
            (Found-more id policy _ _ _ "DURATION_EXCEPTION_REQUIRED" _ fs h)
    ]
  ]

  approvals-Found :
      (id : String) (cs : List CandidateFact) (policy : PolicyContext) (fs gs : List DerivedFinding)
      → Found fs
      → compare_approvals values id cs policy fs ≡ ok gs
      → Found gs
  unfolding compare_approvals
  approvals-Found id cs policy fs gs h e = elim (Option-cases (value_of is_amount cs)) [
    | inl n ↦ subst Found (ok_inj fs gs (rw (n, compare_approvals) at e)) h
    | inr (c, n) ↦ elim (Option-cases (given c.normalized_value)) [
      | inl m ↦ subst Found (ok_inj fs gs (rw (n, m, compare_approvals) at e)) h
      | inr (text, m) ↦
          let (actual, _, k) =
            >>=-eq-ok (or_error (values.parse text) invalid_decimal) _
              (rw (n, m, compare_approvals) at e) in
          let (threshold, _, l) =
            >>=-eq-ok
              (or_error (values.parse policy.requires_approval_above_amount) invalid_decimal) _ k in
          let (below, _, q) =
            >>=-eq-ok (or_error (values.above threshold actual) invalid_decimal) _ l in
          subst Found (ok_inj _ gs q)
            (Found-more id policy _ _ _ "REQUIRED_APPROVAL_MISSING" _ fs h)
    ]
  ]

  -- A claim about a policy that is not the trusted one is among the findings from the first comparison
  -- on, a confirmed self-approval and an attempt to override from the last.
  middle-Found :
      (id : String) (cs : List CandidateFact) (policy : PolicyContext) (today : ℕ)
      (fs f1 f2 f3 f4 f5 f6 : List DerivedFinding) (maximum minimum : values.Number)
      → Found fs
      → compare_effective values id policy today fs ≡ ok f1
      → compare_limit values id policy values.above "DISCOUNT_MAXIMUM" "DISCOUNT_ABOVE_POLICY_LIMIT"
          (value_of is_discount cs)
          maximum
          f1
        ≡ ok f2
      → compare_limit values id policy
          (λ actual limit. values.above limit actual)
          "MARGIN_MINIMUM"
          "MARGIN_BELOW_POLICY_MINIMUM"
          (value_of is_margin cs)
          minimum
          f2
        ≡ ok f3
      → compare_freshness values id cs policy today f3 ≡ ok f4
      → compare_duration values id cs policy f4 ≡ ok f5
      → compare_approvals values id cs policy f5 ≡ ok f6
      → Found f6
  middle-Found id cs policy today fs f1 f2 f3 f4 f5 f6 maximum minimum h e1 e2 e3 e4 e5 e6 =
      approvals-Found id cs policy f5 f6
        (duration-Found id cs policy f4 f5
          (freshness-Found id cs policy today f3 f4
            (limit-Found id policy _ _ _ (value_of is_margin cs) minimum f2 f3
              (limit-Found id policy _ _ _ (value_of is_discount cs) maximum f1 f2
                (effective-Found id policy today fs f1 h e1) e2)
              e3)
            e4)
          e5)
        e6

  -- where the violation has been found
  last-Found :
      (id : String) (cs : List CandidateFact) (policy : PolicyContext) (fs : List DerivedFinding)
      → is_violated policy cs ≡ true
      → (any (is_foreign_claim policy) cs ≡ true → Found fs)
      → Found (compare_override id cs policy (compare_self_approval id cs policy fs))
  last-Found id cs policy fs v h = elim (Bool-cases (any is_confirmed_self_approval cs)) [
    | inl s ↦ override-Found id cs policy _ (inl (self_approval-Found id cs policy fs (inr s)))
    | inr s ↦ elim (Bool-cases (any (is_foreign_claim policy) cs)) [
      | inl p ↦
          override-Found id cs policy _ (inl (self_approval-Found id cs policy fs (inl (h p))))
      | inr p ↦ override-Found id cs policy _ (inr (ground arith))
    ]
  ]

  pub compare_policy-Found :
      (id : String) (cs : List CandidateFact) (policy : PolicyContext) (today : ℕ)
      (gs : List DerivedFinding)
      → (any (is_foreign_claim policy) cs ≡ true → any is_refused_policy_claim cs ≡ true)
      → is_violated policy cs ≡ true
      → compare_policy values id cs policy today ≡ ok gs
      → Found gs
  unfolding compare_policy
  compare_policy-Found id cs policy today gs refused v e =
      let (f1, e1, k1) =
        >>=-eq-ok (compare_effective values id policy today (compare_registry id cs policy [])) _
          e in
      let (maximum, _, k2) =
        >>=-eq-ok (or_error (values.parse policy.maximum_discount_percent) invalid_decimal) _ k1 in
      let (minimum, _, k3) =
        >>=-eq-ok (or_error (values.parse policy.minimum_margin_percent) invalid_decimal) _ k2 in
      let (f2, e2, k4) =
        >>=-eq-ok
          (compare_limit values id policy values.above "DISCOUNT_MAXIMUM"
            "DISCOUNT_ABOVE_POLICY_LIMIT" (value_of is_discount cs) maximum f1)
          _ k3 in
      let (f3, e3, k5) =
        >>=-eq-ok
          (compare_limit values id policy (λ actual limit. values.above limit actual)
            "MARGIN_MINIMUM" "MARGIN_BELOW_POLICY_MINIMUM" (value_of is_margin cs) minimum f2)
          _ k4 in
      let (f4, e4, k6) = >>=-eq-ok (compare_freshness values id cs policy today f3) _ k5 in
      let (f5, e5, k7) = >>=-eq-ok (compare_duration values id cs policy f4) _ k6 in
      let (f6, e6, k8) = >>=-eq-ok (compare_approvals values id cs policy f5) _ k7 in
      subst Found (ok_inj _ gs k8) (
        last-Found id cs policy f6 v λ p.
          middle-Found id cs policy today (compare_registry id cs policy []) f1 f2 f3 f4 f5 f6
            maximum minimum (registry-Found id cs policy (refused p)) e1 e2 e3 e4 e5 e6)
