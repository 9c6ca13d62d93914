-- ===== src/Intake/Comparison.antt =====
-- intake/verification.py: `IntakeVerifier._compare_policy`. Decimal numbers and dates are those of
-- Python's library, and come as the parameter `Values`.
use decision_assurance.Prelude.{
  ℕ, ◌+◌, ◌-◌, String, Bool, true, false, not, ◌&&◌, ◌||◌, Option, none, some, List, [], ◌∷◌, ◌++◌,
  any, keep, find_first, length, map, ltb, ◌==◌, option_eq, or_default, unique_from, contains,
  contains_lower, decimal, ◌⧺◌, Result, ok, err, ◌>>=◌, if◌then◌else◌,
}
use decision_assurance.Intake.Contracts.{
  is_confirmed, is_refused, FactType, amount, discount_percent, margin_percent, duration_months,
  evidence_date, policy_claim, exception_claim, approval_claim, self_approval_claim,
  untrusted_instruction, CandidateFact, DerivedFinding, PolicyContext,
}

-- what is used of `decimal.Decimal` and `datetime.date`; `none` where Python raises. A date is a
-- number of days.
pub record Values : Type 1 where
  pub Number : Type 0
  pub parse : String → Option Number
  pub above : Number → Number → Option Bool
  pub whole_above : Number → ℕ → Option Bool
  pub number_text : Number → String
  pub day_of : String → Option ℕ
  pub day_text : ℕ → String

pub data IntakeError : Type 0 where
  invalid_decimal invalid_date : IntakeError
  human_actor_required intake_confirmation_forbidden invalid_confirmation_action : IntakeError
  corrected_value_required confirmation_reason_required fact_not_found : IntakeError
  needs_confirmation_first intake_transition_not_allowed intake_not_ready : IntakeError

abbrev pub or_error : {A : Type 0} → Option A → IntakeError → Result IntakeError A
or_error none e = err e
or_error (some a) e = ok a

abbrev pub is_amount : FactType → Bool
is_amount amount = true
is_amount _ = false

abbrev pub is_discount : FactType → Bool
is_discount discount_percent = true
is_discount _ = false

abbrev pub is_margin : FactType → Bool
is_margin margin_percent = true
is_margin _ = false

abbrev pub is_duration : FactType → Bool
is_duration duration_months = true
is_duration _ = false

abbrev pub is_evidence_date : FactType → Bool
is_evidence_date evidence_date = true
is_evidence_date _ = false

abbrev pub is_policy_claim : FactType → Bool
is_policy_claim policy_claim = true
is_policy_claim _ = false

abbrev pub is_exception_claim : FactType → Bool
is_exception_claim exception_claim = true
is_exception_claim _ = false

abbrev pub is_approval_claim : FactType → Bool
is_approval_claim approval_claim = true
is_approval_claim _ = false

abbrev pub is_self_approval : FactType → Bool
is_self_approval self_approval_claim = true
is_self_approval _ = false

abbrev pub is_instruction : FactType → Bool
is_instruction untrusted_instruction = true
is_instruction _ = false

-- the local function `value`
abbrev pub value_of : (FactType → Bool) → List CandidateFact → Option CandidateFact
value_of is_type candidates = find_first (λ (c : CandidateFact). is_type c.fact_type) candidates

-- the text that is there and not empty
abbrev pub given : Option String → Option String
given none = none
given (some s) = if s == "" then none else some s

abbrev pub policy_ref : PolicyContext → String
policy_ref policy = policy.policy_id ⧺ "@" ⧺ policy.policy_version

-- `findings.append(DerivedFinding(…))`
abbrev pub derived :
    String
    → PolicyContext
    → String
    → List String
    → String
    → String
    → List DerivedFinding
    → List DerivedFinding
derived intake_id policy rule_id refs calculation code findings =
    findings
    ++ record {
      finding_id = intake_id ⧺ ":derived:" ⧺ decimal (length findings + 1);
      rule_id = rule_id;
      fact_refs = refs;
      policy_ref = some (policy_ref policy);
      calculation = calculation;
      result_code = code;
      uncertainty = none;
    }
      ∷ []

abbrev pub is_refused_policy_claim : CandidateFact → Bool
is_refused_policy_claim c = is_policy_claim c.fact_type && is_refused c.verification_status

-- `if rejected_policy_claim:`
unfoldable pub compare_registry :
    String → List CandidateFact → PolicyContext → List DerivedFinding → List DerivedFinding
compare_registry intake_id candidates policy findings =
    elim (find_first is_refused_policy_claim candidates) [
      | none ↦ findings
      | some c ↦
          derived intake_id policy "POLICY_REGISTRY_LOOKUP" (c.fact_id ∷ [])
            "claimed policy reference does not match the trusted active registry entry"
            "POLICY_REFERENCE_NOT_REGISTERED" findings
    ]

-- a verified exception to the duration limit
abbrev pub is_exception : PolicyContext → CandidateFact → Bool
is_exception policy c =
    (is_policy_claim c.fact_type || is_exception_claim c.fact_type)
    && is_confirmed c.verification_status
    && contains policy.policy_id (or_default c.normalized_value "")

abbrev pub is_confirmed_approval : CandidateFact → Bool
is_confirmed_approval c =
    is_approval_claim c.fact_type
    && is_confirmed c.verification_status
    && option_eq c.confirmed_by_role (some "APPROVER")

abbrev pub actor_ids : List CandidateFact → List String
actor_ids [] = []
actor_ids (c ∷ cs) =
    let rest = actor_ids cs in elim c.confirmed_by_actor_id [ none ↦ rest | some a ↦ a ∷ rest ]

-- `len(distinct_approvers)`
unfoldable pub approver_count : List CandidateFact → ℕ
approver_count candidates =
    length (unique_from [] (actor_ids (keep is_confirmed_approval candidates)))

abbrev pub is_confirmed_self_approval : CandidateFact → Bool
is_confirmed_self_approval c = is_self_approval c.fact_type && is_confirmed c.verification_status

-- `if self_approval:`
unfoldable pub compare_self_approval :
    String → List CandidateFact → PolicyContext → List DerivedFinding → List DerivedFinding
compare_self_approval intake_id candidates policy findings =
    elim (find_first is_confirmed_self_approval candidates) [
      | none ↦ findings
      | some c ↦
          derived intake_id policy "ROLE_INDEPENDENCE" (c.fact_id ∷ [])
            "confirmed self-approval violates independent approval" "SEPARATION_OF_DUTIES_VIOLATION"
            findings
    ]

-- an instruction about governance roles
abbrev pub is_override : String → Bool
is_override raw =
    any (λ term. contains_lower term raw) ("generator" ∷ "validator" ∷ "approver" ∷ "approved" ∷ [])

-- `if override and any(…):`
unfoldable pub compare_override :
    String → List CandidateFact → PolicyContext → List DerivedFinding → List DerivedFinding
unfolding contains_lower
compare_override intake_id candidates policy findings = elim (value_of is_instruction candidates) [
  | none ↦ findings
  | some c ↦
      if is_override c.raw_value
      then derived intake_id policy "GOVERNANCE_OVERRIDE" (c.fact_id ∷ [])
          "untrusted input attempted to override authenticated governance roles"
          "GOVERNANCE_OVERRIDE_ATTEMPT" findings
      else findings
]

module _ (values : Values) where
  open values use {Number, parse, above, whole_above, number_text, day_of, day_text}

  -- `date.fromisoformat(policy.effective_date) > reference_date`
  unfoldable pub compare_effective :
      String → PolicyContext → ℕ → List DerivedFinding → Result IntakeError (List DerivedFinding)
  compare_effective intake_id policy today findings = do
    effective ← or_error (day_of policy.effective_date) invalid_date
    ok (
        if ltb today effective
        then derived intake_id policy "POLICY_EFFECTIVE_DATE" []
            (policy.effective_date ⧺ " compared with " ⧺ day_text today) "POLICY_NOT_EFFECTIVE"
            findings
        else findings)

  -- the body of the loop over `checks`; `violates` is the lambda of the check
  unfoldable pub compare_limit :
      String
      → PolicyContext
      → (Number → Number → Option Bool)
      → String
      → String
      → Option CandidateFact
      → Number
      → List DerivedFinding
      → Result IntakeError (List DerivedFinding)
  compare_limit intake_id policy violates rule code none limit findings = ok findings
  compare_limit intake_id policy violates rule code (some c) limit findings =
      elim c.normalized_value [
        | none ↦ ok findings
        | some text ↦ do
          actual ← or_error (parse text) invalid_decimal
          violated ← or_error (violates actual limit) invalid_decimal
          ok (
              if violated
              then derived intake_id policy rule (c.fact_id ∷ [])
                  (number_text actual ⧺ " compared with " ⧺ number_text limit) code findings
              else findings)
      ]

  -- `if evidence_date and evidence_date.normalized_value:`
  unfoldable pub compare_freshness :
      String
      → List CandidateFact
      → PolicyContext
      → ℕ
      → List DerivedFinding
      → Result IntakeError (List DerivedFinding)
  compare_freshness intake_id candidates policy today findings =
      elim (value_of is_evidence_date candidates) [
        | none ↦ ok findings
        | some c ↦ elim (given c.normalized_value) [
          | none ↦ ok findings
          | some text ↦ do
            observed ← or_error (day_of text) invalid_date
            ok (
                if ltb (observed + policy.maximum_evidence_age_days) today
                then derived intake_id policy "EVIDENCE_FRESHNESS" (c.fact_id ∷ [])
                    (decimal (today - observed)
                      ⧺ " days compared with "
                      ⧺ decimal policy.maximum_evidence_age_days
                      ⧺ " days")
                    "EVIDENCE_OUTDATED" findings
                else findings)
        ]
      ]

  unfoldable pub compare_duration :
      String
      → List CandidateFact
      → PolicyContext
      → List DerivedFinding
      → Result IntakeError (List DerivedFinding)
  unfolding contains
  compare_duration intake_id candidates policy findings = elim (value_of is_duration candidates) [
    | none ↦ ok findings
    | some c ↦ elim (given c.normalized_value) [
      | none ↦ ok findings
      | some text ↦ do
        months ← or_error (parse text) invalid_decimal
        long ←
            or_error (whole_above months policy.maximum_duration_months_without_exception)
              invalid_decimal
        ok (
            if long && not (any (is_exception policy) candidates)
            then derived intake_id policy "DURATION_EXCEPTION" (c.fact_id ∷ [])
                (text
                  ⧺ " months compared with "
                  ⧺ decimal policy.maximum_duration_months_without_exception
                  ⧺ " months")
                "DURATION_EXCEPTION_REQUIRED" findings
            else findings)
    ]
  ]

  unfoldable pub compare_approvals :
      String
      → List CandidateFact
      → PolicyContext
      → List DerivedFinding
      → Result IntakeError (List DerivedFinding)
  unfolding approver_count
  compare_approvals intake_id candidates policy findings = elim (value_of is_amount candidates) [
    | none ↦ ok findings
    | some c ↦ elim (given c.normalized_value) [
      | none ↦ ok findings
      | some text ↦ do
        actual ← or_error (parse text) invalid_decimal
        threshold ← or_error (parse policy.requires_approval_above_amount) invalid_decimal
        below ← or_error (above threshold actual) invalid_decimal
        ok (
            if not below && ltb (approver_count candidates) policy.required_approval_count
            then derived intake_id policy "REQUIRED_APPROVAL_COUNT"
                (c.fact_id
                  ∷ map (λ (a : CandidateFact). a.fact_id) (keep is_confirmed_approval candidates))
                (decimal (approver_count candidates)
                  ⧺ " distinct authenticated approvers compared with "
                  ⧺ decimal policy.required_approval_count)
                "REQUIRED_APPROVAL_MISSING" findings
            else findings)
    ]
  ]

  unfoldable pub compare_policy :
      String → List CandidateFact → PolicyContext → ℕ → Result IntakeError (List DerivedFinding)
  unfolding compare_registry compare_effective compare_limit compare_freshness compare_duration
      compare_approvals compare_self_approval compare_override
  compare_policy intake_id candidates policy today = do
    f1 ← compare_effective intake_id policy today (compare_registry intake_id candidates policy [])
    maximum ← or_error (parse policy.maximum_discount_percent) invalid_decimal
    minimum ← or_error (parse policy.minimum_margin_percent) invalid_decimal
    f2 ←
        compare_limit intake_id policy above "DISCOUNT_MAXIMUM" "DISCOUNT_ABOVE_POLICY_LIMIT"
          (value_of is_discount candidates) maximum f1
    f3 ←
        compare_limit intake_id policy (λ actual limit. above limit actual) "MARGIN_MINIMUM"
          "MARGIN_BELOW_POLICY_MINIMUM" (value_of is_margin candidates) minimum f2
    f4 ← compare_freshness intake_id candidates policy today f3
    f5 ← compare_duration intake_id candidates policy f4
    f6 ← compare_approvals intake_id candidates policy f5
    ok (
        compare_override intake_id candidates policy
          (compare_self_approval intake_id candidates policy f6))
