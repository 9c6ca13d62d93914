-- ===== src/Intake/Verification.antt =====
-- intake/verification.py: `IntakeVerifier`. `registry` is the trusted policy registry, `today` the
-- reference date.
use decision_assurance.Prelude.{
  ℕ, String, Bool, true, false, not, ◌&&◌, Option, none, some, List, [], ◌∷◌, ◌++◌, map, any, keep,
  mem, is_empty, is_some, ltb, or_default, unique_from, contains, contains_lower, Result, ok, ◌>>=◌,
  if◌then◌else◌,
}
use decision_assurance.Intake.Contracts.{
  VerificationStatus, verified, human_confirmed, refused, is_unresolved, is_confirmed, is_trusted,
  FactType, amount, discount_percent, margin_percent, payment_term_days, duration_months, date,
  evidence_date, policy_claim, exception_claim, approval_claim, self_approval_claim, role_claim,
  CandidateFact, VerificationRequirement, ExtractionReport, DerivedFinding, PolicyContext,
  VerificationReport,
}
use decision_assurance.Intake.Comparison.{
  Values, IntakeError, is_amount, is_discount, is_margin, is_policy_claim, is_approval_claim,
  is_instruction, compare_policy,
}

-- `fact_type in _OBJECTIVE_FACTS`
abbrev pub is_objective : FactType → Bool
is_objective amount = true
is_objective discount_percent = true
is_objective margin_percent = true
is_objective payment_term_days = true
is_objective duration_months = true
is_objective date = true
is_objective evidence_date = true
is_objective _ = false

-- `_verify_candidate` of a candidate that is neither confirmed nor rejected
abbrev pub verify_open : CandidateFact → CandidateFact
verify_open c =
    if is_objective c.fact_type && is_some c.normalized_value
    then record c { verification_status = verified; confirmation_required = false }
    else if is_instruction c.fact_type
    then record c { verification_status = refused }
    else c

-- `status in {HUMAN_CONFIRMED, REJECTED}`
abbrev pub is_decided : VerificationStatus → Bool
is_decided human_confirmed = true
is_decided refused = true
is_decided _ = false

unfoldable pub verify_candidate : CandidateFact → CandidateFact
verify_candidate c = if is_decided c.verification_status then c else verify_open c

abbrev pub with_refusal : CandidateFact → CandidateFact
with_refusal c = record c { verification_status = refused; confirmation_required = false }

-- `fact_type in {POLICY_CLAIM, APPROVAL_CLAIM, ROLE_CLAIM}`
abbrev pub is_governance_claim : FactType → Bool
is_governance_claim policy_claim = true
is_governance_claim approval_claim = true
is_governance_claim role_claim = true
is_governance_claim _ = false

-- the instruction's text and the candidate's overlap
abbrev pub overlaps : CandidateFact → CandidateFact → Bool
overlaps c instruction =
    ltb instruction.source.start c.source.end && ltb c.source.start instruction.source.end

-- a claim inside an instruction
abbrev pub is_embedded : List CandidateFact → CandidateFact → Bool
is_embedded candidates c =
    is_governance_claim c.fact_type
    && any (overlaps c) (keep (λ (i : CandidateFact). is_instruction i.fact_type) candidates)

-- `_reject_embedded_governance_claims`
unfoldable pub reject_embedded : List CandidateFact → List CandidateFact
reject_embedded candidates =
    map (λ (c : CandidateFact). if is_embedded candidates c then with_refusal c else c) candidates

-- a claim that does not name the trusted policy
abbrev pub is_foreign_claim : PolicyContext → CandidateFact → Bool
is_foreign_claim policy c =
    is_policy_claim c.fact_type
    && not (contains_lower policy.policy_id (or_default c.normalized_value ""))

-- `_verify_policy_references`
unfoldable pub verify_policy_references :
    Option PolicyContext → List CandidateFact → List CandidateFact
unfolding contains_lower
verify_policy_references none candidates = candidates
verify_policy_references (some policy) candidates =
    map (λ (c : CandidateFact). if is_foreign_claim policy c then with_refusal c else c) candidates

-- `fact_type in present`
abbrev pub is_present : (FactType → Bool) → List CandidateFact → Bool
is_present is_type candidates =
    any (λ (c : CandidateFact). is_trusted c.verification_status && is_type c.fact_type) candidates

abbrev pub missing_reason : (FactType → Bool) → String → List CandidateFact → List String
missing_reason is_type reason candidates = if is_present is_type candidates then [] else reason ∷ []

-- `_REQUIRED_FACTS - present`, sorted by name
abbrev pub missing_reasons : List CandidateFact → List String
missing_reasons candidates =
    missing_reason is_amount "REQUIRED_FACT_MISSING:AMOUNT" candidates
    ++ missing_reason is_discount "REQUIRED_FACT_MISSING:DISCOUNT_PERCENT" candidates
    ++ missing_reason is_margin "REQUIRED_FACT_MISSING:MARGIN_PERCENT" candidates

abbrev pub is_claim : FactType → Bool
is_claim policy_claim = true
is_claim exception_claim = true
is_claim approval_claim = true
is_claim self_approval_claim = true
is_claim _ = false

-- a claim that a human has still to confirm
abbrev pub is_untrusted : CandidateFact → Bool
is_untrusted c =
    c.confirmation_required && is_unresolved c.verification_status && is_claim c.fact_type

abbrev pub reason_when : Bool → String → List String
reason_when b code = if b then code ∷ [] else []

-- the reasons of `_build_report`, each once
unfoldable pub report_reasons :
    Option PolicyContext → List CandidateFact → List String → Bool → List String
unfolding unique_from
report_reasons policy candidates refs conflicts = unique_from [] (
    reason_when (not (is_some policy)) "TRUSTED_POLICY_UNAVAILABLE"
    ++ reason_when conflicts "CONFLICTS_UNRESOLVED"
    ++ reason_when (not (is_empty refs)) "MANDATORY_INFORMATION_MISSING"
    ++ missing_reasons candidates
    ++ reason_when (any is_untrusted candidates) "HUMAN_CONFIRMATION_REQUIRED")

-- an approval that a human has confirmed
abbrev pub has_confirmed_approval : List CandidateFact → Bool
has_confirmed_approval candidates =
    any (λ (c : CandidateFact). is_approval_claim c.fact_type && is_confirmed c.verification_status)
      candidates

abbrev pub is_approval_ref : String → Bool
is_approval_ref ref = contains ":requirement:APPROVAL_CLAIM:" ref

-- the requirements that stay unresolved
unfoldable pub open_refs : List CandidateFact → List String → List String
unfolding contains
open_refs candidates refs =
    keep (λ ref. not (has_confirmed_approval candidates && is_approval_ref ref)) refs

-- the three passes over the candidates
unfoldable pub verify_candidates : Option PolicyContext → List CandidateFact → List CandidateFact
unfolding verify_candidate reject_embedded verify_policy_references
verify_candidates policy candidates =
    verify_policy_references policy (reject_embedded (map verify_candidate candidates))

module _ (values : Values) (registry : String → Option PolicyContext) (today : ℕ) where
  -- the findings of `_build_report`
  unfoldable pub report_findings :
      String → List CandidateFact → Option PolicyContext → Result IntakeError (List DerivedFinding)
  unfolding compare_policy
  report_findings intake_id candidates none = ok []
  report_findings intake_id candidates (some policy) =
      compare_policy values intake_id candidates policy today

  unfoldable pub build_report :
      String
      → List CandidateFact
      → Option PolicyContext
      → List String
      → Bool
      → Result IntakeError VerificationReport
  unfolding report_findings report_reasons
  build_report intake_id candidates policy refs conflicts = do
    findings ← report_findings intake_id candidates policy
    ok (record {
      schema_version = "0.3.0";
      intake_id = intake_id;
      candidates = candidates;
      findings = findings;
      unresolved_requirement_refs = refs;
      ready = is_empty (report_reasons policy candidates refs conflicts);
      reason_codes = report_reasons policy candidates refs conflicts;
    })

  unfoldable pub verify : String → ExtractionReport → Result IntakeError VerificationReport
  unfolding verify_candidates build_report
  verify tenant_id extraction =
      build_report extraction.intake_id
        (verify_candidates (registry tenant_id) extraction.candidates) (registry tenant_id)
        (map (λ (r : VerificationRequirement). r.requirement_id) extraction.requirements)
        (not (is_empty extraction.conflicts))

  unfoldable pub reverify : String → VerificationReport → Result IntakeError VerificationReport
  unfolding verify_candidates open_refs build_report
  reverify tenant_id report =
      let candidates = verify_candidates (registry tenant_id) report.candidates in
      build_report report.intake_id candidates (registry tenant_id)
        (open_refs candidates report.unresolved_requirement_refs)
        (mem "CONFLICTS_UNRESOLVED" report.reason_codes)
