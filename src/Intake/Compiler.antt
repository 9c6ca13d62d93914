-- ===== src/Intake/Compiler.antt =====
-- intake/compiler.py: `DecisionFileCompiler.compile`. `now` is the reading of its clock, `text_of`
-- the ISO text of an instant. The title, the description and the use case, which no rule reads, are
-- not in the model of a decision file.
use decision_assurance.Prelude.{
  ℕ, ◌+◌, String, Bool, true, false, not, ◌||◌, none, some, List, [], ◌∷◌, map, keep, mem, is_empty,
  or_default, decimal, ◌⧺◌, Result, ok, ◌>>◌, raise_if, if◌then◌else◌,
}
use decision_assurance.Prelude.Json.{Json, str, strs, obj, field, done}
use decision_assurance.Governance.Audit.{payload_hash}
use decision_assurance.Decisions.Document.{
  Actor, CaseEvent, draft, Claim, EvidenceItem, ConstraintItem, Document,
}
use decision_assurance.Intake.Contracts.{
  IntakeStatus, ready, is_trusted, fact_type_text, CandidateFact, DerivedFinding, PolicyContext,
  VerificationReport,
}
use decision_assurance.Intake.Comparison.{IntakeError, needs_confirmation_first}

abbrev pub is_ready : IntakeStatus → Bool
is_ready ready = true
is_ready _ = false

-- `verified`: the facts that may be used
abbrev pub trusted_facts : List CandidateFact → List CandidateFact
trusted_facts candidates = keep (λ (c : CandidateFact). is_trusted c.verification_status) candidates

abbrev pub fact_ids : List CandidateFact → List String
fact_ids facts = map (λ (c : CandidateFact). c.fact_id) facts

abbrev pub claim_id : ℕ → String
claim_id index = "claim-" ⧺ decimal index

-- `None` is printed as such
abbrev pub claim_of : ℕ → CandidateFact → Claim
claim_of index c = record {
  id = claim_id index;
  statement = fact_type_text c.fact_type ⧺ " = " ⧺ or_default c.normalized_value "None";
  mandatory_evidence = true;
}

abbrev pub evidence_of : ℕ → CandidateFact → EvidenceItem
evidence_of index c = record {
  id = c.fact_id;
  claim_refs = claim_id index ∷ [];
  source_ref = c.source.source_id ⧺ ":" ⧺ decimal c.source.start ⧺ "-" ⧺ decimal c.source.end;
  status = "VERIFIED";
  content_hash = some c.source.content_hash;
}

-- `[f(index, x) for index, x in enumerate(xs, n)]`
abbrev pub enumerate {ℓ κ} : {A : Type ℓ} {B : Type κ} → (ℕ → A → B) → ℕ → List A → List B
enumerate f n [] = []
enumerate f n (x ∷ xs) = f n x ∷ enumerate f (n + 1) xs

abbrev pub mandatory_codes : List String
mandatory_codes =
    "MARGIN_BELOW_POLICY_MINIMUM" ∷ "POLICY_NOT_EFFECTIVE" ∷ "POLICY_REFERENCE_NOT_REGISTERED"
    ∷ "SEPARATION_OF_DUTIES_VIOLATION" ∷ "GOVERNANCE_OVERRIDE_ATTEMPT" ∷ []

abbrev pub constraint_of : DerivedFinding → ConstraintItem
constraint_of f = record {
  id = f.finding_id;
  severity = if mem f.result_code mandatory_codes then "MANDATORY" else "REVIEW_REQUIRED";
  satisfied = false;
  reason_code = some f.result_code;
}

abbrev pub compiler_actor : String → Actor
compiler_actor actor_id = record { id = actor_id; role = "GENERATOR"; kind = "SERVICE" }

module _ (sha256_json : Json → String) (text_of : ℕ → String) (now : ℕ) where
  abbrev pub compiled_event : VerificationReport → String → CaseEvent
  compiled_event report actor_id = record {
    event_id = report.intake_id ⧺ "-decision:audit:1";
    event_type = "intake.compiled";
    occurred_at = text_of now;
    actor = compiler_actor actor_id;
    from_status = none;
    to_status = draft;
    reason_codes = "VERIFIED_INTAKE_COMPILED" ∷ [];
    payload_hash = payload_hash sha256_json (
        obj (
          field "intake_id" (str report.intake_id)
            (field "used_fact_refs" (strs (fact_ids (trusted_facts report.candidates))) done)));
    previous_event_hash = none;
    tenant_id = none;
    correlation_id = none;
    source_channel = none;
  }

  unfoldable pub compiled_document : VerificationReport → PolicyContext → String → Document
  unfolding payload_hash
  compiled_document report policy actor_id = record {
    schema_version = "0.2.0";
    decision_id = report.intake_id ⧺ "-decision";
    status = draft;
    created_at = now;
    updated_at = now;
    created_by = compiler_actor actor_id;
    requested_by = compiler_actor actor_id;
    current_owner = compiler_actor actor_id;
    canonical_action = none;
    claims = enumerate claim_of 1 (trusted_facts report.candidates);
    evidence = enumerate evidence_of 1 (trusted_facts report.candidates);
    constraints = map constraint_of report.findings;
    policies =
        record { id = policy.policy_id; version = policy.policy_version; requires_review = false }
        ∷ [];
    risks = [];
    conflicts = [];
    validation_results = [];
    review_requirements = [];
    approvals = [];
    decision_outcome = none;
    outcome_reasons = [];
    audit_events = compiled_event report actor_id ∷ [];
  }

  unfoldable pub compile :
      VerificationReport → PolicyContext → String → IntakeStatus → Result IntakeError Document
  unfolding compiled_document
  compile report policy actor_id status = do
    raise_if
        (not (is_ready status)
          || not report.ready
          || not (is_empty report.unresolved_requirement_refs))
        needs_confirmation_first
    raise_if (is_empty (trusted_facts report.candidates)) needs_confirmation_first
    ok (compiled_document report policy actor_id)
