-- ===== src/Decisions/Evaluation.antt =====
-- `evaluate_decision_file` of decision_file.py. `clock` gives the readings of the engine's clock,
-- `text_of` their ISO texts; `contract_ok` stands for the schema validation of jsonschema.
use decision_assurance.Prelude.{
  ℕ, ◌+◌, String, Bool, not, ◌&&◌, ◌||◌, none, some, List, [], ◌∷◌, ◌++◌, map, ◌==◌, any, last?,
  length, mem, Result, ok, err, if◌then◌else◌, decimal, ◌⧺◌, join,
}
use decision_assurance.Prelude.Json.{Json, str, strs, obj, arr, nil, opt_str, field, done}
use decision_assurance.Governance.Models.{outcome_text}
use decision_assurance.Governance.Audit.{payload_hash}
use decision_assurance.Governance.Request.{Evidence, Constraint, Policy, Actors, Conflict, Request}
use decision_assurance.Governance.Engine.{Report, AssessmentResult, assess}
use decision_assurance.Decisions.Document.{
  Actor, CaseEvent, Claim, ConflictItem, ConstraintItem, Document, EvidenceItem, PolicyItem,
  RiskItem, ValidationResult, previous_case_hash,
}
use decision_assurance.Decisions.Semantics.{Problem, validate_semantics}

abbrev pub engine_actor : Actor
engine_actor = record { id = "decision-assurance-engine"; role = "VALIDATOR"; kind = "SERVICE" }

abbrev pub evidence_request : EvidenceItem → Evidence
evidence_request e = record {
  evidence_id = none;
  id = some e.id;
  status = some e.status;
  verifiable = none;
  fabricated = some (e.status == "FABRICATED");
  outdated = none;
  supports_claim = none;
  contradicts_claim = none;
}

abbrev pub constraint_request : ConstraintItem → Constraint
constraint_request c = record {
  constraint_id = none;
  id = some c.id;
  severity = some c.severity;
  hard = none;
  satisfied = some c.satisfied;
  reason_code = c.reason_code;
}

abbrev pub policy_request : PolicyItem → Policy
policy_request p = record {
  policy_id = none;
  id = some p.id;
  requires_review = some p.requires_review;
}

abbrev pub conflict_request : ConflictItem → Conflict
conflict_request c = record {
  id = some c.id;
  severity = some c.severity;
  resolved = some c.resolved;
}

-- evidence that is there for a claim
abbrev pub supports : Claim → EvidenceItem → Bool
supports claim e = mem claim.id e.claim_refs && not (e.status == "UNAVAILABLE")

unfoldable pub lacks_mandatory_evidence : Document → Bool
lacks_mandatory_evidence d =
    any (λ (c : Claim). c.mandatory_evidence && not (any (supports c) d.evidence)) d.claims

-- `_actors`
unfoldable pub actors_of : Document → Actors
actors_of d = record {
  generator = some d.created_by.id;
  approver = elim (last? d.approvals) [ none ↦ none | some a ↦ some a.approver.id ];
}

abbrev pub joined_versions : Document → String
joined_versions d = join "," (map (λ (p : PolicyItem). p.version) d.policies)

-- `",".join(…) or "none"`
abbrev pub policy_version_of : Document → String
policy_version_of d = if joined_versions d == "" then "none" else joined_versions d

unfoldable pub request_of : Document → Request
unfolding lacks_mandatory_evidence actors_of
request_of d = record {
  decision_id = d.decision_id;
  evidence = map evidence_request d.evidence;
  constraints = map constraint_request d.constraints;
  policies = map policy_request d.policies;
  actors = actors_of d;
  risk = record {
    high_impact = some (any (λ (r : RiskItem). r.level == "HIGH" || r.level == "CRITICAL") d.risks);
    unresolved_uncertainty = some (any (λ (r : RiskItem). r.unresolved) d.risks);
  };
  conflicts = map conflict_request d.conflicts;
  mandatory_evidence_missing = lacks_mandatory_evidence d;
  policy_version = policy_version_of d;
}

-- the dictionary of the report
abbrev pub report_json : Report → Json
report_json r = obj (
    field "report_id" (str r.report_id) (
      field "decision_id" (str r.decision_id) (
        field "outcome" (str (outcome_text r.outcome)) (
          field "reason_codes" (strs r.reason_codes) (
            field "finding_refs" (strs r.finding_refs) (
              field "evidence_refs" (strs r.evidence_refs) (
                field "review_ref" (opt_str r.review_ref) (
                  field "audit_ref" (str r.audit_ref) (
                    field "created_at" (str r.created_at) (
                      field "limitations" (arr nil) (
                        field "versions"
                          (obj (
                            field "das" (str "0.1.0") (
                              field "policy" (str r.policy_version)
                                (field "engine" (str r.engine_version) done))))
                          done)))))))))))

pub data EvaluationError : Type 0 where
  contract_invalid : EvaluationError
  semantic_errors : List Problem → EvaluationError

module _ (sha256_json : Json → String) (contract_ok : Document → Bool) (text_of : ℕ → String)
    (clock : ℕ → ℕ) (request_document evidence_document : Json) where
  abbrev pub assessment : Document → AssessmentResult
  assessment d =
      assess sha256_json (λ n. text_of (clock n)) request_document evidence_document "0.1.0"
        (request_of d)

  abbrev pub evaluation_event : Document → AssessmentResult → CaseEvent
  evaluation_event d result = record {
    event_id = d.decision_id ⧺ ":evaluation:" ⧺ decimal (length d.audit_events + 1);
    event_type = "decision.evaluated";
    occurred_at = result.report.created_at;
    actor = engine_actor;
    from_status = some d.status;
    to_status = d.status;
    reason_codes = result.reason_codes;
    payload_hash = payload_hash sha256_json (report_json result.report);
    previous_event_hash = previous_case_hash sha256_json d.audit_events;
    tenant_id = none;
    correlation_id = none;
    source_channel = none;
  }

  abbrev pub validation_result : AssessmentResult → ValidationResult
  validation_result result = record {
    validator = engine_actor;
    result = outcome_text result.outcome;
    reason_codes = result.reason_codes;
    validated_at = result.report.created_at;
  }

  -- the updated copy
  unfoldable pub evaluated : Document → AssessmentResult → Document
  unfolding payload_hash previous_case_hash
  evaluated d result = record d {
    decision_outcome = some (outcome_text result.outcome);
    outcome_reasons = result.reason_codes;
    updated_at = clock (length result.audit_events);
    validation_results = d.validation_results ++ validation_result result ∷ [];
    audit_events = d.audit_events ++ evaluation_event d result ∷ [];
  }

  unfoldable pub evaluate : Document → Result EvaluationError (Document × AssessmentResult)
  unfolding evaluated request_of assess validate_semantics
  evaluate d =
      if not (contract_ok d)
      then err contract_invalid
      else elim (validate_semantics sha256_json d) [
        | err errors ↦ err (semantic_errors errors)
        | ok _ ↦
            let result = assessment d in
            let updated = evaluated d result in
            if contract_ok updated then ok (updated, result) else err contract_invalid
      ]
