-- ===== src/Decisions/Transitions.antt =====
-- transitions.py: the status changes of a case. `contract_ok` stands for
-- `ContractValidator().validate("decision-file", …)`, which the package jsonschema does.
use decision_assurance.Prelude.{
  ℕ, ◌+◌, String, Bool, true, false, not, ◌&&◌, ◌||◌, Option, none, some, List, [], ◌∷◌, ◌++◌, map,
  ◌==◌, option_eq, any, keep, is_empty, length, Result, ok, err, if◌then◌else◌, decimal, ◌⧺◌,
  sorted,
}
use decision_assurance.Prelude.Json.{Json, str, strs, obj, field, done}
use decision_assurance.Governance.Audit.{payload_hash}
use decision_assurance.Decisions.Document.{
  Actor, Approval, CaseEvent, CaseStatus, draft, validation, review, approved, blocked,
  ConflictItem, ConstraintItem, Document, Requirement, actor_json, previous_case_hash, status_text,
}
use decision_assurance.Decisions.Semantics.{Problem, validate_semantics}

-- `ALLOWED_TRANSITIONS.get((source, target))`: the role that the change asks for
unfoldable pub required_role : CaseStatus → CaseStatus → Option String
required_role draft validation = some "VALIDATOR"
required_role draft blocked = some "VALIDATOR"
required_role validation review = some "VALIDATOR"
required_role validation blocked = some "VALIDATOR"
required_role review approved = some "APPROVER"
required_role review blocked = some "APPROVER"
required_role _ _ = none

pub data Reason : Type 0 where
  transition_not_allowed actor_role_not_authorized generator_validator_not_separate : Reason
  human_approver_required separation_of_duties_violation validator_approver_not_separate : Reason
  pass_outcome_required mandatory_constraint_unsatisfied critical_conflict_unresolved : Reason
  mandatory_review_missing mandatory_human_approval_missing : Reason
  block_outcome_requires_blocked_status block_outcome_required : Reason

abbrev pub reason_if : Bool → Reason → List Reason
reason_if true r = r ∷ []
reason_if false r = []

abbrev pub is_to_validation : CaseEvent → Bool
is_to_validation e = elim e.to_status [ validation ↦ true | _ ↦ false ]

-- the actor of some event that led to VALIDATION
abbrev pub has_validated : String → List CaseEvent → Bool
has_validated actor_id events = any (λ e. is_to_validation e && actor_id == e.actor.id) events

-- an approval that counts for a requirement when `actor` approves the case
abbrev pub counts_for : Actor → Requirement → Approval → Bool
counts_for actor r a =
    a.requirement_ref == r.id
    && a.decision == "APPROVE"
    && a.approver.kind == "HUMAN"
    && a.approver.role == r.required_role
    && (not (r.required_role == "APPROVER") || a.approver.id == actor.id)

-- one reason for each mandatory requirement that no approval counts for
unfoldable pub missing_approvals : Actor → List Approval → List Requirement → List Reason
missing_approvals actor approvals [] = []
missing_approvals actor approvals (r ∷ rs) =
    reason_if (r.mandatory && is_empty (keep (counts_for actor r) approvals))
      mandatory_human_approval_missing
    ++ missing_approvals actor approvals rs

abbrev pub has_outcome : Document → String → Bool
has_outcome d outcome = option_eq d.decision_outcome (some outcome)

abbrev pub is_open_constraint : ConstraintItem → Bool
is_open_constraint c = c.severity == "MANDATORY" && not c.satisfied

abbrev pub is_open_conflict : ConflictItem → Bool
is_open_conflict c = c.severity == "CRITICAL" && not c.resolved

abbrev pub is_open_requirement : Requirement → Bool
is_open_requirement r = r.mandatory && not r.satisfied

-- the branch `target is CaseStatus.APPROVED`
unfoldable pub approval_reasons : Document → Actor → List Reason
unfolding missing_approvals
approval_reasons d actor =
    reason_if (not (actor.kind == "HUMAN")) human_approver_required
    ++ reason_if (actor.id == d.created_by.id) separation_of_duties_violation
    ++ reason_if (has_validated actor.id d.audit_events) validator_approver_not_separate
    ++ reason_if (not (has_outcome d "PASS")) pass_outcome_required
    ++ reason_if (any is_open_constraint d.constraints) mandatory_constraint_unsatisfied
    ++ reason_if (any is_open_conflict d.conflicts) critical_conflict_unresolved
    ++ reason_if (any is_open_requirement d.review_requirements) mandatory_review_missing
    ++ missing_approvals actor d.approvals d.review_requirements

-- the reasons that hang on the target alone
unfoldable pub target_reasons : Document → CaseStatus → Actor → List Reason
unfolding approval_reasons
target_reasons d draft actor = []
target_reasons d validation actor =
    reason_if (actor.id == d.created_by.id) generator_validator_not_separate
target_reasons d approved actor = approval_reasons d actor
target_reasons d review actor =
    reason_if (has_outcome d "BLOCK") block_outcome_requires_blocked_status
target_reasons d blocked actor = reason_if (not (has_outcome d "BLOCK")) block_outcome_required

-- `_rejection_reasons`
unfoldable pub rejection_reasons : Document → CaseStatus → CaseStatus → Actor → List Reason
unfolding required_role target_reasons
rejection_reasons d source target actor = elim (required_role source target) [
  | none ↦ transition_not_allowed ∷ []
  | some role ↦
      reason_if (not (actor.role == role)) actor_role_not_authorized
      ++ target_reasons d target actor
]

pub data TransitionError : Type 0 where
  contract_invalid : TransitionError
  semantic_errors : List Problem → TransitionError
  rejected : List Reason → TransitionError

module _ (sha256_json : Json → String) (contract_ok : Document → Bool) where
  -- the event of a transition
  unfoldable pub transition_event : String → Document → CaseStatus → Actor → CaseEvent
  unfolding payload_hash previous_case_hash sorted
  transition_event occurred_at d target actor = record {
    event_id = d.decision_id ⧺ ":transition:" ⧺ decimal (length d.audit_events + 1);
    event_type = "status.transitioned";
    occurred_at = occurred_at;
    actor = actor;
    from_status = some d.status;
    to_status = target;
    reason_codes = "TRANSITION_AUTHORIZED" ∷ [];
    payload_hash = payload_hash sha256_json (
        obj (
          field "from" (str (status_text d.status)) (
            field "to" (str (status_text target)) (
              field "actor" (actor_json actor) (
                field "approval_digests"
                  (strs (sorted (map (λ (a : Approval). a.approval_digest) d.approvals))) done)))));
    previous_event_hash = previous_case_hash sha256_json d.audit_events;
    tenant_id = none;
    correlation_id = none;
    source_channel = none;
  }

  -- the updated copy; `now` is the clock's reading and `text_of` its ISO text
  unfoldable pub moved : (ℕ → String) → ℕ → Document → CaseStatus → Actor → Document
  unfolding transition_event
  moved text_of now d target actor = record d {
    status = target;
    updated_at = now;
    current_owner = actor;
    audit_events = d.audit_events ++ transition_event (text_of now) d target actor ∷ [];
  }

  -- `TransitionPolicy.transition`
  unfoldable pub transition :
      (ℕ → String) → ℕ → Document → CaseStatus → Actor → Result TransitionError Document
  unfolding moved rejection_reasons validate_semantics
  transition text_of now d target actor =
      if not (contract_ok d)
      then err contract_invalid
      else elim (validate_semantics sha256_json d) [
        | err errors ↦ err (semantic_errors errors)
        | ok _ ↦
            let reasons = rejection_reasons d d.status target actor in
            let updated = moved text_of now d target actor in
            if not (is_empty reasons)
            then err (rejected reasons)
            else if contract_ok updated
            then ok updated
            else err contract_invalid
      ]
