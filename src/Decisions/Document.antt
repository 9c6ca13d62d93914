-- ===== src/Decisions/Document.antt =====
-- The document of a decision file, as the schema `decision-file` admits it, and the digests of
-- decision_file.py. Instants are ISO texts in the file; here they are numbers, `text_of` writing
-- them. `title`, `description` and the other keys that no rule reads are left out.
use decision_assurance.Prelude.{ℕ, String, Bool, Option, none, some, List, last?}
use decision_assurance.Prelude.Json.{Json, null, str, strs, obj, opt_str, field, field_if, done}
use decision_assurance.Governance.Audit.{payload_hash}

pub record Actor : Type 0 where
  pub id : String
  pub role : String
  pub kind : String

abbrev pub actor_json : Actor → Json
actor_json a =
    obj (field "id" (str a.id) (field "role" (str a.role) (field "kind" (str a.kind) done)))

pub data CaseStatus : Type 0 where
  draft validation review approved blocked : CaseStatus

-- CaseStatus.value
abbrev pub status_text : CaseStatus → String
status_text draft = "DRAFT"
status_text validation = "VALIDATION"
status_text review = "REVIEW"
status_text approved = "APPROVED"
status_text blocked = "BLOCKED"

pub record Claim : Type 0 where
  pub id : String
  pub statement : String
  pub mandatory_evidence : Bool

pub record EvidenceItem : Type 0 where
  pub id : String
  pub claim_refs : List String
  pub source_ref : String
  pub status : String
  pub content_hash : Option String

pub record ConstraintItem : Type 0 where
  pub id : String
  pub severity : String
  pub satisfied : Bool
  pub reason_code : Option String

pub record PolicyItem : Type 0 where
  pub id : String
  pub version : String
  pub requires_review : Bool

pub record RiskItem : Type 0 where
  pub level : String
  pub unresolved : Bool

pub record ConflictItem : Type 0 where
  pub id : String
  pub severity : String
  pub resolved : Bool

pub record Requirement : Type 0 where
  pub id : String
  pub mandatory : Bool
  pub satisfied : Bool
  pub required_role : String

pub record Approval : Type 0 where
  pub requirement_ref : String
  pub approver : Actor
  pub decision : String
  pub decided_at : String
  pub action_digest : Option String
  pub nonce : String
  pub approval_digest : String

-- `content` is the JSON of the action without its digest
pub record CanonicalAction : Type 0 where
  pub canonical_digest : String
  pub reversibility_class : String
  pub content : Json

pub record ValidationResult : Type 0 where
  pub validator : Actor
  pub result : String
  pub reason_codes : List String
  pub validated_at : String

pub record CaseEvent : Type 0 where
  pub event_id : String
  pub event_type : String
  pub occurred_at : String
  pub actor : Actor
  pub from_status : Option CaseStatus
  pub to_status : CaseStatus
  pub reason_codes : List String
  pub payload_hash : String
  pub previous_event_hash : Option String
  pub tenant_id : Option String
  pub correlation_id : Option String
  pub source_channel : Option String

pub record Document : Type 0 where
  pub schema_version : String
  pub decision_id : String
  pub status : CaseStatus
  pub created_at : ℕ
  pub updated_at : ℕ
  pub created_by : Actor
  pub requested_by : Actor
  pub current_owner : Actor
  pub canonical_action : Option CanonicalAction
  pub claims : List Claim
  pub evidence : List EvidenceItem
  pub constraints : List ConstraintItem
  pub policies : List PolicyItem
  pub risks : List RiskItem
  pub conflicts : List ConflictItem
  pub validation_results : List ValidationResult
  pub review_requirements : List Requirement
  pub approvals : List Approval
  pub decision_outcome : Option String
  pub outcome_reasons : List String
  pub audit_events : List CaseEvent

abbrev pub opt_status : Option CaseStatus → Json
opt_status none = null
opt_status (some s) = str (status_text s)

abbrev pub case_event_json : CaseEvent → Json
case_event_json e = obj (
    field "event_id" (str e.event_id) (
      field "event_type" (str e.event_type) (
        field "occurred_at" (str e.occurred_at) (
          field "actor" (actor_json e.actor) (
            field "from_status" (opt_status e.from_status) (
              field "to_status" (str (status_text e.to_status)) (
                field "reason_codes" (strs e.reason_codes) (
                  field "payload_hash" (str e.payload_hash) (
                    field "previous_event_hash" (opt_str e.previous_event_hash) (
                      field_if "tenant_id" e.tenant_id (
                        field_if "correlation_id" e.correlation_id
                          (field_if "source_channel" e.source_channel done))))))))))))

module _ (sha256_json : Json → String) where
  -- `canonical_action_digest`
  unfoldable pub canonical_action_digest : CanonicalAction → String
  unfolding payload_hash
  canonical_action_digest action = payload_hash sha256_json action.content

  -- `bind_canonical_action`
  unfoldable pub bind_canonical_action : CanonicalAction → CanonicalAction
  unfolding canonical_action_digest
  bind_canonical_action action = record action { canonical_digest = canonical_action_digest action }

  abbrev pub approval_payload : Document → Approval → Json
  approval_payload document approval = obj (
      field "decision_id" (str document.decision_id) (
        field "requested_by" (actor_json document.requested_by) (
          field "requirement_ref" (str approval.requirement_ref) (
            field "approver" (actor_json approval.approver) (
              field "decision" (str approval.decision) (
                field "decided_at" (str approval.decided_at) (
                  field "action_digest" (opt_str approval.action_digest)
                    (field "nonce" (str approval.nonce) done))))))))

  -- `approval_digest`
  unfoldable pub approval_digest : Document → Approval → String
  unfolding payload_hash
  approval_digest document approval = payload_hash sha256_json (approval_payload document approval)

  -- `bind_approval`
  unfoldable pub bind_approval : Document → Approval → Approval
  unfolding approval_digest
  bind_approval document approval = record approval {
    approval_digest = approval_digest document approval;
  }

  -- `payload_hash(previous) if previous else None`
  unfoldable pub previous_case_hash : List CaseEvent → Option String
  unfolding payload_hash
  previous_case_hash events = elim (last? events) [
    | none ↦ none
    | some e ↦ some (payload_hash sha256_json (case_event_json e))
  ]
