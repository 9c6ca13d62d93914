-- ===== src/Research/Ledger.antt =====
-- web_research/audit.py: the ledger of a run. `sha256_json` stands for the hexadecimal SHA-256 of the
-- canonical JSON text of a value, `text_of` for the ISO text of an instant.
use decision_assurance.Prelude.{
  ℕ, ◌+◌, String, Bool, Option, none, some, List, [], ◌∷◌, ◌++◌, length, last?, Result, ok, err,
  decimal, ◌⧺◌,
}
use decision_assurance.Prelude.Json.{Json, Fields, str, strs, obj, opt_str, field, done}
use decision_assurance.Research.Lifecycle.{
  ResearchStatus, ResearchRejection, created, searching, sources_discovered, extracting,
  evidence_compiled, completed, failed, partially_completed, cancelled, transition,
}
use decision_assurance.Research.Runs.{ResearchAuditEvent, ResearchRun}

-- ResearchStatus.value
abbrev pub research_status_text : ResearchStatus → String
research_status_text created = "CREATED"
research_status_text searching = "SEARCHING"
research_status_text sources_discovered = "SOURCES_DISCOVERED"
research_status_text extracting = "EXTRACTING"
research_status_text evidence_compiled = "EVIDENCE_COMPILED"
research_status_text completed = "COMPLETED"
research_status_text failed = "FAILED"
research_status_text partially_completed = "PARTIALLY_COMPLETED"
research_status_text cancelled = "CANCELLED"

-- `EgressDecision` of production/egress.py
pub record EgressDecision : Type 0 where
  pub decision : String
  pub occurred_at : String
  pub tenant_id : String
  pub actor_id : String
  pub correlation_id : String
  pub operating_profile : String
  pub policy_version : String
  pub provider : String
  pub connector : String
  pub target_host : String
  pub requested_processing_location : Option String
  pub evidence_id : Option String
  pub evidence_status : Option String
  pub reason_code : String

egress_fields : ResearchAuditEvent → Fields
egress_fields e = field "decision" (opt_str e.decision) (
    field "operating_profile" (opt_str e.operating_profile) (
      field "policy_version" (opt_str e.policy_version) (
        field "provider" (opt_str e.provider) (
          field "connector" (opt_str e.connector) (
            field "target_host" (opt_str e.target_host) (
              field "requested_processing_location" (opt_str e.requested_processing_location) (
                field "evidence_id" (opt_str e.evidence_id)
                  (field "evidence_status" (opt_str e.evidence_status) done))))))))

-- `to_data(event)`
unfoldable pub audit_json : ResearchAuditEvent → Json
unfolding egress_fields
audit_json e = obj (
    field "event_id" (str e.event_id) (
      field "event_type" (str e.event_type) (
        field "occurred_at" (str e.occurred_at) (
          field "tenant_id" (str e.tenant_id) (
            field "actor_id" (str e.actor_id) (
              field "from_status" (str (research_status_text e.from_status)) (
                field "to_status" (str (research_status_text e.to_status)) (
                  field "reason_codes" (strs e.reason_codes) (
                    field "correlation_id" (str e.correlation_id) (
                      field "payload_hash" (str e.payload_hash) (
                        field "previous_event_hash" (opt_str e.previous_event_hash) (
                          field "schema_version" (str e.schema_version)
                            (egress_fields e)))))))))))))

module _ (sha256_json : Json → String) where
  -- `_hash`
  abbrev pub hash_of_json : Json → String
  hash_of_json value = "sha256:" ⧺ sha256_json value

  abbrev pub audit_hash : ResearchAuditEvent → String
  audit_hash e = hash_of_json (audit_json e)

  -- `_hash(to_data(previous)) if previous else None`
  abbrev pub previous_audit_hash : List ResearchAuditEvent → Option String
  previous_audit_hash events = elim (last? events) [ none ↦ none | some e ↦ some (audit_hash e) ]

  module _ (text_of : ℕ → String) where
    -- the event of `apply_transition`
    unfoldable pub status_event :
        ResearchRun → ResearchStatus → ℕ → String → List String → Json → ResearchAuditEvent
    status_event run target occurred_at actor_id reason_codes payload = record {
      event_id = run.research_run_id ⧺ ":research-audit:" ⧺ decimal (length run.audit_events + 1);
      event_type = "research.status-transitioned";
      occurred_at = text_of occurred_at;
      tenant_id = run.tenant_id;
      actor_id = actor_id;
      from_status = run.status;
      to_status = target;
      reason_codes = reason_codes;
      correlation_id = run.correlation_id;
      payload_hash = hash_of_json payload;
      previous_event_hash = previous_audit_hash run.audit_events;
      schema_version = "research-audit-v1";
      decision = none;
      operating_profile = none;
      policy_version = none;
      provider = none;
      connector = none;
      target_host = none;
      requested_processing_location = none;
      evidence_id = none;
      evidence_status = none;
    }

    -- `apply_transition`: the run that it leaves
    unfoldable pub apply_transition :
        ResearchRun
        → ResearchStatus
        → ℕ
        → String
        → List String
        → Json
        → Bool
        → Result ResearchRejection ResearchRun
    unfolding transition status_event
    apply_transition run target occurred_at actor_id reason_codes payload retry =
        elim (transition run.status target retry) [
          | err e ↦ err e
          | ok _ ↦ ok (record run {
            status = target;
            updated_at = occurred_at;
            audit_events =
                run.audit_events
                ++ status_event run target occurred_at actor_id reason_codes payload ∷ [];
          })
        ]

  abbrev egress_payload : EgressDecision → Json
  egress_payload d = obj (
      field "decision" (str d.decision) (
        field "tenant_id" (str d.tenant_id) (
          field "provider" (str d.provider) (
            field "connector" (str d.connector) (
              field "target_host" (str d.target_host) (
                field "requested_processing_location" (opt_str d.requested_processing_location) (
                  field "evidence_id" (opt_str d.evidence_id) (
                    field "evidence_status" (opt_str d.evidence_status)
                      (field "reason_code" (str d.reason_code) done)))))))))

  -- the event of `append_egress_decision`
  unfoldable pub egress_event : ResearchRun → EgressDecision → ResearchAuditEvent
  egress_event run d = record {
    event_id = run.research_run_id ⧺ ":egress:" ⧺ decimal (length run.audit_events + 1);
    event_type = "research.egress-decision";
    occurred_at = d.occurred_at;
    tenant_id = d.tenant_id;
    actor_id = d.actor_id;
    from_status = run.status;
    to_status = run.status;
    reason_codes = d.reason_code ∷ [];
    correlation_id = d.correlation_id;
    payload_hash = hash_of_json (egress_payload d);
    previous_event_hash = previous_audit_hash run.audit_events;
    schema_version = "research-egress-decision-v1";
    decision = some d.decision;
    operating_profile = some d.operating_profile;
    policy_version = some d.policy_version;
    provider = some d.provider;
    connector = some d.connector;
    target_host = some d.target_host;
    requested_processing_location = d.requested_processing_location;
    evidence_id = d.evidence_id;
    evidence_status = d.evidence_status;
  }

  unfoldable pub append_egress_decision : ResearchRun → EgressDecision → ResearchRun
  unfolding egress_event
  append_egress_decision run d = record run {
    audit_events = run.audit_events ++ egress_event run d ∷ [];
  }
