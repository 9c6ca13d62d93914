-- ===== src/Retention/Contracts.antt =====
-- lifecycle/contracts.py: deletion requests and the events of the data lifecycle.
use decision_assurance.Prelude.{String, Bool, true, false, Option, none, if◌then◌else◌}

pub data DeletionStatus : Type 0 where
  requested blocked_by_hold executing completed failed : DeletionStatus

-- `is` on two statuses
abbrev pub is_same : DeletionStatus → DeletionStatus → Bool
is_same requested requested = true
is_same blocked_by_hold blocked_by_hold = true
is_same executing executing = true
is_same completed completed = true
is_same failed failed = true
is_same _ _ = false

pub record DeletionRequest : Type 0 where
  pub tenant_id : String
  pub request_id : String
  pub decision_id : Option String
  pub case_ref_hash : String
  pub actor_hash : String
  pub idempotency_key_hash : String
  pub status : DeletionStatus
  pub reason_code : String
  pub requested_at : String
  pub completed_at : Option String
  pub legal_hold_active : Bool
  pub event_hash : String
  pub previous_event_hash : Option String

pub record LifecycleEvent : Type 0 where
  pub tenant_id : String
  pub event_id : String
  pub request_id : String
  pub case_ref_hash : String
  pub event_type : String
  pub occurred_at : String
  pub reason_code : String
  pub correlation_id : String
  pub actor_hash : String
  pub event_hash : String
  pub previous_event_hash : Option String

unfoldable pub with_status :
    DeletionRequest → DeletionStatus → Bool → Option String → Bool → DeletionRequest
with_status request status legal_hold_active completed_at forget_decision = record request {
  status = status;
  legal_hold_active = legal_hold_active;
  completed_at = completed_at;
  decision_id = if forget_decision then none else request.decision_id;
}

unfoldable pub with_event : DeletionRequest → LifecycleEvent → DeletionRequest
with_event request event = record request {
  event_hash = event.event_hash;
  previous_event_hash = event.previous_event_hash;
}
