-- ===== src/Governance/Audit.antt =====
-- audit.py: the hash-chained ledger of an assessment. `sha256_json` stands for the hexadecimal
-- SHA-256 of the canonical JSON text of a value (`json.dumps` with sorted keys, then `hashlib`).
-- `now n` is the n-th reading of the ledger's clock, as an ISO text.
use decision_assurance.Prelude.{
  ℕ, ◌+◌, String, Option, none, some, List, [], ◌∷◌, ◌++◌, length, last?, ◌==◌, decimal, ◌⧺◌,
  if◌then◌else◌,
}
use decision_assurance.Prelude.Json.{Json, str, strs, obj, opt_str, field, Fields, done}

pub record LedgerEvent : Type 0 where
  pub event_id : String
  pub decision_id : String
  pub event_type : String
  pub occurred_at : String
  pub actor_ref : String
  pub payload_hash : String
  pub previous_event_hash : Option String
  pub version_refs : List String
  pub correlation_id : Option String

pub record AuditLedger : Type 0 where
  pub decision_id : String
  pub actor_ref : String
  pub correlation_id : Option String
  pub events : List LedgerEvent

abbrev pub correlation_field : Option String → Fields
correlation_field none = done
correlation_field (some c) = field "correlation_id" (str c) done

-- the dictionary that is kept for an event
abbrev pub event_json : LedgerEvent → Json
event_json e = obj (
    field "event_id" (str e.event_id) (
      field "decision_id" (str e.decision_id) (
        field "event_type" (str e.event_type) (
          field "occurred_at" (str e.occurred_at) (
            field "actor_ref" (str e.actor_ref) (
              field "payload_hash" (str e.payload_hash) (
                field "previous_event_hash" (opt_str e.previous_event_hash) (
                  field "version_refs" (strs e.version_refs)
                    (correlation_field e.correlation_id)))))))))

-- `if self.correlation_id:` leaves the key out for None and for the empty text
abbrev pub truthy : Option String → Option String
truthy none = none
truthy (some c) = if c == "" then none else some c

module _ (sha256_json : Json → String) where
  unfoldable pub payload_hash : Json → String
  payload_hash payload = "sha256:" ⧺ sha256_json payload

  -- `payload_hash(self._events[-1]) if self._events else None`
  unfoldable pub previous_hash : List LedgerEvent → Option String
  unfolding payload_hash
  previous_hash events = elim (last? events) [
    | none ↦ none
    | some e ↦ some (payload_hash (event_json e))
  ]

  -- the event that `AuditLedger.append` builds
  unfoldable pub new_event : (ℕ → String) → AuditLedger → String → Json → LedgerEvent
  unfolding payload_hash previous_hash
  new_event now ledger event_type payload = record {
    event_id = ledger.decision_id ⧺ ":event:" ⧺ decimal (length ledger.events + 1);
    decision_id = ledger.decision_id;
    event_type = event_type;
    occurred_at = now (length ledger.events);
    actor_ref = ledger.actor_ref;
    payload_hash = payload_hash payload;
    previous_event_hash = previous_hash ledger.events;
    version_refs = "das:0.1.0" ∷ "engine:0.1.0" ∷ [];
    correlation_id = truthy ledger.correlation_id;
  }

  -- `AuditLedger.append`
  unfoldable pub append : (ℕ → String) → AuditLedger → String → Json → AuditLedger
  unfolding new_event
  append now ledger event_type payload = record ledger {
    events = ledger.events ++ new_event now ledger event_type payload ∷ [];
  }

-- `AuditLedger(decision_id=…, now=…)`
unfoldable pub new_ledger : String → AuditLedger
new_ledger decision_id = record {
  decision_id = decision_id;
  actor_ref = "decision-assurance-engine";
  correlation_id = none;
  events = [];
}
