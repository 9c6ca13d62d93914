-- ===== src/Research/Handoff.antt =====
-- `SqliteDecisionEvidenceHandoff` of web_research/compiler.py: research evidence is attached to a decision
-- file. `attach` is one transaction, which holds the write lock from its start: an exception leaves the
-- tables as they were. `document_hash` stands for `payload_hash` of a document's JSON, `sha256_json`
-- and `sha256_ascii` for the hexadecimal SHA-256 of a JSON text with and without characters beyond
-- ASCII, `contract_ok` for the schema check of jsonschema.
use decision_assurance.Prelude.{
  ℕ, max, String, Bool, true, false, not, ◌&&◌, none, some, List, [], ◌∷◌, ◌++◌, map, ◌==◌, all,
  any, find_first, mem, is_le_text, option_eq, keep, take_text, Result, ok, err, raise_if, ◌>>◌,
  if◌then◌else◌, ◌⧺◌,
}
use decision_assurance.Prelude.Json.{Json, nil, cons, str, arr, items}
use decision_assurance.Governance.Audit.{payload_hash}
use decision_assurance.Decisions.Document.{
  Actor, CaseEvent, CaseStatus, draft, Document, EvidenceItem, previous_case_hash,
}
use decision_assurance.Decisions.Semantics.{Problem, claim_ids, evidence_ids, validate_semantics}
use decision_assurance.Research.Runs.{DecisionEvidence}

-- a row of `decisions`
pub record CaseRow : Type 0 where
  pub tenant_id : String
  pub decision_id : String
  pub document : Document

-- a row of `audit_events`
pub record CaseEventRow : Type 0 where
  pub tenant_id : String
  pub decision_id : String
  pub event : CaseEvent

-- a row of `research_handoffs`
pub record HandoffRow : Type 0 where
  pub tenant_id : String
  pub research_run_id : String
  pub decision_file_id : String
  pub handoff_id : String
  pub result_document_hash : String

pub record CaseDb : Type 0 where
  pub decisions : List CaseRow
  pub audit_events : List CaseEventRow
  pub handoffs : List HandoffRow

pub data HandoffError : Type 0 where
  -- DecisionEvidenceHandoffRejected
  no_usable_evidence mixed_research_runs correlation_context_required : HandoffError
  decision_not_found decision_document_changed decision_not_draft : HandoffError
  claim_reference_not_found : HandoffError
  -- ContractValidationError and DecisionFileSemanticError
  contract_violated : HandoffError
  -- sqlite3.IntegrityError
  integrity_error : HandoffError
  semantic_error : List Problem → HandoffError

abbrev pub is_case : String → String → CaseRow → Bool
is_case tenant decision_id row = row.tenant_id == tenant && row.decision_id == decision_id

abbrev pub is_case_event : String → String → String → CaseEventRow → Bool
is_case_event tenant decision_id event_id row =
    row.tenant_id == tenant && row.decision_id == decision_id && row.event.event_id == event_id

abbrev pub is_handoff : String → String → String → String → HandoffRow → Bool
is_handoff tenant run_id decision_id handoff_id row =
    row.tenant_id == tenant
    && row.research_run_id == run_id
    && row.decision_file_id == decision_id
    && row.handoff_id == handoff_id

-- `sorted(evidence, key=lambda x: x.evidence_id)`
unfoldable pub insert_evidence : DecisionEvidence → List DecisionEvidence → List DecisionEvidence
insert_evidence d [] = d ∷ []
insert_evidence d (e ∷ es) =
    let rest = insert_evidence d es in
    if is_le_text d.evidence_id e.evidence_id then d ∷ e ∷ es else e ∷ rest

unfoldable pub sorted_evidence : List DecisionEvidence → List DecisionEvidence
unfolding insert_evidence
sorted_evidence [] = []
sorted_evidence (d ∷ ds) = insert_evidence d (sorted_evidence ds)

-- `handoff_payload`
unfoldable pub handoff_payload : List DecisionEvidence → Json
unfolding sorted_evidence
handoff_payload evidence = arr (
    items
      (λ (d : DecisionEvidence).
        arr (cons (str d.evidence_id) (cons (str d.content_hash) (cons (str d.status) nil))))
      (sorted_evidence evidence))

abbrev pub evidence_item : DecisionEvidence → EvidenceItem
evidence_item d = record {
  id = d.evidence_id;
  claim_refs = d.claim_refs;
  source_ref = d.source_ref;
  status = d.status;
  content_hash = some d.content_hash;
}

-- the evidence that is new to the document; the ids that it has are read before the loop
abbrev pub new_items : List String → List DecisionEvidence → List EvidenceItem
new_items existing evidence =
    map evidence_item (keep (λ (d : DecisionEvidence). not (mem d.evidence_id existing)) evidence)

-- `max(item.observed_at for item in evidence)`, of evidence that begins with `first`
abbrev pub latest : ℕ → List DecisionEvidence → ℕ
latest first [] = first
latest first (d ∷ ds) = latest (max first d.observed_at) ds

-- one run for all: `{item.research_run_id for item in evidence}` has one element
abbrev pub is_of_run : String → List DecisionEvidence → Bool
is_of_run run_id evidence = all (λ (d : DecisionEvidence). d.research_run_id == run_id) evidence

abbrev pub is_correlated : String → List DecisionEvidence → Bool
is_correlated correlation_id evidence =
    all (λ (d : DecisionEvidence). option_eq d.correlation_id (some correlation_id)) evidence

abbrev pub are_refs_known : List String → List DecisionEvidence → Bool
are_refs_known known evidence =
    all (λ (d : DecisionEvidence). all (λ ref. mem ref known) d.claim_refs) evidence

abbrev pub is_draft : CaseStatus → Bool
is_draft draft = true
is_draft _ = false

-- `UPDATE decisions SET document_json=… WHERE tenant_id=… AND decision_id=…`; the document is the one that
-- the transaction read, so that the statement's third condition holds
unfoldable pub update_case : String → String → Document → List CaseRow → List CaseRow
update_case tenant decision_id document [] = []
update_case tenant decision_id document (row ∷ rows) =
    let rest = update_case tenant decision_id document rows in
    if is_case tenant decision_id row then record row { document = document } ∷ rest else row ∷ rest

abbrev pub research_actor : Actor
research_actor = record { id = "system:research-compiler"; role = "GENERATOR"; kind = "SERVICE" }

module _ (sha256_json : Json → String) (sha256_ascii : Json → String)
    (document_hash : Document → String) (contract_ok : Document → Bool) (text_of : ℕ → String) where
  unfoldable pub handoff_id_of : List DecisionEvidence → String
  unfolding handoff_payload
  handoff_id_of evidence = take_text 24 (sha256_ascii (handoff_payload evidence))

  unfoldable pub handoff_event :
      String → String → String → Document → ℕ → List DecisionEvidence → CaseEvent
  unfolding payload_hash handoff_payload handoff_id_of
  handoff_event tenant decision_id correlation_id document updated_at evidence = record {
    event_id = decision_id ⧺ ":research-handoff:" ⧺ handoff_id_of evidence;
    event_type = "research.evidence-attached";
    occurred_at = text_of updated_at;
    actor = research_actor;
    from_status = some draft;
    to_status = draft;
    reason_codes = "EXTERNAL_EVIDENCE_ATTACHED_UNVERIFIED" ∷ [];
    payload_hash = payload_hash sha256_json (handoff_payload evidence);
    previous_event_hash = previous_case_hash sha256_json document.audit_events;
    tenant_id = some tenant;
    correlation_id = some correlation_id;
    source_channel = some "api";
  }

  -- the document with the evidence and the event
  unfoldable pub attached :
      String → String → String → Document → ℕ → List DecisionEvidence → Document
  unfolding handoff_event
  attached tenant decision_id correlation_id document updated_at evidence = record document {
    evidence = document.evidence ++ new_items (evidence_ids document) evidence;
    updated_at = updated_at;
    audit_events =
        document.audit_events
        ++ handoff_event tenant decision_id correlation_id document updated_at evidence ∷ [];
  }

  abbrev check_contract : Document → Result HandoffError (Unit {0})
  check_contract document = raise_if (not (contract_ok document)) contract_violated

  abbrev check_semantics : Document → Result HandoffError (Unit {0})
  check_semantics document = elim (validate_semantics sha256_json document) [
    | ok _ ↦ ok tt
    | err problems ↦ err (semantic_error problems)
  ]

  -- the statements that write
  unfoldable pub store_attached :
      String → String → String → List DecisionEvidence → Document → CaseEvent → CaseDb → CaseDb
  unfolding update_case handoff_id_of
  store_attached tenant decision_id run_id evidence document event db = record {
    decisions = update_case tenant decision_id document db.decisions;
    audit_events =
        db.audit_events
        ++ record { tenant_id = tenant; decision_id = decision_id; event = event } ∷ [];
    handoffs =
        db.handoffs
        ++ record {
          tenant_id = tenant;
          research_run_id = run_id;
          decision_file_id = decision_id;
          handoff_id = handoff_id_of evidence;
          result_document_hash = document_hash document;
        }
          ∷ [];
  }

  -- the part of `attach` after the replay was excluded
  unfoldable pub attach_new :
      String
      → String
      → String
      → String
      → String
      → ℕ
      → List DecisionEvidence
      → Document
      → CaseDb
      → Result HandoffError (Document × CaseDb)
  unfolding attached store_attached
  attach_new tenant decision_id expected_hash run_id correlation_id updated_at evidence document
        db =
      let result = attached tenant decision_id correlation_id document updated_at evidence in
      let event = handoff_event tenant decision_id correlation_id document updated_at evidence in
      raise_if (not (document_hash document == expected_hash)) decision_document_changed
      >> (raise_if (not (is_draft document.status)) decision_not_draft
          >> (raise_if (not (are_refs_known (claim_ids document) evidence))
                claim_reference_not_found
              >> (check_contract result
                  >> (check_semantics result
                      >> (raise_if
                            (any (is_case_event tenant decision_id event.event_id) db.audit_events)
                            integrity_error
                          >> ok (
                            result,
                            store_attached tenant decision_id run_id evidence result event db,
                          ))))))

  -- the transaction, for evidence of one run with one correlation
  unfoldable pub attach_to_case :
      String
      → String
      → String
      → String
      → String
      → ℕ
      → List DecisionEvidence
      → CaseDb
      → Result HandoffError (Document × CaseDb)
  unfolding attach_new
  attach_to_case tenant decision_id expected_hash run_id correlation_id updated_at evidence db =
      elim (find_first (is_case tenant decision_id) db.decisions) [
        | none ↦ err decision_not_found
        | some row ↦
            if any (is_handoff tenant run_id decision_id (handoff_id_of evidence)) db.handoffs
            then ok (row.document, db)
            else attach_new tenant decision_id expected_hash run_id correlation_id updated_at
                evidence row.document db
      ]

  unfoldable pub attach :
      String
      → String
      → String
      → List DecisionEvidence
      → CaseDb
      → Result HandoffError (Document × CaseDb)
  unfolding attach_to_case
  attach tenant decision_id expected_hash [] db = err no_usable_evidence
  attach tenant decision_id expected_hash (first ∷ others) db =
      raise_if (not (is_of_run first.research_run_id others)) mixed_research_runs
      >> elim first.correlation_id [
        | none ↦ err correlation_context_required
        | some correlation_id ↦
            raise_if (not (is_correlated correlation_id others)) correlation_context_required
            >> attach_to_case tenant decision_id expected_hash first.research_run_id correlation_id
                (latest first.observed_at others) (first ∷ others) db
      ]
