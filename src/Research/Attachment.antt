-- ===== src/Research/Attachment.antt =====
-- What the attachment of research evidence does to decision files (web_research/compiler.py).
use decision_assurance.Prelude.{
  ℕ, ◌≡◌, refl, sym, ap, String, Bool, true, not, some, List, [], ◌∷◌, ◌++◌, any, find_first, ◌⊎◌,
  inl, inr, ◌==◌, Result, ok, err, raise_if-eq-ok, any-append_one, not-eq-false, ◌>>◌, ok_inj,
  IsChain-append,
}
use mathlib.Core.Path.{subst}
use decision_assurance.Prelude.Json.{Json}
use decision_assurance.Decisions.Document.{CaseEvent, Document, previous_case_hash}
use decision_assurance.Decisions.Semantics.{Problem, evidence_ids, validate_semantics}
use decision_assurance.Decisions.History.{IsCaseChain, event_hash}
use decision_assurance.Research.Runs.{DecisionEvidence}
use decision_assurance.Research.Handoff.{
  CaseDb, CaseRow, HandoffError, integrity_error, semantic_error, decision_document_changed,
  decision_not_draft, claim_reference_not_found, correlation_context_required, mixed_research_runs,
  latest, is_of_run, contract_violated, HandoffRow, attach, attach_new, attach_to_case, attached,
  handoff_event, handoff_id_of, is_case, is_draft, is_handoff, new_items, store_attached,
}
use decision_assurance.Research.CaseRows.{
  find_first-update_case, is_handoff_self, known_case, case_split, same_check, same_for, some_for,
}

module _ (sha256_json : Json → String) (sha256_ascii : Json → String)
    (document_hash : Document → String) (contract_ok : Document → Bool) (text_of : ℕ → String) where
  -- the semantic check of a document lets the rest run only without problems
  semantics-eq-ok :
      (r : Result (List Problem) (Unit {0})) (k : Result HandoffError (Document × CaseDb))
      {b : Document × CaseDb}
      → (elim r [ ok _ ↦ ok tt | err problems ↦ err (semantic_error problems) ] >> k) ≡ ok b
      → (r ≡ ok tt) × (k ≡ ok b)
  semantics-eq-ok (ok tt) k h = (refl, h)
  semantics-eq-ok (err problems) k h = cc

  -- what a document that got evidence has of the one before
  pub record IsAttachment (expected_hash : String) (evidence : List DecisionEvidence)
      (document result : Document) : Type 0 where
    pub unchanged_since : (document_hash document == expected_hash) ≡ true
    pub was_draft : is_draft document.status ≡ true
    pub status : result.status ≡ document.status
    pub claims : result.claims ≡ document.claims
    pub approvals : result.approvals ≡ document.approvals
    pub outcome : result.decision_outcome ≡ document.decision_outcome
    pub grown : result.evidence ≡ document.evidence ++ new_items (evidence_ids document) evidence
    pub is_consistent : validate_semantics sha256_json result ≡ ok tt
    pub chain :
        IsCaseChain sha256_json contract_ok document → IsCaseChain sha256_json contract_ok result

  module _ (tenant decision_id expected_hash run_id correlation_id : String) (updated_at : ℕ) where
    abbrev event_for : List DecisionEvidence → Document → CaseEvent
    event_for evidence document =
        handoff_event sha256_json sha256_ascii document_hash contract_ok text_of tenant decision_id
          correlation_id document updated_at evidence

    abbrev attached_to : List DecisionEvidence → Document → Document
    attached_to evidence document =
        attached sha256_json sha256_ascii document_hash contract_ok text_of tenant decision_id
          correlation_id document updated_at evidence

    -- the document and the tables after evidence was attached
    abbrev Stored : List DecisionEvidence → Document → CaseDb → Document × CaseDb → Type 0
    Stored evidence document db (d, db') =
        IsAttachment expected_hash evidence document d
        × (db'
            ≡ store_attached sha256_json sha256_ascii document_hash contract_ok text_of tenant
                decision_id run_id evidence d (event_for evidence document) db)

    attached-IsCaseChain :
        (evidence : List DecisionEvidence) (document : Document)
        → IsCaseChain sha256_json contract_ok document
        → IsCaseChain sha256_json contract_ok (attached_to evidence document)
    unfolding attached handoff_event previous_case_hash
    attached-IsCaseChain evidence document c =
        IsChain-append (λ e. e.previous_event_hash) (event_hash sha256_json contract_ok)
          document.audit_events (event_for evidence document) c refl

    attached-IsAttachment :
        (evidence : List DecisionEvidence) (document : Document)
        → (document_hash document == expected_hash) ≡ true
        → is_draft document.status ≡ true
        → validate_semantics sha256_json (attached_to evidence document) ≡ ok tt
        → IsAttachment expected_hash evidence document (attached_to evidence document)
    unfolding attached
    attached-IsAttachment evidence document h k v = record {
      unchanged_since = h;
      was_draft = k;
      status = refl;
      claims = refl;
      approvals = refl;
      outcome = refl;
      grown = refl;
      is_consistent = v;
      chain = attached-IsCaseChain evidence document;
    }

    attach_new-ok :
        (evidence : List DecisionEvidence) (document : Document) (db : CaseDb) {d : Document}
        {db' : CaseDb}
        → attach_new sha256_json sha256_ascii document_hash contract_ok text_of tenant decision_id
            expected_hash run_id correlation_id updated_at evidence document db
          ≡ ok (d, db')
        → Stored evidence document db (d, db')
    unfolding attach_new
    attach_new-ok evidence document db {d} {db'} h =
        let (k1, h1) =
          raise_if-eq-ok (not (document_hash document == expected_hash)) decision_document_changed _
            h in
        let (k2, h2) = raise_if-eq-ok (not (is_draft document.status)) decision_not_draft _ h1 in
        let (_, h3) = raise_if-eq-ok _ claim_reference_not_found _ h2 in
        let (_, h4) = raise_if-eq-ok _ contract_violated _ h3 in
        let (k5, h5) = semantics-eq-ok _ _ h4 in
        let (_, h6) = raise_if-eq-ok _ integrity_error _ h5 in
        subst (Stored evidence document db) (ok_inj _ (d, db') h6)
          (attached-IsAttachment evidence document (not-eq-false _ k1) (not-eq-false _ k2) k5, refl)

    abbrev handoff_row : List DecisionEvidence → Document → HandoffRow
    handoff_row evidence d = record {
      tenant_id = tenant;
      research_run_id = run_id;
      decision_file_id = decision_id;
      handoff_id =
          handoff_id_of sha256_json sha256_ascii document_hash contract_ok text_of evidence;
      result_document_hash = document_hash d;
    }

    abbrev is_known : List DecisionEvidence → CaseDb → Bool
    is_known evidence db =
        any
          (is_handoff tenant run_id decision_id
            (handoff_id_of sha256_json sha256_ascii document_hash contract_ok text_of evidence))
          db.handoffs

    -- a handoff that is known gives the document back
    attach_to_case-known :
        (again : String) (evidence : List DecisionEvidence) (db : CaseDb) (row : CaseRow)
        → find_first (is_case tenant decision_id) db.decisions ≡ some row
        → is_known evidence db ≡ true
        → attach_to_case sha256_json sha256_ascii document_hash contract_ok text_of tenant
            decision_id again run_id correlation_id updated_at evidence db
          ≡ ok (row.document, db)
    unfolding attach_to_case
    attach_to_case-known again evidence db row h k = known_case _ _ db _ row h k

    -- what was stored is found
    Stored-is_known :
        (again : String) (evidence : List DecisionEvidence) (db : CaseDb) (row : CaseRow)
        (p : Document × CaseDb)
        → find_first (is_case tenant decision_id) db.decisions ≡ some row
        → Stored evidence row.document db p
        → attach_to_case sha256_json sha256_ascii document_hash contract_ok text_of tenant
            decision_id again run_id correlation_id updated_at evidence p.1
          ≡ ok p
    unfolding store_attached
    Stored-is_known again evidence db row (d, db') h (_, e) =
        subst
          (λ t.
            attach_to_case sha256_json sha256_ascii document_hash contract_ok text_of tenant
              decision_id again run_id correlation_id updated_at evidence t
            ≡ ok (d, t))
          (sym e)
          (attach_to_case-known again evidence _ (record row { document = d })
            (find_first-update_case tenant decision_id d db.decisions h)
            (any-append_one _ db.handoffs (handoff_row evidence d) (
              is_handoff_self tenant run_id decision_id _ (handoff_row evidence d) refl refl refl
                refl)))

    -- The transaction gives back a document to which the evidence was attached before, or attaches it.
    attach_to_case-ok :
        (evidence : List DecisionEvidence) (db : CaseDb) (p : Document × CaseDb)
        → attach_to_case sha256_json sha256_ascii document_hash contract_ok text_of tenant
            decision_id expected_hash run_id correlation_id updated_at evidence db
          ≡ ok p
        → (row : CaseRow) × (find_first (is_case tenant decision_id) db.decisions ≡ some row)
          × ((is_known evidence db ≡ true) × (p ≡ (row.document, db))
              ⊎ Stored evidence row.document db p)
    unfolding attach_to_case
    attach_to_case-ok evidence db p h =
        let (row, found, r) =
          case_split (find_first (is_case tenant decision_id) db.decisions) (is_known evidence db)
            db
            (λ (r : CaseRow).
              attach_new sha256_json sha256_ascii document_hash contract_ok text_of tenant
                decision_id expected_hash run_id correlation_id updated_at evidence r.document db)
            p h in
        (
          row,
          found,
          elim r [ inl k ↦ inl k | inr k ↦ inr (attach_new-ok evidence row.document db k) ],
        )

    attach_to_case-replay :
        (again : String) (evidence : List DecisionEvidence) (db : CaseDb) (p : Document × CaseDb)
        → attach_to_case sha256_json sha256_ascii document_hash contract_ok text_of tenant
            decision_id expected_hash run_id correlation_id updated_at evidence db
          ≡ ok p
        → attach_to_case sha256_json sha256_ascii document_hash contract_ok text_of tenant
            decision_id again run_id correlation_id updated_at evidence p.1
          ≡ ok p
    attach_to_case-replay again evidence db p h =
        let (row, found, r) = attach_to_case-ok evidence db p h in
        elim r [
          | inl (k, e) ↦
              subst
                (λ (q : Document × CaseDb).
                  attach_to_case sha256_json sha256_ascii document_hash contract_ok text_of tenant
                    decision_id again run_id correlation_id updated_at evidence q.1
                  ≡ ok q)
                (sym e) (attach_to_case-known again evidence db row found k)
          | inr k ↦ Stored-is_known again evidence db row p found k
        ]

    attach_to_case-IsAttachment :
        (evidence : List DecisionEvidence) (db db' : CaseDb) (d : Document)
        → attach_to_case sha256_json sha256_ascii document_hash contract_ok text_of tenant
            decision_id expected_hash run_id correlation_id updated_at evidence db
          ≡ ok (d, db')
        → (row : CaseRow) × (find_first (is_case tenant decision_id) db.decisions ≡ some row)
          × ((d ≡ row.document) × (db' ≡ db) ⊎ IsAttachment expected_hash evidence row.document d)
    attach_to_case-IsAttachment evidence db db' d h =
        let (row, found, r) = attach_to_case-ok evidence db (d, db') h in
        (
          row,
          found,
          elim r [ inl (_, e) ↦ inl (ap (λ q. q.0) e, ap (λ q. q.1) e) | inr (k, _) ↦ inr k ],
        )

  -- What attaches evidence attaches it once: the same evidence offered again to the tables that a call
  -- left gives the same document back and changes no table, whatever document the caller expects.
  pub attach-replay :
      (tenant decision_id expected_hash again : String) (evidence : List DecisionEvidence)
      (db : CaseDb) (p : Document × CaseDb)
      → attach sha256_json sha256_ascii document_hash contract_ok text_of tenant decision_id
          expected_hash evidence db
        ≡ ok p
      → attach sha256_json sha256_ascii document_hash contract_ok text_of tenant decision_id again
          evidence p.1
        ≡ ok p
  unfolding attach
  attach-replay tenant decision_id expected_hash again [] db p h = cc
  attach-replay tenant decision_id expected_hash again (first ∷ others) db p h =
      same_check _ mixed_research_runs
        (same_for first.correlation_id _ _ (λ c. same_check _ correlation_context_required (
          attach_to_case-replay tenant decision_id expected_hash first.research_run_id c
            (latest first.observed_at others) again (first ∷ others) db p)))
        h

  -- A document that is given back is the stored one, with no table changed, or the stored one with the
  -- evidence attached.
  pub attach-IsAttachment :
      (tenant decision_id expected_hash : String) (evidence : List DecisionEvidence)
      (db db' : CaseDb) (d : Document)
      → attach sha256_json sha256_ascii document_hash contract_ok text_of tenant decision_id
          expected_hash evidence db
        ≡ ok (d, db')
      → (row : CaseRow) × (find_first (is_case tenant decision_id) db.decisions ≡ some row)
        × ((d ≡ row.document) × (db' ≡ db) ⊎ IsAttachment expected_hash evidence row.document d)
  unfolding attach
  attach-IsAttachment tenant decision_id expected_hash [] db db' d h = cc
  attach-IsAttachment tenant decision_id expected_hash (first ∷ others) db db' d h =
      let (_, h1) =
        raise_if-eq-ok (not (is_of_run first.research_run_id others)) mixed_research_runs _ h in
      let (c, _, h2) = some_for first.correlation_id _ h1 in
      let (_, h3) = raise_if-eq-ok _ correlation_context_required _ h2 in
      attach_to_case-IsAttachment tenant decision_id expected_hash first.research_run_id c
        (latest first.observed_at others) (first ∷ others) db db' d h3
