-- ===== src/Governance/Trail.antt =====
-- The ledger of an assessment: its chain of hashes, and which events it holds in which order.
use decision_assurance.Prelude.{
  IsChain, IsChain-append, ℕ, suc, ◌+◌, String, ◌≡◌, refl, ap, ◌∙◌, Option, none, List, [], ◌∷◌,
  ◌++◌, map, arith, length, decimal, ◌⧺◌,
}
use mathlib.Core.Path.{subst}
use mathlib.Core.List.{append_assoc, map-append, append-nil}
use native.Mathlib.Nat.{add-zero}
use decision_assurance.Prelude.Json.{Json}
use decision_assurance.Governance.Models.{Outcome, Finding, finding_json}
use decision_assurance.Governance.Audit.{
  AuditLedger, LedgerEvent, event_json, payload_hash, previous_hash, append, new_ledger,
}
use decision_assurance.Governance.Request.{Request}
use decision_assurance.Governance.Engine.{
  record_findings, request_review, assess_ledger, assess, validate, govern,
}

module _ (sha256_json : Json → String) where
  -- Each event names the hash of the one before it, the first that of `previous`.
  abbrev pub IsLinked : Option String → List LedgerEvent → Type 0
  IsLinked = IsChain (λ e. e.previous_event_hash) (λ e. payload_hash sha256_json (event_json e))

  -- Event k is named `<decision>:event:<k + 1>`.
  abbrev pub IsNumbered : String → ℕ → List LedgerEvent → Type 0
  IsNumbered d n [] = Unit
  IsNumbered d n (e ∷ es) =
      (e.event_id ≡ d ⧺ ":event:" ⧺ decimal (n + 1)) × (e.decision_id ≡ d) × IsNumbered d (suc n) es

  IsNumbered-append :
      (d : String) (n : ℕ) (es : List LedgerEvent) (e : LedgerEvent)
      → IsNumbered d n es
      → e.event_id ≡ d ⧺ ":event:" ⧺ decimal (n + length es + 1)
      → e.decision_id ≡ d
      → IsNumbered d n (es ++ e ∷ [])
  IsNumbered-append d n [] e h k l = (rw (add-zero n) at k, l, tt)
  IsNumbered-append d n (x ∷ es) e h k l = (
    h.0,
    h.1,
    IsNumbered-append d (suc n) es e h.2 (k ∙ ap (λ t. d ⧺ ":event:" ⧺ decimal t) (omega arith)) l,
  )

  pub record IsSound (l : AuditLedger) : Type 0 where
    pub linked : IsLinked none l.events
    pub numbered : IsNumbered l.decision_id 0 l.events

  -- `AuditLedger.append` keeps a ledger's chain and numbering, for any payload.
  pub append-IsSound :
      (now : ℕ → String) (l : AuditLedger) (event_type : String) (payload : Json)
      → IsSound l
      → IsSound (append sha256_json now l event_type payload)
  unfolding append previous_hash
  append-IsSound now l event_type payload h = record {
    linked =
        IsChain-append (λ e. e.previous_event_hash) (λ e. payload_hash sha256_json (event_json e))
          l.events _ h.linked refl;
    numbered =
        IsNumbered-append l.decision_id 0 l.events _ h.numbered
          (ap (λ t. l.decision_id ⧺ ":event:" ⧺ decimal t) (omega arith)) refl;
  }

pub new_ledger-IsSound :
    (sha256_json : Json → String) (d : String) → IsSound sha256_json (new_ledger d)
unfolding new_ledger
new_ledger-IsSound sha256_json d = record { linked = tt; numbered = tt }

abbrev types_of : AuditLedger → List String
types_of l = map (λ e. e.event_type) l.events

-- one "finding.created" for each finding
abbrev pub created_types : List Finding → List String
created_types [] = []
created_types (f ∷ fs) = "finding.created" ∷ created_types fs

abbrev pub review_types : Outcome → List String
review_types Outcome.review = "review.requested" ∷ []
review_types _ = []

new_ledger-types : (d : String) → types_of (new_ledger d) ≡ []
unfolding new_ledger
new_ledger-types d = refl

module _ (sha256_json : Json → String) (now : ℕ → String) (document evidence_document : Json) where
  append-types :
      (l : AuditLedger) (t : String) (p : Json)
      → types_of (append sha256_json now l t p) ≡ types_of l ++ t ∷ []
  unfolding append
  append-types l t p = rw map-append

  record_findings-IsSound :
      (l : AuditLedger) (fs : List Finding)
      → IsSound sha256_json l
      → IsSound sha256_json (record_findings sha256_json now document evidence_document l fs)
  unfolding record_findings
  record_findings-IsSound l [] h = h
  record_findings-IsSound l (f ∷ fs) h =
      record_findings-IsSound (append sha256_json now l "finding.created" (finding_json f)) fs
        (append-IsSound sha256_json now l "finding.created" (finding_json f) h)

  record_findings-types :
      (l : AuditLedger) (fs : List Finding)
      → types_of (record_findings sha256_json now document evidence_document l fs)
        ≡ types_of l ++ created_types fs
  unfolding record_findings
  record_findings-types l [] = rw append-nil
  record_findings-types l (f ∷ fs) =
      record_findings-types (append sha256_json now l "finding.created" (finding_json f)) fs
      ∙ rw (append-types l "finding.created" (finding_json f), append_assoc)

  request_review-IsSound :
      (o : Outcome) (d : String) (codes : List String) (l : AuditLedger)
      → IsSound sha256_json l
      → IsSound sha256_json (request_review sha256_json now document evidence_document o d codes l)
  unfolding request_review
  request_review-IsSound Outcome.review d codes l h = append-IsSound sha256_json now l _ _ h
  request_review-IsSound _ d codes l h = h

  request_review-types :
      (o : Outcome) (d : String) (codes : List String) (l : AuditLedger)
      → types_of (request_review sha256_json now document evidence_document o d codes l)
        ≡ types_of l ++ review_types o
  unfolding request_review
  request_review-types Outcome.review d codes l = append-types l _ _
  request_review-types _ d codes l = rw append-nil

  assess_ledger-IsSound :
      (d : String) (fs : List Finding)
      → IsSound sha256_json (assess_ledger sha256_json now document evidence_document d fs)
  unfolding assess_ledger
  assess_ledger-IsSound d fs = request_review-IsSound _ d _ _ (
      append-IsSound sha256_json now _ _ _ (
        record_findings-IsSound _ fs (
          append-IsSound sha256_json now _ _ _
            (append-IsSound sha256_json now _ _ _ (new_ledger-IsSound sha256_json d)))))

  record_findings-decision_id :
      (l : AuditLedger) (fs : List Finding)
      → (record_findings sha256_json now document evidence_document l fs).decision_id
        ≡ l.decision_id
  unfolding record_findings
  record_findings-decision_id l [] = refl
  record_findings-decision_id l (f ∷ fs) =
      record_findings-decision_id (append sha256_json now l "finding.created" (finding_json f)) fs

  request_review-decision_id :
      (o : Outcome) (d : String) (codes : List String) (l : AuditLedger)
      → (request_review sha256_json now document evidence_document o d codes l).decision_id
        ≡ l.decision_id
  unfolding request_review
  request_review-decision_id Outcome.review d codes l = refl
  request_review-decision_id _ d codes l = refl

  assess_ledger-decision_id :
      (d : String) (fs : List Finding)
      → (assess_ledger sha256_json now document evidence_document d fs).decision_id ≡ d
  unfolding assess_ledger append new_ledger
  assess_ledger-decision_id d fs =
      request_review-decision_id _ d _ _ ∙ record_findings-decision_id _ fs

  assess_ledger-types :
      (d : String) (fs : List Finding)
      → types_of (assess_ledger sha256_json now document evidence_document d fs)
        ≡ "decision.received" ∷ "evidence.validated" ∷ created_types fs
          ++ "governance.decided" ∷ review_types (govern fs)
  unfolding assess_ledger
  assess_ledger-types d fs =
      simp
        (request_review-types, append-types, record_findings-types, new_ledger-types, append_assoc)

  -- The ledger of every assessment is a chain: its first event names no predecessor, each further one
  -- the hash of the event before it, and event k has the number k. It holds the receipt, the
  -- validation, one event for each finding, the decision and, just for REVIEW, the request of a
  -- review, in this order.
  pub assess_trail :
      (engine_version : String) (r : Request)
      → let result = assess sha256_json now document evidence_document engine_version r in
        IsLinked sha256_json none result.audit_events
        × IsNumbered sha256_json r.decision_id 0 result.audit_events
        × (map (λ e. e.event_type) result.audit_events
            ≡ "decision.received" ∷ "evidence.validated" ∷ created_types result.findings
              ++ "governance.decided" ∷ review_types result.outcome)
  unfolding assess
  assess_trail engine_version r =
      let fs = validate r in
      let sound = assess_ledger-IsSound r.decision_id fs in
      (
        sound.linked,
        subst
            (λ d.
              IsNumbered sha256_json d 0
                (assess_ledger sha256_json now document evidence_document r.decision_id fs).events)
            (assess_ledger-decision_id r.decision_id fs) sound.numbered,
        assess_ledger-types r.decision_id fs,
      )
