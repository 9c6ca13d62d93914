-- ===== src/Decisions/History.antt =====
-- The events of a case over its life (transitions.py, decision_file.py), and its end.
use decision_assurance.Prelude.{
  String, ◌≡◌, refl, sym, ap, ◌∙◌, Bool, true, false, none, arith, is_empty, IsChain,
  IsChain-append,
}
use mathlib.Core.Path.{subst}
use decision_assurance.Prelude.Json.{Json}
use decision_assurance.Governance.Audit.{payload_hash}
use decision_assurance.Decisions.Document.{
  Actor, CaseEvent, CaseStatus, draft, validation, review, approved, blocked, Document,
  case_event_json, previous_case_hash,
}
use decision_assurance.Decisions.Evaluation.{evaluated}
use decision_assurance.Decisions.Transitions.{
  required_role, rejection_reasons, moved, transition_event,
}
use decision_assurance.Decisions.Workflow.{
  Step, Steps, by_transition, by_evaluation, here, then_step, transition-ok, evaluate-ok,
}

abbrev pub is_final : CaseStatus → Bool
is_final approved = true
is_final blocked = true
is_final _ = false

-- no transition leads out of APPROVED or BLOCKED
final_source :
    (d : Document) (s target : CaseStatus) (actor : Actor)
    → is_empty (rejection_reasons d s target actor) ≡ true
    → is_final s ≡ false
unfolding rejection_reasons required_role
final_source d draft target actor h = refl
final_source d validation target actor h = refl
final_source d review target actor h = refl
final_source d approved target actor h = ground arith
final_source d blocked target actor h = ground arith

-- what the end of a case keeps
pub record IsSettled (d d' : Document) : Type 0 where
  pub status : d'.status ≡ d.status
  pub owner : d'.current_owner ≡ d.current_owner
  pub approvals : d'.approvals ≡ d.approvals

module _ (sha256_json : Json → String) (contract_ok : Document → Bool) where
  abbrev pub event_hash : CaseEvent → String
  event_hash e = payload_hash sha256_json (case_event_json e)

  abbrev pub IsCaseChain : Document → Type 0
  IsCaseChain d = IsChain (λ e. e.previous_event_hash) event_hash none d.audit_events

  Step-IsCaseChain :
      {d d' : Document} → Step sha256_json contract_ok d d' → IsCaseChain d → IsCaseChain d'
  unfolding moved transition_event evaluated previous_case_hash
  Step-IsCaseChain {d} {d'} (by_transition text_of now target actor h) c =
      let (_, _, e) = transition-ok sha256_json contract_ok text_of now d d' target actor h in
      subst IsCaseChain (sym e)
        (IsChain-append (λ e. e.previous_event_hash) event_hash d.audit_events _ c refl)
  Step-IsCaseChain {d} {d'} (by_evaluation text_of clock request evidence r h) c =
      let (_, e) = evaluate-ok sha256_json contract_ok text_of clock request evidence d d' r h in
      subst IsCaseChain (sym e)
        (IsChain-append (λ e. e.previous_event_hash) event_hash d.audit_events _ c refl)

  -- The events of a case stay a chain of hashes over its whole life: if its first event names no
  -- predecessor and each further one the hash of the event before it, this is so after any transitions
  -- and evaluations.
  pub Steps-IsCaseChain :
      {d d' : Document} → Steps sha256_json contract_ok d d' → IsCaseChain d → IsCaseChain d'
  Steps-IsCaseChain here c = c
  Steps-IsCaseChain (then_step s t) c = Step-IsCaseChain t (Steps-IsCaseChain s c)

  Step-IsSettled :
      {d d' : Document}
      → Step sha256_json contract_ok d d'
      → is_final d.status ≡ true
      → IsSettled d d'
  unfolding evaluated
  Step-IsSettled {d} {d'} (by_transition text_of now target actor h) f =
      let (_, accepted, e) =
        transition-ok sha256_json contract_ok text_of now d d' target actor h in
      ground (arith, f, final_source d d.status target actor accepted)
  Step-IsSettled {d} {d'} (by_evaluation text_of clock request evidence r h) f =
      let (_, e) = evaluate-ok sha256_json contract_ok text_of clock request evidence d d' r h in
      subst (IsSettled d) (sym e) (record { status = refl; owner = refl; approvals = refl })

  -- APPROVED and BLOCKED are the end of a case: whatever transitions and evaluations are tried on it
  -- from there, its status, its owner and its approvals stay.
  pub Steps-IsSettled :
      {d d' : Document}
      → Steps sha256_json contract_ok d d'
      → is_final d.status ≡ true
      → IsSettled d d'
  Steps-IsSettled here f = record { status = refl; owner = refl; approvals = refl }
  Steps-IsSettled (then_step s t) f =
      let a = Steps-IsSettled s f in
      let b = Step-IsSettled t (ap is_final a.status ∙ f) in
      record {
        status = b.status ∙ a.status;
        owner = b.owner ∙ a.owner;
        approvals = b.approvals ∙ a.approvals;
      }
