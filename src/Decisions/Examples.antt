-- ===== src/Decisions/Examples.antt =====
-- A case from its draft to its approval, and the theorems on decision files at this case.
use decision_assurance.Prelude.{
  ℕ, String, ◌≡◌, refl, Bool, true, false, none, some, [], ◌∷◌, All, ok, ◌≢◌,
}
use decision_assurance.Prelude.Json.{Json, null}
use decision_assurance.Decisions.Document.{
  Actor, Approval, CanonicalAction, CaseEvent, draft, validation, review, approved, Document,
  bind_approval, bind_canonical_action,
}
use decision_assurance.Decisions.Semantics.{validate_semantics}
use decision_assurance.Decisions.Evaluation.{evaluate, evaluated, assessment}
use decision_assurance.Decisions.Transitions.{moved, transition}
use decision_assurance.Decisions.Approval.{IsApprovable}
use decision_assurance.Decisions.History.{
  IsCaseChain, IsSettled, Steps-IsCaseChain, Steps-IsSettled,
}
use decision_assurance.Decisions.Bindings.{IsBound, validate_semantics-IsBound}
use mathlib.Core.List.{Mem}
use decision_assurance.Decisions.Workflow.{
  IsSeparated, Steps, here, then_step, by_transition, by_evaluation, is_independent_validation,
  transition_to_approved, approved_by_three,
}

abbrev pub digest_of : Json → String
digest_of j = "digest"

abbrev pub accepts : Document → Bool
accepts d = true

abbrev pub text_of : ℕ → String
text_of n = "2026-01-01T00:00:00Z"

abbrev clock : ℕ → ℕ
clock n = 10

abbrev alice : Actor
alice = record { id = "alice"; role = "GENERATOR"; kind = "HUMAN" }

abbrev bob : Actor
bob = record { id = "bob"; role = "VALIDATOR"; kind = "HUMAN" }

abbrev carol : Actor
carol = record { id = "carol"; role = "APPROVER"; kind = "HUMAN" }

abbrev pub drafted : Document
drafted = record {
  schema_version = "0.2.0";
  decision_id = "case-1";
  status = draft;
  created_at = 1;
  updated_at = 2;
  created_by = alice;
  requested_by = alice;
  current_owner = alice;
  canonical_action = none;
  claims =
      record { id = "c1"; statement = "The vendor is insured."; mandatory_evidence = true } ∷ [];
  evidence =
      record {
        id = "e1";
        claim_refs = "c1" ∷ [];
        source_ref = "register:7";
        status = "VERIFIED";
        content_hash = none;
      }
      ∷ [];
  constraints =
      record { id = "k1"; severity = "MANDATORY"; satisfied = true; reason_code = none } ∷ [];
  policies = record { id = "p1"; version = "1"; requires_review = false } ∷ [];
  risks = [];
  conflicts = [];
  validation_results = [];
  review_requirements = [];
  approvals = [];
  decision_outcome = none;
  outcome_reasons = [];
  audit_events = [];
}

abbrev validating : Document
validating = moved digest_of accepts text_of 3 drafted validation bob

abbrev assessed : Document
assessed =
    evaluated digest_of accepts text_of clock null null validating
      (assessment digest_of accepts text_of clock null null validating)

abbrev reviewing : Document
reviewing = moved digest_of accepts text_of 5 assessed review bob

abbrev released : Document
released = moved digest_of accepts text_of 6 reviewing approved carol

to_validation : transition digest_of accepts text_of 3 drafted validation bob ≡ ok validating
unfolding transition
to_validation = refl

to_assessed :
    evaluate digest_of accepts text_of clock null null validating
    ≡ ok (assessed, assessment digest_of accepts text_of clock null null validating)
unfolding evaluate moved
to_assessed = refl

to_review : transition digest_of accepts text_of 5 assessed review bob ≡ ok reviewing
unfolding transition evaluate
to_review = refl

to_approved : transition digest_of accepts text_of 6 reviewing approved carol ≡ ok released
unfolding transition evaluate
to_approved = refl

life : Steps digest_of accepts drafted released
life =
    then_step
      (then_step
        (then_step (then_step here (by_transition text_of 3 validation bob to_validation)) (
          by_evaluation text_of clock null null
            (assessment digest_of accepts text_of clock null null validating) to_assessed))
        (by_transition text_of 5 review bob to_review))
      (by_transition text_of 6 approved carol to_approved)

is_released : released.status ≡ approved
unfolding moved
is_released = refl

approved_by_three_example :
    IsSeparated released
    × ((e : CaseEvent) × Mem e released.audit_events
        × (is_independent_validation released.created_by.id e ≡ true)
        × (e.actor.id ≢ released.current_owner.id))
approved_by_three_example =
    approved_by_three digest_of accepts drafted released (record { status = refl }) life is_released

transition_to_approved_example :
    IsApprovable reviewing carol × (released.status ≡ approved) × (released.current_owner ≡ carol)
transition_to_approved_example =
    transition_to_approved digest_of accepts text_of 6 reviewing released carol to_approved

-- a case under review with a canonical action and an approval that is bound to both
abbrev sent_message : CanonicalAction
sent_message =
    bind_canonical_action digest_of
      (record { canonical_digest = ""; reversibility_class = "REVERSIBLE"; content = null })

abbrev requested : Document
requested = record drafted {
  status = review;
  canonical_action = some sent_message;
  review_requirements =
      record { id = "r1"; mandatory = true; satisfied = true; required_role = "APPROVER" } ∷ [];
}

abbrev consented : Approval
consented = bind_approval digest_of requested (record {
  requirement_ref = "r1";
  approver = carol;
  decision = "APPROVE";
  decided_at = "2026-01-01T00:00:00Z";
  action_digest = some sent_message.canonical_digest;
  nonce = "n1";
  approval_digest = "";
})

abbrev consented_case : Document
consented_case = record requested { approvals = consented ∷ [] }

is_valid : validate_semantics digest_of consented_case ≡ ok tt
unfolding validate_semantics bind_canonical_action bind_approval
is_valid = refl

validate_semantics-IsBound_example : All (IsBound digest_of consented_case) (consented ∷ [])
validate_semantics-IsBound_example = validate_semantics-IsBound digest_of consented_case is_valid

Steps-IsCaseChain_example : IsCaseChain digest_of accepts released
Steps-IsCaseChain_example = Steps-IsCaseChain digest_of accepts life tt

reassessed_life : Steps digest_of accepts released (
    evaluated digest_of accepts text_of clock null null released
      (assessment digest_of accepts text_of clock null null released))
unfolding evaluate moved evaluated
reassessed_life = then_step here (
    by_evaluation text_of clock null null
      (assessment digest_of accepts text_of clock null null released) refl)

Steps-IsSettled_example : IsSettled released (
    evaluated digest_of accepts text_of clock null null released
      (assessment digest_of accepts text_of clock null null released))
unfolding moved
Steps-IsSettled_example = Steps-IsSettled digest_of accepts reassessed_life refl
