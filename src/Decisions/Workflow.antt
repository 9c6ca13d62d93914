-- ===== src/Decisions/Workflow.antt =====
-- The life of a case: what holds after any sequence of transitions (transitions.py) and evaluations
-- (decision_engine.py).
use decision_assurance.Prelude.{
  ℕ, String, ◌≡◌, ◌≢◌, refl, sym, ap, ◌∙◌, Bool, true, false, not, ◌&&◌, List, [], ◌∷◌, arith, ◌==◌,
  eq_iff, eq_refl, any, any-append, All, is_empty, Result, ok, err, Bool-cases, inl, inr,
  if◌then◌else◌,
}
use mathlib.Core.Path.{subst}
use mathlib.Core.List.{Mem, mem-cons_self, mem-cons_of_mem}
use decision_assurance.Prelude.Json.{Json}
use decision_assurance.Decisions.Document.{
  Actor, CaseEvent, CaseStatus, draft, validation, review, approved, blocked, ConflictItem,
  ConstraintItem, Document,
}
use decision_assurance.Decisions.Semantics.{validate_semantics}
use decision_assurance.Decisions.Evaluation.{EvaluationError, evaluate, evaluated, assessment}
use decision_assurance.Decisions.Transitions.{
  generator_validator_not_separate, actor_role_not_authorized, required_role, reason_if,
  target_reasons, Reason, TransitionError, rejection_reasons, has_validated, is_to_validation,
  transition, moved, rejected,
}
use decision_assurance.Decisions.Evaluation
use decision_assurance.Decisions.Transitions
use decision_assurance.Decisions.Approval.{
  no_reason_left, is_empty-reason_if, IsMet, IsApprovable, approvable,
}
use decision_assurance.Governance.Engine.{AssessmentResult}

-- someone in the role VALIDATOR other than the creator has moved the case to VALIDATION
abbrev pub is_independent_validation : String → CaseEvent → Bool
is_independent_validation creator e =
    is_to_validation e
    && e.event_type == "status.transitioned"
    && e.actor.role == "VALIDATOR"
    && not (e.actor.id == creator)

abbrev pub is_validated : Document → Bool
is_validated d = any (is_independent_validation d.created_by.id) d.audit_events

-- Three persons have dealt with an approved case, and its conditions are met.
pub record IsSeparated (d : Document) : Type 0 where
  pub role : d.current_owner.role ≡ "APPROVER"
  pub human : d.current_owner.kind ≡ "HUMAN"
  pub not_creator : d.current_owner.id ≢ d.created_by.id
  pub not_validator : has_validated d.current_owner.id d.audit_events ≡ false
  pub constraints :
      All (λ (c : ConstraintItem). c.severity ≡ "MANDATORY" → c.satisfied ≡ true) d.constraints
  pub conflicts :
      All (λ (c : ConflictItem). c.severity ≡ "CRITICAL" → c.resolved ≡ true) d.conflicts
  pub requirements : All (IsMet d.current_owner d.approvals) d.review_requirements

abbrev pub is_past_draft : CaseStatus → Bool
is_past_draft validation = true
is_past_draft review = true
is_past_draft approved = true
is_past_draft _ = false

pub record IsControlled (d : Document) : Type 0 where
  pub validated : is_past_draft d.status ≡ true → is_validated d ≡ true
  pub separated : d.status ≡ approved → IsSeparated d

-- the tests that `transition` and `evaluate` make before they return a document
abbrev gate :
    {E P A : Type 0} → E → (P → E) → E → Bool → Result P (Unit {0}) → Bool → Bool → A → Result E A
gate invalid f refused c v r c' a = if not c then err invalid else elim v [
  | err errors ↦ err (f errors)
  | ok _ ↦ if not r then err refused else if c' then ok a else err invalid
]

gate_lem :
    {E P A : Type 0} (invalid : E) (f : P → E) (refused : E) (c : Bool) (v : Result P (Unit {0}))
    (r c' : Bool) (a : A) {b : A}
    → gate invalid f refused c v r c' a ≡ ok b
    → (v ≡ ok tt) × (r ≡ true) × (b ≡ a)
gate_lem invalid f refused false v r c' a h = ground arith
gate_lem invalid f refused true (err e) r c' a h = ground arith
gate_lem invalid f refused true (ok tt) false c' a h = ground arith
gate_lem invalid f refused true (ok tt) true false a h = ground arith
gate_lem invalid f refused true (ok tt) true true a h = (refl, refl, cc)

-- only a validator other than the creator moves a case to VALIDATION, and only from DRAFT
validation_source :
    (d : Document) (s : CaseStatus) (actor : Actor)
    → is_empty (rejection_reasons d s validation actor) ≡ true
    → (actor.role ≡ "VALIDATOR") × ((actor.id == d.created_by.id) ≡ false)
unfolding required_role target_reasons rejection_reasons
validation_source d draft actor h =
    let (role, rest) =
      no_reason_left (not (actor.role == "VALIDATOR")) actor_role_not_authorized
        (target_reasons d validation actor) h in
    (
      (eq_iff actor.role "VALIDATOR").0 (ground (arith, role)),
      ground (
        arith,
        sym (is_empty-reason_if (actor.id == d.created_by.id) generator_validator_not_separate)
            ∙ rest,
      ),
    )
validation_source d validation actor h = ground arith
validation_source d review actor h = ground arith
validation_source d approved actor h = ground arith
validation_source d blocked actor h = ground arith

-- only VALIDATION leads to REVIEW
review_source :
    (d : Document) (s : CaseStatus) (actor : Actor)
    → is_empty (rejection_reasons d s review actor) ≡ true
    → s ≡ validation
unfolding required_role rejection_reasons
review_source d draft actor h = ground arith
review_source d validation actor h = refl
review_source d review actor h = ground arith
review_source d approved actor h = ground arith
review_source d blocked actor h = ground arith

module _ (sha256_json : Json → String) (contract_ok : Document → Bool) where
  pub transition-ok :
      (text_of : ℕ → String) (now : ℕ) (d d' : Document) (target : CaseStatus) (actor : Actor)
      → transition sha256_json contract_ok text_of now d target actor ≡ ok d'
      → (validate_semantics sha256_json d ≡ ok tt)
        × (is_empty (rejection_reasons d d.status target actor) ≡ true)
        × (d' ≡ moved sha256_json contract_ok text_of now d target actor)
  unfolding transition
  transition-ok text_of now d d' target actor h =
      gate_lem Transitions.contract_invalid Transitions.semantic_errors (rejected _) (contract_ok d)
        (validate_semantics sha256_json d) (is_empty (rejection_reasons d d.status target actor)) _
        _ h

  -- The transition to APPROVED succeeds only for a case in REVIEW whose outcome is PASS, by a human
  -- approver who is neither its creator nor one of its validators, with no open mandatory constraint,
  -- critical conflict or mandatory review, and with a human approval for each mandatory requirement;
  -- the result is then in the status APPROVED and owned by this approver.
  pub transition_to_approved :
      (text_of : ℕ → String) (now : ℕ) (d d' : Document) (actor : Actor)
      → transition sha256_json contract_ok text_of now d approved actor ≡ ok d'
      → IsApprovable d actor × (d'.status ≡ approved) × (d'.current_owner ≡ actor)
  unfolding moved
  transition_to_approved text_of now d d' actor h =
      let (_, accepted, e) = transition-ok text_of now d d' approved actor h in
      (approvable d actor accepted, ap (λ x. x.status) e, ap (λ x. x.current_owner) e)

  pub evaluate-ok :
      (text_of : ℕ → String) (clock : ℕ → ℕ) (request evidence : Json) (d d' : Document)
      (r : AssessmentResult)
      → evaluate sha256_json contract_ok text_of clock request evidence d ≡ ok (d', r)
      → (validate_semantics sha256_json d ≡ ok tt)
        × (d' ≡ evaluated sha256_json contract_ok text_of clock request evidence d r)
  unfolding evaluate
  evaluate-ok text_of clock request evidence d d' r h =
      let result = assessment sha256_json contract_ok text_of clock request evidence d in
      let (v, _, e) =
        gate_lem Evaluation.contract_invalid Evaluation.semantic_errors Evaluation.contract_invalid
          (contract_ok d) (validate_semantics sha256_json d) true
          (contract_ok (evaluated sha256_json contract_ok text_of clock request evidence d result))
          (evaluated sha256_json contract_ok text_of clock request evidence d result, result) h in
      (
        v,
        ap (λ p. p.0) e
            ∙ sym (
                ap (evaluated sha256_json contract_ok text_of clock request evidence d)
                  (ap (λ p. p.1) e)),
      )

  -- One step of a case's life.
  pub data Step : Document → Document → Type 0 where
    by_transition :
        {d d' : Document} (text_of : ℕ → String) (now : ℕ) (target : CaseStatus) (actor : Actor)
        → transition sha256_json contract_ok text_of now d target actor ≡ ok d'
        → Step d d'
    by_evaluation :
        {d d' : Document} (text_of : ℕ → String) (clock : ℕ → ℕ) (request evidence : Json)
        (r : AssessmentResult)
        → evaluate sha256_json contract_ok text_of clock request evidence d ≡ ok (d', r)
        → Step d d'

  pub data Steps : Document → Document → Type 0 where
    here : {d : Document} → Steps d d
    then_step : {d e f : Document} → Steps d e → Step e f → Steps d f

  moved-IsControlled :
      (text_of : ℕ → String) (now : ℕ) (d : Document) (target : CaseStatus) (actor : Actor)
      → is_empty (rejection_reasons d d.status target actor) ≡ true
      → IsControlled d
      → IsControlled (moved sha256_json contract_ok text_of now d target actor)
  unfolding moved
  moved-IsControlled text_of now d draft actor h inv = record {
    validated = λ e. ground arith;
    separated = λ e. ground arith;
  }
  moved-IsControlled text_of now d blocked actor h inv = record {
    validated = λ e. ground arith;
    separated = λ e. ground arith;
  }
  moved-IsControlled text_of now d validation actor h inv = record {
    validated = λ e.
        let (role, other) = validation_source d d.status actor h in
        simp (any-append, role, other) (ground arith);
    separated = λ e. ground arith;
  }
  moved-IsControlled text_of now d review actor h inv = record {
    validated = λ e. simp (any-append, inv.validated (rw (review_source d d.status actor h) refl));
    separated = λ e. ground arith;
  }
  moved-IsControlled text_of now d approved actor h inv =
      let a = approvable d actor h in
      record {
        validated = λ e. simp (any-append, inv.validated (rw a.in_review refl));
        separated = λ e. record {
          role = a.role;
          human = a.human;
          not_creator = a.not_creator;
          not_validator = simp (any-append, a.not_validator);
          constraints = a.constraints;
          conflicts = a.conflicts;
          requirements = a.requirements;
        };
      }

  evaluated-IsControlled :
      (text_of : ℕ → String) (clock : ℕ → ℕ) (request evidence : Json) (d : Document)
      (r : AssessmentResult)
      → IsControlled d
      → IsControlled (evaluated sha256_json contract_ok text_of clock request evidence d r)
  unfolding evaluated
  evaluated-IsControlled text_of clock request evidence d r inv = record {
    validated = λ e. simp (any-append, inv.validated e);
    separated = λ e.
        let s = inv.separated e in
        record {
          role = s.role;
          human = s.human;
          not_creator = s.not_creator;
          not_validator = simp (any-append, s.not_validator, e);
          constraints = s.constraints;
          conflicts = s.conflicts;
          requirements = s.requirements;
        };
  }

  pub Step-IsControlled : {d d' : Document} → Step d d' → IsControlled d → IsControlled d'
  Step-IsControlled {d} {d'} (by_transition text_of now target actor h) inv =
      let (_, accepted, e) = transition-ok text_of now d d' target actor h in
      subst IsControlled (sym e) (moved-IsControlled text_of now d target actor accepted inv)
  Step-IsControlled {d} {d'} (by_evaluation text_of clock request evidence r h) inv =
      let (_, e) = evaluate-ok text_of clock request evidence d d' r h in
      subst IsControlled (sym e) (evaluated-IsControlled text_of clock request evidence d r inv)

  pub Steps-IsControlled : {d d' : Document} → Steps d d' → IsControlled d → IsControlled d'
  Steps-IsControlled here inv = inv
  Steps-IsControlled (then_step s t) inv = Step-IsControlled t (Steps-IsControlled s inv)

-- A new case.
pub record IsNew (d : Document) : Type 0 where
  pub status : d.status ≡ draft

pub IsNew-IsControlled : (d : Document) → IsNew d → IsControlled d
IsNew-IsControlled d n = record {
  validated = λ e. ground (arith, n.status);
  separated = λ e. ground (arith, n.status);
}

find_validator :
    (creator : String) (events : List CaseEvent)
    → any (is_independent_validation creator) events ≡ true
    → (e : CaseEvent) × Mem e events
      × (is_independent_validation creator e ≡ true)
      × (has_validated e.actor.id events ≡ true)
find_validator creator [] h = ground arith
find_validator creator (e ∷ es) h = elim (Bool-cases (is_independent_validation creator e)) [
  | inl y ↦ (e, mem-cons_self, y, ground (arith, y, eq_refl e.actor.id))
  | inr n ↦
      let (x, m, p, q) = find_validator creator es (ground (arith, n)) in
      (x, mem-cons_of_mem e m, p, ground (arith, q))
]

other_person :
    (d : Document)
    → IsSeparated d
    → (e : CaseEvent) → has_validated e.actor.id d.audit_events ≡ true
    → e.actor.id ≢ d.current_owner.id
other_person d s e h same = ground (arith, rw same at h, s.not_validator)

-- An approved case, however it has come there from a new one, belongs to a human approver who is not
-- its creator and has not validated it, its mandatory constraints and reviews are satisfied and its
-- critical conflicts resolved, and one of its events is the move to VALIDATION by a validator who is
-- neither of the two.
pub approved_by_three :
    (sha256_json : Json → String) (contract_ok : Document → Bool) (d d' : Document)
    → IsNew d
    → Steps sha256_json contract_ok d d'
    → d'.status ≡ approved
    → IsSeparated d'
      × ((e : CaseEvent) × Mem e d'.audit_events
          × (is_independent_validation d'.created_by.id e ≡ true)
          × (e.actor.id ≢ d'.current_owner.id))
approved_by_three sha256_json contract_ok d d' n steps h =
    let inv = Steps-IsControlled sha256_json contract_ok steps (IsNew-IsControlled d n) in
    let s = inv.separated h in
    let (e, m, p, q) =
      find_validator d'.created_by.id d'.audit_events (inv.validated (rw h refl)) in
    (s, (e, m, p, other_person d' s e q))
