-- ===== src/Decisions/Approval.antt =====
-- What it takes to approve a case.
use decision_assurance.Prelude.{
  String, ◌≡◌, ◌≢◌, refl, ap, Bool, true, false, not, ◌&&◌, Option, none, some, List, [], ◌∷◌, ◌++◌,
  arith, ◌==◌, eq_iff, option_eq, any, All, is_empty, is_empty-append, is_empty-keep,
}
use decision_assurance.Decisions.Document.{
  Actor, Approval, CaseStatus, draft, validation, review, approved, blocked, ConflictItem,
  ConstraintItem, Document, Requirement,
}
use decision_assurance.Decisions.Transitions.{
  Reason, actor_role_not_authorized, reason_if, required_role, rejection_reasons, target_reasons,
  approval_reasons, missing_approvals, counts_for, has_outcome, has_validated, is_open_constraint,
  is_open_conflict, is_open_requirement,
}

-- A mandatory requirement is satisfied, and some approval counts for it.
abbrev pub IsMet : Actor → List Approval → Requirement → Type 0
IsMet actor approvals r =
    r.mandatory ≡ true → (r.satisfied ≡ true) × (any (counts_for actor r) approvals ≡ true)

-- The case may be approved by the actor.
pub record IsApprovable (d : Document) (actor : Actor) : Type 0 where
  pub in_review : d.status ≡ review
  pub role : actor.role ≡ "APPROVER"
  pub human : actor.kind ≡ "HUMAN"
  pub not_creator : actor.id ≢ d.created_by.id
  pub not_validator : has_validated actor.id d.audit_events ≡ false
  pub passed : d.decision_outcome ≡ some "PASS"
  pub constraints :
      All (λ (c : ConstraintItem). c.severity ≡ "MANDATORY" → c.satisfied ≡ true) d.constraints
  pub conflicts :
      All (λ (c : ConflictItem). c.severity ≡ "CRITICAL" → c.resolved ≡ true) d.conflicts
  pub requirements : All (IsMet actor d.approvals) d.review_requirements

pub is_empty-reason_if : (b : Bool) (r : Reason) → is_empty (reason_if b r) ≡ not b
is_empty-reason_if b r = ground arith

abbrev unmet : Actor → List Approval → List Requirement → Bool
unmet actor approvals =
    any (λ (r : Requirement). r.mandatory && not (any (counts_for actor r) approvals))

missing_approvals_lem :
    (actor : Actor) (approvals : List Approval) (rs : List Requirement)
    → is_empty (missing_approvals actor approvals rs) ≡ not (unmet actor approvals rs)
unfolding missing_approvals
missing_approvals_lem actor approvals [] = refl
missing_approvals_lem actor approvals (r ∷ rs) =
    simp
      (is_empty-append, is_empty-reason_if, is_empty-keep, missing_approvals_lem actor approvals rs)
      (ground arith)

-- no branch of `approval_reasons` has been taken
pub record NoReasons (d : Document) (actor : Actor) : Type 0 where
  pub human : (actor.kind == "HUMAN") ≡ true
  pub creator : (actor.id == d.created_by.id) ≡ false
  pub validator : has_validated actor.id d.audit_events ≡ false
  pub passed : has_outcome d "PASS" ≡ true
  pub constraints : any is_open_constraint d.constraints ≡ false
  pub conflicts : any is_open_conflict d.conflicts ≡ false
  pub requirements : any is_open_requirement d.review_requirements ≡ false
  pub approvals : unmet actor d.approvals d.review_requirements ≡ false

abbrev none_of : Bool → Bool → Bool → Bool → Bool → Bool → Bool → Bool → Bool
none_of a b c e f g h k =
    not (not a) && not b && not c && not (not e) && not f && not g && not h && not k

-- the tests that the eight parts of `approval_reasons` make
abbrev no_part : Document → Actor → Bool
no_part d actor =
    none_of (actor.kind == "HUMAN") (actor.id == d.created_by.id)
      (has_validated actor.id d.audit_events) (has_outcome d "PASS")
      (any is_open_constraint d.constraints) (any is_open_conflict d.conflicts)
      (any is_open_requirement d.review_requirements)
      (unmet actor d.approvals d.review_requirements)

is_empty-approval_reasons :
    (d : Document) (actor : Actor) → is_empty (approval_reasons d actor) ≡ no_part d actor
unfolding approval_reasons
is_empty-approval_reasons d actor =
    simp (is_empty-append, is_empty-reason_if, missing_approvals_lem)

all_eight :
    (a b c e f g h k : Bool)
    → none_of a b c e f g h k ≡ true
    → (a ≡ true)
      × (b ≡ false)
      × (c ≡ false)
      × (e ≡ true)
      × (f ≡ false)
      × (g ≡ false)
      × (h ≡ false)
      × (k ≡ false)
all_eight a b c e f g h k p = ground arith

no_reasons :
    (d : Document) (actor : Actor) → is_empty (approval_reasons d actor) ≡ true → NoReasons d actor
no_reasons d actor h =
    let parts =
      all_eight (actor.kind == "HUMAN") (actor.id == d.created_by.id)
        (has_validated actor.id d.audit_events) (has_outcome d "PASS")
        (any is_open_constraint d.constraints) (any is_open_conflict d.conflicts)
        (any is_open_requirement d.review_requirements)
        (unmet actor d.approvals d.review_requirements)
        (rw (is_empty-approval_reasons d actor) at h) in
    record {
      human = parts.0;
      creator = parts.1;
      validator = parts.2;
      passed = parts.3;
      constraints = parts.4;
      conflicts = parts.5;
      requirements = parts.6;
      approvals = parts.7;
    }

closed_constraints :
    (cs : List ConstraintItem)
    → any is_open_constraint cs ≡ false
    → All (λ (c : ConstraintItem). c.severity ≡ "MANDATORY" → c.satisfied ≡ true) cs
closed_constraints [] h = tt
closed_constraints (c ∷ cs) h =
    (λ e. ground (arith, eq_iff c.severity "MANDATORY"), closed_constraints cs (ground arith))

closed_conflicts :
    (cs : List ConflictItem)
    → any is_open_conflict cs ≡ false
    → All (λ (c : ConflictItem). c.severity ≡ "CRITICAL" → c.resolved ≡ true) cs
closed_conflicts [] h = tt
closed_conflicts (c ∷ cs) h =
    (λ e. ground (arith, eq_iff c.severity "CRITICAL"), closed_conflicts cs (ground arith))

All-IsMet :
    (actor : Actor) (approvals : List Approval) (rs : List Requirement)
    → any is_open_requirement rs ≡ false
    → unmet actor approvals rs ≡ false
    → All (IsMet actor approvals) rs
All-IsMet actor approvals [] h k = tt
All-IsMet actor approvals (r ∷ rs) h k =
    (λ e. (ground arith, ground arith), All-IsMet actor approvals rs (ground arith) (ground arith))

pub no_reason_left :
    (b : Bool) (r : Reason) (rs : List Reason)
    → is_empty (reason_if b r ++ rs) ≡ true
    → (b ≡ false) × (is_empty rs ≡ true)
no_reason_left true r rs h = ground arith
no_reason_left false r rs h = (refl, h)

-- only REVIEW leads to APPROVED
approval_source :
    (d : Document) (s : CaseStatus) (actor : Actor)
    → is_empty (rejection_reasons d s approved actor) ≡ true
    → (s ≡ review) × (actor.role ≡ "APPROVER") × (is_empty (approval_reasons d actor) ≡ true)
unfolding required_role target_reasons rejection_reasons
approval_source d draft actor h = ground arith
approval_source d validation actor h = ground arith
approval_source d approved actor h = ground arith
approval_source d blocked actor h = ground arith
approval_source d review actor h =
    let (role, rest) =
      no_reason_left (not (actor.role == "APPROVER")) actor_role_not_authorized
        (approval_reasons d actor) h in
    (refl, (eq_iff actor.role "APPROVER").0 (ground (arith, role)), rest)

outcome_passed : (o : Option String) → option_eq o (some "PASS") ≡ true → o ≡ some "PASS"
outcome_passed none h = ground arith
outcome_passed (some t) h = ap some ((eq_iff t "PASS").0 h)

pub approvable :
    (d : Document) (actor : Actor)
    → is_empty (rejection_reasons d d.status approved actor) ≡ true
    → IsApprovable d actor
approvable d actor h =
    let (source, role, none_given) = approval_source d d.status actor h in
    let n = no_reasons d actor none_given in
    record {
      in_review = source;
      role = role;
      human = (eq_iff actor.kind "HUMAN").0 n.human;
      not_creator = λ e. ground (arith, n.creator, eq_iff actor.id d.created_by.id);
      not_validator = n.validator;
      passed = outcome_passed d.decision_outcome n.passed;
      constraints = closed_constraints d.constraints n.constraints;
      conflicts = closed_conflicts d.conflicts n.conflicts;
      requirements = All-IsMet actor d.approvals d.review_requirements n.requirements n.approvals;
    }
