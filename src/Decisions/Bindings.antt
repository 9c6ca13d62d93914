-- ===== src/Decisions/Bindings.antt =====
-- What the semantic validation of decision_file.py guarantees for the approvals of a document.
use decision_assurance.Prelude.{
  String, ◌≡◌, ◌≢◌, refl, sym, ◌∙◌, Bool, true, false, not, ◌&&◌, ◌||◌, Option, none, some,
  some_inj, List, [], ◌∷◌, ◌++◌, arith, ◌==◌, eq_iff, option_eq, option_eq-≡, All, is_empty,
  is_empty-append, ok, Bool-cases, inl, inr,
}
use decision_assurance.Prelude.Json.{Json}
use decision_assurance.Decisions.Document.{Actor, Approval, Document, Requirement, approval_digest}
use decision_assurance.Decisions.Semantics.{
  Problem, problem_if, problems, approval_problems, all_approval_problems, validate_semantics,
  requirement_for, has_other_role, expected_action_digest,
}

module _ (sha256_json : Json → String) where
  -- The approval is a human's who neither created nor requested the case, in the role that its
  -- requirement asks for, and its digests bind it to the case and to the action.
  pub record IsBound (d : Document) (a : Approval) : Type 0 where
    pub human : a.approver.kind ≡ "HUMAN"
    pub not_creator : a.approver.id ≢ d.created_by.id
    pub not_requester : a.approver.id ≢ d.requested_by.id
    pub role :
        (r : Requirement)
        → requirement_for a.requirement_ref d.review_requirements ≡ some r
        → a.approver.role ≡ r.required_role
    pub action : a.action_digest ≡ expected_action_digest sha256_json d
    pub digest : a.approval_digest ≡ approval_digest sha256_json d a

is_empty-problem_if : (b : Bool) (p : Problem) → is_empty (problem_if b p) ≡ not b
is_empty-problem_if b p = ground arith

abbrev none_of_five : Bool → Bool → Bool → Bool → Bool → Bool
none_of_five a b c e f = not a && not (not b) && not c && not (not e) && not (not f)

all_five :
    (a b c e f : Bool)
    → none_of_five a b c e f ≡ true
    → (a ≡ false) × (b ≡ true) × (c ≡ false) × (e ≡ true) × (f ≡ true)
all_five a b c e f h = ground arith

both_empty :
    {A : Type 0} (xs ys : List A)
    → is_empty (xs ++ ys) ≡ true
    → (is_empty xs ≡ true) × (is_empty ys ≡ true)
both_empty [] ys h = (refl, h)
both_empty (x ∷ xs) ys h = ground arith

module _ (sha256_json : Json → String) where
  same_role :
      (o : Option Requirement) (actor : Actor) (r : Requirement)
      → has_other_role sha256_json o actor ≡ false
      → o ≡ some r
      → actor.role ≡ r.required_role
  same_role none actor r h e = ground arith
  same_role (some q) actor r h e =
      rw (sym (some_inj q r e)) ((eq_iff actor.role q.required_role).0 (ground arith))

  abbrev approval_tests : Document → Approval → Bool
  approval_tests d a =
      none_of_five
        (has_other_role sha256_json (requirement_for a.requirement_ref d.review_requirements)
          a.approver)
        (a.approver.kind == "HUMAN")
        (a.approver.id == d.created_by.id || a.approver.id == d.requested_by.id)
        (option_eq a.action_digest (expected_action_digest sha256_json d))
        (a.approval_digest == approval_digest sha256_json d a)

  is_empty-approval_problems :
      (d : Document) (a : Approval)
      → is_empty (approval_problems sha256_json d a) ≡ approval_tests d a
  unfolding approval_problems
  is_empty-approval_problems d a = simp (is_empty-append, is_empty-problem_if)

  bound :
      (d : Document) (a : Approval)
      → is_empty (approval_problems sha256_json d a) ≡ true
      → IsBound sha256_json d a
  bound d a h =
      let (role, human, independent, action, digest) =
        all_five
          (has_other_role sha256_json (requirement_for a.requirement_ref d.review_requirements)
            a.approver)
          (a.approver.kind == "HUMAN")
          (a.approver.id == d.created_by.id || a.approver.id == d.requested_by.id)
          (option_eq a.action_digest (expected_action_digest sha256_json d))
          (a.approval_digest == approval_digest sha256_json d a)
          (sym (is_empty-approval_problems d a) ∙ h) in
      record {
        human = (eq_iff a.approver.kind "HUMAN").0 human;
        not_creator = λ e. ground (arith, independent, eq_iff a.approver.id d.created_by.id);
        not_requester = λ e. ground (arith, independent, eq_iff a.approver.id d.requested_by.id);
        role = λ r e. same_role _ a.approver r role e;
        action = option_eq-≡ _ _ action;
        digest = (eq_iff a.approval_digest (approval_digest sha256_json d a)).0 digest;
      }

  All-IsBound :
      (d : Document) (approvals : List Approval)
      → is_empty (all_approval_problems sha256_json d approvals) ≡ true
      → All (IsBound sha256_json d) approvals
  unfolding all_approval_problems
  All-IsBound d [] h = tt
  All-IsBound d (a ∷ rest) h =
      let (here, there) =
        both_empty (approval_problems sha256_json d a) (all_approval_problems sha256_json d rest)
          h in
      (bound d a here, All-IsBound d rest there)

  no_problems :
      (d : Document)
      → validate_semantics sha256_json d ≡ ok tt
      → is_empty (problems sha256_json d) ≡ true
  unfolding validate_semantics
  no_problems d h = elim (Bool-cases (is_empty (problems sha256_json d))) [
    | inl e ↦ e
    | inr e ↦ ground (arith, e)
  ]

  approvals_part :
      (d : Document)
      → is_empty (problems sha256_json d) ≡ true
      → is_empty (all_approval_problems sha256_json d d.approvals) ≡ true
  unfolding problems
  approvals_part d h = ground (arith, simp (is_empty-append) at h)

  -- In a document that passes the semantic validation, every approval is a human's who neither created
  -- nor requested the case, has the role that its requirement asks for, and carries the digests of
  -- this case and of its action.
  pub validate_semantics-IsBound :
      (d : Document)
      → validate_semantics sha256_json d ≡ ok tt
      → All (IsBound sha256_json d) d.approvals
  validate_semantics-IsBound d h = All-IsBound d d.approvals (approvals_part d (no_problems d h))
