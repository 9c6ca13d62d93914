-- ===== src/Decisions/Semantics.antt =====
-- `validate_semantics` of decision_file.py: the rules that the schema cannot state. The errors are
-- listed in the order in which the code appends them.
use decision_assurance.Prelude.{
  String, Bool, true, false, not, ◌&&◌, ◌||◌, Option, none, some, List, [], ◌∷◌, ◌++◌, map, ltb,
  ◌==◌, option_eq, any, is_empty, mem, all_distinct, sorted_set, Result, ok, err, if◌then◌else◌,
}
use decision_assurance.Prelude.Json.{Json}
use decision_assurance.Decisions.Document.{
  Actor, Approval, CanonicalAction, CaseStatus, draft, validation, Claim, Document, EvidenceItem,
  Requirement, approval_digest, canonical_action_digest,
}

-- the messages, with what the code puts into their text
pub data Problem : Type 0 where
  updated_before_created duplicate_claims duplicate_evidence : Problem
  unknown_claims : List String → Problem
  unknown_requirements : List String → Problem
  action_digest_mismatch action_needs_approver : Problem
  reused_nonce approvals_before_review : Problem
  role_mismatch approver_not_human not_independent : String → Problem
  not_bound_to_action approval_digest_mismatch : String → Problem

abbrev pub problem_if : Bool → Problem → List Problem
problem_if true p = p ∷ []
problem_if false p = []

abbrev pub claim_ids : Document → List String
claim_ids d = map (λ (c : Claim). c.id) d.claims

abbrev pub evidence_ids : Document → List String
evidence_ids d = map (λ (e : EvidenceItem). e.id) d.evidence

-- the texts of a list that are not among others
unfoldable pub missing_from : List String → List String → List String
missing_from known [] = []
missing_from known (x ∷ xs) =
    let rest = missing_from known xs in if mem x known then rest else x ∷ rest

unfoldable pub unknown_claim_refs : List String → List EvidenceItem → List String
unfolding missing_from
unknown_claim_refs known [] = []
unknown_claim_refs known (e ∷ es) = missing_from known e.claim_refs ++ unknown_claim_refs known es

abbrev pub requirement_ids : Document → List String
requirement_ids d = map (λ (r : Requirement). r.id) d.review_requirements

-- `{item["id"]: item for …}.get(ref)`: of two requirements with one id the later one counts
unfoldable pub requirement_for : String → List Requirement → Option Requirement
requirement_for ref [] = none
requirement_for ref (r ∷ rs) = elim (requirement_for ref rs) [
  | some s ↦ some s
  | none ↦ if r.id == ref then some r else none
]

-- `document["status"] not in {"REVIEW", "APPROVED", "BLOCKED"}`
abbrev pub is_before_review : CaseStatus → Bool
is_before_review draft = true
is_before_review validation = true
is_before_review _ = false

abbrev pub unknown_list : List String → (List String → Problem) → List Problem
unknown_list [] p = []
unknown_list (x ∷ xs) p = p (x ∷ xs) ∷ []

abbrev pub requires_approver : Document → Bool
requires_approver d =
    any (λ (r : Requirement). r.mandatory && r.required_role == "APPROVER") d.review_requirements

module _ (sha256_json : Json → String) where
  unfoldable pub action_problems : Document → Option CanonicalAction → List Problem
  unfolding canonical_action_digest
  action_problems d none = []
  action_problems d (some action) =
      problem_if (not (action.canonical_digest == canonical_action_digest sha256_json action))
        action_digest_mismatch
      ++ problem_if (not (action.reversibility_class == "READ_ONLY") && not (requires_approver d))
          action_needs_approver

  abbrev pub expected_action_digest : Document → Option String
  expected_action_digest d = elim d.canonical_action [
    | none ↦ none
    | some action ↦ some action.canonical_digest
  ]

  abbrev pub has_other_role : Option Requirement → Actor → Bool
  has_other_role none approver = false
  has_other_role (some r) approver = not (approver.role == r.required_role)

  -- the round of the last loop for one approval
  unfoldable pub approval_problems : Document → Approval → List Problem
  unfolding requirement_for approval_digest
  approval_problems d item =
      problem_if
        (has_other_role (requirement_for item.requirement_ref d.review_requirements) item.approver)
        (role_mismatch item.requirement_ref)
      ++ problem_if (not (item.approver.kind == "HUMAN")) (approver_not_human item.requirement_ref)
      ++ problem_if (item.approver.id == d.created_by.id || item.approver.id == d.requested_by.id)
          (not_independent item.requirement_ref)
      ++ problem_if (not (option_eq item.action_digest (expected_action_digest d)))
          (not_bound_to_action item.requirement_ref)
      ++ problem_if (not (item.approval_digest == approval_digest sha256_json d item))
          (approval_digest_mismatch item.requirement_ref)

  unfoldable pub all_approval_problems : Document → List Approval → List Problem
  all_approval_problems d [] = []
  all_approval_problems d (a ∷ rest) = approval_problems d a ++ all_approval_problems d rest

  unfoldable pub problems : Document → List Problem
  problems d =
      problem_if (ltb d.updated_at d.created_at) updated_before_created
      ++ problem_if (not (all_distinct (claim_ids d))) duplicate_claims
      ++ problem_if (not (all_distinct (evidence_ids d))) duplicate_evidence
      ++ unknown_list (sorted_set (unknown_claim_refs (claim_ids d) d.evidence)) unknown_claims
      ++ unknown_list
          (sorted_set (
            missing_from (requirement_ids d)
              (map (λ (a : Approval). a.requirement_ref) d.approvals)))
          unknown_requirements
      ++ action_problems d d.canonical_action
      ++ problem_if (not (all_distinct (map (λ (a : Approval). a.nonce) d.approvals))) reused_nonce
      ++ problem_if (not (is_empty d.approvals) && is_before_review d.status)
          approvals_before_review
      ++ all_approval_problems d d.approvals

  unfoldable pub validate_semantics : Document → Result (List Problem) (Unit {0})
  unfolding sorted_set problems action_problems approval_problems all_approval_problems
      unknown_claim_refs missing_from
  validate_semantics d = let errors = problems d in if is_empty errors then ok tt else err errors
