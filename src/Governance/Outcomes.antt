-- ===== src/Governance/Outcomes.antt =====
-- When an assessment blocks, asks for a review or passes, said of the request alone.
use decision_assurance.Prelude.{
  ℕ, suc, String, ◌≡◌, refl, ap, ◌∙◌, Bool, true, false, not, ◌&&◌, ◌||◌, List, [], ◌∷◌, arith, any,
  any-append, is_empty, or_default, if◌then◌else◌, bool_laws, or-false, or_assoc,
}
use decision_assurance.Prelude.Json.{Json}
use decision_assurance.Governance.Models.{Outcome, Severity}
use decision_assurance.Governance.Request.{
  Evidence, Constraint, Policy, Actors, Risk, Conflict, Request,
}
use decision_assurance.Governance.Engine.{
  Found, found_if, is_text, is_unverifiable, is_fabricated, is_outdated, mismatches_claim,
  contradicts, evidence_findings, missing_findings, high_impact, is_hard, is_satisfied,
  constraint_findings, policy_findings, approves_own, actor_findings, risk_findings,
  conflict_findings, each, all_found, number_findings, blocks, assess,
}

-- A request that no reviewer may let pass: fabricated evidence, mandatory evidence missing from a
-- decision of high impact, a hard constraint that is not satisfied, a generator that approves its
-- own decision, or a critical conflict that is open.
abbrev pub must_block : Request → Bool
must_block r =
    any is_fabricated r.evidence
    || (r.mandatory_evidence_missing && high_impact r.risk)
    || any (λ c. is_hard c && not (is_satisfied c)) r.constraints
    || approves_own r.actors
    || any (λ c. not (or_default c.resolved false) && is_text c.severity "CRITICAL") r.conflicts

-- evidence that a reviewer has to look at
abbrev pub is_doubtful : Evidence → Bool
is_doubtful e =
    is_unverifiable e
    || is_fabricated e
    || is_outdated e
    || mismatches_claim e
    || contradicts e
    || is_text e.status "UNAVAILABLE"

abbrev pub is_violated : Constraint → Bool
is_violated c =
    (is_hard c && not (is_satisfied c))
    || (is_text c.severity "REVIEW_REQUIRED" && not (is_satisfied c))

-- A request in which some check is not satisfied.
abbrev pub is_flagged : Request → Bool
is_flagged r =
    any is_doubtful r.evidence
    || r.mandatory_evidence_missing
    || any is_violated r.constraints
    || any (λ p. or_default p.requires_review false) r.policies
    || approves_own r.actors
    || (high_impact r.risk && or_default r.risk.unresolved_uncertainty false)
    || any (λ c. not (or_default c.resolved false)) r.conflicts

abbrev found_blocks : Found → Bool
found_blocks f = elim f.severity [ Severity.block ↦ true | _ ↦ false ]

-- what all rounds of a loop append
any-each {ℓ} :
    {A : Type ℓ} (p : Found → Bool) (f : A → List Found) (q : A → Bool) (xs : List A)
    → ((x : A) → any p (f x) ≡ q x)
    → any p (each f xs) ≡ any q xs
unfolding each
any-each p f q [] h = refl
any-each p f q (x ∷ xs) h = any-append p (f x) (each f xs) ∙ (rw (h x, any-each p f q xs h))

any-number_findings :
    (d : String) (i : ℕ) (fs : List Found)
    → any blocks (number_findings d i fs) ≡ any found_blocks fs
unfolding number_findings
any-number_findings d i [] = refl
any-number_findings d i (f ∷ fs) = rw (any-number_findings d (suc i) fs)

any-found_if : (p : Found → Bool) (b : Bool) (x : Found) → any p (found_if b x) ≡ (b && p x)
any-found_if p b x = ground arith

any-never {ℓ} : {A : Type ℓ} (xs : List A) → any (λ (x : A). false) xs ≡ false
any-never [] = refl
any-never (x ∷ xs) = any-never xs

-- What blocks, source by source.
evidence_blocks : (e : Evidence) → any found_blocks (evidence_findings e) ≡ is_fabricated e
unfolding evidence_findings
evidence_blocks e = simp (any-append, any-found_if, bool_laws)

missing_blocks :
    (m : Bool) (risk : Risk) → any found_blocks (missing_findings m risk) ≡ (m && high_impact risk)
unfolding missing_findings
missing_blocks m risk = ground arith

constraint_blocks :
    (c : Constraint)
    → any found_blocks (constraint_findings c) ≡ (is_hard c && not (is_satisfied c))
unfolding constraint_findings
constraint_blocks c = ground arith

policy_blocks : (p : Policy) → any found_blocks (policy_findings p) ≡ false
unfolding policy_findings
policy_blocks p = ground arith

actor_blocks : (a : Actors) → any found_blocks (actor_findings a) ≡ approves_own a
unfolding actor_findings
actor_blocks a = simp (any-found_if, bool_laws)

risk_blocks : (r : Risk) → any found_blocks (risk_findings r) ≡ false
unfolding risk_findings
risk_blocks r = simp (any-found_if, bool_laws)

conflict_blocks :
    (c : Conflict)
    → any found_blocks (conflict_findings c)
      ≡ (not (or_default c.resolved false) && is_text c.severity "CRITICAL")
unfolding conflict_findings
conflict_blocks c = ground arith

found-must_block : (r : Request) → any found_blocks (all_found r) ≡ must_block r
unfolding all_found
found-must_block r = simp (
  any-append,
  any-each found_blocks evidence_findings is_fabricated r.evidence evidence_blocks,
  missing_blocks,
  any-each found_blocks constraint_findings (λ c. is_hard c && not (is_satisfied c)) r.constraints
      constraint_blocks,
  any-each found_blocks policy_findings (λ p. false) r.policies policy_blocks,
  any-never,
  actor_blocks,
  risk_blocks,
  any-each found_blocks conflict_findings
      (λ c. not (or_default c.resolved false) && is_text c.severity "CRITICAL") r.conflicts
      conflict_blocks,
  or-false,
  or_assoc,
)

-- The same for any finding at all.
abbrev always : Found → Bool
always f = true

evidence_flags : (e : Evidence) → any always (evidence_findings e) ≡ is_doubtful e
unfolding evidence_findings
evidence_flags e = simp (any-append, any-found_if, bool_laws, or_assoc)

missing_flags : (m : Bool) (risk : Risk) → any always (missing_findings m risk) ≡ m
unfolding missing_findings
missing_flags m risk = ground arith

constraint_flags : (c : Constraint) → any always (constraint_findings c) ≡ is_violated c
unfolding constraint_findings
constraint_flags c = ground arith

policy_flags : (p : Policy) → any always (policy_findings p) ≡ or_default p.requires_review false
unfolding policy_findings
policy_flags p = ground arith

actor_flags : (a : Actors) → any always (actor_findings a) ≡ approves_own a
unfolding actor_findings
actor_flags a = simp (any-found_if, bool_laws)

risk_flags :
    (r : Risk)
    → any always (risk_findings r) ≡ (high_impact r && or_default r.unresolved_uncertainty false)
unfolding risk_findings
risk_flags r = simp (any-found_if, bool_laws)

conflict_flags :
    (c : Conflict) → any always (conflict_findings c) ≡ not (or_default c.resolved false)
unfolding conflict_findings
conflict_flags c = ground arith

found-is_flagged : (r : Request) → any always (all_found r) ≡ is_flagged r
unfolding all_found
found-is_flagged r = simp (
  any-append,
  any-each always evidence_findings is_doubtful r.evidence evidence_flags,
  missing_flags,
  any-each always constraint_findings is_violated r.constraints constraint_flags,
  any-each always policy_findings (λ p. or_default p.requires_review false) r.policies policy_flags,
  actor_flags,
  risk_flags,
  any-each always conflict_findings (λ c. not (or_default c.resolved false)) r.conflicts
      conflict_flags,
  or_assoc,
)

is_empty-number_findings :
    (d : String) (i : ℕ) (fs : List Found) → is_empty (number_findings d i fs) ≡ not (any always fs)
unfolding number_findings
is_empty-number_findings d i [] = refl
is_empty-number_findings d i (f ∷ fs) = refl

swap_branches :
    (m f : Bool)
    → (if m then Outcome.block else if not f then Outcome.pass else Outcome.review)
      ≡ (if m then Outcome.block else if f then Outcome.review else Outcome.pass)
swap_branches m f = ground arith

-- The outcome of an assessment, on every request: BLOCK exactly for a request that must block,
-- REVIEW for any other in which some check is not satisfied, PASS for the rest.
pub assess_outcome :
    (sha256_json : Json → String) (now : ℕ → String) (document evidence_document : Json)
    (engine_version : String) (r : Request)
    → (assess sha256_json now document evidence_document engine_version r).outcome ≡ (
        if must_block r
        then Outcome.block
        else if is_flagged r
        then Outcome.review
        else Outcome.pass)
unfolding assess
assess_outcome sha256_json now document evidence_document engine_version r =
    rw
      (
        any-number_findings r.decision_id 1 (all_found r) ∙ found-must_block r,
        is_empty-number_findings r.decision_id 1 (all_found r) ∙ ap not (found-is_flagged r),
      )
      (swap_branches (must_block r) (is_flagged r))
