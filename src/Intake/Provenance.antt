-- ===== src/Intake/Provenance.antt =====
-- Where the facts of a compiled decision file come from (intake/verification.py,
-- intake/confirmation.py, intake/compiler.py): the life of a report in the API is one verification,
-- then confirmations, each with a verification anew (api/routes/intakes.py).
use mathlib.Core.Path.{subst}
use decision_assurance.Prelude.{
  ℕ, String, ◌≡◌, refl, sym, ap, Bool, true, not, ◌&&◌, ◌⊎◌, inl, inr, Option, none, some, List, [],
  ◌∷◌, arith, map, All, All-map, find_first, is_some, if_cases, All-map_to, ok, >>=-eq-ok,
  raise_if-eq-ok, ok_inj, not-eq-false, false, mem, eq_iff, ◌==◌, Bool-cases, some_inj, ◌∙◌, is_ok,
  if◌then◌else◌,
}
use decision_assurance.Prelude.Json.{Json}
use decision_assurance.Access.Identity.{Identity}
use decision_assurance.Access.Authorization.{authorize, intake_confirm}
use decision_assurance.Intake.Contracts.{
  is_trusted, is_unresolved, refused, human_confirmed, CandidateFact, ExtractionReport,
  HumanConfirmation, PolicyContext, VerificationReport,
}
use decision_assurance.Intake.Comparison.{
  Values, IntakeError, or_error, is_instruction, human_actor_required,
  intake_confirmation_forbidden, invalid_confirmation_action, corrected_value_required,
  confirmation_reason_required, fact_not_found,
}
use decision_assurance.Intake.Verification.{
  is_objective, verify_open, is_decided, verify_candidate, with_refusal, is_embedded,
  is_foreign_claim, reject_embedded, verify_policy_references, verify_candidates, report_findings,
  build_report, verify, reverify,
}
use decision_assurance.Intake.Confirmation.{
  Decision, is_human, role_text, updated_fact, has_fact_id, replace_fact, confirmed_report,
  confirm_fact,
}

-- `identity` is a human who may confirm facts.
pub record MayConfirm (identity : Identity) : Type 0 where
  pub human_kind : is_human identity.kind ≡ true
  pub allowed : is_ok (authorize identity intake_confirm) ≡ true

-- a human's word on a fact
abbrev pub Word : Type 0
Word = Identity × Decision

-- one of the words has `P`
abbrev pub Some : (Word → Type 0) → List Word → Type 0
Some P [] = ⊥
Some P (i ∷ is) = P i ⊎ Some P is

-- The word is that of a human who may confirm facts, whose name and role the fact bears; it is about
-- this fact, which it confirms or corrects, and a corrected fact has the value that was given.
pub record ConfirmedBy (c : CandidateFact) (w : Word) : Type 0 where
  pub permitted : MayConfirm w.0
  pub actor : c.confirmed_by_actor_id ≡ some w.0.actor_id
  pub role : c.confirmed_by_role ≡ some (role_text w.0.role)
  pub fact : c.fact_id ≡ w.1.fact_id
  pub action : (w.1.action ≡ "CONFIRM") ⊎ (w.1.action ≡ "CORRECT")
  pub value : w.1.action ≡ "CORRECT" → c.normalized_value ≡ w.1.new_value

-- A fact that is trusted is an objective one with a value, or one of the words has confirmed it.
abbrev pub IsGrounded : List Word → CandidateFact → Type 0
IsGrounded is c =
    is_trusted c.verification_status ≡ true
    → ((is_objective c.fact_type && is_some c.normalized_value) ≡ true) ⊎ Some (ConfirmedBy c) is

verify_candidate-IsGrounded :
    (is : List Word) (c : CandidateFact) → IsGrounded is c → IsGrounded is (verify_candidate c)
unfolding verify_candidate
verify_candidate-IsGrounded is c h =
    if_cases (IsGrounded is) (is_decided c.verification_status) c (verify_open c) (λ _. h)
      λ _.
        if_cases (IsGrounded is) (is_objective c.fact_type && is_some c.normalized_value) _ _
          (λ e _. inl e)
          λ _.
            if_cases (IsGrounded is) (is_instruction c.fact_type) _ c (λ _ t. absurd (ground arith))
              (λ _. h)

-- A refusal may be put in the place of any fact.
refusal-IsGrounded :
    (is : List Word) (b : CandidateFact → Bool) (c : CandidateFact)
    → IsGrounded is c
    → IsGrounded is (if b c then with_refusal c else c)
refusal-IsGrounded is b c h =
    if_cases (IsGrounded is) (b c) (with_refusal c) c (λ _ t. absurd (ground arith)) (λ _. h)

verify_policy_references-IsGrounded :
    (is : List Word) (policy : Option PolicyContext) (cs : List CandidateFact)
    → All (IsGrounded is) cs
    → All (IsGrounded is) (verify_policy_references policy cs)
unfolding verify_policy_references
verify_policy_references-IsGrounded is none cs h = h
verify_policy_references-IsGrounded is (some policy) cs h =
    All-map_to (IsGrounded is) (IsGrounded is) _ cs
      (refusal-IsGrounded is (is_foreign_claim policy)) h

verify_candidates-IsGrounded :
    (is : List Word) (policy : Option PolicyContext) (cs : List CandidateFact)
    → All (IsGrounded is) cs
    → All (IsGrounded is) (verify_candidates policy cs)
unfolding verify_candidates reject_embedded
verify_candidates-IsGrounded is policy cs h = verify_policy_references-IsGrounded is policy _ (
    All-map_to (IsGrounded is) (IsGrounded is) _ (map verify_candidate cs)
      (refusal-IsGrounded is (is_embedded (map verify_candidate cs)))
      (All-map_to (IsGrounded is) (IsGrounded is) verify_candidate cs
        (verify_candidate-IsGrounded is) h))

IsGrounded-more :
    (i : Word) (is : List Word) (c : CandidateFact) → IsGrounded is c → IsGrounded (i ∷ is) c
IsGrounded-more i is c h t = elim (h t) [ inl o ↦ inl o | inr s ↦ inr (inr s) ]

-- a fact that a word has rejected is not trusted
kept_fact : (b : Bool) → is_trusted (if b then refused else human_confirmed) ≡ true → b ≡ false
kept_fact true h = absurd (ground arith)
kept_fact false h = refl

accepted_action :
    (a : String)
    → mem a ("CONFIRM" ∷ "CORRECT" ∷ "REJECT" ∷ []) ≡ true
    → (a == "REJECT") ≡ false
    → (a ≡ "CONFIRM") ⊎ (a ≡ "CORRECT")
accepted_action a h n = elim (Bool-cases (a == "CONFIRM")) [
  | inl e ↦ inl ((eq_iff a "CONFIRM").0 e)
  | inr e ↦ inr ((eq_iff a "CORRECT").0 (ground arith))
]

updated_fact-IsGrounded :
    (i : Identity) (is : List Word) (d : Decision) (c : CandidateFact)
    → MayConfirm i
    → has_fact_id d.fact_id c ≡ true
    → mem d.action ("CONFIRM" ∷ "CORRECT" ∷ "REJECT" ∷ []) ≡ true
    → IsGrounded ((i, d) ∷ is) (updated_fact i d c)
unfolding updated_fact
updated_fact-IsGrounded i is d c may own action t = inr (
    inl (record {
      permitted = may;
      actor = refl;
      role = refl;
      fact = (eq_iff c.fact_id d.fact_id).0 own;
      action = accepted_action d.action action (kept_fact (d.action == "REJECT") t);
      value = λ e. rw e refl;
    }))

replace_fact-IsGrounded :
    (is : List Word) (id : String) (fact : CandidateFact) (cs : List CandidateFact)
    → IsGrounded is fact
    → All (IsGrounded is) cs
    → All (IsGrounded is) (replace_fact id fact cs)
unfolding replace_fact
replace_fact-IsGrounded is id fact cs new h =
    All-map_to (IsGrounded is) (IsGrounded is) _ cs
      (λ c k. if_cases (IsGrounded is) (has_fact_id id c) fact c (λ _. new) (λ _. k)) h

confirmed_report-IsGrounded :
    (i : Identity) (is : List Word) (r : VerificationReport) (d : Decision)
    (current : CandidateFact)
    → MayConfirm i
    → has_fact_id d.fact_id current ≡ true
    → mem d.action ("CONFIRM" ∷ "CORRECT" ∷ "REJECT" ∷ []) ≡ true
    → All (IsGrounded is) r.candidates
    → All (IsGrounded ((i, d) ∷ is)) (confirmed_report r d (updated_fact i d current)).candidates
unfolding confirmed_report
confirmed_report-IsGrounded i is r d current may own action h =
    replace_fact-IsGrounded ((i, d) ∷ is) d.fact_id (updated_fact i d current) r.candidates
      (updated_fact-IsGrounded i is d current may own action)
      (All-map (IsGrounded is) (IsGrounded ((i, d) ∷ is)) r.candidates (IsGrounded-more (i, d) is)
        h)

found_own :
    (p : CandidateFact → Bool) (cs : List CandidateFact) {c : CandidateFact}
    → find_first p cs ≡ some c
    → p c ≡ true
found_own p [] h = cc
found_own p (c ∷ cs) h = elim (Bool-cases (p c)) [
  | inl e ↦ ap p (sym (some_inj _ _ (rw e at h))) ∙ e
  | inr e ↦ found_own p cs (rw e at h)
]

or_error-ok :
    {A : Type 0} (o : Option A) (e : IntakeError) (a : A) → or_error o e ≡ ok a → o ≡ some a
or_error-ok none e a h = cc
or_error-ok (some b) e a h = cc

module _ (sha256_json : Json → String) where
  -- What a confirmation that is accepted has seen and done.
  pub confirm_fact-ok :
      (report report' : VerificationReport) (i : Identity) (d : Decision) (done : HumanConfirmation)
      → confirm_fact sha256_json report i d ≡ ok (report', done)
      → MayConfirm i
        × (mem d.action ("CONFIRM" ∷ "CORRECT" ∷ "REJECT" ∷ []) ≡ true)
        × (current : CandidateFact) × (find_first (has_fact_id d.fact_id) report.candidates
            ≡ some current)
        × (report' ≡ confirmed_report report d (updated_fact i d current))
  unfolding confirm_fact
  confirm_fact-ok report report' i d done h =
      let (k, h1) = raise_if-eq-ok (not (is_human i.kind)) human_actor_required _ h in
      let (a, h2) =
        raise_if-eq-ok (not (is_ok (authorize i intake_confirm))) intake_confirmation_forbidden _
          h1 in
      let (b, h3) = raise_if-eq-ok _ invalid_confirmation_action _ h2 in
      let (_, h4) = raise_if-eq-ok _ corrected_value_required _ h3 in
      let (_, h5) = raise_if-eq-ok _ confirmation_reason_required _ h4 in
      let (current, e, h6) =
        >>=-eq-ok (or_error (find_first (has_fact_id d.fact_id) report.candidates) fact_not_found) _
          h5 in
      (
        record { human_kind = not-eq-false _ k; allowed = not-eq-false _ a },
        not-eq-false _ b,
        current,
        or_error-ok _ fact_not_found current e,
        sym (
            ap (λ (x : VerificationReport × HumanConfirmation). x.0) (ok_inj _ (report', done) h6)),
      )

-- `today` is the date of a verification, `registry` the trusted policies at that moment.
module _ (values : Values) where
  pub build_report-ok :
      (registry : String → Option PolicyContext) (today : ℕ) (id : String) (cs : List CandidateFact)
      (policy : Option PolicyContext) (refs : List String) (conflicts : Bool)
      (r : VerificationReport)
      → build_report values registry today id cs policy refs conflicts ≡ ok r
      → r.candidates ≡ cs
  unfolding build_report
  build_report-ok registry today id cs policy refs conflicts r h =
      let (f, _, k) = >>=-eq-ok (report_findings values registry today id cs policy) _ h in
      sym (ap (λ (x : VerificationReport). x.candidates) (ok_inj _ r k))

  -- The reports that the API makes of an intake of one tenant, with what people have said of its facts
  -- on the way, the last first. Each verification has its own date and trusted policies.
  pub data Reviewed (sha256_json : Json → String) (tenant : String)
      : List Word → VerificationReport → Type 0 where
    by_verification :
        {r : VerificationReport} (registry : String → Option PolicyContext) (today : ℕ)
        (x : ExtractionReport)
        → All (λ (c : CandidateFact). is_unresolved c.verification_status ≡ true) x.candidates
        → verify values registry today tenant x ≡ ok r
        → Reviewed sha256_json tenant [] r
    by_confirmation :
        {is : List Word} {r r' r'' : VerificationReport} (registry : String → Option PolicyContext)
        (today : ℕ) (i : Identity) (d : Decision) (done : HumanConfirmation)
        → Reviewed sha256_json tenant is r
        → confirm_fact sha256_json r i d ≡ ok (r', done)
        → reverify values registry today tenant r' ≡ ok r''
        → Reviewed sha256_json tenant ((i, d) ∷ is) r''

  unresolved-IsGrounded :
      (cs : List CandidateFact)
      → All (λ (c : CandidateFact). is_unresolved c.verification_status ≡ true) cs
      → All (IsGrounded []) cs
  unresolved-IsGrounded [] h = tt
  unresolved-IsGrounded (c ∷ cs) h = (λ t. absurd (ground arith), unresolved-IsGrounded cs h.1)

  -- In every report of an intake each trusted fact is an objective one with a value, or a human who may
  -- confirm facts has confirmed it.
  pub Reviewed-IsGrounded :
      {sha256_json : Json → String} {tenant : String} {is : List Word} {r : VerificationReport}
      → Reviewed sha256_json tenant is r
      → All (IsGrounded is) r.candidates
  unfolding verify reverify
  Reviewed-IsGrounded {sha256_json} {tenant} {is} {r} (by_verification registry today x fresh h) =
      subst (All (IsGrounded [])) (sym (build_report-ok registry today _ _ _ _ _ r h)) (
        verify_candidates-IsGrounded [] (registry tenant) x.candidates
          (unresolved-IsGrounded x.candidates fresh))
  Reviewed-IsGrounded {sha256_json} {tenant} {is} {r}
        (by_confirmation {is = rest} {r = r0} {r' = r'} registry today i d done before confirmed
          h) =
      let (may, action, current, found, e) = confirm_fact-ok sha256_json r0 r' i d done confirmed in
      subst (All (IsGrounded ((i, d) ∷ rest))) (sym (build_report-ok registry today _ _ _ _ _ r h))
        (verify_candidates-IsGrounded ((i, d) ∷ rest) (registry tenant) r'.candidates (
          subst (λ x. All (IsGrounded ((i, d) ∷ rest)) x.candidates) (sym e)
            (confirmed_report-IsGrounded i rest r0 d current may
              (found_own (has_fact_id d.fact_id) r0.candidates found) action
              (Reviewed-IsGrounded before))))
