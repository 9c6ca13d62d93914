-- ===== src/Intake/Compilation.antt =====
-- What a compiled decision file says of the intake, and where it can lead (intake/compiler.py,
-- decision_file.py, transitions.py).
use mathlib.Core.Path.{subst}
use decision_assurance.Prelude.{
  ℕ, ◌+◌, String, ◌≡◌, refl, sym, ap, ◌∙◌, true, false, not, ◌&&◌, ◌||◌, List, [], ◌∷◌, arith, map,
  All, All-map, All-keep, is_empty, is_some, ◌⊎◌, ok, raise_if-eq-ok, ok_inj,
}
use decision_assurance.Prelude.Json.{Json}
use decision_assurance.Decisions.Document.{Document}
use decision_assurance.Intake.Contracts.{
  IntakeStatus, ready, is_trusted, CandidateFact, PolicyContext, VerificationReport,
}
use decision_assurance.Intake.Comparison.{Values, needs_confirmation_first}
use decision_assurance.Intake.Verification.{is_objective}
use decision_assurance.Intake.Compiler.{
  is_ready, trusted_facts, fact_ids, evidence_of, enumerate, compiled_document, compile,
}
use decision_assurance.Intake.Provenance.{
  Word, Some, ConfirmedBy, IsGrounded, Reviewed, Reviewed-IsGrounded,
}

evidence-ids :
    (n : ℕ) (cs : List CandidateFact) → map (λ e. e.id) (enumerate evidence_of n cs) ≡ fact_ids cs
evidence-ids n [] = refl
evidence-ids n (c ∷ cs) = ap (λ l. c.fact_id ∷ l) (evidence-ids (n + 1) cs)

is_ready-eq : (s : IntakeStatus) → not (is_ready s) ≡ false → s ≡ ready
is_ready-eq s h = ground arith

module _ (sha256_json : Json → String) (text_of : ℕ → String) (now : ℕ) where
  pub compile-ok :
      (r : VerificationReport) (policy : PolicyContext) (actor : String) (s : IntakeStatus)
      (d : Document)
      → compile sha256_json text_of now r policy actor s ≡ ok d
      → (s ≡ ready)
        × (r.ready ≡ true)
        × (is_empty r.unresolved_requirement_refs ≡ true)
        × (is_empty (trusted_facts r.candidates) ≡ false)
        × (d ≡ compiled_document sha256_json text_of now r policy actor)
  unfolding compile
  compile-ok r policy actor s d h =
      let (a, k) =
        raise_if-eq-ok
          (not (is_ready s) || not r.ready || not (is_empty r.unresolved_requirement_refs))
          needs_confirmation_first _ h in
      let (b, l) =
        raise_if-eq-ok (is_empty (trusted_facts r.candidates)) needs_confirmation_first _ k in
      (is_ready-eq s (ground arith), ground arith, ground arith, b, sym (ok_inj _ d l))

  -- the facts that a compiled file rests on
  pub record IsFounded (is : List Word) (r : VerificationReport) (d : Document) : Type 0 where
    pub evidence : map (λ e. e.id) d.evidence ≡ fact_ids (trusted_facts r.candidates)
    pub some_evidence : is_empty d.evidence ≡ false
    pub grounds :
        All
          (λ c.
            ((is_objective c.fact_type && is_some c.normalized_value) ≡ true)
            ⊎ Some (ConfirmedBy c) is)
          (trusted_facts r.candidates)

  is_empty-enumerate :
      (n : ℕ) (cs : List CandidateFact) → is_empty (enumerate evidence_of n cs) ≡ is_empty cs
  is_empty-enumerate n [] = refl
  is_empty-enumerate n (c ∷ cs) = refl

  trusted-grounds :
      (is : List Word) (cs : List CandidateFact)
      → All (IsGrounded is) cs
      → All
          (λ c.
            ((is_objective c.fact_type && is_some c.normalized_value) ≡ true)
            ⊎ Some (ConfirmedBy c) is)
          (trusted_facts cs)
  trusted-grounds is cs h =
      All-map (λ c. IsGrounded is c × (is_trusted c.verification_status ≡ true)) _
        (trusted_facts cs) (λ c k. k.0 k.1)
        (All-keep (IsGrounded is) (λ c. is_trusted c.verification_status) cs h)

  -- A decision file is compiled only from a READY intake whose report is ready and has no requirement
  -- open. Its evidence, of which there is some, is exactly the trusted facts of the report, and each of
  -- them is an objective fact with a value, or a human who may confirm facts, whose name it bears, has
  -- confirmed it or corrected it to the value it has. Each verification of the intake may have had its
  -- own date and its own trusted policies.
  pub compile-IsFounded :
      (values : Values) (tenant : String) (is : List Word) (r : VerificationReport)
      (policy : PolicyContext) (actor : String) (s : IntakeStatus) (d : Document)
      → Reviewed values sha256_json tenant is r
      → compile sha256_json text_of now r policy actor s ≡ ok d
      → (s ≡ ready)
        × (r.ready ≡ true)
        × (is_empty r.unresolved_requirement_refs ≡ true)
        × IsFounded is r d
  unfolding compiled_document
  compile-IsFounded values tenant is r policy actor s d reviewed h =
      let (a, b, c, n, e) = compile-ok r policy actor s d h in
      (
        a,
        b,
        c,
        subst (IsFounded is r) (sym e) (record {
          evidence = evidence-ids 1 (trusted_facts r.candidates);
          some_evidence = is_empty-enumerate 1 (trusted_facts r.candidates) ∙ n;
          grounds = trusted-grounds is r.candidates (Reviewed-IsGrounded values reviewed);
        }),
      )
