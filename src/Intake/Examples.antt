-- ===== src/Intake/Examples.antt =====
-- The theorems on intakes at a quote with three figures and a claim that a human confirms.
use decision_assurance.Prelude.{
  ℕ, ◌+◌, ◌*◌, ◌-◌, String, ◌≡◌, refl, true, false, Option, none, some, List, [], ◌∷◌, codes, ltb,
  decimal, is_empty, ok, err,
}
use decision_assurance.Prelude.Json.{Json}
use decision_assurance.Access.Identity.{Identity, validator, human}
use decision_assurance.Decisions.Document.{Document, Actor, draft}
use decision_assurance.Intake.Contracts.{
  FactType, amount, discount_percent, margin_percent, self_approval_claim, unresolved,
  CandidateFact, ready, ExtractionReport, HumanConfirmation, PolicyContext, VerificationReport,
  IntakeStatus,
}
use decision_assurance.Intake.Comparison.{Values}
use decision_assurance.Intake.Verification.{verify, reverify}
use decision_assurance.Intake.Confirmation.{Decision, confirm_fact}
use decision_assurance.Intake.Compiler.{compile}
use decision_assurance.Intake.Provenance.{Reviewed, by_verification, by_confirmation}
use decision_assurance.Intake.Compilation.{IsFounded, compile-IsFounded}

abbrev value_of_codes : ℕ → List ℕ → ℕ
value_of_codes n [] = n
value_of_codes n (c ∷ cs) = value_of_codes (n * 10 + (c - 48)) cs

-- whole numbers, and dates as numbers of days
abbrev plain : Values
plain = record {
  Number = ℕ;
  parse = λ s. some (value_of_codes 0 (codes s));
  above = λ a b. some (ltb b a);
  whole_above = λ a n. some (ltb n a);
  number_text = decimal;
  day_of = λ s. some (value_of_codes 0 (codes s));
  day_text = decimal;
}

abbrev policy : PolicyContext
policy = record {
  policy_id = "POL-1";
  policy_version = "1";
  effective_date = "100";
  maximum_discount_percent = "10";
  minimum_margin_percent = "20";
  maximum_duration_months_without_exception = 24;
  requires_approval_above_amount = "50000";
  maximum_evidence_age_days = 365;
  required_approval_count = 1;
}

abbrev registry : String → Option PolicyContext
registry tenant = some policy

abbrev fact : String → FactType → Option String → CandidateFact
fact id type value = record {
  fact_id = id;
  fact_type = type;
  raw_value = "quote";
  normalized_value = value;
  source = record { source_id = "src-1"; start = 0; end = 5; content_hash = "sha256:0" };
  method = "deterministic-quote";
  method_version = "1";
  verification_status = unresolved;
  unit = none;
  currency = none;
  conflict_refs = [];
  confirmation_required = true;
  confirmed_by_actor_id = none;
  confirmed_by_role = none;
}

abbrev quote : ExtractionReport
quote = record {
  schema_version = "0.3.0";
  intake_id = "intake-1";
  method = "deterministic-quote";
  method_version = "1";
  locale = "en";
  candidates =
      fact "f1" amount (some "1000")
      ∷ fact "f2" discount_percent (some "5")
      ∷ fact "f3" margin_percent (some "30")
      ∷ fact "f4" self_approval_claim (some "self approved")
      ∷ [];
  conflicts = [];
  requirements = [];
}

abbrev no_report : VerificationReport
no_report = record {
  schema_version = "";
  intake_id = "";
  candidates = [];
  findings = [];
  unresolved_requirement_refs = [];
  ready = false;
  reason_codes = [];
}

first : VerificationReport
unfolding verify
first = elim (verify plain registry 200 "tenant-a" quote) [ ok r ↦ r | err e ↦ no_report ]

is_verified : verify plain registry 200 "tenant-a" quote ≡ ok first
unfolding verify first
is_verified = refl

abbrev reviewer_1 : Identity
reviewer_1 = record {
  actor_id = "bob";
  tenant_id = "tenant-a";
  role = validator;
  kind = human;
  organization_id = none;
  groups = [];
  roles = validator ∷ [];
  client_id = none;
  scopes = [];
}

abbrev yes_to_f4 : Decision
yes_to_f4 = record {
  fact_id = "f4";
  action = "CONFIRM";
  new_value = none;
  reason = "seen in the quote";
  occurred_at = "2026-01-01T00:00:00+00:00";
}

abbrev sha : Json → String
sha j = "0123456789abcdef0123456789abcdef"

second : VerificationReport × HumanConfirmation
unfolding first verify confirm_fact
second = elim (confirm_fact sha first reviewer_1 yes_to_f4) [
  | ok r ↦ r
  | err e ↦ (
    no_report,
    record {
      confirmation_id = "";
      fact_id = "";
      action = "";
      actor_id = "";
      old_value = none;
      new_value = none;
      reason = "";
      occurred_at = "";
    },
  )
]

is_confirmed_f4 : confirm_fact sha first reviewer_1 yes_to_f4 ≡ ok (second.0, second.1)
unfolding second
is_confirmed_f4 = refl

third : VerificationReport
unfolding second reverify
third = elim (reverify plain registry 200 "tenant-a" second.0) [ ok r ↦ r | err e ↦ no_report ]

is_reverified : reverify plain registry 200 "tenant-a" second.0 ≡ ok third
unfolding third
is_reverified = refl

reviewed : Reviewed plain sha "tenant-a" ((reviewer_1, yes_to_f4) ∷ []) third
reviewed =
    by_confirmation registry 200 reviewer_1 yes_to_f4 second.1
      (by_verification registry 200 quote (refl, (refl, (refl, (refl, tt)))) is_verified)
      is_confirmed_f4 is_reverified

abbrev nobody : Actor
nobody = record { id = ""; role = ""; kind = "" }

abbrev empty_document : Document
empty_document = record {
  schema_version = "";
  decision_id = "";
  status = draft;
  created_at = 0;
  updated_at = 0;
  created_by = nobody;
  requested_by = nobody;
  current_owner = nobody;
  canonical_action = none;
  claims = [];
  evidence = [];
  constraints = [];
  policies = [];
  risks = [];
  conflicts = [];
  validation_results = [];
  review_requirements = [];
  approvals = [];
  decision_outcome = none;
  outcome_reasons = [];
  audit_events = [];
}

compiled : Document
unfolding third compile
compiled = elim (compile sha decimal 7 third policy "system:intake-compiler" ready) [
  | ok d ↦ d
  | err e ↦ empty_document
]

is_compiled : compile sha decimal 7 third policy "system:intake-compiler" ready ≡ ok compiled
unfolding compiled
is_compiled = refl

compile-IsFounded_example :
    (◌≡◌ {A = IntakeStatus} ready ready)
    × (third.ready ≡ true)
    × (is_empty third.unresolved_requirement_refs ≡ true)
    × IsFounded sha decimal 7 ((reviewer_1, yes_to_f4) ∷ []) third compiled
compile-IsFounded_example =
    compile-IsFounded sha decimal 7 plain "tenant-a" ((reviewer_1, yes_to_f4) ∷ []) third policy
      "system:intake-compiler" ready compiled reviewed is_compiled
