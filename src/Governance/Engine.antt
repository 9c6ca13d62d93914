-- ===== src/Governance/Engine.antt =====
-- engine.py: `DecisionAssuranceEngine`.
use decision_assurance.Prelude.{
  ℕ, suc, String, Bool, true, false, not, ◌&&◌, Option, none, some, List, [], ◌∷◌, ◌++◌, map, ◌==◌,
  option_eq, or_default, any, is_empty, length, if◌then◌else◌, decimal, ◌⧺◌, unique_from,
}
use decision_assurance.Prelude.Json.{Json, str, strs, obj, bool, field, done}
use decision_assurance.Governance.Models.{Outcome, Severity, Finding, outcome_text, finding_json}
use decision_assurance.Governance.Audit.{AuditLedger, LedgerEvent, append, new_ledger}
use decision_assurance.Governance.Request.{
  Evidence, Constraint, Policy, Actors, Risk, Conflict, Request,
}

-- a tuple of `found`
pub record Found : Type 0 where
  pub reason_code : String
  pub severity : Severity
  pub subject_ref : Option String

abbrev pub found : String → Severity → Option String → Found
found reason_code severity subject_ref = record {
  reason_code = reason_code;
  severity = severity;
  subject_ref = subject_ref;
}

-- `if test: found.append(item)`
abbrev pub found_if : Bool → Found → List Found
found_if true item = item ∷ []
found_if false item = []

-- `d.get(key, d.get(other))`
abbrev pub either_key : Option String → Option String → Option String
either_key none other = other
either_key (some a) other = some a

abbrev pub is_text : Option String → String → Bool
is_text o s = option_eq o (some s)

-- the tests on one evidence item
abbrev pub is_unverifiable : Evidence → Bool
is_unverifiable e = not (or_default e.verifiable (not (is_text e.status "UNVERIFIED")))

abbrev pub is_fabricated : Evidence → Bool
is_fabricated e = or_default e.fabricated false

abbrev pub is_outdated : Evidence → Bool
is_outdated e = or_default e.outdated (is_text e.status "OUTDATED")

abbrev pub mismatches_claim : Evidence → Bool
mismatches_claim e = not (or_default e.supports_claim true)

abbrev pub contradicts : Evidence → Bool
contradicts e = or_default e.contradicts_claim (is_text e.status "CONFLICTING")

unfoldable pub evidence_findings : Evidence → List Found
evidence_findings e =
    let ref = either_key e.evidence_id e.id in
    found_if (is_unverifiable e) (found "EVIDENCE_UNVERIFIABLE" Severity.review ref)
    ++ found_if (is_fabricated e) (found "CITATION_FABRICATED" Severity.block ref)
    ++ found_if (is_outdated e) (found "EVIDENCE_OUTDATED" Severity.review ref)
    ++ found_if (mismatches_claim e) (found "SOURCE_CLAIM_MISMATCH" Severity.review ref)
    ++ found_if (contradicts e) (found "EVIDENCE_CONFLICT" Severity.review ref)
    ++ found_if (is_text e.status "UNAVAILABLE")
        (found "MANDATORY_EVIDENCE_MISSING" Severity.review ref)

abbrev pub high_impact : Risk → Bool
high_impact risk = or_default risk.high_impact false

unfoldable pub missing_findings : Bool → Risk → List Found
missing_findings missing risk = found_if missing (
    found "MANDATORY_EVIDENCE_MISSING"
      (if high_impact risk then Severity.block else Severity.review) none)

abbrev pub is_hard : Constraint → Bool
is_hard c = or_default c.hard (is_text c.severity "MANDATORY")

abbrev pub is_satisfied : Constraint → Bool
is_satisfied c = or_default c.satisfied true

unfoldable pub constraint_findings : Constraint → List Found
constraint_findings c =
    let ref = either_key c.constraint_id c.id in
    if is_hard c && not (is_satisfied c)
    then found "HARD_CONSTRAINT_VIOLATION" Severity.block ref ∷ []
    else found_if (is_text c.severity "REVIEW_REQUIRED" && not (is_satisfied c))
        (found (or_default c.reason_code "CONSTRAINT_REQUIRES_REVIEW") Severity.review ref)

unfoldable pub policy_findings : Policy → List Found
policy_findings p =
    found_if (or_default p.requires_review false)
      (found "POLICY_REQUIRES_REVIEW" Severity.review (either_key p.policy_id p.id))

-- `actors.get("generator") and actors.get("approver") == actors["generator"]`
abbrev pub approves_own : Actors → Bool
approves_own actors = elim actors.generator [
  | none ↦ false
  | some g ↦ not (g == "") && option_eq actors.approver (some g)
]

unfoldable pub actor_findings : Actors → List Found
actor_findings actors =
    found_if (approves_own actors)
      (found "SEPARATION_OF_DUTIES_VIOLATION" Severity.block actors.generator)

unfoldable pub risk_findings : Risk → List Found
risk_findings risk =
    found_if (high_impact risk && or_default risk.unresolved_uncertainty false)
      (found "HIGH_IMPACT_UNCERTAINTY" Severity.review none)

unfoldable pub conflict_findings : Conflict → List Found
conflict_findings c = found_if (not (or_default c.resolved false)) (
    if is_text c.severity "CRITICAL"
    then found "CRITICAL_CONFLICT_UNRESOLVED" Severity.block c.id
    else found "CONFLICT_UNRESOLVED" Severity.review c.id)

-- `for item in items: …` with what each round appends
unfoldable pub each {ℓ} : {A : Type ℓ} → (A → List Found) → List A → List Found
each f [] = []
each f (x ∷ xs) = f x ++ each f xs

unfoldable pub all_found : Request → List Found
all_found data_ =
    each evidence_findings data_.evidence
    ++ missing_findings data_.mandatory_evidence_missing data_.risk
    ++ each constraint_findings data_.constraints
    ++ each policy_findings data_.policies
    ++ actor_findings data_.actors
    ++ risk_findings data_.risk
    ++ each conflict_findings data_.conflicts

-- `enumerate(found, start=index)`
unfoldable pub number_findings : String → ℕ → List Found → List Finding
number_findings decision_id index [] = []
number_findings decision_id index (f ∷ fs) =
    record {
      finding_id = decision_id ⧺ ":finding:" ⧺ decimal index;
      reason_code = f.reason_code;
      severity = f.severity;
      subject_ref = f.subject_ref;
      detail = none;
    }
    ∷ number_findings decision_id (suc index) fs

-- `_validate`
unfoldable pub validate : Request → List Finding
unfolding all_found number_findings evidence_findings missing_findings constraint_findings
    policy_findings actor_findings risk_findings conflict_findings each
validate data_ = number_findings data_.decision_id 1 (all_found data_)

abbrev pub blocks : Finding → Bool
blocks f = elim f.severity [ Severity.block ↦ true | _ ↦ false ]

-- `_govern`
unfoldable pub govern : List Finding → Outcome
govern findings =
    if any blocks findings
    then Outcome.block
    else if is_empty findings
    then Outcome.pass
    else Outcome.review

-- `tuple(dict.fromkeys(codes))`, or the one code of a request with no finding
unfoldable pub reason_codes_of : List Finding → List String
unfolding unique_from
reason_codes_of findings =
    if is_empty findings
    then "ALL_REQUIRED_CHECKS_SATISFIED" ∷ []
    else unique_from [] (map (λ f. f.reason_code) findings)

abbrev pub is_review : Outcome → Bool
is_review Outcome.review = true
is_review _ = false

pub record Report : Type 0 where
  pub report_id : String
  pub decision_id : String
  pub outcome : Outcome
  pub reason_codes : List String
  pub finding_refs : List String
  pub evidence_refs : List String
  pub review_ref : Option String
  pub audit_ref : String
  pub created_at : String
  pub policy_version : String
  pub engine_version : String

pub record AssessmentResult : Type 0 where
  pub outcome : Outcome
  pub reason_codes : List String
  pub human_review : Bool
  pub findings : List Finding
  pub report : Report
  pub audit_events : List LedgerEvent

-- `if review_ref is not None`, and the events and the references of a review
abbrev pub review_ref_of : Outcome → String → Option String
review_ref_of Outcome.review decision_id = some (decision_id ⧺ ":review:1")
review_ref_of _ decision_id = none

abbrev pub evidence_refs_of : List Evidence → List String
evidence_refs_of [] = []
evidence_refs_of (e ∷ es) = elim (either_key e.evidence_id e.id) [
  | none ↦ evidence_refs_of es
  | some ref ↦ ref ∷ evidence_refs_of es
]

-- `document` and `evidence_document` are the JSON of the request and of its evidence.
module _ (sha256_json : Json → String) (now : ℕ → String) (document evidence_document : Json) where
  -- one "finding.created" event for each finding
  unfoldable pub record_findings : AuditLedger → List Finding → AuditLedger
  unfolding append finding_json
  record_findings ledger [] = ledger
  record_findings ledger (f ∷ fs) =
      record_findings (append sha256_json now ledger "finding.created" (finding_json f)) fs

  abbrev pub decided_payload : Outcome → List String → Json
  decided_payload outcome codes =
      obj (field "outcome" (str (outcome_text outcome)) (field "reason_codes" (strs codes) done))

  unfoldable pub request_review : Outcome → String → List String → AuditLedger → AuditLedger
  unfolding append
  request_review Outcome.review decision_id codes ledger =
      append sha256_json now ledger "review.requested" (
        obj (
          field "review_id" (str (decision_id ⧺ ":review:1"))
            (field "reason_codes" (strs codes) done)))
  request_review _ decision_id codes ledger = ledger

  -- the ledger of an assessment
  unfoldable pub assess_ledger : String → List Finding → AuditLedger
  assess_ledger decision_id findings =
      let received = append sha256_json now (new_ledger decision_id) "decision.received" document in
      let validated = append sha256_json now received "evidence.validated" (
        obj (field "evidence" evidence_document (field "valid" (bool (is_empty findings)) done))) in
      let created = record_findings validated findings in
      let decided =
        append sha256_json now created "governance.decided"
          (decided_payload (govern findings) (reason_codes_of findings)) in
      request_review (govern findings) decision_id (reason_codes_of findings) decided

  unfoldable pub assess : String → Request → AssessmentResult
  unfolding validate govern reason_codes_of assess_ledger append new_ledger record_findings
      request_review
  assess engine_version data_ =
      let findings = validate data_ in
      let outcome = govern findings in
      let reason_codes = reason_codes_of findings in
      let ledger = assess_ledger data_.decision_id findings in
      record {
        outcome = outcome;
        reason_codes = reason_codes;
        human_review = is_review outcome;
        findings = findings;
        report = record {
          report_id = data_.decision_id ⧺ ":report:1";
          decision_id = data_.decision_id;
          outcome = outcome;
          reason_codes = reason_codes;
          finding_refs = map (λ f. f.finding_id) findings;
          evidence_refs = evidence_refs_of data_.evidence;
          review_ref = review_ref_of outcome data_.decision_id;
          audit_ref = data_.decision_id ⧺ ":audit";
          created_at = now (length ledger.events);
          policy_version = data_.policy_version;
          engine_version = engine_version;
        };
        audit_events = ledger.events;
      }
