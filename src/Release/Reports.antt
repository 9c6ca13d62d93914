-- ===== src/Release/Reports.antt =====
-- release_verification.py: the report of `ReleaseVerifier.verify` on gates that their constructor
-- admits, and that it is given.
use decision_assurance.Prelude.{
  String, ◌≡◌, refl, ap, Bool, true, false, List, [], ◌∷◌, ◌++◌, all_distinct, All, map, mem,
  is_empty, Bool-cases, Option-cases, inl, inr, ok, if◌then◌else◌, or_default, ◌⧺◌,
}
use decision_assurance.Jobs.Contracts.{matches_id}
use decision_assurance.Release.Gates.{
  block, GateResult, check_gate, gate_ids, ReleaseVerificationReport, check_report, matches_sha,
}
use decision_assurance.Release.Verification.{
  mandatory_gates, get_gate, Supplied, refused, normalized_gate, normalize_all, unknown_gates,
  add_unknown, verify,
}
use decision_assurance.Release.Supplied.{
  IsGate, absorb_all, supply_all-ok, KeysMatch, KeysMatch-absorb_all, get_gate-id,
}

abbrev pub normalized : Supplied → String → GateResult
normalized s id =
    if mem id s.duplicates
    then refused id "DUPLICATE_GATE_EVIDENCE"
    else or_default (get_gate id s.gates) (refused id "MANDATORY_GATE_MISSING")

refused-IsGate : (id code : String) → matches_id id ≡ true → IsGate (refused id code)
unfolding check_gate
refused-IsGate id code h = rw h refl

normalized_gate-ok :
    (s : Supplied) (id : String)
    → matches_id id ≡ true
    → normalized_gate s id ≡ ok (normalized s id)
unfolding normalized_gate
normalized_gate-ok s id h = elim (Bool-cases (mem id s.duplicates)) [
  | inl d ↦ rw d (refused-IsGate id "DUPLICATE_GATE_EVIDENCE" h)
  | inr d ↦ elim (Option-cases (get_gate id s.gates)) [
    | inl e ↦ rw (d, e) (refused-IsGate id "MANDATORY_GATE_MISSING" h)
    | inr (g, e) ↦ rw (d, e) refl
  ]
]

normalize_all-ok :
    (s : Supplied) (ids : List String)
    → All (λ id. matches_id id ≡ true) ids
    → normalize_all s ids ≡ ok (map (normalized s) ids)
unfolding normalize_all
normalize_all-ok s [] h = refl
normalize_all-ok s (id ∷ ids) h = rw (normalized_gate-ok s id h.0, normalize_all-ok s ids h.1) refl

mandatory_ids : All (λ id. matches_id id ≡ true) mandatory_gates
unfolding matches_id
mandatory_ids = (
  refl,
  (
    refl,
    (
      refl,
      (refl, (refl, (refl, (refl, (refl, (refl, (refl, (refl, (refl, (refl, (refl, tt))))))))))),
    ),
  ),
)

normalized-id : (s : Supplied) (id : String) → KeysMatch s.gates → (normalized s id).gate_id ≡ id
normalized-id s id k = elim (Bool-cases (mem id s.duplicates)) [
  | inl d ↦ rw d refl
  | inr d ↦ elim (Option-cases (get_gate id s.gates)) [
    | inl e ↦ rw (d, e) refl
    | inr (g, e) ↦ rw (d, e) (get_gate-id id s.gates g k e)
  ]
]

gate_ids-normalized :
    (s : Supplied) (ids : List String) → KeysMatch s.gates → gate_ids (map (normalized s) ids) ≡ ids
gate_ids-normalized s [] k = refl
gate_ids-normalized s (id ∷ ids) k = rw (normalized-id s id k, gate_ids-normalized s ids k) refl

-- The verification of gates that their constructor admits.
abbrev pub start : Supplied
start = record { gates = []; duplicates = [] }

abbrev pub collected : List GateResult → Supplied
collected gates = absorb_all gates start

abbrev pub unknown_gate : List String → GateResult
unknown_gate ids = record {
  gate_id = "release-input";
  status = block;
  reason_codes = "UNKNOWN_RELEASE_GATE" ∷ [];
  evidence_refs = map (λ u. "gate:" ⧺ u) ids;
}

abbrev pub with_unknown : List String → List GateResult → List GateResult
with_unknown ids gates = if is_empty ids then gates else gates ++ unknown_gate ids ∷ []

add_unknown-ok :
    (ids : List String) (gates : List GateResult)
    → add_unknown ids gates ≡ ok (with_unknown ids gates)
unfolding add_unknown check_gate matches_id
add_unknown-ok [] gates = refl
add_unknown-ok (id ∷ ids) gates = refl

abbrev pub report_of : String → String → List GateResult → ReleaseVerificationReport
report_of commit_sha generated_at gates = record {
  version = "0.5.0";
  commit_sha = commit_sha;
  generated_at = generated_at;
  gates =
      with_unknown (unknown_gates (collected gates))
        (map (normalized (collected gates)) mandatory_gates);
  schema_version = "0.5.0";
}

gate_ids-append : (xs ys : List GateResult) → gate_ids (xs ++ ys) ≡ gate_ids xs ++ gate_ids ys
gate_ids-append [] ys = refl
gate_ids-append (x ∷ xs) ys = ap (λ l. x.gate_id ∷ l) (gate_ids-append xs ys)

collected-KeysMatch : (gates : List GateResult) → KeysMatch (collected gates).gates
collected-KeysMatch gates = KeysMatch-absorb_all gates start tt

pub gate_ids-report :
    (sha at : String) (gates : List GateResult)
    → gate_ids (report_of sha at gates).gates ≡ (
        if is_empty (unknown_gates (collected gates))
        then mandatory_gates
        else mandatory_gates ++ "release-input" ∷ [])
gate_ids-report sha at gates = elim (Bool-cases (is_empty (unknown_gates (collected gates)))) [
  | inl e ↦ rw e (gate_ids-normalized (collected gates) mandatory_gates (collected-KeysMatch gates))
  | inr e ↦
      rw
        (
          e,
          gate_ids-append (map (normalized (collected gates)) mandatory_gates)
              (unknown_gate (unknown_gates (collected gates)) ∷ []),
        )
        (ap (λ l. l ++ "release-input" ∷ [])
          (gate_ids-normalized (collected gates) mandatory_gates (collected-KeysMatch gates)))
]

distinct_ids :
    (b : Bool)
    → all_distinct (if b then mandatory_gates else mandatory_gates ++ "release-input" ∷ []) ≡ true
distinct_ids true = refl
distinct_ids false = refl

has_gates :
    (sha at : String) (gates : List GateResult) → is_empty (report_of sha at gates).gates ≡ false
has_gates sha at gates = elim (Bool-cases (is_empty (unknown_gates (collected gates)))) [
  | inl e ↦ rw e refl
  | inr e ↦ rw e refl
]

check_report-ok :
    (sha at : String) (gates : List GateResult)
    → matches_sha sha ≡ true
    → check_report (report_of sha at gates) ≡ ok (report_of sha at gates)
unfolding check_report
check_report-ok sha at gates h =
    rw
      (
        h,
        has_gates sha at gates,
        gate_ids-report sha at gates,
        distinct_ids (is_empty (unknown_gates (collected gates))),
      )
      refl

pub verify-ok :
    (sha at : String) (gates : List GateResult)
    → matches_sha sha ≡ true
    → All IsGate gates
    → verify "0.5.0" sha at gates ≡ ok (report_of sha at gates)
unfolding verify
verify-ok sha at gates h valid =
    rw
      (
        supply_all-ok gates start valid,
        normalize_all-ok (collected gates) mandatory_gates mandatory_ids,
        add_unknown-ok (unknown_gates (collected gates))
            (map (normalized (collected gates)) mandatory_gates),
      )
      (check_report-ok sha at gates h)
