-- ===== src/Release/Verification.antt =====
-- release_verification.py: `ReleaseVerifier.verify` and `publication_eligible`. The dictionary of
-- the supplied gates is an association list in the order of insertion.
use decision_assurance.Prelude.{
  String, Bool, true, false, not, ◌&&◌, Option, none, some, List, [], ◌∷◌, ◌++◌, any, keep, map,
  mem, is_some, sorted, ◌==◌, ◌⧺◌, Result, ok, ◌>>=◌, if◌then◌else◌,
}
use decision_assurance.Release.Gates.{
  block, is_pass, GateResult, ReleaseError, check_gate, ReleaseVerificationReport, gate_ids,
  check_report, report_status,
}

abbrev pub mandatory_gates : List String
mandatory_gates =
    "unit-quality" ∷ "dependency-audit" ∷ "secret-scan" ∷ "oidc-validation"
    ∷ "postgresql-migrations" ∷ "tenant-isolation" ∷ "database-roles" ∷ "worker-recovery"
    ∷ "production-configuration" ∷ "observability-health" ∷ "container-scan"
    ∷ "restore-verification" ∷ "controlled-pilot-e2e" ∷ "artifact-integrity" ∷ []

abbrev pub blocking_reason_codes : List String
blocking_reason_codes =
    "TENANT_ISOLATION_FAILURE" ∷ "CRITICAL_VULNERABILITY" ∷ "MIGRATION_FAILURE" ∷ "RESTORE_FAILURE"
    ∷ "AUDIT_INTEGRITY_FAILURE" ∷ "STATIC_AUTH_PRODUCTION" ∷ "RESEARCH_OUTCOME_USED"
    ∷ "AGENT_APPROVAL" ∷ "SECRET_LEAKAGE" ∷ []

-- `BLOCKING_REASON_CODES.intersection(gate.reason_codes)` is not empty
unfoldable pub has_blocker : GateResult → Bool
has_blocker g = any (λ code. mem code blocking_reason_codes) g.reason_codes

-- `_enforce_blockers`
unfoldable pub enforce_blockers : GateResult → Result ReleaseError GateResult
unfolding check_gate
enforce_blockers g = if has_blocker g then check_gate (record g { status = block }) else ok g

-- `supplied.get(gate_id)`, and `supplied[gate_id] = gate`
unfoldable pub get_gate : String → List (String × GateResult) → Option GateResult
get_gate id [] = none
get_gate id ((k, g) ∷ rest) = if k == id then some g else get_gate id rest

unfoldable pub set_gate :
    String → GateResult → List (String × GateResult) → List (String × GateResult)
set_gate id g [] = (id, g) ∷ []
set_gate id g ((k, h) ∷ rest) = if k == id then (id, g) ∷ rest else (k, h) ∷ set_gate id g rest

-- the two local variables of the first loop
pub record Supplied : Type 0 where
  pub gates : List (String × GateResult)
  pub duplicates : List String

-- the body of the loop `for gate in gates`
unfoldable pub supply : GateResult → Supplied → Result ReleaseError Supplied
unfolding enforce_blockers get_gate set_gate
supply g s = do
  enforced ← enforce_blockers g
  ok (record {
    gates = set_gate g.gate_id enforced s.gates;
    duplicates =
        if is_some (get_gate g.gate_id s.gates) then g.gate_id ∷ s.duplicates else s.duplicates;
  })

unfoldable pub supply_all : List GateResult → Supplied → Result ReleaseError Supplied
unfolding supply
supply_all [] s = ok s
supply_all (g ∷ gs) s = do s' ← supply g s; supply_all gs s'

abbrev pub refused : String → String → GateResult
refused id code = record {
  gate_id = id;
  status = block;
  reason_codes = code ∷ [];
  evidence_refs = "release-verification" ∷ [];
}

-- the body of the loop `for gate_id in MANDATORY_GATES`
unfoldable pub normalized_gate : Supplied → String → Result ReleaseError GateResult
unfolding get_gate check_gate
normalized_gate s id =
    if mem id s.duplicates
    then check_gate (refused id "DUPLICATE_GATE_EVIDENCE")
    else elim (get_gate id s.gates) [
      | none ↦ check_gate (refused id "MANDATORY_GATE_MISSING")
      | some g ↦ ok g
    ]

unfoldable pub normalize_all : Supplied → List String → Result ReleaseError (List GateResult)
unfolding normalized_gate
normalize_all s [] = ok []
normalize_all s (id ∷ ids) = do g ← normalized_gate s id; gs ← normalize_all s ids; ok (g ∷ gs)

-- `sorted(set(supplied).difference(MANDATORY_GATES))`
unfoldable pub unknown_gates : Supplied → List String
unfolding sorted
unknown_gates s =
    sorted
      (keep (λ id. not (mem id mandatory_gates)) (map (λ (e : String × GateResult). e.0) s.gates))

unfoldable pub add_unknown : List String → List GateResult → Result ReleaseError (List GateResult)
unfolding check_gate
add_unknown [] normalized = ok normalized
add_unknown (id ∷ ids) normalized = do
  g ← check_gate (record {
    gate_id = "release-input";
    status = block;
    reason_codes = "UNKNOWN_RELEASE_GATE" ∷ [];
    evidence_refs = map (λ u. "gate:" ⧺ u) (id ∷ ids);
  })
  ok (normalized ++ g ∷ [])

unfoldable pub verify :
    String → String → String → List GateResult → Result ReleaseError ReleaseVerificationReport
unfolding supply_all normalize_all unknown_gates add_unknown check_report
verify version commit_sha generated_at gates = do
  s ← supply_all gates (record { gates = []; duplicates = [] })
  normalized ← normalize_all s mandatory_gates
  all_gates ← add_unknown (unknown_gates s) normalized
  check_report (record {
    version = version;
    commit_sha = commit_sha;
    generated_at = generated_at;
    gates = all_gates;
    schema_version = "0.5.0";
  })

-- equality of tuples of texts
unfoldable pub same_texts : List String → List String → Bool
same_texts [] [] = true
same_texts (x ∷ xs) (y ∷ ys) = x == y && same_texts xs ys
same_texts _ _ = false

unfoldable pub publication_eligible : ReleaseVerificationReport → Bool
unfolding report_status same_texts
publication_eligible r = is_pass (report_status r) && same_texts (gate_ids r.gates) mandatory_gates
