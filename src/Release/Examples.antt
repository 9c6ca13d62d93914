-- ===== src/Release/Examples.antt =====
-- The theorem on releases at a complete set of gates.
use decision_assurance.Prelude.{String, ◌≡◌, ◌↔◌, refl, true, List, [], ◌∷◌, map, All, ok}
use decision_assurance.Jobs.Contracts.{matches_id}
use decision_assurance.Release.Gates.{
  GateResult, pass, ReleaseVerificationReport, check_gate, matches_sha,
}
use decision_assurance.Release.Verification.{mandatory_gates, verify, publication_eligible}
use decision_assurance.Release.Supplied.{IsGate}
use decision_assurance.Release.Publication.{IsComplete, verify-eligible}

abbrev passing : String → GateResult
passing id = record {
  gate_id = id;
  status = pass;
  reason_codes = [];
  evidence_refs = "ci:run-1" ∷ [];
}

abbrev gates : List GateResult
gates = map passing mandatory_gates

abbrev sha : String
sha = "0123456789abcdef0123456789abcdef01234567"

sha_matches : matches_sha sha ≡ true
unfolding matches_sha
sha_matches = refl

gates_valid : All IsGate gates
unfolding check_gate matches_id
gates_valid = (
  refl,
  (
    refl,
    (
      refl,
      (refl, (refl, (refl, (refl, (refl, (refl, (refl, (refl, (refl, (refl, (refl, tt))))))))))),
    ),
  ),
)

verify-eligible_example :
    (r : ReleaseVerificationReport) × (verify "0.5.0" sha "2026-01-01T00:00:00+00:00" gates ≡ ok r)
    × ((publication_eligible r ≡ true) ↔ IsComplete gates)
verify-eligible_example =
    verify-eligible sha "2026-01-01T00:00:00+00:00" gates sha_matches gates_valid
