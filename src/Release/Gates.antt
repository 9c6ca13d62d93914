-- ===== src/Release/Gates.antt =====
-- Gates and reports of a release: `ReleaseStatus`, `GateResult` and `ReleaseVerificationReport` of
-- production/contracts.py.
use decision_assurance.Prelude.{
  String, Bool, true, false, not, ◌&&◌, ◌||◌, List, any, all, is_empty, map, all_distinct, leb,
  length, codes, ℕ, ◌==◌, Result, ok, ◌>>◌, raise_if, if◌then◌else◌,
}
use decision_assurance.Jobs.Contracts.{matches_id}

pub data ReleaseStatus : Type 0 where
  pass review block : ReleaseStatus

abbrev pub is_pass : ReleaseStatus → Bool
is_pass pass = true
is_pass _ = false

abbrev pub is_review : ReleaseStatus → Bool
is_review review = true
is_review _ = false

abbrev pub is_block : ReleaseStatus → Bool
is_block block = true
is_block _ = false

pub record GateResult : Type 0 where
  pub gate_id : String
  pub status : ReleaseStatus
  pub reason_codes : List String
  pub evidence_refs : List String

pub data ReleaseError : Type 0 where
  invalid_release_gate_id release_gate_reason_required : ReleaseError
  release_gate_evidence_required invalid_release_report_version : ReleaseError
  invalid_build_commit invalid_release_gates : ReleaseError

-- `GateResult.__post_init__`
unfoldable pub check_gate : GateResult → Result ReleaseError GateResult
unfolding matches_id
check_gate g = do
  raise_if (not (matches_id g.gate_id)) invalid_release_gate_id
  raise_if (not (is_pass g.status) && is_empty g.reason_codes) release_gate_reason_required
  raise_if (is_empty g.evidence_refs) release_gate_evidence_required
  ok g

pub record ReleaseVerificationReport : Type 0 where
  pub version : String
  pub commit_sha : String
  pub generated_at : String
  pub gates : List GateResult
  pub schema_version : String

-- `[0-9a-f]`
abbrev pub is_hex : ℕ → Bool
is_hex c = (leb b'0' c && leb c b'9') || (leb b'a' c && leb c b'f')

-- `_SHA.fullmatch`
unfoldable pub matches_sha : String → Bool
matches_sha s = all is_hex (codes s) && leb 40 (length (codes s)) && leb (length (codes s)) 64

abbrev pub gate_ids : List GateResult → List String
gate_ids gates = map (λ (g : GateResult). g.gate_id) gates

-- `ReleaseVerificationReport.__post_init__`
unfoldable pub check_report :
    ReleaseVerificationReport → Result ReleaseError ReleaseVerificationReport
unfolding matches_sha
check_report r = do
  raise_if (not (r.schema_version == "0.5.0") || not (r.version == "0.5.0"))
      invalid_release_report_version
  raise_if (not (matches_sha r.commit_sha)) invalid_build_commit
  raise_if (is_empty r.gates || not (all_distinct (gate_ids r.gates))) invalid_release_gates
  ok r

-- `ReleaseVerificationReport.status`
unfoldable pub report_status : ReleaseVerificationReport → ReleaseStatus
report_status r =
    if any (λ (g : GateResult). is_block g.status) r.gates
    then block
    else if any (λ (g : GateResult). is_review g.status) r.gates
    then review
    else pass
