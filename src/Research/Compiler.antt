-- ===== src/Research/Compiler.antt =====
-- `ResearchEvidenceCompiler` of web_research/compiler.py.
use decision_assurance.Prelude.{
  String, Bool, not, ◌&&◌, Option, none, some, List, [], ◌∷◌, ◌==◌, find_first, if◌then◌else◌, ◌⧺◌,
}
use decision_assurance.Research.Runs.{
  DecisionEvidence, EvidenceAssessment, EvidenceCandidate, ResearchRun, SourceSnapshot,
}

abbrev pub decision_status : EvidenceAssessment → String
decision_status a =
    if a.conflict_status == "CONFLICTING"
    then "CONFLICTING"
    else if a.freshness_status == "STALE"
    then "OUTDATED"
    else "UNVERIFIED"

abbrev pub decision_evidence : ResearchRun → EvidenceCandidate → SourceSnapshot → DecisionEvidence
decision_evidence run candidate snapshot = record {
  evidence_id = candidate.evidence_id;
  research_run_id = run.research_run_id;
  claim_refs = candidate.claim_refs;
  source_ref = "research:" ⧺ run.research_run_id ⧺ ":" ⧺ candidate.evidence_id;
  status = decision_status candidate.assessment;
  observed_at = snapshot.retrieved_at;
  content_hash = candidate.content_hash;
  correlation_id = some run.correlation_id;
}

-- the loop of `compile`; a candidate without its snapshot is a StopIteration
unfoldable pub compile_all : ResearchRun → List EvidenceCandidate → Option (List DecisionEvidence)
compile_all run [] = some []
compile_all run (candidate ∷ rest) =
    let others = compile_all run rest in
    if not candidate.assessment.usable_for_decision
    then others
    else if candidate.risk.prompt_injection_suspected
    then others
    else elim (find_first (λ (s : SourceSnapshot). s.snapshot_id == candidate.snapshot_id)
        run.snapshots) [
          | none ↦ none
          | some snapshot ↦ elim others [
            | none ↦ none
            | some compiled ↦ some (decision_evidence run candidate snapshot ∷ compiled)
          ]
        ]

unfoldable pub compile : ResearchRun → Option (List DecisionEvidence)
unfolding compile_all
compile run = compile_all run run.evidence

-- what the loop lets through
abbrev pub is_eligible : EvidenceCandidate → Bool
is_eligible c = c.assessment.usable_for_decision && not c.risk.prompt_injection_suspected
