-- ===== src/Governance/Examples.antt =====
-- The theorems on the engine at requests like those of its benchmark.
use decision_assurance.Prelude.{ℕ, String, ◌≡◌, false, none, some, [], ◌∷◌, ◌++◌, map}
use decision_assurance.Prelude.Json.{Json, null}
use decision_assurance.Governance.Models.{Outcome}
use decision_assurance.Governance.Audit.{append, new_ledger}
use decision_assurance.Governance.Request.{Request, no_actors, no_risk}
use decision_assurance.Governance.Engine.{assess}
use decision_assurance.Governance.Outcomes.{assess_outcome}
use decision_assurance.Governance.Trail.{
  IsLinked, IsNumbered, IsSound, append-IsSound, new_ledger-IsSound, assess_trail, created_types,
  review_types,
}

abbrev digest_of : Json → String
digest_of j = "digest"

abbrev now : ℕ → String
now n = "2026-01-01T00:00:00Z"

-- outdated evidence, and an unresolved critical conflict
abbrev contested : Request
contested = record {
  decision_id = "d-1";
  evidence =
      record {
        evidence_id = some "e-1";
        id = none;
        status = some "OUTDATED";
        verifiable = none;
        fabricated = none;
        outdated = none;
        supports_claim = none;
        contradicts_claim = none;
      }
      ∷ [];
  constraints = [];
  policies = [];
  actors = no_actors;
  risk = no_risk;
  conflicts = record { id = some "x-1"; severity = some "CRITICAL"; resolved = none } ∷ [];
  mandatory_evidence_missing = false;
  policy_version = "1";
}

abbrev outdated_only : Request
outdated_only = record contested { conflicts = [] }

assess_outcome_example : (assess digest_of now null null "0.1.0" contested).outcome ≡ Outcome.block
assess_outcome_example = assess_outcome digest_of now null null "0.1.0" contested

append-IsSound_example :
    IsSound digest_of (append digest_of now (new_ledger "d-1") "decision.received" null)
append-IsSound_example =
    append-IsSound digest_of now (new_ledger "d-1") "decision.received" null
      (new_ledger-IsSound digest_of "d-1")

assess_trail_example :
    let result = assess digest_of now null null "0.1.0" outdated_only in
    IsLinked digest_of none result.audit_events
    × IsNumbered digest_of "d-1" 0 result.audit_events
    × (map (λ e. e.event_type) result.audit_events
        ≡ "decision.received" ∷ "evidence.validated" ∷ created_types result.findings
          ++ "governance.decided" ∷ review_types result.outcome)
assess_trail_example = assess_trail digest_of now null null "0.1.0" outdated_only
