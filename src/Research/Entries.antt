-- ===== src/Research/Entries.antt =====
-- A run with one event in the table and one to be saved, and the theorem on its ledger.
use decision_assurance.Prelude.{◌≡◌, refl, String, true, none, List, [], ◌∷◌, ◌++◌, All, any, ok}
use decision_assurance.Research.Lifecycle.{created, searching}
use decision_assurance.Research.Runs.{ResearchAuditEvent, ResearchRun}
use decision_assurance.Research.Ledger.{audit_json}
use decision_assurance.Research.Repository.{EventRow, ResearchDb, event_row, save}
use decision_assurance.Research.Saved.{IsRowOf, is_stored, save-audit_events}
use decision_assurance.Research.Cases.{no_rows, run}

abbrev event_named : String → ResearchAuditEvent
event_named id = record {
  event_id = id;
  event_type = "research.status-transitioned";
  occurred_at = "2026-01-01T00:00:00Z";
  tenant_id = "tenant-a";
  actor_id = "alice";
  from_status = created;
  to_status = searching;
  reason_codes = [];
  correlation_id = "corr-1";
  payload_hash = "payload";
  previous_event_hash = none;
  schema_version = "1.0";
  decision = none;
  operating_profile = none;
  policy_version = none;
  provider = none;
  connector = none;
  target_host = none;
  requested_processing_location = none;
  evidence_id = none;
  evidence_status = none;
}

abbrev events : List ResearchAuditEvent
events = event_named "run-1:1" ∷ event_named "run-1:2" ∷ []

abbrev logged : ResearchRun
logged = record run { sources = []; snapshots = []; evidence = []; audit_events = events }

abbrev before : ResearchDb
before = record no_rows {
  runs = record { tenant_id = "tenant-a"; research_run_id = "run-1"; run = run } ∷ [];
  audit_events = event_row "tenant-a" "run-1" 1 (event_named "run-1:1") ∷ [];
}

abbrev after : ResearchDb
after = record before {
  runs = record { tenant_id = "tenant-a"; research_run_id = "run-1"; run = logged } ∷ [];
  audit_events =
      event_row "tenant-a" "run-1" 1 (event_named "run-1:1")
      ∷ event_row "tenant-a" "run-1" 2 (event_named "run-1:2")
      ∷ [];
}

is_saved : save "tenant-a" logged before ≡ ok (tt, after)
unfolding save audit_json
is_saved = refl

save-audit_events_example :
    (added : List EventRow) × (after.audit_events ≡ before.audit_events ++ added)
    × All (IsRowOf "tenant-a" "run-1") added
    × All (λ event. any (is_stored "tenant-a" "run-1" event) after.audit_events ≡ true) events
save-audit_events_example = save-audit_events "tenant-a" logged before after is_saved
