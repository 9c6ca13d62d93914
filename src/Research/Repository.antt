-- ===== src/Research/Repository.antt =====
-- `SqliteResearchRepository` of web_research/repository.py: the tables of research runs. A call is one
-- transaction: an exception leaves the tables as they were. A run is stored as JSON text, whose
-- reading gives the run back; the foreign keys of the tables are left out.
use decision_assurance.Prelude.{
  ℕ, ◌+◌, String, Bool, false, not, ◌&&◌, ◌||◌, Option, none, some, List, [], ◌∷◌, ◌++◌, ◌==◌, any,
  eqb, find_first, leb, update_where, Result, ok, err, raise_if, ◌>>=◌, ◌>>◌, if◌then◌else◌,
  option_eq,
}
use decision_assurance.Prelude.Json.{Json, json_eq}
use decision_assurance.Research.Ledger.{audit_json}
use decision_assurance.Research.Runs.{
  EvidenceCandidate, ResearchAttempt, ResearchAuditEvent, ResearchRequest, ResearchRun,
  SourceCandidate, SourceSnapshot,
}

-- a row of `research_runs`: its other columns are fields of the run
pub record RunRow : Type 0 where
  pub tenant_id : String
  pub research_run_id : String
  pub run : ResearchRun

-- a row of one of the tables of what a run holds
pub record PartRow (A : Type 0) : Type 0 where
  pub tenant_id : String
  pub research_run_id : String
  pub id : String
  -- the column of the tables that have one, which an update leaves as it is
  pub content_hash : Option String
  pub part : A

-- a row of `research_audit_events`
pub record EventRow : Type 0 where
  pub tenant_id : String
  pub research_run_id : String
  pub event_id : String
  pub sequence : ℕ
  pub event : ResearchAuditEvent

-- a row of `research_budget_usage`
pub record BudgetRow : Type 0 where
  pub tenant_id : String
  pub research_run_id : String
  pub used_units : ℕ

-- a row of `research_idempotency`
pub record IdempotencyRow : Type 0 where
  pub tenant_id : String
  pub actor_id : String
  pub operation : String
  pub key : String
  pub request_hash : String
  pub status_code : ℕ
  pub response : Json

pub record ResearchDb : Type 0 where
  pub runs : List RunRow
  pub budget : List BudgetRow
  pub sources : List (PartRow SourceCandidate)
  pub snapshots : List (PartRow SourceSnapshot)
  pub evidence : List (PartRow EvidenceCandidate)
  pub attempts : List (PartRow ResearchAttempt)
  pub audit_events : List EventRow
  pub idempotency : List IdempotencyRow

pub data RepositoryError : Type 0 where
  tenant_mismatch run_not_found budget_exceeded audit_event_conflict : RepositoryError
  invalid_page_limit integrity_error : RepositoryError
  -- ResearchIdempotencyConflict, ResearchIdempotencyInProgress and the two RuntimeErrors
  key_reused request_in_progress reservation_failed completion_failed : RepositoryError

abbrev pub Called : Type 0 → Type 0
Called A = Result RepositoryError (A × ResearchDb)

abbrev pub is_run : String → String → RunRow → Bool
is_run tenant run_id row = row.tenant_id == tenant && row.research_run_id == run_id

abbrev pub is_budget : String → String → BudgetRow → Bool
is_budget tenant run_id row = row.tenant_id == tenant && row.research_run_id == run_id

abbrev pub is_part : {A : Type 0} → String → String → String → PartRow A → Bool
is_part tenant run_id id row =
    row.tenant_id == tenant && row.research_run_id == run_id && row.id == id

-- `_assert_tenant`
abbrev pub assert_tenant : String → ResearchRun → Result RepositoryError (Unit {0})
assert_tenant tenant run = raise_if (not (tenant == run.tenant_id)) tenant_mismatch

abbrev pub stored_run : Option RunRow → Option ResearchRun
stored_run none = none
stored_run (some row) = some row.run

abbrev pub has_fingerprint : String → ResearchRun → RunRow → Bool
has_fingerprint tenant run row =
    row.tenant_id == tenant && row.run.semantic_fingerprint == run.semantic_fingerprint

-- a run whose handoff led to the document that the new request starts from
abbrev pub is_prior :
    (ResearchRequest → ResearchRequest → Bool) → String → ResearchRun → RunRow → Bool
is_prior same_request tenant run row =
    row.tenant_id == tenant
    && row.run.request.decision_file_id == run.request.decision_file_id
    && same_request row.run.request run.request
    && row.run.expected_document_hash == run.expected_document_hash

abbrev pub new_run_row : String → ResearchRun → RunRow
new_run_row tenant run = record {
  tenant_id = tenant;
  research_run_id = run.research_run_id;
  run = run;
}

abbrev pub new_budget_row : String → ResearchRun → BudgetRow
new_budget_row tenant run = record {
  tenant_id = tenant;
  research_run_id = run.research_run_id;
  used_units = 0;
}

unfoldable pub insert_run : String → ResearchRun → ResearchDb → Called ResearchRun
insert_run tenant run db =
    raise_if
      (any (is_run tenant run.research_run_id) db.runs
        || any (is_budget tenant run.research_run_id) db.budget)
      integrity_error
    >> ok (
      run,
      record db {
        runs = db.runs ++ new_run_row tenant run ∷ [];
        budget = db.budget ++ new_budget_row tenant run ∷ [];
      },
    )

-- the run that is found, by its fingerprint or as a prior one, or the new one
abbrev pub found_or_new :
    String → ResearchRun → ResearchDb → Option RunRow → Option RunRow → Called ResearchRun
found_or_new tenant run db (some row) prior = ok (row.run, db)
found_or_new tenant run db none (some row) = ok (row.run, db)
found_or_new tenant run db none none = insert_run tenant run db

-- `same_request` is the equality of requests
unfoldable pub create_or_get :
    (ResearchRequest → ResearchRequest → Bool)
    → String
    → ResearchRun
    → ResearchDb
    → Called ResearchRun
unfolding insert_run
create_or_get same_request tenant run db =
    assert_tenant tenant run
    >> found_or_new tenant run db (find_first (has_fingerprint tenant run) db.runs)
        (find_first (is_prior same_request tenant run) db.runs)

unfoldable pub get : String → String → ResearchDb → Option ResearchRun
get tenant run_id db = stored_run (find_first (is_run tenant run_id) db.runs)

abbrev part_row : {A : Type 0} → String → String → String → Option String → A → PartRow A
part_row tenant run_id id hash part = record {
  tenant_id = tenant;
  research_run_id = run_id;
  id = id;
  content_hash = hash;
  part = part;
}

-- `INSERT … ON CONFLICT … DO UPDATE`
upsert :
    {A : Type 0}
    → String
    → String
    → String
    → Option String
    → A
    → List (PartRow A)
    → List (PartRow A)
upsert tenant run_id id hash part rows =
    if any (is_part tenant run_id id) rows
    then update_where (is_part tenant run_id id) (λ row. record row { part = part }) rows
    else rows ++ part_row tenant run_id id hash part ∷ []

-- `INSERT … ON CONFLICT … DO NOTHING`
insert_once : {A : Type 0} → String → String → String → A → List (PartRow A) → List (PartRow A)
insert_once tenant run_id id part rows =
    if any (is_part tenant run_id id) rows
    then rows
    else rows ++ part_row tenant run_id id none part ∷ []

upsert_all :
    {A : Type 0}
    → String
    → String
    → (A → String)
    → (A → Option String)
    → List A
    → List (PartRow A)
    → List (PartRow A)
unfolding upsert
upsert_all tenant run_id id_of hash_of [] rows = rows
upsert_all tenant run_id id_of hash_of (x ∷ xs) rows =
    upsert_all tenant run_id id_of hash_of xs (upsert tenant run_id (id_of x) (hash_of x) x rows)

insert_all_once :
    {A : Type 0} → String → String → (A → String) → List A → List (PartRow A) → List (PartRow A)
unfolding insert_once
insert_all_once tenant run_id id_of [] rows = rows
insert_all_once tenant run_id id_of (x ∷ xs) rows =
    insert_all_once tenant run_id id_of xs (insert_once tenant run_id (id_of x) x rows)

abbrev pub is_event : String → String → String → EventRow → Bool
is_event tenant run_id event_id row =
    row.tenant_id == tenant && row.research_run_id == run_id && row.event_id == event_id

-- a row of the run at a place of its ledger
abbrev pub is_at : String → String → ℕ → EventRow → Bool
is_at tenant run_id sequence row =
    row.tenant_id == tenant && row.research_run_id == run_id && eqb row.sequence sequence

-- `existing and existing["event_json"] != serialized`
abbrev pub is_other_event : ResearchAuditEvent → Option EventRow → Bool
is_other_event event none = false
is_other_event event (some row) = not (json_eq (audit_json row.event) (audit_json event))

abbrev pub event_row : String → String → ℕ → ResearchAuditEvent → EventRow
event_row tenant run_id sequence event = record {
  tenant_id = tenant;
  research_run_id = run_id;
  event_id = event.event_id;
  sequence = sequence;
  event = event;
}

-- `INSERT … ON CONFLICT (tenant_id, research_run_id, event_id) DO NOTHING`, which fails where another
-- event of the run has the place
unfoldable pub insert_event :
    String
    → String
    → ℕ
    → ResearchAuditEvent
    → List EventRow
    → Result RepositoryError (List EventRow)
insert_event tenant run_id sequence event rows =
    if any (is_event tenant run_id event.event_id) rows
    then ok rows
    else raise_if (any (is_at tenant run_id sequence) rows) integrity_error
      >> ok (rows ++ event_row tenant run_id sequence event ∷ [])

-- the loop over the events of the ledger, from a place on: an event that is stored is never written
-- again
unfoldable pub save_events :
    String
    → String
    → ℕ
    → List ResearchAuditEvent
    → List EventRow
    → Result RepositoryError (List EventRow)
unfolding audit_json insert_event
save_events tenant run_id sequence [] rows = ok rows
save_events tenant run_id sequence (event ∷ events) rows =
    raise_if (is_other_event event (find_first (is_event tenant run_id event.event_id) rows))
      audit_event_conflict
    >> (insert_event tenant run_id sequence event rows >>= λ stored.
        save_events tenant run_id (sequence + 1) events stored)

-- another row of the run with the content hash, which the tables do not admit
has_other_with : {A : Type 0} → PartRow A → List (PartRow A) → Bool
has_other_with row rows =
    any
      (λ other.
        other.tenant_id == row.tenant_id
        && other.research_run_id == row.research_run_id
        && option_eq other.content_hash row.content_hash
        && not (other.id == row.id))
      rows

breaks_unique : {A : Type 0} → String → String → List (PartRow A) → Bool
unfolding has_other_with
breaks_unique tenant run_id rows =
    any (λ row. row.tenant_id == tenant && row.research_run_id == run_id && has_other_with row rows)
      rows

-- the statements of `save` after the run's row was updated
unfoldable pub save_parts : String → ResearchRun → ResearchDb → Called (Unit {0})
unfolding upsert_all insert_all_once breaks_unique save_events
save_parts tenant run db =
    let id = run.research_run_id in
    let sources =
      upsert_all tenant id (λ (s : SourceCandidate). s.source_id) (λ s. none) run.sources
        db.sources in
    let snapshots =
      upsert_all tenant id (λ (s : SourceSnapshot). s.snapshot_id) (λ s. some s.content_hash)
        run.snapshots db.snapshots in
    let evidence =
      upsert_all tenant id (λ (e : EvidenceCandidate). e.evidence_id) (λ e. some e.content_hash)
        run.evidence db.evidence in
    let attempts =
      insert_all_once tenant id (λ (a : ResearchAttempt). a.attempt_id) run.attempts db.attempts in
    raise_if (breaks_unique tenant id snapshots || breaks_unique tenant id evidence) integrity_error
    >> (save_events tenant id 1 run.audit_events db.audit_events >>= λ events. ok (
      tt,
      record db {
        sources = sources;
        snapshots = snapshots;
        evidence = evidence;
        attempts = attempts;
        audit_events = events;
      },
    ))

unfoldable pub save : String → ResearchRun → ResearchDb → Called (Unit {0})
unfolding save_parts
save tenant run db =
    assert_tenant tenant run
    >> (raise_if (not (any (is_run tenant run.research_run_id) db.runs)) run_not_found
        >> save_parts tenant run (record db {
          runs =
              update_where (is_run tenant run.research_run_id) (λ row. record row { run = run })
                db.runs;
        }))

unfoldable pub reserve_budget : String → String → ℕ → ResearchDb → Called ℕ
reserve_budget tenant run_id limit db = elim (find_first (is_budget tenant run_id) db.budget) [
  | none ↦ err run_not_found
  | some row ↦
      raise_if (leb limit row.used_units) budget_exceeded
      >> ok (
        row.used_units + 1,
        record db {
          budget =
              update_where (is_budget tenant run_id)
                (λ r. record r { used_units = row.used_units + 1 }) db.budget;
        },
      )
]
