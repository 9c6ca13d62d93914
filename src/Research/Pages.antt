-- ===== src/Research/Pages.antt =====
-- The pages and lists that `SqliteResearchRepository` (web_research/repository.py) reads.
use decision_assurance.Prelude.{
  ℕ, String, not, ◌&&◌, Option, none, some, List, [], ◌∷◌, map, ◌==◌, keep, leb, ltb, take, drop,
  is_le_text, Result, ok, raise_if, ◌>>◌, if◌then◌else◌,
}
use decision_assurance.Research.Runs.{
  EvidenceCandidate, ResearchAuditEvent, SourceCandidate, SourceSnapshot,
}
use decision_assurance.Research.Repository.{
  EventRow, PartRow, ResearchDb, RepositoryError, invalid_page_limit,
}

-- `_validate_page`
abbrev pub validate_page : ℕ → Result RepositoryError (Unit {0})
validate_page limit = raise_if (not (leb 1 limit && leb limit 100)) invalid_page_limit

insert_part : {A : Type 0} → PartRow A → List (PartRow A) → List (PartRow A)
insert_part row [] = row ∷ []
insert_part row (r ∷ rs) =
    let rest = insert_part row rs in if is_le_text row.id r.id then row ∷ r ∷ rs else r ∷ rest

-- `ORDER BY …_id`
sorted_parts : {A : Type 0} → List (PartRow A) → List (PartRow A)
unfolding insert_part
sorted_parts [] = []
sorted_parts (r ∷ rs) = insert_part r (sorted_parts rs)

page : {A : Type 0} → String → String → ℕ → ℕ → List (PartRow A) → List A
unfolding sorted_parts
page tenant run_id limit offset rows =
    map (λ row. row.part)
      (take limit (
        drop offset (
          sorted_parts
            (keep (λ row. row.tenant_id == tenant && row.research_run_id == run_id) rows))))

unfoldable pub list_sources :
    String → String → ℕ → ℕ → ResearchDb → Result RepositoryError (List SourceCandidate)
unfolding page
list_sources tenant run_id limit offset db =
    validate_page limit >> ok (page tenant run_id limit offset db.sources)

unfoldable pub list_evidence :
    String → String → ℕ → ℕ → ResearchDb → Result RepositoryError (List EvidenceCandidate)
unfolding page
list_evidence tenant run_id limit offset db =
    validate_page limit >> ok (page tenant run_id limit offset db.evidence)

insert_by_sequence : EventRow → List EventRow → List EventRow
insert_by_sequence row [] = row ∷ []
insert_by_sequence row (r ∷ rs) =
    let rest = insert_by_sequence row rs in
    if leb row.sequence r.sequence then row ∷ r ∷ rs else r ∷ rest

-- `ORDER BY sequence`
by_sequence : List EventRow → List EventRow
unfolding insert_by_sequence
by_sequence [] = []
by_sequence (r ∷ rs) = insert_by_sequence r (by_sequence rs)

unfoldable pub list_audit : String → String → ResearchDb → List ResearchAuditEvent
unfolding by_sequence
list_audit tenant run_id db =
    map (λ (row : EventRow). row.event)
      (by_sequence
        (keep (λ row. row.tenant_id == tenant && row.research_run_id == run_id) db.audit_events))

-- `ORDER BY expires_at DESC LIMIT 1`
latest_snapshot : List (PartRow SourceSnapshot) → Option SourceSnapshot
latest_snapshot [] = none
latest_snapshot (row ∷ rows) = elim (latest_snapshot rows) [
  | none ↦ some row.part
  | some s ↦ if ltb row.part.expires_at s.expires_at then some s else some row.part
]

unfoldable pub get_snapshot : String → String → ℕ → ResearchDb → Option SourceSnapshot
unfolding latest_snapshot
get_snapshot tenant canonical_url current_time db = latest_snapshot (
    keep
      (λ (row : PartRow SourceSnapshot).
        row.tenant_id == tenant
        && row.part.canonical_url == canonical_url
        && ltb current_time row.part.expires_at)
      db.snapshots)
