-- ===== src/Research/Saved.antt =====
-- What `SqliteResearchRepository.save` (web_research/repository.py) does to the stored ledger.
use decision_assurance.Prelude.{
  ℕ, ◌+◌, if-true, if-false, ◌≡◌, refl, sym, ap, ◌∙◌, String, Bool, true, false, ◌&&◌, Option, none,
  some, List, [], ◌∷◌, ◌++◌, All, any, any-append, any-append_one, Bool-cases, find_first, inl, inr,
  ok, ok_inj, raise_if-eq-ok, >>=-eq-ok, eq_refl, not-eq-false, some_inj, arith, All-append,
}
use decision_assurance.Prelude.Json.{json_eq, json_eq_refl}
use decision_assurance.Research.Runs.{ResearchAuditEvent, ResearchRun}
use decision_assurance.Research.Ledger.{audit_json}
use decision_assurance.Research.Repository.{
  EventRow, ResearchDb, audit_event_conflict, integrity_error, insert_event, is_other_event,
  is_event, event_row, run_not_found, save, save_events, save_parts, tenant_mismatch,
}
use mathlib.Core.Path.{subst}
use mathlib.Core.List.{append-nil, append_assoc}

-- a row of the run in the table of events
abbrev pub IsRowOf : String → String → EventRow → Type 0
IsRowOf tenant run_id row = (row.tenant_id ≡ tenant) × (row.research_run_id ≡ run_id)

-- the row that holds the event under its own identifier
abbrev pub is_stored : String → String → ResearchAuditEvent → EventRow → Bool
is_stored tenant run_id event row =
    is_event tenant run_id event.event_id row && json_eq (audit_json row.event) (audit_json event)

any-append_rest :
    {A : Type 0} (p : A → Bool) (xs ys : List A) → any p xs ≡ true → any p (xs ++ ys) ≡ true
any-append_rest p xs ys h = rw (any-append p xs ys, h) refl

-- what is found first is among what is there
any-found :
    {A : Type 0} (p q : A → Bool) (xs : List A)
    → any p xs ≡ true
    → ((x : A) → find_first p xs ≡ some x → q x ≡ true)
    → any (λ x. p x && q x) xs ≡ true
any-found p q [] h k = h
any-found p q (x ∷ xs) h k = elim (Bool-cases (p x)) [
  | inl e ↦ rw (e, k x (rw e refl)) refl
  | inr e ↦
      let rest : any p xs ≡ true = ground arith in
      rw e (any-found p q xs rest (λ y m. k y (rw e m)))
]

not_other :
    (event : ResearchAuditEvent) (o : Option EventRow) {row : EventRow}
    → is_other_event event o ≡ false
    → o ≡ some row
    → json_eq (audit_json row.event) (audit_json event) ≡ true
not_other event none h k = cc
not_other event (some r) {row} h k =
    ap (λ (r' : EventRow). json_eq (audit_json r'.event) (audit_json event))
      (sym (some_inj r row k))
    ∙ not-eq-false _ h

new-is_stored :
    (tenant run_id : String) (sequence : ℕ) (event : ResearchAuditEvent)
    → is_stored tenant run_id event (event_row tenant run_id sequence event) ≡ true
new-is_stored tenant run_id sequence event =
    rw (eq_refl tenant, eq_refl run_id, eq_refl event.event_id, json_eq_refl (audit_json event))
      refl

insert_event-IsRowOf :
    (tenant run_id : String) (sequence : ℕ) (event : ResearchAuditEvent)
    (rows rows' : List EventRow)
    → is_other_event event (find_first (is_event tenant run_id event.event_id) rows) ≡ false
    → insert_event tenant run_id sequence event rows ≡ ok rows'
    → (added : List EventRow) × (rows' ≡ rows ++ added)
      × All (IsRowOf tenant run_id) added
      × (any (is_stored tenant run_id event) (rows ++ added) ≡ true)
unfolding insert_event
insert_event-IsRowOf tenant run_id sequence event rows rows' h k =
    elim (Bool-cases (any (is_event tenant run_id event.event_id) rows)) [
      | inl e ↦ (
        [],
        sym (ok_inj rows rows' (if-true _ _ _ e k)) ∙ sym (append-nil rows),
        tt,
        ap (any (is_stored tenant run_id event)) (append-nil rows)
            ∙ any-found (is_event tenant run_id event.event_id)
                (λ row. json_eq (audit_json row.event) (audit_json event)) rows e
                (λ row m. not_other event _ h m),
      )
      | inr e ↦
          let (_, k1) = raise_if-eq-ok _ integrity_error _ (if-false _ _ _ e k) in
          (
            event_row tenant run_id sequence event ∷ [],
            sym (ok_inj _ rows' k1),
            ((refl, refl), tt),
            any-append_one (is_stored tenant run_id event) rows
                (event_row tenant run_id sequence event)
                (new-is_stored tenant run_id sequence event),
          )
    ]

abbrev IsExtended :
    String → String → List ResearchAuditEvent → List EventRow → List EventRow → Type 0
IsExtended tenant run_id events rows rows' =
    (added : List EventRow) × (rows' ≡ rows ++ added)
    × All (IsRowOf tenant run_id) added
    × All (λ event. any (is_stored tenant run_id event) rows' ≡ true) events

save_events-IsExtended :
    (tenant run_id : String) (sequence : ℕ) (events : List ResearchAuditEvent)
    (rows rows' : List EventRow)
    → save_events tenant run_id sequence events rows ≡ ok rows'
    → IsExtended tenant run_id events rows rows'
unfolding save_events
save_events-IsExtended tenant run_id sequence [] rows rows' h =
    ([], sym (ok_inj rows rows' h) ∙ sym (append-nil rows), tt, tt)
save_events-IsExtended tenant run_id sequence (event ∷ events) rows rows' h =
    let (same, h1) = raise_if-eq-ok _ audit_event_conflict _ h in
    let (next, k, h2) = >>=-eq-ok (insert_event tenant run_id sequence event rows) _ h1 in
    let (one, first, own, here) =
      insert_event-IsRowOf tenant run_id sequence event rows next same k in
    let (added, rest, all_own, stored) =
      save_events-IsExtended tenant run_id (sequence + 1) events next rows' h2 in
    let whole : rows' ≡ (rows ++ one) ++ added = rest ∙ ap (λ r. r ++ added) first in
    (
      one ++ added,
      whole ∙ append_assoc rows one added,
      All-append (IsRowOf tenant run_id) one added own all_own,
      (
        ap (any (is_stored tenant run_id event)) whole
            ∙ any-append_rest (is_stored tenant run_id event) (rows ++ one) added here,
        stored,
      ),
    )

save_parts-IsExtended :
    (tenant : String) (run : ResearchRun) (db db' : ResearchDb)
    → save_parts tenant run db ≡ ok (tt, db')
    → IsExtended tenant run.research_run_id run.audit_events db.audit_events db'.audit_events
unfolding save_parts
save_parts-IsExtended tenant run db db' h =
    let (_, h1) = raise_if-eq-ok _ integrity_error _ h in
    let (events, k, h2) =
      >>=-eq-ok (save_events tenant run.research_run_id 1 run.audit_events db.audit_events) _ h1 in
    let e : events ≡ db'.audit_events =
      ap (λ (p : Unit {0} × ResearchDb). p.1.audit_events) (ok_inj _ (tt, db') h2) in
    subst (IsExtended tenant run.research_run_id run.audit_events db.audit_events) e (
      save_events-IsExtended tenant run.research_run_id 1 run.audit_events db.audit_events events k)

-- Saving a run leaves every stored event of a ledger as it is and where it is: rows of that tenant and
-- run, and no other, are added at the end of the table, and each event of the run's ledger is stored
-- with its content under its identifier, if the saving succeeds.
pub save-audit_events :
    (tenant : String) (run : ResearchRun) (db db' : ResearchDb)
    → save tenant run db ≡ ok (tt, db')
    → (added : List EventRow) × (db'.audit_events ≡ db.audit_events ++ added)
      × All (IsRowOf tenant run.research_run_id) added
      × All
          (λ event. any (is_stored tenant run.research_run_id event) db'.audit_events ≡ true)
          run.audit_events
unfolding save
save-audit_events tenant run db db' h =
    let (_, h1) = raise_if-eq-ok _ tenant_mismatch _ h in
    let (_, h2) = raise_if-eq-ok _ run_not_found _ h1 in save_parts-IsExtended tenant run _ db' h2
