-- ===== src/Research/CaseRows.antt =====
-- Rows of decision files, and the checks of their attachment (web_research/compiler.py).
use decision_assurance.Prelude.{
  ◌≡◌, refl, sym, ap, String, Bool, true, false, Option, none, some, List, [], ◌∷◌, find_first, ◌⊎◌,
  inl, inr, Result, ok, err, raise_if, if-true, if-false, ◌>>◌, ok_inj, some_inj, Bool-cases,
  if◌then◌else◌, eq_refl,
}
use decision_assurance.Decisions.Document.{Document}
use decision_assurance.Research.Handoff.{
  CaseDb, CaseRow, HandoffError, decision_not_found, correlation_context_required, HandoffRow,
  is_case, is_handoff, update_case,
}

-- A row that gets another document is found as before.
pub find_first-update_case :
    (tenant decision_id : String) (document : Document) (rows : List CaseRow) {row : CaseRow}
    → find_first (is_case tenant decision_id) rows ≡ some row
    → find_first (is_case tenant decision_id) (update_case tenant decision_id document rows)
      ≡ some (record row { document = document })
unfolding update_case
find_first-update_case tenant decision_id document [] h = cc
find_first-update_case tenant decision_id document (r ∷ rows) {row} h =
    elim (Bool-cases (is_case tenant decision_id r)) [
      | inl e ↦ rw e (
          rw e (
            ap some (
              ap (λ (r' : CaseRow). record r' { document = document })
                (some_inj r row (if-true _ _ _ e h)))))
      | inr e ↦
          rw e (rw e (find_first-update_case tenant decision_id document rows (if-false _ _ _ e h)))
    ]

pub is_handoff_self :
    (tenant run_id decision_id handoff_id : String) (row : HandoffRow)
    → row.tenant_id ≡ tenant
    → row.research_run_id ≡ run_id
    → row.decision_file_id ≡ decision_id
    → row.handoff_id ≡ handoff_id
    → is_handoff tenant run_id decision_id handoff_id row ≡ true
is_handoff_self tenant run_id decision_id handoff_id row h k l m =
    rw (h, k, l, m, eq_refl tenant, eq_refl run_id, eq_refl decision_id, eq_refl handoff_id) refl

-- the transaction at a case that is there and a handoff that is known
pub known_case :
    (o : Option CaseRow) (known : Bool) (db : CaseDb)
    (fresh : CaseRow → Result HandoffError (Document × CaseDb)) (row : CaseRow)
    → o ≡ some row
    → known ≡ true
    → (elim o [
      | none ↦ err decision_not_found
      | some r ↦ if known then ok (r.document, db) else fresh r
    ])
      ≡ ok (row.document, db)
known_case none known db fresh row h k = cc
known_case (some r) true db fresh row h k =
    ap (λ (r' : CaseRow). ok (r'.document, db)) (some_inj r row h)
known_case (some r) false db fresh row h k = cc

pub case_split :
    (o : Option CaseRow) (known : Bool) (db : CaseDb)
    (fresh : CaseRow → Result HandoffError (Document × CaseDb)) (p : Document × CaseDb)
    → (elim o [
      | none ↦ err decision_not_found
      | some r ↦ if known then ok (r.document, db) else fresh r
    ])
      ≡ ok p
    → (row : CaseRow) × (o ≡ some row)
      × ((known ≡ true) × (p ≡ (row.document, db)) ⊎ (fresh row ≡ ok p))
case_split none known db fresh p h = cc
case_split (some r) true db fresh p h = (r, refl, inl (refl, sym (ok_inj (r.document, db) p h)))
case_split (some r) false db fresh p h = (r, refl, inr h)

-- a check that does not read what the rest reads
pub same_check :
    {A : Type 0} (b : Bool) (e : HandoffError) {m n : Result HandoffError A} {x y : A}
    → (m ≡ ok x → n ≡ ok y)
    → (raise_if b e >> m) ≡ ok x
    → (raise_if b e >> n) ≡ ok y
same_check true e f h = cc
same_check false e f h = f h

-- the same for a value that has to be there
pub same_for :
    {A : Type 0} (o : Option String) (f g : String → Result HandoffError A) {x y : A}
    → ((c : String) → f c ≡ ok x → g c ≡ ok y)
    → (elim o [ none ↦ err correlation_context_required | some c ↦ f c ]) ≡ ok x
    → (elim o [ none ↦ err correlation_context_required | some c ↦ g c ]) ≡ ok y
same_for none f g k h = cc
same_for (some c) f g k h = k c h

pub some_for :
    {A : Type 0} (o : Option String) (f : String → Result HandoffError A) {x : A}
    → (elim o [ none ↦ err correlation_context_required | some c ↦ f c ]) ≡ ok x
    → (c : String) × (o ≡ some c) × (f c ≡ ok x)
some_for none f h = cc
some_for (some c) f h = (c, refl, h)
