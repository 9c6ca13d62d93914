-- ===== src/Research/Orchestrator/Tables.antt =====
-- What a saved run and a reservation of the budget change in the tables (web_research/repository.py).
use decision_assurance.Prelude.{
  ℕ, ◌+◌, ◌≤◌, ◌≡◌, refl, sym, ap, String, Bool, Option, none, some, List, [], ◌∷◌, All, if_cases,
  arith, count_if, find_first, leb, update_where, ok, err, ok_inj, raise_if, raise_if-eq-ok,
  >>=-eq-ok, ◌>>◌,
}
use mathlib.Core.Path.{subst}
use decision_assurance.Research.Runs.{ResearchRun}
use decision_assurance.Research.Repository.{
  BudgetRow, Called, ResearchDb, is_budget, reserve_budget, save, save_parts, save_events,
  integrity_error, tenant_mismatch, run_not_found, budget_exceeded, is_run,
}
use decision_assurance.Research.Orchestrator.State.{update_last}

pub count_if-update_last :
    {A : Type 0} (p : A → Bool) (f : A → A) (xs : List A)
    → ((x : A) → p (f x) ≡ p x)
    → count_if p (update_last f xs) ≡ count_if p xs
count_if-update_last p f [] h = refl
count_if-update_last p f (x ∷ []) h = rw (h x) refl
count_if-update_last p f (x ∷ y ∷ xs) h = rw (count_if-update_last p f (y ∷ xs) h) refl

-- the statements of `save` leave the budget, and of the runs all but the one saved
pub save_parts-tables :
    (tenant : String) (run : ResearchRun) (db db' : ResearchDb)
    → save_parts tenant run db ≡ ok (tt, db')
    → (db'.runs ≡ db.runs) × (db'.budget ≡ db.budget)
unfolding save_parts
save_parts-tables tenant run db db' h =
    let (_, h1) = raise_if-eq-ok _ integrity_error _ h in
    let (events, _, h2) =
      >>=-eq-ok (save_events tenant run.research_run_id 1 run.audit_events db.audit_events) _ h1 in
    let e = ok_inj _ (tt, db') h2 in
    (
      sym (ap (λ (p : Unit {0} × ResearchDb). p.1.runs) e),
      sym (ap (λ (p : Unit {0} × ResearchDb). p.1.budget) e),
    )

pub save-tables :
    (tenant : String) (run : ResearchRun) (db db' : ResearchDb)
    → save tenant run db ≡ ok (tt, db')
    → (db'.runs
        ≡ update_where
            (is_run tenant run.research_run_id)
            (λ row. record row { run = run })
            db.runs)
      × (db'.budget ≡ db.budget)
unfolding save
save-tables tenant run db db' h =
    let (_, h1) = raise_if-eq-ok _ tenant_mismatch _ h in
    let (_, h2) = raise_if-eq-ok _ run_not_found _ h1 in save_parts-tables tenant run _ db' h2

pub All-update_where :
    {A : Type 0} (P : A → Type 0) (q : A → Bool) (f : A → A) (xs : List A)
    → ((x : A) → P x → P (f x))
    → All P xs
    → All P (update_where q f xs)
All-update_where P q f [] k h = tt
All-update_where P q f (x ∷ xs) k h =
    (if_cases P (q x) (f x) x (λ _. k x h.0) (λ _. h.0), All-update_where P q f xs k h.1)

pub reserved_cases :
    (found : Option BudgetRow) (p : BudgetRow → Bool) (limit : ℕ) (db : ResearchDb) {used : ℕ}
    {db' : ResearchDb}
    → All (λ (row : BudgetRow). row.used_units ≤ limit) db.budget
    → ◌≡◌ {A = Called ℕ}
        (elim found [
          | none ↦ err run_not_found
          | some row ↦
              raise_if (leb limit row.used_units) budget_exceeded
              >> ok (
                row.used_units + 1,
                record db {
                  budget =
                      update_where p (λ r. record r { used_units = row.used_units + 1 }) db.budget;
                },
              )
        ])
        (ok (used, db'))
    → (used ≤ limit)
      × All (λ (row : BudgetRow). row.used_units ≤ limit) db'.budget
      × (db'.runs ≡ db.runs)
reserved_cases none p limit db h e = cc
reserved_cases (some row) p limit db {used} {db'} h e =
    let (free, e1) = raise_if-eq-ok (leb limit row.used_units) budget_exceeded _ e in
    let within : row.used_units + 1 ≤ limit = ground (arith, free) in
    let same = ok_inj _ (used, db') e1 in
    subst
      (λ (q : ℕ × ResearchDb).
        (q.0 ≤ limit)
        × All (λ (row : BudgetRow). row.used_units ≤ limit) q.1.budget
        × (q.1.runs ≡ db.runs))
      same
      (
        within,
        All-update_where _ p (λ r. record r { used_units = row.used_units + 1 }) db.budget
            (λ _ _. within) h,
        refl,
      )

-- a reservation stays within the limit, and so do all rows
pub reserve_budget-ok :
    (tenant run_id : String) (limit : ℕ) (db : ResearchDb) {used : ℕ} {db' : ResearchDb}
    → All (λ (row : BudgetRow). row.used_units ≤ limit) db.budget
    → reserve_budget tenant run_id limit db ≡ ok (used, db')
    → (used ≤ limit)
      × All (λ (row : BudgetRow). row.used_units ≤ limit) db'.budget
      × (db'.runs ≡ db.runs)
unfolding reserve_budget
reserve_budget-ok tenant run_id limit db {used} {db'} h e =
    reserved_cases (find_first (is_budget tenant run_id) db.budget) (is_budget tenant run_id) limit
      db h e
