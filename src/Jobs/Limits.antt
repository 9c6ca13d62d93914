-- ===== src/Jobs/Limits.antt =====
-- jobs/postgresql.py: `PostgresJobRepository.claim` and the concurrency limits of the tenants.
pub mod Calls
use decision_assurance.Prelude.{
  ℕ, zero, suc, ◌+◌, ◌≤◌, ◌<◌, String, ◌≡◌, refl, sym, ap, ◌∙◌, Bool, true, false, ◌&&◌, Option,
  none, some, List, [], ◌∷◌, arith, ◌==◌, eq_iff, any, keep, Bool-cases, Option-cases, inl, inr,
  ltb, ltb→lt, count_if, is_blank, All, ok, err,
}
use decision_assurance.Jobs.Contracts.{JobPolicy, Instant, ResearchJob, check_lease_token}
use decision_assurance.Jobs.Store.{
  Row, Db, Tx, ◌>>=◌, pure, raise, has_key, update_where, update_returning, row_to_job,
  insert_event, append_event, is_recorded, next_event, JobEvent, invalid_worker_id, is_running,
}
use decision_assurance.Jobs.Rows.{UniqueKeys, KeepsKey, UniqueKeys-update_where, has_key_eq}
use decision_assurance.Jobs.Keeps.{
  Post, Keeps, Keeps-pure, Keeps-raise, Keeps-lift_contract, Keeps-if, Keeps-from, Keeps-bind,
  Keeps-gets,
}
use decision_assurance.Jobs.Repository
use decision_assurance.Jobs.Repository.{
  View, running_count, concurrency_limit, is_candidate, first_in_order,
}
use decision_assurance.Jobs.Invariant.Calls.{first_in_order_lem}

-- No tenant runs more jobs than its limit allows, and job keys are unique.
pub record IsWithinLimits (db : Db) : Type 0 where
  pub unique : UniqueKeys db.jobs
  pub within : (t : String) → running_count t db.jobs ≤ concurrency_limit t db

update_where-id :
    (p : Row → Bool) (f : Row → Row) (rs : List Row) → any p rs ≡ false → update_where p f rs ≡ rs
unfolding update_where
update_where-id p f [] h = refl
update_where-id p f (r ∷ rs) h = elim (Bool-cases (p r)) [
  | inl e ↦ ground arith
  | inr e ↦ rw (e, update_where-id p f rs (ground arith)) refl
]

abbrev runs_for : String → Row → Bool
runs_for t r = r.tenant_id == t && is_running r.status

-- An update of the row with a key adds at most one to the running jobs of a tenant.
count-update_where :
    (t ct cj : String) (f : Row → Row) (rs : List Row)
    → UniqueKeys rs
    → ((r : Row) → has_key ct cj r ≡ true → has_key r.tenant_id r.job_id ≡ has_key ct cj)
    → count_if (runs_for t) (update_where (has_key ct cj) f rs) ≤ suc (count_if (runs_for t) rs)
unfolding update_where
count-update_where t ct cj f [] u k = omega arith
count-update_where t ct cj f (r ∷ rs) u k = elim (Bool-cases (has_key ct cj r)) [
  | inl e ↦
      rw (e, update_where-id (has_key ct cj) f rs (ap (λ p. any p rs) (sym (k r e)) ∙ u.0))
        (ground arith)
  | inr e ↦ rw e (ground (arith, count-update_where t ct cj f rs u.1 k))
]

-- It leaves the counts of other tenants alone.
count-update_where-other :
    (t ct cj : String) (f : Row → Row) (rs : List Row)
    → ((r : Row) → (f r).tenant_id ≡ r.tenant_id)
    → (ct == t) ≡ false
    → count_if (runs_for t) (update_where (has_key ct cj) f rs) ≡ count_if (runs_for t) rs
unfolding update_where
count-update_where-other t ct cj f [] k other = refl
count-update_where-other t ct cj f (r ∷ rs) k other = elim (Bool-cases (has_key ct cj r)) [
  | inl e ↦
      rw (e, k r, (has_key_eq ct cj r e).0, other, count-update_where-other t ct cj f rs k other)
        refl
  | inr e ↦ rw (e, count-update_where-other t ct cj f rs k other) refl
]

key_of :
    (ct cj : String) (r : Row)
    → has_key ct cj r ≡ true
    → has_key r.tenant_id r.job_id ≡ has_key ct cj
key_of ct cj r h = rw ((has_key_eq ct cj r h).0, (has_key_eq ct cj r h).1) refl

All-kept : (p : Row → Bool) (rs : List Row) → All (λ r. p r ≡ true) (keep p rs)
All-kept p [] = tt
All-kept p (r ∷ rs) = elim (Bool-cases (p r)) [
  | inl e ↦ rw e (e, All-kept p rs)
  | inr e ↦ rw e (All-kept p rs)
]

insert_event-IsWithinLimits : (e : JobEvent) (db : Db) → Keeps IsWithinLimits (insert_event e) db
unfolding insert_event
insert_event-IsWithinLimits e db = record {
  at = λ v. elim (Bool-cases (is_recorded e db.events)) [
    | inl h ↦ rw h v
    | inr h ↦ rw h (record { unique = v.unique; within = v.within })
  ];
}

pub append_event-IsWithinLimits :
    (job : ResearchJob) (event_type : String) (now : Instant) (w r : Option String) (db : Db)
    → Keeps IsWithinLimits (append_event job event_type now w r) db
unfolding append_event
append_event-IsWithinLimits job event_type now w r db = record {
  at = (insert_event-IsWithinLimits (next_event job event_type now w r db.events) db).at;
}

pub row_to_job-IsWithinLimits : (r : Row) (db : Db) → Keeps IsWithinLimits (row_to_job r) db
unfolding row_to_job
row_to_job-IsWithinLimits r db = Keeps-lift_contract _ db

-- An update that sets no job running keeps the limits.
count-update_where-stops :
    (t : String) (p : Row → Bool) (f : Row → Row) (rs : List Row)
    → KeepsKey f
    → ((r : Row) → p r ≡ true → is_running (f r).status ≡ true → is_running r.status ≡ true)
    → count_if (runs_for t) (update_where p f rs) ≤ count_if (runs_for t) rs
unfolding update_where
count-update_where-stops t p f [] k stops = omega arith
count-update_where-stops t p f (r ∷ rs) k stops = elim (Bool-cases (p r)) [
  | inl e ↦ rw (e, (k r).0) (ground (arith, stops r e, count-update_where-stops t p f rs k stops))
  | inr e ↦ rw e (ground (arith, count-update_where-stops t p f rs k stops))
]

pub update_where-IsWithinLimits :
    (p : Row → Bool) (f : Row → Row) (db : Db)
    → KeepsKey f
    → ((r : Row) → p r ≡ true → is_running (f r).status ≡ true → is_running r.status ≡ true)
    → IsWithinLimits db
    → IsWithinLimits (record db { jobs = update_where p f db.jobs })
update_where-IsWithinLimits p f db k stops v = record {
  unique = UniqueKeys-update_where p f db.jobs k v.unique;
  within = λ t. omega (arith, v.within t, count-update_where-stops t p f db.jobs k stops);
}

pub update_returning-IsWithinLimits :
    (p : Row → Bool) (f : Row → Row) (db : Db)
    → KeepsKey f
    → ((r : Row) → p r ≡ true → is_running (f r).status ≡ true → is_running r.status ≡ true)
    → Keeps IsWithinLimits (update_returning p f) db
unfolding update_returning
update_returning-IsWithinLimits p f db k stops = record {
  at = update_where-IsWithinLimits p f db k stops;
}

-- The claim misses no running job: it counts at least as many of each tenant as there are.
abbrev pub SeesRunning : View → Type 0
SeesRunning view =
    (tenant : String) (rows : List Row)
    → running_count tenant rows ≤ running_count tenant (view.counted rows)

-- A candidate's tenant runs fewer jobs than its limit.
candidate_below :
    (view : View) (db : Db) (now : Instant) (c : Row)
    → SeesRunning view
    → is_candidate view db now c ≡ true
    → running_count c.tenant_id db.jobs < concurrency_limit c.tenant_id db
candidate_below view db now c sees h =
    let below =
      ltb→lt (running_count c.tenant_id (view.counted db.jobs)) (concurrency_limit c.tenant_id db)
        (ground arith) in
    omega (arith, sees c.tenant_id db.jobs, below)

-- The update of a candidate keeps the limit of every tenant.
update_candidate :
    (view : View) (now : Instant) (c : Row) (f : Row → Row) (db : Db) (t : String)
    → SeesRunning view
    → ((r : Row) → (f r).tenant_id ≡ r.tenant_id)
    → is_candidate view db now c ≡ true
    → IsWithinLimits db
    → running_count t (update_where (has_key c.tenant_id c.job_id) f db.jobs)
      ≤ concurrency_limit t db
update_candidate view now c f db t sees k h v = elim (Bool-cases (c.tenant_id == t)) [
  | inl e ↦ rw (sym ((eq_iff c.tenant_id t).0 e)) (
      omega (
        arith,
        candidate_below view db now c sees h,
        count-update_where c.tenant_id c.tenant_id c.job_id f db.jobs v.unique
            (key_of c.tenant_id c.job_id),
      ))
  | inr e ↦ rw (count-update_where-other t c.tenant_id c.job_id f db.jobs k e) (v.within t)
]

module _ (sha : String → String) (policy : JobPolicy) where
  claim_row-IsWithinLimits :
      (view : View) (token : String) (now : Instant) (o : Option Row) (db : Db)
      → SeesRunning view
      → o ≡ first_in_order (keep (is_candidate view db now) db.jobs)
      → Keeps IsWithinLimits (Repository.claim_row sha policy token now o) db
  unfolding Repository.claim_row update_returning
  claim_row-IsWithinLimits view token now none db sees e = Keeps-pure none db
  claim_row-IsWithinLimits view token now (some c) db sees e = record {
    at = λ v. record {
      unique =
          UniqueKeys-update_where (has_key c.tenant_id c.job_id)
            (Repository.claimed sha policy token now) db.jobs (λ r. (refl, refl)) v.unique;
      within = λ t.
          update_candidate view now c (Repository.claimed sha policy token now) db t sees
            (λ r. refl)
            (first_in_order_lem (λ r. is_candidate view db now r ≡ true) _
              (All-kept (is_candidate view db now) db.jobs) (sym e))
            v;
    };
  }

  record_claim-IsWithinLimits :
      (w l : String) (now : Instant) (o : Option Row) (db : Db)
      → Keeps IsWithinLimits (Repository.record_claim sha policy w l now o) db
  unfolding Repository.record_claim
  record_claim-IsWithinLimits w l now none db = Keeps-pure none db
  record_claim-IsWithinLimits w l now (some r) db =
      Keeps-bind _ _ db (row_to_job-IsWithinLimits r db) λ job d _.
        Keeps-bind _ _ d (append_event-IsWithinLimits job _ now (some w) none d)
          λ _ d' _. Keeps-pure (some (job, l)) d'

  pub claim-IsWithinLimits :
      (view : View) (w token : String) (now : Instant) (db : Db)
      → SeesRunning view
      → Keeps IsWithinLimits (Repository.claim sha policy view w token now) db
  unfolding Repository.claim Repository.claim_tx
  claim-IsWithinLimits view w token now db sees =
      Keeps-if (is_blank w) (raise invalid_worker_id)
        (Repository.claim_tx sha policy view w token now) db (λ _. Keeps-raise invalid_worker_id db)
        λ _. Keeps-bind _ _ db (Keeps-lift_contract (check_lease_token token) db) λ lease d _.
          Keeps-gets _ _ d (
            Keeps-bind _ _ d (claim_row-IsWithinLimits view lease now _ d sees refl)
              λ row d' _. record_claim-IsWithinLimits w lease now row d')
