-- ===== src/Jobs/Repository/Candidates.antt =====
-- jobs/postgresql.py: the rows that `PostgresJobRepository.claim` may take and their order.
use Prim.Native.String.{compare as compare_text}
use Prim.Native.Nat.{Ordering}
use decision_assurance.Prelude.{
  ℕ, String, Bool, true, false, not, ◌&&◌, Option, none, some, List, [], ◌∷◌, ltb, leb, ◌==◌,
  or_default, count_if, if◌then◌else◌,
}
use decision_assurance.Jobs.Contracts.{Instant}
use decision_assurance.Jobs.Store.{Row, Db, is_running, is_waiting}

-- the jobs of a tenant that run
abbrev pub running_count : String → List Row → ℕ
running_count tenant = count_if (λ r. r.tenant_id == tenant && is_running r.status)

abbrev pub concurrency_limit : String → Db → ℕ
concurrency_limit tenant db = or_default (db.limits tenant) 2

-- What the statement of a claim sees of the table while other transactions are open: the rows that
-- they have locked, which SKIP LOCKED passes over, and the rows that `count(*)` counts, those that were
-- committed when the statement began.
pub record View : Type 0 where
  pub is_locked : Row → Bool
  pub counted : List Row → List Row

-- the WHERE clause of `candidate`, with FOR UPDATE OF job SKIP LOCKED
abbrev pub is_candidate : View → Db → Instant → Row → Bool
is_candidate view db now r =
    is_waiting r.status
    && leb r.available_at now
    && ltb (running_count r.tenant_id (view.counted db.jobs)) (concurrency_limit r.tenant_id db)
    && not (view.is_locked r)

abbrev pub then_compare : Ordering → Bool → Bool
then_compare Ordering.lt rest = true
then_compare Ordering.eq rest = rest
then_compare Ordering.gt rest = false

-- ORDER BY available_at, created_at, tenant_id, job_id
unfoldable pub is_before : Row → Row → Bool
is_before a b =
    if ltb a.available_at b.available_at
    then true
    else if ltb b.available_at a.available_at
    then false
    else if ltb a.created_at b.created_at
    then true
    else if ltb b.created_at a.created_at
    then false
    else then_compare (compare_text a.tenant_id b.tenant_id)
        (then_compare (compare_text a.job_id b.job_id) false)

unfoldable pub earlier : Row → Option Row → Option Row
unfolding is_before
earlier r none = some r
earlier r (some s) = if is_before s r then some s else some r

-- the first row of a list in that order: LIMIT 1
unfoldable pub first_in_order : List Row → Option Row
unfolding earlier
first_in_order [] = none
first_in_order (r ∷ rs) = earlier r (first_in_order rs)
