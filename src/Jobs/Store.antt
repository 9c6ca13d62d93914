-- ===== src/Jobs/Store.antt =====
-- The tables `research_jobs` and `research_job_events` that jobs/postgresql.py works on
-- (migrations/postgresql/002_production_foundation_v0_5.sql), and the SQL statements over them.
-- A repository call is one transaction: it gives a result with the new tables, or an exception,
-- after which PostgreSQL has rolled back and the tables are as they were.
use decision_assurance.Prelude.{
  ℕ, ◌+◌, String, Bool, true, false, ◌&&◌, Option, none, some, List, [], ◌∷◌, ◌++◌, max, ◌==◌, any,
  find_first, if◌then◌else◌, Result, ok, err, ◌⧺◌, decimal,
}
use decision_assurance.Jobs.Contracts.{
  JobStatus, queued, running, retry_wait, ContractError, Instant, ResearchJob, check_job,
}
use decision_assurance.Jobs.Lifecycle.{LifecycleError}

-- a row of `research_jobs`
pub record Row : Type 0 where
  pub job : ResearchJob
  pub open job use *
  pub last_error_code : Option String

pub record JobEvent : Type 0 where
  pub tenant_id : String
  pub job_id : String
  pub event_id : String
  pub sequence : ℕ
  pub event_type : String
  pub research_run_id : String
  pub correlation_id : String
  pub occurred_at : Instant
  pub worker_id : Option String
  pub reason_code : Option String

-- `runs` holds the keys of `research_runs`, to which a job refers; `limits` is the column
-- `max_concurrent_jobs` of `tenant_runtime_limits`.
pub record Db : Type 0 where
  pub jobs : List Row
  pub events : List JobEvent
  pub runs : List (String × String)
  pub limits : String → Option ℕ

pub data JobError : Type 0 where
  contract : ContractError → JobError
  lifecycle : LifecycleError → JobError
  invalid_job_enqueue convergence_failed job_payload_conflict : JobError
  unique_violation foreign_key_violation : JobError
  job_not_found job_not_retryable : JobError
  invalid_worker_id lease_rejected invalid_job_failure_reason : JobError
  update_failed : JobError

-- a transaction
abbrev pub Tx {ℓ} : Type ℓ → Type ℓ
Tx A = Db → Result JobError (A × Db)

infixl 5 ◌>>=◌ ◌>>◌
unfoldable pub ◌>>=◌ {ℓ κ} : {A : Type ℓ} {B : Type κ} → Tx A → (A → Tx B) → Tx B
◌>>=◌ m f db = elim (m db) [ ok (a, db') ↦ f a db' | err e ↦ err e ]

abbrev pub ◌>>◌ {ℓ} : {B : Type ℓ} → Tx (Unit {0}) → Tx B → Tx B
m >> k = m >>= λ _. k

abbrev pub pure {ℓ} : {A : Type ℓ} → A → Tx A
pure a db = ok (a, db)

abbrev pub raise {ℓ} : {A : Type ℓ} → JobError → Tx A
raise e db = err e

abbrev pub gets {ℓ} : {A : Type ℓ} → (Db → A) → Tx A
gets f db = ok (f db, db)

abbrev pub lift_contract {ℓ} : {A : Type ℓ} → Result ContractError A → Tx A
lift_contract (ok a) db = ok (a, db)
lift_contract (err e) db = err (contract e)

abbrev pub lift_lifecycle {ℓ} : {A : Type ℓ} → Result LifecycleError A → Tx A
lift_lifecycle (ok a) db = ok (a, db)
lift_lifecycle (err e) db = err (lifecycle e)

-- `if row is None: raise error`
abbrev pub or_raise {ℓ} : {A : Type ℓ} → Option A → JobError → Tx A
or_raise none e db = err e
or_raise (some a) e db = ok (a, db)

abbrev pub is_running : JobStatus → Bool
is_running running = true
is_running _ = false

abbrev pub is_waiting : JobStatus → Bool
is_waiting queued = true
is_waiting retry_wait = true
is_waiting _ = false

-- WHERE tenant_id = … AND job_id = …
abbrev pub has_key : String → String → Row → Bool
has_key tenant job_id r = r.tenant_id == tenant && r.job_id == job_id

-- WHERE tenant_id = … AND research_run_id = …
abbrev pub has_run : String → String → Row → Bool
has_run tenant run_id r = r.tenant_id == tenant && r.research_run_id == run_id

-- UPDATE research_jobs SET … WHERE …
unfoldable pub update_where : (Row → Bool) → (Row → Row) → List Row → List Row
update_where p f [] = []
update_where p f (r ∷ rs) = (if p r then f r else r) ∷ update_where p f rs

-- RETURNING *, read by `fetchone`
abbrev pub returning : (Row → Bool) → (Row → Row) → List Row → Option Row
returning p f rs = elim (find_first p rs) [ none ↦ none | some r ↦ some (f r) ]

-- an UPDATE … RETURNING * with its `fetchone`
unfoldable pub update_returning : (Row → Bool) → (Row → Row) → Tx (Option Row)
unfolding update_where
update_returning p f db = ok (returning p f db.jobs, record db { jobs = update_where p f db.jobs })

-- `_row_to_job`: the dataclass checks what it is built from
unfoldable pub row_to_job : Row → Tx ResearchJob
unfolding check_job
row_to_job r = lift_contract (check_job r.job)

abbrev pub of_job : String → String → JobEvent → Bool
of_job tenant job_id e = e.tenant_id == tenant && e.job_id == job_id

-- SELECT COALESCE(MAX(sequence), 0)
unfoldable pub max_sequence : String → String → List JobEvent → ℕ
max_sequence tenant job_id [] = 0
max_sequence tenant job_id (e ∷ es) =
    let rest = max_sequence tenant job_id es in
    if of_job tenant job_id e then max e.sequence rest else rest

-- the primary key (tenant_id, job_id, event_id) is taken
abbrev pub is_recorded : JobEvent → List JobEvent → Bool
is_recorded event = any (λ e. of_job event.tenant_id event.job_id e && e.event_id == event.event_id)

-- INSERT INTO research_job_events … ON CONFLICT (tenant_id, job_id, event_id) DO NOTHING
unfoldable pub insert_event : JobEvent → Tx (Unit {0})
insert_event event db =
    if is_recorded event db.events
    then ok (tt, db)
    else ok (tt, record db { events = db.events ++ event ∷ [] })

abbrev pub event_id_text : String → ℕ → String
event_id_text job_id sequence = job_id ⧺ ":" ⧺ decimal sequence

-- the event that `_append_event` builds
abbrev pub next_event :
    ResearchJob → String → Instant → Option String → Option String → List JobEvent → JobEvent
next_event job event_type occurred_at worker_id reason_code events =
    let sequence = max_sequence job.tenant_id job.job_id events + 1 in
    record {
      tenant_id = job.tenant_id;
      job_id = job.job_id;
      event_id = event_id_text job.job_id sequence;
      sequence = sequence;
      event_type = event_type;
      research_run_id = job.research_run_id;
      correlation_id = job.correlation_id;
      occurred_at = occurred_at;
      worker_id = worker_id;
      reason_code = reason_code;
    }

-- `_append_event`
unfoldable pub append_event :
    ResearchJob → String → Instant → Option String → Option String → Tx (Unit {0})
unfolding max_sequence insert_event
append_event job event_type occurred_at worker_id reason_code db =
    insert_event (next_event job event_type occurred_at worker_id reason_code db.events) db
