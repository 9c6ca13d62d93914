-- ===== src/Jobs/Invariant.antt =====
-- The invariant of the queue, kept by every call of the repository.
pub mod Calls
pub mod Leases
pub mod Recovery
use decision_assurance.Prelude.{
  ℕ, zero, suc, ◌+◌, ◌≤◌, ◌<◌, String, ◌≡◌, refl, sym, ap, ◌∙◌, Bool, true, false, ◌&&◌, Option,
  none, some, List, [], ◌∷◌, ◌++◌, arith, ◌==◌, eq_iff, eq_refl, any, All, All-append, All-map,
  find_first, find_first_lem, is_some, if◌then◌else◌, Bool-cases, Option-cases, inl, inr, ltb,
  ltb→lt, &&-eq-true, keep,
}
use decision_assurance.Jobs.Contracts.{
  JobStatus, queued, running, retry_wait, completed, partial, failed, cancelled, dead_letter,
  JobPolicy, Instant, ResearchJob,
}
use decision_assurance.Jobs.Store.{
  Row, Db, Tx, ◌>>=◌, pure, raise, is_running, is_waiting, has_key, has_run, update_where,
  update_returning, row_to_job, insert_event, append_event, is_recorded, next_event, JobEvent,
  job_not_found, job_not_retryable, invalid_worker_id, lease_rejected, convergence_failed,
  job_payload_conflict, invalid_job_enqueue, update_failed, invalid_job_failure_reason,
}
use decision_assurance.Jobs.Rows.{
  UniqueKeys, KeepsKey, IsOnly, All-update_only, All-update_where, UniqueKeys-update_where,
}
use decision_assurance.Jobs.Keeps.{
  Post, Keeps, Keeps-pure, Keeps-raise, Keeps-or_raise, Keeps-lift_contract, Keeps-if, Keeps-from,
  Keeps-bind, Keeps-gets, Keeps-required,
}
use decision_assurance.Jobs.Repository.{new_row, insert_job, enqueue, note_insert}

-- What holds of a row when at most `m` attempts are allowed.
pub record RowOk (m : ℕ) (r : Row) : Type 0 where
  pub leased :
      is_running r.status ≡ true
      → (is_some r.lease_token_hash ≡ true)
        × (is_some r.lease_expires_at ≡ true)
        × (1 ≤ r.attempt_count)
  pub idle : is_running r.status ≡ false → (r.lease_token_hash ≡ none) × (r.lease_expires_at ≡ none)
  pub waiting : is_waiting r.status ≡ true → r.attempt_count < m
  pub bounded : r.attempt_count ≤ m

pub record IsValid (m : ℕ) (db : Db) : Type 0 where
  pub rows_ok : All (RowOk m) db.jobs
  pub keys_unique : UniqueKeys db.jobs

-- A property of the rows alone is kept by an event.
module _ {ℓ} (Q : List Row → Type ℓ) where
  insert_event-rows : (e : JobEvent) (db : Db) → Keeps (λ d. Q d.jobs) (insert_event e) db
  unfolding insert_event
  insert_event-rows e db = record {
    at = λ v. elim (Bool-cases (is_recorded e db.events)) [ inl h ↦ rw h v | inr h ↦ rw h v ];
  }

  pub append_event-rows :
      (job : ResearchJob) (event_type : String) (now : Instant) (w r : Option String) (db : Db)
      → Keeps (λ d. Q d.jobs) (append_event job event_type now w r) db
  unfolding append_event
  append_event-rows job event_type now w r db = record {
    at = (insert_event-rows (next_event job event_type now w r db.events) db).at;
  }

module _ (m : ℕ) where
  insert_event-IsValid : (e : JobEvent) (db : Db) → Keeps (IsValid m) (insert_event e) db
  unfolding insert_event
  insert_event-IsValid e db = record {
    at = λ v. elim (Bool-cases (is_recorded e db.events)) [
      | inl h ↦ rw h v
      | inr h ↦ rw h (record { rows_ok = v.rows_ok; keys_unique = v.keys_unique })
    ];
  }

  pub append_event-IsValid :
      (job : ResearchJob) (event_type : String) (now : Instant) (w r : Option String) (db : Db)
      → Keeps (IsValid m) (append_event job event_type now w r) db
  unfolding append_event
  append_event-IsValid job event_type now w r db = record {
    at = (insert_event-IsValid (next_event job event_type now w r db.events) db).at;
  }

  pub row_to_job-IsValid : (r : Row) (db : Db) → Keeps (IsValid m) (row_to_job r) db
  unfolding row_to_job
  row_to_job-IsValid r db = Keeps-lift_contract _ db

  -- An update keeps the invariant, if what it makes of each matching row is in order.
  pub update_returning-IsValid :
      (p : Row → Bool) (f : Row → Row) (db : Db)
      → KeepsKey f
      → ((r : Row) → p r ≡ true → RowOk m r → RowOk m (f r))
      → Keeps (IsValid m) (update_returning p f) db
  unfolding update_returning
  update_returning-IsValid p f db k h = record {
    at = λ v. record {
      rows_ok = All-update_where (RowOk m) p f db.jobs h v.rows_ok;
      keys_unique = UniqueKeys-update_where p f db.jobs k v.keys_unique;
    };
  }

  -- So does an update of the one row with a key.
  pub update_one-IsValid :
      (t j : String) (c : Row) (f : Row → Row) (db : Db)
      → KeepsKey f
      → has_key t j c ≡ true
      → IsOnly db.jobs c
      → RowOk m (f c)
      → Keeps (IsValid m) (update_returning (has_key t j) f) db
  unfolding update_returning
  update_one-IsValid t j c f db k key only ok_c = record {
    at = λ v. record {
      rows_ok = All-update_only (RowOk m) t j c f db.jobs key ok_c only v.rows_ok;
      keys_unique = UniqueKeys-update_where (has_key t j) f db.jobs k v.keys_unique;
    };
  }
