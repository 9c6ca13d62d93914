-- ===== src/Jobs/Invariant/Calls.antt =====
-- Each repository call keeps the invariant of the queue.
use mathlib.Core.Path.{subst}
use decision_assurance.Prelude.{
  ℕ, ◌<◌, String, ◌≡◌, refl, Bool, true, false, not, ◌||◌, Option, none, some, List, [], ◌∷◌, arith,
  ◌==◌, any, All, All-append, some_inj, Bool-cases, inl, inr,
}
use decision_assurance.Jobs.Contracts.{JobStatus, cancelled, Instant, ResearchJob}
use decision_assurance.Jobs.Store.{
  Row, Db, pure, raise, is_running, is_waiting, has_key, has_run, ◌>>=◌, job_payload_conflict,
  invalid_job_enqueue,
}
use decision_assurance.Jobs.Rows.{UniqueKeys-append}
use decision_assurance.Jobs.Keeps.{
  Keeps, Keeps-pure, Keeps-raise, Keeps-if, Keeps-bind, Keeps-gets, Keeps-required,
}
use decision_assurance.Jobs.Repository.{
  new_row, insert_job, enqueue, note_insert, settle_insert, enqueue_tx, run_exists, cancel,
  stop_job, record_requeue, requeue, refuse_requeue, requeued, finished, is_terminal,
  first_in_order, earlier, is_before, is_queued,
}
use decision_assurance.Jobs.Invariant.{
  RowOk, IsValid, append_event-IsValid, row_to_job-IsValid, update_returning-IsValid,
}

earlier_lem {κ} :
    (P : Row → Type κ) (r : Row) (o : Option Row) {c : Row}
    → P r
    → ((s : Row) → o ≡ some s → P s)
    → earlier r o ≡ some c
    → P c
unfolding earlier
earlier_lem P r none {c} hr hs e = subst P (some_inj r c e) hr
earlier_lem P r (some s) {c} hr hs e = elim (Bool-cases (is_before s r)) [
  | inl b ↦ subst P (some_inj s c (rw b at e)) (hs s refl)
  | inr b ↦ subst P (some_inj r c (rw b at e)) hr
]

-- LIMIT 1 gives one of the rows.
pub first_in_order_lem {κ} :
    (P : Row → Type κ) (rs : List Row) {c : Row} → All P rs → first_in_order rs ≡ some c → P c
unfolding first_in_order
first_in_order_lem P [] h e = ground arith
first_in_order_lem P (r ∷ rs) h e =
    earlier_lem P r (first_in_order rs) h.0 (λ s f. first_in_order_lem P rs h.1 f) e

module _ (m : ℕ) where
  note_insert-IsValid :
      (b : Bool) (job : ResearchJob) (now : Instant) (db : Db)
      → Keeps (IsValid m) (note_insert b job now) db
  unfolding note_insert
  note_insert-IsValid true job now db = append_event-IsValid m job "JOB_QUEUED" now none none db
  note_insert-IsValid false job now db = Keeps-pure tt db

  new_row-RowOk :
      (t : String) (job : ResearchJob)
      → is_queued job.status ≡ true
      → job.attempt_count < m
      → RowOk m (new_row t job)
  new_row-RowOk t job q fresh = ground arith

  insert_job-IsValid :
      (t : String) (job : ResearchJob) (db : Db)
      → is_queued job.status ≡ true
      → job.attempt_count < m
      → Keeps (IsValid m) (insert_job t job) db
  unfolding insert_job
  insert_job-IsValid t job db q fresh = record {
    at = λ v. elim (Bool-cases (any (has_run t job.research_run_id) db.jobs)) [
      | inl e ↦ rw e v
      | inr e ↦ elim (Bool-cases (any (has_key t job.job_id) db.jobs)) [
        | inl k ↦ rw (e, k) tt
        | inr k ↦ elim (Bool-cases (run_exists t job.research_run_id db)) [
          | inl f ↦
              rw (e, k, f)
                (record {
                  rows_ok =
                      All-append (RowOk m) db.jobs (new_row t job ∷ []) v.rows_ok
                        (new_row-RowOk t job q fresh, tt);
                  keys_unique = UniqueKeys-append db.jobs (new_row t job) k v.keys_unique;
                })
          | inr f ↦ rw (e, k, f) tt
        ]
      ]
    ];
  }

  settle_insert-IsValid :
      (b : Bool) (job existing : ResearchJob) (db : Db)
      → Keeps (IsValid m) (settle_insert b job existing) db
  unfolding settle_insert
  settle_insert-IsValid b job existing db =
      Keeps-if (not (existing.payload_hash == job.payload_hash)) (raise job_payload_conflict)
        (note_insert b existing job.updated_at >>= λ _. pure existing) db
        (λ _. Keeps-raise job_payload_conflict db)
        λ _.
          Keeps-bind _ _ db (note_insert-IsValid b existing job.updated_at db)
            λ _ d _. Keeps-pure existing d

  -- A call of `enqueue` with attempts to spare keeps the invariant.
  pub enqueue-IsValid :
      (t : String) (job : ResearchJob) (db : Db)
      → job.attempt_count < m
      → Keeps (IsValid m) (enqueue t job) db
  unfolding enqueue enqueue_tx
  enqueue-IsValid t job db fresh =
      Keeps-if (not (t == job.tenant_id) || not (is_queued job.status)) (raise invalid_job_enqueue)
        (enqueue_tx t job) db (λ bad. Keeps-raise invalid_job_enqueue db)
        λ good.
          Keeps-bind _ _ db (insert_job-IsValid t job db (ground arith) fresh) λ inserted db' _.
            Keeps-gets _ _ db' (
              Keeps-required _ _ _ db' λ row _.
                Keeps-bind _ _ db' (row_to_job-IsValid m row db')
                  λ existing db'' _. settle_insert-IsValid inserted job existing db'')

  requeued-RowOk :
      (c : String) (now : Instant) (r : Row) → 0 < m → RowOk m r → RowOk m (requeued c now r)
  requeued-RowOk c now r pos_m h = ground arith

  refuse_requeue-IsValid : (b : Bool) (db : Db) → Keeps (IsValid m) (refuse_requeue b) db
  unfolding refuse_requeue
  refuse_requeue-IsValid true db = Keeps-raise _ db
  refuse_requeue-IsValid false db = Keeps-raise _ db

  record_requeue-IsValid :
      (t j : String) (now : Instant) (o : Option Row) (db : Db)
      → Keeps (IsValid m) (record_requeue t j now o) db
  unfolding record_requeue
  record_requeue-IsValid t j now none db = Keeps-gets _ _ db (refuse_requeue-IsValid _ db)
  record_requeue-IsValid t j now (some r) db =
      Keeps-bind _ _ db (row_to_job-IsValid m r db) λ job d _.
        Keeps-bind _ _ d (append_event-IsValid m job _ now none none d) λ _ d' _. Keeps-pure job d'

  pub requeue-IsValid :
      (t j c : String) (now : Instant) (db : Db) → 0 < m → Keeps (IsValid m) (requeue t j c now) db
  unfolding requeue
  requeue-IsValid t j c now db pos_m =
      Keeps-bind _ _ db
        (update_returning-IsValid m _ (requeued c now) db (λ r. (refl, refl))
          λ r _ h. requeued-RowOk c now r pos_m h)
        λ o d _. record_requeue-IsValid t j now o d

  pub finished-RowOk :
      (target : JobStatus) (now : Instant) (r : Row)
      → is_running target ≡ false
      → is_waiting target ≡ false
      → RowOk m r
      → RowOk m (finished target now r)
  finished-RowOk target now r a b h = ground arith

  stop_job-IsValid :
      (t j : String) (now : Instant) (db : Db) → Keeps (IsValid m) (stop_job t j now) db
  unfolding stop_job
  stop_job-IsValid t j now db =
      Keeps-bind _ _ db
        (update_returning-IsValid m _ (finished cancelled now) db (λ r. (refl, refl))
          λ r _ h. finished-RowOk cancelled now r refl refl h)
        λ o d _. Keeps-required _ _ _ d λ r _.
          Keeps-bind _ _ d (row_to_job-IsValid m r d) λ job d' _.
            Keeps-bind _ _ d' (append_event-IsValid m job _ now none none d')
              λ _ d'' _. Keeps-pure job d''

  pub cancel-IsValid :
      (t j : String) (now : Instant) (db : Db) → Keeps (IsValid m) (cancel t j now) db
  unfolding cancel
  cancel-IsValid t j now db = Keeps-gets _ _ db (
      Keeps-required _ _ _ db λ current _.
        Keeps-bind _ _ db (row_to_job-IsValid m current db) λ job d _.
          Keeps-if (is_terminal job.status) (pure job) (stop_job t j now) d (λ _. Keeps-pure job d)
            λ _. stop_job-IsValid t j now d)
