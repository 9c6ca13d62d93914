-- ===== src/Jobs/Invariant/Leases.antt =====
-- The calls that take, keep and give back leases keep the invariant of the queue.
use Prim.Native.String.{count}
use mathlib.Core.Path.{subst}
use decision_assurance.Prelude.{
  ℕ, ◌<◌, String, ◌≡◌, refl, sym, Bool, true, false, ◌&&◌, ◌||◌, Option, none, some, arith, ◌==◌,
  All, All-both, All-keep, find_first_lem, if◌then◌else◌, Bool-cases, inl, inr, ltb, keep, ok,
  is_blank, eqb, count_if,
}
use decision_assurance.Jobs.Contracts.{
  JobStatus, retry_wait, failed, dead_letter, JobPolicy, Instant, check_lease_token,
}
use decision_assurance.Jobs.Lifecycle.{retry_delay}
use decision_assurance.Jobs.Store.{
  Row, Db, ◌>>=◌, pure, raise, is_running, is_waiting, has_key, invalid_worker_id,
  invalid_job_failure_reason, lift_lifecycle,
}
use decision_assurance.Jobs.Rows.{
  IsOnly, UniqueKeys-IsOnly, All-update_where, UniqueKeys-update_where, has_key_self,
}
use decision_assurance.Jobs.Keeps.{
  Keeps, Keeps-pure, Keeps-raise, Keeps-lift_contract, Keeps-lift_lifecycle, Keeps-if, Keeps-from,
  Keeps-bind, Keeps-gets, Keeps-required,
}
use decision_assurance.Jobs.Repository
use decision_assurance.Jobs.Repository.{
  finished, released, completion, is_stale, View, is_candidate, first_in_order, expires_after,
  sort_by_lease_end,
}
use decision_assurance.Jobs.Invariant.{
  RowOk, IsValid, append_event-IsValid, row_to_job-IsValid, update_returning-IsValid,
  update_one-IsValid,
}
use decision_assurance.Jobs.Invariant.Calls.{first_in_order_lem, finished-RowOk}

-- A row of a valid table is in order, and the only one with its key.
abbrev pub Known : ℕ → Db → Row → Type 0
Known m db r = IsOnly db.jobs r × RowOk m r

pub All-Known : (m : ℕ) (db : Db) → IsValid m db → All (Known m db) db.jobs
All-Known m db v =
    All-both (IsOnly db.jobs) (RowOk m) db.jobs (UniqueKeys-IsOnly db.jobs v.keys_unique) v.rows_ok

pub released-RowOk :
    (m : ℕ) (target : JobStatus) (delay : ℕ) (reason : String) (now : Instant) (r : Row)
    → is_running target ≡ false
    → (is_waiting target ≡ true → r.attempt_count < m)
    → RowOk m r
    → RowOk m (released target delay reason now r)
released-RowOk m target delay reason now r a b h = ground arith

module _ (sha : String → String) (policy : JobPolicy) where
  abbrev pub limit : ℕ
  limit = policy.max_attempts

  claimed-RowOk :
      (token : String) (now : Instant) (r : Row)
      → is_waiting r.status ≡ true
      → RowOk limit r
      → RowOk limit (Repository.claimed sha policy token now r)
  claimed-RowOk token now r w h = ground arith

  candidate_waits :
      (view : View) (db : Db) (now : Instant) (r : Row)
      → is_candidate view db now r ≡ true
      → is_waiting r.status ≡ true
  candidate_waits view db now r h = ground arith

  claim_row-IsValid :
      (view : View) (token : String) (now : Instant) (o : Option Row) (db : Db)
      → o ≡ first_in_order (keep (is_candidate view db now) db.jobs)
      → Keeps (IsValid limit) (Repository.claim_row sha policy token now o) db
  unfolding Repository.claim_row
  claim_row-IsValid view token now none db e = Keeps-pure none db
  claim_row-IsValid view token now (some c) db e = Keeps-from _ db λ v.
      let (known, candidate) =
        first_in_order_lem (λ r. Known limit db r × (is_candidate view db now r ≡ true)) _
          (All-keep (Known limit db) (is_candidate view db now) db.jobs (All-Known limit db v))
          (sym e) in
      update_one-IsValid limit c.tenant_id c.job_id c (Repository.claimed sha policy token now) db
        (λ r. (refl, refl)) (has_key_self c) known.0
        (claimed-RowOk token now c (candidate_waits view db now c candidate) known.1)

  record_claim-IsValid :
      (w l : String) (now : Instant) (o : Option Row) (db : Db)
      → Keeps (IsValid limit) (Repository.record_claim sha policy w l now o) db
  unfolding Repository.record_claim
  record_claim-IsValid w l now none db = Keeps-pure none db
  record_claim-IsValid w l now (some r) db =
      Keeps-bind _ _ db (row_to_job-IsValid limit r db) λ job d _.
        Keeps-bind _ _ d (append_event-IsValid limit job _ now (some w) none d)
          λ _ d' _. Keeps-pure (some (job, l)) d'

  pub claim-IsValid :
      (view : View) (w token : String) (now : Instant) (db : Db)
      → Keeps (IsValid limit) (Repository.claim sha policy view w token now) db
  unfolding Repository.claim Repository.claim_tx
  claim-IsValid view w token now db =
      Keeps-if (is_blank w) (raise invalid_worker_id)
        (Repository.claim_tx sha policy view w token now) db (λ _. Keeps-raise invalid_worker_id db)
        λ _. Keeps-bind _ _ db (Keeps-lift_contract (check_lease_token token) db) λ lease d _.
          Keeps-gets _ _ d (
            Keeps-bind _ _ d (claim_row-IsValid view lease now _ d refl)
              λ row d' _. record_claim-IsValid w lease now row d')

  renewed-RowOk :
      (now : Instant) (r : Row)
      → is_running r.status ≡ true
      → RowOk limit r
      → RowOk limit (Repository.renewed sha policy now r)
  renewed-RowOk now r w h = ground arith

  held_runs :
      (t j token : String) (now : Instant) (r : Row)
      → Repository.holds_lease sha policy t j token now r ≡ true
      → is_running r.status ≡ true
  held_runs t j token now r h = ground arith

  pub heartbeat-IsValid :
      (t j token : String) (now : Instant) (db : Db)
      → Keeps (IsValid limit) (Repository.heartbeat sha policy t j token now) db
  unfolding Repository.heartbeat
  heartbeat-IsValid t j token now db = record {
    at = λ v.
        let held = Repository.holds_lease sha policy t j token now in
        elim (Bool-cases (eqb (count_if held db.jobs) 1)) [
          | inl e ↦ rw e (record {
            rows_ok =
                All-update_where (RowOk limit) held (Repository.renewed sha policy now) db.jobs
                  (λ r p h. renewed-RowOk now r (held_runs t j token now r p) h) v.rows_ok;
            keys_unique =
                UniqueKeys-update_where held (Repository.renewed sha policy now) db.jobs
                  (λ r. (refl, refl)) v.keys_unique;
          })
          | inr e ↦ rw e tt
        ];
  }

  completion_stops :
      (b : Bool) → (is_running (completion b) ≡ false) × (is_waiting (completion b) ≡ false)
  completion_stops b = ground arith

  pub complete-IsValid :
      (t j token : String) (b : Bool) (now : Instant) (db : Db)
      → Keeps (IsValid limit) (Repository.complete sha policy t j token b now) db
  unfolding Repository.complete
  complete-IsValid t j token b now db =
      Keeps-bind _ _ db
        (update_returning-IsValid limit _ (finished (completion b) now) db (λ r. (refl, refl))
          λ r _ h.
            finished-RowOk limit (completion b) now r (completion_stops b).0 (completion_stops b).1
              h)
        λ o d _. Keeps-required _ _ _ d λ r _.
          Keeps-bind _ _ d (row_to_job-IsValid limit r d)
            λ job d' _. append_event-IsValid limit job _ now none none d'

  -- what `after_failure` has decided is right for the number of attempts
  abbrev pub Decided : ℕ → JobStatus × ℕ → Type 0
  Decided attempts outcome =
      (is_running outcome.0 ≡ false) × (is_waiting outcome.0 ≡ true → attempts < limit)

  pub after_failure_lem :
      (retryable : Bool) (attempts : ℕ) (db db' : Db) (outcome : JobStatus × ℕ)
      → Repository.after_failure sha policy retryable attempts db ≡ ok (outcome, db')
      → Decided attempts outcome
  unfolding Repository.after_failure ◌>>=◌
  after_failure_lem retryable attempts db db' outcome h = ground arith

  pub after_failure_reads :
      (retryable : Bool) (attempts : ℕ) (db db' : Db) (outcome : JobStatus × ℕ)
      → Repository.after_failure sha policy retryable attempts db ≡ ok (outcome, db')
      → db' ≡ db
  unfolding Repository.after_failure ◌>>=◌
  after_failure_reads retryable attempts db db' outcome h = ground arith

  pub after_failure-IsValid :
      (retryable : Bool) (attempts : ℕ) (db : Db)
      → Keeps (IsValid limit) (Repository.after_failure sha policy retryable attempts) db
  unfolding Repository.after_failure
  after_failure-IsValid retryable attempts db =
      Keeps-if (retryable && ltb attempts limit)
        (lift_lifecycle (retry_delay policy attempts) >>= λ delay. pure (retry_wait, delay))
        (if retryable then pure (dead_letter, 0) else pure (failed, 0)) db
        (λ _.
          Keeps-bind _ _ db (Keeps-lift_lifecycle (retry_delay policy attempts) db)
            λ delay d _. Keeps-pure (retry_wait, delay) d)
        λ _.
          Keeps-if retryable (pure (dead_letter, 0)) (pure (failed, 0)) db
            (λ _. Keeps-pure (dead_letter, 0) db) λ _. Keeps-pure (failed, 0) db

  release_failed-IsValid :
      (t j token reason : String) (now : Instant) (c : Row) (outcome : JobStatus × ℕ) (db : Db)
      → has_key t j c ≡ true
      → Known limit db c
      → Decided c.attempt_count outcome
      → Keeps (IsValid limit) (Repository.release_failed sha policy t j reason now outcome) db
  unfolding Repository.release_failed
  release_failed-IsValid t j token reason now c (target, delay) db key known decided =
      Keeps-bind _ _ db
        (update_one-IsValid limit t j c (released target delay reason now) db (λ r. (refl, refl))
          key known.0 (released-RowOk limit target delay reason now c decided.0 decided.1 known.1))
        λ o d _. Keeps-required _ _ _ d λ r _.
          Keeps-bind _ _ d (row_to_job-IsValid limit r d)
            λ job d' _. append_event-IsValid limit job _ now none (some reason) d'

  held_key :
      (t j token : String) (now : Instant) (r : Row)
      → Repository.holds_lease sha policy t j token now r ≡ true
      → has_key t j r ≡ true
  held_key t j token now r h = ground arith

  pub fail-IsValid :
      (t j token reason : String) (retryable : Bool) (now : Instant) (db : Db)
      → Keeps (IsValid limit) (Repository.fail sha policy t j token reason retryable now) db
  unfolding Repository.fail Repository.fail_tx
  fail-IsValid t j token reason retryable now db =
      Keeps-if (reason == "" || ltb 128 (count reason)) (raise invalid_job_failure_reason)
        (Repository.fail_tx sha policy t j token reason retryable now) db
        (λ _. Keeps-raise invalid_job_failure_reason db)
        λ _. Keeps-from _ db λ v. Keeps-gets _ _ db (
          Keeps-required _ _ _ db λ c found.
            let (held, known) =
              find_first_lem (Known limit db) (Repository.holds_lease sha policy t j token now)
                db.jobs (All-Known limit db v) found in
            Keeps-bind _ _ db (after_failure-IsValid retryable c.attempt_count db) λ outcome d e.
              release_failed-IsValid t j token reason now c outcome d
                (held_key t j token now c held)
                (subst (λ x. Known limit x c)
                  (sym (after_failure_reads retryable c.attempt_count db d outcome e)) known)
                (after_failure_lem retryable c.attempt_count db d outcome e))
