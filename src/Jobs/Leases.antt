-- ===== src/Jobs/Leases.antt =====
-- Leases: what a worker can do without one, and that a lease is used up by a completion.
use Prim.Native.String.{count}
use mathlib.Core.Path.{subst}
use decision_assurance.Prelude.{
  ℕ, String, ◌≡◌, refl, sym, Bool, true, false, ◌||◌, Option, none, some, List, [], ◌∷◌, arith,
  ◌==◌, any, All, find_first, count_if, ltb, ◌⧺◌, Result, ok, err, ◌⊎◌, Bool-cases, Option-cases,
  find_first_lem, inl, inr,
}
use decision_assurance.Jobs.Contracts.{JobPolicy, Instant}
use decision_assurance.Jobs.Store.{
  Row, Db, JobError, Tx, ◌>>=◌, or_raise, lease_rejected, invalid_job_failure_reason, update_where,
  update_returning, returning, has_key, row_to_job, append_event,
}
use decision_assurance.Jobs.Rows.{UniqueKeys, IsOnly, UniqueKeys-IsOnly, same_key}
use decision_assurance.Jobs.Keeps.{Post, Keeps, Keeps-required, Keeps-bind, Keeps-lift_contract}
use decision_assurance.Jobs.Invariant.{IsValid, append_event-rows}
use decision_assurance.Jobs.Repository

count_if-none : {A : Type 0} (p : A → Bool) (xs : List A) → any p xs ≡ false → count_if p xs ≡ 0
count_if-none p [] h = refl
count_if-none p (x ∷ xs) h = ground (arith, count_if-none p xs)

find_first-none :
    {A : Type 0} (p : A → Bool) (xs : List A) → any p xs ≡ false → find_first p xs ≡ none
find_first-none p [] h = refl
find_first-none p (x ∷ xs) h = ground (arith, find_first-none p xs)

-- a query that finds nothing raises
required-none :
    {A B : Type 0} (o : Option A) (e : JobError) (f : A → Tx B) (db : Db)
    → o ≡ none
    → (or_raise o e >>= f) db ≡ err e
unfolding ◌>>=◌
required-none none e f db h = refl
required-none (some a) e f db h = ground arith

returning-none :
    (p : Row → Bool) (f : Row → Row) (rs : List Row) → any p rs ≡ false → returning p f rs ≡ none
returning-none p f rs h = simp (returning, find_first-none p rs h)

returning-missing :
    (p : Row → Bool) (f : Row → Row) (rs : List Row)
    → find_first p rs ≡ none
    → returning p f rs ≡ none
returning-missing p f rs h = simp (returning, h)

module _ (sha : String → String) (policy : JobPolicy) where
  abbrev holder : String → String → String → Instant → Row → Bool
  holder = Repository.holds_lease sha policy

  heartbeat-rejected :
      (t j token : String) (now : Instant) (db : Db)
      → any (holder t j token now) db.jobs ≡ false
      → Repository.heartbeat sha policy t j token now db ≡ err lease_rejected
  unfolding Repository.heartbeat
  heartbeat-rejected t j token now db h = simp (count_if-none (holder t j token now) db.jobs h)

  complete-rejected :
      (t j token : String) (b : Bool) (now : Instant) (db : Db)
      → any (holder t j token now) db.jobs ≡ false
      → Repository.complete sha policy t j token b now db ≡ err lease_rejected
  unfolding Repository.complete update_returning ◌>>=◌
  complete-rejected t j token b now db h = required-none _ lease_rejected _ _ (
      returning-none (holder t j token now) (Repository.finished (Repository.completion b) now)
        db.jobs h)

  fail_tx-rejected :
      (t j token reason : String) (b : Bool) (now : Instant) (db : Db)
      → any (holder t j token now) db.jobs ≡ false
      → Repository.fail_tx sha policy t j token reason b now db ≡ err lease_rejected
  unfolding Repository.fail_tx ◌>>=◌
  fail_tx-rejected t j token reason b now db h =
      required-none _ lease_rejected _ db (find_first-none (holder t j token now) db.jobs h)

  fail-rejected :
      (t j token reason : String) (b : Bool) (now : Instant) (db : Db)
      → any (holder t j token now) db.jobs ≡ false
      → (Repository.fail sha policy t j token reason b now db ≡ err lease_rejected)
        ⊎ (Repository.fail sha policy t j token reason b now db ≡ err invalid_job_failure_reason)
  unfolding Repository.fail
  fail-rejected t j token reason b now db h =
      elim (Bool-cases (reason == "" || ltb 128 (count reason))) [
        | inl e ↦ inr (rw e refl)
        | inr e ↦ inl (rw e (fail_tx-rejected t j token reason b now db h))
      ]

  -- A worker that holds no unexpired lease on a running job can neither prolong, complete nor fail it:
  -- each of the three calls raises, and so changes nothing.
  pub lease_required :
      (t j token reason : String) (b : Bool) (now : Instant) (db : Db)
      → any (Repository.holds_lease sha policy t j token now) db.jobs ≡ false
      → (Repository.heartbeat sha policy t j token now db ≡ err lease_rejected)
        × (Repository.complete sha policy t j token b now db ≡ err lease_rejected)
        × ((Repository.fail sha policy t j token reason b now db ≡ err lease_rejected)
            ⊎ (Repository.fail sha policy t j token reason b now db
                ≡ err invalid_job_failure_reason))
  lease_required t j token reason b now db h = (
    heartbeat-rejected t j token now db h,
    complete-rejected t j token b now db h,
    fail-rejected t j token reason b now db h,
  )

  -- nobody holds this lease, at any time
  abbrev Unleased : String → String → String → List Row → Type 0
  Unleased t j token rs = All (λ r. (now : Instant) → holder t j token now r ≡ false) rs

  finished-Unleased :
      (t j token : String) (b : Bool) (now later : Instant) (r : Row)
      → holder t j token later (Repository.finished (Repository.completion b) now r) ≡ false
  finished-Unleased t j token b now later r = ground arith

  -- a row that the completion leaves alone has another key
  other_row :
      (t j token : String) (now later : Instant) (c r : Row)
      → holder t j token now c ≡ true
      → (has_key c.tenant_id c.job_id r ≡ true → r ≡ c)
      → holder t j token now r ≡ false
      → holder t j token later r ≡ false
  other_row t j token now later c r h only e = elim (Bool-cases (has_key t j r)) [
    | inl k ↦ let same = only (same_key t j c r (ground arith) k) in ground (arith, h, rw same at e)
    | inr k ↦ ground (arith, k)
  ]

  Unleased-update :
      (t j token : String) (b : Bool) (now : Instant) (c : Row) (rs : List Row)
      → holder t j token now c ≡ true
      → IsOnly rs c
      → Unleased t j token (
          update_where
            (holder t j token now)
            (Repository.finished (Repository.completion b) now)
            rs)
  unfolding update_where
  Unleased-update t j token b now c [] h only = tt
  Unleased-update t j token b now c (r ∷ rs) h only = elim (Bool-cases (holder t j token now r)) [
    | inl e ↦ (
      λ later. rw e (finished-Unleased t j token b now later r),
      Unleased-update t j token b now c rs h only.1,
    )
    | inr e ↦ (
      λ later. rw e (other_row t j token now later c r h only.0 e),
      Unleased-update t j token b now c rs h only.1,
    )
  ]

  row_to_job-Keeps : (P : Db → Type 0) (r : Row) (db : Db) → Keeps P (row_to_job r) db
  unfolding row_to_job
  row_to_job-Keeps P r db = Keeps-lift_contract _ db

  -- the event of a completion
  abbrev noted : Bool → Instant → Row → Tx (Unit {0})
  noted b now r = row_to_job r >>= λ job.
      append_event job ("JOB_" ⧺ Repository.status_text (Repository.completion b)) now none none

  noted-Keeps :
      (Q : List Row → Type 0) (b : Bool) (now : Instant) (r : Row) (db : Db)
      → Keeps (λ d. Q d.jobs) (noted b now r) db
  noted-Keeps Q b now r db =
      Keeps-bind (row_to_job r) _ db (row_to_job-Keeps (λ d. Q d.jobs) r db) (λ job d e.
        append_event-rows Q job ("JOB_" ⧺ Repository.status_text (Repository.completion b)) now none
          none d)

  -- what `complete` commits
  complete-Unleased :
      (t j token : String) (b : Bool) (now : Instant) (db : Db)
      → UniqueKeys db.jobs
      → Post (λ d. Unleased t j token d.jobs) (Repository.complete sha policy t j token b now db)
  unfolding Repository.complete update_returning ◌>>=◌
  complete-Unleased t j token b now db u =
      let p = holder t j token now in
      let f = Repository.finished (Repository.completion b) now in
      let db1 : Db = record db { jobs = update_where p f db.jobs } in
      elim (Option-cases (find_first p db.jobs)) [
        | inl e ↦
            subst (Post (λ d. Unleased t j token d.jobs))
              (sym (
                required-none (returning p f db.jobs) lease_rejected (noted b now) db1
                  (returning-missing p f db.jobs e)))
              tt
        | inr (c, e) ↦
            let (holds, only) =
              find_first_lem (IsOnly db.jobs) p db.jobs (UniqueKeys-IsOnly db.jobs u) e in
            (Keeps-required (returning p f db.jobs) lease_rejected (noted b now) db1
                (λ r _. noted-Keeps (Unleased t j token) b now r db1)).at
              (Unleased-update t j token b now c db.jobs holds only)
      ]

  none_holds :
      (t j token : String) (later : Instant) (rs : List Row)
      → Unleased t j token rs
      → any (holder t j token later) rs ≡ false
  none_holds t j token later [] u = refl
  none_holds t j token later (r ∷ rs) u = rw (u.0 later) (none_holds t j token later rs u.1)

  Unleased-after :
      (t j token : String) (r : Result JobError (Unit {0} × Db)) (db' : Db)
      → r ≡ ok (tt, db')
      → Post (λ d. Unleased t j token d.jobs) r
      → Unleased t j token db'.jobs
  Unleased-after t j token r db' e post = subst (Post (λ d. Unleased t j token d.jobs)) e post

  -- A lease is used up by a completion: after `complete` has returned, a second completion with the
  -- same token, a heartbeat and a failure report raise, at any time.
  pub complete_once :
      (m : ℕ) (t j token reason : String) (b again : Bool) (now later : Instant) (db db' : Db)
      → IsValid m db
      → Repository.complete sha policy t j token b now db ≡ ok (tt, db')
      → (Repository.heartbeat sha policy t j token later db' ≡ err lease_rejected)
        × (Repository.complete sha policy t j token again later db' ≡ err lease_rejected)
        × ((Repository.fail sha policy t j token reason again later db' ≡ err lease_rejected)
            ⊎ (Repository.fail sha policy t j token reason again later db'
                ≡ err invalid_job_failure_reason))
  complete_once m t j token reason b again now later db db' valid h =
      lease_required t j token reason again later db' (
        none_holds t j token later db'.jobs (
          Unleased-after t j token (Repository.complete sha policy t j token b now db) db' h
            (complete-Unleased t j token b now db valid.keys_unique)))
