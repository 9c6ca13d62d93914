-- ===== src/Jobs/Invariant/Recovery.antt =====
-- `recover_stale` keeps the invariant of the queue: its loop updates one row after another, and the
-- rows that it has still to visit are as it read them.
use mathlib.Core.Path.{subst}
use decision_assurance.Prelude.{
  ℕ, ◌+◌, String, ◌≡◌, refl, sym, Bool, true, false, ◌||◌, Option, none, some, List, [], ◌∷◌, arith,
  eq_iff, any, All, All-keep_only, Bool-cases, inl, inr, leb, keep, or_default,
}
use decision_assurance.Jobs.Contracts.{JobStatus, JobPolicy, Instant, ResearchJob}
use decision_assurance.Jobs.Store.{
  Row, Db, has_key, update_where, update_returning, row_to_job, append_event,
}
use decision_assurance.Jobs.Rows.{
  UniqueKeys, KeepsKey, IsOnly, UniqueKeys-IsOnly, has_key_self, has_key_eq, has_key_sym,
}
use decision_assurance.Jobs.Keeps.{
  Keeps, Keeps-pure, Keeps-lift_contract, Keeps-from, Keeps-bind, Keeps-gets, Keeps-both, Keeps-seq,
  Keeps-reads,
}
use decision_assurance.Jobs.Repository
use decision_assurance.Jobs.Repository.{released, is_stale, by_lease_end, sort_by_lease_end}
use decision_assurance.Jobs.Invariant.{
  RowOk, IsValid, append_event-rows, append_event-IsValid, update_one-IsValid,
}
use decision_assurance.Jobs.Invariant.Leases
use decision_assurance.Jobs.Invariant.Leases.{Known, All-Known, released-RowOk, Decided, limit}

clash :
    (t j : String) (r s u : Row)
    → u.tenant_id ≡ r.tenant_id
    → u.job_id ≡ r.job_id
    → has_key t j r ≡ true
    → has_key t j s ≡ false
    → has_key s.tenant_id s.job_id u ≡ true
    → ⊥
clash t j r s u et ej hr hs hu = ground (
  arith,
  has_key_eq t j r hr,
  has_key_eq s.tenant_id s.job_id u hu,
  eq_iff s.tenant_id t,
  eq_iff s.job_id j,
)

-- An update of another key leaves the only row with a key alone.
IsOnly-update_where :
    (t j : String) (f : Row → Row) (s : Row) (rs : List Row)
    → KeepsKey f
    → has_key t j s ≡ false
    → IsOnly rs s
    → IsOnly (update_where (has_key t j) f rs) s
unfolding update_where
IsOnly-update_where t j f s [] k apart only = tt
IsOnly-update_where t j f s (r ∷ rs) k apart only = elim (Bool-cases (has_key t j r)) [
  | inl e ↦ (
    rw e (λ h. absurd (clash t j r s (f r) (k r).0 (k r).1 e apart h)),
    IsOnly-update_where t j f s rs k apart only.1,
  )
  | inr e ↦ (rw e only.0, IsOnly-update_where t j f s rs k apart only.1)
]

All-IsOnly-update_where :
    (c : Row) (f : Row → Row) (rs rest : List Row)
    → KeepsKey f
    → any (has_key c.tenant_id c.job_id) rest ≡ false
    → All (IsOnly rs) rest
    → All (IsOnly (update_where (has_key c.tenant_id c.job_id) f rs)) rest
All-IsOnly-update_where c f rs [] k apart only = tt
All-IsOnly-update_where c f rs (s ∷ rest) k apart only = (
  IsOnly-update_where c.tenant_id c.job_id f s rs k (ground arith) only.0,
  All-IsOnly-update_where c f rs rest k (ground arith) only.1,
)

any_key-keep :
    (t j : String) (q : Row → Bool) (rs : List Row)
    → any (has_key t j) rs ≡ false
    → any (has_key t j) (keep q rs) ≡ false
any_key-keep t j q [] h = refl
any_key-keep t j q (r ∷ rs) h = elim (Bool-cases (q r)) [
  | inl e ↦ rw e (ground (arith, any_key-keep t j q rs))
  | inr e ↦ rw e (any_key-keep t j q rs (ground arith))
]

UniqueKeys-keep : (q : Row → Bool) (rs : List Row) → UniqueKeys rs → UniqueKeys (keep q rs)
UniqueKeys-keep q [] u = tt
UniqueKeys-keep q (r ∷ rs) u = elim (Bool-cases (q r)) [
  | inl e ↦ rw e (any_key-keep r.tenant_id r.job_id q rs u.0, UniqueKeys-keep q rs u.1)
  | inr e ↦ rw e (UniqueKeys-keep q rs u.1)
]

any-by_lease_end :
    (p : Row → Bool) (r : Row) (rs : List Row) → any p (by_lease_end r rs) ≡ (p r || any p rs)
unfolding by_lease_end
any-by_lease_end p r [] = refl
any-by_lease_end p r (s ∷ rs) = ground (arith, any-by_lease_end p r rs)

any-sort_by_lease_end : (p : Row → Bool) (rs : List Row) → any p (sort_by_lease_end rs) ≡ any p rs
unfolding sort_by_lease_end
any-sort_by_lease_end p [] = refl
any-sort_by_lease_end p (r ∷ rs) =
    rw (any-by_lease_end p r (sort_by_lease_end rs), any-sort_by_lease_end p rs)

All-by_lease_end {κ} :
    (P : Row → Type κ) (r : Row) (rs : List Row) → P r → All P rs → All P (by_lease_end r rs)
unfolding by_lease_end
All-by_lease_end P r [] h hs = (h, tt)
All-by_lease_end P r (s ∷ rs) h hs =
    elim (Bool-cases (leb (or_default r.lease_expires_at 0) (or_default s.lease_expires_at 0))) [
      | inl e ↦ rw e (h, hs)
      | inr e ↦ rw e (hs.0, All-by_lease_end P r rs h hs.1)
    ]

pub All-sort_by_lease_end {κ} :
    (P : Row → Type κ) (rs : List Row) → All P rs → All P (sort_by_lease_end rs)
unfolding sort_by_lease_end
All-sort_by_lease_end P [] h = tt
All-sort_by_lease_end P (r ∷ rs) h = All-by_lease_end P r _ h.0 (All-sort_by_lease_end P rs h.1)

UniqueKeys-by_lease_end :
    (r : Row) (rs : List Row)
    → any (has_key r.tenant_id r.job_id) rs ≡ false
    → UniqueKeys rs
    → UniqueKeys (by_lease_end r rs)
unfolding by_lease_end
UniqueKeys-by_lease_end r [] h u = (refl, tt)
UniqueKeys-by_lease_end r (s ∷ rs) h u =
    elim (Bool-cases (leb (or_default r.lease_expires_at 0) (or_default s.lease_expires_at 0))) [
      | inl e ↦ rw e (h, u)
      | inr e ↦ rw e (
        rw (any-by_lease_end (has_key s.tenant_id s.job_id) r rs) (ground (arith, has_key_sym r s)),
        UniqueKeys-by_lease_end r rs (ground arith) u.1,
      )
    ]

UniqueKeys-sort_by_lease_end : (rs : List Row) → UniqueKeys rs → UniqueKeys (sort_by_lease_end rs)
unfolding sort_by_lease_end
UniqueKeys-sort_by_lease_end [] u = tt
UniqueKeys-sort_by_lease_end (r ∷ rs) u =
    UniqueKeys-by_lease_end r (sort_by_lease_end rs)
      (rw (any-sort_by_lease_end (has_key r.tenant_id r.job_id) rs) u.0)
      (UniqueKeys-sort_by_lease_end rs u.1)

module _ (sha : String → String) (policy : JobPolicy) where
  abbrev attempts_bound : ℕ
  attempts_bound = limit sha policy

  -- what holds in the loop with `rest` still to visit
  abbrev Looping : List Row → Db → Type 0
  Looping rest db = IsValid attempts_bound db × All (IsOnly db.jobs) rest

  release_row-Looping :
      (c : Row) (now : Instant) (delay : ℕ) (target : JobStatus) (rest : List Row) (db : Db)
      → Known attempts_bound db c
      → any (has_key c.tenant_id c.job_id) rest ≡ false
      → Decided sha policy c.attempt_count (target, delay)
      → Keeps
          (Looping rest)
          (update_returning
            (has_key c.tenant_id c.job_id)
            (released target delay "STALE_LEASE_RECOVERED" now))
          db
  unfolding update_returning
  release_row-Looping c now delay target rest db known apart decided =
      Keeps-both (IsValid attempts_bound) (λ d. All (IsOnly d.jobs) rest) _ db
        (update_one-IsValid attempts_bound c.tenant_id c.job_id c _ db (λ r. (refl, refl))
          (has_key_self c) known.0
          (released-RowOk attempts_bound target delay _ now c decided.0 decided.1 known.1))
        (record { at = All-IsOnly-update_where c _ db.jobs rest (λ r. (refl, refl)) apart })

  append_event-Looping :
      (rest : List Row) (job : ResearchJob) (event_type : String) (now : Instant)
      (w r : Option String) (db : Db)
      → Keeps (Looping rest) (append_event job event_type now w r) db
  append_event-Looping rest job event_type now w r db =
      Keeps-both (IsValid attempts_bound) (λ d. All (IsOnly d.jobs) rest) _ db
        (append_event-IsValid attempts_bound job event_type now w r db)
        (append_event-rows (λ rs. All (IsOnly rs) rest) job event_type now w r db)

  row_to_job-Looping :
      (rest : List Row) (r : Row) (db : Db) → Keeps (Looping rest) (row_to_job r) db
  unfolding row_to_job
  row_to_job-Looping rest r db = Keeps-lift_contract _ db

  after_failure-Looping :
      (attempts : ℕ) (rest : List Row) (db : Db)
      → Keeps (Looping rest) (Repository.after_failure sha policy true attempts) db
  after_failure-Looping attempts rest db =
      Keeps-reads _ _ db (Leases.after_failure_reads sha policy true attempts db)

  release_stale-Looping :
      (c : Row) (now : Instant) (n : ℕ) (outcome : JobStatus × ℕ) (rest : List Row) (db : Db)
      → Known attempts_bound db c
      → any (has_key c.tenant_id c.job_id) rest ≡ false
      → Decided sha policy c.attempt_count outcome
      → Keeps (Looping rest) (Repository.release_stale sha policy c now n outcome) db
  unfolding Repository.release_stale
  release_stale-Looping c now n (target, delay) rest db known apart decided =
      Keeps-bind _ _ db (release_row-Looping c now delay target rest db known apart decided) (elim [
        | none ↦ λ d _. Keeps-pure n d
        | some r ↦ λ d _. Keeps-bind _ _ d (row_to_job-Looping rest r d) λ job d' _.
            Keeps-bind _ _ d' (append_event-Looping rest job _ now none none d')
              λ _ d'' _. Keeps-pure (n + 1) d''
      ])

  recover_one-Looping :
      (now : Instant) (c : Row) (n : ℕ) (rest : List Row) (db : Db)
      → any (has_key c.tenant_id c.job_id) rest ≡ false
      → Known attempts_bound db c
      → Keeps (Looping rest) (Repository.recover_one sha policy now c n) db
  unfolding Repository.recover_one
  recover_one-Looping now c n rest db apart known =
      Keeps-bind _ _ db (after_failure-Looping c.attempt_count rest db) λ outcome d e.
        release_stale-Looping c now n outcome rest d
          (subst (λ x. Known attempts_bound x c)
            (sym (Leases.after_failure_reads sha policy true c.attempt_count db d outcome e)) known)
          apart (Leases.after_failure_lem sha policy true c.attempt_count db d outcome e)

  recover_all-IsValid :
      (now : Instant) (rs : List Row) (n : ℕ) (db : Db)
      → UniqueKeys rs
      → All (RowOk attempts_bound) rs
      → All (IsOnly db.jobs) rs
      → Keeps (IsValid attempts_bound) (Repository.recover_all sha policy now rs n) db
  unfolding Repository.recover_all
  recover_all-IsValid now [] n db u ok_rs only = Keeps-pure n db
  recover_all-IsValid now (c ∷ rs) n db u ok_rs only =
      Keeps-seq (IsValid attempts_bound) (Looping rs) _ _ db (λ v. (v, only.1))
        (recover_one-Looping now c n rs db u.0 (only.0, ok_rs.0)) (λ d q. q.0)
        λ k d q. recover_all-IsValid now rs k d u.1 ok_rs.1 q.1

  stale_rows :
      (now : Instant) (db : Db)
      → IsValid attempts_bound db
      → UniqueKeys (sort_by_lease_end (keep (is_stale now) db.jobs))
        × All (RowOk attempts_bound) (sort_by_lease_end (keep (is_stale now) db.jobs))
        × All (IsOnly db.jobs) (sort_by_lease_end (keep (is_stale now) db.jobs))
  stale_rows now db v = (
    UniqueKeys-sort_by_lease_end _ (UniqueKeys-keep (is_stale now) db.jobs v.keys_unique),
    All-sort_by_lease_end (RowOk attempts_bound) _
        (All-keep_only (RowOk attempts_bound) (is_stale now) db.jobs v.rows_ok),
    All-sort_by_lease_end (IsOnly db.jobs) _ (
        All-keep_only (IsOnly db.jobs) (is_stale now) db.jobs
          (UniqueKeys-IsOnly db.jobs v.keys_unique)),
  )

  pub recover_stale-IsValid :
      (now : Instant) (db : Db)
      → Keeps (IsValid attempts_bound) (Repository.recover_stale sha policy now) db
  unfolding Repository.recover_stale
  recover_stale-IsValid now db = Keeps-from _ db λ v.
      let (u, fine, only) = stale_rows now db v in
      Keeps-gets _ _ db (recover_all-IsValid now _ 0 db u fine only)
