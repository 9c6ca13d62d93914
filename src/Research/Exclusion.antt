-- ===== src/Research/Exclusion.antt =====
-- Idempotency keys that are reserved, and the calls of other clients (web_research/repository.py).
use decision_assurance.Prelude.{
  ℕ, ◌≡◌, refl, sym, ap, ◌∙◌, String, Bool, true, false, not, ◌&&◌, Option, none, some, List, [],
  ◌∷◌, ◌++◌, ◌==◌, any, any-find_first, All, keep, find_first, find_first-update_where, eqb, eq_iff,
  Bool-cases, inl, inr, arith, ok, err, is_ok, ok_inj, some_inj, raise_if-eq-ok, if◌then◌else◌,
}
use mathlib.Core.Path.{subst}
use decision_assurance.Prelude.Json.{Json}
use decision_assurance.Research.Repository.{
  Called, key_reused, request_in_progress, completion_failed, integrity_error, IdempotencyRow,
  ResearchDb,
}
use decision_assurance.Research.Idempotency.{
  KeyOf, answer_reservation, complete_idempotency, has_key, in_progress_status, insert_or_ignore,
  is_open, release_idempotency, reserve_idempotency, store_idempotency,
}
use decision_assurance.Research.Replays.{
  raise_if_err, reserve_idempotency-none, find_first-reserved, reserved_row,
}

-- A call that changes the table of idempotency keys.
pub data KeyCall : Type 0 where
  reserve_key release_key : KeyOf → String → KeyCall
  store_key complete_key : KeyOf → String → ℕ → Json → KeyCall

-- the tables after a transaction
abbrev after : {A : Type 0} → Called A → ResearchDb → ResearchDb
after (ok (a, db')) db = db'
after (err e) db = db

unfoldable pub make : KeyCall → ResearchDb → ResearchDb
make (reserve_key k h) db = after (reserve_idempotency k h db) db
make (release_key k h) db = release_idempotency k h db
make (store_key k h code response) db = after (store_idempotency k h code response db) db
make (complete_key k h code response) db = after (complete_idempotency k h code response db) db

unfoldable pub make_all : List KeyCall → ResearchDb → ResearchDb
unfolding make
make_all [] db = db
make_all (c ∷ cs) db = make_all cs (make c db)

abbrev pub is_same_key : KeyOf → KeyOf → Bool
is_same_key k l =
    k.tenant_id == l.tenant_id
    && k.actor_id == l.actor_id
    && k.operation == l.operation
    && k.key == l.key

-- The call does not complete or release the key.
abbrev pub Spares : KeyOf → KeyCall → Type 0
Spares k (release_key l h) = is_same_key k l ≡ false
Spares k (complete_key l h code response) = is_same_key k l ≡ false
Spares k _ = Unit

-- The key is reserved, and its request is in progress.
abbrev IsHeld : KeyOf → List IdempotencyRow → Type 0
IsHeld k rows =
    (row : IdempotencyRow) × (find_first (has_key k) rows ≡ some row)
    × (eqb row.status_code in_progress_status ≡ true)

same_key :
    (k l : KeyOf) (row : IdempotencyRow)
    → has_key k row ≡ true
    → has_key l row ≡ true
    → is_same_key k l ≡ true
same_key k l row p q =
    let tenant = (eq_iff row.tenant_id k.tenant_id).0 (ground arith) in
    let actor = (eq_iff row.actor_id k.actor_id).0 (ground arith) in
    let operation = (eq_iff row.operation k.operation).0 (ground arith) in
    let key = (eq_iff row.key k.key).0 (ground arith) in
    rw (sym tenant, sym actor, sym operation, sym key) q

other_key :
    (k l : KeyOf) (row : IdempotencyRow)
    → is_same_key k l ≡ false
    → has_key k row ≡ true
    → has_key l row ≡ false
other_key k l row other own = elim (Bool-cases (has_key l row)) [
  | inl e ↦ let clash : true ≡ false = sym (same_key k l row own e) ∙ other in cc
  | inr e ↦ e
]

module _ {A : Type 0} (p : A → Bool) where
  find_first-append :
      (xs ys : List A) {a : A} → find_first p xs ≡ some a → find_first p (xs ++ ys) ≡ some a
  find_first-append [] ys h = cc
  find_first-append (x ∷ xs) ys h = elim (Bool-cases (p x)) [
    | inl e ↦ rw e (rw e at h)
    | inr e ↦ rw e (find_first-append xs ys (rw e at h))
  ]

  find_first-keep :
      (q : A → Bool) (xs : List A) {a : A}
      → find_first p xs ≡ some a
      → q a ≡ true
      → find_first p (keep q xs) ≡ some a
  find_first-keep q [] h k = cc
  find_first-keep q (x ∷ xs) {a} h k = elim (Bool-cases (p x)) [
    | inl e ↦
        let same : x ≡ a = some_inj x a (rw e at h) in
        let kept : q x ≡ true = ap q same ∙ k in rw (kept, e) (ap some same)
    | inr e ↦ elim (Bool-cases (q x)) [
      | inl f ↦ rw (f, e) (find_first-keep q xs (rw e at h) k)
      | inr f ↦ rw f (find_first-keep q xs (rw e at h) k)
    ]
  ]

  find_first-holds : (xs : List A) {a : A} → find_first p xs ≡ some a → p a ≡ true
  find_first-holds [] h = cc
  find_first-holds (x ∷ xs) {a} h = elim (Bool-cases (p x)) [
    | inl e ↦ ap p (sym (some_inj x a (rw e at h))) ∙ e
    | inr e ↦ find_first-holds xs (rw e at h)
  ]

after_cases :
    {A : Type 0} (P : ResearchDb → Type 0) (r : Called A) (db : ResearchDb)
    → P db
    → ((a : A) (db' : ResearchDb) → r ≡ ok (a, db') → P db')
    → P (after r db)
after_cases P (ok (a, db')) db h k = k a db' refl
after_cases P (err e) db h k = h

fresh_keeps :
    (b in_progress : Bool) (x : ℕ × Json) (db : ResearchDb) {a : Option (ℕ × Json)}
    {db' : ResearchDb}
    → ◌≡◌ {A = Called (Option (ℕ × Json))}
        (if not b
          then ok (none, db)
          else if in_progress
          then err request_in_progress
          else ok (some x, db))
        (ok (a, db'))
    → db ≡ db'
fresh_keeps false in_progress x db {a} {db'} h = ap (λ p. p.1) (ok_inj (none, db) (a, db') h)
fresh_keeps true true x db h = cc
fresh_keeps true false x db {a} {db'} h = ap (λ p. p.1) (ok_inj (some x, db) (a, db') h)

answer_reservation-keeps :
    (known : Bool) (h : String) (o : Option IdempotencyRow) (db db' : ResearchDb)
    (a : Option (ℕ × Json))
    → answer_reservation known h o db ≡ ok (a, db')
    → db ≡ db'
answer_reservation-keeps known h none db db' a e = cc
answer_reservation-keeps known h (some row) db db' a e =
    let (_, e1) = raise_if-eq-ok (not (row.request_hash == h)) key_reused _ e in
    fresh_keeps known (eqb row.status_code in_progress_status) (row.status_code, row.response) db e1

module _ (k : KeyOf) where
  insert_or_ignore-IsHeld :
      (l : KeyOf) (h : String) (rows : List IdempotencyRow)
      → IsHeld k rows
      → IsHeld k (insert_or_ignore l h rows)
  unfolding insert_or_ignore
  insert_or_ignore-IsHeld l h rows (row, found, held) = elim (Bool-cases (any (has_key l) rows)) [
    | inl e ↦ rw e (row, found, held)
    | inr e ↦ rw e (row, find_first-append (has_key k) rows _ found, held)
  ]

  make-IsHeld :
      (c : KeyCall) (db : ResearchDb)
      → Spares k c
      → IsHeld k db.idempotency
      → IsHeld k (make c db).idempotency
  unfolding make reserve_idempotency store_idempotency complete_idempotency release_idempotency
  make-IsHeld (reserve_key l h) db spares held =
      after_cases (λ d. IsHeld k d.idempotency) (reserve_idempotency l h db) db held
        λ a db' e.
          subst (λ d. IsHeld k d.idempotency)
            (answer_reservation-keeps (any (has_key l) db.idempotency) h
              (find_first (has_key l) (insert_or_ignore l h db.idempotency))
              (record db { idempotency = insert_or_ignore l h db.idempotency }) db' a e)
            (insert_or_ignore-IsHeld l h db.idempotency held)
  make-IsHeld (release_key l h) db spares (row, found, held) =
      let other = other_key k l row spares (find_first-holds (has_key k) db.idempotency found) in
      (
        row,
        find_first-keep (has_key k) (λ r. not (is_open l h r)) db.idempotency found (rw other refl),
        held,
      )
  make-IsHeld (store_key l h code response) db spares (row, found, held) =
      after_cases (λ d. IsHeld k d.idempotency) (store_idempotency l h code response db) db
        (row, found, held)
        λ a db' e.
          let (_, e1) = raise_if-eq-ok (any (has_key l) db.idempotency) integrity_error _ e in
          subst (λ d. IsHeld k d.idempotency)
            (ap (λ (p : Unit {0} × ResearchDb). p.1) (ok_inj _ (a, db') e1))
            (row, find_first-append (has_key k) db.idempotency _ found, held)
  make-IsHeld (complete_key l h code response) db spares (row, found, held) =
      after_cases (λ d. IsHeld k d.idempotency) (complete_idempotency l h code response db) db
        (row, found, held)
        λ a db' e.
          let other =
            other_key k l row spares (find_first-holds (has_key k) db.idempotency found) in
          let (_, e1) = raise_if-eq-ok _ completion_failed _ e in
          subst (λ d. IsHeld k d.idempotency)
            (ap (λ (p : Unit {0} × ResearchDb). p.1) (ok_inj _ (a, db') e1))
            (
              row,
              find_first-update_where (has_key k) (is_open l h)
                    (λ r. record r { status_code = code; response = response }) db.idempotency
                    (λ _. refl) found
                  ∙ rw other refl,
              held,
            )

  make_all-IsHeld :
      (cs : List KeyCall) (db : ResearchDb)
      → All (Spares k) cs
      → IsHeld k db.idempotency
      → IsHeld k (make_all cs db).idempotency
  unfolding make_all
  make_all-IsHeld [] db spares held = held
  make_all-IsHeld (c ∷ cs) db spares held =
      make_all-IsHeld cs (make c db) spares.1 (make-IsHeld c db spares.0 held)

  reserve_idempotency-held :
      (g : String) (db : ResearchDb)
      → IsHeld k db.idempotency
      → is_ok (reserve_idempotency k g db) ≡ false
  unfolding reserve_idempotency insert_or_ignore
  reserve_idempotency-held g db (row, found, held) =
      rw (any-find_first (has_key k) db.idempotency found, found, held)
        (raise_if_err _ (not (row.request_hash == g)) key_reused request_in_progress)

  -- A key is reserved once: when a reservation lets a request run, no reservation of the key succeeds
  -- after any further calls, of whatever clients, as long as none of them completes or releases it.
  pub reserve_idempotency-exclusive :
      (h g : String) (cs : List KeyCall) (db db1 : ResearchDb)
      → reserve_idempotency k h db ≡ ok (none, db1)
      → All (Spares k) cs
      → is_ok (reserve_idempotency k g (make_all cs db1)) ≡ false
  reserve_idempotency-exclusive h g cs db db1 e spares =
      let (unknown, same) = reserve_idempotency-none k h db db1 e in
      reserve_idempotency-held g (make_all cs db1) (
        make_all-IsHeld cs db1 spares
          (rw same (reserved_row k h, find_first-reserved k h db unknown, refl)))
