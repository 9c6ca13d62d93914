-- ===== src/Research/Replays.antt =====
-- What a client that repeats a request gets (web_research/repository.py).
use decision_assurance.Prelude.{
  ℕ, ◌≡◌, refl, sym, ap, ◌∙◌, String, Bool, true, false, not, ◌&&◌, Option, none, some, [], ◌∷◌,
  ◌++◌, ◌==◌, any, any-false-find_first, any-find_first, any-false-count_if, count_if,
  count_if-append, find_first, find_first-append_none, find_first-update_where, eqb, eq_refl,
  update_where, Result, ok, err, is_ok, if-true, if-false, ok_inj, raise_if, raise_if-eq-ok, ◌>>◌,
  if◌then◌else◌,
}
use decision_assurance.Prelude.Json.{Json}
use decision_assurance.Research.Repository.{
  Called, key_reused, request_in_progress, IdempotencyRow, RepositoryError, ResearchDb,
}
use decision_assurance.Research.Idempotency.{
  KeyOf, answer_reservation, stored_answer, complete_idempotency, get_idempotency, has_key,
  in_progress_response, in_progress_status, insert_or_ignore, is_open, key_row, reserve_idempotency,
}

raise_if-not :
    {A : Type 0} (b : Bool) (e : RepositoryError) (m : Result RepositoryError A)
    → (raise_if (not b) e >> m) ≡ (if b then m else err e)
raise_if-not true e m = refl
raise_if-not false e m = refl

pub raise_if_err :
    (A : Type 0) (b : Bool) (e f : RepositoryError)
    → is_ok (◌>>◌ {B = A} (raise_if b e) (err f)) ≡ false
raise_if_err A true e f = refl
raise_if_err A false e f = refl

module _ (k : KeyOf) (h : String) where
  abbrev pub reserved_row : IdempotencyRow
  reserved_row = key_row k h in_progress_status in_progress_response

  abbrev pub reserved : ResearchDb → ResearchDb
  reserved db = record db { idempotency = db.idempotency ++ reserved_row ∷ [] }

  has_key-reserved_row : has_key k reserved_row ≡ true
  has_key-reserved_row =
      rw (eq_refl k.tenant_id, eq_refl k.actor_id, eq_refl k.operation, eq_refl k.key) refl

  fresh_cases :
      (known in_progress : Bool) (kept : ℕ × Json) (db db1 : ResearchDb)
      → ◌≡◌ {A = Called (Option (ℕ × Json))}
          (if not known
            then ok (none, db)
            else if in_progress
            then err request_in_progress
            else ok (some kept, db))
          (ok (none, db1))
      → (known ≡ false) × (db1 ≡ db)
  fresh_cases false in_progress kept db db1 e =
      (refl, sym (ap (λ (p : Option (ℕ × Json) × ResearchDb). p.1) (ok_inj _ _ e)))
  fresh_cases true true kept db db1 e = cc
  fresh_cases true false kept db db1 e =
      let impossible = ap (λ (p : Option (ℕ × Json) × ResearchDb). p.0) (ok_inj _ _ e) in cc

  answer_reservation-none :
      (o : Option IdempotencyRow) (known : Bool) (db db1 : ResearchDb)
      → answer_reservation known h o db ≡ ok (none, db1)
      → (known ≡ false) × (db1 ≡ db)
  answer_reservation-none none known db db1 e = cc
  answer_reservation-none (some row) known db db1 e =
      let (_, e1) = raise_if-eq-ok (not (row.request_hash == h)) key_reused _ e in
      fresh_cases known (eqb row.status_code in_progress_status) (row.status_code, row.response) db
        db1 e1

  -- A first reservation found no row and left one.
  pub reserve_idempotency-none :
      (db db1 : ResearchDb)
      → reserve_idempotency k h db ≡ ok (none, db1)
      → (any (has_key k) db.idempotency ≡ false) × (db1 ≡ reserved db)
  unfolding reserve_idempotency insert_or_ignore
  reserve_idempotency-none db db1 e =
      let rows = insert_or_ignore k h db.idempotency in
      let (unknown, same) =
        answer_reservation-none (find_first (has_key k) rows) (any (has_key k) db.idempotency)
          (record db { idempotency = rows }) db1 e in
      (
        unknown,
        same ∙ ap (λ rs. record db { idempotency = rs }) (sym (if-false _ _ _ unknown refl)),
      )

  -- the row of a reservation is found
  pub find_first-reserved :
      (db : ResearchDb)
      → any (has_key k) db.idempotency ≡ false
      → find_first (has_key k) (reserved db).idempotency ≡ some reserved_row
  find_first-reserved db e =
      find_first-append_none (has_key k) db.idempotency reserved_row
        (any-false-find_first (has_key k) db.idempotency e) has_key-reserved_row

  is_open-reserved_row : is_open k h reserved_row ≡ true
  is_open-reserved_row = rw (has_key-reserved_row, eq_refl h) refl

  count_if-reserved :
      (db : ResearchDb)
      → any (has_key k) db.idempotency ≡ false
      → count_if (is_open k h) (reserved db).idempotency ≡ 1
  count_if-reserved db e =
      rw
        (
          count_if-append (is_open k h) db.idempotency (reserved_row ∷ []),
          any-false-count_if (has_key k)
              (λ row. row.request_hash == h && eqb row.status_code in_progress_status)
              db.idempotency e,
          is_open-reserved_row,
        )
        refl

  module _ (code : ℕ) (response : Json) where
    abbrev answered : IdempotencyRow → IdempotencyRow
    answered row = record row { status_code = code; response = response }

    abbrev completed : ResearchDb → ResearchDb
    completed db = record db {
      idempotency = update_where (is_open k h) answered (reserved db).idempotency;
    }

    complete_idempotency-reserved :
        (db : ResearchDb)
        → any (has_key k) db.idempotency ≡ false
        → complete_idempotency k h code response (reserved db) ≡ ok (tt, completed db)
    unfolding complete_idempotency
    complete_idempotency-reserved db e = rw (count_if-reserved db e) refl

    find_first-completed :
        (db : ResearchDb)
        → any (has_key k) db.idempotency ≡ false
        → find_first (has_key k) (completed db).idempotency ≡ some (answered reserved_row)
    find_first-completed db e =
        find_first-update_where (has_key k) (is_open k h) answered (reserved db).idempotency
          (λ _. refl) (find_first-reserved db e)
        ∙ ap some (sym (if-true _ _ _ is_open-reserved_row refl))

    get_idempotency-completed :
        (db : ResearchDb)
        → any (has_key k) db.idempotency ≡ false
        → get_idempotency k h (completed db) ≡ ok (some (code, response))
    unfolding get_idempotency
    get_idempotency-completed db e =
        ap (stored_answer h) (find_first-completed db e) ∙ rw (eq_refl h) refl

    -- a request that comes again after the answer was stored
    reserve_idempotency-completed :
        (g : String) (db : ResearchDb)
        → any (has_key k) db.idempotency ≡ false
        → eqb code in_progress_status ≡ false
        → reserve_idempotency k g (completed db)
          ≡ (if h == g then ok (some (code, response), completed db) else err key_reused)
    unfolding reserve_idempotency insert_or_ignore
    reserve_idempotency-completed g db e c =
        let known =
          any-find_first (has_key k) (completed db).idempotency (find_first-completed db e) in
        rw (known, find_first-completed db e, c) (raise_if-not (h == g) key_reused _)

  -- The request that a reservation let run can be completed, and then the answer that was stored
  -- is what the key gives, to a reading and to a reservation, which changes nothing; another request
  -- under the key is refused. The status code stored is not the one that marks an open reservation.
  pub complete_idempotency-answers :
      (code : ℕ) (response : Json) (db db1 : ResearchDb)
      → reserve_idempotency k h db ≡ ok (none, db1)
      → eqb code in_progress_status ≡ false
      → (db2 : ResearchDb) × (complete_idempotency k h code response db1 ≡ ok (tt, db2))
        × (get_idempotency k h db2 ≡ ok (some (code, response)))
        × ((g : String)
            → reserve_idempotency k g db2
              ≡ (if h == g then ok (some (code, response), db2) else err key_reused))
  complete_idempotency-answers code response db db1 e c =
      let (unknown, same) = reserve_idempotency-none db db1 e in
      (
        completed code response db,
        rw same (complete_idempotency-reserved code response db unknown),
        get_idempotency-completed code response db unknown,
        λ g. reserve_idempotency-completed code response g db unknown c,
      )
