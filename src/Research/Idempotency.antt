-- ===== src/Research/Idempotency.antt =====
-- The methods of `SqliteResearchRepository` on idempotency keys (web_research/repository.py).
use decision_assurance.Prelude.{
  ℕ, String, Bool, not, ◌&&◌, Option, none, some, List, [], ◌∷◌, ◌++◌, ◌==◌, any, count_if,
  find_first, keep, eqb, update_where, Result, ok, err, raise_if, ◌>>◌, if◌then◌else◌,
}
use decision_assurance.Prelude.Json.{Json, str, obj, field, done}
use decision_assurance.Research.Repository.{
  Called, IdempotencyRow, RepositoryError, ResearchDb, completion_failed, integrity_error,
  key_reused, request_in_progress, reservation_failed,
}

-- the columns of the primary key
pub record KeyOf : Type 0 where
  pub tenant_id : String
  pub actor_id : String
  pub operation : String
  pub key : String

-- `IDEMPOTENCY_IN_PROGRESS_STATUS` and `IDEMPOTENCY_IN_PROGRESS_RESPONSE`
abbrev pub in_progress_status : ℕ
in_progress_status = 102

abbrev pub in_progress_response : Json
in_progress_response = obj (field "state" (str "IN_PROGRESS") done)

abbrev pub has_key : KeyOf → IdempotencyRow → Bool
has_key k row =
    row.tenant_id == k.tenant_id
    && row.actor_id == k.actor_id
    && row.operation == k.operation
    && row.key == k.key

abbrev pub key_row : KeyOf → String → ℕ → Json → IdempotencyRow
key_row k request_hash status_code response = record {
  tenant_id = k.tenant_id;
  actor_id = k.actor_id;
  operation = k.operation;
  key = k.key;
  request_hash = request_hash;
  status_code = status_code;
  response = response;
}

abbrev with_keys : ResearchDb → List IdempotencyRow → ResearchDb
with_keys db rows = record db { idempotency = rows }

unfoldable pub store_idempotency : KeyOf → String → ℕ → Json → ResearchDb → Called (Unit {0})
store_idempotency k request_hash status_code response db =
    raise_if (any (has_key k) db.idempotency) integrity_error
    >> ok (tt, with_keys db (db.idempotency ++ key_row k request_hash status_code response ∷ []))

-- `INSERT OR IGNORE`
unfoldable pub insert_or_ignore : KeyOf → String → List IdempotencyRow → List IdempotencyRow
insert_or_ignore k request_hash rows =
    if any (has_key k) rows
    then rows
    else rows ++ key_row k request_hash in_progress_status in_progress_response ∷ []

-- what a reservation answers after the insertion, `known` telling that the key was there before
abbrev pub answer_reservation :
    Bool → String → Option IdempotencyRow → ResearchDb → Called (Option (ℕ × Json))
answer_reservation known request_hash none db = err reservation_failed
answer_reservation known request_hash (some row) db =
    raise_if (not (row.request_hash == request_hash)) key_reused
    >> (if not known
        then ok (none, db)
        else if eqb row.status_code in_progress_status
        then err request_in_progress
        else ok (some (row.status_code, row.response), db))

unfoldable pub reserve_idempotency : KeyOf → String → ResearchDb → Called (Option (ℕ × Json))
unfolding insert_or_ignore
reserve_idempotency k request_hash db =
    let rows = insert_or_ignore k request_hash db.idempotency in
    answer_reservation (any (has_key k) db.idempotency) request_hash (find_first (has_key k) rows)
      (with_keys db rows)

-- a reservation that is still open
abbrev pub is_open : KeyOf → String → IdempotencyRow → Bool
is_open k request_hash row =
    has_key k row && (row.request_hash == request_hash && eqb row.status_code in_progress_status)

unfoldable pub complete_idempotency : KeyOf → String → ℕ → Json → ResearchDb → Called (Unit {0})
complete_idempotency k request_hash status_code response db =
    raise_if (not (eqb (count_if (is_open k request_hash) db.idempotency) 1)) completion_failed
    >> ok (
      tt,
      with_keys db (
          update_where (is_open k request_hash)
            (λ row. record row { status_code = status_code; response = response }) db.idempotency),
    )

unfoldable pub release_idempotency : KeyOf → String → ResearchDb → ResearchDb
release_idempotency k request_hash db =
    with_keys db (keep (λ row. not (is_open k request_hash row)) db.idempotency)

-- the answer that was stored
abbrev pub stored_answer :
    String → Option IdempotencyRow → Result RepositoryError (Option (ℕ × Json))
stored_answer request_hash none = ok none
stored_answer request_hash (some row) =
    raise_if (not (row.request_hash == request_hash)) key_reused
    >> ok (some (row.status_code, row.response))

unfoldable pub get_idempotency :
    KeyOf → String → ResearchDb → Result RepositoryError (Option (ℕ × Json))
get_idempotency k request_hash db =
    stored_answer request_hash (find_first (has_key k) db.idempotency)
