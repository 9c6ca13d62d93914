-- ===== src/Retention/Service.antt =====
-- lifecycle/service.py: `PilotLifecycleService`. `hmac` stands for HMAC-SHA-256 under the secret of the
-- service, `sha256_hex` for SHA-256 and `sha256_json` for SHA-256 of canonical JSON; `now k` is the
-- reading number k of the clock in a call.
use decision_assurance.Prelude.{
  ℕ, String, Bool, true, false, not, ◌||◌, Option, none, some, ◌==◌, if◌then◌else◌, ◌⧺◌, take_text,
  drop_text, is_ok,
}
use text.Mathlib.Text.{starts_with}
use decision_assurance.Prelude.Json.{Json, str, obj, opt_str, field, done}
use decision_assurance.Access.Identity.{Identity}
use decision_assurance.Access.Authorization.{Permission, authorize, data_delete, legal_hold_manage}
use decision_assurance.Retention.Contracts.{
  DeletionRequest, DeletionStatus, requested, blocked_by_hold, executing, completed, LifecycleEvent,
  is_same, with_status, with_event,
}
use decision_assurance.Retention.Store.{
  Store, idempotency_key_reused, case_not_found, invalid_deletion_state, hold_active, forbidden,
  Ran, returned, raised, Op, ◌>>=◌, ◌>>◌, give, give_up, read, raise_unless, last_event, last_hash,
  get_by_idempotency, persist_transition, set_hold, release_hold, complete_deletion,
}

abbrev pub permitted : Identity → Permission → Op (Unit {0})
permitted identity permission = raise_unless (is_ok (authorize identity permission)) forbidden

-- `value.removeprefix("sha256:")[:16]`, or "root"
abbrev pub chain_ref : Option String → String
chain_ref none = "root"
chain_ref (some previous) =
    take_text 16 (if starts_with previous "sha256:" then drop_text 7 previous else previous)

module _ (hmac : String → String) (sha256_hex : String → String) (sha256_json : Json → String) where
  -- `_digest`
  unfoldable pub digest : String → String → String → String
  digest purpose tenant_id value = "sha256:" ⧺ hmac (purpose ⧺ "\0" ⧺ tenant_id ⧺ "\0" ⧺ value)

  -- the common part of `_event` and `_hold_event`
  abbrev pub event_payload : LifecycleEvent → Json
  event_payload e = obj (
      field "event_id" (str e.event_id) (
        field "request_id" (str e.request_id) (
          field "case_ref_hash" (str e.case_ref_hash) (
            field "event_type" (str e.event_type) (
              field "occurred_at" (str e.occurred_at) (
                field "reason_code" (str e.reason_code) (
                  field "correlation_id" (str e.correlation_id) (
                    field "actor_hash" (str e.actor_hash)
                      (field "previous_event_hash" (opt_str e.previous_event_hash) done)))))))))

  abbrev pub sealed : LifecycleEvent → LifecycleEvent
  sealed e = record e { event_hash = "sha256:" ⧺ sha256_json (event_payload e) }

  -- `_event`, `occurred_at` being the clock's reading
  unfoldable pub event_of :
      DeletionRequest → String → Identity → String → String → Store → LifecycleEvent
  event_of request event_type identity correlation_id occurred_at s =
      let previous = last_hash (last_event identity.tenant_id request.request_id s) in
      sealed (record {
        tenant_id = identity.tenant_id;
        event_id =
            request.request_id ⧺ ":" ⧺ event_type ⧺ ":" ⧺ occurred_at ⧺ ":" ⧺ chain_ref previous;
        request_id = request.request_id;
        case_ref_hash = request.case_ref_hash;
        event_type = event_type;
        occurred_at = occurred_at;
        reason_code = request.reason_code;
        correlation_id = correlation_id;
        actor_hash = request.actor_hash;
        event_hash = "";
        previous_event_hash = previous;
      })

  -- `_hold_event`
  unfoldable pub hold_event :
      Identity → String → String → String → String → String → String → Store → LifecycleEvent
  hold_event identity decision_id hold_id event_type reason_code correlation_id occurred_at s =
      let previous = last_hash (last_event identity.tenant_id hold_id s) in
      sealed (record {
        tenant_id = identity.tenant_id;
        event_id = hold_id ⧺ ":" ⧺ event_type ⧺ ":" ⧺ occurred_at ⧺ ":" ⧺ chain_ref previous;
        request_id = hold_id;
        case_ref_hash = digest "case" identity.tenant_id decision_id;
        event_type = event_type;
        occurred_at = occurred_at;
        reason_code = reason_code;
        correlation_id = correlation_id;
        actor_hash = digest "actor" identity.tenant_id identity.actor_id;
        event_hash = "";
        previous_event_hash = previous;
      })

  abbrev pub hold_id_of : String → String → String
  hold_id_of tenant_id decision_id =
      "hold-" ⧺ take_text 24 (sha256_hex (tenant_id ⧺ "\0" ⧺ decision_id))

  -- `_record`
  unfoldable pub record_request :
      DeletionRequest
      → String
      → Identity
      → String
      → String
      → Option DeletionStatus
      → Op DeletionRequest
  record_request request event_type identity correlation_id occurred_at expected s =
      let event = event_of request event_type identity correlation_id occurred_at s in
      persist_transition (with_event request event) event expected s

  -- the request that `request_deletion` builds
  unfoldable pub new_request : Identity → String → String → String → String → Bool → DeletionRequest
  new_request identity decision_id reason_code idempotency_key occurred_at hold =
      let actor_hash = digest "actor" identity.tenant_id identity.actor_id in
      let key_hash = digest "idempotency" identity.tenant_id idempotency_key in
      record {
        tenant_id = identity.tenant_id;
        request_id =
            "delete-"
            ⧺ take_text 24 (sha256_hex (identity.tenant_id ⧺ "\0" ⧺ actor_hash ⧺ "\0" ⧺ key_hash));
        decision_id = some decision_id;
        case_ref_hash = digest "case" identity.tenant_id decision_id;
        actor_hash = actor_hash;
        idempotency_key_hash = key_hash;
        status = if hold then blocked_by_hold else requested;
        reason_code = reason_code;
        requested_at = occurred_at;
        completed_at = none;
        legal_hold_active = hold;
        event_hash = "";
        previous_event_hash = none;
      }

  -- the branch of `request_deletion` for a submission that is there already
  unfoldable pub replayed : String → String → DeletionRequest → Op DeletionRequest
  replayed case_hash reason_code replay s =
      if not (replay.case_ref_hash == case_hash) || not (replay.reason_code == reason_code)
      then raised idempotency_key_reused s
      else returned replay s

  -- and for a new one
  unfoldable pub submitted :
      (ℕ → String) → Identity → String → String → String → String → Op DeletionRequest
  submitted now identity decision_id reason_code idempotency_key correlation_id = do
    known ← read (λ s. s.cases identity.tenant_id decision_id)
    raise_unless known case_not_found
    hold ← read (λ s. s.holds identity.tenant_id decision_id)
    record_request (new_request identity decision_id reason_code idempotency_key (now 0) hold)
        "data.deletion-requested" identity correlation_id (now 1) none

  unfoldable pub request_deletion :
      (ℕ → String) → Identity → String → String → String → String → Op DeletionRequest
  request_deletion now identity decision_id reason_code idempotency_key correlation_id = do
    permitted identity data_delete
    replay ←
        get_by_idempotency identity.tenant_id (digest "actor" identity.tenant_id identity.actor_id)
          (digest "idempotency" identity.tenant_id idempotency_key)
    elim replay [
      | some r ↦ replayed (digest "case" identity.tenant_id decision_id) reason_code r
      | none ↦ submitted now identity decision_id reason_code idempotency_key correlation_id
    ]

  -- `except LegalHoldActive` around `complete_deletion`
  unfoldable pub or_blocked :
      DeletionRequest → Identity → String → String → Ran DeletionRequest → Ran DeletionRequest
  or_blocked request identity correlation_id occurred_at (raised hold_active s) =
      record_request (with_status request blocked_by_hold true none false) "data.deletion-blocked"
        identity correlation_id occurred_at (some request.status) s
  or_blocked request identity correlation_id occurred_at outcome = outcome

  -- the completion of a request that is executing
  unfoldable pub completion :
      (ℕ → String) → Identity → String → DeletionRequest → Op DeletionRequest
  completion now identity correlation_id request s =
      let target = with_status request completed false (some (now 1)) true in
      let event = event_of target "data.deletion-completed" identity correlation_id (now 2) s in
      or_blocked request identity correlation_id (now 3)
        (complete_deletion (with_event target event) event s)

  -- `execute_deletion` for a request that is there; `others` is what other threads do to the store
  -- between the two steps
  unfoldable pub carried_out :
      (Store → Store)
      → (ℕ → String)
      → Identity
      → String
      → DeletionRequest
      → String
      → Op DeletionRequest
  carried_out others now identity correlation_id request decision_id s =
      if s.holds identity.tenant_id decision_id
      then record_request (with_status request blocked_by_hold true none false)
          "data.deletion-blocked" identity correlation_id (now 0) (some request.status) s
      else elim (record_request (with_status request executing false none false)
          "data.deletion-executing" identity correlation_id (now 0) (some request.status) s) [
            | raised e t ↦ raised e t
            | returned started t ↦ completion now identity correlation_id started (others t)
          ]

  unfoldable pub execute_found :
      (Store → Store) → (ℕ → String) → Identity → String → DeletionRequest → Op DeletionRequest
  execute_found others now identity correlation_id request =
      if is_same request.status completed then give request else elim request.decision_id [
        | none ↦ give_up invalid_deletion_state
        | some decision_id ↦ carried_out others now identity correlation_id request decision_id
      ]

  unfoldable pub execute_deletion :
      (Store → Store) → (ℕ → String) → Identity → String → String → Op DeletionRequest
  execute_deletion others now identity request_id correlation_id = do
    permitted identity data_delete
    found ← read (λ s. s.requests identity.tenant_id request_id)
    elim found [
      | none ↦ give_up case_not_found
      | some request ↦ execute_found others now identity correlation_id request
    ]

  unfoldable pub place_legal_hold :
      (ℕ → String) → Identity → String → String → String → Op (Unit {0})
  place_legal_hold now identity decision_id reason_code correlation_id = do
    permitted identity legal_hold_manage
    known ← read (λ s. s.cases identity.tenant_id decision_id)
    raise_unless known case_not_found
    event ← read (
        hold_event identity decision_id (hold_id_of identity.tenant_id decision_id)
          "data.legal-hold-placed" reason_code correlation_id (now 0))
    _ ← set_hold identity.tenant_id decision_id event
    give tt

  unfoldable pub release_legal_hold : (ℕ → String) → Identity → String → String → Op Bool
  release_legal_hold now identity decision_id correlation_id = do
    permitted identity legal_hold_manage
    event ← read (
        hold_event identity decision_id (hold_id_of identity.tenant_id decision_id)
          "data.legal-hold-released" "LEGAL_HOLD_RELEASED" correlation_id (now 0))
    release_hold identity.tenant_id decision_id event
