-- ===== src/Retention/Execution.antt =====
-- What `execute_deletion` of lifecycle/service.py does to a request that is tracked in the store.
use decision_assurance.Prelude.{
  ℕ, String, ◌≡◌, refl, sym, ap, ◌∙◌, Bool, true, false, ◌&&◌, Option, none, some, List, [], ◌∷◌,
  ◌++◌, arith, ◌==◌, eq_refl, option_eq, keep, last?-append_one, is_ok,
}
use decision_assurance.Prelude.Json.{Json}
use decision_assurance.Access.Identity.{Identity}
use decision_assurance.Access.Authorization.{authorize, data_delete}
use decision_assurance.Retention.Contracts.{
  DeletionRequest, DeletionStatus, requested, blocked_by_hold, executing, completed, failed,
  LifecycleEvent, is_same, with_status, with_event,
}
use decision_assurance.Retention.Store.{
  Store, Ran, returned, raised, hold_active, Op, updated, stored, erased, last_event, last_hash,
  is_event_of, persist_transition, persist_over, complete_deletion, complete_executing,
}
use decision_assurance.Retention.Store
use decision_assurance.Retention.Service

-- The store holds the request, under its own key and with the hash of its last event.
pub record IsTracked (r : DeletionRequest) (s : Store) : Type 0 where
  pub found : s.requests r.tenant_id r.request_id ≡ some r
  pub chained : last_hash (last_event r.tenant_id r.request_id s) ≡ some r.event_hash

is_same_refl : (status : DeletionStatus) → is_same status status ≡ true
is_same_refl requested = refl
is_same_refl blocked_by_hold = refl
is_same_refl executing = refl
is_same_refl completed = refl
is_same_refl failed = refl

both_same : (a b : String) → (a == a && b == b) ≡ true
both_same a b = ground (arith, eq_refl a, eq_refl b)

option_eq_refl : (o : Option String) → option_eq o o ≡ true
option_eq_refl none = refl
option_eq_refl (some t) = eq_refl t

keep-append_one :
    {A : Type 0} (p : A → Bool) (xs : List A) (x : A)
    → p x ≡ true
    → keep p (xs ++ x ∷ []) ≡ keep p xs ++ x ∷ []
keep-append_one p [] x h = rw h refl
keep-append_one p (y ∷ ys) x h = ground (arith, keep-append_one p ys x h)

-- the event that has just been appended is the last one
last_event-append :
    (tenant request_id : String) (s : Store) (t : Store) (e : LifecycleEvent)
    → t.events ≡ s.events ++ e ∷ []
    → is_event_of tenant request_id e ≡ true
    → last_event tenant request_id t ≡ some e
unfolding last_event
last_event-append tenant request_id s t e h own =
    rw (h, keep-append_one (is_event_of tenant request_id) s.events e own)
      (last?-append_one (keep (is_event_of tenant request_id) s.events) e)

persist_over-stored :
    (r q : DeletionRequest) (e : LifecycleEvent) (s : Store)
    → e.previous_event_hash ≡ some r.event_hash
    → persist_over r q e (some r.status) s ≡ returned q (stored q e s)
unfolding persist_over
persist_over-stored r q e s h = simp (is_same_refl r.status, h, eq_refl r.event_hash)

persist_transition-stored :
    (r q : DeletionRequest) (e : LifecycleEvent) (s : Store)
    → s.requests q.tenant_id q.request_id ≡ some r
    → e.previous_event_hash ≡ some r.event_hash
    → persist_transition q e (some r.status) s ≡ returned q (stored q e s)
unfolding persist_transition
persist_transition-stored r q e s found h =
    rw (found, persist_transition) (persist_over-stored r q e s h)

completion-stored :
    (r q : DeletionRequest) (d : String) (e : LifecycleEvent) (s : Store)
    → s.requests q.tenant_id q.request_id ≡ some r
    → r.status ≡ executing
    → r.decision_id ≡ some d
    → e.previous_event_hash ≡ some r.event_hash
    → s.holds q.tenant_id d ≡ false
    → complete_deletion q e s ≡ returned q (erased q e d s)
unfolding complete_deletion complete_executing
completion-stored r q d e s found running case_of chained free = simp (
  found,
  complete_deletion,
  running,
  complete_executing,
  case_of,
  chained,
  eq_refl r.event_hash,
  free,
)

complete_deletion-held :
    (r q : DeletionRequest) (d : String) (e : LifecycleEvent) (s : Store)
    → s.requests q.tenant_id q.request_id ≡ some r
    → r.status ≡ executing
    → r.decision_id ≡ some d
    → e.previous_event_hash ≡ some r.event_hash
    → s.holds q.tenant_id d ≡ true
    → complete_deletion q e s ≡ raised hold_active s
unfolding complete_deletion complete_executing
complete_deletion-held r q d e s found running case_of chained held = simp (
  found,
  complete_deletion,
  running,
  complete_executing,
  case_of,
  chained,
  eq_refl r.event_hash,
  held,
)

module _ (hmac : String → String) (sha256_hex : String → String) (sha256_json : Json → String) where
  -- the event of a request that is changed in its status only
  abbrev change_event :
      DeletionRequest → String → Identity → String → String → Store → LifecycleEvent
  change_event q event_type identity correlation_id at s =
      Service.event_of hmac sha256_hex sha256_json q event_type identity correlation_id at s

  -- such a request is recorded over the one in the store
  record_request-stored :
      (r : DeletionRequest) (s : Store) (status : DeletionStatus) (hold : Bool)
      (identity : Identity) (event_type correlation_id at : String)
      → IsTracked r s
      → identity.tenant_id ≡ r.tenant_id
      → let q = with_status r status hold none false in
        let e = change_event q event_type identity correlation_id at s in
        Service.record_request hmac sha256_hex sha256_json q event_type identity correlation_id at
          (some r.status)
          s
        ≡ returned (with_event q e) (stored (with_event q e) e s)
  unfolding Service.record_request with_status with_event Service.event_of
  record_request-stored r s status hold identity event_type correlation_id at tracked same =
      persist_transition-stored r _ _ s tracked.found (rw same tracked.chained)

  -- the call reaches the case of a request that it finds and that is not completed
  execute_deletion-carried_out :
      (others : Store → Store) (now : ℕ → String) (identity : Identity) (correlation_id : String)
      (r : DeletionRequest) (s : Store) (d : String)
      → is_ok (authorize identity data_delete) ≡ true
      → identity.tenant_id ≡ r.tenant_id
      → IsTracked r s
      → is_same r.status completed ≡ false
      → r.decision_id ≡ some d
      → Service.execute_deletion hmac sha256_hex sha256_json others now identity r.request_id
          correlation_id s
        ≡ Service.carried_out hmac sha256_hex sha256_json others now identity correlation_id r d s
  unfolding Service.execute_deletion Service.execute_found
  execute_deletion-carried_out others now identity correlation_id r s d may same tracked unfinished
        case_of =
      simp (may, same, tracked.found, unfinished, case_of)

  pub record EndsBlocked (d : String) (s : Store) (ran : Ran DeletionRequest) : Type 0 where
    pub request : DeletionRequest
    pub after : Store
    pub returns : ran ≡ returned request after
    pub status : request.status ≡ blocked_by_hold
    pub remembered : request.decision_id ≡ some d
    pub cases : after.cases ≡ s.cases
    pub holds : after.holds ≡ s.holds

  -- A deletion is not carried out while the case is under a legal hold: the call returns the request
  -- as BLOCKED_BY_HOLD, and the cases and the holds are as they were.
  pub execute_deletion-EndsBlocked :
      (others : Store → Store) (now : ℕ → String) (identity : Identity) (correlation_id : String)
      (r : DeletionRequest) (s : Store) (d : String)
      → is_ok (authorize identity data_delete) ≡ true
      → identity.tenant_id ≡ r.tenant_id
      → IsTracked r s
      → is_same r.status completed ≡ false
      → r.decision_id ≡ some d
      → s.holds identity.tenant_id d ≡ true
      → EndsBlocked d s (
          Service.execute_deletion hmac sha256_hex sha256_json others now identity r.request_id
            correlation_id s)
  unfolding Service.carried_out with_status with_event Service.event_of
  execute_deletion-EndsBlocked others now identity correlation_id r s d may same tracked unfinished
        case_of held =
      let q = with_status r blocked_by_hold true none false in
      let e = change_event q "data.deletion-blocked" identity correlation_id (now 0) s in
      record {
        request = with_event q e;
        after = stored (with_event q e) e s;
        returns =
            execute_deletion-carried_out others now identity correlation_id r s d may same tracked
              unfinished case_of
            ∙ rw held (
                record_request-stored r s blocked_by_hold true identity "data.deletion-blocked"
                  correlation_id (now 0) tracked same);
        status = refl;
        remembered = case_of;
        cases = refl;
        holds = refl;
      }

  pub record EndsCompleted (d : String) (r : DeletionRequest) (ran : Ran DeletionRequest)
      : Type 0 where
    pub request : DeletionRequest
    pub after : Store
    pub returns : ran ≡ returned request after
    pub status : request.status ≡ completed
    pub forgotten : request.decision_id ≡ none
    pub recorded : after.requests r.tenant_id r.request_id ≡ some request
    pub erased : after.cases r.tenant_id d ≡ false

  -- Without a hold on the case the deletion is carried out: the call returns the request as COMPLETED,
  -- the store holds it, it no longer names the case, and the case is gone. No other thread touches the
  -- store between the two steps.
  pub execute_deletion-EndsCompleted :
      (now : ℕ → String) (identity : Identity) (correlation_id : String) (r : DeletionRequest)
      (s : Store) (d : String)
      → is_ok (authorize identity data_delete) ≡ true
      → identity.tenant_id ≡ r.tenant_id
      → IsTracked r s
      → is_same r.status completed ≡ false
      → r.decision_id ≡ some d
      → s.holds identity.tenant_id d ≡ false
      → EndsCompleted d r (
          Service.execute_deletion hmac sha256_hex sha256_json
            (λ t. t)
            now
            identity
            r.request_id
            correlation_id
            s)
  unfolding Service.carried_out Service.completion Service.or_blocked with_status with_event
      Service.event_of
  execute_deletion-EndsCompleted now identity correlation_id r s d may same tracked unfinished
        case_of free =
      let q = with_status r executing false none false in
      let e = change_event q "data.deletion-executing" identity correlation_id (now 0) s in
      let p = with_event q e in
      let t = stored p e s in
      let q2 = with_status p completed false (some (now 1)) true in
      let e2 = change_event q2 "data.deletion-completed" identity correlation_id (now 2) t in
      record {
        request = with_event q2 e2;
        after = Store.erased (with_event q2 e2) e2 d t;
        returns =
            execute_deletion-carried_out (λ t. t) now identity correlation_id r s d may same tracked
              unfinished case_of
            ∙ rw
                (
                  free,
                  record_request-stored r s executing false identity "data.deletion-executing"
                      correlation_id (now 0) tracked same,
                  completion-stored p (with_event q2 e2) d e2 t
                      (rw (both_same r.tenant_id r.request_id) refl) refl case_of
                      (ap last_hash (
                        last_event-append identity.tenant_id r.request_id s t e refl
                          (both_same identity.tenant_id r.request_id)))
                      (rw (sym same) free),
                )
                refl;
        status = refl;
        forgotten = refl;
        recorded = rw (both_same r.tenant_id r.request_id) refl;
        erased = rw (both_same r.tenant_id d) refl;
      }

  -- Another thread puts the case under a hold, and leaves the request, its events and the cases alone.
  pub record PlacesHold (tenant request_id d : String) (others : Store → Store) : Type 0 where
    pub requests : (t : Store) → (others t).requests ≡ t.requests
    pub events :
        (t : Store) → last_event tenant request_id (others t) ≡ last_event tenant request_id t
    pub cases : (t : Store) → (others t).cases ≡ t.cases
    pub held : (t : Store) → (others t).holds tenant d ≡ true

  pub record EndsOvertaken (d : String) (r : DeletionRequest) (s : Store)
      (ran : Ran DeletionRequest) : Type 0 where
    pub request : DeletionRequest
    pub after : Store
    pub returns : ran ≡ returned request after
    pub status : request.status ≡ blocked_by_hold
    pub remembered : request.decision_id ≡ some d
    pub cases : after.cases ≡ s.cases
    pub held : after.holds r.tenant_id d ≡ true

  -- A hold that another thread places while a deletion is executing stops it: the call returns the
  -- request as BLOCKED_BY_HOLD, and no case is gone.
  pub execute_deletion-EndsOvertaken :
      (others : Store → Store) (now : ℕ → String) (identity : Identity) (correlation_id : String)
      (r : DeletionRequest) (s : Store) (d : String)
      → is_ok (authorize identity data_delete) ≡ true
      → identity.tenant_id ≡ r.tenant_id
      → IsTracked r s
      → is_same r.status completed ≡ false
      → r.decision_id ≡ some d
      → s.holds identity.tenant_id d ≡ false
      → PlacesHold r.tenant_id r.request_id d others
      → EndsOvertaken d r s (
          Service.execute_deletion hmac sha256_hex sha256_json others now identity r.request_id
            correlation_id s)
  unfolding Service.carried_out Service.completion Service.or_blocked with_status with_event
      Service.event_of
  execute_deletion-EndsOvertaken others now identity correlation_id r s d may same tracked
        unfinished case_of free places =
      let q = with_status r executing false none false in
      let e = change_event q "data.deletion-executing" identity correlation_id (now 0) s in
      let p = with_event q e in
      let t = stored p e s in
      let u = others t in
      let q2 = with_status p completed false (some (now 1)) true in
      let e2 = change_event q2 "data.deletion-completed" identity correlation_id (now 2) u in
      let q3 = with_status p blocked_by_hold true none false in
      let e3 = change_event q3 "data.deletion-blocked" identity correlation_id (now 3) u in
      let still_found : u.requests r.tenant_id r.request_id ≡ some p =
        ap (λ f. f r.tenant_id r.request_id) (places.requests t)
        ∙ rw (both_same r.tenant_id r.request_id) refl in
      let still_chained : last_hash (last_event r.tenant_id r.request_id u) ≡ some e.event_hash =
        ap last_hash (
          places.events t
          ∙ last_event-append r.tenant_id r.request_id s t e refl
              (rw same (both_same r.tenant_id r.request_id))) in
      record {
        request = with_event q3 e3;
        after = stored (with_event q3 e3) e3 u;
        returns =
            execute_deletion-carried_out others now identity correlation_id r s d may same tracked
              unfinished case_of
            ∙ rw
                (
                  free,
                  record_request-stored r s executing false identity "data.deletion-executing"
                      correlation_id (now 0) tracked same,
                  complete_deletion-held p (with_event q2 e2) d e2 u still_found refl case_of
                      (ap (λ x. last_hash (last_event x r.request_id u)) same ∙ still_chained)
                      (places.held t),
                )
                (record_request-stored p u blocked_by_hold true identity "data.deletion-blocked"
                  correlation_id (now 3) (record { found = still_found; chained = still_chained })
                  same);
        status = refl;
        remembered = case_of;
        cases = places.cases t;
        held = places.held t;
      }
