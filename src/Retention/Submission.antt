-- ===== src/Retention/Submission.antt =====
-- Submitting a deletion again: `request_deletion` of lifecycle/service.py is idempotent.
use decision_assurance.Prelude.{
  ℕ, String, ◌≡◌, refl, sym, ◌∙◌, true, false, ◌&&◌, none, some, arith, ◌==◌, eq_refl, Bool-cases,
  Option-cases, inl, inr, is_ok, is_some,
}
use mathlib.Core.Path.{subst}
use decision_assurance.Prelude.Json.{Json}
use decision_assurance.Access.Identity.{Identity}
use decision_assurance.Access.Authorization.{authorize, data_delete}
use decision_assurance.Retention.Contracts.{DeletionRequest, LifecycleEvent, with_event}
use decision_assurance.Retention.Store.{
  Store, returned, raised, stored, get_by_idempotency, persist_transition, persist_over,
  is_same_submission, ◌>>=◌, raise_unless, no_such_request,
}
use decision_assurance.Retention.Service

returned_inj :
    {A : Type 0} (a b : A) (s t : Store) → returned a s ≡ returned b t → (a ≡ b) × (s ≡ t)
returned_inj a b s t h = (cc, cc)

both_same : (a b : String) → (a == a && b == b) ≡ true
both_same a b = ground (arith, eq_refl a, eq_refl b)

all_same : (a b c : String) → (a == a && b == b && c == c) ≡ true
all_same a b c = ground (arith, eq_refl a, eq_refl b, eq_refl c)

module _ (hmac : String → String) (sha256_hex : String → String) (sha256_json : Json → String) where
  abbrev actor_of : Identity → String
  actor_of identity =
      Service.digest hmac sha256_hex sha256_json "actor" identity.tenant_id identity.actor_id

  abbrev key_of : Identity → String → String
  key_of identity key =
      Service.digest hmac sha256_hex sha256_json "idempotency" identity.tenant_id key

  abbrev case_of : Identity → String → String
  case_of identity d = Service.digest hmac sha256_hex sha256_json "case" identity.tenant_id d

  abbrev submission : Identity → String → String → String → DeletionRequest
  submission identity d reason key =
      Service.new_request hmac sha256_hex sha256_json identity d reason key "" false

  -- What a submission leaves: its key leads to the request that it has returned, of this case and this
  -- reason, or its key is not known and the request stands in its way.
  data IsSettled (identity : Identity) (d reason key : String) (r : DeletionRequest) (t : Store)
      : Type 0 where
    by_key :
        (id : String)
        → t.idempotency identity.tenant_id (actor_of identity) (key_of identity key) ≡ some id
        → t.requests identity.tenant_id id ≡ some r
        → (r.case_ref_hash == case_of identity d) ≡ true
        → (r.reason_code == reason) ≡ true
        → IsSettled identity d reason key r t
    by_request :
        t.idempotency identity.tenant_id (actor_of identity) (key_of identity key) ≡ none
        → t.cases identity.tenant_id d ≡ true
        → t.requests identity.tenant_id (submission identity d reason key).request_id ≡ some r
        → is_same_submission r (submission identity d reason key) ≡ true
        → IsSettled identity d reason key r t

  lookup-some :
      (t : Store) (tenant actor key id : String) (r : DeletionRequest)
      → t.idempotency tenant actor key ≡ some id
      → t.requests tenant id ≡ some r
      → get_by_idempotency tenant actor key t ≡ returned (some r) t
  unfolding get_by_idempotency
  lookup-some t tenant actor key id r keyed found = simp (get_by_idempotency, keyed, found)

  lookup-none :
      (t : Store) (tenant actor key : String)
      → t.idempotency tenant actor key ≡ none
      → get_by_idempotency tenant actor key t ≡ returned none t
  unfolding get_by_idempotency
  lookup-none t tenant actor key keyed = simp (get_by_idempotency, keyed)

  replayed-ok :
      (case_hash reason : String) (r : DeletionRequest) (t : Store)
      → (r.case_ref_hash == case_hash) ≡ true
      → (r.reason_code == reason) ≡ true
      → Service.replayed hmac sha256_hex sha256_json case_hash reason r t ≡ returned r t
  unfolding Service.replayed
  replayed-ok case_hash reason r t same_case same_reason = simp (same_case, same_reason)

  persist_transition-stands :
      (r q : DeletionRequest) (e : LifecycleEvent) (t : Store)
      → t.requests q.tenant_id q.request_id ≡ some r
      → is_same_submission r q ≡ true
      → persist_transition q e none t ≡ returned r t
  unfolding persist_transition persist_over
  persist_transition-stands r q e t found same = ground (arith, found, same)

  submitted-stands :
      (now : ℕ → String) (identity : Identity) (d reason key correlation_id : String)
      (r : DeletionRequest) (t : Store)
      → t.cases identity.tenant_id d ≡ true
      → t.requests identity.tenant_id (submission identity d reason key).request_id ≡ some r
      → is_same_submission r (submission identity d reason key) ≡ true
      → Service.submitted hmac sha256_hex sha256_json now identity d reason key correlation_id t
        ≡ returned r t
  unfolding Service.submitted Service.record_request with_event Service.new_request
  submitted-stands now identity d reason key correlation_id r t known found same =
      rw known (persist_transition-stands r _ _ t found same)

  settled_again :
      (now : ℕ → String) (identity : Identity) (d reason key correlation_id : String)
      (r : DeletionRequest) (t : Store)
      → is_ok (authorize identity data_delete) ≡ true
      → IsSettled identity d reason key r t
      → Service.request_deletion hmac sha256_hex sha256_json now identity d reason key
          correlation_id t
        ≡ returned r t
  unfolding Service.request_deletion
  settled_again now identity d reason key correlation_id r t may
        (by_key id keyed found same_case same_reason) =
      rw
        (
          may,
          ◌>>=◌,
          raise_unless,
          lookup-some t identity.tenant_id (actor_of identity) (key_of identity key) id r keyed
              found,
        )
        (replayed-ok (case_of identity d) reason r t same_case same_reason)
  settled_again now identity d reason key correlation_id r t may
        (by_request keyed known found same) =
      rw
        (
          may,
          ◌>>=◌,
          raise_unless,
          lookup-none t identity.tenant_id (actor_of identity) (key_of identity key) keyed,
        )
        (submitted-stands now identity d reason key correlation_id r t known found same)

  replayed-settles :
      (identity : Identity) (d reason key id : String) (found r : DeletionRequest) (s t : Store)
      → s.idempotency identity.tenant_id (actor_of identity) (key_of identity key) ≡ some id
      → s.requests identity.tenant_id id ≡ some found
      → Service.replayed hmac sha256_hex sha256_json (case_of identity d) reason found s
        ≡ returned r t
      → IsSettled identity d reason key r t
  unfolding Service.replayed
  replayed-settles identity d reason key id found r s t keyed there h =
      elim (Bool-cases (found.case_ref_hash == case_of identity d)) [
        | inr n ↦ ground (arith, n, h)
        | inl y ↦ elim (Bool-cases (found.reason_code == reason)) [
          | inr n ↦ ground (arith, n, y, h)
          | inl z ↦
              let (same, store) = returned_inj found r s t (rw (y, z) at h) in
              subst (IsSettled identity d reason key r) store
                (subst (λ x. IsSettled identity d reason key x s) same (by_key id keyed there y z))
        ]
      ]

  lookup-missing :
      (t : Store) (tenant actor key id : String)
      → t.idempotency tenant actor key ≡ some id
      → t.requests tenant id ≡ none
      → get_by_idempotency tenant actor key t ≡ raised no_such_request t
  unfolding get_by_idempotency
  lookup-missing t tenant actor key id keyed missing = simp (get_by_idempotency, keyed, missing)

  persist_transition-inserted :
      (q : DeletionRequest) (e : LifecycleEvent) (s : Store)
      → s.requests q.tenant_id q.request_id ≡ none
      → is_some e.previous_event_hash ≡ false
      → persist_transition q e none s ≡ returned q (stored q e s)
  unfolding persist_transition
  persist_transition-inserted q e s missing n = simp (persist_transition, missing, n)

  -- what a submission that the store does not know can return
  persist_transition-new :
      (q r : DeletionRequest) (e : LifecycleEvent) (s t : Store)
      → s.requests q.tenant_id q.request_id ≡ none
      → persist_transition q e none s ≡ returned r t
      → (r ≡ q) × (t ≡ stored q e s)
  unfolding persist_transition
  persist_transition-new q r e s t missing h = elim (Bool-cases (is_some e.previous_event_hash)) [
    | inl y ↦ ground (arith, missing, y, h)
    | inr n ↦
        let (same, store) =
          returned_inj q r (stored q e s) t
            (sym (persist_transition-inserted q e s missing n) ∙ h) in
        (sym same, sym store)
  ]

  persist_transition-old :
      (q r current : DeletionRequest) (e : LifecycleEvent) (s t : Store)
      → s.requests q.tenant_id q.request_id ≡ some current
      → persist_transition q e none s ≡ returned r t
      → (is_same_submission current q ≡ true) × (r ≡ current) × (t ≡ s)
  unfolding persist_transition persist_over
  persist_transition-old q r current e s t there h =
      elim (Bool-cases (is_same_submission current q)) [
        | inr n ↦ ground (arith, there, n, h)
        | inl y ↦
            let (same, store) =
              returned_inj current r s t
                (sym (persist_transition-stands current q e s there y) ∙ h) in
            (y, sym same, sym store)
      ]

  submitted-settles :
      (now : ℕ → String) (identity : Identity) (d reason key correlation_id : String)
      (r : DeletionRequest) (s t : Store)
      → s.idempotency identity.tenant_id (actor_of identity) (key_of identity key) ≡ none
      → s.cases identity.tenant_id d ≡ true
      → Service.submitted hmac sha256_hex sha256_json now identity d reason key correlation_id s
        ≡ returned r t
      → IsSettled identity d reason key r t
  unfolding Service.submitted Service.record_request with_event Service.new_request
  submitted-settles now identity d reason key correlation_id r s t keyed known h =
      let q0 =
        Service.new_request hmac sha256_hex sha256_json identity d reason key (now 0)
          (s.holds identity.tenant_id d) in
      let e =
        Service.event_of hmac sha256_hex sha256_json q0 "data.deletion-requested" identity
          correlation_id (now 1) s in
      let q = with_event q0 e in
      let recorded : persist_transition q e none s ≡ returned r t = rw known at h in
      elim (Option-cases (s.requests q.tenant_id q.request_id)) [
        | inr (current, there) ↦
            let (accepted, same, store) = persist_transition-old q r current e s t there recorded in
            subst (IsSettled identity d reason key r) (sym store) (
              subst (λ x. IsSettled identity d reason key x s) (sym same)
                (by_request keyed known there accepted))
        | inl missing ↦
            let (same, store) = persist_transition-new q r e s t missing recorded in
            subst (IsSettled identity d reason key r) (sym store) (
              subst (λ x. IsSettled identity d reason key x (stored q e s)) (sym same)
                (by_key q.request_id
                  (rw (all_same q.tenant_id q.actor_hash q.idempotency_key_hash) refl)
                  (rw (both_same q.tenant_id q.request_id) refl) (eq_refl q.case_ref_hash)
                  (eq_refl reason)))
      ]

  submitted-known :
      (now : ℕ → String) (identity : Identity) (d reason key correlation_id : String)
      (r : DeletionRequest) (s t : Store)
      → Service.submitted hmac sha256_hex sha256_json now identity d reason key correlation_id s
        ≡ returned r t
      → s.cases identity.tenant_id d ≡ true
  unfolding Service.submitted
  submitted-known now identity d reason key correlation_id r s t h =
      elim (Bool-cases (s.cases identity.tenant_id d)) [
        | inl y ↦ y
        | inr n ↦ ground (arith, rw (n, ◌>>=◌, raise_unless) at h)
      ]

  request_deletion-settles :
      (now : ℕ → String) (identity : Identity) (d reason key correlation_id : String)
      (r : DeletionRequest) (s t : Store)
      → is_ok (authorize identity data_delete) ≡ true
      → Service.request_deletion hmac sha256_hex sha256_json now identity d reason key
          correlation_id s
        ≡ returned r t
      → IsSettled identity d reason key r t
  unfolding Service.request_deletion
  request_deletion-settles now identity d reason key correlation_id r s t may h =
      let lookup =
        get_by_idempotency identity.tenant_id (actor_of identity) (key_of identity key) in
      elim (Option-cases
        (s.idempotency identity.tenant_id (actor_of identity) (key_of identity key))) [
          | inl keyed ↦
              let fresh : Service.submitted hmac sha256_hex sha256_json now identity d reason key
                    correlation_id s
                  ≡ returned r t =
                rw
                  (
                    may,
                    ◌>>=◌,
                    raise_unless,
                    lookup-none s identity.tenant_id (actor_of identity) (key_of identity key)
                        keyed,
                  )
                  at h in
              submitted-settles now identity d reason key correlation_id r s t keyed
                (submitted-known now identity d reason key correlation_id r s t fresh) fresh
          | inr (id, keyed) ↦ elim (Option-cases (s.requests identity.tenant_id id)) [
            | inl missing ↦ ground (
              arith,
              rw
                  (
                    may,
                    ◌>>=◌,
                    raise_unless,
                    lookup-missing s identity.tenant_id (actor_of identity) (key_of identity key) id
                        keyed missing,
                  )
                  at h,
            )
            | inr (found, there) ↦
                replayed-settles identity d reason key id found r s t keyed there (
                  rw
                    (
                      may,
                      ◌>>=◌,
                      raise_unless,
                      lookup-some s identity.tenant_id (actor_of identity) (key_of identity key) id
                          found keyed there,
                    )
                    at h)
          ]
        ]

  -- A submission that returns a request returns the same one, and changes nothing, when it is made
  -- again, at any later time and under any correlation id.
  pub request_deletion-again :
      (now later : ℕ → String) (identity : Identity) (d reason key correlation_id other_id : String)
      (r : DeletionRequest) (s t : Store)
      → Service.request_deletion hmac sha256_hex sha256_json now identity d reason key
          correlation_id s
        ≡ returned r t
      → Service.request_deletion hmac sha256_hex sha256_json later identity d reason key other_id t
        ≡ returned r t
  unfolding Service.request_deletion
  request_deletion-again now later identity d reason key correlation_id other_id r s t h =
      elim (Bool-cases (is_ok (authorize identity data_delete))) [
        | inr n ↦ ground (arith, rw (n, ◌>>=◌, raise_unless) at h)
        | inl may ↦
            settled_again later identity d reason key other_id r t may
              (request_deletion-settles now identity d reason key correlation_id r s t may h)
      ]
