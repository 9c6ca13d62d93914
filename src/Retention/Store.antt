-- ===== src/Retention/Store.antt =====
-- lifecycle/repository.py: the repository in memory. A dictionary or a set is a function of its keys.
-- Each method holds the lock throughout, so it is one step.
use decision_assurance.Prelude.{
  String, Bool, true, false, not, ◌&&◌, ◌||◌, Option, none, some, List, [], ◌∷◌, ◌++◌, ◌==◌,
  option_eq, keep, last?, is_some, if◌then◌else◌,
}
use decision_assurance.Retention.Contracts.{
  DeletionRequest, DeletionStatus, executing, completed, LifecycleEvent, is_same,
}

pub record Store : Type 0 where
  pub cases : String → String → Bool
  pub requests : String → String → Option DeletionRequest
  pub idempotency : String → String → String → Option String
  pub holds : String → String → Bool
  pub events : List LifecycleEvent

pub data RetentionError : Type 0 where
  -- LifecycleConflict
  idempotency_key_reused case_not_found invalid_deletion_state : RetentionError
  -- LifecycleTransitionConflict
  submission_conflict status_conflict event_chain_conflict : RetentionError
  -- LegalHoldActive, AuthorizationDenied, KeyError
  hold_active forbidden no_such_request : RetentionError

-- What a call returns or raises, with the store that it leaves: an exception undoes nothing.
pub data Ran {ℓ} (A : Type ℓ) : Type ℓ where
  returned : A → Store → Ran A
  raised : RetentionError → Store → Ran A

abbrev pub Op {ℓ} : Type ℓ → Type ℓ
Op A = Store → Ran A

module _ {ℓ κ} {A : Type ℓ} {B : Type κ} where
  infixl 5 ◌>>=◌
  abbrev pub ◌>>=◌ : Op A → (A → Op B) → Op B
  ◌>>=◌ op next s = elim (op s) [ returned a t ↦ next a t | raised e t ↦ raised e t ]

infixl 5 ◌>>◌
abbrev pub ◌>>◌ {ℓ} : {B : Type ℓ} → Op (Unit {0}) → Op B → Op B
op >> rest = op >>= λ _. rest

-- `d[(tenant, key)] = value`
abbrev pub updated {ℓ} :
    {A : Type ℓ} → (String → String → A) → String → String → A → String → String → A
updated d tenant key value t k = if t == tenant && k == key then value else d t k

abbrev pub updated3 {ℓ} :
    {A : Type ℓ}
    → (String → String → String → A)
    → String
    → String
    → String
    → A
    → String
    → String
    → String
    → A
updated3 d tenant actor key value t a k =
    if t == tenant && a == actor && k == key then value else d t a k

unfoldable pub add_case : String → String → Op (Unit {0})
add_case tenant decision_id s =
    returned tt (record s { cases = updated s.cases tenant decision_id true })

-- `last_event`: the last event of a request, or of a hold, in a tenant
abbrev pub is_event_of : String → String → LifecycleEvent → Bool
is_event_of tenant request_id event = event.tenant_id == tenant && event.request_id == request_id

unfoldable pub last_event : String → String → Store → Option LifecycleEvent
last_event tenant request_id s = last? (keep (is_event_of tenant request_id) s.events)

abbrev pub last_hash : Option LifecycleEvent → Option String
last_hash none = none
last_hash (some event) = some event.event_hash

unfoldable pub get_by_idempotency : String → String → String → Op (Option DeletionRequest)
get_by_idempotency tenant actor_hash key_hash s = elim (s.idempotency tenant actor_hash key_hash) [
  | none ↦ returned none s
  | some request_id ↦ elim (s.requests tenant request_id) [
    | none ↦ raised no_such_request s
    | some request ↦ returned (some request) s
  ]
]

-- what `persist_transition` stores
abbrev pub stored : DeletionRequest → LifecycleEvent → Store → Store
stored request event s = record s {
  requests = updated s.requests request.tenant_id request.request_id (some request);
  idempotency =
      updated3 s.idempotency request.tenant_id request.actor_hash request.idempotency_key_hash
        (some request.request_id);
  events = s.events ++ event ∷ [];
}

abbrev pub is_same_submission : DeletionRequest → DeletionRequest → Bool
is_same_submission a b =
    a.case_ref_hash == b.case_ref_hash
    && a.actor_hash == b.actor_hash
    && a.idempotency_key_hash == b.idempotency_key_hash
    && a.reason_code == b.reason_code

-- the branch of `persist_transition` for a request that is there
unfoldable pub persist_over :
    DeletionRequest → DeletionRequest → LifecycleEvent → Option DeletionStatus → Op DeletionRequest
persist_over current request event none s =
    if not (is_same_submission current request)
    then raised submission_conflict s
    else returned current s
persist_over current request event (some expected) s =
    if not (is_same current.status expected)
    then if is_same current.status request.status || is_same current.status completed
      then returned current s
      else raised status_conflict s
    else if not (option_eq event.previous_event_hash (some current.event_hash))
    then raised event_chain_conflict s
    else returned request (stored request event s)

unfoldable pub persist_transition :
    DeletionRequest → LifecycleEvent → Option DeletionStatus → Op DeletionRequest
unfolding persist_over
persist_transition request event expected s =
    elim (s.requests request.tenant_id request.request_id) [
      | some current ↦ persist_over current request event expected s
      | none ↦
          if is_some expected
          then raised status_conflict s
          else if is_some event.previous_event_hash
          then raised event_chain_conflict s
          else returned request (stored request event s)
    ]

unfoldable pub set_hold : String → String → LifecycleEvent → Op Bool
unfolding last_event
set_hold tenant decision_id event s =
    if s.holds tenant decision_id
    then returned false s
    else if not
        (option_eq event.previous_event_hash (last_hash (last_event tenant event.request_id s)))
    then raised event_chain_conflict s
    else returned true (record s {
      holds = updated s.holds tenant decision_id true;
      events = s.events ++ event ∷ [];
    })

unfoldable pub release_hold : String → String → LifecycleEvent → Op Bool
unfolding last_event
release_hold tenant decision_id event s =
    if not (s.holds tenant decision_id)
    then returned false s
    else if not
        (option_eq event.previous_event_hash (last_hash (last_event tenant event.request_id s)))
    then raised event_chain_conflict s
    else returned true (record s {
      holds = updated s.holds tenant decision_id false;
      events = s.events ++ event ∷ [];
    })

-- what `complete_deletion` stores
abbrev pub erased : DeletionRequest → LifecycleEvent → String → Store → Store
erased request event decision_id s = record s {
  requests = updated s.requests request.tenant_id request.request_id (some request);
  events = s.events ++ event ∷ [];
  cases = updated s.cases request.tenant_id decision_id false;
}

-- `complete_deletion` for a request that is executing
unfoldable pub complete_executing :
    DeletionRequest → DeletionRequest → LifecycleEvent → Op DeletionRequest
complete_executing current request event s = elim current.decision_id [
  | none ↦ raised status_conflict s
  | some decision_id ↦
      if not (option_eq event.previous_event_hash (some current.event_hash))
      then raised event_chain_conflict s
      else if s.holds request.tenant_id decision_id
      then raised hold_active s
      else returned request (erased request event decision_id s)
]

unfoldable pub complete_deletion : DeletionRequest → LifecycleEvent → Op DeletionRequest
unfolding complete_executing
complete_deletion request event s = elim (s.requests request.tenant_id request.request_id) [
  | none ↦ raised status_conflict s
  | some current ↦
      if not (is_same current.status executing)
      then if is_same current.status completed then returned current s else raised status_conflict s
      else complete_executing current request event s
]

abbrev pub give {ℓ} : {A : Type ℓ} → A → Op A
give a s = returned a s

abbrev pub give_up {ℓ} : {A : Type ℓ} → RetentionError → Op A
give_up e s = raised e s

-- a read of the store
abbrev pub read {ℓ} : {A : Type ℓ} → (Store → A) → Op A
read f s = returned (f s) s

abbrev pub raise_unless : Bool → RetentionError → Op (Unit {0})
raise_unless true e s = returned tt s
raise_unless false e s = raised e s
