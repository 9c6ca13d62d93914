-- ===== src/Retention/Examples.antt =====
-- The theorems on deletions and holds at a store with one case.
use decision_assurance.Prelude.{
  ℕ, String, ◌≡◌, refl, is_ok, true, false, none, some, List, [], ◌∷◌, ◌==◌, ◌&&◌, ◌⧺◌,
}
use decision_assurance.Prelude.Json.{Json}
use decision_assurance.Access.Authorization.{authorize, data_delete}
use decision_assurance.Access.Identity.{Identity, tenant_admin, human}
use decision_assurance.Retention.Contracts.{
  DeletionRequest, DeletionStatus, requested, executing, LifecycleEvent, with_status, with_event,
  is_same,
}
use decision_assurance.Retention.Store.{
  Store, returned, stored, last_event, persist_transition, persist_over, get_by_idempotency,
}
use decision_assurance.Retention.Service
use decision_assurance.Retention.Holds.{
  RepositoryCall, completes, persists, IsHeld, carry_out_all, carry_out_all-IsHeld,
}
use decision_assurance.Retention.Execution.{
  IsTracked, EndsBlocked, EndsCompleted, EndsOvertaken, PlacesHold, execute_deletion-EndsBlocked,
  execute_deletion-EndsCompleted, execute_deletion-EndsOvertaken,
}
use decision_assurance.Retention.Submission.{request_deletion-again}

abbrev hmac : String → String
hmac s = "digest-of-" ⧺ s

abbrev sha256_hex : String → String
sha256_hex s = "0123456789abcdef0123456789abcdef"

abbrev sha256_json : Json → String
sha256_json j = "digest"

abbrev now : ℕ → String
now k = "2026-01-01T00:00:00Z"

abbrev later : ℕ → String
later k = "2026-02-01T00:00:00Z"

abbrev admin : Identity
admin = record {
  actor_id = "root";
  tenant_id = "tenant-a";
  role = tenant_admin;
  kind = human;
  organization_id = none;
  groups = [];
  roles = tenant_admin ∷ [];
  client_id = none;
  scopes = [];
}

abbrev one_case : Store
one_case = record {
  cases = λ t d. t == "tenant-a" && d == "case-1";
  requests = λ t r. none;
  idempotency = λ t a k. none;
  holds = λ t d. false;
  events = [];
}

-- the request that the submission of a deletion stores, and the store after it
abbrev draft : DeletionRequest
draft = Service.new_request hmac sha256_hex sha256_json admin "case-1" "GDPR" "key-1" (now 0) false

abbrev submission_event : LifecycleEvent
submission_event =
    Service.event_of hmac sha256_hex sha256_json draft "data.deletion-requested" admin "corr-1"
      (now 1) one_case

abbrev request : DeletionRequest
request = with_event draft submission_event

abbrev submitted : Store
submitted = stored request submission_event one_case

abbrev on_hold : Store
on_hold = record submitted { holds = λ t d. t == "tenant-a" && d == "case-1" }

submits :
    Service.request_deletion hmac sha256_hex sha256_json now admin "case-1" "GDPR" "key-1" "corr-1"
      one_case
    ≡ returned request submitted
unfolding Service.request_deletion Service.submitted Service.record_request Service.new_request
    Service.event_of Service.digest get_by_idempotency persist_transition persist_over with_event
    last_event authorize
submits = refl

request_deletion-again_example :
    Service.request_deletion hmac sha256_hex sha256_json later admin "case-1" "GDPR" "key-1"
      "corr-2" submitted
    ≡ returned request submitted
request_deletion-again_example =
    request_deletion-again hmac sha256_hex sha256_json now later admin "case-1" "GDPR" "key-1"
      "corr-1" "corr-2" request one_case submitted submits

may_delete : is_ok (authorize admin data_delete) ≡ true
unfolding authorize
may_delete = refl

IsTracked-submitted : IsTracked request submitted
unfolding Service.new_request Service.event_of Service.digest with_event last_event
IsTracked-submitted = record { found = refl; chained = refl }

IsTracked-on_hold : IsTracked request on_hold
unfolding Service.new_request Service.event_of Service.digest with_event last_event
IsTracked-on_hold = record { found = refl; chained = refl }

is_unfinished : is_same request.status DeletionStatus.completed ≡ false
unfolding Service.new_request with_event
is_unfinished = refl

is_of_case : request.decision_id ≡ some "case-1"
unfolding Service.new_request with_event
is_of_case = refl

is_in_tenant : "tenant-a" ≡ request.tenant_id
unfolding Service.new_request with_event
is_in_tenant = refl

execute_deletion-EndsBlocked_example : EndsBlocked hmac sha256_hex sha256_json "case-1" on_hold (
    Service.execute_deletion hmac sha256_hex sha256_json
      (λ t. t)
      now
      admin
      request.request_id
      "corr-3"
      on_hold)
execute_deletion-EndsBlocked_example =
    execute_deletion-EndsBlocked hmac sha256_hex sha256_json (λ t. t) now admin "corr-3" request
      on_hold "case-1" may_delete is_in_tenant IsTracked-on_hold is_unfinished is_of_case refl

execute_deletion-EndsCompleted_example :
    EndsCompleted hmac sha256_hex sha256_json "case-1" request (
      Service.execute_deletion hmac sha256_hex sha256_json
        (λ t. t)
        now
        admin
        request.request_id
        "corr-3"
        submitted)
execute_deletion-EndsCompleted_example =
    execute_deletion-EndsCompleted hmac sha256_hex sha256_json now admin "corr-3" request submitted
      "case-1" may_delete is_in_tenant IsTracked-submitted is_unfinished is_of_case refl

abbrev holding : Store → Store
holding t = record t { holds = λ tenant d. true }

PlacesHold-holding :
    PlacesHold hmac sha256_hex sha256_json request.tenant_id request.request_id "case-1" holding
unfolding last_event
PlacesHold-holding = record {
  requests = λ t. refl;
  events = λ t. refl;
  cases = λ t. refl;
  held = λ t. refl;
}

execute_deletion-EndsOvertaken_example :
    EndsOvertaken hmac sha256_hex sha256_json "case-1" request submitted (
      Service.execute_deletion hmac sha256_hex sha256_json holding now admin request.request_id
        "corr-3" submitted)
execute_deletion-EndsOvertaken_example =
    execute_deletion-EndsOvertaken hmac sha256_hex sha256_json holding now admin "corr-3" request
      submitted "case-1" may_delete is_in_tenant IsTracked-submitted is_unfinished is_of_case refl
      PlacesHold-holding

abbrev attempts : List RepositoryCall
attempts =
    persists (with_status request executing false none false) submission_event (some requested)
    ∷ completes request submission_event
    ∷ []

carry_out_all-IsHeld_example : IsHeld "tenant-a" "case-1" (carry_out_all attempts on_hold)
carry_out_all-IsHeld_example =
    carry_out_all-IsHeld "tenant-a" "case-1" attempts on_hold (refl, (refl, tt))
      (record { present = refl; held = refl })
