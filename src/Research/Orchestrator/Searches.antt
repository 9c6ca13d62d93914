-- ===== src/Research/Orchestrator/Searches.antt =====
-- The search for sources keeps a run sound, whatever the provider answers (web_research/orchestrator.py).
use decision_assurance.Prelude.{
  sym, String, Bool, true, false, not, none, ◌≡◌, Option, not-eq-false,
}
use mathlib.Core.Path.{subst}
use decision_assurance.Research.Repository.{ResearchDb}
use decision_assurance.Research.Runs.{ResearchRun, SearchResponse}
use decision_assurance.Research.Orchestrator.State.{
  Answer, Ports, SearchOutcome, request_failed, responded, search_broke, can_attempt, ensure_active,
  fail_run, reserve, provider_error,
}
use decision_assurance.Research.Orchestrator.Triples.{
  Keeps, ◌⨟◌, Keeps->>=, Keeps-ask, Keeps-pure, Leads, Leads->>=, Leads-before, Leads-choice,
  Leads-if, Leads-or_else, Leads-run, Leads-with_run,
}
use decision_assurance.Research.Orchestrator.Soundness.{
  CanAttempt, IsSound, admit_call-Keeps, ensure_active-Keeps, fail_attempt-IsSound, move-IsSound,
  note_failure-IsSound, note_success-IsSound, record_decisions-IsSound, record_error-IsSound,
  save_run-IsSound, succeed_attempt-IsSound, try_reserve-IsSound,
}
use decision_assurance.Research.Orchestrator.Discovery.{
  after_search, call_search, discover, give_up, search_once, search_query, store_discovery,
}

module _ (o : Ports) (tenant actor_id : String) where
  pub active-IsSound : Keeps (IsSound o) (IsSound o) (ensure_active o tenant actor_id)
  active-IsSound = ensure_active-Keeps o tenant actor_id (IsSound o) (λ _ _ h. h)

  pub fail_run-IsSound :
      (reason_code : String)
      → Keeps (IsSound o) (IsSound o) (fail_run o tenant actor_id reason_code)
  unfolding fail_run
  fail_run-IsSound reason_code =
      move-IsSound o tenant actor_id _ _ _ _ ⨟ save_run-IsSound o tenant actor_id

  -- An admissible attempt, and the unit of the budget that it takes.
  pub reserve-IsSound :
      (provider_id operation : String) (source_id : Option String)
      → Leads
          (IsSound o)
          (CanAttempt o tenant actor_id operation source_id)
          (reserve o tenant actor_id provider_id operation source_id)
          (λ _. IsSound o)
  unfolding reserve
  reserve-IsSound provider_id operation source_id =
      ensure_active-Keeps o tenant actor_id _ (λ _ _ h. h.0)
      ⨟ try_reserve-IsSound o tenant actor_id provider_id operation source_id

  store_discovery-IsSound :
      (response : SearchResponse)
      → Keeps (IsSound o) (IsSound o) (store_discovery o tenant actor_id response)
  unfolding store_discovery
  store_discovery-IsSound response = record { at = λ s h. h }

  give_up-IsSound :
      (provider_id reason_code : String) (retryable : Bool)
      → Keeps (IsSound o) (IsSound o) (give_up o tenant actor_id provider_id reason_code retryable)
  unfolding give_up
  give_up-IsSound provider_id reason_code retryable =
      record_error-IsSound o _ _ ⨟ fail_run-IsSound reason_code ⨟ Keeps-pure _

  call_search-IsSound : Keeps (IsSound o) (IsSound o) (call_search o tenant actor_id)
  unfolding call_search
  call_search-IsSound =
      Leads-or_else (λ _. IsSound o) search_broke _ (λ _ _ h. h)
        (active-IsSound
          ⨟ Leads-run λ run.
            Keeps->>= (Keeps-ask (IsSound o) (λ n. o.search n (search_query run)))
              (λ (answer : Answer SearchOutcome).
                record_decisions-IsSound o tenant actor_id answer.decisions
                ⨟ Keeps-pure answer.outcome))

  after_search-IsSound :
      (outcome : SearchOutcome)
      → Keeps (IsSound o) (IsSound o) (after_search o tenant actor_id outcome)
  unfolding after_search
  after_search-IsSound (responded response) =
      active-IsSound
      ⨟ note_success-IsSound o tenant actor_id _
      ⨟ succeed_attempt-IsSound o
      ⨟ store_discovery-IsSound response
      ⨟ move-IsSound o tenant actor_id _ _ _ _
      ⨟ save_run-IsSound o tenant actor_id
      ⨟ Keeps-pure _
  after_search-IsSound (request_failed e) =
      active-IsSound
      ⨟ note_failure-IsSound o tenant actor_id _ _
      ⨟ fail_attempt-IsSound o e
      ⨟ record_error-IsSound o _ _
      ⨟ fail_run-IsSound _
      ⨟ Keeps-pure _
  after_search-IsSound search_broke =
      active-IsSound
      ⨟ note_failure-IsSound o tenant actor_id _ _
      ⨟ fail_attempt-IsSound o (provider_error o.search_id "PROVIDER_UNAVAILABLE" true)
      ⨟ record_error-IsSound o _ _
      ⨟ fail_run-IsSound _
      ⨟ Keeps-pure _

  -- A condition for an attempt that holds when its test holds.
  pub can_attempt-CanAttempt :
      (operation : String) (source_id : Option String) (run r : ResearchRun) (db : ResearchDb)
      → not (can_attempt o tenant actor_id operation source_id run) ≡ false
      → IsSound o r db × (r ≡ run)
      → CanAttempt o tenant actor_id operation source_id r db
  can_attempt-CanAttempt operation source_id run r db e (h, same) = (
    h,
    subst (λ x. can_attempt o tenant actor_id operation source_id x ≡ true) (sym same)
        (not-eq-false _ e),
  )

  search_once-IsSound :
      Leads
        (IsSound o)
        (CanAttempt o tenant actor_id "search" none)
        (search_once o tenant actor_id)
        (λ _. IsSound o)
  unfolding search_once
  search_once-IsSound =
      Keeps->>= (admit_call-Keeps o tenant actor_id _ _ (λ _ _ h. h.0)) λ admitted.
        Leads-choice (not admitted)
          (Leads-before _ (IsSound o) _ (λ _ _ h. h.0) (give_up-IsSound _ _ _))
          (Leads->>= _ _ (λ _. IsSound o) _ (reserve-IsSound _ _ _)
            λ reserved.
              Leads-choice (not reserved) (give_up-IsSound _ _ _)
                (Keeps->>= call_search-IsSound after_search-IsSound))

  pub discover-IsSound : Keeps (IsSound o) (IsSound o) (discover o tenant actor_id)
  unfolding discover
  discover-IsSound =
      active-IsSound
      ⨟ Leads-with_run _ _ λ run.
        Leads-if _ (not (can_attempt o tenant actor_id "search" none run)) _ _
          (λ _. Leads-before _ (IsSound o) _ (λ _ _ h. h.0) (give_up-IsSound _ _ _))
          (λ e.
            Leads-before _ (CanAttempt o tenant actor_id "search" none) _
              (λ r db h. can_attempt-CanAttempt "search" none run r db e h) search_once-IsSound)
