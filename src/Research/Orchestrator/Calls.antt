-- ===== src/Research/Orchestrator/Calls.antt =====
-- web_research/orchestrator.py: the calls of `ResearchOrchestrator`. Each leaves the run that it works on
-- in the state. `fingerprint` and `uuid` stand for `semantic_fingerprint` of idempotency.py with the
-- versions of the policy, and for `uuid5`.
use decision_assurance.Prelude.{
  ℕ, ◌+◌, String, Bool, true, false, not, ◌||◌, Option, none, some, List, [], ◌∷◌, ◌==◌, is_empty,
  ltb, Result, ok, err, if◌then◌else◌, ◌⧺◌,
}
use decision_assurance.Prelude.Json.{Json, str, obj, field, done}
use decision_assurance.Decisions.Document.{Document}
use decision_assurance.Research.Lifecycle.{
  ResearchStatus, cancelled, completed, created, evidence_compiled, failed, is_cancelled,
  partially_completed, searching,
}
use decision_assurance.Research.Runs.{
  DecisionEvidence, ResearchAttempt, ResearchError, ResearchRequest, ResearchRun,
}
use decision_assurance.Research.Ledger.{research_status_text}
use decision_assurance.Research.Handoff.{CaseDb, HandoffError, attach}
use decision_assurance.Research.Repository.{create_or_get, get}
use decision_assurance.Research.Orchestrator.State.{
  Op, Ports, Ran, State, handoff_failed, key_error, value_error, ask, ensure_active, in_db, move,
  pure, raise, raised, returned, save_run, set_run, with_run, ◌>>=◌, ◌>>◌,
}
use decision_assurance.Research.Orchestrator.Discovery.{discover}
use decision_assurance.Research.Orchestrator.Extraction.{
  compiled_evidence, extract_and_finalize, start_extraction,
}

abbrev pub is_created : ResearchStatus → Bool
is_created created = true
is_created _ = false

-- `{FAILED, PARTIALLY_COMPLETED}`
abbrev pub is_retryable : ResearchStatus → Bool
is_retryable failed = true
is_retryable partially_completed = true
is_retryable _ = false

-- `{EVIDENCE_COMPILED, COMPLETED, PARTIALLY_COMPLETED}`
abbrev pub is_ready : ResearchStatus → Bool
is_ready evidence_compiled = true
is_ready completed = true
is_ready partially_completed = true
is_ready _ = false

-- the retry time of the last error that has one
unfoldable pub last_retry_after : List ResearchError → Option ℕ
last_retry_after [] = none
last_retry_after (e ∷ es) = elim (last_retry_after es) [
  | some t ↦ some t
  | none ↦ elim e.provider [ none ↦ none | some p ↦ p.retry_after ]
]

-- `next((attempt for attempt in reversed(run.attempts) if attempt.status == "FAILED"), None)`
unfoldable pub last_failed : List ResearchAttempt → Option ℕ
last_failed [] = none
last_failed (a ∷ as') = elim (last_failed as') [
  | some t ↦ some t
  | none ↦ if a.status == "FAILED" then some a.occurred_at else none
]

-- the instant before which no retry is allowed
unfoldable pub retry_at : ResearchRun → Option ℕ
unfolding last_retry_after last_failed
retry_at run = elim (last_retry_after run.errors) [
  | none ↦ none
  | some wait ↦ elim (last_failed run.attempts) [ none ↦ none | some t ↦ some (t + wait) ]
]

module _ (o : Ports) (tenant : String) (actor_id : String) where
  abbrev pub new_run : ResearchRequest → String → String → String → ℕ → ResearchRun
  new_run request expected_hash correlation_id fingerprint now = record {
    research_run_id = "research-" ⧺ o.uuid fingerprint;
    tenant_id = tenant;
    actor_id = actor_id;
    request = request;
    expected_document_hash = expected_hash;
    semantic_fingerprint = fingerprint;
    status = created;
    created_at = now;
    updated_at = now;
    correlation_id = correlation_id;
    sources = [];
    snapshots = [];
    evidence = [];
    attempts = [];
    errors = [];
    audit_events = [];
    provider_cost_units = 0;
    compiled_decision_file_id = none;
    search_summary = none;
    search_provider_request_id = none;
  }

  unfoldable pub propose : ResearchRequest → String → String → Option String → Op ResearchRun
  unfolding ask
  propose request expected_hash correlation_id generation =
      if ltb o.policy.max_search_results request.max_search_results
      then raise (value_error "SEARCH_LIMIT_EXCEEDS_CONFIGURATION")
      else if ltb o.policy.max_extractions request.max_sources_to_extract
      then raise (value_error "EXTRACTION_LIMIT_EXCEEDS_CONFIGURATION")
      else (ask o.clock >>= λ now. pure (
          new_run request expected_hash correlation_id
            (o.fingerprint tenant request expected_hash generation) now))

  -- `prepare`, and `run` becomes the run that the call works on
  unfoldable pub prepare : ResearchRequest → String → String → Option String → Op (Unit {0})
  unfolding propose
  prepare request expected_hash correlation_id generation =
      propose request expected_hash correlation_id generation >>= λ proposed.
      in_db (create_or_get o.same_request tenant proposed) >>= set_run

  -- the phases that follow a search, `retry` being `retry_only`
  unfoldable pub after_discovery : Bool → Op (Unit {0})
  unfolding ensure_active start_extraction extract_and_finalize
  after_discovery found =
      if not found
      then pure tt
      else (ensure_active o tenant actor_id
          >> start_extraction o tenant actor_id false
          >> extract_and_finalize o tenant actor_id false)

  unfoldable pub search_phase : List String → (ResearchRun → Json) → Bool → Op (Unit {0})
  unfolding move save_run discover after_discovery
  search_phase reason_codes payload retry =
      move o tenant actor_id searching reason_codes payload retry
      >> save_run o tenant actor_id
      >> (discover o tenant actor_id >>= after_discovery)

  unfoldable pub execute : ResearchRequest → String → String → Option String → Op (Unit {0})
  unfolding ensure_active prepare search_phase
  execute request expected_hash correlation_id generation =
      ensure_active o tenant actor_id
      >> prepare request expected_hash correlation_id generation
      >> with_run λ run.
        if not (is_empty run.audit_events) || not (is_created run.status)
        then pure tt
        else (ensure_active o tenant actor_id
            >> search_phase ("SEARCH_STARTED" ∷ [])
                (λ _. obj (field "query_hash" (str (o.sha256_hex request.query)) done)) false)

  abbrev pub required_in : State → Option ResearchRun → Ran (Unit {0})
  required_in s none = raised (key_error "RESEARCH_RUN_NOT_FOUND") s
  required_in s (some run) = set_run run s

  -- `_required`: the stored run becomes the one that the call works on
  unfoldable pub required : String → Op (Unit {0})
  unfolding get
  required run_id s = required_in s (get tenant run_id s.db)

  -- `_enforce_retry_window`
  unfoldable pub wait_over : Option ℕ → Op (Unit {0})
  unfolding ask
  wait_over none = pure tt
  wait_over (some t) = ask o.clock >>= λ now.
      if ltb now t then raise (value_error "PROVIDER_RETRY_AFTER_ACTIVE") else pure tt

  unfoldable pub validate_retry : String → Op (Unit {0})
  unfolding required wait_over retry_at
  validate_retry run_id =
      required run_id
      >> with_run λ run.
        if not (is_retryable run.status)
        then raise (
            value_error
              ("RESEARCH_TRANSITION_NOT_ALLOWED:" ⧺ research_status_text run.status ⧺ ":RETRY"))
        else wait_over (retry_at run)

  abbrev pub take_over : String → Op (Unit {0})
  take_over correlation_id =
      with_run λ run. set_run (record run { actor_id = actor_id; correlation_id = correlation_id })

  unfoldable pub retry : String → String → Op (Unit {0})
  unfolding ensure_active validate_retry search_phase start_extraction extract_and_finalize
  retry run_id correlation_id =
      ensure_active o tenant actor_id
      >> validate_retry run_id
      >> take_over correlation_id
      >> with_run λ run.
        if is_empty run.sources
        then search_phase ("RESEARCH_RETRY_STARTED" ∷ [])
            (λ _. obj (field "phase" (str "search") done)) true
        else (start_extraction o tenant actor_id true
            >> extract_and_finalize o tenant actor_id true)

  unfoldable pub cancel : String → String → Op (Unit {0})
  unfolding required move save_run
  cancel run_id correlation_id =
      required run_id
      >> with_run λ run.
        if is_cancelled run.status
        then pure tt
        else (take_over correlation_id
            >> move o tenant actor_id cancelled ("RESEARCH_CANCELLED" ∷ [])
                (λ _. obj (field "run_id" (str run_id) done)) false
            >> save_run o tenant actor_id)

  -- `self._handoff.attach` and what is kept of its result
  abbrev pub handed_over :
      ResearchRun → State → Result HandoffError (Document × CaseDb) → Ran (Unit {0})
  handed_over run s (err e) = raised (handoff_failed e) s
  handed_over run s (ok (document, cases)) = returned tt (record s {
    run = record run {
      expected_document_hash = o.document_hash document;
      compiled_decision_file_id = some run.request.decision_file_id;
    };
    cases = cases;
  })

  unfoldable pub hand_over : List DecisionEvidence → Op (Unit {0})
  unfolding attach
  hand_over compiled = with_run λ run s. handed_over run s (
      attach o.sha256_json o.sha256_ascii o.document_hash o.contract_ok o.text_of tenant
        run.request.decision_file_id run.expected_document_hash compiled s.cases)

  abbrev pub is_handed_over : Option String → Bool
  is_handed_over none = false
  is_handed_over (some _) = true

  unfoldable pub handoff : String → String → Op (Unit {0})
  unfolding required compiled_evidence hand_over save_run
  handoff run_id correlation_id =
      required run_id
      >> with_run λ run.
        if is_handed_over run.compiled_decision_file_id
        then pure tt
        else if not (is_ready run.status)
        then raise (value_error "RESEARCH_NOT_READY_FOR_HANDOFF")
        else (compiled_evidence o tenant actor_id >>= λ compiled.
            if is_empty compiled
            then raise (value_error "NO_USABLE_EVIDENCE")
            else (take_over correlation_id >> hand_over compiled >> save_run o tenant actor_id))
