-- ===== src/Research/Orchestrator/Runs.antt =====
-- The calls of the orchestrator keep everything sound (web_research/orchestrator.py), whatever the
-- providers and the clocks answer, whenever a call is cancelled, and whether it returns or raises.
use decision_assurance.Prelude.{
  ℕ, ◌≤◌, ◌≡◌, refl, String, Bool, true, false, not, ◌||◌, Option, none, some, List, [], ◌∷◌,
  All-append, ltb, find_first, find_first_lem, is_empty, Result, ok, err, raise_if-eq-ok, ok_inj,
  arith,
}
use mathlib.Core.Path.{subst}
use decision_assurance.Prelude.Json.{Json, str, obj, field, done}
use decision_assurance.Decisions.Document.{Document}
use decision_assurance.Research.Lifecycle.{cancelled, is_cancelled}
use decision_assurance.Research.Runs.{DecisionEvidence, ResearchRequest, ResearchRun}
use decision_assurance.Research.Handoff.{CaseDb, HandoffError}
use decision_assurance.Research.Repository.{
  BudgetRow, Called, ResearchDb, RunRow, create_or_get, get, is_run, stored_run, insert_run,
  new_run_row, new_budget_row, found_or_new, has_fingerprint, is_prior, integrity_error,
  tenant_mismatch,
}
use decision_assurance.Research.Orchestrator.State.{
  Ports, State, value_error, pure, called_in, in_db, set_run,
}
use decision_assurance.Research.Orchestrator.Triples.{
  Condition, Keeps, ◌⨟◌, Keeps->>=, Keeps-ask, Keeps-pure, Keeps-raise, Leads, Leads->>=,
  Leads-choice, Leads-run, Post,
}
use decision_assurance.Research.Orchestrator.Soundness.{
  IsSound, IsSoundDb, IsSoundRun, move-IsSound, save_run-IsSound,
}
use decision_assurance.Research.Orchestrator.Searches.{active-IsSound, discover-IsSound}
use decision_assurance.Research.Orchestrator.Extractions.{
  compiled_evidence-IsSound, extract_and_finalize-IsSound, start_extraction-IsSound,
}
use decision_assurance.Research.Orchestrator.Calls.{
  after_discovery, cancel, execute, hand_over, handed_over, handoff, is_created, is_handed_over,
  is_ready, is_retryable, new_run, prepare, propose, required, required_in, retry, search_phase,
  take_over, validate_retry, wait_over,
}

zero_le : (n : ℕ) → 0 ≤ n
zero_le n = omega arith

module _ (o : Ports) (tenant actor_id : String) where
  after_discovery-IsSound :
      (found : Bool) → Keeps (IsSound o) (IsSound o) (after_discovery o tenant actor_id found)
  unfolding after_discovery
  after_discovery-IsSound found = Leads-choice (not found) (Keeps-pure _) (
      active-IsSound o tenant actor_id
      ⨟ start_extraction-IsSound o tenant actor_id false
      ⨟ extract_and_finalize-IsSound o tenant actor_id false)

  search_phase-IsSound :
      (reason_codes : List String) (payload : ResearchRun → Json) (retry : Bool)
      → Keeps (IsSound o) (IsSound o) (search_phase o tenant actor_id reason_codes payload retry)
  unfolding search_phase
  search_phase-IsSound reason_codes payload retry =
      move-IsSound o tenant actor_id _ _ _ _
      ⨟ save_run-IsSound o tenant actor_id
      ⨟ Keeps->>= (discover-IsSound o tenant actor_id) after_discovery-IsSound

  take_over-IsSound :
      (correlation_id : String)
      → Keeps (IsSound o) (IsSound o) (take_over o tenant actor_id correlation_id)
  take_over-IsSound correlation_id = record { at = λ s h. h }

  -- a stored run is sound
  required_cases :
      (r : Option RunRow) (s : State)
      → ((row : RunRow) → r ≡ some row → IsSoundRun o row.run)
      → IsSound o s.run s.db
      → Post (IsSound o) (λ _. IsSound o) (required_in o tenant actor_id s (stored_run r))
  required_cases none s k h = h
  required_cases (some row) s k h = (k row refl, h.1)

  required-IsSound :
      (run_id : String) → Keeps (IsSound o) (IsSound o) (required o tenant actor_id run_id)
  unfolding required get
  required-IsSound run_id = record {
    at = λ s h.
        required_cases (find_first (is_run tenant run_id) s.db.runs) s
          (λ row e.
            (find_first_lem (λ (r : RunRow). IsSoundRun o r.run) (is_run tenant run_id) s.db.runs
              h.1.0 e).1)
          h;
  }

  wait_over-IsSound : (t : Option ℕ) → Keeps (IsSound o) (IsSound o) (wait_over o tenant actor_id t)
  unfolding wait_over
  wait_over-IsSound none = Keeps-pure _
  wait_over-IsSound (some t) = Keeps->>= (Keeps-ask (IsSound o) o.clock) (λ now.
      Leads-choice (ltb now t) (Keeps-raise (value_error "PROVIDER_RETRY_AFTER_ACTIVE"))
        (Keeps-pure tt))

  validate_retry-IsSound :
      (run_id : String) → Keeps (IsSound o) (IsSound o) (validate_retry o tenant actor_id run_id)
  unfolding validate_retry
  validate_retry-IsSound run_id =
      required-IsSound run_id
      ⨟ Leads-run
          λ run. Leads-choice (not (is_retryable run.status)) (Keeps-raise _) (wait_over-IsSound _)

  pub retry-IsSound :
      (run_id correlation_id : String)
      → Keeps (IsSound o) (IsSound o) (retry o tenant actor_id run_id correlation_id)
  unfolding retry
  retry-IsSound run_id correlation_id =
      active-IsSound o tenant actor_id
      ⨟ validate_retry-IsSound run_id
      ⨟ take_over-IsSound correlation_id
      ⨟ Leads-run λ run. Leads-choice (is_empty run.sources) (search_phase-IsSound _ _ _) (
          start_extraction-IsSound o tenant actor_id true
          ⨟ extract_and_finalize-IsSound o tenant actor_id true)

  pub cancel-IsSound :
      (run_id correlation_id : String)
      → Keeps (IsSound o) (IsSound o) (cancel o tenant actor_id run_id correlation_id)
  unfolding cancel
  cancel-IsSound run_id correlation_id =
      required-IsSound run_id
      ⨟ Leads-run λ run. Leads-choice (is_cancelled run.status) (Keeps-pure _) (
          take_over-IsSound correlation_id
          ⨟ move-IsSound o tenant actor_id cancelled ("RESEARCH_CANCELLED" ∷ [])
              (λ _. obj (field "run_id" (str run_id) done)) false
          ⨟ save_run-IsSound o tenant actor_id)

  handed_cases :
      (r : Result HandoffError (Document × CaseDb)) (s : State)
      → IsSound o s.run s.db
      → Post (IsSound o) (λ _. IsSound o) (handed_over o tenant actor_id s.run s r)
  handed_cases (ok (document, cases)) s h = h
  handed_cases (err e) s h = h

  hand_over-IsSound :
      (compiled : List DecisionEvidence)
      → Keeps (IsSound o) (IsSound o) (hand_over o tenant actor_id compiled)
  unfolding hand_over
  hand_over-IsSound compiled = record { at = λ s h. handed_cases _ s h }

  pub handoff-IsSound :
      (run_id correlation_id : String)
      → Keeps (IsSound o) (IsSound o) (handoff o tenant actor_id run_id correlation_id)
  unfolding handoff
  handoff-IsSound run_id correlation_id =
      required-IsSound run_id
      ⨟ Leads-run λ run.
        Leads-choice (is_handed_over o tenant actor_id run.compiled_decision_file_id) (Keeps-pure _)
          (Leads-choice (not (is_ready run.status)) (Keeps-raise _) (
            Keeps->>= (compiled_evidence-IsSound o tenant actor_id) λ compiled.
              Leads-choice (is_empty compiled) (Keeps-raise _) (
                take_over-IsSound correlation_id
                ⨟ hand_over-IsSound compiled
                ⨟ save_run-IsSound o tenant actor_id)))

  -- what the repository gives for a new run that is sound
  insert_run-IsSoundDb :
      (run : ResearchRun) (db : ResearchDb)
      → IsSoundRun o run
      → IsSoundDb o db
      → (r : ResearchRun) (db' : ResearchDb) → insert_run tenant run db ≡ ok (r, db')
      → IsSoundRun o r × IsSoundDb o db'
  unfolding insert_run
  insert_run-IsSoundDb run db h k r db' e =
      let (_, e1) = raise_if-eq-ok _ integrity_error _ e in
      subst (λ (p : ResearchRun × ResearchDb). IsSoundRun o p.0 × IsSoundDb o p.1)
        (ok_inj _ (r, db') e1)
        (
          h,
          (
            All-append (λ (row : RunRow). IsSoundRun o row.run) db.runs
                (new_run_row tenant run ∷ []) k.0 (h, tt),
            All-append (λ (row : BudgetRow). row.used_units ≤ o.policy.provider_budget) db.budget
                (new_budget_row tenant run ∷ []) k.1 (zero_le o.policy.provider_budget, tt),
          ),
        )

  found_or_new-IsSoundDb :
      (run : ResearchRun) (db : ResearchDb) (found prior : Option RunRow)
      → ((row : RunRow) → found ≡ some row → IsSoundRun o row.run)
      → ((row : RunRow) → prior ≡ some row → IsSoundRun o row.run)
      → IsSoundRun o run
      → IsSoundDb o db
      → (r : ResearchRun) (db' : ResearchDb) → found_or_new tenant run db found prior ≡ ok (r, db')
      → IsSoundRun o r × IsSoundDb o db'
  found_or_new-IsSoundDb run db (some row) prior f p h k r db' e =
      subst (λ (q : ResearchRun × ResearchDb). IsSoundRun o q.0 × IsSoundDb o q.1)
        (ok_inj _ (r, db') e) (f row refl, k)
  found_or_new-IsSoundDb run db none (some row) f p h k r db' e =
      subst (λ (q : ResearchRun × ResearchDb). IsSoundRun o q.0 × IsSoundDb o q.1)
        (ok_inj _ (r, db') e) (p row refl, k)
  found_or_new-IsSoundDb run db none none f p h k r db' e = insert_run-IsSoundDb run db h k r db' e

  found_row :
      (p : RunRow → Bool) (db : ResearchDb)
      → IsSoundDb o db
      → (row : RunRow) → find_first p db.runs ≡ some row
      → IsSoundRun o row.run
  found_row p db h row e = (find_first_lem (λ (r : RunRow). IsSoundRun o r.run) p db.runs h.0 e).1

  create_or_get-IsSoundDb :
      (run : ResearchRun) (db : ResearchDb)
      → IsSoundRun o run
      → IsSoundDb o db
      → (r : ResearchRun) (db' : ResearchDb)
      → create_or_get o.same_request tenant run db ≡ ok (r, db')
      → IsSoundRun o r × IsSoundDb o db'
  unfolding create_or_get
  create_or_get-IsSoundDb run db h k r db' e =
      let (_, e1) = raise_if-eq-ok _ tenant_mismatch _ e in
      found_or_new-IsSoundDb run db (find_first (has_fingerprint tenant run) db.runs)
        (find_first (is_prior o.same_request tenant run) db.runs)
        (found_row (has_fingerprint tenant run) db k)
        (found_row (is_prior o.same_request tenant run) db k) h k r db' e1

  -- a run that the repository was given or gave back, which is sound
  abbrev Given : ResearchRun → Condition
  Given given run db = IsSound o run db × IsSoundRun o given

  created_cases :
      (c : Called ResearchRun) (s : State)
      → IsSound o s.run s.db
      → ((r : ResearchRun) (db' : ResearchDb) → c ≡ ok (r, db') → IsSoundRun o r × IsSoundDb o db')
      → Post (IsSound o) Given (called_in s c)
  created_cases (ok (r, db')) s h k = let (sound, kept) = k r db' refl in ((h.0, kept), sound)
  created_cases (err e) s h k = h

  new_run-IsSoundRun :
      (request : ResearchRequest) (expected_hash correlation_id fingerprint : String) (now : ℕ)
      → IsSoundRun o
          (new_run o tenant actor_id request expected_hash correlation_id fingerprint now)
  new_run-IsSoundRun request expected_hash correlation_id fingerprint now =
      (tt, (λ _ _. zero_le o.policy.max_attempts_per_operation), zero_le o.policy.provider_budget)

  Given-pure :
      (run : ResearchRun) → IsSoundRun o run → Leads (IsSound o) (IsSound o) (pure run) Given
  Given-pure run k = record { at = λ s h. (h, k) }

  Given-set_run : (run : ResearchRun) → Leads (IsSound o) (Given run) (set_run run) (λ _. IsSound o)
  Given-set_run run = record { at = λ s h. (h.1, h.0.1) }

  Given-create_or_get :
      (proposed : ResearchRun)
      → Leads
          (IsSound o)
          (Given proposed)
          (in_db (create_or_get o.same_request tenant proposed))
          Given
  Given-create_or_get proposed = record {
    at = λ s h.
        created_cases (create_or_get o.same_request tenant proposed s.db) s h.0
          (create_or_get-IsSoundDb proposed s.db h.1 h.0.1);
  }

  propose-Given :
      (request : ResearchRequest) (expected_hash correlation_id : String)
      (generation : Option String)
      → Leads
          (IsSound o)
          (IsSound o)
          (propose o tenant actor_id request expected_hash correlation_id generation)
          Given
  unfolding propose
  propose-Given request expected_hash correlation_id generation =
      Leads-choice (ltb o.policy.max_search_results request.max_search_results)
        (record { at = λ s h. h })
        (Leads-choice (ltb o.policy.max_extractions request.max_sources_to_extract)
          (record { at = λ s h. h })
          (Keeps->>= (Keeps-ask (IsSound o) o.clock) λ now.
            Given-pure
              (new_run o tenant actor_id request expected_hash correlation_id
                (o.fingerprint tenant request expected_hash generation) now)
              (new_run-IsSoundRun request expected_hash correlation_id
                (o.fingerprint tenant request expected_hash generation) now)))

  prepare-IsSound :
      (request : ResearchRequest) (expected_hash correlation_id : String)
      (generation : Option String)
      → Keeps
          (IsSound o)
          (IsSound o)
          (prepare o tenant actor_id request expected_hash correlation_id generation)
  unfolding prepare
  prepare-IsSound request expected_hash correlation_id generation =
      Leads->>= _ _ Given _ (propose-Given request expected_hash correlation_id generation)
        λ proposed. Leads->>= _ _ Given _ (Given-create_or_get proposed) Given-set_run

  -- From everything sound, a call of `execute` leaves everything sound.
  pub execute-IsSound :
      (request : ResearchRequest) (expected_hash correlation_id : String)
      (generation : Option String)
      → Keeps
          (IsSound o)
          (IsSound o)
          (execute o tenant actor_id request expected_hash correlation_id generation)
  unfolding execute
  execute-IsSound request expected_hash correlation_id generation =
      active-IsSound o tenant actor_id
      ⨟ prepare-IsSound request expected_hash correlation_id generation
      ⨟ Leads-run λ run.
        Leads-choice (not (is_empty run.audit_events) || not (is_created run.status)) (Keeps-pure _)
          (active-IsSound o tenant actor_id ⨟ search_phase-IsSound _ _ _)
