-- ===== src/Research/Orchestrator/Soundness.antt =====
-- What every step of the orchestrator keeps (web_research/orchestrator.py): the ledger of a run is a chain
-- of hashes, no operation is attempted more often than the policy allows, and no more units of the
-- budget are used than there are.
use decision_assurance.Prelude.{
  ℕ, suc, ◌≤◌, ◌≡◌, refl, sym, String, Bool, true, false, Option, none, some, List, [], ◌∷◌, ◌++◌,
  All, Bool-cases, IsChain, IsChain-append, arith, count_if, count_if-append, inl, inr, ltb, ltb→lt,
  Result, ok, err, if◌then◌else◌, option_eq-≡, eq_iff, &&-eq-true,
}
use mathlib.Core.Path.{subst}
use decision_assurance.Prelude.Json.{Json}
use decision_assurance.Research.Lifecycle.{ResearchStatus, ResearchRejection, transition}
use decision_assurance.Research.Breaker.{
  BreakerError, Circuits, invalid_circuit_breaker_policy, invalid_circuit_context,
  provider_circuit_open,
}
use decision_assurance.Research.Runs.{
  ProviderError, ResearchAttempt, ResearchAuditEvent, ResearchRun, SourceCandidate,
}
use decision_assurance.Research.Ledger.{
  EgressDecision, append_egress_decision, apply_transition, audit_hash, egress_event, status_event,
}
use decision_assurance.Research.Repository.{
  BudgetRow, Called, ResearchDb, RunRow, reserve_budget, save, budget_exceeded, is_run,
}
use decision_assurance.Research.Orchestrator.State.{
  Ports, State, admit_call, admitted, noted, execution_cancelled, raise, pure, ask, can_attempt,
  ensure_active, fail_attempt, is_attempt_of, modify_source, move, note_failure, note_success,
  record_decisions, record_error, rejected_or, called_in, reserved_in, started_attempt, save_run,
  set_run, succeed_attempt, try_reserve, update_last, with_run,
}
use decision_assurance.Research.Orchestrator.Triples.{Condition, ◌⨟◌, Keeps, Leads, Post}
use decision_assurance.Research.Orchestrator.Tables.{
  count_if-update_last, save-tables, All-update_where, reserve_budget-ok,
}

module _ (o : Ports) where
  abbrev IsChained : ResearchRun → Type 0
  IsChained run =
      IsChain (λ (e : ResearchAuditEvent). e.previous_event_hash) (audit_hash o.sha256_json) none
        run.audit_events

  abbrev IsLimited : ResearchRun → Type 0
  IsLimited run =
      (operation : String) (source_id : Option String)
      → count_if (is_attempt_of operation source_id) run.attempts
        ≤ o.policy.max_attempts_per_operation

  abbrev pub IsSoundRun : ResearchRun → Type 0
  IsSoundRun run =
      IsChained run × IsLimited run × (run.provider_cost_units ≤ o.policy.provider_budget)

  abbrev pub IsSoundDb : ResearchDb → Type 0
  IsSoundDb db =
      All (λ (row : RunRow). IsSoundRun row.run) db.runs
      × All (λ (row : BudgetRow). row.used_units ≤ o.policy.provider_budget) db.budget

  abbrev pub IsSound : Condition
  IsSound run db = IsSoundRun run × IsSoundDb db

  -- changes of what the condition does not read
  pub record_error-IsSound :
      (e : ProviderError) (source_id : Option String)
      → Keeps IsSound IsSound (record_error e source_id)
  unfolding record_error
  record_error-IsSound e source_id = record { at = λ s h. h }

  pub modify_source-IsSound :
      (n : ℕ) (f : SourceCandidate → SourceCandidate) → Keeps IsSound IsSound (modify_source n f)
  unfolding modify_source
  modify_source-IsSound n f = record { at = λ s h. h }

  update_last-IsLimited :
      (f : ResearchAttempt → ResearchAttempt) (run : ResearchRun)
      → ((operation : String) (source_id : Option String) (a : ResearchAttempt)
          → is_attempt_of operation source_id (f a) ≡ is_attempt_of operation source_id a)
      → IsLimited run
      → IsLimited (record run { attempts = update_last f run.attempts })
  update_last-IsLimited f run k h operation source_id =
      rw
        (count_if-update_last (is_attempt_of operation source_id) f run.attempts
          (k operation source_id))
        (h operation source_id)

  pub succeed_attempt-IsSound : Keeps IsSound IsSound succeed_attempt
  unfolding succeed_attempt
  succeed_attempt-IsSound = record {
    at = λ s h. (
      (
        h.0.0,
        update_last-IsLimited (λ a. record a { status = "SUCCEEDED" }) s.run (λ _ _ _. refl) h.0.1,
        h.0.2,
      ),
      h.1,
    );
  }

  pub fail_attempt-IsSound : (e : ProviderError) → Keeps IsSound IsSound (fail_attempt e)
  unfolding fail_attempt
  fail_attempt-IsSound e = record {
    at = λ s h. (
      (
        h.0.0,
        update_last-IsLimited
            (λ a. record a { status = "FAILED"; reason_code = some e.reason_code }) s.run
            (λ _ _ _. refl) h.0.1,
        h.0.2,
      ),
      h.1,
    );
  }

  module _ (tenant actor_id : String) where
    active_cases :
        (P : Condition)
        → ((run : ResearchRun) (db : ResearchDb) → P run db → IsSound run db)
        → (b : Bool) (s : State) → P s.run s.db
        → Post IsSound (λ _. P) ((if b then raise execution_cancelled else pure tt) s)
    active_cases P f true s h = f s.run s.db h
    active_cases P f false s h = h

    admitted_cases :
        (P : Condition)
        → ((run : ResearchRun) (db : ResearchDb) → P run db → IsSound run db)
        → (r : Result BreakerError Circuits) (s : State) → P s.run s.db
        → Post IsSound (λ _. P) (admitted o tenant actor_id r s)
    admitted_cases P f (ok circuits) s h = h
    admitted_cases P f (err provider_circuit_open) s h = h
    admitted_cases P f (err invalid_circuit_context) s h = f s.run s.db h
    admitted_cases P f (err invalid_circuit_breaker_policy) s h = f s.run s.db h

    noted_cases :
        (r : Result BreakerError Circuits) (s : State)
        → IsSound s.run s.db
        → Post IsSound (λ _. IsSound) (noted o tenant actor_id r s)
    noted_cases (ok circuits) s h = h
    noted_cases (err e) s h = h

    pub note_failure-IsSound :
        (provider_id : String) (retryable : Bool)
        → Keeps IsSound IsSound (note_failure o tenant actor_id provider_id retryable)
    unfolding note_failure ask
    note_failure-IsSound provider_id retryable = record { at = λ s h. noted_cases _ _ h }

    pub note_success-IsSound :
        (provider_id : String) → Keeps IsSound IsSound (note_success o tenant actor_id provider_id)
    unfolding note_success
    note_success-IsSound provider_id = record { at = λ s h. noted_cases _ s h }

    -- steps that touch neither the run nor the tables
    pub ensure_active-Keeps :
        (P : Condition)
        → ((run : ResearchRun) (db : ResearchDb) → P run db → IsSound run db)
        → Keeps IsSound P (ensure_active o tenant actor_id)
    unfolding ensure_active ask
    ensure_active-Keeps P f = record { at = λ s h. active_cases P f (o.cancelled s.asked) _ h }

    pub admit_call-Keeps :
        (P : Condition) (provider_id : String)
        → ((run : ResearchRun) (db : ResearchDb) → P run db → IsSound run db)
        → Keeps IsSound P (admit_call o tenant actor_id provider_id)
    unfolding admit_call ask
    admit_call-Keeps P provider_id f = record { at = λ s h. admitted_cases P f _ _ h }

    -- the run that a transition leaves
    moved_cases :
        (r : Result ResearchRejection ResearchStatus) (changed : ResearchRun) (s : State)
        → IsSound s.run s.db
        → IsSoundRun changed
        → Post IsSound
            (λ _. IsSound)
            (rejected_or o tenant actor_id (elim r [ err e ↦ err e | ok _ ↦ ok changed ]) s)
    moved_cases (err e) changed s h k = h
    moved_cases (ok _) changed s h k = (k, h.1)

    pub move-IsSound :
        (target : ResearchStatus) (reason_codes : List String) (payload : ResearchRun → Json)
        (retry : Bool)
        → Keeps IsSound IsSound (move o tenant actor_id target reason_codes payload retry)
    unfolding move apply_transition ask
    move-IsSound target reason_codes payload retry = record {
      at = λ s h.
          moved_cases (transition s.run.status target retry) _ (record s { asked = suc s.asked }) h
            (
              IsChain-append (λ (e : ResearchAuditEvent). e.previous_event_hash)
                  (audit_hash o.sha256_json) s.run.audit_events
                  (status_event o.sha256_json o.text_of s.run target (o.clock s.asked) actor_id
                    reason_codes (payload s.run))
                  h.0.0 refl,
              h.0.1,
              h.0.2,
            );
    }

    saved_cases :
        (c : Called (Unit {0})) (s : State)
        → IsSound s.run s.db
        → ((db' : ResearchDb) → c ≡ ok (tt, db') → IsSoundDb db')
        → Post IsSound (λ _. IsSound) (called_in s c)
    saved_cases (ok (_, db')) s h k = (h.0, k db' refl)
    saved_cases (err e) s h k = h

    save-IsSoundDb :
        (run : ResearchRun) (db db' : ResearchDb)
        → IsSound run db
        → save tenant run db ≡ ok (tt, db')
        → IsSoundDb db'
    save-IsSoundDb run db db' h e =
        let (runs, budget) = save-tables tenant run db db' e in
        (
          subst (All (λ (row : RunRow). IsSoundRun row.run)) (sym runs) (
              All-update_where (λ (row : RunRow). IsSoundRun row.run)
                (is_run tenant run.research_run_id) (λ row. record row { run = run }) db.runs
                (λ _ _. h.0) h.1.0),
          subst (All (λ (row : BudgetRow). row.used_units ≤ o.policy.provider_budget)) (sym budget)
              h.1.1,
        )

    pub save_run-IsSound : Keeps IsSound IsSound (save_run o tenant actor_id)
    unfolding save_run
    save_run-IsSound = record {
      at = λ s h.
          saved_cases (save tenant s.run s.db) s h (λ db' e. save-IsSoundDb s.run s.db db' h e);
    }

    decision-IsSound :
        (d : EgressDecision)
        → Keeps IsSound IsSound
            (with_run (λ run. set_run (append_egress_decision o.sha256_json run d)))
    unfolding append_egress_decision
    decision-IsSound d = record {
      at = λ s h. (
        (
          IsChain-append (λ (e : ResearchAuditEvent). e.previous_event_hash)
              (audit_hash o.sha256_json) s.run.audit_events (egress_event o.sha256_json s.run d)
              h.0.0 refl,
          h.0.1,
          h.0.2,
        ),
        h.1,
      );
    }

    pub record_decisions-IsSound :
        (ds : List EgressDecision) → Keeps IsSound IsSound (record_decisions o tenant actor_id ds)
    unfolding record_decisions
    record_decisions-IsSound [] = record { at = λ s h. h }
    record_decisions-IsSound (d ∷ ds) =
        decision-IsSound d ⨟ save_run-IsSound ⨟ record_decisions-IsSound ds

    abbrev pub CanAttempt : String → Option String → Condition
    CanAttempt operation source_id run db =
        IsSound run db × (can_attempt o tenant actor_id operation source_id run ≡ true)

    started-IsLimited :
        (run : ResearchRun) (a : ResearchAttempt)
        → IsLimited run
        → can_attempt o tenant actor_id a.operation a.source_id run ≡ true
        → IsLimited (record run { attempts = run.attempts ++ a ∷ [] })
    unfolding can_attempt
    started-IsLimited run a h k operation source_id =
        let p = is_attempt_of operation source_id in
        rw (count_if-append p run.attempts (a ∷ [])) (elim (Bool-cases (p a)) [
          | inl e ↦
              let (same_operation, same_source) = &&-eq-true _ _ e in
              let free = ltb→lt _ _ (
                subst
                  (λ op.
                    ltb (count_if (is_attempt_of op source_id) run.attempts)
                      o.policy.max_attempts_per_operation
                    ≡ true)
                  ((eq_iff a.operation operation).0 same_operation)
                  (subst
                    (λ src.
                      ltb (count_if (is_attempt_of a.operation src) run.attempts)
                        o.policy.max_attempts_per_operation
                      ≡ true)
                    (option_eq-≡ a.source_id source_id same_source) k)) in
              rw e (omega (arith, free))
          | inr e ↦ rw e (omega (arith, h operation source_id))
        ])

    reserve_cases :
        (provider_id operation : String) (source_id : Option String) (c : Called ℕ) (s : State)
        → CanAttempt operation source_id s.run s.db
        → ((used : ℕ) (db' : ResearchDb)
            → c ≡ ok (used, db')
            → (used ≤ o.policy.provider_budget) × IsSoundDb db')
        → Post IsSound
            (λ _. IsSound)
            (reserved_in o tenant actor_id provider_id operation source_id s c)
    unfolding ask
    reserve_cases provider_id operation source_id (ok (used, db')) s h k =
        let (cost, sound) = k used db' refl in
        (
          (
            h.0.0.0,
            started-IsLimited s.run
                (started_attempt o tenant actor_id s.run provider_id operation source_id
                  (o.clock s.asked))
                h.0.0.1 h.1,
            cost,
          ),
          sound,
        )
    reserve_cases provider_id operation source_id (err e) s h k =
        elim e
          as (λ x.
            Post IsSound (λ _. IsSound)
              (reserved_in o tenant actor_id provider_id operation source_id s (err x))) [
                | budget_exceeded ↦ h.0
                | _ ↦ h.0
              ]

    reserve_budget-IsSoundDb :
        (run_id : String) (db : ResearchDb)
        → IsSoundDb db
        → (used : ℕ) (db' : ResearchDb)
        → reserve_budget tenant run_id o.policy.provider_budget db ≡ ok (used, db')
        → (used ≤ o.policy.provider_budget) × IsSoundDb db'
    reserve_budget-IsSoundDb run_id db h used db' e =
        let (cost, budget, runs) =
          reserve_budget-ok tenant run_id o.policy.provider_budget db h.1 e in
        (cost, (subst (All (λ (row : RunRow). IsSoundRun row.run)) (sym runs) h.0, budget))

    pub try_reserve-IsSound :
        (provider_id operation : String) (source_id : Option String)
        → Leads IsSound
            (CanAttempt operation source_id)
            (try_reserve o tenant actor_id provider_id operation source_id)
            (λ _. IsSound)
    unfolding try_reserve
    try_reserve-IsSound provider_id operation source_id = record {
      at = λ s h.
          reserve_cases provider_id operation source_id
            (reserve_budget tenant s.run.research_run_id o.policy.provider_budget s.db) s h
            (reserve_budget-IsSoundDb s.run.research_run_id s.db h.0.1);
    }
