-- ===== src/Research/Orchestrator/State.antt =====
-- web_research/orchestrator.py: what the orchestrator works on, and the steps that its methods share.
use decision_assurance.Prelude.{
  ℕ, zero, suc, ◌+◌, String, Bool, true, false, not, ◌&&◌, Option, none, some, List, [], ◌∷◌, ◌++◌,
  ◌==◌, count_if, length, leb, ltb, min, option_eq, decimal, Result, ok, err, if◌then◌else◌, ◌⧺◌,
}
use decision_assurance.Prelude.Json.{Json, num, obj, field, done}
use decision_assurance.Decisions.Document.{Document}
use decision_assurance.Research.Lifecycle.{ResearchStatus, ResearchRejection, failed}
use decision_assurance.Research.Breaker.{
  BreakerError, BreakerPolicy, Circuits, before_call, provider_circuit_open, record_failure,
  record_success,
}
use decision_assurance.Research.Runs.{
  ExtractionRequest, ExtractionResponse, ProviderError, ResearchAttempt, ResearchRequest,
  ResearchRun, SearchQuery, SearchResponse, SourceCandidate,
}
use decision_assurance.Research.Ledger.{EgressDecision, append_egress_decision, apply_transition}
use decision_assurance.Research.Evidence.{EvidencePolicy}
use decision_assurance.Research.Normalization.{Cleaned, Normalizer}
use decision_assurance.Research.Handoff.{CaseDb, HandoffError}
use decision_assurance.Research.Repository.{
  Called, RepositoryError, ResearchDb, budget_exceeded, reserve_budget, save,
}

pub record ResearchPolicy : Type 0 where
  pub policy_version : String
  pub provider_configuration_version : String
  pub provider_budget : ℕ
  pub cache_ttl_seconds : ℕ
  pub max_content_bytes : ℕ
  pub max_attempts_per_operation : ℕ
  pub max_search_results : ℕ
  pub max_extractions : ℕ

-- `ResearchPolicy.__post_init__`
unfoldable pub check_policy : ResearchPolicy → Result String ResearchPolicy
check_policy p =
    if not (leb 1 p.provider_budget && leb p.provider_budget 10000)
    then err "INVALID_PROVIDER_BUDGET"
    else if not (leb 1 p.max_attempts_per_operation && leb p.max_attempts_per_operation 5)
    then err "INVALID_PROVIDER_ATTEMPT_LIMIT"
    else if not (leb 1 p.max_search_results && leb p.max_search_results 20)
    then err "INVALID_CONFIGURED_SEARCH_LIMIT"
    else if not (leb 1 p.max_extractions && leb p.max_extractions (min p.max_search_results 10))
    then err "INVALID_CONFIGURED_EXTRACTION_LIMIT"
    else ok p

-- `PublicUrlPolicy.validate` of url_policy.py gives this, or the reason of its refusal
pub record SafeUrl : Type 0 where
  pub canonical_url : String
  pub domain : String

pub data SearchOutcome : Type 0 where
  responded : SearchResponse → SearchOutcome
  -- ProviderRequestFailed, and any other exception
  request_failed : ProviderError → SearchOutcome
  search_broke : SearchOutcome

pub data ExtractOutcome : Type 0 where
  extracted : ExtractionResponse → ExtractOutcome
  extraction_broke : ExtractOutcome

-- what a provider answers, with the egress decisions that it recorded before
pub record Answer (A : Type 0) : Type 0 where
  pub decisions : List EgressDecision
  pub outcome : A

-- the arguments of `__init__`, and the code outside
pub record Ports : Type 0 where
  pub policy : ResearchPolicy
  pub breaker : BreakerPolicy
  pub evidence_policy : EvidencePolicy
  pub evidence_policy_version : String
  pub normalizer : Normalizer
  pub search_id : String
  pub extractor_id : String
  pub search : ℕ → SearchQuery → Answer SearchOutcome
  pub extract : ℕ → ExtractionRequest → Answer ExtractOutcome
  pub clock : ℕ → ℕ
  pub monotonic : ℕ → ℕ
  pub cancelled : ℕ → Bool
  pub validate_url : List String → List String → String → Result String SafeUrl
  pub same_request : ResearchRequest → ResearchRequest → Bool
  pub fingerprint : String → ResearchRequest → String → Option String → String
  pub uuid : String → String
  pub clean : String → Cleaned
  pub size : String → ℕ
  pub casefold : String → String
  pub from_iso : String → Option ℕ
  pub text_of : ℕ → String
  pub day : ℕ
  pub sha256_hex : String → String
  pub sha256_json : Json → String
  pub sha256_ascii : Json → String
  pub document_hash : Document → String
  pub contract_ok : Document → Bool

pub record State : Type 0 where
  pub run : ResearchRun
  pub db : ResearchDb
  pub cases : CaseDb
  pub circuits : Circuits
  pub asked : ℕ

pub data Failure : Type 0 where
  execution_cancelled : Failure
  value_error key_error : String → Failure
  transition_rejected : ResearchRejection → Failure
  repository_failed : RepositoryError → Failure
  circuit_failed : BreakerError → Failure
  handoff_failed : HandoffError → Failure
  -- StopIteration
  snapshot_missing : Failure

pub data Ran (A : Type 0) : Type 0 where
  returned : A → State → Ran A
  raised : Failure → State → Ran A

abbrev pub Op : Type 0 → Type 0
Op A = State → Ran A

module _ {A B : Type 0} where
  abbrev pub then_in : (A → Op B) → Ran A → Ran B
  then_in next (returned a s) = next a s
  then_in next (raised e s) = raised e s

  infixl 5 ◌>>=◌
  abbrev pub ◌>>=◌ : Op A → (A → Op B) → Op B
  ◌>>=◌ m next s = then_in next (m s)

infixl 5 ◌>>◌
abbrev pub ◌>>◌ : {B : Type 0} → Op (Unit {0}) → Op B → Op B
m >> rest = m >>= λ _. rest

abbrev pub pure : {A : Type 0} → A → Op A
pure a s = returned a s

abbrev pub raise : {A : Type 0} → Failure → Op A
raise e s = raised e s

-- `try: … except Exception: …`, where the handler goes on with a value
abbrev pub or_else_in : {A : Type 0} → A → Ran A → Ran A
or_else_in a (returned b s) = returned b s
or_else_in a (raised e s) = returned a s

abbrev pub or_else : {A : Type 0} → A → Op A → Op A
or_else a m s = or_else_in a (m s)

-- a read of the run, and a change of it
abbrev pub with_run : {A : Type 0} → (ResearchRun → Op A) → Op A
with_run k s = k s.run s

abbrev pub set_run : ResearchRun → Op (Unit {0})
set_run run s = returned tt (record s { run = run })

-- a question to the code outside
unfoldable pub ask : {A : Type 0} → (ℕ → A) → Op A
ask f s = returned (f s.asked) (record s { asked = suc s.asked })

-- a transaction of the repository
abbrev pub called_in : {A : Type 0} → State → Called A → Ran A
called_in s (ok (a, db)) = returned a (record s { db = db })
called_in s (err e) = raised (repository_failed e) s

abbrev pub in_db : {A : Type 0} → (ResearchDb → Called A) → Op A
in_db f s = called_in s (f s.db)

-- `ProviderError(provider_id, reason_code, retryable)`
abbrev pub provider_error : String → String → Bool → ProviderError
provider_error provider_id reason_code retryable = record {
  provider_id = provider_id;
  reason_code = reason_code;
  retryable = retryable;
  status_code = none;
  retry_after = none;
}

-- `sum(1 for item in run.attempts if item.operation == operation and item.source_id == source_id)`
abbrev pub is_attempt_of : String → Option String → ResearchAttempt → Bool
is_attempt_of operation source_id a = a.operation == operation && option_eq a.source_id source_id

abbrev pub update_last : {A : Type 0} → (A → A) → List A → List A
update_last f [] = []
update_last f (x ∷ []) = f x ∷ []
update_last f (x ∷ y ∷ xs) = x ∷ update_last f (y ∷ xs)

-- `item = run.sources[n]; …`: a change of one of the run's sources
abbrev pub update_nth : {A : Type 0} → ℕ → (A → A) → List A → List A
update_nth n f [] = []
update_nth zero f (x ∷ xs) = f x ∷ xs
update_nth (suc n) f (x ∷ xs) = x ∷ update_nth n f xs

-- `_record_error`
unfoldable pub record_error : ProviderError → Option String → Op (Unit {0})
record_error error source_id = with_run λ run. set_run (record run {
  errors =
      run.errors
      ++ record { reason_code = error.reason_code; provider = some error; source_id = source_id }
        ∷ [];
})

-- `_succeed_attempt` and `_fail_attempt`
unfoldable pub succeed_attempt : Op (Unit {0})
succeed_attempt = with_run λ run.
    set_run
      (record run { attempts = update_last (λ a. record a { status = "SUCCEEDED" }) run.attempts })

unfoldable pub fail_attempt : ProviderError → Op (Unit {0})
fail_attempt error = with_run λ run. set_run (record run {
  attempts =
      update_last (λ a. record a { status = "FAILED"; reason_code = some error.reason_code })
        run.attempts;
})

unfoldable pub modify_source : ℕ → (SourceCandidate → SourceCandidate) → Op (Unit {0})
modify_source n f = with_run λ run. set_run (record run { sources = update_nth n f run.sources })

module _ (o : Ports) (tenant : String) (actor_id : String) where
  -- `_ensure_active`
  unfoldable pub ensure_active : Op (Unit {0})
  unfolding ask
  ensure_active =
      ask o.cancelled >>= λ cancelled. if cancelled then raise execution_cancelled else pure tt

  -- `self._repository.save(tenant, run)`
  unfoldable pub save_run : Op (Unit {0})
  save_run = with_run λ run. in_db (save tenant run)

  abbrev pub rejected_or : Result ResearchRejection ResearchRun → Op (Unit {0})
  rejected_or (err e) = raise (transition_rejected e)
  rejected_or (ok run) = set_run run

  -- `apply_transition(run, target, occurred_at=self._time(), …)`
  unfoldable pub move : ResearchStatus → List String → (ResearchRun → Json) → Bool → Op (Unit {0})
  unfolding ask
  move target reason_codes payload retry = ask o.clock >>= λ now. with_run λ run. rejected_or (
      apply_transition o.sha256_json o.text_of run target now actor_id reason_codes (payload run)
        retry)

  -- `_fail_run`
  unfoldable pub fail_run : String → Op (Unit {0})
  unfolding move save_run
  fail_run reason_code =
      move failed (reason_code ∷ []) (λ run. obj (field "errors" (num (length run.errors)) done))
        false
      >> save_run

  -- `_can_attempt`
  unfoldable pub can_attempt : String → Option String → ResearchRun → Bool
  can_attempt operation source_id run =
      ltb (count_if (is_attempt_of operation source_id) run.attempts)
        o.policy.max_attempts_per_operation

  abbrev pub admitted : Result BreakerError Circuits → Op Bool
  admitted (ok circuits) s = returned true (record s { circuits = circuits })
  admitted (err provider_circuit_open) s = returned false s
  admitted (err e) s = raised (circuit_failed e) s

  -- `self._circuit.before_call`: whether the circuit lets the call through
  unfoldable pub admit_call : String → Op Bool
  unfolding ask
  admit_call provider_id = ask o.monotonic >>= λ now s.
      admitted (before_call o.breaker tenant provider_id now s.circuits) s

  abbrev pub noted : Result BreakerError Circuits → Op (Unit {0})
  noted (ok circuits) s = returned tt (record s { circuits = circuits })
  noted (err e) s = raised (circuit_failed e) s

  unfoldable pub note_failure : String → Bool → Op (Unit {0})
  unfolding ask
  note_failure provider_id retryable = ask o.monotonic >>= λ now s.
      noted (record_failure o.breaker tenant provider_id retryable now s.circuits) s

  unfoldable pub note_success : String → Op (Unit {0})
  note_success provider_id s = noted (record_success tenant provider_id s.circuits) s

  -- the attempt that `_reserve` appends
  abbrev pub started_attempt : ResearchRun → String → String → Option String → ℕ → ResearchAttempt
  started_attempt run provider_id operation source_id now = record {
    attempt_id = run.research_run_id ⧺ ":attempt:" ⧺ decimal (length run.attempts + 1);
    provider_id = provider_id;
    operation = operation;
    status = "STARTED";
    occurred_at = now;
    source_id = source_id;
    cost_units = 1;
    reason_code = none;
  }

  abbrev pub start_attempt : String → String → Option String → ℕ → Op Bool
  start_attempt provider_id operation source_id used = ask o.clock >>= λ now. with_run λ run.
      set_run (record run {
        provider_cost_units = used;
        attempts = run.attempts ++ started_attempt run provider_id operation source_id now ∷ [];
      })
      >> pure true

  abbrev pub reserved_in : String → String → Option String → State → Called ℕ → Ran Bool
  reserved_in provider_id operation source_id s (ok (used, db)) =
      start_attempt provider_id operation source_id used (record s { db = db })
  reserved_in provider_id operation source_id s (err budget_exceeded) = returned false s
  reserved_in provider_id operation source_id s (err e) = raised (repository_failed e) s

  -- `_reserve`: whether the budget had a unit left
  unfoldable pub try_reserve : String → String → Option String → Op Bool
  unfolding ask
  try_reserve provider_id operation source_id = with_run λ run s.
      reserved_in provider_id operation source_id s
        (reserve_budget tenant run.research_run_id o.policy.provider_budget s.db)

  unfoldable pub reserve : String → String → Option String → Op Bool
  unfolding ensure_active try_reserve
  reserve provider_id operation source_id =
      ensure_active >> try_reserve provider_id operation source_id

  -- `_record_egress_decision` for each decision
  unfoldable pub record_decisions : List EgressDecision → Op (Unit {0})
  unfolding save_run
  record_decisions [] = pure tt
  record_decisions (d ∷ ds) =
      (with_run λ run. set_run (append_egress_decision o.sha256_json run d))
      >> save_run
      >> record_decisions ds
