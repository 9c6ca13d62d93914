-- ===== src/Lib.antt =====
-- Decision Assurance: a verification library for the core of the Python package
-- src/decision_assurance.
--
-- The program takes decisions of an organisation through a controlled life. A governance engine
-- assesses a request and writes a ledger of hashed events; decision files carry a case from DRAFT to
-- APPROVED or BLOCKED, each step by an actor in the role for it; a queue in PostgreSQL runs research
-- jobs under leases; web research searches and reads sources and attaches evidence to a decision;
-- intake turns extracted facts into a decision file; the data lifecycle deletes cases unless a legal
-- hold protects them; the gates of a release decide on its publication; identities and permissions
-- guard all of it. Decision files call the engine, the intake compiles decision files, the research
-- attaches to them, the lifecycle calls the permissions, and their events are chained by hashes.
--
-- Prelude: Boolean tests and their laws, lists over native numbers, results, texts, JSON values.
-- Governance (engine.py, audit.py, models.py, adapters.py): `Request.normalize` is `normalize`,
--   `Engine.validate`, `govern` and `assess` are `_validate`, `_govern` and `assess` of
--   `DecisionAssuranceEngine`, `Audit.append` is `AuditLedger.append`. A dictionary with optional keys
--   is a record of options: a key that is absent and one that is null are not told apart, and a key
--   that the code tests for truth holds a Boolean. Outcomes and Trail hold the theorems.
-- Decisions (decision_file.py, transitions.py): `Document` is the decision file with the keys that the
--   code reads or writes, `Semantics.validate_semantics` and `Evaluation.evaluate` are the functions of
--   these names, `Transitions.transition` is `TransitionPolicy.transition`. Approval and Bindings say
--   what a transition and the validation guarantee, Workflow and History follow a case over its whole
--   life.
-- Jobs (jobs/postgresql.py, jobs/lifecycle.py, jobs/contracts.py, production/contracts.py):
--   `Store.Db` holds the tables, `Repository`, with Enqueue and Candidates below it, has one function
--   for each method of `PostgresJobRepository` with the SQL statements in its order, in a monad of
--   transactions: an exception rolls back. The transactions are serial,
--   except that a claim has a `View`: the rows that other transactions have locked, which it passes
--   over, and the rows that its count of running jobs sees, which may be those of an earlier moment.
--   Instants are numbers of microseconds. Rows and Keeps carry the proofs, Invariant states what holds
--   of the queue, Calls gives the histories of calls, Queue the theorems over them, Limits the
--   concurrency limits of tenants. Leases and Backoff are about leases and retries, Worker is
--   `ResearchWorker.run_once`, Interruption about rounds whose job is cancelled or whose lease is lost.
-- Retention (lifecycle/): `Store` is `InMemoryLifecycleRepository`, whose methods hold a lock and are
--   steps, `Service` is `PilotLifecycleService`; an exception undoes nothing. `execute_deletion` takes
--   what other threads do between its two steps as a parameter. Holds, Execution and Submission hold
--   the theorems.
-- Research (web_research/): `Lifecycle` (lifecycle.py) has the statuses of a run, `Breaker`
--   (circuit_breaker.py) the methods of `InMemoryProviderCircuitBreaker`, `Runs` (contracts.py) the
--   records of a run, `Ledger` (audit.py) its ledger, `Normalization` (normalization.py) the reading of
--   a source, `Evidence` (evidence_policy.py, selection.py) the assessment and selection of sources,
--   `Conflicts` (conflicts.py) the marking of evidence in conflict, `Compiler` and `Handoff`
--   (compiler.py) the compilation of evidence and its attachment to a decision in SQLite, `Repository`,
--   `Pages` and `Idempotency` (repository.py) the tables and methods of `SqliteResearchRepository`.
--   Orchestrator (orchestrator.py) has `State`, `Discovery`, `Extraction` and `Calls` for the state, the
--   rounds and the entry points of the orchestrator, and Triples, Soundness, Searches, Extractions,
--   Runs and Histories for proofs. The run is an object that the calls mutate: an exception undoes
--   nothing of it, while a call of the repository is a transaction. The n-th question to the outside
--   gets the n-th answer. A source is referred to by its place in the list of sources, scores are
--   hundredths, metrics are left out, foreign keys too; that a run is stored and read back unchanged
--   is assumed of the codec. Compilation, Attachment, Replays, Exclusion, Saved and Outage hold
--   theorems.
-- Intake (intake/): `Contracts`, `Comparison` and `Verification` are the checks of extracted facts
--   against the trusted policy, `Confirmation` that by a human, `Compiler` the compilation into a
--   decision file, `Lifecycle` the statuses. The confidence, a float, is left out. Provenance,
--   Violations and Compilation hold the theorems.
-- Release (release_verification.py, production/contracts.py): `Gates`, `Supplied` and `Verification` are
--   the gates of a release, the results supplied for them and the report; Reports and Publication hold
--   the theorems.
-- Access (identity.py, tenancy.py, authorization.py): identities, tenants and the permission table.
-- Each part has a module Examples with tests, and with each theorem applied at concrete data; Research
-- has Cases, Entries and Orchestrator.Examples as well.
--
-- Parameters, for code outside the repository: SHA-256 of a text and of canonical JSON
-- (`sha256_hex`, `sha256_json`), HMAC (`hmac`), the JSON schema check of jsonschema (`contract_ok`),
-- clock readings and their ISO texts, the random lease tokens and identifiers, decimal numbers and
-- dates (`Values` of the intake), the regular expressions and case folding of the normalizer, and the
-- providers of searches and extractions with the cancellation of a run. Parameters too, though the
-- repository has them: the policy of addresses (`validate_url`) and the registry of trusted policies.
-- No law of a hash is assumed.
--
-- There is no fuel: every loop of the code is a recursion over a list. Numbers are natural numbers, as
-- the integers of Python do not overflow; white space is the ASCII one.
--
-- Not modelled: the HTTP API and user interface, OIDC, exports, the MCP server, configuration,
-- deployment and the other repositories over PostgreSQL and SQLite; of intake the extractor and the
-- repository; of web research the policy of addresses, the decoding of stored runs, the service over
-- HTTP and the handoff over PostgreSQL; of the job queue `submit` and the measurement of the backlog;
-- of decision files the reading of a file and the migration from v0.1.
pub mod Prelude
pub mod Jobs
pub mod Governance
pub mod Access
pub mod Decisions
pub mod Retention
pub mod Research
pub mod Release
pub mod Intake
