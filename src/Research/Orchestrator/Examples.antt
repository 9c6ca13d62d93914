-- ===== src/Research/Orchestrator/Examples.antt =====
-- A call of the orchestrator with one source, and the calls after it.
use decision_assurance.Prelude.{
  ◌≡◌, refl, false, none, List, [], ◌∷◌, ok, arith, length, is_blank, decimal,
}
use decision_assurance.Decisions.Examples.{accepts, digest_of, text_of}
use decision_assurance.Research.Orchestrator.Calls.{cancel, retry, execute}
use decision_assurance.Research.Repository.{create_or_get, save, reserve_budget}
use decision_assurance.Research.Pages.{get_snapshot}
use decision_assurance.Research.Ledger.{apply_transition}
use decision_assurance.Research.Breaker.{
  before_call, record_success, record_failure, admit, failed_once,
}
use decision_assurance.Research.Cases.{
  cases, document_hash, evidence_policy, no_date, no_rows, request, run,
}
use decision_assurance.Research.Orchestrator.State.{
  Answer, Ports, SearchOutcome, State, extraction_broke, responded,
}
use decision_assurance.Research.Orchestrator.Soundness.{IsSound}
use decision_assurance.Research.Orchestrator.Histories.{
  Request, after, after-IsSound, cancel_call, execute_call, retry_call,
}

abbrev results : Answer SearchOutcome
results = record {
  decisions = [];
  outcome = responded (record {
    provider_id = "search";
    provider_version = "1";
    searched_at = "2026-01-01T00:00:00Z";
    results =
        record {
          url = "https://register.example/7";
          title = "Register";
          snippet = "";
          rank = 1;
          published_at = none;
          citation_kind = "CITED";
        }
        ∷ [];
    summary = "";
    provider_request_id = none;
  });
}

abbrev ports : Ports
ports = record {
  policy = record {
    policy_version = "research-policy-v1";
    provider_configuration_version = "providers-v1";
    provider_budget = 3;
    cache_ttl_seconds = 60;
    max_content_bytes = 1000;
    max_attempts_per_operation = 2;
    max_search_results = 10;
    max_extractions = 5;
  };
  breaker = record { failure_threshold = 3; recovery = 30 };
  evidence_policy = evidence_policy;
  evidence_policy_version = "evidence-policy-v1";
  normalizer = record { max_content_bytes = 1000; cache_ttl = 60 };
  search_id = "search";
  extractor_id = "extractor";
  search = λ n query. results;
  extract = λ n extraction. record { decisions = []; outcome = extraction_broke };
  clock = λ n. n;
  monotonic = λ n. n;
  cancelled = λ n. false;
  validate_url =
      λ allowed blocked url. ok (record { canonical_url = url; domain = "register.example" });
  same_request = λ a b. false;
  fingerprint = λ tenant r hash generation. "f1";
  uuid = λ fingerprint. "1";
  clean = λ raw. record {
    text = raw;
    active_removed = false;
    secret_redacted = false;
    injections = [];
  };
  size = λ s. 10;
  casefold = λ s. s;
  from_iso = no_date;
  text_of = text_of;
  day = 1;
  sha256_hex = λ s. "digest";
  sha256_json = digest_of;
  sha256_ascii = digest_of;
  document_hash = document_hash;
  contract_ok = accepts;
}

abbrev start : State
start = record { run = run; db = no_rows; cases = cases; circuits = λ t p. none; asked = 0 }

abbrev requests : List Request
requests =
    record {
      tenant = "tenant-a";
      actor_id = "alice";
      call = execute_call request "document" "corr-1" none;
    }
    ∷ record { tenant = "tenant-a"; actor_id = "bob"; call = retry_call "research-1" "corr-2" }
    ∷ record { tenant = "tenant-a"; actor_id = "bob"; call = cancel_call "research-1" "corr-3" }
    ∷ []

start-IsSound : IsSound ports start.run start.db
start-IsSound = ((tt, (λ _ _. omega arith), omega arith), (tt, tt))

after-IsSound_example :
    IsSound ports (after ports requests start).run (after ports requests start).db
after-IsSound_example = after-IsSound ports requests start start-IsSound

-- the extraction was tried twice, then the run was cancelled
attempts_made : length (after ports requests start).run.attempts ≡ 3
unfolding cancel retry execute create_or_get apply_transition save before_call is_blank
    reserve_budget record_success decimal get_snapshot record_failure admit failed_once
attempts_made = refl
