-- ===== src/Research/Orchestrator/Discovery.antt =====
-- web_research/orchestrator.py: the search for sources.
use decision_assurance.Prelude.{
  String, Bool, true, false, not, Option, none, some, List, [], ◌∷◌, ◌++◌, ◌==◌, length, mem, take,
  take_text, Result, ok, err, if◌then◌else◌, ◌⧺◌,
}
use decision_assurance.Prelude.Json.{num, obj, field, done}
use decision_assurance.Research.Lifecycle.{sources_discovered}
use decision_assurance.Research.Runs.{
  ResearchRun, SearchQuery, SearchResponse, SearchResult, SourceCandidate,
}
use decision_assurance.Research.Orchestrator.State.{
  Op, Ports, SafeUrl, SearchOutcome, responded, request_failed, search_broke, admit_call, ask,
  can_attempt, ensure_active, fail_attempt, fail_run, move, note_failure, note_success, or_else,
  provider_error, pure, record_decisions, record_error, reserve, save_run, set_run, succeed_attempt,
  with_run, ◌>>=◌, ◌>>◌,
}

abbrev pub search_query : ResearchRun → SearchQuery
search_query run = record {
  query = run.request.query;
  locale = run.request.locale;
  preferred_languages = run.request.preferred_languages;
  count = run.request.max_search_results;
  freshness = run.request.freshness;
  allowed_domains = run.request.allowed_domains;
  blocked_domains = run.request.blocked_domains;
}

-- `response.summary or None`
abbrev pub text_or_none : String → Option String
text_or_none s = if s == "" then none else some s

module _ (o : Ports) (tenant : String) (actor_id : String) where
  -- `_source_id`
  abbrev pub source_id_of : String → String → String
  source_id_of run_id url = run_id ⧺ ":source:" ⧺ take_text 16 (o.sha256_hex url)

  -- the candidate that a result becomes, `safe` being what the URL policy makes of it
  abbrev pub candidate_of :
      String → SearchResponse → SearchResult → Result String SafeUrl → SourceCandidate
  candidate_of run_id response result (err reason) = record {
    source_id = source_id_of run_id result.url;
    original_url = result.url;
    canonical_url = result.url;
    domain = "";
    title = result.title;
    snippet = result.snippet;
    rank = result.rank;
    searched_at = response.searched_at;
    search_provider = response.provider_id;
    search_provider_version = response.provider_version;
    published_at = result.published_at;
    status = "BLOCKED";
    reason_codes = reason ∷ [];
    citation_kind = result.citation_kind;
    artifact_type = "SEARCH_RESULT";
  }
  candidate_of run_id response result (ok safe) = record {
    source_id = source_id_of run_id safe.canonical_url;
    original_url = result.url;
    canonical_url = safe.canonical_url;
    domain = safe.domain;
    title = result.title;
    snippet = result.snippet;
    rank = result.rank;
    searched_at = response.searched_at;
    search_provider = response.provider_id;
    search_provider_version = response.provider_version;
    published_at = result.published_at;
    status = "DISCOVERED";
    reason_codes = [];
    citation_kind = result.citation_kind;
    artifact_type = "SEARCH_RESULT";
  }

  abbrev pub validated : ResearchRun → String → Result String SafeUrl
  validated run url = o.validate_url run.request.allowed_domains run.request.blocked_domains url

  -- the loop of `_store_discovery`, `seen` being the canonical URLs so far
  unfoldable pub discovered :
      ResearchRun → SearchResponse → List String → List SearchResult → List SourceCandidate
  discovered run response seen [] = []
  discovered run response seen (result ∷ results) = elim (validated run result.url) [
    | err reason ↦
        candidate_of run.research_run_id response result (err reason)
        ∷ discovered run response seen results
    | ok safe ↦
        let skipped = discovered run response seen results in
        let rest = discovered run response (safe.canonical_url ∷ seen) results in
        if mem safe.canonical_url seen
        then skipped
        else candidate_of run.research_run_id response result (ok safe) ∷ rest
  ]

  -- `_store_discovery`
  unfoldable pub store_discovery : SearchResponse → Op (Unit {0})
  unfolding discovered
  store_discovery response = with_run λ run. set_run (record run {
    search_summary = text_or_none response.summary;
    search_provider_request_id = response.provider_request_id;
    sources =
        run.sources
        ++ discovered run response [] (take run.request.max_search_results response.results);
  })

  -- `_record_error`, then `_fail_run`, then `return False`
  unfoldable pub give_up : String → String → Bool → Op Bool
  unfolding record_error fail_run
  give_up provider_id reason_code retryable =
      record_error (provider_error provider_id reason_code retryable) none
      >> fail_run o tenant actor_id reason_code
      >> pure false

  -- the call of the provider; the try block holds a test for cancellation too
  unfoldable pub call_search : Op SearchOutcome
  unfolding ensure_active ask record_decisions
  call_search = or_else search_broke (
      ensure_active o tenant actor_id
      >> with_run λ run. ask (λ n. o.search n (search_query run)) >>= λ answer.
          record_decisions o tenant actor_id answer.decisions >> pure answer.outcome)

  -- what follows an answer of the provider
  unfoldable pub after_search : SearchOutcome → Op Bool
  unfolding ensure_active note_success succeed_attempt store_discovery move save_run note_failure
      fail_attempt record_error fail_run
  after_search (responded response) =
      ensure_active o tenant actor_id
      >> note_success o tenant actor_id o.search_id
      >> succeed_attempt
      >> store_discovery response
      >> move o tenant actor_id sources_discovered ("SOURCES_DISCOVERED" ∷ [])
          (λ run. obj (field "count" (num (length run.sources)) done)) false
      >> save_run o tenant actor_id
      >> pure true
  after_search (request_failed e) =
      ensure_active o tenant actor_id
      >> note_failure o tenant actor_id o.search_id e.retryable
      >> fail_attempt e
      >> record_error e none
      >> fail_run o tenant actor_id e.reason_code
      >> pure false
  after_search search_broke =
      ensure_active o tenant actor_id
      >> note_failure o tenant actor_id o.search_id true
      >> fail_attempt (provider_error o.search_id "PROVIDER_UNAVAILABLE" true)
      >> record_error (provider_error o.search_id "PROVIDER_UNAVAILABLE" true) none
      >> fail_run o tenant actor_id "PROVIDER_UNAVAILABLE"
      >> pure false

  -- the part of `_discover` after the attempt was found to be admissible
  unfoldable pub search_once : Op Bool
  unfolding admit_call reserve give_up call_search after_search
  search_once = admit_call o tenant actor_id o.search_id >>= λ admitted.
      if not admitted
      then give_up o.search_id "PROVIDER_CIRCUIT_OPEN" true
      else (reserve o tenant actor_id o.search_id "search" none >>= λ reserved.
          if not reserved
          then give_up "research-budget" "BUDGET_EXCEEDED" false
          else (call_search >>= after_search))

  -- `_discover`
  unfoldable pub discover : Op Bool
  unfolding ensure_active give_up search_once can_attempt
  discover =
      ensure_active o tenant actor_id
      >> with_run λ run.
        if not (can_attempt o tenant actor_id "search" none run)
        then give_up o.search_id "RETRY_LIMIT_EXCEEDED" false
        else search_once
