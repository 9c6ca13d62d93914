-- ===== src/Research/Orchestrator/Extraction.antt =====
-- web_research/orchestrator.py: the extraction of sources, and the end of a run.
use decision_assurance.Prelude.{
  ℕ, String, Bool, true, false, not, ◌&&◌, ◌||◌, Option, none, some, List, [], ◌∷◌, ◌++◌, map, ◌==◌,
  any, count_if, is_empty, drop_text, length, mem, take_text, Result, ok, err, if◌then◌else◌, ◌⧺◌,
}
use decision_assurance.Prelude.Json.{num, obj, field, done}
use decision_assurance.Decisions.Document.{Document}
use decision_assurance.Research.Lifecycle.{
  completed, evidence_compiled, extracting, partially_completed,
}
use decision_assurance.Research.Runs.{
  DecisionEvidence, EvidenceAssessment, EvidenceCandidate, ExtractedContent, ExtractionRequest,
  ResearchRun, SourceCandidate, SourceSnapshot, content, error,
}
use decision_assurance.Research.Evidence.{Place, assess, select}
use decision_assurance.Research.Normalization.{normalize}
use decision_assurance.Research.Conflicts.{mark_conflicting_evidence}
use decision_assurance.Research.Compiler.{compile}
use decision_assurance.Research.Handoff.{
  CaseDb, HandoffError, integrity_error, attach, claim_reference_not_found,
  decision_document_changed, decision_not_draft, decision_not_found,
}
use decision_assurance.Research.Pages.{get_snapshot}
use decision_assurance.Research.Orchestrator.State.{
  ExtractOutcome, Op, Ports, Ran, State, raised, handoff_failed, snapshot_missing, extracted,
  extraction_broke, admit_call, ask, can_attempt, ensure_active, fail_attempt, fail_run,
  modify_source, move, note_failure, note_success, or_else, provider_error, pure, raise,
  record_decisions, record_error, reserve, returned, save_run, set_run, succeed_attempt, with_run,
  ◌>>=◌, ◌>>◌,
}

abbrev pub with_status : String → List String → SourceCandidate → SourceCandidate
with_status status reason_codes source = record source {
  status = status;
  reason_codes = reason_codes;
}

-- `_mark_citation_only`
abbrev pub citation_only : String → SourceCandidate → SourceCandidate
citation_only reason_code = with_status "CITATION_ONLY" ("SEARCH_CITATION_ONLY" ∷ reason_code ∷ [])

abbrev pub selected_source : SourceCandidate → SourceCandidate
selected_source source = record source {
  status = "SELECTED";
  artifact_type = "SELECTED_SOURCE";
  reason_codes = "SOURCE_SELECTED" ∷ [];
}

-- `replace(cached, …)`
abbrev pub for_source : SourceCandidate → SourceSnapshot → SourceSnapshot
for_source source cached = record cached {
  snapshot_id = source.source_id ⧺ ":snapshot:" ⧺ take_text 16 (drop_text 7 cached.content_hash);
  source_id = source.source_id;
  original_url = source.original_url;
  canonical_url = source.canonical_url;
  domain = source.domain;
}

-- sources that no extraction was tried for, as the limit was reached
abbrev pub skip_unselected : List String → SourceCandidate → SourceCandidate
skip_unselected selected source =
    if source.status == "DISCOVERED" && not (mem source.source_id selected)
    then with_status "SKIPPED_LIMIT" ("SOURCE_LIMIT_REACHED" ∷ []) source
    else source

abbrev pub is_citation_only : SourceCandidate → Bool
is_citation_only s = s.status == "CITATION_ONLY"

-- `partial_statuses`
abbrev pub is_partial : SourceCandidate → Bool
is_partial s =
    mem s.status ("BLOCKED" ∷ "FAILED" ∷ "REJECTED" ∷ "REVIEW_REQUIRED" ∷ "CITATION_ONLY" ∷ [])

-- the reason that is recorded for an exception of the handoff
abbrev pub handoff_reason : HandoffError → String
handoff_reason decision_document_changed = "DECISION_DOCUMENT_CHANGED"
handoff_reason decision_not_draft = "DECISION_NOT_DRAFT"
handoff_reason claim_reference_not_found = "CLAIM_REFERENCE_NOT_FOUND"
handoff_reason decision_not_found = "DECISION_NOT_FOUND"
handoff_reason _ = "EVIDENCE_HANDOFF_REJECTED"

module _ (o : Ports) (tenant : String) (actor_id : String) where
  -- `get_snapshot` of the repository, unless the request forces a refresh
  abbrev pub cached_snapshot : SourceCandidate → Op (Option SourceSnapshot)
  cached_snapshot source = with_run λ run.
      if run.request.force_refresh
      then pure none
      else (ask o.clock >>= λ now s. returned (get_snapshot tenant source.canonical_url now s.db) s)

  -- a source of which only the citation stays, with the error recorded
  unfoldable pub give_up_source : Place → String → String → Bool → Op (Option SourceSnapshot)
  unfolding modify_source record_error
  give_up_source place provider_id reason_code retryable =
      modify_source place.0 (citation_only reason_code)
      >> record_error (provider_error provider_id reason_code retryable) (some place.1.source_id)
      >> pure none

  abbrev pub extraction_request : ResearchRun → SourceCandidate → ExtractionRequest
  extraction_request run source = record {
    source_id = source.source_id;
    url = source.canonical_url;
    locale = run.request.locale;
    max_content_bytes = o.policy.max_content_bytes;
    cache_ttl_seconds = o.policy.cache_ttl_seconds;
  }

  unfoldable pub call_extract : SourceCandidate → Op ExtractOutcome
  unfolding ensure_active ask record_decisions
  call_extract source = or_else extraction_broke (
      ensure_active o tenant actor_id
      >> with_run λ run. ask (λ n. o.extract n (extraction_request run source)) >>= λ answer.
          record_decisions o tenant actor_id answer.decisions >> pure answer.outcome)

  -- the try block around the URL policy and the normalizer
  unfoldable pub accept_content :
      ResearchRun → SourceCandidate → ExtractedContent → Result String SourceSnapshot
  unfolding normalize
  accept_content run source c =
      elim (o.validate_url run.request.allowed_domains run.request.blocked_domains
        c.canonical_url) [
          | err reason ↦ err reason
          | ok final_url ↦
              if not (final_url.domain == source.domain)
              then err "CROSS_DOMAIN_REDIRECT"
              else normalize o.clean o.sha256_hex o.size o.from_iso o.casefold o.normalizer source c
        ]

  unfoldable pub after_content : Place → Result String SourceSnapshot → Op (Option SourceSnapshot)
  unfolding modify_source fail_attempt record_error note_success succeed_attempt
  after_content place (err reason) =
      modify_source place.0 (citation_only reason)
      >> fail_attempt (provider_error "normalizer" reason false)
      >> record_error (provider_error "normalizer" reason false) (some place.1.source_id)
      >> pure none
  after_content place (ok snapshot) =
      note_success o tenant actor_id o.extractor_id >> succeed_attempt >> pure (some snapshot)

  unfoldable pub after_extract : Place → ExtractOutcome → Op (Option SourceSnapshot)
  unfolding ensure_active note_failure fail_attempt modify_source record_error accept_content
      after_content
  after_extract place extraction_broke =
      ensure_active o tenant actor_id
      >> note_failure o tenant actor_id o.extractor_id true
      >> fail_attempt (provider_error o.extractor_id "PROVIDER_UNAVAILABLE" true)
      >> modify_source place.0 (citation_only "PROVIDER_UNAVAILABLE")
      >> record_error (provider_error o.extractor_id "PROVIDER_UNAVAILABLE" true)
          (some place.1.source_id)
      >> pure none
  after_extract place (extracted (error e)) =
      ensure_active o tenant actor_id
      >> note_failure o tenant actor_id o.extractor_id e.retryable
      >> fail_attempt e
      >> modify_source place.0 (citation_only e.reason_code)
      >> record_error e (some place.1.source_id)
      >> pure none
  after_extract place (extracted (content c)) =
      ensure_active o tenant actor_id
      >> with_run λ run. after_content place (accept_content run place.1 c)

  -- the call of the extractor, once an attempt is admissible
  unfoldable pub extract_once : Place → Op (Option SourceSnapshot)
  unfolding admit_call give_up_source reserve call_extract after_extract
  extract_once place = admit_call o tenant actor_id o.extractor_id >>= λ admitted.
      if not admitted
      then give_up_source place o.extractor_id "PROVIDER_CIRCUIT_OPEN" true
      else (reserve o tenant actor_id o.extractor_id "extract" (some place.1.source_id)
          >>= λ reserved.
              if not reserved
              then give_up_source place "research-budget" "BUDGET_EXCEEDED" false
              else (call_extract place.1 >>= after_extract place))

  unfoldable pub extract_new : Place → Op (Option SourceSnapshot)
  unfolding can_attempt give_up_source extract_once
  extract_new place = with_run λ run.
      if not (can_attempt o tenant actor_id "extract" (some place.1.source_id) run)
      then give_up_source place o.extractor_id "RETRY_LIMIT_EXCEEDED" false
      else extract_once place

  abbrev pub cached_or_new : Place → Option SourceSnapshot → Op (Option SourceSnapshot)
  cached_or_new place (some cached) = pure (some (for_source place.1 cached))
  cached_or_new place none = extract_new place

  -- `_obtain_snapshot`
  unfoldable pub obtain_snapshot : Place → Op (Option SourceSnapshot)
  unfolding ensure_active modify_source ask extract_new
  obtain_snapshot place =
      ensure_active o tenant actor_id
      >> modify_source place.0 selected_source
      >> (cached_snapshot place.1 >>= cached_or_new place)

  abbrev pub evidence_id_of : ResearchRun → SourceSnapshot → String
  evidence_id_of run snapshot =
      "research-" ⧺ take_text 24 (o.sha256_hex (run.research_run_id ⧺ ":" ⧺ snapshot.content_hash))

  abbrev pub evidence_of :
      ResearchRun → SourceCandidate → SourceSnapshot → EvidenceAssessment → EvidenceCandidate
  evidence_of run source snapshot assessment = record {
    evidence_id = evidence_id_of run snapshot;
    tenant_id = tenant;
    research_run_id = run.research_run_id;
    decision_file_id = run.request.decision_file_id;
    claim_refs = run.request.claim_refs;
    source_id = source.source_id;
    snapshot_id = snapshot.snapshot_id;
    content_hash = snapshot.content_hash;
    assessment = assessment;
    provenance = record {
      search_result_rank = source.rank;
      search_query = run.request.query;
      search_provider = source.search_provider;
      search_provider_version = source.search_provider_version;
      content_provider = snapshot.content_provider;
      content_provider_version = snapshot.content_provider_version;
      policy_version = o.evidence_policy_version;
    };
    risk = snapshot.risk;
  }

  abbrev pub with_evidence : ResearchRun → EvidenceCandidate → List EvidenceCandidate
  with_evidence run e =
      if any (λ (item : EvidenceCandidate). item.evidence_id == e.evidence_id) run.evidence
      then run.evidence
      else run.evidence ++ e ∷ []

  -- the rest of the loop's body, for a snapshot of new content
  unfoldable pub use_snapshot : Place → SourceSnapshot → Op (Unit {0})
  unfolding ask assess modify_source
  use_snapshot place snapshot = ask o.clock >>= λ now. with_run λ run.
      let assessment =
        assess o.from_iso o.day o.evidence_policy snapshot place.1
          run.request.freshness.maximum_age_days now in
      set_run (record run {
        snapshots = run.snapshots ++ snapshot ∷ [];
        evidence = with_evidence run (evidence_of run place.1 snapshot assessment);
      })
      >> modify_source place.0 (λ source. record source {
        status = if assessment.usable_for_decision then "EXTRACTED" else "REVIEW_REQUIRED";
      })

  -- the loop over the selected sources, `seen` being the hashes of the content so far
  unfoldable pub extract_all : List String → List Place → Op (Unit {0})
  unfolding ensure_active obtain_snapshot modify_source use_snapshot
  extract_all seen [] = pure tt
  extract_all seen (place ∷ places) =
      ensure_active o tenant actor_id
      >> (obtain_snapshot place >>= λ found. elim found [
        | none ↦ extract_all seen places
        | some snapshot ↦
            ensure_active o tenant actor_id
            >> (if mem snapshot.content_hash seen
                then (modify_source place.0
                      (with_status "DUPLICATE_CONTENT" ("CONTENT_DUPLICATE" ∷ []))
                    >> extract_all seen places)
                else (use_snapshot place snapshot
                    >> extract_all (snapshot.content_hash ∷ seen) places))
      ])

  -- `self._handoff.attach`, inside its try block: whether it failed
  abbrev pub attached_in : ResearchRun → State → Result HandoffError (Document × CaseDb) → Ran Bool
  attached_in run s (ok (document, cases)) = returned false (record s {
    run = record run {
      expected_document_hash = o.document_hash document;
      compiled_decision_file_id = some run.request.decision_file_id;
    };
    cases = cases;
  })
  attached_in run s (err integrity_error) = raised (handoff_failed integrity_error) s
  attached_in run s (err e) = returned true (record s {
    run = record run {
      errors =
          run.errors
          ++ record { reason_code = handoff_reason e; provider = none; source_id = none } ∷ [];
    };
  })

  unfoldable pub try_handoff : List DecisionEvidence → Op Bool
  unfolding ensure_active attach
  try_handoff [] = pure false
  try_handoff (d ∷ ds) =
      ensure_active o tenant actor_id
      >> with_run λ run s. attached_in run s (
          attach o.sha256_json o.sha256_ascii o.document_hash o.contract_ok o.text_of tenant
            run.request.decision_file_id run.expected_document_hash (d ∷ ds) s.cases)

  -- what `compile` gives, which raises StopIteration without a snapshot
  abbrev pub compiled_or : Option (List DecisionEvidence) → Op (List DecisionEvidence)
  compiled_or none = raise snapshot_missing
  compiled_or (some compiled) = pure compiled

  unfoldable pub compiled_evidence : Op (List DecisionEvidence)
  unfolding compile
  compiled_evidence = with_run λ run. compiled_or (compile run)

  -- the last transition
  unfoldable pub conclude : Bool → ℕ → Op (Unit {0})
  unfolding move save_run
  conclude partial handed =
      move o tenant actor_id (if partial then partially_completed else completed)
        ((if partial then "RESEARCH_PARTIALLY_COMPLETED" else "RESEARCH_COMPLETED") ∷ [])
        (λ run.
          obj (field "evidence" (num (length run.evidence)) (field "handoff" (num handed) done)))
        false
      >> save_run o tenant actor_id

  -- the part of `_extract_and_finalize` from EVIDENCE_COMPILED on
  unfoldable pub compile_and_hand_off : Op (Unit {0})
  unfolding move mark_conflicting_evidence compiled_evidence try_handoff ensure_active conclude
  compile_and_hand_off =
      move o tenant actor_id evidence_compiled ("EVIDENCE_CANDIDATES_COMPILED" ∷ [])
        (λ run. obj (field "count" (num (length run.evidence)) done)) false
      >> (with_run λ run. set_run (mark_conflicting_evidence run))
      >> (compiled_evidence >>= λ compiled. try_handoff compiled >>= λ handoff_failed.
          ensure_active o tenant actor_id
          >> with_run
              λ run. conclude (handoff_failed || any is_partial run.sources) (length compiled))

  unfoldable pub citations_only : Op (Unit {0})
  unfolding move save_run
  citations_only =
      move o tenant actor_id partially_completed ("SEARCH_CITATIONS_ONLY" ∷ [])
        (λ run. obj (field "citations" (num (count_if is_citation_only run.sources)) done)) false
      >> save_run o tenant actor_id

  -- the part of `_extract_and_finalize` after its loop
  unfoldable pub finalize : Op (Unit {0})
  unfolding ensure_active citations_only fail_run compile_and_hand_off
  finalize =
      ensure_active o tenant actor_id
      >> with_run λ run.
        if is_empty run.snapshots && any is_citation_only run.sources
        then citations_only
        else if is_empty run.snapshots
        then fail_run o tenant actor_id "NO_CONTENT_EXTRACTED"
        else compile_and_hand_off

  abbrev pub extractable : Bool → List String
  extractable true = "FAILED" ∷ "CITATION_ONLY" ∷ []
  extractable false = "DISCOVERED" ∷ []

  abbrev pub skip_others : Bool → List Place → ResearchRun → ResearchRun
  skip_others true candidates run = run
  skip_others false candidates run = record run {
    sources = map (skip_unselected (map (λ (p : Place). p.1.source_id) candidates)) run.sources;
  }

  unfoldable pub candidates_of : Bool → ResearchRun → List Place
  unfolding select
  candidates_of retry_only run =
      select run.sources run.request.max_sources_to_extract (extractable retry_only)

  -- `seen_hashes`
  abbrev pub hashes_of : ResearchRun → List String
  hashes_of run = map (λ (s : SourceSnapshot). s.content_hash) run.snapshots

  -- `_extract_and_finalize`
  unfoldable pub extract_and_finalize : Bool → Op (Unit {0})
  unfolding ensure_active candidates_of extract_all finalize
  extract_and_finalize retry_only =
      ensure_active o tenant actor_id
      >> with_run λ run.
        set_run (skip_others retry_only (candidates_of retry_only run) run)
        >> extract_all (hashes_of run) (candidates_of retry_only run)
        >> finalize

  -- `_start_extraction`
  unfoldable pub start_extraction : Bool → Op (Unit {0})
  unfolding move save_run
  start_extraction retry =
      move o tenant actor_id extracting
        ((if retry then "RESEARCH_RETRY_STARTED" else "EXTRACTION_STARTED") ∷ [])
        (λ run. obj (field "limit" (num run.request.max_sources_to_extract) done)) retry
      >> save_run o tenant actor_id
