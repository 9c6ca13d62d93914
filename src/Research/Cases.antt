-- ===== src/Research/Cases.antt =====
-- Evidence that two sources give for a claim, its way into a decision file, and a repeated request.
use decision_assurance.Prelude.{
  ℕ, String, ◌≡◌, refl, true, false, not, ◌&&◌, Option, none, some, List, [], ◌∷◌, All, keep,
  find_first, map, ◌==◌, ok, err, is_ok, ◌⊎◌, if◌then◌else◌, contains_lower, ◌⧺◌,
}
use decision_assurance.Prelude.Json.{str}
use decision_assurance.Decisions.Document.{Document}
use decision_assurance.Decisions.Examples.{accepts, digest_of, drafted, text_of}
use decision_assurance.Decisions.Semantics.{validate_semantics}
use decision_assurance.Research.Lifecycle.{extracting}
use decision_assurance.Research.Runs.{
  ContentRisk, DecisionEvidence, EvidenceAssessment, EvidenceCandidate, ResearchRequest,
  ResearchRun, SourceCandidate, SourceSnapshot,
}
use decision_assurance.Research.Evidence.{
  EvidencePolicy, assess, assess-usable_for_decision, has_provenance, is_behind_paywall,
  is_login_page, is_short, is_supported,
}
use decision_assurance.Research.Conflicts.{
  conflicts_with, in_conflict, conflicting_ids, contradicts, mark_conflicting_evidence,
}
use decision_assurance.Research.Compiler.{compile, is_eligible}
use decision_assurance.Research.Compilation.{
  IsCautious, candidate_ids, compile-mark_conflicting_evidence, compiled_ids,
}
use decision_assurance.Research.Handoff.{CaseDb, CaseRow, attach, is_case}
use decision_assurance.Research.Attachment.{IsAttachment, attach-IsAttachment, attach-replay}
use decision_assurance.Research.Repository.{ResearchDb, key_reused}
use decision_assurance.Research.Idempotency.{
  KeyOf, complete_idempotency, get_idempotency, reserve_idempotency,
}
use decision_assurance.Research.Replays.{complete_idempotency-answers, reserved}
use decision_assurance.Research.Exclusion.{
  KeyCall, reserve_key, complete_key, make_all, reserve_idempotency-exclusive,
}

abbrev pub source : SourceCandidate
source = record {
  source_id = "s1";
  original_url = "https://register.example/7";
  canonical_url = "https://register.example/7";
  domain = "register.example";
  title = "Register";
  snippet = "";
  rank = 1;
  searched_at = "2026-01-01T00:00:00Z";
  search_provider = "search";
  search_provider_version = "1";
  published_at = none;
  status = "DISCOVERED";
  reason_codes = [];
  citation_kind = "CITED";
  artifact_type = "SEARCH_RESULT";
}

abbrev plain_risk : ContentRisk
plain_risk = record {
  prompt_injection_suspected = false;
  risk_reasons = [];
  secret_redacted = false;
  active_content_removed = false;
}

abbrev snapshot_with : String → String → SourceSnapshot
snapshot_with id text = record {
  snapshot_id = id;
  source_id = "s1";
  original_url = "https://register.example/7";
  canonical_url = "https://register.example/7";
  domain = "register.example";
  title = "Register";
  retrieved_at = 5;
  expires_at = 9;
  content_hash = "hash-" ⧺ id;
  http_status = 200;
  mime_type = "text/plain";
  format = "markdown";
  text = text;
  language = "en-GB";
  content_provider = "extractor";
  content_provider_version = "1";
  risk = plain_risk;
}

abbrev pub evidence_policy : EvidencePolicy
evidence_policy = record {
  primary = "register.example" ∷ [];
  secondary = [];
  languages = "de" ∷ "en" ∷ [];
  minimum = 10;
}

abbrev required_text : SourceSnapshot
required_text = snapshot_with "n1" "Insurance cover is required here."

abbrev optional_text : SourceSnapshot
optional_text = snapshot_with "n2" "Insurance cover is not required here."

abbrev pub no_date : String → Option ℕ
no_date s = none

assess-usable_for_decision_example :
    (assess no_date 1 evidence_policy required_text source 365 10).usable_for_decision ≡ (
      has_provenance required_text source
      && not (is_short evidence_policy required_text.text)
      && not (is_login_page required_text.text)
      && not (is_behind_paywall required_text.text)
      && is_supported evidence_policy required_text.language
      && not required_text.risk.prompt_injection_suspected)
assess-usable_for_decision_example =
    assess-usable_for_decision no_date 1 evidence_policy required_text source 365 10

is_usable :
    (assess no_date 1 evidence_policy required_text source 365 10).usable_for_decision ≡ true
unfolding assess contains_lower
is_usable = refl

texts_conflict : contradicts required_text.text optional_text.text ≡ true
unfolding contradicts
texts_conflict = refl

abbrev usable : EvidenceAssessment
usable = record {
  freshness_status = "CURRENT";
  source_type = "PRIMARY";
  authority_score = 90;
  relevance_score = 100;
  conflict_status = "NOT_CHECKED";
  usable_for_decision = true;
  requires_human_review = true;
  reason_codes = "EXTERNAL_EVIDENCE_UNVERIFIED" ∷ [];
}

abbrev candidate : String → String → EvidenceCandidate
candidate id snapshot_id = record {
  evidence_id = id;
  tenant_id = "tenant-a";
  research_run_id = "run-1";
  decision_file_id = "case-1";
  claim_refs = "c1" ∷ [];
  source_id = "s1";
  snapshot_id = snapshot_id;
  content_hash = "hash-" ⧺ snapshot_id;
  assessment = usable;
  provenance = record {
    search_result_rank = 1;
    search_query = "insurance";
    search_provider = "search";
    search_provider_version = "1";
    content_provider = "extractor";
    content_provider_version = "1";
    policy_version = "1";
  };
  risk = plain_risk;
}

abbrev pub request : ResearchRequest
request = record {
  decision_file_id = "case-1";
  claim_refs = "c1" ∷ [];
  query = "insurance";
  locale = "en";
  preferred_languages = "en" ∷ [];
  max_search_results = 2;
  max_sources_to_extract = 1;
  allowed_domains = [];
  blocked_domains = [];
  freshness = record { maximum_age_days = 365; prefer_recent = true };
  research_policy = "standard";
  force_refresh = false;
}

abbrev pub run : ResearchRun
run = record {
  research_run_id = "run-1";
  tenant_id = "tenant-a";
  actor_id = "alice";
  request = request;
  expected_document_hash = "document";
  semantic_fingerprint = "f1";
  status = extracting;
  created_at = 1;
  updated_at = 1;
  correlation_id = "corr-1";
  sources = source ∷ [];
  snapshots = required_text ∷ optional_text ∷ [];
  evidence = candidate "e1" "n1" ∷ candidate "e2" "n2" ∷ [];
  attempts = [];
  errors = [];
  audit_events = [];
  provider_cost_units = 0;
  compiled_decision_file_id = none;
  search_summary = none;
  search_provider_request_id = none;
}

compiled : List DecisionEvidence
unfolding compile mark_conflicting_evidence
compiled = elim (compile (mark_conflicting_evidence run)) [ none ↦ [] | some ds ↦ ds ]

is_compiled : compile (mark_conflicting_evidence run) ≡ some compiled
unfolding compiled conflicts_with in_conflict
is_compiled = refl

are_conflicting :
    map (λ (d : DecisionEvidence). d.status) compiled ≡ "CONFLICTING" ∷ "CONFLICTING" ∷ []
unfolding compiled contradicts conflicts_with in_conflict
are_conflicting = refl

compile-mark_conflicting_evidence_example :
    (compiled_ids compiled ≡ candidate_ids (keep is_eligible run.evidence))
    × All (IsCautious (conflicting_ids run.snapshots run.evidence)) compiled
compile-mark_conflicting_evidence_example =
    compile-mark_conflicting_evidence run compiled is_compiled

abbrev pub document_hash : Document → String
document_hash d = "document"

abbrev pub cases : CaseDb
cases = record {
  decisions = record { tenant_id = "tenant-a"; decision_id = "case-1"; document = drafted } ∷ [];
  audit_events = [];
  handoffs = [];
}

abbrev found : DecisionEvidence
found = record {
  evidence_id = "e9";
  research_run_id = "run-1";
  claim_refs = "c1" ∷ [];
  source_ref = "research:run-1:e9";
  status = "UNVERIFIED";
  observed_at = 5;
  content_hash = "hash-n1";
  correlation_id = some "corr-1";
}

handed_over : Document × CaseDb
unfolding attach
handed_over =
    elim (attach digest_of digest_of document_hash accepts text_of "tenant-a" "case-1" "document"
      (found ∷ []) cases) [ ok p ↦ p | err e ↦ (drafted, cases) ]

is_handed_over :
    attach digest_of digest_of document_hash accepts text_of "tenant-a" "case-1" "document"
      (found ∷ [])
      cases
    ≡ ok handed_over
unfolding handed_over validate_semantics
is_handed_over = refl

attach-replay_example :
    attach digest_of digest_of document_hash accepts text_of "tenant-a" "case-1" "other"
      (found ∷ [])
      handed_over.1
    ≡ ok handed_over
attach-replay_example =
    attach-replay digest_of digest_of document_hash accepts text_of "tenant-a" "case-1" "document"
      "other" (found ∷ []) cases handed_over is_handed_over

attach-IsAttachment_example :
    (row : CaseRow) × (find_first (is_case "tenant-a" "case-1") cases.decisions ≡ some row)
    × ((handed_over.0 ≡ row.document) × (handed_over.1 ≡ cases)
        ⊎ IsAttachment digest_of digest_of document_hash accepts text_of "document"
            (found ∷ [])
            row.document
            handed_over.0)
attach-IsAttachment_example =
    attach-IsAttachment digest_of digest_of document_hash accepts text_of "tenant-a" "case-1"
      "document" (found ∷ []) cases handed_over.1 handed_over.0 is_handed_over

abbrev pub no_rows : ResearchDb
no_rows = record {
  runs = [];
  budget = [];
  sources = [];
  snapshots = [];
  evidence = [];
  attempts = [];
  audit_events = [];
  idempotency = [];
}

abbrev key : KeyOf
key = record { tenant_id = "tenant-a"; actor_id = "alice"; operation = "execute"; key = "k1" }

is_reserved : reserve_idempotency key "h1" no_rows ≡ ok (none, reserved key "h1" no_rows)
unfolding reserve_idempotency
is_reserved = refl

-- another client that asks for the key, and one that has its own
abbrev other_calls : List KeyCall
other_calls =
    reserve_key key "h1"
    ∷ reserve_key (record key { key = "k2" }) "h2"
    ∷ complete_key (record key { key = "k2" }) "h2" 200 (str "done")
    ∷ []

reserve_idempotency-exclusive_example :
    is_ok (reserve_idempotency key "h1" (make_all other_calls (reserved key "h1" no_rows))) ≡ false
reserve_idempotency-exclusive_example =
    reserve_idempotency-exclusive key "h1" "h1" other_calls no_rows (reserved key "h1" no_rows)
      is_reserved (tt, (tt, (refl, tt)))

complete_idempotency-answers_example :
    (db2 : ResearchDb) × (complete_idempotency key "h1" 200 (str "done") (reserved key "h1" no_rows)
      ≡ ok (tt, db2))
    × (get_idempotency key "h1" db2 ≡ ok (some (200, str "done")))
    × ((g : String)
        → reserve_idempotency key g db2
          ≡ (if "h1" == g then ok (some (200, str "done"), db2) else err key_reused))
complete_idempotency-answers_example =
    complete_idempotency-answers key "h1" 200 (str "done") no_rows (reserved key "h1" no_rows)
      is_reserved refl
