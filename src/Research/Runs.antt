-- ===== src/Research/Runs.antt =====
-- web_research/contracts.py: research runs and what they hold. Instants of the program's own clock are
-- numbers, a score is a number of hundredths, and a status or a reason is the text of the code.
use decision_assurance.Prelude.{
  ℕ, String, Bool, not, ◌&&◌, ◌||◌, Option, List, codes, leb, matches_name, eqb, Result, raise_if,
}
use decision_assurance.Research.Lifecycle.{ResearchStatus}

pub record FreshnessPolicy : Type 0 where
  pub maximum_age_days : ℕ
  pub prefer_recent : Bool

pub record ResearchRequest : Type 0 where
  pub decision_file_id : String
  pub claim_refs : List String
  pub query : String
  pub locale : String
  pub preferred_languages : List String
  pub max_search_results : ℕ
  pub max_sources_to_extract : ℕ
  pub allowed_domains : List String
  pub blocked_domains : List String
  pub freshness : FreshnessPolicy
  pub research_policy : String
  pub force_refresh : Bool

pub record SearchQuery : Type 0 where
  pub query : String
  pub locale : String
  pub preferred_languages : List String
  pub count : ℕ
  pub freshness : FreshnessPolicy
  pub allowed_domains : List String
  pub blocked_domains : List String

pub record SearchResult : Type 0 where
  pub url : String
  pub title : String
  pub snippet : String
  pub rank : ℕ
  pub published_at : Option String
  pub citation_kind : String

pub record SearchResponse : Type 0 where
  pub provider_id : String
  pub provider_version : String
  pub searched_at : String
  pub results : List SearchResult
  pub summary : String
  pub provider_request_id : Option String

pub record SourceCandidate : Type 0 where
  pub source_id : String
  pub original_url : String
  pub canonical_url : String
  pub domain : String
  pub title : String
  pub snippet : String
  pub rank : ℕ
  pub searched_at : String
  pub search_provider : String
  pub search_provider_version : String
  pub published_at : Option String
  pub status : String
  pub reason_codes : List String
  pub citation_kind : String
  pub artifact_type : String

pub record ExtractionRequest : Type 0 where
  pub source_id : String
  pub url : String
  pub locale : String
  pub max_content_bytes : ℕ
  pub cache_ttl_seconds : ℕ

pub record ExtractedContent : Type 0 where
  pub markdown : String
  pub title : String
  pub canonical_url : String
  pub retrieved_at : String
  pub mime_type : String
  pub http_status : ℕ
  pub language : String
  pub content_provider : String
  pub content_provider_version : String

pub record ProviderError : Type 0 where
  pub provider_id : String
  pub reason_code : String
  pub retryable : Bool
  pub status_code : Option ℕ
  pub retry_after : Option ℕ

pub record ResearchError : Type 0 where
  pub reason_code : String
  pub provider : Option ProviderError
  pub source_id : Option String

-- `ExtractionResponse`: exactly one of the two is given
pub data ExtractionResponse : Type 0 where
  content : ExtractedContent → ExtractionResponse
  error : ProviderError → ExtractionResponse

pub record ContentRisk : Type 0 where
  pub prompt_injection_suspected : Bool
  pub risk_reasons : List String
  pub secret_redacted : Bool
  pub active_content_removed : Bool

pub record SourceSnapshot : Type 0 where
  pub snapshot_id : String
  pub source_id : String
  pub original_url : String
  pub canonical_url : String
  pub domain : String
  pub title : String
  pub retrieved_at : ℕ
  pub expires_at : ℕ
  pub content_hash : String
  pub http_status : ℕ
  pub mime_type : String
  pub format : String
  pub text : String
  pub language : String
  pub content_provider : String
  pub content_provider_version : String
  pub risk : ContentRisk

pub record Provenance : Type 0 where
  pub search_result_rank : ℕ
  pub search_query : String
  pub search_provider : String
  pub search_provider_version : String
  pub content_provider : String
  pub content_provider_version : String
  pub policy_version : String

pub record EvidenceAssessment : Type 0 where
  pub freshness_status : String
  pub source_type : String
  pub authority_score : ℕ
  pub relevance_score : ℕ
  pub conflict_status : String
  pub usable_for_decision : Bool
  pub requires_human_review : Bool
  pub reason_codes : List String

pub record EvidenceCandidate : Type 0 where
  pub evidence_id : String
  pub tenant_id : String
  pub research_run_id : String
  pub decision_file_id : String
  pub claim_refs : List String
  pub source_id : String
  pub snapshot_id : String
  pub content_hash : String
  pub assessment : EvidenceAssessment
  pub provenance : Provenance
  pub risk : ContentRisk

pub record ResearchAttempt : Type 0 where
  pub attempt_id : String
  pub provider_id : String
  pub operation : String
  pub status : String
  pub occurred_at : ℕ
  pub source_id : Option String
  pub cost_units : ℕ
  pub reason_code : Option String

pub record ResearchAuditEvent : Type 0 where
  pub event_id : String
  pub event_type : String
  pub occurred_at : String
  pub tenant_id : String
  pub actor_id : String
  pub from_status : ResearchStatus
  pub to_status : ResearchStatus
  pub reason_codes : List String
  pub correlation_id : String
  pub payload_hash : String
  pub previous_event_hash : Option String
  pub schema_version : String
  pub decision : Option String
  pub operating_profile : Option String
  pub policy_version : Option String
  pub provider : Option String
  pub connector : Option String
  pub target_host : Option String
  pub requested_processing_location : Option String
  pub evidence_id : Option String
  pub evidence_status : Option String

pub record ResearchRun : Type 0 where
  pub research_run_id : String
  pub tenant_id : String
  pub actor_id : String
  pub request : ResearchRequest
  pub expected_document_hash : String
  pub semantic_fingerprint : String
  pub status : ResearchStatus
  pub created_at : ℕ
  pub updated_at : ℕ
  pub correlation_id : String
  pub sources : List SourceCandidate
  pub snapshots : List SourceSnapshot
  pub evidence : List EvidenceCandidate
  pub attempts : List ResearchAttempt
  pub errors : List ResearchError
  pub audit_events : List ResearchAuditEvent
  pub provider_cost_units : ℕ
  pub compiled_decision_file_id : Option String
  pub search_summary : Option String
  pub search_provider_request_id : Option String

pub record DecisionEvidence : Type 0 where
  pub evidence_id : String
  pub research_run_id : String
  pub claim_refs : List String
  pub source_ref : String
  pub status : String
  pub observed_at : ℕ
  pub content_hash : String
  pub correlation_id : Option String

-- `_ID_PATTERN`
unfoldable pub matches_id : String → Bool
unfolding matches_name
matches_id s =
    matches_name (λ c. eqb c b'.' || eqb c b'_' || eqb c b':' || eqb c b'-') 255 (codes s)

-- `FreshnessPolicy.__post_init__`
unfoldable pub check_freshness : FreshnessPolicy → Result String (Unit {0})
check_freshness f =
    raise_if (not (leb 1 f.maximum_age_days && leb f.maximum_age_days 3650))
      "INVALID_FRESHNESS_POLICY"
