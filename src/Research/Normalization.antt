-- ===== src/Research/Normalization.antt =====
-- web_research/normalization.py: the snapshot of the content that an extractor delivers. What the regular
-- expressions make of the text is the parameter `clean`; `sha256_hex` is the hexadecimal SHA-256 of a
-- text, `size` the length of its UTF-8 form, `casefold` is `str.casefold`, `from_iso` stands for `datetime.fromisoformat`.
use decision_assurance.Prelude.{
  ℕ, ◌+◌, String, Bool, not, Option, none, some, List, [], ◌∷◌, ◌==◌, any, is_empty, ltb, eqb,
  before_text, take_text, unique_from, Result, ok, err, if◌then◌else◌, ◌⧺◌,
}
use decision_assurance.Research.Runs.{ExtractedContent, SourceCandidate, SourceSnapshot}

-- the text without active content, tags and secrets, and what was found in it
pub record Cleaned : Type 0 where
  pub text : String
  pub active_removed : Bool
  pub secret_redacted : Bool
  pub injections : List String

-- what `EvidenceNormalizer` is built with
pub record Normalizer : Type 0 where
  pub max_content_bytes : ℕ
  pub cache_ttl : ℕ

module _ (clean : String → Cleaned) (sha256_hex : String → String) (size : String → ℕ)
    (from_iso : String → Option ℕ) (casefold : String → String) where
  abbrev pub text_hash : String → String
  text_hash raw = "sha256:" ⧺ sha256_hex raw

  abbrev pub is_readable : ExtractedContent → Bool
  is_readable content =
      any (λ known. before_text b';' (casefold content.mime_type) == known)
        ("text/markdown" ∷ "text/plain" ∷ "text/html" ∷ [])

  abbrev pub snapshot_of : Normalizer → SourceCandidate → ExtractedContent → ℕ → SourceSnapshot
  snapshot_of normalizer source content retrieved = record {
    snapshot_id = source.source_id ⧺ ":snapshot:" ⧺ take_text 16 (sha256_hex content.markdown);
    source_id = source.source_id;
    original_url = source.original_url;
    canonical_url = content.canonical_url;
    domain = source.domain;
    title = if content.title == "" then source.title else content.title;
    retrieved_at = retrieved;
    expires_at = retrieved + normalizer.cache_ttl;
    content_hash = text_hash content.markdown;
    http_status = content.http_status;
    mime_type = before_text b';' (casefold content.mime_type);
    format = "markdown";
    text = (clean content.markdown).text;
    language = casefold content.language;
    content_provider = content.content_provider;
    content_provider_version = content.content_provider_version;
    risk = record {
      prompt_injection_suspected =
          not (is_empty (unique_from [] (clean content.markdown).injections));
      risk_reasons = unique_from [] (clean content.markdown).injections;
      secret_redacted = (clean content.markdown).secret_redacted;
      active_content_removed = (clean content.markdown).active_removed;
    };
  }

  unfoldable pub normalize :
      Normalizer → SourceCandidate → ExtractedContent → Result String SourceSnapshot
  unfolding unique_from
  normalize normalizer source content =
      if not (eqb content.http_status 200)
      then err "ERROR_PAGE"
      else if not (is_readable content)
      then err "MIME_TYPE_UNSUPPORTED"
      else if ltb normalizer.max_content_bytes (size content.markdown)
      then err "CONTENT_TOO_LARGE"
      else elim (from_iso content.retrieved_at) [
        | none ↦ err "INVALID_RETRIEVAL_TIME"
        | some retrieved ↦ ok (snapshot_of normalizer source content retrieved)
      ]
