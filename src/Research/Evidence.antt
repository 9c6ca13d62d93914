-- ===== src/Research/Evidence.antt =====
-- web_research/evidence_policy.py and web_research/selection.py: which sources are extracted, and how the
-- content of a source is assessed. `from_iso` stands for `datetime.fromisoformat`: the instant that a
-- text names, if it names one. A day has `day` ticks of the clock.
use decision_assurance.Prelude.{
  ℕ, ◌-◌, ◌*◌, ◌/◌, ◌≡◌, max, String, Bool, true, false, not, ◌&&◌, ◌||◌, Option, none, some, List,
  [], ◌∷◌, ◌++◌, ◌==◌, any, any-append, refl, arith, is_empty, mem, ltb, leb, eqb, length, codes,
  contains_lower, unique_from, strip_codes, codes_eq, before_code, lower_codes, suc, keep, take,
  if◌then◌else◌,
}
use text.Mathlib.Text.{is_le}
use Prim.Native.String.{compare}
use decision_assurance.Research.Runs.{EvidenceAssessment, SourceCandidate, SourceSnapshot}

abbrev pub reason_when : Bool → String → List String
reason_when true reason = reason ∷ []
reason_when false reason = []

pub record EvidencePolicy : Type 0 where
  pub primary : List String
  pub secondary : List String
  pub languages : List String
  pub minimum : ℕ

-- `blocking` in `assess`
abbrev pub blocking : List String
blocking =
    "PROVENANCE_MISSING" ∷ "CONTENT_TOO_SHORT" ∷ "LOGIN_PAGE" ∷ "PAYWALL_DETECTED"
    ∷ "UNSUPPORTED_CONTENT_LANGUAGE" ∷ "PROMPT_INJECTION_SUSPECTED" ∷ []

abbrev is_given : String → Bool
is_given s = not (s == "")

abbrev pub has_provenance : SourceSnapshot → SourceCandidate → Bool
has_provenance snapshot source =
    is_given source.search_provider
    && is_given source.search_provider_version
    && is_given snapshot.content_provider
    && is_given snapshot.content_provider_version
    && is_given snapshot.content_hash

-- `intersects(xs, ys)`: `xs.intersection(ys)` is not empty
unfoldable pub intersects : List String → List String → Bool
intersects xs ys = any (λ y. mem y xs) ys

-- what an age says of a publication
abbrev freshness_of_age : Bool → String
freshness_of_age true = "CURRENT"
freshness_of_age false = "STALE"

abbrev pub is_supported : EvidencePolicy → String → Bool
is_supported policy language =
    any (λ known. codes_eq (before_code b'-' (lower_codes language)) (lower_codes known))
      policy.languages

abbrev pub is_login_page : String → Bool
is_login_page text =
    contains_lower "sign in to continue" text || contains_lower "log in to continue" text

abbrev pub is_behind_paywall : String → Bool
is_behind_paywall text =
    contains_lower "subscribe to continue" text || contains_lower "paywall" text

abbrev pub is_short : EvidencePolicy → String → Bool
is_short policy text = ltb (length (strip_codes (codes text))) policy.minimum

-- the reasons that the content gives
unfoldable pub content_reasons : EvidencePolicy → SourceSnapshot → SourceCandidate → List String
content_reasons policy snapshot source =
    reason_when (not (has_provenance snapshot source)) "PROVENANCE_MISSING"
    ++ reason_when (is_short policy snapshot.text) "CONTENT_TOO_SHORT"
    ++ reason_when (is_login_page snapshot.text) "LOGIN_PAGE"
    ++ reason_when (is_behind_paywall snapshot.text) "PAYWALL_DETECTED"
    ++ reason_when (not (is_supported policy snapshot.language)) "UNSUPPORTED_CONTENT_LANGUAGE"
    ++ reason_when snapshot.risk.prompt_injection_suspected "PROMPT_INJECTION_SUSPECTED"

-- the source's type and its authority
unfoldable pub authority : EvidencePolicy → SourceCandidate → String × ℕ
authority policy source =
    if mem source.domain policy.primary
    then ("PRIMARY", 90)
    else if mem source.domain policy.secondary
    then ("SECONDARY", 60)
    else ("UNKNOWN", 20)

-- `round(max(0.2, 1.0 - (max(rank, 1) - 1) * 0.08), 2)`
unfoldable pub relevance : SourceCandidate → ℕ
relevance source = max 20 (100 - (max source.rank 1 - 1) * 8)

-- A reason among the blocking ones blocks exactly if its test holds.
intersects-reason_when :
    (b : Bool) (reason : String)
    → mem reason blocking ≡ true
    → intersects blocking (reason_when b reason) ≡ b
unfolding intersects
intersects-reason_when true reason h = rw h refl
intersects-reason_when false reason h = refl

intersects-append :
    (known xs ys : List String)
    → intersects known (xs ++ ys) ≡ (intersects known xs || intersects known ys)
unfolding intersects
intersects-append known xs ys = any-append (λ y. mem y known) xs ys

intersects-reason_when_last :
    (xs : List String) (b : Bool) (reason : String) {blocked : Bool}
    → mem reason blocking ≡ true
    → intersects blocking xs ≡ blocked
    → intersects blocking (xs ++ reason_when b reason) ≡ (blocked || b)
intersects-reason_when_last xs b reason h k =
    rw (intersects-append blocking xs (reason_when b reason), intersects-reason_when b reason h, k)
      refl

reasons6 :
    (a b c d e f : Bool)
    → intersects blocking (
        reason_when a "PROVENANCE_MISSING"
        ++ reason_when b "CONTENT_TOO_SHORT"
        ++ reason_when c "LOGIN_PAGE"
        ++ reason_when d "PAYWALL_DETECTED"
        ++ reason_when e "UNSUPPORTED_CONTENT_LANGUAGE"
        ++ reason_when f "PROMPT_INJECTION_SUSPECTED")
      ≡ (a || b || c || d || e || f)
reasons6 a b c d e f = intersects-reason_when_last _ f "PROMPT_INJECTION_SUSPECTED" refl (
    intersects-reason_when_last _ e "UNSUPPORTED_CONTENT_LANGUAGE" refl (
      intersects-reason_when_last _ d "PAYWALL_DETECTED" refl (
        intersects-reason_when_last _ c "LOGIN_PAGE" refl (
          intersects-reason_when_last _ b "CONTENT_TOO_SHORT" refl
            (intersects-reason_when a "PROVENANCE_MISSING" refl)))))

none_of_six :
    (a b c d e f : Bool)
    → not ((not a || b || c || d || not e || f) || false)
      ≡ (a && not b && not c && not d && e && not f)
none_of_six a b c d e f = ground arith

-- Exactly the six tests of the content block it.
content_reasons-intersects :
    (policy : EvidencePolicy) (snapshot : SourceSnapshot) (source : SourceCandidate)
    → intersects blocking (content_reasons policy snapshot source) ≡ (
        not (has_provenance snapshot source)
        || is_short policy snapshot.text
        || is_login_page snapshot.text
        || is_behind_paywall snapshot.text
        || not (is_supported policy snapshot.language)
        || snapshot.risk.prompt_injection_suspected)
unfolding content_reasons
content_reasons-intersects policy snapshot source =
    reasons6 (not (has_provenance snapshot source)) (is_short policy snapshot.text)
      (is_login_page snapshot.text) (is_behind_paywall snapshot.text)
      (not (is_supported policy snapshot.language)) snapshot.risk.prompt_injection_suspected

module _ (from_iso : String → Option ℕ) (day : ℕ) where
  -- the freshness and the reason that goes with it
  unfoldable pub freshness : SourceCandidate → ℕ → ℕ → String × List String
  freshness source maximum_age_days now = elim source.published_at [
    | none ↦ ("UNKNOWN", [])
    | some published_at ↦
        if published_at == "" then ("UNKNOWN", []) else elim (from_iso published_at) [
          | none ↦ ("UNKNOWN", "PUBLICATION_DATE_INVALID" ∷ [])
          | some published ↦
              if leb ((now - published) / day) maximum_age_days
              then ("CURRENT", [])
              else ("STALE", "CONTENT_OUTDATED" ∷ [])
        ]
  ]

  unfoldable pub assess :
      EvidencePolicy → SourceSnapshot → SourceCandidate → ℕ → ℕ → EvidenceAssessment
  unfolding content_reasons freshness authority relevance unique_from intersects
  assess policy snapshot source maximum_age_days now =
      let fresh = freshness source maximum_age_days now in
      let reasons = content_reasons policy snapshot source ++ fresh.1 in
      let usable = not (intersects blocking reasons) in
      record {
        freshness_status = fresh.0;
        source_type = (authority policy source).0;
        authority_score = (authority policy source).1;
        relevance_score = relevance source;
        conflict_status = "NOT_CHECKED";
        usable_for_decision = usable;
        requires_human_review = true;
        reason_codes =
            unique_from []
              (if usable && is_empty reasons then "EXTERNAL_EVIDENCE_UNVERIFIED" ∷ [] else reasons);
      }

  freshness-is_not_blocking :
      (source : SourceCandidate) (maximum_age_days now : ℕ)
      → intersects blocking (freshness source maximum_age_days now).1 ≡ false
  unfolding freshness intersects
  freshness-is_not_blocking source maximum_age_days now = ground arith

  -- What makes content usable, said directly.
  pub assess-usable_for_decision :
      (policy : EvidencePolicy) (snapshot : SourceSnapshot) (source : SourceCandidate)
      (maximum_age_days now : ℕ)
      → (assess policy snapshot source maximum_age_days now).usable_for_decision ≡ (
          has_provenance snapshot source
          && not (is_short policy snapshot.text)
          && not (is_login_page snapshot.text)
          && not (is_behind_paywall snapshot.text)
          && is_supported policy snapshot.language
          && not snapshot.risk.prompt_injection_suspected)
  unfolding assess
  assess-usable_for_decision policy snapshot source maximum_age_days now =
      rw
        (
          intersects-append blocking (content_reasons policy snapshot source)
              (freshness source maximum_age_days now).1,
          content_reasons-intersects policy snapshot source,
          freshness-is_not_blocking source maximum_age_days now,
        )
        (none_of_six (has_provenance snapshot source) (is_short policy snapshot.text)
          (is_login_page snapshot.text) (is_behind_paywall snapshot.text)
          (is_supported policy snapshot.language) snapshot.risk.prompt_injection_suspected)

-- a source with its place among those of the run: the objects that `select` returns are those of
-- `run.sources`
abbrev pub Place : Type 0
Place = ℕ × SourceCandidate

abbrev pub places_from : ℕ → List SourceCandidate → List Place
places_from n [] = []
places_from n (s ∷ ss) = (n, s) ∷ places_from (suc n) ss

-- the order of `sorted(…, key=lambda item: (item.rank, item.source_id))`
abbrev pub is_before_place : Place → Place → Bool
is_before_place p q =
    ltb p.1.rank q.1.rank || (eqb p.1.rank q.1.rank && is_le (compare p.1.source_id q.1.source_id))

insert_place : Place → List Place → List Place
insert_place p [] = p ∷ []
insert_place p (q ∷ qs) =
    let rest = insert_place p qs in if is_before_place p q then p ∷ q ∷ qs else q ∷ rest

sorted_places : List Place → List Place
unfolding insert_place
sorted_places [] = []
sorted_places (p ∷ ps) = insert_place p (sorted_places ps)

-- `SourceSelectionPolicy.select`
unfoldable pub select : List SourceCandidate → ℕ → List String → List Place
unfolding sorted_places
select sources limit statuses =
    take limit (sorted_places (keep (λ p. mem p.1.status statuses) (places_from 0 sources)))
