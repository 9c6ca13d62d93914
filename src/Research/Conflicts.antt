-- ===== src/Research/Conflicts.antt =====
-- web_research/conflicts.py: evidence of a run that contradicts other evidence for the same claim. Texts
-- are compared as lower-case code points.
use decision_assurance.Prelude.{
  ℕ, ◌*◌, max, min, String, Bool, true, false, not, ◌&&◌, ◌||◌, Option, none, some, List, [], ◌∷◌,
  ◌++◌, map, ◌==◌, any, is_empty, keep, leb, length, codes, codes_eq, contains_codes, lower_codes,
  mem, unique_from, if◌then◌else◌,
}
use decision_assurance.Research.Evidence.{intersects}
use decision_assurance.Research.Runs.{
  EvidenceAssessment, EvidenceCandidate, ResearchRun, SourceCandidate, SourceSnapshot,
}

-- `_NEGATION_PAIRS`
abbrev pub negation_pairs : List (String × String)
negation_pairs =
    (" is required", " is not required")
    ∷ (" must ", " must not ")
    ∷ (" shall ", " shall not ")
    ∷ (" is allowed", " is prohibited")
    ∷ []

-- `_STOP_WORDS`
abbrev pub stop_words : List String
stop_words = "a" ∷ "an" ∷ "and" ∷ "is" ∷ "not" ∷ "the" ∷ "to" ∷ "must" ∷ "shall" ∷ []

abbrev is_word_code : ℕ → Bool
is_word_code c = (leb b'a' c && leb c b'z') || (leb b'0' c && leb c b'9')

-- `_WORDS.findall`: the first word, which may be empty, and the words after it
unfoldable pub split_words : List ℕ → List ℕ × List (List ℕ)
split_words [] = ([], [])
split_words (c ∷ cs) =
    let rest = split_words cs in
    if is_word_code c then (c ∷ rest.0, rest.1) else ([], rest.0 ∷ rest.1)

abbrev pub mem_codes : List ℕ → List (List ℕ) → Bool
mem_codes w ws = any (codes_eq w) ws

unfoldable pub distinct_words : List (List ℕ) → List (List ℕ)
distinct_words [] = []
distinct_words (w ∷ ws) =
    let rest = distinct_words ws in if mem_codes w rest then rest else w ∷ rest

-- `_core`
unfoldable pub core_words : String → List (List ℕ)
unfolding split_words distinct_words
core_words value =
    let words = split_words (lower_codes value) in
    distinct_words
      (keep (λ w. not (is_empty w) && not (mem_codes w (map codes stop_words))) (words.0 ∷ words.1))

-- `f" {value.casefold()} "`
abbrev pub padded : String → List ℕ
padded value = b' ' ∷ (lower_codes value ++ b' ' ∷ [])

abbrev pub is_explicit : List ℕ → List ℕ → String × String → Bool
is_explicit left right (positive, negative) =
    (contains_codes (codes positive) left && contains_codes (codes negative) right)
    || (contains_codes (codes negative) left && contains_codes (codes positive) right)

-- `_contradicts`
unfoldable pub contradicts : String → String → Bool
unfolding core_words contains_codes
contradicts left right =
    if not (any (is_explicit (padded left) (padded right)) negation_pairs)
    then false
    else let overlap = keep (λ w. mem_codes w (core_words right)) (core_words left) in
      not (is_empty overlap)
      && leb (max 1 (min (length (core_words left)) (length (core_words right))))
          (2 * length overlap)

-- `snapshots.get(snapshot_id)`: of two snapshots with one id the later one counts
unfoldable pub snapshot_for : String → List SourceSnapshot → Option SourceSnapshot
snapshot_for id [] = none
snapshot_for id (s ∷ ss) = elim (snapshot_for id ss) [
  | some t ↦ some t
  | none ↦ if s.snapshot_id == id then some s else none
]

abbrev texts_contradict : Option SourceSnapshot → Option SourceSnapshot → Bool
texts_contradict (some left) (some right) = contradicts left.text right.text
texts_contradict _ _ = false

-- the test of the inner loop
unfoldable pub in_conflict : List SourceSnapshot → EvidenceCandidate → EvidenceCandidate → Bool
unfolding intersects snapshot_for contradicts
in_conflict snapshots left right =
    intersects left.claim_refs right.claim_refs
    && texts_contradict (snapshot_for left.snapshot_id snapshots)
        (snapshot_for right.snapshot_id snapshots)

-- the inner loop, for one `left`
unfoldable pub conflicts_with :
    List SourceSnapshot → EvidenceCandidate → List EvidenceCandidate → List String
conflicts_with snapshots left [] = []
conflicts_with snapshots left (right ∷ rest) =
    let others = conflicts_with snapshots left rest in
    if in_conflict snapshots left right
    then left.evidence_id ∷ right.evidence_id ∷ others
    else others

-- `conflicting`
unfoldable pub conflicting_ids : List SourceSnapshot → List EvidenceCandidate → List String
conflicting_ids snapshots [] = []
conflicting_ids snapshots (left ∷ rest) =
    conflicts_with snapshots left rest ++ conflicting_ids snapshots rest

abbrev pub with_conflict : EvidenceAssessment → EvidenceAssessment
with_conflict a = record a {
  conflict_status = "CONFLICTING";
  requires_human_review = true;
  reason_codes = unique_from [] (a.reason_codes ++ "CONFLICTING_EVIDENCE" ∷ []);
}

abbrev pub mark_evidence : List String → EvidenceCandidate → EvidenceCandidate
mark_evidence conflicting item =
    if mem item.evidence_id conflicting
    then record item { assessment = with_conflict item.assessment }
    else item

abbrev pub mark_source : List String → SourceCandidate → SourceCandidate
mark_source source_ids source =
    if mem source.source_id source_ids
    then record source {
      status = "REVIEW_REQUIRED";
      reason_codes = unique_from [] (source.reason_codes ++ "CONFLICTING_EVIDENCE" ∷ []);
    }
    else source

unfoldable pub mark_conflicting_evidence : ResearchRun → ResearchRun
unfolding conflicting_ids unique_from
mark_conflicting_evidence run =
    let conflicting = conflicting_ids run.snapshots run.evidence in
    let hit = keep (λ (e : EvidenceCandidate). mem e.evidence_id conflicting) run.evidence in
    if is_empty conflicting then run else record run {
      evidence = map (mark_evidence conflicting) run.evidence;
      sources = map (mark_source (map (λ (e : EvidenceCandidate). e.source_id) hit)) run.sources;
    }
