-- ===== src/Research/Orchestrator/Extractions.antt =====
-- The extraction of sources and the end of a run keep the run sound, whatever the extractor answers
-- (web_research/orchestrator.py).
use decision_assurance.Prelude.{
  ℕ, if_cases, String, Bool, true, false, not, ◌&&◌, Option, none, some, List, [], ◌∷◌, ◌≡◌, any,
  is_empty, mem, Result, ok, err, if◌then◌else◌,
}
use mathlib.Core.Path.{subst}
use decision_assurance.Decisions.Document.{Document}
use decision_assurance.Research.Runs.{
  DecisionEvidence, ResearchRun, SourceCandidate, SourceSnapshot, content, error,
}
use decision_assurance.Research.Evidence.{Place}
use decision_assurance.Research.Conflicts.{mark_conflicting_evidence, conflicting_ids}
use decision_assurance.Research.Compiler.{compile}
use decision_assurance.Research.Handoff.{CaseDb, HandoffError, integrity_error}
use decision_assurance.Research.Orchestrator.State.{
  Answer, ExtractOutcome, Op, Ports, State, ask, can_attempt, extracted, extraction_broke,
  provider_error, ensure_active, modify_source, ◌>>◌, set_run,
}
use decision_assurance.Research.Orchestrator.Triples.{
  Keeps, ◌⨟◌, Keeps->>=, Keeps-ask, Keeps-pure, Keeps-raise, Leads, Leads->>=, Leads-before,
  Leads-choice, Leads-if, Leads-or_else, Leads-run, Leads-with_run, Post,
}
use decision_assurance.Research.Orchestrator.Soundness.{
  CanAttempt, IsSound, IsSoundRun, admit_call-Keeps, fail_attempt-IsSound, modify_source-IsSound,
  move-IsSound, note_failure-IsSound, note_success-IsSound, record_decisions-IsSound,
  record_error-IsSound, save_run-IsSound, succeed_attempt-IsSound,
}
use decision_assurance.Research.Orchestrator.Searches.{
  active-IsSound, can_attempt-CanAttempt, fail_run-IsSound, reserve-IsSound,
}
use decision_assurance.Research.Orchestrator.Extraction.{
  after_content, after_extract, candidates_of, hashes_of, attached_in, cached_or_new,
  cached_snapshot, call_extract, citations_only, compiled_or, compile_and_hand_off,
  compiled_evidence, conclude, extract_all, extract_and_finalize, extract_new, extract_once,
  extraction_request, finalize, give_up_source, is_citation_only, obtain_snapshot, skip_others,
  start_extraction, try_handoff, use_snapshot, with_status,
}

module _ (o : Ports) (tenant actor_id : String) where
  give_up_source-IsSound :
      (place : Place) (provider_id reason_code : String) (retryable : Bool)
      → Keeps
          (IsSound o)
          (IsSound o)
          (give_up_source o tenant actor_id place provider_id reason_code retryable)
  unfolding give_up_source
  give_up_source-IsSound place provider_id reason_code retryable =
      modify_source-IsSound o _ _ ⨟ record_error-IsSound o _ _ ⨟ Keeps-pure _

  call_extract-IsSound :
      (source : SourceCandidate)
      → Keeps (IsSound o) (IsSound o) (call_extract o tenant actor_id source)
  unfolding call_extract
  call_extract-IsSound source =
      Leads-or_else (λ _. IsSound o) extraction_broke _ (λ _ _ h. h)
        (active-IsSound o tenant actor_id
          ⨟ Leads-run λ run.
            Keeps->>=
              (Keeps-ask (IsSound o)
                (λ n. o.extract n (extraction_request o tenant actor_id run source)))
              (λ (answer : Answer ExtractOutcome).
                record_decisions-IsSound o tenant actor_id answer.decisions
                ⨟ Keeps-pure answer.outcome))

  after_content-IsSound :
      (place : Place) (r : Result String SourceSnapshot)
      → Keeps (IsSound o) (IsSound o) (after_content o tenant actor_id place r)
  unfolding after_content
  after_content-IsSound place (err reason) =
      modify_source-IsSound o _ _
      ⨟ fail_attempt-IsSound o (provider_error "normalizer" reason false)
      ⨟ record_error-IsSound o _ _
      ⨟ Keeps-pure _
  after_content-IsSound place (ok snapshot) =
      note_success-IsSound o tenant actor_id _ ⨟ succeed_attempt-IsSound o ⨟ Keeps-pure _

  after_extract-IsSound :
      (place : Place) (outcome : ExtractOutcome)
      → Keeps (IsSound o) (IsSound o) (after_extract o tenant actor_id place outcome)
  unfolding after_extract
  after_extract-IsSound place extraction_broke =
      active-IsSound o tenant actor_id
      ⨟ note_failure-IsSound o tenant actor_id _ _
      ⨟ fail_attempt-IsSound o (provider_error o.extractor_id "PROVIDER_UNAVAILABLE" true)
      ⨟ modify_source-IsSound o _ _
      ⨟ record_error-IsSound o _ _
      ⨟ Keeps-pure _
  after_extract-IsSound place (extracted (error e)) =
      active-IsSound o tenant actor_id
      ⨟ note_failure-IsSound o tenant actor_id _ _
      ⨟ fail_attempt-IsSound o e
      ⨟ modify_source-IsSound o _ _
      ⨟ record_error-IsSound o _ _
      ⨟ Keeps-pure _
  after_extract-IsSound place (extracted (content c)) =
      active-IsSound o tenant actor_id ⨟ Leads-run (λ run. after_content-IsSound place _)

  extract_once-IsSound :
      (place : Place)
      → Leads
          (IsSound o)
          (CanAttempt o tenant actor_id "extract" (some place.1.source_id))
          (extract_once o tenant actor_id place)
          (λ _. IsSound o)
  unfolding extract_once
  extract_once-IsSound place =
      Keeps->>= (admit_call-Keeps o tenant actor_id _ _ (λ _ _ h. h.0)) λ admitted.
        Leads-choice (not admitted)
          (Leads-before _ (IsSound o) _ (λ _ _ h. h.0) (give_up_source-IsSound place _ _ _))
          (Leads->>= _ _ (λ _. IsSound o) _ (reserve-IsSound o tenant actor_id _ _ _)
            λ reserved.
              Leads-choice (not reserved) (give_up_source-IsSound place _ _ _)
                (Keeps->>= (call_extract-IsSound place.1) (after_extract-IsSound place)))

  extract_new-IsSound :
      (place : Place) → Keeps (IsSound o) (IsSound o) (extract_new o tenant actor_id place)
  unfolding extract_new
  extract_new-IsSound place = Leads-with_run _ _ λ run.
      Leads-if _ (not (can_attempt o tenant actor_id "extract" (some place.1.source_id) run)) _ _
        (λ _. Leads-before _ (IsSound o) _ (λ _ _ h. h.0) (give_up_source-IsSound place _ _ _))
        (λ e.
          Leads-before _ (CanAttempt o tenant actor_id "extract" (some place.1.source_id)) _
            (λ r db h.
              can_attempt-CanAttempt o tenant actor_id "extract" (some place.1.source_id) run r db e
                h)
            (extract_once-IsSound place))

  cached_snapshot-IsSound :
      (source : SourceCandidate)
      → Keeps (IsSound o) (IsSound o) (cached_snapshot o tenant actor_id source)
  cached_snapshot-IsSound source = Leads-run λ run.
      Leads-choice run.request.force_refresh (Keeps-pure none)
        (Keeps->>= (Keeps-ask (IsSound o) o.clock) (λ now. record { at = λ s h. h }))

  cached_or_new-IsSound :
      (place : Place) (cached : Option SourceSnapshot)
      → Keeps (IsSound o) (IsSound o) (cached_or_new o tenant actor_id place cached)
  cached_or_new-IsSound place (some cached) = Keeps-pure _
  cached_or_new-IsSound place none = extract_new-IsSound place

  obtain_snapshot-IsSound :
      (place : Place) → Keeps (IsSound o) (IsSound o) (obtain_snapshot o tenant actor_id place)
  unfolding obtain_snapshot
  obtain_snapshot-IsSound place =
      active-IsSound o tenant actor_id
      ⨟ modify_source-IsSound o _ _
      ⨟ Keeps->>= (cached_snapshot-IsSound place.1) (cached_or_new-IsSound place)

  use_snapshot-IsSound :
      (place : Place) (snapshot : SourceSnapshot)
      → Keeps (IsSound o) (IsSound o) (use_snapshot o tenant actor_id place snapshot)
  unfolding use_snapshot modify_source ask
  use_snapshot-IsSound place snapshot = record { at = λ s h. h }

  -- the loop's body, `rest` being the loop over the sources that follow
  found_cases :
      (place : Place) (seen : List String) (rest : List String → Op (Unit {0}))
      → ((hashes : List String) → Keeps (IsSound o) (IsSound o) (rest hashes))
      → (found : Option SourceSnapshot)
      → Keeps (IsSound o) (IsSound o) (elim found [
        | none ↦ rest seen
        | some snapshot ↦
            ensure_active o tenant actor_id
            >> (if mem snapshot.content_hash seen
                then (modify_source place.0
                      (with_status "DUPLICATE_CONTENT" ("CONTENT_DUPLICATE" ∷ []))
                    >> rest seen)
                else (use_snapshot o tenant actor_id place snapshot
                    >> rest (snapshot.content_hash ∷ seen)))
      ])
  found_cases place seen rest k none = k seen
  found_cases place seen rest k (some snapshot) =
      active-IsSound o tenant actor_id
      ⨟ Leads-choice (mem snapshot.content_hash seen) (modify_source-IsSound o _ _ ⨟ k seen)
          (use_snapshot-IsSound place snapshot ⨟ k _)

  extract_all-IsSound :
      (seen : List String) (places : List Place)
      → Keeps (IsSound o) (IsSound o) (extract_all o tenant actor_id seen places)
  unfolding extract_all
  extract_all-IsSound seen [] = Keeps-pure _
  extract_all-IsSound seen (place ∷ places) =
      active-IsSound o tenant actor_id
      ⨟ Keeps->>= (obtain_snapshot-IsSound place) (
          found_cases place seen (λ hashes. extract_all o tenant actor_id hashes places)
            (λ hashes. extract_all-IsSound hashes places))

  attached_cases :
      (r : Result HandoffError (Document × CaseDb)) (s : State)
      → IsSound o s.run s.db
      → Post (IsSound o) (λ _. IsSound o) (attached_in o tenant actor_id s.run s r)
  attached_cases (ok (document, cases)) s h = h
  attached_cases (err integrity_error) s h = h
  attached_cases (err e) s h = h

  try_handoff-IsSound :
      (compiled : List DecisionEvidence)
      → Keeps (IsSound o) (IsSound o) (try_handoff o tenant actor_id compiled)
  unfolding try_handoff
  try_handoff-IsSound [] = Keeps-pure _
  try_handoff-IsSound (d ∷ ds) =
      active-IsSound o tenant actor_id ⨟ record { at = λ s h. attached_cases _ s h }

  compiled_cases :
      (r : Option (List DecisionEvidence))
      → Keeps (IsSound o) (IsSound o) (compiled_or o tenant actor_id r)
  compiled_cases none = Keeps-raise _
  compiled_cases (some compiled) = Keeps-pure _

  pub compiled_evidence-IsSound :
      Keeps (IsSound o) (IsSound o) (compiled_evidence o tenant actor_id)
  unfolding compiled_evidence
  compiled_evidence-IsSound = Leads-run λ run. compiled_cases (compile run)

  conclude-IsSound :
      (partial : Bool) (handed : ℕ)
      → Keeps (IsSound o) (IsSound o) (conclude o tenant actor_id partial handed)
  unfolding conclude
  conclude-IsSound partial handed =
      move-IsSound o tenant actor_id _ _ _ _ ⨟ save_run-IsSound o tenant actor_id

  mark_conflicting_evidence-IsSoundRun :
      (run : ResearchRun) → IsSoundRun o run → IsSoundRun o (mark_conflicting_evidence run)
  unfolding mark_conflicting_evidence
  mark_conflicting_evidence-IsSoundRun run h =
      if_cases (IsSoundRun o) (is_empty (conflicting_ids run.snapshots run.evidence)) _ _ (λ _. h)
        (λ _. h)

  compile_and_hand_off-IsSound :
      Keeps (IsSound o) (IsSound o) (compile_and_hand_off o tenant actor_id)
  unfolding compile_and_hand_off
  compile_and_hand_off-IsSound =
      move-IsSound o tenant actor_id _ _ _ _
      ⨟ record { at = λ s h. (mark_conflicting_evidence-IsSoundRun s.run h.0, h.1) }
      ⨟ Keeps->>= compiled_evidence-IsSound λ compiled.
        Keeps->>= (try_handoff-IsSound compiled) λ handoff_failed.
          active-IsSound o tenant actor_id ⨟ Leads-run (λ run. conclude-IsSound _ _)

  citations_only-IsSound : Keeps (IsSound o) (IsSound o) (citations_only o tenant actor_id)
  unfolding citations_only
  citations_only-IsSound =
      move-IsSound o tenant actor_id _ _ _ _ ⨟ save_run-IsSound o tenant actor_id

  finalize-IsSound : Keeps (IsSound o) (IsSound o) (finalize o tenant actor_id)
  unfolding finalize
  finalize-IsSound =
      active-IsSound o tenant actor_id
      ⨟ Leads-run λ run.
        Leads-choice (is_empty run.snapshots && any is_citation_only run.sources)
          citations_only-IsSound
          (Leads-choice (is_empty run.snapshots) (fail_run-IsSound o tenant actor_id _)
            compile_and_hand_off-IsSound)

  skip_others-IsSoundRun :
      (retry_only : Bool) (candidates : List Place) (run : ResearchRun)
      → IsSoundRun o run
      → IsSoundRun o (skip_others o tenant actor_id retry_only candidates run)
  skip_others-IsSoundRun true candidates run h = h
  skip_others-IsSoundRun false candidates run h = h

  skip_others-IsSound :
      (retry_only : Bool) (candidates : List Place) (run : ResearchRun)
      → Leads
          (IsSound o)
          (λ r db. IsSound o r db × (r ≡ run))
          (set_run (skip_others o tenant actor_id retry_only candidates run))
          (λ _. IsSound o)
  skip_others-IsSound retry_only candidates run = record {
    at = λ s (h, same).
        (skip_others-IsSoundRun retry_only candidates run (subst (IsSoundRun o) same h.0), h.1);
  }

  pub extract_and_finalize-IsSound :
      (retry_only : Bool)
      → Keeps (IsSound o) (IsSound o) (extract_and_finalize o tenant actor_id retry_only)
  unfolding extract_and_finalize
  extract_and_finalize-IsSound retry_only =
      active-IsSound o tenant actor_id
      ⨟ Leads-with_run _ _ λ run.
        Leads->>= _ _ (λ _. IsSound o) _
          (Leads->>= _ _ (λ _. IsSound o) _
            (skip_others-IsSound retry_only (candidates_of o tenant actor_id retry_only run) run)
            (λ _.
              extract_all-IsSound (hashes_of o tenant actor_id run)
                (candidates_of o tenant actor_id retry_only run)))
          (λ _. finalize-IsSound)

  pub start_extraction-IsSound :
      (retry : Bool) → Keeps (IsSound o) (IsSound o) (start_extraction o tenant actor_id retry)
  unfolding start_extraction
  start_extraction-IsSound retry =
      move-IsSound o tenant actor_id _ _ _ _ ⨟ save_run-IsSound o tenant actor_id
