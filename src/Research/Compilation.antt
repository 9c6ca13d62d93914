-- ===== src/Research/Compilation.antt =====
-- What the compiler makes of evidence that was searched for conflicts (web_research/conflicts.py and
-- web_research/compiler.py).
use decision_assurance.Prelude.{
  ◌≡◌, refl, sym, ap, ◌∙◌, String, Bool, true, false, not, Option, none, some, List, [], ◌∷◌, map,
  keep, mem, find_first, arith, ◌==◌, is_empty, All, Bool-cases, inl, inr, if◌then◌else◌, ◌&&◌, ◌⊎◌,
  some_inj,
}
use mathlib.Core.Path.{subst}
use decision_assurance.Research.Runs.{
  DecisionEvidence, EvidenceAssessment, EvidenceCandidate, ResearchRun, SourceSnapshot,
}
use decision_assurance.Research.Conflicts.{
  conflicting_ids, mark_conflicting_evidence, mark_evidence,
}
use decision_assurance.Research.Compiler.{
  compile, compile_all, decision_evidence, is_eligible, decision_status,
}

abbrev pub candidate_ids : List EvidenceCandidate → List String
candidate_ids cs = map (λ (c : EvidenceCandidate). c.evidence_id) cs

abbrev pub compiled_ids : List DecisionEvidence → List String
compiled_ids ds = map (λ (d : DecisionEvidence). d.evidence_id) ds

abbrev pub unverified_statuses : List String
unverified_statuses = "CONFLICTING" ∷ "OUTDATED" ∷ "UNVERIFIED" ∷ []

-- evidence that does not claim more than was checked, `conflicting` being the ids in conflict
abbrev pub IsCautious : List String → DecisionEvidence → Type 0
IsCautious conflicting d =
    (mem d.status unverified_statuses ≡ true)
    × (mem d.evidence_id conflicting ≡ true → d.status ≡ "CONFLICTING")

abbrev IsCompiled : List String → List EvidenceCandidate → List DecisionEvidence → Type 0
IsCompiled conflicting cs ds =
    (compiled_ids ds ≡ candidate_ids (keep is_eligible cs)) × All (IsCautious conflicting) ds

-- The loop passes a candidate by, or compiles it in front of the others.
loop_cases :
    (usable suspected : Bool) (found : Option SourceSnapshot)
    (others : Option (List DecisionEvidence)) (f : SourceSnapshot → DecisionEvidence)
    {ds : List DecisionEvidence}
    → (if not usable then others else if suspected then others else elim found [
      | none ↦ none
      | some snapshot ↦ elim others [ none ↦ none | some compiled ↦ some (f snapshot ∷ compiled) ]
    ])
      ≡ some ds
    → (((usable && not suspected) ≡ false) × (others ≡ some ds))
      ⊎ (((usable && not suspected) ≡ true)
          × (s : SourceSnapshot) × (es : List DecisionEvidence) × (others ≡ some es)
          × (ds ≡ f s ∷ es))
loop_cases false suspected found others f h = inl (refl, h)
loop_cases true true found others f h = inl (refl, h)
loop_cases true false none others f h = cc
loop_cases true false (some s) none f h = cc
loop_cases true false (some s) (some es) f {ds} h =
    inr (refl, s, es, refl, sym (some_inj (f s ∷ es) ds h))

compile_all-cases :
    (run : ResearchRun) (c : EvidenceCandidate) (cs : List EvidenceCandidate)
    {ds : List DecisionEvidence}
    → compile_all run (c ∷ cs) ≡ some ds
    → ((is_eligible c ≡ false) × (compile_all run cs ≡ some ds))
      ⊎ ((is_eligible c ≡ true)
          × (s : SourceSnapshot) × (es : List DecisionEvidence) × (compile_all run cs ≡ some es)
          × (ds ≡ decision_evidence run c s ∷ es))
unfolding compile_all
compile_all-cases run c cs h =
    loop_cases c.assessment.usable_for_decision c.risk.prompt_injection_suspected
      (find_first (λ (s : SourceSnapshot). s.snapshot_id == c.snapshot_id) run.snapshots)
      (compile_all run cs) (decision_evidence run c) h

status_cases :
    (p q : Bool)
    → mem (if p then "CONFLICTING" else if q then "OUTDATED" else "UNVERIFIED") unverified_statuses
      ≡ true
status_cases true q = refl
status_cases false true = refl
status_cases false false = refl

decision_status-unverified :
    (a : EvidenceAssessment) → mem (decision_status a) unverified_statuses ≡ true
decision_status-unverified a =
    status_cases (a.conflict_status == "CONFLICTING") (a.freshness_status == "STALE")

-- the mark decides the status, and leaves what the loop reads besides
mark_evidence-IsCautious :
    (run : ResearchRun) (conflicting : List String) (c : EvidenceCandidate) (s : SourceSnapshot)
    → IsCautious conflicting (decision_evidence run (mark_evidence conflicting c) s)
mark_evidence-IsCautious run conflicting c s = elim (Bool-cases (mem c.evidence_id conflicting)) [
  | inl e ↦ rw e (refl, λ _. refl)
  | inr e ↦ rw e (decision_status-unverified c.assessment, λ k. ground (arith, e, k))
]

mark_evidence-evidence_id :
    (conflicting : List String) (c : EvidenceCandidate)
    → (mark_evidence conflicting c).evidence_id ≡ c.evidence_id
mark_evidence-evidence_id conflicting c = ground arith

mark_evidence-is_eligible :
    (conflicting : List String) (c : EvidenceCandidate)
    → is_eligible (mark_evidence conflicting c) ≡ is_eligible c
mark_evidence-is_eligible conflicting c = ground arith

compile_all-IsCompiled :
    (run : ResearchRun) (conflicting : List String) (cs : List EvidenceCandidate)
    {ds : List DecisionEvidence}
    → compile_all run (map (mark_evidence conflicting) cs) ≡ some ds
    → IsCompiled conflicting cs ds
unfolding compile_all
compile_all-IsCompiled run conflicting [] {ds} h =
    subst (IsCompiled conflicting []) (some_inj [] ds h) (refl, tt)
compile_all-IsCompiled run conflicting (c ∷ cs) {ds} h =
    elim (compile_all-cases run (mark_evidence conflicting c) (map (mark_evidence conflicting) cs)
      h) [
        | inl (e, k) ↦
            rw (sym (mark_evidence-is_eligible conflicting c), e)
              (compile_all-IsCompiled run conflicting cs k)
        | inr (e, s, es, k, r) ↦
            let rest = compile_all-IsCompiled run conflicting cs k in
            rw (r, sym (mark_evidence-is_eligible conflicting c), e)
              (
                ap (λ i. i ∷ compiled_ids es) (mark_evidence-evidence_id conflicting c)
                    ∙ ap (λ is. c.evidence_id ∷ is) rest.0,
                (mark_evidence-IsCautious run conflicting c s, rest.1),
              )
      ]

map-mark_evidence-nothing : (cs : List EvidenceCandidate) → map (mark_evidence []) cs ≡ cs
map-mark_evidence-nothing [] = refl
map-mark_evidence-nothing (c ∷ cs) = ap (λ rest. c ∷ rest) (map-mark_evidence-nothing cs)

-- the run that `mark_conflicting_evidence` leaves, `changed` being the one that it builds
compile-marked :
    (run changed : ResearchRun) (ids : List String)
    → changed.evidence ≡ map (mark_evidence ids) run.evidence
    → (r : ResearchRun) × (compile (if is_empty ids then run else changed)
        ≡ compile_all r (map (mark_evidence ids) run.evidence))
unfolding compile
compile-marked run changed [] h =
    (run, ap (compile_all run) (sym (map-mark_evidence-nothing run.evidence)))
compile-marked run changed (i ∷ is) h = (changed, ap (compile_all changed) h)

-- The ids in conflict are decided before the compiler runs, so the whole of what it compiles is known: it
-- compiles exactly the evidence that is usable and free of suspected injections, in its order; nothing
-- has a status of verified evidence, and what is in conflict is compiled as CONFLICTING.
pub compile-mark_conflicting_evidence :
    (run : ResearchRun) (compiled : List DecisionEvidence)
    → compile (mark_conflicting_evidence run) ≡ some compiled
    → (compiled_ids compiled ≡ candidate_ids (keep is_eligible run.evidence))
      × All (IsCautious (conflicting_ids run.snapshots run.evidence)) compiled
unfolding mark_conflicting_evidence
compile-mark_conflicting_evidence run compiled h =
    let marked = compile-marked run _ (conflicting_ids run.snapshots run.evidence) refl in
    compile_all-IsCompiled marked.0 (conflicting_ids run.snapshots run.evidence) run.evidence
      (sym marked.1 ∙ h)
