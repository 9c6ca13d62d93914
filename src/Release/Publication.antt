-- ===== src/Release/Publication.antt =====
-- release_verification.py: exactly the complete and clean sets of gates make a release that may be
-- published.
use mathlib.Core.Path.{subst}
use decision_assurance.Prelude.{
  String, ◌≡◌, ◌↔◌, refl, sym, ap, ◌∙◌, Bool, true, false, not, some, List, [], ◌∷◌, arith, any,
  All, All-map, map, mem, keep, is_empty, is_empty-keep, count_if, ◌==◌, eq_iff, eq_refl,
  Bool-cases, Option-cases, inl, inr, ok, some_inj, &&-eq-true, is_empty-sorted,
}
use decision_assurance.Release.Gates.{
  is_pass, is_block, is_review, GateResult, gate_ids, ReleaseVerificationReport, matches_sha,
  report_status,
}
use decision_assurance.Release.Verification.{
  mandatory_gates, has_blocker, get_gate, set_gate, Supplied, unknown_gates, verify, same_texts,
  publication_eligible,
}
use decision_assurance.Release.Supplied.{
  IsGate, enforced, absorb, absorb_all, has_id, duplicates-absorb_all, is_some-absorb_all,
  get_gate-unsupplied, get_gate-set_gate, keys, any-absorb_all,
}
use decision_assurance.Release.Reports.{
  normalized, start, collected, with_unknown, report_of, gate_ids-report, verify-ok,
}

-- A complete set of gates: each mandatory gate comes once, there is no other, and each gate passes
-- and has no blocking reason code.
pub record IsComplete (gates : List GateResult) : Type 0 where
  pub once : All (λ id. count_if (has_id id) gates ≡ 1) mandatory_gates
  pub known : All (λ (g : GateResult). mem g.gate_id mandatory_gates ≡ true) gates
  pub clean : All (λ (g : GateResult). (is_pass g.status ≡ true) × (has_blocker g ≡ false)) gates

-- A report passes if all its gates do.
abbrev IsPass : GateResult → Type 0
IsPass g = is_pass g.status ≡ true

All-IsPass :
    (gs : List GateResult)
    → any (λ (g : GateResult). is_block g.status) gs ≡ false
    → any (λ (g : GateResult). is_review g.status) gs ≡ false
    → All IsPass gs
All-IsPass [] b r = tt
All-IsPass (g ∷ gs) b r = (ground arith, All-IsPass gs (ground arith) (ground arith))

none_bad :
    (gs : List GateResult)
    → All IsPass gs
    → (any (λ (g : GateResult). is_block g.status) gs ≡ false)
      × (any (λ (g : GateResult). is_review g.status) gs ≡ false)
none_bad [] h = (refl, refl)
none_bad (g ∷ gs) h = ground (arith, none_bad gs h.1)

passes : (r : ReleaseVerificationReport) → is_pass (report_status r) ≡ true → All IsPass r.gates
unfolding report_status
passes r h = All-IsPass r.gates (ground arith) (ground arith)

passes_if : (r : ReleaseVerificationReport) → All IsPass r.gates → is_pass (report_status r) ≡ true
unfolding report_status
passes_if r h = rw ((none_bad r.gates h).0, (none_bad r.gates h).1) refl

-- An id that is there once, with a gate that passes.
abbrev Fine : Supplied → String → Type 0
Fine s id =
    (mem id s.duplicates ≡ false) × (g : GateResult) × (get_gate id s.gates ≡ some g) × IsPass g

normalized-Fine : (s : Supplied) (id : String) → IsPass (normalized s id) → Fine s id
normalized-Fine s id h = elim (Bool-cases (mem id s.duplicates)) [
  | inl d ↦ absurd (ground arith)
  | inr d ↦ elim (Option-cases (get_gate id s.gates)) [
    | inl e ↦ absurd (ground arith)
    | inr (g, e) ↦ (d, g, e, ground arith)
  ]
]

All-Fine :
    (s : Supplied) (ids : List String) → All IsPass (map (normalized s) ids) → All (Fine s) ids
All-Fine s [] h = tt
All-Fine s (id ∷ ids) h = (normalized-Fine s id h.0, All-Fine s ids h.1)

All-mem {κ} :
    (P : String → Type κ) (x : String) (ids : List String) → mem x ids ≡ true → All P ids → P x
All-mem P x [] m h = absurd (ground arith)
All-mem P x (y ∷ ys) m h = elim (Bool-cases (x == y)) [
  | inl e ↦ subst P (sym ((eq_iff x y).0 e)) h.0
  | inr e ↦ All-mem P x ys (ground arith) h.1
]

Fine-once :
    (gates : List GateResult) (id : String)
    → Fine (collected gates) id
    → count_if (has_id id) gates ≡ 1
unfolding get_gate
Fine-once gates id (d, g, e, p) =
    ground (arith, duplicates-absorb_all id gates start, is_some-absorb_all id gates start)

abbrev IsClean : GateResult → Type 0
IsClean g = (is_pass g.status ≡ true) × (has_blocker g ≡ false)

enforced-IsClean : (g : GateResult) → IsPass (enforced g) → IsClean g
enforced-IsClean g h = ground arith

-- the gates of a mandatory id are clean, if what has been collected is fine
All-IsClean :
    (gs : List GateResult) (s : Supplied)
    → ((id : String) → mem id mandatory_gates ≡ true → Fine (absorb_all gs s) id)
    → All (λ (g : GateResult). mem g.gate_id mandatory_gates ≡ true) gs
    → All IsClean gs
All-IsClean [] s fine known = tt
All-IsClean (g ∷ gs) s fine known =
    let (d, h, e, p) = fine g.gate_id known.0 in
    let here : get_gate g.gate_id (absorb g s).gates ≡ some (enforced g) =
      get_gate-set_gate g.gate_id g.gate_id (enforced g) s.gates ∙ (rw (eq_refl g.gate_id) refl) in
    let last : count_if (has_id g.gate_id) gs ≡ 0 =
      ground (arith, duplicates-absorb_all g.gate_id gs (absorb g s), here) in
    (
      enforced-IsClean g (
          subst IsPass
            (some_inj h (enforced g)
              (sym e ∙ get_gate-unsupplied g.gate_id gs (absorb g s) last ∙ here))
            p),
      All-IsClean gs (absorb g s) fine known.1,
    )

-- No gate is unknown exactly if each has a mandatory id.
no_unknown :
    (gates : List GateResult)
    → is_empty (unknown_gates (collected gates))
      ≡ not (any (λ id. not (mem id mandatory_gates)) (gate_ids gates))
unfolding unknown_gates
no_unknown gates =
    is_empty-sorted (keep (λ id. not (mem id mandatory_gates)) (keys (collected gates).gates))
    ∙ is_empty-keep (λ id. not (mem id mandatory_gates)) (keys (collected gates).gates)
    ∙ ap not (any-absorb_all (λ id. not (mem id mandatory_gates)) gates start)

All-ids :
    (p : String → Bool) (gs : List GateResult)
    → any (λ id. not (p id)) (gate_ids gs) ≡ false
    → All (λ (g : GateResult). p g.gate_id ≡ true) gs
All-ids p [] h = tt
All-ids p (g ∷ gs) h = (ground arith, All-ids p gs (ground arith))

any-ids :
    (p : String → Bool) (gs : List GateResult)
    → All (λ (g : GateResult). p g.gate_id ≡ true) gs
    → any (λ id. not (p id)) (gate_ids gs) ≡ false
any-ids p [] h = refl
any-ids p (g ∷ gs) h = ground (arith, any-ids p gs h.1)

not-eq-true : (b : Bool) → not b ≡ true → b ≡ false
not-eq-true b h = ground arith

same_texts_self : (xs : List String) → same_texts xs xs ≡ true
unfolding same_texts
same_texts_self [] = refl
same_texts_self (x ∷ xs) = rw (eq_refl x) (same_texts_self xs)

-- What is kept passes, if all gates are clean.
abbrev ValuesPass : List (String × GateResult) → Type 0
ValuesPass m = All (λ e. IsPass e.1) m

ValuesPass-set_gate :
    (id : String) (g : GateResult) (m : List (String × GateResult))
    → IsPass g
    → ValuesPass m
    → ValuesPass (set_gate id g m)
unfolding set_gate
ValuesPass-set_gate id g [] p h = (p, tt)
ValuesPass-set_gate id g ((j, x) ∷ m) p h = elim (Bool-cases (j == id)) [
  | inl e ↦ rw e (p, h.1)
  | inr e ↦ rw e (h.0, ValuesPass-set_gate id g m p h.1)
]

ValuesPass-absorb_all :
    (gs : List GateResult) (s : Supplied)
    → All IsClean gs
    → ValuesPass s.gates
    → ValuesPass (absorb_all gs s).gates
ValuesPass-absorb_all [] s c h = h
ValuesPass-absorb_all (g ∷ gs) s c h =
    ValuesPass-absorb_all gs (absorb g s) c.1
      (ValuesPass-set_gate g.gate_id (enforced g) s.gates (ground arith) h)

get_gate-IsPass :
    (id : String) (m : List (String × GateResult)) (g : GateResult)
    → ValuesPass m
    → get_gate id m ≡ some g
    → IsPass g
unfolding get_gate
get_gate-IsPass id [] g v e = ground arith
get_gate-IsPass id ((j, x) ∷ m) g v e = elim (Bool-cases (j == id)) [
  | inl h ↦ subst IsPass (some_inj x g (ground arith)) v.0
  | inr h ↦ get_gate-IsPass id m g v.1 (ground arith)
]

normalized-IsPass :
    (gates : List GateResult) (id : String)
    → All IsClean gates
    → count_if (has_id id) gates ≡ 1
    → IsPass (normalized (collected gates) id)
unfolding get_gate
normalized-IsPass gates id clean once =
    let d : mem id (collected gates).duplicates ≡ false =
      ground (arith, duplicates-absorb_all id gates start) in
    elim (Option-cases (get_gate id (collected gates).gates)) [
      | inl e ↦ absurd (ground (arith, is_some-absorb_all id gates start))
      | inr (g, e) ↦
          rw (d, e)
            (get_gate-IsPass id (collected gates).gates g
              (ValuesPass-absorb_all gates start clean tt) e)
    ]

All-normalized :
    (gates : List GateResult) (ids : List String)
    → All IsClean gates
    → All (λ id. count_if (has_id id) gates ≡ 1) ids
    → All IsPass (map (normalized (collected gates)) ids)
All-normalized gates [] clean once = tt
All-normalized gates (id ∷ ids) clean once =
    (normalized-IsPass gates id clean once.0, All-normalized gates ids clean once.1)

abbrev report_gates : List GateResult → List GateResult
report_gates gates = map (normalized (collected gates)) mandatory_gates

-- a report with an unknown gate does not pass
unknown_fails :
    (ids : List String) (gs : List GateResult)
    → All IsPass (with_unknown ids gs)
    → (is_empty ids ≡ true) × All IsPass gs
unknown_fails [] gs h = (refl, h)
unknown_fails (id ∷ ids) [] h = absurd (ground arith)
unknown_fails (id ∷ ids) (g ∷ gs) h = absurd (ground (arith, unknown_fails (id ∷ ids) gs h.1))

eligible-IsComplete :
    (sha at : String) (gates : List GateResult)
    → publication_eligible (report_of sha at gates) ≡ true
    → IsComplete gates
unfolding publication_eligible
eligible-IsComplete sha at gates h =
    let (e, all_pass) =
      unknown_fails (unknown_gates (collected gates)) (report_gates gates)
        (passes (report_of sha at gates) (&&-eq-true _ _ h).0) in
    let fine = All-Fine (collected gates) mandatory_gates all_pass in
    let known : All (λ (g : GateResult). mem g.gate_id mandatory_gates ≡ true) gates =
      All-ids (λ id. mem id mandatory_gates) gates (not-eq-true _ (sym (no_unknown gates) ∙ e)) in
    record {
      once = All-map (Fine (collected gates)) _ mandatory_gates (Fine-once gates) fine;
      known = known;
      clean =
          All-IsClean gates start
            (λ id m. All-mem (Fine (collected gates)) id mandatory_gates m fine) known;
    }

IsComplete-eligible :
    (sha at : String) (gates : List GateResult)
    → IsComplete gates
    → publication_eligible (report_of sha at gates) ≡ true
unfolding publication_eligible
IsComplete-eligible sha at gates c =
    let e : is_empty (unknown_gates (collected gates)) ≡ true =
      no_unknown gates ∙ ap not (any-ids (λ id. mem id mandatory_gates) gates c.known) in
    let all_pass = All-normalized gates mandatory_gates c.clean c.once in
    rw (passes_if (report_of sha at gates) (rw e all_pass), gate_ids-report sha at gates, e)
      (same_texts_self mandatory_gates)

-- The verification of a release succeeds on all gates that their constructor admits, at version 0.5.0
-- and a commit hash, and its report may be published exactly if each mandatory gate is there once, no
-- other gate is, and every gate passes and has no blocking reason code.
pub verify-eligible :
    (sha at : String) (gates : List GateResult)
    → matches_sha sha ≡ true
    → All IsGate gates
    → (r : ReleaseVerificationReport) × (verify "0.5.0" sha at gates ≡ ok r)
      × ((publication_eligible r ≡ true) ↔ IsComplete gates)
verify-eligible sha at gates h valid = (
  report_of sha at gates,
  verify-ok sha at gates h valid,
  (eligible-IsComplete sha at gates, IsComplete-eligible sha at gates),
)
