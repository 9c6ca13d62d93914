-- ===== src/Release/Supplied.antt =====
-- release_verification.py: what the first loop of `ReleaseVerifier.verify` has collected.
use decision_assurance.Prelude.{
  ℕ, ◌+◌, String, ◌≡◌, refl, ◌∙◌, Bool, true, ◌||◌, some, List, [], ◌∷◌, arith, any, All, map, mem,
  is_some, count_if, leb, ◌==◌, eq_iff, eq_refl, Bool-cases, inl, inr, ok, if◌then◌else◌,
}
use decision_assurance.Release.Gates.{block, GateResult, check_gate, gate_ids}
use decision_assurance.Release.Verification.{
  has_blocker, enforce_blockers, get_gate, set_gate, Supplied, supply, supply_all,
}

-- a gate that its constructor admits
abbrev pub IsGate : GateResult → Type 0
IsGate g = check_gate g ≡ ok g

abbrev pub enforced : GateResult → GateResult
enforced g = if has_blocker g then record g { status = block } else g

blocked-IsGate :
    (g : GateResult) → has_blocker g ≡ true → IsGate g → IsGate (record g { status = block })
unfolding check_gate has_blocker
blocked-IsGate g b h = ground arith

pub enforce_blockers-ok : (g : GateResult) → IsGate g → enforce_blockers g ≡ ok (enforced g)
unfolding enforce_blockers
enforce_blockers-ok g h = elim (Bool-cases (has_blocker g)) [
  | inl b ↦ rw b (blocked-IsGate g b h)
  | inr b ↦ rw b refl
]

-- The loop, for gates that their constructor admits.
abbrev pub absorb : GateResult → Supplied → Supplied
absorb g s = record {
  gates = set_gate g.gate_id (enforced g) s.gates;
  duplicates =
      if is_some (get_gate g.gate_id s.gates) then g.gate_id ∷ s.duplicates else s.duplicates;
}

abbrev pub absorb_all : List GateResult → Supplied → Supplied
absorb_all [] s = s
absorb_all (g ∷ gs) s = absorb_all gs (absorb g s)

supply-ok : (g : GateResult) (s : Supplied) → IsGate g → supply g s ≡ ok (absorb g s)
unfolding supply
supply-ok g s h = rw (enforce_blockers-ok g h) refl

pub supply_all-ok :
    (gs : List GateResult) (s : Supplied) → All IsGate gs → supply_all gs s ≡ ok (absorb_all gs s)
unfolding supply_all
supply_all-ok [] s h = refl
supply_all-ok (g ∷ gs) s h = rw (supply-ok g s h.0) (supply_all-ok gs (absorb g s) h.1)

pub get_gate-set_gate :
    (id k : String) (g : GateResult) (m : List (String × GateResult))
    → get_gate id (set_gate k g m) ≡ (if k == id then some g else get_gate id m)
unfolding get_gate set_gate
get_gate-set_gate id k g [] = refl
get_gate-set_gate id k g ((j, h) ∷ m) =
    ground (arith, eq_iff k id, eq_iff j k, eq_iff j id, get_gate-set_gate id k g m)

abbrev pub has_id : String → GateResult → Bool
has_id id g = g.gate_id == id

abbrev one_if : Bool → ℕ
one_if b = if b then 1 else 0

-- The duplicates are the gates that come twice.
pub duplicates-absorb_all :
    (id : String) (gs : List GateResult) (s : Supplied)
    → mem id (absorb_all gs s).duplicates ≡ (
        mem id s.duplicates
        || leb 2 (count_if (has_id id) gs + one_if (is_some (get_gate id s.gates))))
duplicates-absorb_all id [] s = ground arith
duplicates-absorb_all id (g ∷ gs) s =
    rw
      (
        duplicates-absorb_all id gs (absorb g s),
        get_gate-set_gate id g.gate_id (enforced g) s.gates,
      )
      (ground (arith, eq_iff g.gate_id id, eq_iff id g.gate_id, eq_refl id))

-- A gate is there as soon as it has been supplied.
pub is_some-absorb_all :
    (id : String) (gs : List GateResult) (s : Supplied)
    → is_some (get_gate id (absorb_all gs s).gates)
      ≡ (is_some (get_gate id s.gates) || leb 1 (count_if (has_id id) gs))
is_some-absorb_all id [] s = ground arith
is_some-absorb_all id (g ∷ gs) s =
    rw (is_some-absorb_all id gs (absorb g s), get_gate-set_gate id g.gate_id (enforced g) s.gates)
      (ground arith)

pub get_gate-unsupplied :
    (id : String) (gs : List GateResult) (s : Supplied)
    → count_if (has_id id) gs ≡ 0
    → get_gate id (absorb_all gs s).gates ≡ get_gate id s.gates
get_gate-unsupplied id [] s h = refl
get_gate-unsupplied id (g ∷ gs) s h = elim (Bool-cases (has_id id g)) [
  | inl e ↦ absurd (ground arith)
  | inr e ↦
      get_gate-unsupplied id gs (absorb g s) (ground arith)
      ∙ get_gate-set_gate id g.gate_id (enforced g) s.gates
      ∙ (rw e refl)
]

-- What is kept under an id has this id.
abbrev pub KeysMatch : List (String × GateResult) → Type 0
KeysMatch m = All (λ e. e.1.gate_id ≡ e.0) m

KeysMatch-set_gate :
    (g : GateResult) (m : List (String × GateResult))
    → KeysMatch m
    → KeysMatch (set_gate g.gate_id (enforced g) m)
unfolding set_gate
KeysMatch-set_gate g [] h = (ground arith, tt)
KeysMatch-set_gate g ((j, k) ∷ m) h = elim (Bool-cases (j == g.gate_id)) [
  | inl e ↦ rw e (ground arith, h.1)
  | inr e ↦ rw e (h.0, KeysMatch-set_gate g m h.1)
]

pub KeysMatch-absorb_all :
    (gs : List GateResult) (s : Supplied) → KeysMatch s.gates → KeysMatch (absorb_all gs s).gates
KeysMatch-absorb_all [] s h = h
KeysMatch-absorb_all (g ∷ gs) s h =
    KeysMatch-absorb_all gs (absorb g s) (KeysMatch-set_gate g s.gates h)

pub get_gate-id :
    (id : String) (m : List (String × GateResult)) (g : GateResult)
    → KeysMatch m
    → get_gate id m ≡ some g
    → g.gate_id ≡ id
unfolding get_gate
get_gate-id id [] g k h = ground arith
get_gate-id id ((j, x) ∷ m) g k h = elim (Bool-cases (j == id)) [
  | inl e ↦ ground (arith, eq_iff j id)
  | inr e ↦ get_gate-id id m g k.1 (ground arith)
]

abbrev pub keys : List (String × GateResult) → List String
keys m = map (λ (e : String × GateResult). e.0) m

any-set_gate :
    (p : String → Bool) (id : String) (g : GateResult) (m : List (String × GateResult))
    → any p (keys (set_gate id g m)) ≡ (p id || any p (keys m))
unfolding set_gate
any-set_gate p id g [] = refl
any-set_gate p id g ((j, x) ∷ m) = elim (Bool-cases (j == id)) [
  | inl e ↦ rw (e, (eq_iff j id).0 e) (ground arith)
  | inr e ↦ rw (e, any-set_gate p id g m) (ground arith)
]

-- The keys are the ids of the gates supplied.
pub any-absorb_all :
    (p : String → Bool) (gs : List GateResult) (s : Supplied)
    → any p (keys (absorb_all gs s).gates) ≡ (any p (keys s.gates) || any p (gate_ids gs))
any-absorb_all p [] s = ground arith
any-absorb_all p (g ∷ gs) s =
    rw (any-absorb_all p gs (absorb g s), any-set_gate p g.gate_id (enforced g) s.gates)
      (ground arith)
