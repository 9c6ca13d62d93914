-- ===== src/Prelude/Chains.antt =====
-- Chains of hashed events: each event names the hash of the one before it.
use mathlib.Core.Path.{◌≡◌, refl, sym, ◌∙◌}
use mathlib.Core.List.{List, [], ◌∷◌, ◌++◌}
use mathlib.Core.Option.{Option, none, some}
use Prim.Native.String.{String}
use decision_assurance.Prelude.Lists.{last?}

module _ {A : Type 0} (previous_of : A → Option String) (hash_of : A → String) where
  -- The first event names `previous`, each further one the hash of its predecessor.
  abbrev pub IsChain : Option String → List A → Type 0
  IsChain previous [] = Unit
  IsChain previous (e ∷ es) = (previous_of e ≡ previous) × IsChain (some (hash_of e)) es

  -- the hash that the next event has to name
  abbrev next_hash : Option String → List A → Option String
  next_hash previous [] = previous
  next_hash previous (e ∷ es) = next_hash (some (hash_of e)) es

  -- the hash of the last event, if there is one
  abbrev pub last_hash_of : List A → Option String
  last_hash_of es = elim (last? es) [ none ↦ none | some e ↦ some (hash_of e) ]

  next_hash-last :
      (x : A) (es : List A) (previous : Option String)
      → next_hash previous (x ∷ es) ≡ last_hash_of (x ∷ es)
  next_hash-last x [] previous = refl
  next_hash-last x (y ∷ es) previous = next_hash-last y es (some (hash_of x))

  next_hash-none : (es : List A) → last_hash_of es ≡ next_hash none es
  next_hash-none [] = refl
  next_hash-none (x ∷ es) = sym (next_hash-last x es none)

  IsChain-next :
      (previous : Option String) (es : List A) (e : A)
      → IsChain previous es
      → previous_of e ≡ next_hash previous es
      → IsChain previous (es ++ e ∷ [])
  IsChain-next previous [] e h k = (k, tt)
  IsChain-next previous (x ∷ es) e h k = (h.0, IsChain-next (some (hash_of x)) es e h.1 k)

  -- A chain grows by an event that names the hash of its last one.
  pub IsChain-append :
      (es : List A) (e : A)
      → IsChain none es
      → previous_of e ≡ last_hash_of es
      → IsChain none (es ++ e ∷ [])
  IsChain-append es e h k = IsChain-next none es e h (k ∙ next_hash-none es)
