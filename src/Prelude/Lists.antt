-- ===== src/Prelude/Lists.antt =====
-- Lists measured by native numbers, Boolean quantifiers (`any`, `all` of Python), and predicates
-- over the elements of a list.
use Prim.Native.Nat.{ℕ, zero, suc, ◌+◌}
use mathlib.Core.Path.{◌≡◌, refl, ap}
use mathlib.Core.Bool.{Bool, true, false, not, ◌&&◌, ◌||◌}
use mathlib.Core.List.{List, [], ◌∷◌, ◌++◌, map}
use mathlib.Core.Option.{Option, none, some}
use native.Mathlib.Omega.{arith}
use mathlib.Core.Logic.{inl, inr}
use decision_assurance.Prelude.Tests.{
  if◌then◌else◌, Bool-cases, if_cases, or-true, ||-eq-false, some_inj, if-true, if-false,
}

module _ {ℓ} {A : Type ℓ} where
  abbrev pub length : List A → ℕ
  length [] = 0
  length (_ ∷ xs) = suc (length xs)

  -- `any(p(x) for x in xs)`
  abbrev pub any : (A → Bool) → List A → Bool
  any p [] = false
  any p (x ∷ xs) = p x || any p xs

  -- `all(p(x) for x in xs)`
  abbrev pub all : (A → Bool) → List A → Bool
  all p [] = true
  all p (x ∷ xs) = p x && all p xs

  -- `[x for x in xs if p(x)]`
  abbrev pub keep : (A → Bool) → List A → List A
  keep p [] = []
  keep p (x ∷ xs) = let rest = keep p xs in if p x then x ∷ rest else rest

  -- `next((x for x in xs if p(x)), None)`
  abbrev pub find_first : (A → Bool) → List A → Option A
  find_first p [] = none
  find_first p (x ∷ xs) = if p x then some x else find_first p xs

  -- `UPDATE … SET … WHERE …`: `f` of the elements that pass the test
  abbrev pub update_where : (A → Bool) → (A → A) → List A → List A
  update_where q f [] = []
  update_where q f (x ∷ xs) = (if q x then f x else x) ∷ update_where q f xs

  -- `xs[:n]`
  abbrev pub take : ℕ → List A → List A
  take zero xs = []
  take (suc n) [] = []
  take (suc n) (x ∷ xs) = x ∷ take n xs

  -- `xs[n:]`
  abbrev pub drop : ℕ → List A → List A
  drop zero xs = xs
  drop (suc n) [] = []
  drop (suc n) (x ∷ xs) = drop n xs

  -- how many elements pass the test
  abbrev pub count_if : (A → Bool) → List A → ℕ
  count_if p [] = 0
  count_if p (x ∷ xs) = let rest = count_if p xs in if p x then suc rest else rest

  -- `xs[-1] if xs else None`
  abbrev pub last? : List A → Option A
  last? [] = none
  last? (x ∷ []) = some x
  last? (x ∷ y ∷ xs) = last? (y ∷ xs)

  -- `not xs`
  abbrev pub is_empty : List A → Bool
  is_empty [] = true
  is_empty (_ ∷ _) = false

  abbrev pub All {κ} : (A → Type κ) → List A → Type κ
  All P [] = Unit
  All P (x ∷ xs) = P x × All P xs

module _ {ℓ} {A : Type ℓ} where
  pub length-append : (xs ys : List A) → length (xs ++ ys) ≡ length xs + length ys
  length-append [] ys = omega arith
  length-append (x ∷ xs) ys = omega (arith, length-append xs ys)

  pub last?-append_one : (xs : List A) (x : A) → last? (xs ++ x ∷ []) ≡ some x
  last?-append_one [] x = refl
  last?-append_one (y ∷ []) x = refl
  last?-append_one (y ∷ z ∷ xs) x = last?-append_one (z ∷ xs) x

  pub any-append : (p : A → Bool) (xs ys : List A) → any p (xs ++ ys) ≡ (any p xs || any p ys)
  any-append p [] ys = refl
  any-append p (x ∷ xs) ys = ground (arith, any-append p xs ys)

  pub count_if-append :
      (p : A → Bool) (xs ys : List A) → count_if p (xs ++ ys) ≡ count_if p xs + count_if p ys
  count_if-append p [] ys = omega arith
  count_if-append p (x ∷ xs) ys = ground (arith, count_if-append p xs ys)

  pub All-append {κ} : (P : A → Type κ) (xs ys : List A) → All P xs → All P ys → All P (xs ++ ys)
  All-append P [] ys left right = right
  All-append P (x ∷ xs) ys (first, rest) right = (first, All-append P xs ys rest right)

  pub All-map {κ} : (P Q : A → Type κ) (xs : List A) → ((x : A) → P x → Q x) → All P xs → All Q xs
  All-map P Q [] f h = tt
  All-map P Q (x ∷ xs) f h = (f x h.0, All-map P Q xs f h.1)

  -- What is found passes the test, and has what all elements have.
  pub find_first_lem {κ} :
      (P : A → Type κ) (p : A → Bool) (xs : List A) {a : A}
      → All P xs
      → find_first p xs ≡ some a
      → (p a ≡ true) × P a
  find_first_lem P p [] h e = ground arith
  find_first_lem P p (x ∷ xs) h e = grind (arith, find_first_lem P p xs h.1)

  -- What is kept passes the test, and has what all elements have.
  pub All-keep {κ} :
      (P : A → Type κ) (p : A → Bool) (xs : List A)
      → All P xs
      → All (λ a. P a × (p a ≡ true)) (keep p xs)
  All-keep P p [] h = tt
  All-keep P p (x ∷ xs) h = elim (Bool-cases (p x)) [
    | inl e ↦ rw e ((h.0, e), All-keep P p xs h.1)
    | inr e ↦ rw e (All-keep P p xs h.1)
  ]

  -- What a function makes of each element.
  pub All-map_to {κ ι} :
      {B : Type 0} (P : A → Type κ) (Q : B → Type ι) (f : A → B) (xs : List A)
      → ((x : A) → P x → Q (f x))
      → All P xs
      → All Q (map f xs)
  All-map_to P Q f [] h k = tt
  All-map_to P Q f (x ∷ xs) h k = (h x k.0, All-map_to P Q f xs h k.1)

  pub All-both {κ ι} :
      (P : A → Type κ) (Q : A → Type ι) (xs : List A)
      → All P xs
      → All Q xs
      → All (λ a. P a × Q a) xs
  All-both P Q [] hp hq = tt
  All-both P Q (x ∷ xs) hp hq = ((hp.0, hq.0), All-both P Q xs hp.1 hq.1)

  pub All-keep_only {κ} :
      (P : A → Type κ) (p : A → Bool) (xs : List A) → All P xs → All P (keep p xs)
  All-keep_only P p xs h =
      All-map (λ a. P a × (p a ≡ true)) P (keep p xs) (λ a k. k.0) (All-keep P p xs h)

  pub is_empty-append : (xs ys : List A) → is_empty (xs ++ ys) ≡ (is_empty xs && is_empty ys)
  is_empty-append [] ys = refl
  is_empty-append (x ∷ xs) ys = refl

  pub is_empty-keep : (p : A → Bool) (xs : List A) → is_empty (keep p xs) ≡ not (any p xs)
  is_empty-keep p [] = refl
  is_empty-keep p (x ∷ xs) = ground (arith, is_empty-keep p xs)

  pub any-append_one :
      (p : A → Bool) (xs : List A) (x : A) → p x ≡ true → any p (xs ++ x ∷ []) ≡ true
  any-append_one p [] x h = rw h refl
  any-append_one p (y ∷ ys) x h = rw (any-append_one p ys x h) (or-true (p y))

  -- What is found after an update that the test does not see.
  pub find_first-update_where :
      (p q : A → Bool) (f : A → A) (xs : List A) {a : A}
      → ((x : A) → p (f x) ≡ p x)
      → find_first p xs ≡ some a
      → find_first p (update_where q f xs) ≡ some (if q a then f a else a)
  find_first-update_where p q f [] k h = ground arith
  find_first-update_where p q f (x ∷ xs) {a} k h =
      let same = if_cases (λ (y : A). p y ≡ p x) (q x) (f x) x (λ _. k x) (λ _. refl) in
      elim (Bool-cases (p x)) [
        | inl e ↦
            rw (same, e)
              (ap (λ (y : A). some (if q y then f y else y)) (some_inj x a (if-true _ _ _ e h)))
        | inr e ↦ rw (same, e) (find_first-update_where p q f xs k (if-false _ _ _ e h))
      ]

  pub find_first-append_none :
      (p : A → Bool) (xs : List A) (x : A)
      → find_first p xs ≡ none
      → p x ≡ true
      → find_first p (xs ++ x ∷ []) ≡ some x
  find_first-append_none p [] x h k = rw k refl
  find_first-append_none p (y ∷ ys) x h k = elim (Bool-cases (p y)) [
    | inl e ↦ let taken = if-true _ _ _ e h in cc
    | inr e ↦ rw e (find_first-append_none p ys x (if-false _ _ _ e h) k)
  ]

  pub any-false-find_first :
      (p : A → Bool) (xs : List A) → any p xs ≡ false → find_first p xs ≡ none
  any-false-find_first p [] h = refl
  any-false-find_first p (x ∷ xs) h =
      let (first, rest) = ||-eq-false (p x) (any p xs) h in
      rw first (any-false-find_first p xs rest)

  pub any-find_first :
      (p : A → Bool) (xs : List A) {a : A} → find_first p xs ≡ some a → any p xs ≡ true
  any-find_first p [] h = cc
  any-find_first p (x ∷ xs) h = elim (Bool-cases (p x)) [
    | inl e ↦ rw e refl
    | inr e ↦ rw e (any-find_first p xs (if-false _ _ _ e h))
  ]

  pub any-false-count_if :
      (p q : A → Bool) (xs : List A) → any p xs ≡ false → count_if (λ x. p x && q x) xs ≡ 0
  any-false-count_if p q [] h = refl
  any-false-count_if p q (x ∷ xs) h =
      let (first, rest) = ||-eq-false (p x) (any p xs) h in
      rw first (any-false-count_if p q xs rest)
