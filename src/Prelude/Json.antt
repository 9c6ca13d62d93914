-- ===== src/Prelude/Json.antt =====
-- The JSON values that the code hashes.
use Prim.Native.Nat.{ℕ}
use Prim.Native.String.{String}
use mathlib.Core.Bool.{Bool, true, false, not, ◌&&◌}
use mathlib.Core.Option.{Option, none, some}
use mathlib.Core.Path.{◌≡◌, refl}
use native.Mathlib.Omega.{arith}
use text.Mathlib.Text.{◌==◌}
use text.Mathlib.TextPositions.{eq_refl}
use decision_assurance.Prelude.Tests.{eqb, if◌then◌else◌}
use mathlib.Core.List.{List, [], ◌∷◌}

mutual
  pub data Json : Type 0 where
    null : Json
    bool : Bool → Json
    num : ℕ → Json
    str : String → Json
    arr : Items → Json
    obj : Fields → Json

  pub data Items : Type 0 where
    nil : Items
    cons : Json → Items → Items

  pub data Fields : Type 0 where
    done : Fields
    field : String → Json → Fields → Fields

abbrev pub opt_str : Option String → Json
opt_str none = null
opt_str (some s) = str s

abbrev pub items {ℓ} : {A : Type ℓ} → (A → Json) → List A → Items
items f [] = nil
items f (x ∷ xs) = cons (f x) (items f xs)

-- a list of texts
abbrev pub strs : List String → Json
strs xs = arr (items str xs)

-- a key that is there only if it has a value
abbrev pub field_if : String → Option String → Fields → Fields
field_if key none rest = rest
field_if key (some s) rest = field key (str s) rest

abbrev mutual
  -- equality of JSON texts
  pub json_eq : Json → Json → Bool
  json_eq null null = true
  json_eq (bool a) (bool b) = if a then b else not b
  json_eq (num a) (num b) = eqb a b
  json_eq (str a) (str b) = a == b
  json_eq (arr a) (arr b) = items_eq a b
  json_eq (obj a) (obj b) = fields_eq a b
  json_eq _ _ = false

  pub items_eq : Items → Items → Bool
  items_eq nil nil = true
  items_eq (cons a xs) (cons b ys) = json_eq a b && items_eq xs ys
  items_eq _ _ = false

  pub fields_eq : Fields → Fields → Bool
  fields_eq done done = true
  fields_eq (field k a xs) (field l b ys) = k == l && json_eq a b && fields_eq xs ys
  fields_eq _ _ = false

mutual
  pub json_eq_refl : (j : Json) → json_eq j j ≡ true
  json_eq_refl null = refl
  json_eq_refl (bool true) = refl
  json_eq_refl (bool false) = refl
  json_eq_refl (num a) = ground arith
  json_eq_refl (str a) = eq_refl a
  json_eq_refl (arr a) = items_eq_refl a
  json_eq_refl (obj a) = fields_eq_refl a

  items_eq_refl : (xs : Items) → items_eq xs xs ≡ true
  items_eq_refl nil = refl
  items_eq_refl (cons a xs) = rw (json_eq_refl a, items_eq_refl xs) refl

  fields_eq_refl : (xs : Fields) → fields_eq xs xs ≡ true
  fields_eq_refl done = refl
  fields_eq_refl (field k a xs) = rw (eq_refl k, json_eq_refl a, fields_eq_refl xs) refl
