-- ===== src/Prelude/Text.antt =====
-- Texts: membership among texts, code points, decimal numerals, joins.
use Prim.Native.Char.{code}
use Prim.Native.Nat.{ℕ, zero, suc, ◌+◌, ◌/◌, ◌%◌}
use Prim.Native.String.{String, ◌++◌ as text_append, compare}
use mathlib.Core.Path.{◌≡◌, refl}
use mathlib.Core.Bool.{Bool, true, false, ◌&&◌, ◌||◌, not}
use mathlib.Core.List.{List, [], ◌∷◌, map}
use text.Mathlib.Text.{◌==◌, is_le}
use decision_assurance.Prelude.Tests.{ltb, leb, eqb, if◌then◌else◌}
use native.Mathlib.Omega.{arith}
use decision_assurance.Prelude.Lists.{length, all, is_empty}

-- `x in xs`
abbrev pub mem : String → List String → Bool
mem x [] = false
mem x (y ∷ ys) = x == y || mem x ys

-- `len(xs) == len(set(xs))`
abbrev pub all_distinct : List String → Bool
all_distinct [] = true
all_distinct (x ∷ xs) = not (mem x xs) && all_distinct xs

-- `s + t`, and the parts of an f-string
infixr 66 ◌⧺◌
abbrev pub ◌⧺◌ : String → String → String
s ⧺ t = text_append s t

abbrev pub codes : String → List ℕ
codes String.[] = []
codes (String.◌∷◌ c s) = code c ∷ codes s

-- `s[:n]` and `s[n:]`
abbrev pub take_text : ℕ → String → String
take_text zero s = ""
take_text (suc n) String.[] = ""
take_text (suc n) (String.◌∷◌ c s) = String.◌∷◌ c (take_text n s)

abbrev pub drop_text : ℕ → String → String
drop_text zero s = s
drop_text (suc n) String.[] = ""
drop_text (suc n) (String.◌∷◌ c s) = drop_text n s

digit_text : ℕ → String
digit_text zero = "0"
digit_text (suc zero) = "1"
digit_text (suc (suc zero)) = "2"
digit_text (suc (suc (suc zero))) = "3"
digit_text (suc (suc (suc (suc zero)))) = "4"
digit_text (suc (suc (suc (suc (suc zero))))) = "5"
digit_text (suc (suc (suc (suc (suc (suc zero)))))) = "6"
digit_text (suc (suc (suc (suc (suc (suc (suc zero))))))) = "7"
digit_text (suc (suc (suc (suc (suc (suc (suc (suc zero)))))))) = "8"
digit_text _ = "9"

decimal_from : ℕ → ℕ → String
unfolding digit_text
decimal_from zero n = ""
decimal_from (suc fuel) n =
    let rest = decimal_from fuel (n / 10) in
    if ltb n 10 then digit_text n else rest ⧺ digit_text (n % 10)

-- `str(n)`: a number has fewer digits than one more than its value
unfoldable pub decimal : ℕ → String
unfolding decimal_from
decimal n = decimal_from (suc n) n

decimal_text : decimal 1207 ≡ "1207"
unfolding decimal
decimal_text = refl

-- `separator.join(parts)`
abbrev pub join : String → List String → String
join sep [] = ""
join sep (x ∷ []) = x
join sep (x ∷ y ∷ xs) = x ⧺ (sep ⧺ join sep (y ∷ xs))

abbrev starts_codes : List ℕ → List ℕ → Bool
starts_codes [] _ = true
starts_codes (_ ∷ _) [] = false
starts_codes (x ∷ xs) (y ∷ ys) = eqb x y && starts_codes xs ys

unfoldable pub contains_codes : List ℕ → List ℕ → Bool
contains_codes part [] = is_empty part
contains_codes part (c ∷ cs) = starts_codes part (c ∷ cs) || contains_codes part cs

-- `part in text`
unfoldable pub contains : String → String → Bool
unfolding contains_codes
contains part text = contains_codes (codes part) (codes text)

-- `c.lower()` of an ASCII character
abbrev lower_code : ℕ → ℕ
lower_code c = if leb b'A' c && leb c b'Z' then c + 32 else c

-- `part.lower() in text.lower()`
unfoldable pub contains_lower : String → String → Bool
unfolding contains_codes
contains_lower part text =
    contains_codes (map lower_code (codes part)) (map lower_code (codes text))

-- `s.lower()` as code points
abbrev pub lower_codes : String → List ℕ
lower_codes s = map lower_code (codes s)

abbrev pub codes_eq : List ℕ → List ℕ → Bool
codes_eq [] [] = true
codes_eq (x ∷ xs) (y ∷ ys) = eqb x y && codes_eq xs ys
codes_eq _ _ = false

-- `text.split(separator, 1)[0]`
abbrev pub before_code : ℕ → List ℕ → List ℕ
before_code separator [] = []
before_code separator (c ∷ cs) =
    let rest = before_code separator cs in if eqb c separator then [] else c ∷ rest

abbrev pub before_text : ℕ → String → String
before_text separator String.[] = ""
before_text separator (String.◌∷◌ c s) =
    let rest = before_text separator s in if eqb (code c) separator then "" else String.◌∷◌ c rest

-- an ASCII letter or digit
abbrev pub is_alphanumeric : ℕ → Bool
is_alphanumeric c =
    (leb b'a' c && leb c b'z') || (leb b'A' c && leb c b'Z') || (leb b'0' c && leb c b'9')

abbrev pub is_space : ℕ → Bool
is_space c = eqb c 32 || (leb 9 c && leb c 13) || (leb 28 c && leb c 31)

abbrev lstrip_codes : List ℕ → List ℕ
lstrip_codes [] = []
lstrip_codes (c ∷ cs) = let rest = lstrip_codes cs in if is_space c then rest else c ∷ cs

abbrev rstrip_codes : List ℕ → List ℕ
rstrip_codes [] = []
rstrip_codes (c ∷ cs) =
    let rest = rstrip_codes cs in if is_space c && is_empty rest then [] else c ∷ rest

-- `text.strip()`, for the ASCII white space
abbrev pub strip_codes : List ℕ → List ℕ
strip_codes cs = rstrip_codes (lstrip_codes cs)

-- `not s.strip()`, for the ASCII white space
unfoldable pub is_blank : String → Bool
is_blank s = all is_space (codes s)

-- `[A-Za-z0-9][A-Za-z0-9…]{0,max}` as a full match, `extra` being the other characters allowed
unfoldable pub matches_name : (ℕ → Bool) → ℕ → List ℕ → Bool
matches_name extra max [] = false
matches_name extra max (c ∷ cs) =
    is_alphanumeric c && all (λ d. is_alphanumeric d || extra d) cs && leb (length cs) max

-- the order of texts
abbrev pub is_le_text : String → String → Bool
is_le_text s t = is_le (compare s t)

-- `sorted(…)` of texts
unfoldable pub insert_sorted : String → List String → List String
insert_sorted x [] = x ∷ []
insert_sorted x (y ∷ ys) =
    let rest = insert_sorted x ys in if is_le (compare x y) then x ∷ y ∷ ys else y ∷ rest

unfoldable pub sorted : List String → List String
unfolding insert_sorted
sorted [] = []
sorted (x ∷ xs) = insert_sorted x (sorted xs)

is_empty-insert_sorted : (x : String) (ys : List String) → is_empty (insert_sorted x ys) ≡ false
unfolding insert_sorted
is_empty-insert_sorted x [] = refl
is_empty-insert_sorted x (y ∷ ys) = ground arith

pub is_empty-sorted : (xs : List String) → is_empty (sorted xs) ≡ is_empty xs
unfolding sorted
is_empty-sorted [] = refl
is_empty-sorted (x ∷ xs) = is_empty-insert_sorted x (sorted xs)

-- `dict.fromkeys(…)`: each text once, in order of its first use; `seen` are those before
unfoldable pub unique_from : List String → List String → List String
unique_from seen [] = []
unique_from seen (c ∷ cs) =
    let rest = unique_from (c ∷ seen) cs in
    let skipped = unique_from seen cs in if mem c seen then skipped else c ∷ rest

-- `sorted({…})`
unfoldable pub sorted_set : List String → List String
unfolding sorted unique_from
sorted_set xs = sorted (unique_from [] xs)
