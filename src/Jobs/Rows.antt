-- ===== src/Jobs/Rows.antt =====
-- Lemmas on the rows of `research_jobs` under an UPDATE.
use mathlib.Core.Path.{subst}
use decision_assurance.Prelude.{
  sym, String, ◌≡◌, refl, Bool, true, false, List, [], ◌∷◌, ◌++◌, arith, eq_iff, any, any-append,
  All, eq_refl, Bool-cases, inl, inr,
}
use decision_assurance.Jobs.Store.{Row, has_key, update_where}

-- No two rows have the same primary key (tenant_id, job_id).
abbrev pub UniqueKeys : List Row → Type 0
UniqueKeys [] = Unit
UniqueKeys (r ∷ rs) = (any (has_key r.tenant_id r.job_id) rs ≡ false) × UniqueKeys rs

-- an update that leaves the primary key alone
abbrev pub KeepsKey : (Row → Row) → Type 0
KeepsKey f = (r : Row) → ((f r).tenant_id ≡ r.tenant_id) × ((f r).job_id ≡ r.job_id)

-- Rows that are not updated keep what they have; those that are get it from the update.
pub All-update_where {κ} :
    (P : Row → Type κ) (p : Row → Bool) (f : Row → Row) (rs : List Row)
    → ((r : Row) → p r ≡ true → P r → P (f r))
    → All P rs
    → All P (update_where p f rs)
unfolding update_where
All-update_where P p f [] k h = tt
All-update_where P p f (r ∷ rs) k h = elim (Bool-cases (p r)) [
  | inl e ↦ (rw e (k r e h.0), All-update_where P p f rs k h.1)
  | inr e ↦ (rw e h.0, All-update_where P p f rs k h.1)
]

pub any_key-update_where :
    (t j : String) (p : Row → Bool) (f : Row → Row) (rs : List Row)
    → KeepsKey f
    → any (has_key t j) (update_where p f rs) ≡ any (has_key t j) rs
unfolding update_where
any_key-update_where t j p f [] k = refl
any_key-update_where t j p f (r ∷ rs) k = elim (Bool-cases (p r)) [
  | inl e ↦ rw (e, (k r).0, (k r).1, any_key-update_where t j p f rs k)
  | inr e ↦ rw (e, any_key-update_where t j p f rs k)
]

pub UniqueKeys-update_where :
    (p : Row → Bool) (f : Row → Row) (rs : List Row)
    → KeepsKey f
    → UniqueKeys rs
    → UniqueKeys (update_where p f rs)
unfolding update_where
UniqueKeys-update_where p f [] k h = tt
UniqueKeys-update_where p f (r ∷ rs) k h = elim (Bool-cases (p r)) [
  | inl e ↦ (
    rw (e, (k r).0, (k r).1, any_key-update_where r.tenant_id r.job_id p f rs k) h.0,
    UniqueKeys-update_where p f rs k h.1,
  )
  | inr e ↦ (
    rw (e, any_key-update_where r.tenant_id r.job_id p f rs k) h.0,
    UniqueKeys-update_where p f rs k h.1,
  )
]

pub has_key_eq :
    (t j : String) (r : Row) → has_key t j r ≡ true → (r.tenant_id ≡ t) × (r.job_id ≡ j)
has_key_eq t j r h = ground (arith, eq_iff r.tenant_id t, eq_iff r.job_id j)

-- `c` is the only row with its key.
abbrev pub IsOnly : List Row → Row → Type 0
IsOnly rs c = All (λ s. has_key c.tenant_id c.job_id s ≡ true → s ≡ c) rs

pub has_key_self : (r : Row) → has_key r.tenant_id r.job_id r ≡ true
has_key_self r = rw (eq_refl r.tenant_id, eq_refl r.job_id)

none_match :
    (t j : String) (c : Row) (rs : List Row)
    → any (has_key t j) rs ≡ false
    → All (λ s. has_key t j s ≡ true → s ≡ c) rs
none_match t j c [] h = tt
none_match t j c (r ∷ rs) h = (λ k. ground arith, none_match t j c rs (ground arith))

pub has_key_sym :
    (r x : Row) → has_key x.tenant_id x.job_id r ≡ true → has_key r.tenant_id r.job_id x ≡ true
has_key_sym r x h =
    rw ((has_key_eq x.tenant_id x.job_id r h).0, (has_key_eq x.tenant_id x.job_id r h).1)
      (has_key_self x)

apart :
    (r x : Row) (xs : List Row)
    → any (has_key r.tenant_id r.job_id) (x ∷ xs) ≡ false
    → has_key x.tenant_id x.job_id r ≡ true
    → r ≡ x
apart r x xs h k = ground (arith, has_key_sym r x)

IsOnly-cons :
    (r : Row) (rs xs : List Row)
    → any (has_key r.tenant_id r.job_id) xs ≡ false
    → All (IsOnly rs) xs
    → All (IsOnly (r ∷ rs)) xs
IsOnly-cons r rs [] h only = tt
IsOnly-cons r rs (x ∷ xs) h only =
    ((apart r x xs h, only.0), IsOnly-cons r rs xs (ground arith) only.1)

-- In a table with unique keys each row is the only one with its key.
pub UniqueKeys-IsOnly : (rs : List Row) → UniqueKeys rs → All (IsOnly rs) rs
UniqueKeys-IsOnly [] u = tt
UniqueKeys-IsOnly (r ∷ rs) u = (
  (λ k. refl, none_match r.tenant_id r.job_id r rs u.0),
  IsOnly-cons r rs rs u.0 (UniqueKeys-IsOnly rs u.1),
)

pub same_key :
    (t j : String) (c r : Row)
    → has_key t j c ≡ true
    → has_key t j r ≡ true
    → has_key c.tenant_id c.job_id r ≡ true
same_key t j c r key e = rw ((has_key_eq t j c key).0, (has_key_eq t j c key).1) e

-- The update of the one row with a key.
pub All-update_only {κ} :
    (P : Row → Type κ) (t j : String) (c : Row) (f : Row → Row) (rs : List Row)
    → has_key t j c ≡ true
    → P (f c)
    → IsOnly rs c
    → All P rs
    → All P (update_where (has_key t j) f rs)
unfolding update_where
All-update_only P t j c f [] key new only h = tt
All-update_only P t j c f (r ∷ rs) key new only h = elim (Bool-cases (has_key t j r)) [
  | inl e ↦ (
    rw e (subst (λ s. P (f s)) (sym (only.0 (same_key t j c r key e))) new),
    All-update_only P t j c f rs key new only.1 h.1,
  )
  | inr e ↦ (rw e h.0, All-update_only P t j c f rs key new only.1 h.1)
]

append_apart :
    (s r : Row) (rs : List Row)
    → any (has_key s.tenant_id s.job_id) rs ≡ false
    → has_key r.tenant_id r.job_id s ≡ false
    → any (has_key s.tenant_id s.job_id) (rs ++ r ∷ []) ≡ false
append_apart s r rs h k =
    rw (any-append (has_key s.tenant_id s.job_id) rs (r ∷ [])) (ground (arith, has_key_sym r s))

-- A new row with a key of its own.
pub UniqueKeys-append :
    (rs : List Row) (r : Row)
    → any (has_key r.tenant_id r.job_id) rs ≡ false
    → UniqueKeys rs
    → UniqueKeys (rs ++ r ∷ [])
UniqueKeys-append [] r h u = (refl, tt)
UniqueKeys-append (s ∷ rs) r h u =
    (append_apart s r rs u.0 (ground arith), UniqueKeys-append rs r (ground arith) u.1)
