-- ===== src/Jobs/Keeps.antt =====
-- What a transaction keeps: one rule for each way to build one.
use mathlib.Core.Path.{subst}
use decision_assurance.Prelude.{
  sym, ◌≡◌, refl, Bool, true, false, Option, none, some, Result, ok, err, if◌then◌else◌,
}
use decision_assurance.Jobs.Contracts.{ContractError}
use decision_assurance.Jobs.Lifecycle.{LifecycleError}
use decision_assurance.Jobs.Store.{
  Db, JobError, Tx, ◌>>=◌, pure, raise, gets, lift_contract, lift_lifecycle, or_raise,
}

-- `P` of the tables that a transaction commits; nothing of one that is rolled back
abbrev pub Post {ℓ} : {A : Type 0} → (Db → Type ℓ) → Result JobError (A × Db) → Type ℓ
Post P (ok (a, db)) = P db
Post P (err e) = Unit

-- from `db`, `m` commits only tables that have `P`, if `db` has it
pub record Keeps {ℓ} {A : Type 0} (P : Db → Type ℓ) (m : Tx A) (db : Db) : Type ℓ where
  pub at : P db → Post P (m db)

module _ {ℓ} {A : Type 0} {P : Db → Type ℓ} where
  pub Keeps-pure : (a : A) (db : Db) → Keeps P (pure a) db
  Keeps-pure a db = record { at = λ h. h }

  pub Keeps-raise : (e : JobError) (db : Db) → Keeps P (raise {A = A} e) db
  Keeps-raise e db = record { at = λ h. tt }

  pub Keeps-or_raise : (o : Option A) (e : JobError) (db : Db) → Keeps P (or_raise o e) db
  Keeps-or_raise none e db = record { at = λ h. tt }
  Keeps-or_raise (some a) e db = record { at = λ h. h }

  pub Keeps-lift_contract : (r : Result ContractError A) (db : Db) → Keeps P (lift_contract r) db
  Keeps-lift_contract (ok a) db = record { at = λ h. h }
  Keeps-lift_contract (err e) db = record { at = λ h. tt }

  pub Keeps-lift_lifecycle : (r : Result LifecycleError A) (db : Db) → Keeps P (lift_lifecycle r) db
  Keeps-lift_lifecycle (ok a) db = record { at = λ h. h }
  Keeps-lift_lifecycle (err e) db = record { at = λ h. tt }

  pub Keeps-if :
      (b : Bool) (m n : Tx A) (db : Db)
      → (b ≡ true → Keeps P m db)
      → (b ≡ false → Keeps P n db)
      → Keeps P (if b then m else n) db
  Keeps-if true m n db km kn = km refl
  Keeps-if false m n db km kn = kn refl

  -- the proof may use what the tables have before
  pub Keeps-from : (m : Tx A) (db : Db) → (P db → Keeps P m db) → Keeps P m db
  Keeps-from m db k = record { at = λ h. (k h).at h }

module _ {ℓ} {A : Type 0} (P : Db → Type ℓ) where
  reads_cases :
      (r : Result JobError (A × Db)) (db : Db)
      → ((db' : Db) (a : A) → r ≡ ok (a, db') → db' ≡ db)
      → P db
      → Post P r
  reads_cases (ok (a, d)) db k h = subst P (sym (k d a refl)) h
  reads_cases (err e) db k h = tt

  -- a transaction that changes nothing
  pub Keeps-reads :
      (m : Tx A) (db : Db) → ((db' : Db) (a : A) → m db ≡ ok (a, db') → db' ≡ db) → Keeps P m db
  Keeps-reads m db k = record { at = reads_cases (m db) db k }

module _ {ℓ} {A B : Type 0} {P : Db → Type ℓ} where
  bind_cases :
      (r : Result JobError (A × Db)) (f : A → Tx B)
      → Post P r
      → ((a : A) (db' : Db) → r ≡ ok (a, db') → Keeps P (f a) db')
      → Post P (
          let out : Result JobError (B × Db) = elim r [ ok (a, db') ↦ f a db' | err e ↦ err e ] in
          out)
  bind_cases (ok (a, db')) f h k = (k a db' refl).at h
  bind_cases (err e) f h k = tt

  pub Keeps-bind :
      (m : Tx A) (f : A → Tx B) (db : Db)
      → Keeps P m db
      → ((a : A) (db' : Db) → m db ≡ ok (a, db') → Keeps P (f a) db')
      → Keeps P (m >>= f) db
  unfolding ◌>>=◌
  Keeps-bind m f db km kf = record { at = λ h. bind_cases (m db) f (km.at h) kf }

  -- a query sees the tables as they are
  pub Keeps-gets :
      (g : Db → A) (f : A → Tx B) (db : Db) → Keeps P (f (g db)) db → Keeps P (gets g >>= f) db
  unfolding ◌>>=◌
  Keeps-gets g f db k = record { at = k.at }

  -- a row that a query did not find raises; one that it found is known
  pub Keeps-required :
      (o : Option A) (e : JobError) (f : A → Tx B) (db : Db)
      → ((a : A) → o ≡ some a → Keeps P (f a) db)
      → Keeps P (or_raise o e >>= f) db
  unfolding ◌>>=◌
  Keeps-required none e f db k = record { at = λ h. tt }
  Keeps-required (some a) e f db k = record { at = (k a refl).at }

module _ {ℓ κ} {A : Type 0} (P : Db → Type ℓ) (Q : Db → Type κ) where
  Post-both : (r : Result JobError (A × Db)) → Post P r → Post Q r → Post (λ db. P db × Q db) r
  Post-both (ok (a, db)) p q = (p, q)
  Post-both (err e) p q = tt

  pub Keeps-both : (m : Tx A) (db : Db) → Keeps P m db → Keeps Q m db → Keeps (λ d. P d × Q d) m db
  Keeps-both m db kp kq = record { at = λ h. Post-both (m db) (kp.at h.0) (kq.at h.1) }

module _ {ℓ κ} {A B : Type 0} (P : Db → Type ℓ) (Q : Db → Type κ) where
  seq_cases :
      (r : Result JobError (A × Db)) (f : A → Tx B)
      → Post Q r
      → ((d : Db) → Q d → P d)
      → ((a : A) (d : Db) → Q d → Keeps P (f a) d)
      → Post P (
          let out : Result JobError (B × Db) = elim r [ ok (a, db') ↦ f a db' | err e ↦ err e ] in
          out)
  seq_cases (ok (a, d)) f q w k = (k a d q).at (w d q)
  seq_cases (err e) f q w k = tt

  -- a step that reaches a stronger state, from which the rest keeps `P`
  pub Keeps-seq :
      (m : Tx A) (f : A → Tx B) (db : Db)
      → (P db → Q db)
      → Keeps Q m db
      → ((d : Db) → Q d → P d)
      → ((a : A) (d : Db) → Q d → Keeps P (f a) d)
      → Keeps P (m >>= f) db
  unfolding ◌>>=◌
  Keeps-seq m f db s km w k = record { at = λ h. seq_cases (m db) f (km.at (s h)) w k }
