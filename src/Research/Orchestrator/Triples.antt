-- ===== src/Research/Orchestrator/Triples.antt =====
-- Steps of the orchestrator (web_research/orchestrator.py) between conditions on the run and on the tables:
-- one rule for each way to build a step. A step that raises leaves what has `I`.
use decision_assurance.Prelude.{ℕ, ◌≡◌, refl, Bool, true, false, if◌then◌else◌}
use decision_assurance.Research.Runs.{ResearchRun}
use decision_assurance.Research.Repository.{ResearchDb}
use decision_assurance.Research.Orchestrator.State.{
  Failure, Op, Ran, State, or_else, or_else_in, pure, raise, raised, returned, then_in, with_run,
  ask, ◌>>=◌, ◌>>◌,
}

-- a condition on a run and on the tables
abbrev pub Condition : Type 1
Condition = ResearchRun → ResearchDb → Type 0

module _ (I : Condition) where
  abbrev pub Post : {A : Type 0} → (A → Condition) → Ran A → Type 0
  Post Q (returned a s) = Q a s.run s.db
  Post Q (raised e s) = I s.run s.db

  -- from `P`, `m` leads to `Q` of what it returns
  pub record Leads {A : Type 0} (P : Condition) (m : Op A) (Q : A → Condition) : Type 0 where
    pub at : (s : State) → P s.run s.db → Post Q (m s)

  abbrev pub Keeps : {A : Type 0} → Condition → Op A → Type 0
  Keeps P m = Leads P m (λ _. P)

module _ {I : Condition} {A B : Type 0} where
  Post-then_in :
      (Q : A → Condition) (R : B → Condition) (r : Ran A) (next : A → Op B)
      → ((a : A) → Leads I (Q a) (next a) R)
      → Post I Q r
      → Post I R (then_in next r)
  Post-then_in Q R (returned a s) next k h = (k a).at s h
  Post-then_in Q R (raised e s) next k h = h

  pub Leads->>= :
      {P : Condition} (m : Op A) (next : A → Op B) (Q : A → Condition) (R : B → Condition)
      → Leads I P m Q
      → ((a : A) → Leads I (Q a) (next a) R)
      → Leads I P (m >>= next) R
  Leads->>= m next Q R h k = record { at = λ s p. Post-then_in Q R (m s) next k (h.at s p) }

module _ {I : Condition} {A : Type 0} (Q : A → Condition) where
  Post-or_else :
      (a : A) (r : Ran A)
      → ((run : ResearchRun) (db : ResearchDb) → I run db → Q a run db)
      → Post I Q r
      → Post I Q (or_else_in a r)
  Post-or_else a (returned b s) f h = h
  Post-or_else a (raised e s) f h = f s.run s.db h

module _ {I : Condition} {A : Type 0} {P : Condition} (Q : A → Condition) where
  pub Leads-if :
      (b : Bool) (m n : Op A)
      → (b ≡ true → Leads I P m Q)
      → (b ≡ false → Leads I P n Q)
      → Leads I P (if b then m else n) Q
  Leads-if true m n h k = h refl
  Leads-if false m n h k = k refl

  pub Leads-with_run :
      (k : ResearchRun → Op A)
      → ((run : ResearchRun) → Leads I (λ r db. P r db × (r ≡ run)) (k run) Q)
      → Leads I P (with_run k) Q
  Leads-with_run k h = record { at = λ s p. (h s.run).at s (p, refl) }

  pub Leads-before :
      (P' : Condition) (m : Op A)
      → ((run : ResearchRun) (db : ResearchDb) → P run db → P' run db)
      → Leads I P' m Q
      → Leads I P m Q
  Leads-before P' m f h = record { at = λ s p. h.at s (f s.run s.db p) }

  pub Leads-or_else :
      (a : A) (m : Op A)
      → ((run : ResearchRun) (db : ResearchDb) → I run db → Q a run db)
      → Leads I P m Q
      → Leads I P (or_else a m) Q
  Leads-or_else a m f h = record { at = λ s p. Post-or_else Q a (m s) f (h.at s p) }

module _ {I : Condition} {A : Type 0} (P : Condition) where
  pub Keeps-ask : (f : ℕ → A) → Leads I P (ask f) (λ _. P)
  unfolding ask
  Keeps-ask f = record { at = λ s p. p }

-- steps that keep a condition, one after the other
module _ {I P : Condition} {B : Type 0} {Q : B → Condition} where
  infixl 5 ◌⨟◌
  pub ◌⨟◌ : {m : Op (Unit {0})} {n : Op B} → Keeps I P m → Leads I P n Q → Leads I P (m >> n) Q
  ◌⨟◌ {m} {n} h k = Leads->>= m (λ _. n) (λ _. P) Q h (λ _. k)

  pub Keeps->>= :
      {A : Type 0} {m : Op A} {next : A → Op B}
      → Keeps I P m
      → ((a : A) → Leads I P (next a) Q)
      → Leads I P (m >>= next) Q
  Keeps->>= {A} {m} {next} h k = Leads->>= m next (λ _. P) Q h k

  pub Leads-run :
      {k : ResearchRun → Op B}
      → ((run : ResearchRun) → Leads I P (k run) Q)
      → Leads I P (with_run k) Q
  Leads-run {k} h = record { at = λ s p. (h s.run).at s p }

  pub Leads-choice :
      (b : Bool) {m n : Op B} → Leads I P m Q → Leads I P n Q → Leads I P (if b then m else n) Q
  Leads-choice b {m} {n} h k = Leads-if Q b m n (λ _. h) (λ _. k)

module _ {I : Condition} {A : Type 0} where
  pub Keeps-pure : {P : Condition} (a : A) → Keeps I P (pure a)
  Keeps-pure a = record { at = λ s p. p }

  pub Keeps-raise : (e : Failure) → Keeps I I (raise {A = A} e)
  Keeps-raise e = record { at = λ s p. p }
