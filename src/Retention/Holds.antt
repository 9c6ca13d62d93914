-- ===== src/Retention/Holds.antt =====
-- A legal hold protects a case, whatever the threads of the service do to the repository, one call of
-- lifecycle/repository.py at a time.
use decision_assurance.Prelude.{
  String, ◌≡◌, sym, Bool, true, false, not, ◌&&◌, Option, none, some, List, [], ◌∷◌, arith, ◌==◌,
  eq_iff, All, Bool-cases, Option-cases, inl, inr,
}
use decision_assurance.Retention.Contracts.{DeletionRequest, DeletionStatus, LifecycleEvent}
use decision_assurance.Retention.Store.{
  Store, Ran, returned, raised, updated, add_case, persist_transition, persist_over, set_hold,
  release_hold, complete_deletion, complete_executing,
}

pub data RepositoryCall : Type 0 where
  adds_case : String → String → RepositoryCall
  persists : DeletionRequest → LifecycleEvent → Option DeletionStatus → RepositoryCall
  sets_hold : String → String → LifecycleEvent → RepositoryCall
  releases_hold : String → String → LifecycleEvent → RepositoryCall
  completes : DeletionRequest → LifecycleEvent → RepositoryCall

abbrev pub store_after {ℓ} : {A : Type ℓ} → Ran A → Store
store_after (returned a s) = s
store_after (raised e s) = s

unfoldable pub carry_out : RepositoryCall → Store → Store
unfolding add_case persist_transition set_hold release_hold complete_deletion
carry_out (adds_case tenant decision_id) s = store_after (add_case tenant decision_id s)
carry_out (persists request event expected) s =
    store_after (persist_transition request event expected s)
carry_out (sets_hold tenant decision_id event) s = store_after (set_hold tenant decision_id event s)
carry_out (releases_hold tenant decision_id event) s =
    store_after (release_hold tenant decision_id event s)
carry_out (completes request event) s = store_after (complete_deletion request event s)

unfoldable pub carry_out_all : List RepositoryCall → Store → Store
unfolding carry_out
carry_out_all [] s = s
carry_out_all (c ∷ cs) s = carry_out_all cs (carry_out c s)

-- a call that does not release the hold on the case
abbrev pub leaves_hold : String → String → RepositoryCall → Bool
leaves_hold tenant decision_id (releases_hold t d event) = not (tenant == t && decision_id == d)
leaves_hold tenant decision_id _ = true

pub record IsHeld (tenant decision_id : String) (s : Store) : Type 0 where
  pub present : s.cases tenant decision_id ≡ true
  pub held : s.holds tenant decision_id ≡ true

module _ (tenant decision_id : String) where
  persist_over-IsHeld :
      (current request : DeletionRequest) (event : LifecycleEvent)
      (expected : Option DeletionStatus) (s : Store)
      → IsHeld tenant decision_id s
      → IsHeld tenant decision_id (store_after (persist_over current request event expected s))
  unfolding persist_over
  persist_over-IsHeld current request event none s v = record {
    present = ground (arith, v.present);
    held = ground (arith, v.held);
  }
  persist_over-IsHeld current request event (some e) s v = record {
    present = ground (arith, v.present);
    held = ground (arith, v.held);
  }

  persist_transition-IsHeld :
      (request : DeletionRequest) (event : LifecycleEvent) (expected : Option DeletionStatus)
      (s : Store)
      → IsHeld tenant decision_id s
      → IsHeld tenant decision_id (store_after (persist_transition request event expected s))
  unfolding persist_transition
  persist_transition-IsHeld request event expected s v =
      elim (Option-cases (s.requests request.tenant_id request.request_id)) [
        | inl e ↦ record {
          present = ground (arith, e, v.present);
          held = ground (arith, e, v.held);
        }
        | inr (current, e) ↦
            let over = persist_over-IsHeld current request event expected s v in
            record {
              present = ground (arith, e, over.present);
              held = ground (arith, e, over.held);
            }
      ]

  set_hold-IsHeld :
      (t d : String) (event : LifecycleEvent) (s : Store)
      → IsHeld tenant decision_id s
      → IsHeld tenant decision_id (store_after (set_hold t d event s))
  unfolding set_hold
  set_hold-IsHeld t d event s v = record {
    present = ground (arith, v.present);
    held = ground (arith, v.held);
  }

  release_hold-IsHeld :
      (t d : String) (event : LifecycleEvent) (s : Store)
      → not (tenant == t && decision_id == d) ≡ true
      → IsHeld tenant decision_id s
      → IsHeld tenant decision_id (store_after (release_hold t d event s))
  unfolding release_hold
  release_hold-IsHeld t d event s other v = record {
    present = ground (arith, v.present);
    held = ground (arith, v.held, other);
  }

  -- the case that is erased is not the one under the hold
  erased-present :
      (t d : String) (s : Store)
      → s.holds t d ≡ false
      → IsHeld tenant decision_id s
      → updated s.cases t d false tenant decision_id ≡ true
  erased-present t d s free v = elim (Bool-cases (tenant == t && decision_id == d)) [
    | inl e ↦
        let same_tenant = (eq_iff tenant t).0 (ground (arith, e)) in
        let same_case = (eq_iff decision_id d).0 (ground (arith, e)) in
        ground (arith, v.held, rw (sym same_tenant, sym same_case) at free)
    | inr e ↦ rw e v.present
  ]

  complete_executing-IsHeld :
      (current request : DeletionRequest) (event : LifecycleEvent) (s : Store)
      → IsHeld tenant decision_id s
      → IsHeld tenant decision_id (store_after (complete_executing current request event s))
  unfolding complete_executing
  complete_executing-IsHeld current request event s v = elim (Option-cases current.decision_id) [
    | inl e ↦ rw e v
    | inr (d, e) ↦ elim (Bool-cases (s.holds request.tenant_id d)) [
      | inl busy ↦ record {
        present = ground (arith, e, busy, v.present);
        held = ground (arith, e, busy, v.held);
      }
      | inr free ↦ record {
        present = ground (arith, e, free, v.present, erased-present request.tenant_id d s free v);
        held = ground (arith, e, free, v.held);
      }
    ]
  ]

  complete_deletion-IsHeld :
      (request : DeletionRequest) (event : LifecycleEvent) (s : Store)
      → IsHeld tenant decision_id s
      → IsHeld tenant decision_id (store_after (complete_deletion request event s))
  unfolding complete_deletion
  complete_deletion-IsHeld request event s v =
      elim (Option-cases (s.requests request.tenant_id request.request_id)) [
        | inl e ↦ record {
          present = ground (arith, e, v.present);
          held = ground (arith, e, v.held);
        }
        | inr (current, e) ↦
            let completing = complete_executing-IsHeld current request event s v in
            record {
              present = ground (arith, e, v.present, completing.present);
              held = ground (arith, e, v.held, completing.held);
            }
      ]

  carry_out-IsHeld :
      (c : RepositoryCall) (s : Store)
      → leaves_hold tenant decision_id c ≡ true
      → IsHeld tenant decision_id s
      → IsHeld tenant decision_id (carry_out c s)
  unfolding carry_out add_case
  carry_out-IsHeld (adds_case t d) s h v = record {
    present = ground (arith, v.present);
    held = v.held;
  }
  carry_out-IsHeld (persists request event expected) s h v =
      (persist_transition-IsHeld request event expected s v)
  carry_out-IsHeld (sets_hold t d event) s h v = (set_hold-IsHeld t d event s v)
  carry_out-IsHeld (releases_hold t d event) s h v = (release_hold-IsHeld t d event s h v)
  carry_out-IsHeld (completes request event) s h v = (complete_deletion-IsHeld request event s v)

  -- A case under a legal hold is there, and under the hold, after any calls of the repository by any
  -- threads in any order, as long as none of them releases this hold.
  pub carry_out_all-IsHeld :
      (cs : List RepositoryCall) (s : Store)
      → All (λ c. leaves_hold tenant decision_id c ≡ true) cs
      → IsHeld tenant decision_id s
      → IsHeld tenant decision_id (carry_out_all cs s)
  unfolding carry_out_all
  carry_out_all-IsHeld [] s h v = v
  carry_out_all-IsHeld (c ∷ cs) s h v =
      carry_out_all-IsHeld cs (carry_out c s) h.1 (carry_out-IsHeld c s h.0 v)
