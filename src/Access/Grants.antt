-- ===== src/Access/Grants.antt =====
-- Who may do what, said of the roles of an identity.
use decision_assurance.Prelude.{◌≡◌, refl, ◌∙◌, Bool, ◌||◌, List, [], ◌∷◌, arith, any, is_ok}
use decision_assurance.Access.Identity.{
  Identity, Role, role_eq, generator, validator, approver, auditor, reviewer, tenant_admin,
  system_administrator, research_operator, readonly, has_role,
}
use decision_assurance.Access.Authorization.{
  Permission, permits, authorize, decision_create, decision_validate, decision_approve, data_delete,
}

granted :
    (i : Identity) (p : Permission) → is_ok (authorize i p) ≡ any (λ role. permits role p) i.roles
unfolding authorize
granted i p = ground arith

-- a permission that just the roles `a` and `b` hold
abbrev of_either : Role → Role → Role → Bool
of_either a b role = role_eq a role || role_eq b role

swap_middle : (a b c e : Bool) → ((a || b) || (c || e)) ≡ ((a || c) || (b || e))
swap_middle a b c e = ground arith

any-or :
    {A : Type 0} (f p q : A → Bool) (xs : List A)
    → ((x : A) → f x ≡ (p x || q x))
    → any f xs ≡ (any p xs || any q xs)
any-or f p q [] h = refl
any-or f p q (x ∷ xs) h =
    rw (h x, any-or f p q xs h) (swap_middle (p x) (q x) (any p xs) (any q xs))

either_role :
    (p : Permission) (a b : Role) (roles : List Role)
    → ((role : Role) → permits role p ≡ of_either a b role)
    → any (λ role. permits role p) roles ≡ (has_role a roles || has_role b roles)
either_role p a b roles h = any-or (λ role. permits role p) (role_eq a) (role_eq b) roles h

approvers : (role : Role) → permits role decision_approve ≡ of_either approver tenant_admin role
unfolding permits
approvers generator = refl
approvers validator = refl
approvers approver = refl
approvers auditor = refl
approvers reviewer = refl
approvers tenant_admin = refl
approvers system_administrator = refl
approvers research_operator = refl
approvers readonly = refl

validators : (role : Role) → permits role decision_validate ≡ of_either validator tenant_admin role
unfolding permits
validators generator = refl
validators validator = refl
validators approver = refl
validators auditor = refl
validators reviewer = refl
validators tenant_admin = refl
validators system_administrator = refl
validators research_operator = refl
validators readonly = refl

deleters : (role : Role) → permits role data_delete ≡ of_either tenant_admin tenant_admin role
unfolding permits
deleters generator = refl
deleters validator = refl
deleters approver = refl
deleters auditor = refl
deleters reviewer = refl
deleters tenant_admin = refl
deleters system_administrator = refl
deleters research_operator = refl
deleters readonly = refl

creators : (role : Role) → permits role decision_create ≡ of_either generator tenant_admin role
unfolding permits
creators generator = refl
creators validator = refl
creators approver = refl
creators auditor = refl
creators reviewer = refl
creators tenant_admin = refl
creators system_administrator = refl
creators research_operator = refl
creators readonly = refl

or_same : (b : Bool) → (b || b) ≡ b
or_same b = ground arith

-- An identity may create a decision just if it has the role of a generator, validate one just with
-- that of a validator and approve one just with that of an approver, or, all three, with that of a
-- tenant administrator, and delete data just with the last.
pub authorize_roles :
    (i : Identity)
    → (is_ok (authorize i decision_create)
        ≡ (has_role generator i.roles || has_role tenant_admin i.roles))
      × (is_ok (authorize i decision_validate)
          ≡ (has_role validator i.roles || has_role tenant_admin i.roles))
      × (is_ok (authorize i decision_approve)
          ≡ (has_role approver i.roles || has_role tenant_admin i.roles))
      × (is_ok (authorize i data_delete) ≡ has_role tenant_admin i.roles)
authorize_roles i = (
  granted i decision_create ∙ either_role decision_create generator tenant_admin i.roles creators,
  granted i decision_validate
      ∙ either_role decision_validate validator tenant_admin i.roles validators,
  granted i decision_approve ∙ either_role decision_approve approver tenant_admin i.roles approvers,
  granted i data_delete
      ∙ either_role data_delete tenant_admin tenant_admin i.roles deleters
      ∙ or_same (has_role tenant_admin i.roles),
)
