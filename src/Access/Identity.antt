-- ===== src/Access/Identity.antt =====
-- identity.py: roles, actors, and the static token authenticator.
use decision_assurance.Prelude.{
  String, Bool, true, false, not, Option, none, some, List, [], ◌∷◌, any, is_empty, ◌==◌, is_blank,
  Result, ok, err, ◌>>◌, raise_if, if◌then◌else◌,
}

pub data Role : Type 0 where
  generator validator approver auditor reviewer : Role
  tenant_admin system_administrator research_operator readonly : Role

pub data ActorKind : Type 0 where
  human agent service : ActorKind

abbrev pub role_eq : Role → Role → Bool
role_eq generator generator = true
role_eq validator validator = true
role_eq approver approver = true
role_eq auditor auditor = true
role_eq reviewer reviewer = true
role_eq tenant_admin tenant_admin = true
role_eq system_administrator system_administrator = true
role_eq research_operator research_operator = true
role_eq readonly readonly = true
role_eq _ _ = false

-- `role in roles`
abbrev pub has_role : Role → List Role → Bool
has_role role roles = any (role_eq role) roles

pub record Identity : Type 0 where
  pub actor_id : String
  pub tenant_id : String
  pub role : Role
  pub kind : ActorKind
  pub organization_id : Option String
  pub groups : List String
  pub roles : List Role
  pub client_id : Option String
  pub scopes : List String

pub data IdentityError : Type 0 where
  invalid_actor_id invalid_organization_id invalid_identity_group : IdentityError
  invalid_primary_role invalid_client_id invalid_identity_scope : IdentityError
  invalid_token : IdentityError

abbrev pub blank_if_given : Option String → Bool
blank_if_given none = false
blank_if_given (some s) = is_blank s

-- `self.roles or frozenset({self.role})`
abbrev pub effective_roles : Identity → List Role
effective_roles i = if is_empty i.roles then i.role ∷ [] else i.roles

-- `Identity.__post_init__`
unfoldable pub check_identity : Identity → Result IdentityError Identity
check_identity i = do
  raise_if (is_blank i.actor_id) invalid_actor_id
  raise_if (blank_if_given i.organization_id) invalid_organization_id
  raise_if (any is_blank i.groups) invalid_identity_group
  raise_if (not (has_role i.role (effective_roles i))) invalid_primary_role
  raise_if (blank_if_given i.client_id) invalid_client_id
  raise_if (any is_blank i.scopes) invalid_identity_scope
  ok (record i { roles = effective_roles i })

-- `StaticTokenAuthenticator.authenticate`, over its dictionary of tokens
unfoldable pub authenticate : List (String × Identity) → String → Result IdentityError Identity
authenticate [] token = err invalid_token
authenticate ((t, identity) ∷ rest) token =
    let later = authenticate rest token in if t == token then ok identity else later
