-- ===== src/Access/Examples.antt =====
-- The theorems on identities at an approver.
use decision_assurance.Prelude.{◌≡◌, true, false, none, [], ◌∷◌, is_ok}
use decision_assurance.Access.Identity.{Identity, approver, human}
use decision_assurance.Access.Authorization.{
  authorize, decision_create, decision_validate, decision_approve, data_delete,
}
use decision_assurance.Access.Grants.{authorize_roles}

abbrev reader : Identity
reader = record {
  actor_id = "carol";
  tenant_id = "tenant-a";
  role = approver;
  kind = human;
  organization_id = none;
  groups = "board" ∷ [];
  roles = [];
  client_id = none;
  scopes = [];
}

abbrev accepted : Identity
accepted = record reader { roles = approver ∷ [] }

authorize_roles_example :
    (is_ok (authorize accepted decision_create) ≡ false)
    × (is_ok (authorize accepted decision_validate) ≡ false)
    × (is_ok (authorize accepted decision_approve) ≡ true)
    × (is_ok (authorize accepted data_delete) ≡ false)
authorize_roles_example = authorize_roles accepted
