-- ===== src/Access/Tenancy.antt =====
-- tenancy.py: tenants.
use decision_assurance.Prelude.{
  String, Bool, ◌||◌, eqb, codes, matches_name, Result, ok, err, if◌then◌else◌,
}

pub data TenancyError : Type 0 where
  invalid_tenant_id : TenancyError

-- `_TENANT_ID.fullmatch`
unfoldable pub matches_tenant_id : String → Bool
unfolding matches_name
matches_tenant_id s = matches_name (λ c. eqb c b'.' || eqb c b'_' || eqb c b'-') 127 (codes s)

-- `TenantContext(tenant_id)`: the text of the tenant, if it is well-formed
unfoldable pub tenant_context : String → Result TenancyError String
unfolding matches_tenant_id
tenant_context tenant_id =
    if matches_tenant_id tenant_id then ok tenant_id else err invalid_tenant_id
