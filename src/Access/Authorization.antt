-- ===== src/Access/Authorization.antt =====
-- authorization.py: the permissions of each role.
use decision_assurance.Prelude.{Bool, true, false, any, Result, ok, err, if◌then◌else◌}
use decision_assurance.Access.Identity.{
  Identity, Role, generator, validator, approver, auditor, reviewer, tenant_admin,
  system_administrator, research_operator, readonly,
}

pub data Permission : Type 0 where
  decision_create decision_read decision_evaluate decision_validate decision_approve : Permission
  report_read audit_read : Permission
  intake_create intake_read intake_confirm intake_compile : Permission
  research_create research_read research_retry research_cancel research_handoff : Permission
  research_force_refresh research_audit_read : Permission
  pilot_export data_delete legal_hold_manage : Permission

-- `permission in ROLE_PERMISSIONS.get(role, frozenset())`
unfoldable pub permits : Role → Permission → Bool
permits generator decision_create = true
permits generator decision_read = true
permits generator report_read = true
permits generator intake_create = true
permits generator intake_read = true
permits generator research_create = true
permits generator research_read = true
permits generator research_cancel = true
permits generator research_handoff = true
permits validator decision_read = true
permits validator decision_evaluate = true
permits validator decision_validate = true
permits validator report_read = true
permits validator intake_read = true
permits validator intake_confirm = true
permits validator intake_compile = true
permits validator research_create = true
permits validator research_read = true
permits validator research_retry = true
permits validator research_cancel = true
permits validator research_handoff = true
permits approver decision_read = true
permits approver decision_approve = true
permits approver report_read = true
permits approver intake_read = true
permits approver intake_confirm = true
permits approver intake_compile = true
permits approver research_read = true
permits approver pilot_export = true
permits auditor decision_read = true
permits auditor report_read = true
permits auditor audit_read = true
permits auditor intake_read = true
permits auditor research_read = true
permits auditor research_audit_read = true
permits auditor pilot_export = true
permits reviewer decision_read = true
permits reviewer report_read = true
permits reviewer intake_read = true
permits reviewer research_read = true
permits reviewer research_audit_read = true
permits tenant_admin _ = true
permits system_administrator report_read = true
permits system_administrator audit_read = true
permits system_administrator research_audit_read = true
permits research_operator decision_read = true
permits research_operator report_read = true
permits research_operator research_create = true
permits research_operator research_read = true
permits research_operator research_retry = true
permits research_operator research_cancel = true
permits research_operator research_handoff = true
permits research_operator research_force_refresh = true
permits research_operator research_audit_read = true
permits readonly decision_read = true
permits readonly report_read = true
permits readonly intake_read = true
permits readonly research_read = true
permits _ _ = false

pub data Denied : Type 0 where
  forbidden : Denied

unfoldable pub authorize : Identity → Permission → Result Denied (Unit {0})
unfolding permits
authorize identity permission =
    if any (λ role. permits role permission) identity.roles then ok tt else err forbidden
