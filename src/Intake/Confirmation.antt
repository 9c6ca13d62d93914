-- ===== src/Intake/Confirmation.antt =====
-- intake/confirmation.py: `confirm_fact`. `sha256_json` stands for the hexadecimal SHA-256 of the
-- canonical JSON text of a value.
use decision_assurance.Prelude.{
  String, Bool, true, false, not, ◌&&◌, ◌||◌, Option, some, List, [], ◌∷◌, ◌++◌, map, any, keep,
  find_first, mem, is_empty, is_some, ◌==◌, is_blank, ◌⧺◌, take_text, Result, ok, ◌>>=◌, ◌>>◌,
  raise_if, is_ok, if◌then◌else◌,
}
use decision_assurance.Prelude.Json.{Json, str, obj, opt_str, field, done}
use decision_assurance.Access.Identity.{
  ActorKind, human, Identity, Role, generator, validator, approver, auditor, reviewer, tenant_admin,
  system_administrator, research_operator, readonly,
}
use decision_assurance.Access.Authorization.{intake_confirm, authorize}
use decision_assurance.Intake.Contracts.{
  human_confirmed, refused, is_unresolved, CandidateFact, HumanConfirmation, VerificationReport,
}
use decision_assurance.Intake.Comparison.{
  IntakeError, human_actor_required, intake_confirmation_forbidden, invalid_confirmation_action,
  corrected_value_required, confirmation_reason_required, fact_not_found, or_error, given,
}

abbrev pub is_human : ActorKind → Bool
is_human human = true
is_human _ = false

-- Role.value
abbrev pub role_text : Role → String
role_text generator = "GENERATOR"
role_text validator = "VALIDATOR"
role_text approver = "APPROVER"
role_text auditor = "AUDITOR"
role_text reviewer = "REVIEWER"
role_text tenant_admin = "TENANT_ADMIN"
role_text system_administrator = "SYSTEM_ADMINISTRATOR"
role_text research_operator = "RESEARCH_OPERATOR"
role_text readonly = "READONLY"

-- what a human says of a fact
pub record Decision : Type 0 where
  pub fact_id : String
  pub action : String
  pub new_value : Option String
  pub reason : String
  pub occurred_at : String

abbrev pub confirmation_payload : String → Identity → Decision → Json
confirmation_payload intake_id identity d = obj (
    field "intake_id" (str intake_id) (
      field "fact_id" (str d.fact_id) (
        field "action" (str d.action) (
          field "actor_id" (str identity.actor_id) (
            field "new_value" (opt_str d.new_value)
              (field "reason" (str d.reason) (field "occurred_at" (str d.occurred_at) done)))))))

-- `updated_fact`
unfoldable pub updated_fact : Identity → Decision → CandidateFact → CandidateFact
updated_fact identity d current = record current {
  normalized_value = if d.action == "CORRECT" then d.new_value else current.normalized_value;
  verification_status = if d.action == "REJECT" then refused else human_confirmed;
  confirmation_required = false;
  confirmed_by_actor_id = some identity.actor_id;
  confirmed_by_role = some (role_text identity.role);
}

abbrev pub has_fact_id : String → CandidateFact → Bool
has_fact_id id c = c.fact_id == id

-- `candidates`, with the fact replaced
unfoldable pub replace_fact : String → CandidateFact → List CandidateFact → List CandidateFact
replace_fact id fact candidates =
    map (λ (c : CandidateFact). if has_fact_id id c then fact else c) candidates

abbrev pub is_pending : CandidateFact → Bool
is_pending c = c.confirmation_required && is_unresolved c.verification_status

-- `reason_codes` after the confirmation
unfoldable pub remaining_reasons : Decision → List CandidateFact → List String → List String
remaining_reasons d candidates codes =
    let kept =
      keep (λ code. not (code == "HUMAN_CONFIRMATION_REQUIRED") || any is_pending candidates)
        codes in
    if d.action == "CORRECT" && not (mem "REVERIFICATION_REQUIRED" kept)
    then kept ++ "REVERIFICATION_REQUIRED" ∷ []
    else kept

-- the report with the fact replaced
unfoldable pub confirmed_report : VerificationReport → Decision → CandidateFact → VerificationReport
unfolding replace_fact remaining_reasons
confirmed_report report d fact =
    let candidates = replace_fact d.fact_id fact report.candidates in
    let codes = remaining_reasons d candidates report.reason_codes in
    record report {
      candidates = candidates;
      reason_codes = codes;
      ready =
          is_empty codes && is_empty report.findings && is_empty report.unresolved_requirement_refs;
    }

module _ (sha256_json : Json → String) where
  abbrev pub confirmation_of : String → Identity → Decision → CandidateFact → HumanConfirmation
  confirmation_of intake_id identity d current = record {
    confirmation_id =
        intake_id
        ⧺ ":confirmation:"
        ⧺ take_text 24 (sha256_json (confirmation_payload intake_id identity d));
    fact_id = d.fact_id;
    action = d.action;
    actor_id = identity.actor_id;
    old_value = current.normalized_value;
    new_value = d.new_value;
    reason = d.reason;
    occurred_at = d.occurred_at;
  }

  unfoldable pub confirm_fact :
      VerificationReport
      → Identity
      → Decision
      → Result IntakeError (VerificationReport × HumanConfirmation)
  unfolding authorize updated_fact confirmed_report is_blank
  confirm_fact report identity d = do
    raise_if (not (is_human identity.kind)) human_actor_required
    raise_if (not (is_ok (authorize identity intake_confirm))) intake_confirmation_forbidden
    raise_if (not (mem d.action ("CONFIRM" ∷ "CORRECT" ∷ "REJECT" ∷ [])))
        invalid_confirmation_action
    raise_if (d.action == "CORRECT" && not (is_some (given d.new_value))) corrected_value_required
    raise_if (is_blank d.reason) confirmation_reason_required
    current ← or_error (find_first (has_fact_id d.fact_id) report.candidates) fact_not_found
    ok (
      confirmed_report report d (updated_fact identity d current),
      confirmation_of report.intake_id identity d current,
    )
