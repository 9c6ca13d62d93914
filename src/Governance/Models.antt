-- ===== src/Governance/Models.antt =====
-- models.py: outcomes, findings and the result of an assessment.
use decision_assurance.Prelude.{String, Option, none, some}
use decision_assurance.Prelude.Json.{Json, str, obj, field, Fields, done}

pub data Outcome : Type 0 where
  pass review block : Outcome

pub data Severity : Type 0 where
  block review : Severity

abbrev pub outcome_text : Outcome → String
outcome_text Outcome.pass = "PASS"
outcome_text Outcome.review = "REVIEW"
outcome_text Outcome.block = "BLOCK"

abbrev pub severity_text : Severity → String
severity_text Severity.block = "BLOCK"
severity_text Severity.review = "REVIEW"

pub record Finding : Type 0 where
  pub finding_id : String
  pub reason_code : String
  pub severity : Severity
  pub subject_ref : Option String
  pub detail : Option String

-- `if value is not None: result[key] = value`
abbrev pub optional_field : String → Option String → Fields → Fields
optional_field key none rest = rest
optional_field key (some v) rest = field key (str v) rest

-- `Finding.as_dict`
unfoldable pub finding_json : Finding → Json
finding_json f = obj (
    field "finding_id" (str f.finding_id) (
      field "reason_code" (str f.reason_code) (
        field "severity" (str (severity_text f.severity))
          (optional_field "subject_ref" f.subject_ref (optional_field "detail" f.detail done)))))
