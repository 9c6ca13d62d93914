-- ===== src/Intake/Contracts.antt =====
-- intake/contracts.py: the facts of an intake, and the reports about them. The confidence of an
-- extraction is a float that no rule reads, and is left out.
use decision_assurance.Prelude.{ℕ, String, Bool, true, false, Option, List}

pub data IntakeStatus : Type 0 where
  received extracted needs_confirmation ready compiled rejected : IntakeStatus

-- IntakeStatus.value
abbrev pub intake_status_text : IntakeStatus → String
intake_status_text received = "RECEIVED"
intake_status_text extracted = "EXTRACTED"
intake_status_text needs_confirmation = "NEEDS_CONFIRMATION"
intake_status_text ready = "READY"
intake_status_text compiled = "COMPILED"
intake_status_text rejected = "REJECTED"

pub data VerificationStatus : Type 0 where
  unresolved verified human_confirmed refused : VerificationStatus

abbrev pub is_unresolved : VerificationStatus → Bool
is_unresolved unresolved = true
is_unresolved _ = false

abbrev pub is_confirmed : VerificationStatus → Bool
is_confirmed human_confirmed = true
is_confirmed _ = false

abbrev pub is_refused : VerificationStatus → Bool
is_refused refused = true
is_refused _ = false

-- `status in {VERIFIED, HUMAN_CONFIRMED}`
abbrev pub is_trusted : VerificationStatus → Bool
is_trusted verified = true
is_trusted human_confirmed = true
is_trusted _ = false

pub data FactType : Type 0 where
  amount discount_percent discount_limit_percent margin_percent min_margin_percent : FactType
  payment_term_days duration_months date evidence_date : FactType
  policy_claim exception_claim approval_claim self_approval_claim role_claim : FactType
  untrusted_instruction : FactType

-- FactType.value
abbrev pub fact_type_text : FactType → String
fact_type_text amount = "AMOUNT"
fact_type_text discount_percent = "DISCOUNT_PERCENT"
fact_type_text discount_limit_percent = "DISCOUNT_LIMIT_PERCENT"
fact_type_text margin_percent = "MARGIN_PERCENT"
fact_type_text min_margin_percent = "MIN_MARGIN_PERCENT"
fact_type_text payment_term_days = "PAYMENT_TERM_DAYS"
fact_type_text duration_months = "DURATION_MONTHS"
fact_type_text date = "DATE"
fact_type_text evidence_date = "EVIDENCE_DATE"
fact_type_text policy_claim = "POLICY_CLAIM"
fact_type_text exception_claim = "EXCEPTION_CLAIM"
fact_type_text approval_claim = "APPROVAL_CLAIM"
fact_type_text self_approval_claim = "SELF_APPROVAL_CLAIM"
fact_type_text role_claim = "ROLE_CLAIM"
fact_type_text untrusted_instruction = "UNTRUSTED_INSTRUCTION"

pub record SourceReference : Type 0 where
  pub source_id : String
  pub start : ℕ
  pub end : ℕ
  pub content_hash : String

pub record CandidateFact : Type 0 where
  pub fact_id : String
  pub fact_type : FactType
  pub raw_value : String
  pub normalized_value : Option String
  pub source : SourceReference
  pub method : String
  pub method_version : String
  pub verification_status : VerificationStatus
  pub unit : Option String
  pub currency : Option String
  pub conflict_refs : List String
  pub confirmation_required : Bool
  pub confirmed_by_actor_id : Option String
  pub confirmed_by_role : Option String

pub record IntakeConflict : Type 0 where
  pub conflict_id : String
  pub fact_type : FactType
  pub fact_refs : List String
  pub reason_code : String

pub record VerificationRequirement : Type 0 where
  pub requirement_id : String
  pub fact_type : FactType
  pub reason_code : String
  pub mandatory : Bool

pub record ExtractionReport : Type 0 where
  pub schema_version : String
  pub intake_id : String
  pub method : String
  pub method_version : String
  pub locale : String
  pub candidates : List CandidateFact
  pub conflicts : List IntakeConflict
  pub requirements : List VerificationRequirement

pub record DerivedFinding : Type 0 where
  pub finding_id : String
  pub rule_id : String
  pub fact_refs : List String
  pub policy_ref : Option String
  pub calculation : String
  pub result_code : String
  pub uncertainty : Option String

pub record HumanConfirmation : Type 0 where
  pub confirmation_id : String
  pub fact_id : String
  pub action : String
  pub actor_id : String
  pub old_value : Option String
  pub new_value : Option String
  pub reason : String
  pub occurred_at : String

pub record PolicyContext : Type 0 where
  pub policy_id : String
  pub policy_version : String
  pub effective_date : String
  pub maximum_discount_percent : String
  pub minimum_margin_percent : String
  pub maximum_duration_months_without_exception : ℕ
  pub requires_approval_above_amount : String
  pub maximum_evidence_age_days : ℕ
  pub required_approval_count : ℕ

pub record VerificationReport : Type 0 where
  pub schema_version : String
  pub intake_id : String
  pub candidates : List CandidateFact
  pub findings : List DerivedFinding
  pub unresolved_requirement_refs : List String
  pub ready : Bool
  pub reason_codes : List String
