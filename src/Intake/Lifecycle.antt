-- ===== src/Intake/Lifecycle.antt =====
-- intake/lifecycle.py: the statuses of an intake.
use decision_assurance.Prelude.{Bool, true, false, not, ◌&&◌, Result, ok, err, if◌then◌else◌}
use decision_assurance.Intake.Contracts.{
  IntakeStatus, received, extracted, needs_confirmation, ready, compiled, rejected,
}
use decision_assurance.Intake.Comparison.{
  IntakeError, intake_transition_not_allowed, intake_not_ready,
}

-- `(source, target) in _ALLOWED`
abbrev pub is_allowed_status : IntakeStatus → IntakeStatus → Bool
is_allowed_status received extracted = true
is_allowed_status extracted needs_confirmation = true
is_allowed_status extracted ready = true
is_allowed_status needs_confirmation ready = true
is_allowed_status ready needs_confirmation = true
is_allowed_status ready compiled = true
is_allowed_status _ _ = false

abbrev pub is_ended : IntakeStatus → Bool
is_ended compiled = true
is_ended rejected = true
is_ended _ = false

abbrev pub is_rejected : IntakeStatus → Bool
is_rejected rejected = true
is_rejected _ = false

abbrev pub is_ready_status : IntakeStatus → Bool
is_ready_status ready = true
is_ready_status _ = false

unfoldable pub next_status : IntakeStatus → IntakeStatus → Bool → Result IntakeError IntakeStatus
next_status source target is_ready =
    if is_rejected target && not (is_ended source)
    then ok target
    else if not (is_allowed_status source target)
    then err intake_transition_not_allowed
    else if is_ready_status target && not is_ready
    then err intake_not_ready
    else ok target
