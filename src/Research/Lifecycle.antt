-- ===== src/Research/Lifecycle.antt =====
-- web_research/lifecycle.py: the statuses of a research run.
use decision_assurance.Prelude.{
  ℕ, ◌<◌, ◌≡◌, Bool, true, false, not, ◌&&◌, arith, Result, ok, err, if◌then◌else◌,
}

pub data ResearchStatus : Type 0 where
  created searching sources_discovered extracting evidence_compiled : ResearchStatus
  completed failed partially_completed cancelled : ResearchStatus

pub data ResearchRejection : Type 0 where
  retry_required transition_not_allowed : ResearchRejection

-- `_ALLOWED`
unfoldable pub is_allowed : ResearchStatus → ResearchStatus → Bool
is_allowed created searching = true
is_allowed searching sources_discovered = true
is_allowed sources_discovered extracting = true
is_allowed extracting evidence_compiled = true
is_allowed evidence_compiled completed = true
is_allowed searching failed = true
is_allowed sources_discovered failed = true
is_allowed extracting failed = true
is_allowed evidence_compiled failed = true
is_allowed extracting partially_completed = true
is_allowed evidence_compiled partially_completed = true
is_allowed _ _ = false

-- `_RETRY`
unfoldable pub is_retry : ResearchStatus → ResearchStatus → Bool
is_retry failed searching = true
is_retry failed extracting = true
is_retry partially_completed extracting = true
is_retry _ _ = false

-- `_CANCELLABLE`
unfoldable pub is_cancellable : ResearchStatus → Bool
is_cancellable completed = false
is_cancellable cancelled = false
is_cancellable _ = true

abbrev pub is_cancelled : ResearchStatus → Bool
is_cancelled cancelled = true
is_cancelled _ = false

unfoldable pub transition :
    ResearchStatus → ResearchStatus → Bool → Result ResearchRejection ResearchStatus
unfolding is_allowed is_retry is_cancellable
transition source target retry =
    if is_cancelled target && is_cancellable source
    then ok target
    else if is_retry source target
    then if not retry then err retry_required else ok target
    else if not (is_allowed source target)
    then err transition_not_allowed
    else ok target

-- how far a run has come
abbrev pub stage : ResearchStatus → ℕ
stage created = 0
stage searching = 1
stage sources_discovered = 2
stage extracting = 3
stage evidence_compiled = 4
stage cancelled = 6
stage _ = 5

-- a run that has come to its end
abbrev pub is_over : ResearchStatus → Bool
is_over completed = true
is_over cancelled = true
is_over _ = false

-- Without a retry every transition takes a run a stage further or ends it, and a run that is
-- completed or cancelled has no transition at all, with a retry or without.
pub transition_lem :
    (source target result : ResearchStatus) (retry : Bool)
    → transition source target retry ≡ ok result
    → (result ≡ target) × (is_over source ≡ false) × (retry ≡ false → stage source < stage target)
unfolding transition
transition_lem source target result retry h = ground arith
