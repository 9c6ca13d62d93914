-- ===== src/Research/Examples.antt =====
-- The theorems on research runs and on circuits at concrete data.
use decision_assurance.Prelude.{
  ◌<◌, ◌≡◌, refl, true, false, none, some, [], ◌∷◌, ok, is_ok, is_blank,
}
use decision_assurance.Research.Lifecycle.{
  searching, sources_discovered, stage, is_over, transition, transition_lem,
}
use decision_assurance.Research.Breaker.{Circuit, BreakerPolicy, Circuits, is_key, before_call}
use decision_assurance.Research.Outage.{after_failures, before_call-after_failures}

discovers : transition searching sources_discovered false ≡ ok sources_discovered
unfolding transition
discovers = refl

transition_lem_example :
    (sources_discovered ≡ sources_discovered)
    × (is_over searching ≡ false)
    × (false ≡ false → stage searching < stage sources_discovered)
transition_lem_example =
    transition_lem searching sources_discovered sources_discovered false discovers

abbrev policy : BreakerPolicy
policy = record { failure_threshold = 3; recovery = 30 }

abbrev fresh : Circuits
fresh t p = none

is_named : is_key "tenant-a" "provider-1" ≡ true
unfolding is_blank
is_named = refl

before_call-after_failures_example :
    is_ok (
      before_call policy "tenant-a" "provider-1" 20
        (after_failures policy "tenant-a" "provider-1" (12 ∷ 11 ∷ 10 ∷ []) fresh))
    ≡ false
before_call-after_failures_example =
    before_call-after_failures policy "tenant-a" "provider-1" 20 (12 ∷ 11 ∷ 10 ∷ []) fresh is_named
      refl

abbrev open_circuit : Circuit
open_circuit = record { failures = 3; opened_until = 42 }

abbrev after_outage : Circuits
after_outage tenant provider = some open_circuit
