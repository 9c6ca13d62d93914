-- ===== src/Research/Orchestrator/Histories.antt =====
-- Calls of the orchestrator one after the other (web_research/orchestrator.py), of any tenants and actors.
use decision_assurance.Prelude.{String, Option, List, [], ◌∷◌}
use decision_assurance.Research.Runs.{ResearchRequest}
use decision_assurance.Research.Orchestrator.State.{Ports, Ran, State, raised, returned}
use decision_assurance.Research.Orchestrator.Triples.{Post}
use decision_assurance.Research.Orchestrator.Soundness.{IsSound}
use decision_assurance.Research.Orchestrator.Runs.{
  cancel-IsSound, execute-IsSound, handoff-IsSound, retry-IsSound,
}
use decision_assurance.Research.Orchestrator.Calls.{cancel, execute, handoff, retry}

pub data Call : Type 0 where
  execute_call :
      (request : ResearchRequest) (expected_hash correlation_id : String)
      (generation : Option String)
      → Call
  retry_call cancel_call handoff_call : (run_id correlation_id : String) → Call

pub record Request : Type 0 where
  pub tenant : String
  pub actor_id : String
  pub call : Call

-- what a call leaves, whether it returns or raises
abbrev pub left : {A : Type 0} → Ran A → State
left (returned a s) = s
left (raised e s) = s

abbrev pub answer : Ports → String → String → Call → State → State
answer o tenant actor_id (execute_call request expected_hash correlation_id generation) s =
    left (execute o tenant actor_id request expected_hash correlation_id generation s)
answer o tenant actor_id (retry_call run_id correlation_id) s =
    left (retry o tenant actor_id run_id correlation_id s)
answer o tenant actor_id (cancel_call run_id correlation_id) s =
    left (cancel o tenant actor_id run_id correlation_id s)
answer o tenant actor_id (handoff_call run_id correlation_id) s =
    left (handoff o tenant actor_id run_id correlation_id s)

abbrev pub after : Ports → List Request → State → State
after o [] s = s
after o (r ∷ rs) s = after o rs (answer o r.tenant r.actor_id r.call s)

left-IsSound :
    {A : Type 0} (o : Ports) (r : Ran A)
    → Post (IsSound o) (λ _. IsSound o) r
    → IsSound o (left r).run (left r).db
left-IsSound o (returned a s) h = h
left-IsSound o (raised e s) h = h

answer-IsSound :
    (o : Ports) (tenant actor_id : String) (c : Call) (s : State)
    → IsSound o s.run s.db
    → IsSound o (answer o tenant actor_id c s).run (answer o tenant actor_id c s).db
answer-IsSound o tenant actor_id (execute_call request expected_hash correlation_id generation) s
      h =
    left-IsSound o _
      ((execute-IsSound o tenant actor_id request expected_hash correlation_id generation).at s h)
answer-IsSound o tenant actor_id (retry_call run_id correlation_id) s h =
    left-IsSound o _ ((retry-IsSound o tenant actor_id run_id correlation_id).at s h)
answer-IsSound o tenant actor_id (cancel_call run_id correlation_id) s h =
    left-IsSound o _ ((cancel-IsSound o tenant actor_id run_id correlation_id).at s h)
answer-IsSound o tenant actor_id (handoff_call run_id correlation_id) s h =
    left-IsSound o _ ((handoff-IsSound o tenant actor_id run_id correlation_id).at s h)

-- Whatever calls are made one after the other, by any tenants and actors, with any answers of the
-- providers and the clocks, cancelled at any moment, and whether they return or raise: if the run and
-- the tables are sound before, they are sound after. Sound means that the ledger of the run and of each
-- stored run is a chain of hashes, that each of them holds no more attempts of one operation on one
-- source than the policy allows, and that the units of the budget used for a run do not exceed the
-- budget.
pub after-IsSound :
    (o : Ports) (requests : List Request) (s : State)
    → IsSound o s.run s.db
    → IsSound o (after o requests s).run (after o requests s).db
after-IsSound o [] s h = h
after-IsSound o (r ∷ rs) s h =
    after-IsSound o rs (answer o r.tenant r.actor_id r.call s)
      (answer-IsSound o r.tenant r.actor_id r.call s h)
