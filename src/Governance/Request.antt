-- ===== src/Governance/Request.antt =====
-- What the engine assesses, and adapters.py: the two forms of a payload and their normal form. A
-- key that a dictionary may lack is an `Option`; Boolean keys hold Booleans, as the contracts say.
use decision_assurance.Prelude.{String, Bool, Option, none, List, [], or_default, false}

pub record Evidence : Type 0 where
  pub evidence_id : Option String
  pub id : Option String
  pub status : Option String
  pub verifiable : Option Bool
  pub fabricated : Option Bool
  pub outdated : Option Bool
  pub supports_claim : Option Bool
  pub contradicts_claim : Option Bool

pub record Constraint : Type 0 where
  pub constraint_id : Option String
  pub id : Option String
  pub severity : Option String
  pub hard : Option Bool
  pub satisfied : Option Bool
  pub reason_code : Option String

pub record Policy : Type 0 where
  pub policy_id : Option String
  pub id : Option String
  pub requires_review : Option Bool

pub record Actors : Type 0 where
  pub generator : Option String
  pub approver : Option String

pub record Risk : Type 0 where
  pub high_impact : Option Bool
  pub unresolved_uncertainty : Option Bool

pub record Conflict : Type 0 where
  pub id : Option String
  pub severity : Option String
  pub resolved : Option Bool

-- the keys of a request that may be absent
pub record Body : Type 0 where
  pub evidence : Option (List Evidence)
  pub constraints : Option (List Constraint)
  pub policies : Option (List Policy)
  pub actors : Option Actors
  pub risk : Option Risk
  pub conflicts : Option (List Conflict)
  pub mandatory_evidence_missing : Option Bool

-- a DATS case keeps its body under "input" and its name under "id"
pub data Payload : Type 0 where
  dats_case : Option String → Option String → Body → Payload
  native : Option String → Option String → Body → Payload

pub record Request : Type 0 where
  pub decision_id : String
  pub evidence : List Evidence
  pub constraints : List Constraint
  pub policies : List Policy
  pub actors : Actors
  pub risk : Risk
  pub conflicts : List Conflict
  pub mandatory_evidence_missing : Bool
  pub policy_version : String

abbrev pub no_actors : Actors
no_actors = record { generator = none; approver = none }

abbrev pub no_risk : Risk
no_risk = record { high_impact = none; unresolved_uncertainty = none }

abbrev pub filled : String → String → Body → Request
filled decision_id policy_version b = record {
  decision_id = decision_id;
  evidence = or_default b.evidence [];
  constraints = or_default b.constraints [];
  policies = or_default b.policies [];
  actors = or_default b.actors no_actors;
  risk = or_default b.risk no_risk;
  conflicts = or_default b.conflicts [];
  mandatory_evidence_missing = or_default b.mandatory_evidence_missing false;
  policy_version = policy_version;
}

unfoldable pub normalize : Payload → Request
normalize (dats_case id policy_version body) =
    filled (or_default id "unidentified-decision") (or_default policy_version "dats-0.1.0") body
normalize (native decision_id policy_version body) =
    filled (or_default decision_id "unidentified-decision")
      (or_default policy_version "unspecified") body
