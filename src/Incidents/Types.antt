-- ===== src/Incidents/Types.antt =====
-- incident_types.py: conditions, events, restored incidents, and what a policy provides.
use mocop.Base.{string_key, ℕ, String, Bool, true, false, Option, List}
use mocop.Base.Int.{Float}
use mocop.Base.Dict.{Dict, IsDict}
use mocop.Models.{ProbeResult}

pub data Severity : Type 0 where
  warning critical : Severity

abbrev pub same_severity : Severity → Severity → Bool
same_severity warning warning = true
same_severity critical critical = true
same_severity _ _ = false

pub data Transition : Type 0 where
  opened resolved escalated deescalated : Transition

pub record IncidentCondition : Type 0 where
  pub key : String
  pub category : String
  pub resource : String
  pub severity : Severity
  pub value : Option Float
  pub threshold : Option Float
  pub observed_at : String
  pub detail : Option String
  pub open_after_cycles : ℕ
  pub recovery_cycles : ℕ
  pub group_key : Option String
  pub open_after_seconds : Float
  pub below_threshold : Bool
  pub critical_at : Option Float
  pub recovery_margin : Float

pub record IncidentEvent : Type 0 where
  pub event_id : ℕ
  pub host : String
  pub condition : IncidentCondition
  pub state : Transition
  pub observed_at : String

pub record OpenIncident : Type 0 where
  pub host : String
  pub condition : IncidentCondition
  pub opened_at : String

-- The part of the policy protocol that the tracker calls. A `frozenset` is a list of its members,
-- and what `conditions` returns is a dictionary, whose keys are distinct.
pub record IncidentPolicy : Type 0 where
  pub conditions : ProbeResult → Dict String IncidentCondition
  pub conditions-IsDict : (result : ProbeResult) → IsDict (conditions result)
  pub observed_domains : ProbeResult → List String
  pub recovery_cycles : ℕ
