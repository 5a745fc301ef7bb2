-- ===== src/Incidents/Tracker/Phase.antt =====
-- The life of one condition on one host, as one state machine: what the six tables of
-- `IncidentTracker` say of one key, and what a sample does to it.
use mocop.Base.{
  ℕ, ◌+◌, String, Bool, Option, none, some, if◌then◌else◌, string_key, leb, or_else, ◌≡◌,
}
use mocop.Base.Dict.{get}
use mocop.Incidents.Types.{IncidentCondition, same_severity}
use mocop.Incidents.Tracker.State.{Runtime, Pending, Tables}
use mocop.Incidents.Tracker.Update.{held, streak, confirmed}

-- An open incident: its confirmed condition, the healthy samples in a row so far, a severity change
-- that is not confirmed yet, and its two timestamps.
pub record Open : Type 0 where
  pub condition : IncidentCondition
  pub healthy : ℕ
  pub change : Option Pending
  pub opened_at : String
  pub last_observed_at : String

pub data Phase : Type 0 where
  idle : Phase
  candidate : IncidentCondition → ℕ → String → Phase
  open_incident : Open → Phase

unfoldable pub begin : Runtime → IncidentCondition → ℕ × String → Phase
begin rt new run =
    if confirmed rt run new
    then open_incident (record {
      condition = new;
      healthy = 0;
      change = none;
      opened_at = new.observed_at;
      last_observed_at = new.observed_at;
    })
    else candidate new run.0 run.1

unfoldable pub reobserve : Runtime → IncidentCondition → Open → Open
reobserve rt new o =
    let kept = held new o.condition in
    let run = streak o.change kept in
    let seen = record o { healthy = 0; last_observed_at = new.observed_at } in
    if same_severity o.condition.severity kept.severity
    then record seen { condition = kept; change = none }
    else if confirmed rt run kept
    then record seen { condition = kept; change = none }
    else record seen {
      condition = record kept {
        severity = o.condition.severity;
        critical_at = o.condition.critical_at;
      };
      change = some (kept.severity, run.0, run.1);
    }

-- A sample that observes the condition.
unfoldable pub present : Runtime → IncidentCondition → Phase → Phase
unfolding begin reobserve
present rt new idle = if new.below_threshold then idle else begin rt new (streak none new)
present rt new (candidate c count since) =
    if new.below_threshold
    then idle
    else begin rt new (streak (some (c.severity, count, since)) new)
present rt new (open_incident o) = open_incident (reobserve rt new o)

-- A sample that does not; `advances` says whether it can speak for the condition's recovery.
unfoldable pub absent : (IncidentCondition → String → Bool) → Phase → Phase
absent advances idle = idle
absent advances (candidate c count since) = idle
absent advances (open_incident o) =
    let waiting = record o { change = none } in
    if advances o.condition o.opened_at
    then if leb o.condition.recovery_cycles (o.healthy + 1)
      then idle
      else open_incident (record waiting { healthy = o.healthy + 1 })
    else open_incident waiting

unfoldable pub step :
    Runtime → (IncidentCondition → String → Bool) → Option IncidentCondition → Phase → Phase
unfolding present absent
step rt advances (some new) p = present rt new p
step rt advances none p = absent advances p

-- What the tables hold for one key.
pub record Slot : Type 0 where
  pub active : Option IncidentCondition
  pub candidate : Option (IncidentCondition × ℕ × String)
  pub recovery : ℕ
  pub change : Option Pending
  pub opened_at : Option String
  pub last_observed_at : Option String

unfoldable pub slot : Tables → String → Slot
slot t key = record {
  active = get t.active key;
  candidate = get t.candidates key;
  recovery = or_else (get t.recoveries key) 0;
  change = get t.severity_changes key;
  opened_at = get t.opened_at key;
  last_observed_at = get t.last_observed_at key;
}

-- The tables' entries for a key in a phase.
unfoldable pub entries : Phase → Slot
entries idle = record {
  active = none;
  candidate = none;
  recovery = 0;
  change = none;
  opened_at = none;
  last_observed_at = none;
}
entries (candidate c count since) = record {
  active = none;
  candidate = some (c, count, since);
  recovery = 0;
  change = none;
  opened_at = none;
  last_observed_at = none;
}
entries (open_incident o) = record {
  active = some o.condition;
  candidate = none;
  recovery = o.healthy;
  change = o.change;
  opened_at = some o.opened_at;
  last_observed_at = some o.last_observed_at;
}

-- The tables are in the phase `p` at the key.
abbrev pub InPhase : Tables → String → Phase → Type 0
InPhase t key p = slot t key ≡ entries p
