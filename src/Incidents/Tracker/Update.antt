-- ===== src/Incidents/Tracker/Update.antt =====
-- `IncidentTracker.update` and the other methods. The body of each loop is a function of its own,
-- a `KeyError` is `none`, and what `update` has written before one is not modelled.
use mathlib.Core.Option
use mocop.Base.{
  ℕ, ◌+◌, String, Bool, false, not, ◌&&◌, ◌||◌, Option, none, some, List, [], ◌∷◌, ◌++◌, filter,
  if◌then◌else◌, string_key, leb, or_else,
}
use mocop.Base.Int.{ltb_ℤ}
use mocop.Base.Dict.{Dict, get, put, remove, has, keys, restrict}
use mocop.Models.{ProbeResult, online}
use mocop.Incidents.Types.{
  Severity, warning, critical, same_severity, Transition, opened, resolved, escalated, deescalated,
  IncidentCondition, IncidentEvent, IncidentPolicy,
}
use mocop.Incidents.Domains.{telemetry_unknown}
use mocop.Incidents.Tracker.State.{
  Runtime, holds_severity, sustained, EventLog, Pending, Tables, Work, append_event, Tracker,
  tables_of, store_tables,
}

-- The observation with the severity that hysteresis leaves it.
unfoldable pub held : IncidentCondition → IncidentCondition → IncidentCondition
held new old = if holds_severity new old then record new { severity = old.severity } else new

-- The length of a confirmation streak with this observation, and when it began.
unfoldable pub streak : Option Pending → IncidentCondition → ℕ × String
streak pending new =
    let (severity, count, since) = or_else pending (new.severity, 0, new.observed_at) in
    if same_severity severity new.severity then (count + 1, since) else (1, new.observed_at)

unfoldable pub confirmed : Runtime → ℕ × String → IncidentCondition → Bool
confirmed rt (count, since) new = leb new.open_after_cycles count && sustained rt since new

abbrev pub severity_pending : IncidentCondition × ℕ × String → Pending
severity_pending (candidate, count, since) = (candidate.severity, count, since)

unfoldable pub direction : Severity → Transition
direction critical = escalated
direction warning = deescalated

unfoldable pub emit : String → IncidentCondition → Transition → String → Work → Work
emit host condition state observed_at w =
    let (event, log) = append_event host condition state observed_at w.log in
    record w { log = log; created = w.created ++ event ∷ [] }

-- `recoveries.pop(key, None)`
unfoldable pub interrupt_recovery : String → Work → Work
interrupt_recovery key w = record w {
  tables = record w.tables { recoveries = remove w.recoveries key };
}

module _ (rt : Runtime) (result : ProbeResult) where
  -- The branch of the first loop for a condition that is active.
  unfoldable pub observe_active : String → IncidentCondition → IncidentCondition → Work → Work
  unfolding held streak confirmed direction emit
  observe_active key new old w =
      let new = held new old in
      let t = record w.tables {
        candidates = remove w.candidates key;
        last_observed_at = put w.last_observed_at key new.observed_at;
      } in
      let run = streak (get t.severity_changes key) new in
      let settled = record t {
        severity_changes = remove t.severity_changes key;
        active = put t.active key new;
      } in
      if same_severity old.severity new.severity
      then record w { tables = settled }
      else if confirmed rt run new
      then emit result.host new (direction new.severity) result.observed_at
          (record w { tables = settled })
      else record w {
        tables = record t {
          severity_changes = put t.severity_changes key (new.severity, run.0, run.1);
          active =
              put t.active key
                (record new { severity = old.severity; critical_at = old.critical_at });
        };
      }

  -- The branch for a condition that is not active.
  unfoldable pub observe_inactive : String → IncidentCondition → Work → Work
  unfolding streak confirmed emit
  observe_inactive key new w =
      let t = w.tables in
      let run = streak (Option.map severity_pending (get t.candidates key)) new in
      if new.below_threshold
      then w
      else if confirmed rt run new
      then emit result.host new opened result.observed_at (record w {
        tables = record t {
          candidates = remove t.candidates key;
          active = put t.active key new;
          opened_at = put t.opened_at key new.observed_at;
          last_observed_at = put t.last_observed_at key new.observed_at;
        };
      })
      else record w { tables = record t { candidates = put t.candidates key (new, run.0, run.1) } }

  -- What follows `old = previous.get(key)`.
  unfoldable pub observe_known : Option IncidentCondition → String → IncidentCondition → Work → Work
  observe_known (some old) key new w = observe_active key new old w
  observe_known none key new w = observe_inactive key new w

  -- One round of `for key, new in observed.items()`.
  unfoldable pub observe : Dict String IncidentCondition → String → IncidentCondition → Work → Work
  observe previous key new w = observe_known (get previous key) key new (interrupt_recovery key w)

  unfoldable pub observe_all :
      Dict String IncidentCondition → Dict String IncidentCondition → Work → Work
  observe_all previous [] w = w
  observe_all previous ((key, new) ∷ observed) w =
      observe_all previous observed (observe previous key new w)

  -- A sample taken before the incident opened cannot speak for it.
  unfoldable pub delayed : String → Bool
  delayed opening = elim (rt.epoch_seconds result.observed_at) [
    | none ↦ false
    | some sample_time ↦ elim (rt.epoch_seconds opening) [
      | none ↦ false
      | some opening_time ↦ ltb_ℤ sample_time opening_time
    ]
  ]

  unfoldable pub recover_active : String → IncidentCondition → Work → Work
  unfolding emit
  recover_active key old w =
      let t = record w.tables { severity_changes = remove w.severity_changes key } in
      let recovery_count = or_else (get t.recoveries key) 0 + 1 in
      if leb old.recovery_cycles recovery_count
      then emit result.host old resolved result.observed_at (record w {
        tables = record t {
          recoveries = remove t.recoveries key;
          active = remove t.active key;
          opened_at = remove t.opened_at key;
          last_observed_at = remove t.last_observed_at key;
        };
      })
      else record w { tables = record t { recoveries = put t.recoveries key recovery_count } }

  -- One round of `for key in set(previous) - set(observed)`.
  unfoldable pub recover : List String → Dict String IncidentCondition → String → Work → Option Work
  recover domains previous key w = elim (get previous key) [
    | none ↦ none
    | some old ↦ elim (get w.opened_at key) [
      | none ↦ none
      | some opening ↦
          if delayed opening || telemetry_unknown old.category key domains
          then some w
          else some (recover_active key old w)
    ]
  ]

  unfoldable pub recover_all :
      List String → Dict String IncidentCondition → List String → Work → Option Work
  recover_all domains previous [] w = some w
  recover_all domains previous (key ∷ gone) w =
      Option.bind (recover domains previous key w) (recover_all domains previous gone)

-- `confirming`: the observations outside the recovery margin.
unfoldable pub confirming : Dict String IncidentCondition → Dict String IncidentCondition
confirming observed = filter (λ entry. not entry.1.below_threshold) observed

-- Breaks the streaks that this sample does not continue.
unfoldable pub prune : Dict String IncidentCondition → Tables → Tables
unfolding confirming
prune observed t = record t {
  candidates = restrict (has (confirming observed)) t.candidates;
  severity_changes = restrict (has observed) t.severity_changes;
}

-- `set(previous) - set(observed)`, before Python orders it.
unfoldable pub unobserved :
    Dict String IncidentCondition → Dict String IncidentCondition → List String
unobserved previous observed = filter (λ key. not (has observed key)) (keys previous)

module _ (rt : Runtime) (policy : IncidentPolicy) (result : ProbeResult) where
  -- Both loops, from the tables of the sample's host.
  unfoldable pub apply_sample : Tables → EventLog → Option Work
  apply_sample previous log =
      let observed = policy.conditions result in
      let start : Work = record { tables = prune observed previous; log = log; created = [] } in
      let w = observe_all rt result previous.active observed start in
      if online result
      then recover_all rt result (policy.observed_domains result) previous.active
          (rt.set_order (unobserved previous.active observed)) w
      else some w

  -- `update`: the new tracker and the events that the sample created.
  unfoldable pub update : Tracker → Option (Tracker × List IncidentEvent)
  update t =
      Option.map (λ w. (store_tables t result.host w.tables w.log, w.created))
        (apply_sample (tables_of t result.host) t.log)
