-- ===== src/Incidents/Tracker/State.antt =====
-- incidents.py: the severity hold, the duration floor, and the state of `IncidentTracker`.
-- The parameter `Runtime` holds what the tracker takes from outside: the timestamp parser of
-- models.py (`datetime.fromisoformat`) and the order in which Python walks a set of keys.
use mocop.Base.{
  ℕ, ◌+◌, String, ◌≡◌, Bool, true, false, ◌&&◌, Option, none, some, List, [], ◌∷◌, ◌++◌, bounded,
  if◌then◌else◌, string_key, or_else,
}
use mocop.Base.Int.{Float, pos, leb_ℤ, ◌-ℤ◌}
use mocop.Base.Dict.{Dict, IsDistinct, get, put, contains}
use mocop.Incidents.Types.{
  Severity, warning, critical, same_severity, Transition, IncidentCondition, IncidentEvent,
}

pub record Runtime : Type 0 where
  pub epoch_seconds : String → Option Float
  pub set_order : List String → List String
  pub set_order-contains :
      (xs : List String) (k : String) → contains (set_order xs) k ≡ contains xs k
  pub set_order-IsDistinct : (xs : List String) → IsDistinct (set_order xs)

-- Whether an established critical severity survives a warning reading.
unfoldable pub holds_severity : IncidentCondition → IncidentCondition → Bool
unfolding ◌-ℤ◌
holds_severity new previous =
    same_severity previous.severity critical
    && same_severity new.severity warning
    && elim new.value [
      | none ↦ false
      | some value ↦ elim new.critical_at [
        | none ↦ false
        | some line ↦ elim previous.critical_at [
          | none ↦ false
          | some established ↦
              leb_ℤ established line
              && leb_ℤ line established
              && leb_ℤ (line -ℤ new.recovery_margin) value
        ]
      ]
    ]

unfoldable pub sustained : Runtime → String → IncidentCondition → Bool
unfolding ◌-ℤ◌
sustained rt since condition =
    if leb_ℤ condition.open_after_seconds (pos 0) then true else elim (rt.epoch_seconds since) [
      | none ↦ true
      | some started ↦ elim (rt.epoch_seconds condition.observed_at) [
        | none ↦ true
        | some now ↦ leb_ℤ condition.open_after_seconds (now -ℤ started)
      ]
    ]

-- The bounded transition log: the deque, its `maxlen`, and the two counters.
pub record EventLog : Type 0 where
  pub events : List IncidentEvent
  pub history_points : ℕ
  pub version : ℕ
  pub next_event_id : ℕ

abbrev pub Pending : Type 0
Pending = Severity × ℕ × String

-- The tables of one host; `active` is the local variable `current` while a sample is applied.
pub record Tables : Type 0 where
  pub active : Dict String IncidentCondition
  pub candidates : Dict String (IncidentCondition × ℕ × String)
  pub recoveries : Dict String ℕ
  pub severity_changes : Dict String Pending
  pub opened_at : Dict String String
  pub last_observed_at : Dict String String

-- The state of `update` while it runs.
pub record Work : Type 0 where
  pub tables : Tables
  pub open tables use *
  pub log : EventLog
  pub created : List IncidentEvent

-- `_append`
unfoldable pub append_event :
    String → IncidentCondition → Transition → String → EventLog → IncidentEvent × EventLog
append_event host condition state observed_at log =
    let event : IncidentEvent = record {
      event_id = log.next_event_id;
      host = host;
      condition = condition;
      state = state;
      observed_at = observed_at;
    } in
    (
      event,
      record log {
        events = bounded log.history_points (log.events ++ event ∷ []);
        next_event_id = log.next_event_id + 1;
        version = log.version + 1;
      },
    )

-- The tables of every host, and the log. A host without an entry reads as one with empty tables.
pub record Tracker : Type 0 where
  pub active : Dict String (Dict String IncidentCondition)
  pub candidates : Dict String (Dict String (IncidentCondition × ℕ × String))
  pub recoveries : Dict String (Dict String ℕ)
  pub severity_changes : Dict String (Dict String Pending)
  pub opened_at : Dict String (Dict String String)
  pub last_observed_at : Dict String (Dict String String)
  pub log : EventLog

-- `d.get(host, {})`, `d.setdefault(host, {})`
abbrev pub row {κ} : {V : Type κ} → Dict String (Dict String V) → String → Dict String V
row d host = or_else (get d host) []

unfoldable pub tables_of : Tracker → String → Tables
tables_of t host = record {
  active = row t.active host;
  candidates = row t.candidates host;
  recoveries = row t.recoveries host;
  severity_changes = row t.severity_changes host;
  opened_at = row t.opened_at host;
  last_observed_at = row t.last_observed_at host;
}

-- The assignments that end `update`: the inner tables are shared with the outer ones, and
-- `_active[host]` is set last.
unfoldable pub store_tables : Tracker → String → Tables → EventLog → Tracker
store_tables t host tables log = record {
  active = put t.active host tables.active;
  candidates = put t.candidates host tables.candidates;
  recoveries = put t.recoveries host tables.recoveries;
  severity_changes = put t.severity_changes host tables.severity_changes;
  opened_at = put t.opened_at host tables.opened_at;
  last_observed_at = put t.last_observed_at host tables.last_observed_at;
  log = log;
}
