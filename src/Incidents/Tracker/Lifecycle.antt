-- ===== src/Incidents/Tracker/Lifecycle.antt =====
-- The constructor of `IncidentTracker`, `remove_hosts`, and the queries on one condition.
use mocop.Base.{
  ℕ, ◌+◌, max, String, ◌≡◌, refl, ◌&&◌, Option, none, some, List, [], ◌∷◌, bounded, if◌then◌else◌,
  string_key, nat_beq, ◌==◌, ==_iff, Bool-cases, inl, inr, arith,
}
use mocop.Base.Dict.{Dict, get, put, get-put}
use mocop.Incidents.Types.{IncidentCondition, IncidentEvent, OpenIncident, IncidentPolicy}
use mocop.Incidents.Tracker.State.{Tracker, row, tables_of}
use mocop.Incidents.Tracker.Phase.{Phase, idle, open_incident, slot, entries, InPhase}
use mocop.Incidents.Tracker.Runs.{AtPhases}

-- `xs[-n:]`
unfoldable pub last_n {ℓ} : {A : Type ℓ} → ℕ → List A → List A
last_n n xs = if nat_beq n 0 then xs else bounded n xs

-- `max((event.event_id for event in events), default=0)`
unfoldable pub last_event_id : List IncidentEvent → ℕ
last_event_id [] = 0
last_event_id (event ∷ events) = max event.event_id (last_event_id events)

unfoldable pub restored_condition : ℕ → OpenIncident → IncidentCondition
restored_condition recovery_cycles restored = record restored.condition {
  recovery_cycles = recovery_cycles;
}

-- `d.setdefault(host, {})[key] = v`
unfoldable pub put_in {κ} :
    {V : Type κ} → Dict String (Dict String V) → String → String → V → Dict String (Dict String V)
put_in d host key v = put d host (put (row d host) key v)

get-put_in {κ} :
    {V : Type κ} (d : Dict String (Dict String V)) (host key other k : String) (v : V)
    → get (row (put_in d host key v) other) k
      ≡ (if host == other && key == k then some v else get (row d other) k)
unfolding put_in
get-put_in d host key other k v = elim (Bool-cases (host == other)) [
  | inl here ↦
      let same : host ≡ other = (==_iff host other).0 here in
      rw (get-put d host other, here, get-put (row d host) key k, same)
  | inr away ↦ rw (get-put d host other, away)
]

-- One round of `for restored in open_incidents`.
unfoldable pub restore : ℕ → Tracker → OpenIncident → Tracker
restore recovery_cycles t restored =
    let host = restored.host in
    let key = restored.condition.key in
    record t {
      active = put_in t.active host key (restored_condition recovery_cycles restored);
      opened_at = put_in t.opened_at host key restored.opened_at;
      last_observed_at = put_in t.last_observed_at host key restored.condition.observed_at;
    }

unfoldable pub empty_tracker : ℕ → List IncidentEvent → Tracker
unfolding last_n last_event_id
empty_tracker history_points historical_events =
    let retained = last_n history_points historical_events in
    let last_id = last_event_id retained in
    record {
      active = [];
      candidates = [];
      recoveries = [];
      severity_changes = [];
      opened_at = [];
      last_observed_at = [];
      log = record {
        events = bounded history_points retained;
        history_points = history_points;
        version = last_id;
        next_event_id = last_id + 1;
      };
    }

unfoldable pub restore_all : ℕ → List OpenIncident → Tracker → Tracker
restore_all cycles [] t = t
restore_all cycles (restored ∷ rest) t = restore_all cycles rest (restore cycles t restored)

-- `IncidentTracker(policy, history_points, historical_events, open_incidents)`
unfoldable pub init : IncidentPolicy → ℕ → List IncidentEvent → List OpenIncident → Tracker
init policy history_points historical_events open_incidents =
    restore_all policy.recovery_cycles open_incidents
      (empty_tracker history_points historical_events)

-- The phase in which a restored incident starts.
abbrev pub restored_phase : ℕ → Option OpenIncident → Phase
restored_phase cycles none = idle
restored_phase cycles (some r) = open_incident (record {
  condition = restored_condition cycles r;
  healthy = 0;
  change = none;
  opened_at = r.opened_at;
  last_observed_at = r.condition.observed_at;
})

abbrev pub Restored : Type 0
Restored = String → String → Option OpenIncident

-- The last restored incident of a host and key counts.
abbrev pub also : OpenIncident → Restored → Restored
also r f host key = if r.host == host && r.condition.key == key then some r else f host key

abbrev pub latest : List OpenIncident → Restored → Restored
latest [] f = f
latest (r ∷ rest) f = latest rest (also r f)

restore-AtPhases :
    (cycles : ℕ) (r : OpenIncident) (t : Tracker) (f : Restored)
    → AtPhases t (λ host key. restored_phase cycles (f host key))
    → AtPhases (restore cycles t r) (λ host key. restored_phase cycles (also r f host key))
unfolding restore tables_of slot entries
restore-AtPhases cycles r t f h host key = ground (
  arith,
  h host key,
  get-put_in t.active r.host r.condition.key host key (restored_condition cycles r),
  get-put_in t.opened_at r.host r.condition.key host key r.opened_at,
  get-put_in t.last_observed_at r.host r.condition.key host key r.condition.observed_at,
)

restore_all-AtPhases :
    (cycles : ℕ) (rs : List OpenIncident) (t : Tracker) (f : Restored)
    → AtPhases t (λ host key. restored_phase cycles (f host key))
    → AtPhases (restore_all cycles rs t) (λ host key. restored_phase cycles (latest rs f host key))
unfolding restore_all
restore_all-AtPhases cycles [] t f h = h
restore_all-AtPhases cycles (r ∷ rs) t f h =
    restore_all-AtPhases cycles rs (restore cycles t r) (also r f) (restore-AtPhases cycles r t f h)

-- A new tracker has every restored incident open in its old generation: with the opening time that
-- it was saved with, no healthy sample counted, and the policy's recovery cycles; where a host and a
-- key are listed twice the last entry counts. All other conditions are idle.
pub init-AtPhases :
    (policy : IncidentPolicy) (history_points : ℕ) (events : List IncidentEvent)
    (open_incidents : List OpenIncident) (host key : String)
    → InPhase
        (tables_of (init policy history_points events open_incidents) host)
        key
        (restored_phase policy.recovery_cycles (latest open_incidents (λ _ _. none) host key))
unfolding init empty_tracker tables_of slot entries get
init-AtPhases policy history_points events open_incidents =
    restore_all-AtPhases policy.recovery_cycles open_incidents (empty_tracker history_points events)
      (λ _ _. none) (λ host key. refl)
