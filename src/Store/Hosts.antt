-- ===== src/Store/Hosts.antt =====
-- What `StateStore` of service.py keeps per host, and the methods that change which hosts it monitors.
-- Of the adapters and the incident actions it keeps nothing here.
use mathlib.Core.Option
use mocop.Base.{
  ℕ, ◌+◌, String, Bool, true, false, not, ◌&&◌, ◌||◌, Option, none, some, List, [], ◌∷◌,
  if◌then◌else◌, string_key, ◌==◌, or_else, bounded, nat_key,
}
use mocop.Base.Dict.{Dict, get, put, remove, has, restrict, contains, keys}
use mocop.Models.{ServerState, fresh_server}
use mocop.Incidents.Tracker.State.{Tracker, Runtime}
use mocop.Incidents.Tracker.Removal.{remove_hosts}
use mocop.Incidents.Policy.Overrides.{PolicyState, retain_hosts}
use mocop.Telemetry.Json.{Conversions, Document}
use mocop.Telemetry.Points.{HostHistoryPoint, host_from_dict}
use mocop.Store.Slot.{Slot}

-- The store's slots, host by host.
pub record Hosts : Type 0 where
  pub servers : Dict String ServerState
  pub incarnations : Dict String ℕ
  pub next_incarnation : ℕ
  pub history : Dict String (List HostHistoryPoint)
  pub slots : Dict String (Dict String Slot)
  pub identities : Dict String (List String)
  pub restored_history : Dict String (List Document)
  pub inventory_initialized : Bool
  pub tracker : Tracker
  pub policy : PolicyState
  pub tracker_version : ℕ
  pub incident_revision : ℕ
  pub version : ℕ
  pub collector_error : Option String

-- `_publish_locked`, with whether there are maintenance windows and those that are active are others
-- than at the last look
unfoldable pub publish_change : Bool → Hosts → Hosts
publish_change windows_changed h =
    let refreshed =
      if windows_changed
      then record h { incident_revision = h.incident_revision + 1; version = h.version + 1 }
      else h in
    record refreshed { version = refreshed.version + 1 }

-- `_sync_tracker_revision_locked`
unfoldable pub sync_tracker_revision : Hosts → Hosts
sync_tracker_revision h = if h.tracker.log.version == h.tracker_version then h else record h {
  tracker_version = h.tracker.log.version;
  incident_revision = h.incident_revision + 1;
}

-- The hosts that are monitored and are not wanted any more.
abbrev pub is_removed : List String → Hosts → String → Bool
is_removed hosts h host = has h.servers host && not (contains hosts host)

unfoldable pub any_removed : List String → List String → Bool
any_removed hosts [] = false
any_removed hosts (host ∷ monitored) = not (contains hosts host) || any_removed hosts monitored

unfoldable pub remove_servers : List String → Hosts → Hosts
remove_servers hosts h = record h {
  servers = restrict (λ host. contains hosts host) h.servers;
  incarnations = restrict (λ host. not (is_removed hosts h host)) h.incarnations;
  history = restrict (λ host. not (is_removed hosts h host)) h.history;
}

-- `stale`, of the hosts before the removal
abbrev pub is_stale : List String → Hosts → String → Bool
is_stale hosts h host =
    if not h.inventory_initialized then not (contains hosts host) else is_removed hosts h host

unfoldable pub drop_stale : (String → Bool) → Hosts → Hosts
drop_stale stale h = record h {
  slots = restrict (λ host. not (stale host)) h.slots;
  identities = restrict (λ host. not (stale host)) h.identities;
}

unfoldable pub initialize : List String → Hosts → Hosts
initialize hosts h = record h {
  restored_history = restrict (λ host. contains hosts host) h.restored_history;
  inventory_initialized = true;
}

-- The part of `set_hosts` before the loop that adds hosts.
unfoldable pub prepare : List String → Hosts → Hosts
prepare hosts h =
    let kept = remove_servers hosts h in
    let fresh =
      if not h.inventory_initialized || any_removed hosts (keys h.servers)
      then drop_stale (is_stale hosts h) kept
      else kept in
    if not h.inventory_initialized then initialize hosts fresh else fresh

module _ (c : Conversions) (history_points : ℕ) where
  -- A stored point that cannot be read raises.
  unfoldable pub restore_points : List Document → Option (List HostHistoryPoint)
  restore_points [] = some []
  restore_points (point ∷ points) =
      let rest = restore_points points in
      Option.bind (host_from_dict c point) (λ first. Option.map (λ others. first ∷ others) rest)

  unfoldable pub begin_host : String → List HostHistoryPoint → Hosts → Hosts
  begin_host host points h = record h {
    servers = put h.servers host (fresh_server host);
    incarnations = put h.incarnations host h.next_incarnation;
    next_incarnation = h.next_incarnation + 1;
    restored_history = remove h.restored_history host;
    history = put h.history host (bounded history_points points);
  }

  unfoldable pub add_restored :
      String → Option (List HostHistoryPoint) → Hosts → Option (Hosts × Bool)
  add_restored host none h = none
  add_restored host (some points) h = some (begin_host host points h, true)

  unfoldable pub add_host : String → Hosts × Bool → Option (Hosts × Bool)
  add_host host (h, changed) =
      if has h.servers host
      then some (h, changed)
      else add_restored host (restore_points (or_else (get h.restored_history host) [])) h

  unfoldable pub add_hosts : List String → Hosts × Bool → Option (Hosts × Bool)
  add_hosts [] state = some state
  add_hosts (host ∷ hosts) state = Option.bind (add_host host state) (add_hosts hosts)

  module _ (rt : Runtime) (windows_changed : Bool) where
    unfoldable pub finish : List String → Hosts × Bool → Hosts
    finish hosts (h, changed) =
        let synced = sync_tracker_revision (record h {
          tracker = remove_hosts rt hosts h.tracker;
          policy = retain_hosts hosts h.policy;
        }) in
        if changed then publish_change windows_changed synced else synced

    unfoldable pub set_hosts : List String → Hosts → Option Hosts
    set_hosts hosts h =
        Option.map (finish hosts)
          (add_hosts hosts (prepare hosts h, any_removed hosts (keys h.servers)))

-- `begin_poll`
unfoldable pub poll_from : String → Option ServerState → Hosts × Bool → Hosts × Bool
poll_from host none current = current
poll_from host (some state) (h, changed) =
    if state.polling
    then (h, changed)
    else (record h { servers = put h.servers host (record state { polling = true }) }, true)

unfoldable pub poll_host : String → Hosts × Bool → Hosts × Bool
poll_host host (h, changed) = poll_from host (get h.servers host) (h, changed)

unfoldable pub poll_hosts : List String → Hosts × Bool → Hosts × Bool
poll_hosts [] state = state
poll_hosts (host ∷ hosts) state = poll_hosts hosts (poll_host host state)

unfoldable pub begin_poll : Bool → List String → Hosts → Hosts
begin_poll windows_changed hosts h =
    let (polled, changed) = poll_hosts hosts (h, false) in
    if changed then publish_change windows_changed polled else polled

-- `host_incarnation`
abbrev pub host_incarnation : Hosts → String → Option ℕ
host_incarnation h host = get h.incarnations host

abbrev pub is_incarnation : Option ℕ → ℕ → Bool
is_incarnation none expected = false
is_incarnation (some incarnation) expected = incarnation == expected

-- Whether `apply` takes a result, by the incarnation with which its probe began.
unfoldable pub accepts : Hosts → String → Option ℕ → Bool
accepts h host none = has h.servers host
accepts h host (some expected) =
    has h.servers host && is_incarnation (host_incarnation h host) expected

-- `set_collector_error`
unfoldable pub same_message : Option String → Option String → Bool
same_message none none = true
same_message (some a) (some b) = a == b
same_message _ _ = false

unfoldable pub set_collector_error : Bool → Option String → Hosts → Hosts
set_collector_error windows_changed message h =
    if same_message message h.collector_error
    then h
    else publish_change windows_changed (record h { collector_error = message })

-- `reschedule_retry`, with the time that `utc_after` gives
unfoldable pub reschedule_from : Bool → String → String → Option ServerState → Hosts → Hosts
reschedule_from windows_changed host next_retry_at none h = h
reschedule_from windows_changed host next_retry_at (some state) h =
    if state.status == "online"
    then h
    else publish_change windows_changed (record h {
      servers = put h.servers host (record state { next_retry_at = some next_retry_at });
    })

unfoldable pub reschedule_retry : Bool → String → String → Hosts → Hosts
reschedule_retry windows_changed host next_retry_at h =
    reschedule_from windows_changed host next_retry_at (get h.servers host) h

-- The calls of these methods.
pub data HostCall : Type 0 where
  setting : List String → HostCall
  polling_of : List String → HostCall
  failing : Option String → HostCall
  rescheduling : String → String → HostCall

module _ (c : Conversions) (history_points : ℕ) (rt : Runtime) where
  -- With whether the active maintenance windows have changed.
  unfoldable pub call : Bool → HostCall → Hosts → Option Hosts
  call windows_changed (setting hosts) h = set_hosts c history_points rt windows_changed hosts h
  call windows_changed (polling_of hosts) h = some (begin_poll windows_changed hosts h)
  call windows_changed (failing message) h = some (set_collector_error windows_changed message h)
  call windows_changed (rescheduling host at) h = some (reschedule_retry windows_changed host at h)

  unfoldable pub call_all : List (Bool × HostCall) → Hosts → Option Hosts
  call_all [] h = some h
  call_all ((windows_changed, next) ∷ calls) h =
      Option.bind (call windows_changed next h) (call_all calls)
