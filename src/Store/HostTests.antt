-- ===== src/Store/HostTests.antt =====
-- A host that is added, polled, removed and added again.
use mathlib.Core.Option
use mocop.Base.{String, Bool, false, none, some, List, [], ◌∷◌, ◌≡◌, refl, or_else, string_key}
use mocop.Base.Int.{pos}
use mocop.Base.Dict.{
  get, put, remove, restrict, contains, distinct, contains-distinct, distinct-IsDistinct,
}
use mocop.Telemetry.Json.{Conversions}
use mocop.Incidents.Policy.Overrides.{start}
use mocop.Incidents.Tracker.State.{Runtime, Tracker}
use mocop.Incidents.Tracker.Removal.{remove_hosts, remove_each}
use mocop.Store.Hosts.{
  Hosts, publish_change, sync_tracker_revision, remove_servers, drop_stale, initialize, prepare,
  any_removed, restore_points, begin_host, add_restored, add_host, add_hosts, finish, set_hosts,
  poll_from, poll_host, poll_hosts, begin_poll, host_incarnation, accepts, HostCall, setting,
  polling_of, call, call_all,
}
use mocop.Store.Removal.{set_hosts-accepts}

abbrev conversions : Conversions
conversions = record {
  unit = 100;
  other_str = λ json. "";
  other_int = λ json. none;
  other_float = λ json. none;
}

abbrev runtime : Runtime
runtime = record {
  epoch_seconds = λ text. none;
  set_order = distinct;
  set_order-contains = contains-distinct;
  set_order-IsDistinct = distinct-IsDistinct;
}

abbrev tracker : Tracker
tracker = record {
  active = [];
  candidates = [];
  recoveries = [];
  severity_changes = [];
  opened_at = [];
  last_observed_at = [];
  log = record { events = []; history_points = 10; version = 0; next_event_id = 1 };
}

abbrev empty : Hosts
empty = record {
  servers = [];
  incarnations = [];
  next_incarnation = 1;
  history = [];
  slots = [];
  identities = [];
  restored_history = [];
  inventory_initialized = false;
  tracker = tracker;
  policy =
      start
        (record {
          cpu_warning_pct = pos 8500;
          memory_warning_pct = pos 9000;
          swap_warning_pct = pos 5000;
          disk_warning_pct = pos 8500;
          disk_min_free_gib = pos 500;
          psi_memory_some_pct = pos 2000;
          psi_io_some_pct = pos 3000;
          gpu_temperature_warning_c = pos 8000;
          gpu_busy_pct = pos 1000;
          gpu_memory_warning_pct = pos 9000;
          gpu_idle_memory_pct = pos 2000;
        })
        [] [] [] [];
  tracker_version = 0;
  incident_revision = 0;
  version = 0;
  collector_error = none;
}

abbrev before : List (Bool × HostCall)
before = (false, setting ("a" ∷ "b" ∷ [])) ∷ (false, polling_of ("a" ∷ [])) ∷ []

abbrev after : List (Bool × HostCall)
after = (false, setting ("a" ∷ "b" ∷ [])) ∷ []

abbrev old : Hosts
old = or_else (call_all conversions 10 runtime before empty) empty

abbrev removed : Hosts
removed = or_else (set_hosts conversions 10 runtime false ("b" ∷ []) old) empty

abbrev new : Hosts
new = or_else (call_all conversions 10 runtime after removed) empty

no_others : contains {K = String} ("b" ∷ []) "a" ≡ false
unfolding contains
no_others = refl

-- What the calls compute.
runs :
    (call_all conversions 10 runtime before empty ≡ some old)
    × (host_incarnation old "a" ≡ some 1)
    × (set_hosts conversions 10 runtime false ("b" ∷ []) old ≡ some removed)
    × (call_all conversions 10 runtime after removed ≡ some new)
unfolding call_all call set_hosts add_hosts add_host add_restored restore_points begin_host prepare
    remove_servers drop_stale initialize finish sync_tracker_revision publish_change any_removed
    begin_poll poll_hosts poll_host poll_from get put restrict contains remove Option.bind
    remove_hosts remove_each distinct
runs = (refl, refl, refl, refl)

set_hosts-accepts_example : accepts new "a" (some 1) ≡ false
set_hosts-accepts_example =
    set_hosts-accepts conversions 10 runtime false before after ("b" ∷ []) "a" 1 empty old removed
      new refl runs.0 runs.1 no_others runs.2 runs.3
