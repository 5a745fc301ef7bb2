-- ===== src/Processes/Transitions.antt =====
-- process_transitions.py. The live process table is passed in and handed back.
use mocop.Base.{
  ℕ, String, Bool, true, false, not, ◌||◌, Option, none, some, List, [], ◌∷◌, ◌++◌, if◌then◌else◌,
  string_key, ◌==◌, or_else,
}
use mathlib.Core.Option
use mocop.Base.Int.{ltb_ℤ, pos}
use mocop.Base.Dict.{Dict, get, put, remove}
use mocop.Base.Sort.{sort_by, pair_leb}
use mocop.Models.{GpuProcess}
use mocop.Processes.Types.{
  Value, null, text, float, to_dict, GpuProcessTransition, ProcessKey, process_key, key_of,
}

unfoldable pub process_transition :
    String → String → ℕ → String → GpuProcess → Bool → GpuProcessTransition
unfolding to_dict
process_transition observed_at gpu_id gpu_index event process visible = record {
  observed_at = observed_at;
  gpu_id = gpu_id;
  index = gpu_index;
  event = event;
  pid = process.pid;
  name = process.name;
  used_memory_mib = process.used_memory_mib;
  workload = Option.map to_dict process.workload;
  visible = visible;
  first_seen_at = process.first_seen_at;
}

-- `process.workload.started_at if process.workload else None`
unfoldable pub workload_start : GpuProcess → Option String
workload_start process = elim process.workload [ none ↦ none | some workload ↦ workload.started_at ]

unfoldable pub same_process_instance : GpuProcess → GpuProcess → Bool
unfolding workload_start
same_process_instance previous current = elim (workload_start previous) [
  | none ↦ true
  | some started ↦ elim (workload_start current) [
    | none ↦ true
    | some started_now ↦ started == started_now
  ]
]

-- `not value` of a workload's value that may be missing
abbrev pub is_falsy : Option Value → Bool
is_falsy none = true
is_falsy (some null) = true
is_falsy (some (text s)) = s == ""
is_falsy (some (float x)) = not (ltb_ℤ x (pos 0) || ltb_ℤ (pos 0) x)

-- `value == s`
abbrev equals_text : Option Value → String → Bool
equals_text (some (text t)) s = t == s
equals_text _ s = false

-- `event.workload.get("started_at")` of a workload that is a dictionary
unfoldable pub event_start : GpuProcessTransition → Option Value
event_start event = elim event.workload [ none ↦ none | some workload ↦ get workload "started_at" ]

unfoldable pub transition_matches_process : GpuProcessTransition → GpuProcess → Bool
unfolding event_start workload_start
transition_matches_process event process =
    let process_start = or_else (workload_start process) "" in
    is_falsy (event_start event)
    || process_start == ""
    || equals_text (event_start event) process_start

-- One round of the loop of `open_transitions`.
unfoldable pub track :
    GpuProcessTransition
    → Dict ProcessKey GpuProcessTransition
    → Dict ProcessKey GpuProcessTransition
track event open_events =
    if event.event == "started"
    then put open_events (key_of event) event
    else remove open_events (key_of event)

unfoldable pub track_all :
    List GpuProcessTransition
    → Dict ProcessKey GpuProcessTransition
    → Dict ProcessKey GpuProcessTransition
track_all [] open_events = open_events
track_all (event ∷ events) open_events = track_all events (track event open_events)

unfoldable pub open_transitions : List GpuProcessTransition → Dict ProcessKey GpuProcessTransition
open_transitions events = track_all events []

-- `text or other` of an optional text: the empty text counts as missing.
abbrev pub or_text : Option String → String → String
or_text none other = other
or_text (some s) other = if s == "" then other else s

unfoldable pub close_restored_start :
    GpuProcessTransition → String → Option Bool → GpuProcessTransition
close_restored_start event close_at visible = record event {
  observed_at = close_at;
  event = "stopped";
  first_seen_at = some (or_text event.first_seen_at event.observed_at);
  visible = or_else visible event.visible;
}

-- `sorted(d.items())` of a table of processes
unfoldable pub sorted_items {ℓ} : {A : Type ℓ} → Dict ProcessKey A → Dict ProcessKey A
unfolding pair_leb
sorted_items d = sort_by (λ x y. pair_leb x.0 y.0) d

-- Whether the process that a restored start names is listed and is that process.
unfoldable pub is_same : GpuProcessTransition → Option GpuProcess → Bool
is_same event none = false
is_same event (some process) = transition_matches_process event process

unfoldable pub continues : Dict ProcessKey GpuProcess → ProcessKey → GpuProcessTransition → Bool
continues current key event = is_same event (get current key)

-- `current[process_key] = replace(process, first_seen_at=event.observed_at)`
unfoldable pub inherit_as :
    GpuProcessTransition
    → ProcessKey
    → Option GpuProcess
    → Dict ProcessKey GpuProcess
    → Dict ProcessKey GpuProcess
inherit_as event key none current = current
inherit_as event key (some process) current =
    put current key (record process { first_seen_at = some event.observed_at })

unfoldable pub inherit :
    Dict ProcessKey GpuProcess → ProcessKey → GpuProcessTransition → Dict ProcessKey GpuProcess
inherit current key event = inherit_as event key (get current key) current

-- The first loop: the stops, and the table that it leaves.
unfoldable pub close_restored :
    String
    → Dict ProcessKey GpuProcessTransition
    → Dict ProcessKey GpuProcess
    → List GpuProcessTransition × Dict ProcessKey GpuProcess
close_restored close_at [] current = ([], current)
close_restored close_at ((key, event) ∷ open_events) current =
    let matched = continues current key event in
    let rest =
      close_restored close_at open_events
        (if matched then inherit current key event else current) in
    if matched then rest else (close_restored_start event close_at none ∷ rest.0, rest.1)

-- Whether a live process has a restored start that is its own.
unfoldable pub started_by : Option GpuProcessTransition → GpuProcess → Bool
started_by none process = false
started_by (some event) process = transition_matches_process event process

unfoldable pub has_start : Dict ProcessKey GpuProcessTransition → ProcessKey → GpuProcess → Bool
has_start open_events key process = started_by (get open_events key) process

-- The second loop.
unfoldable pub begin_live :
    String
    → String
    → ℕ
    → Dict ProcessKey GpuProcessTransition
    → Dict ProcessKey GpuProcess
    → List GpuProcessTransition
begin_live observed_at gpu_id gpu_index open_events [] = []
begin_live observed_at gpu_id gpu_index open_events ((key, process) ∷ current) =
    let rest = begin_live observed_at gpu_id gpu_index open_events current in
    if has_start open_events key process
    then rest
    else process_transition observed_at gpu_id gpu_index "started" process true ∷ rest

unfoldable pub reconcile_restored_processes :
    List GpuProcessTransition
    → String
    → ℕ
    → Dict ProcessKey GpuProcess
    → String
    → Option String
    → List GpuProcessTransition × Dict ProcessKey GpuProcess
reconcile_restored_processes events gpu_id gpu_index current observed_at previous_gpu_observed_at =
    let open_events = open_transitions events in
    let close_at = or_text previous_gpu_observed_at observed_at in
    let (stops, current') = close_restored close_at (sorted_items open_events) current in
    (stops ++ begin_live observed_at gpu_id gpu_index open_events (sorted_items current'), current')
