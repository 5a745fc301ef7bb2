-- ===== src/Store/Slot.antt =====
-- What `StateStore` keeps of one GPU, and `_track_gpu_telemetry_locked` for one GPU of a sample. The
-- store's dictionaries with the same keys are one record: an entry that is missing is `none`, and
-- membership of a set is a Boolean. Indices of GPUs are taken to fit their packed form.
use mathlib.Core.Option
use mocop.Base.{
  ℕ, String, Bool, true, false, not, Option, none, some, List, [], ◌∷◌, ◌++◌, bounded,
  if◌then◌else◌, string_key, or_else,
}
use mocop.Base.Dict.{Dict, get, put, has, restrict, contains}
use mocop.Models.{GpuProcess, GpuMetrics}
use mocop.Processes.Types.{GpuProcessTransition, ProcessKey, process_key}
use mocop.Processes.Transitions.{
  process_transition, same_process_instance, sorted_items, reconcile_restored_processes, or_text,
}
use mocop.Processes.Inherit.{own_key}
use mocop.Telemetry.Json.{finite, packed_optional_float}
use mocop.Telemetry.Points.{GpuHistoryPoint}

pub record Slot : Type 0 where
  pub history : Option (List GpuHistoryPoint)
  pub events : Option (List GpuProcessTransition)
  pub active : Option (Dict ProcessKey GpuProcess)
  pub last_observed : Option String
  pub initialized : Bool
  pub pending : Bool

-- The last element of a deque.
abbrev pub last_of {ℓ} : {A : Type ℓ} → List A → Option A
last_of [] = none
last_of (x ∷ []) = some x
last_of (x ∷ y ∷ ys) = last_of (y ∷ ys)

abbrev pub last_point : Slot → Option GpuHistoryPoint
last_point s = last_of (or_else s.history [])

abbrev pub ring : Slot → List GpuProcessTransition
ring s = or_else s.events []

abbrev pub live : Slot → Dict ProcessKey GpuProcess
live s = or_else s.active []

-- The transitions of one event for the processes of a table.
unfoldable pub edges :
    String → String → ℕ → String → Bool → Dict ProcessKey GpuProcess → List GpuProcessTransition
edges at gpu_id index event visible [] = []
edges at gpu_id index event visible ((key, process) ∷ rest) =
    process_transition at gpu_id index event process visible
    ∷ edges at gpu_id index event visible rest

-- The loop over the replaced instances: each stops and starts again.
unfoldable pub replacements :
    String
    → String
    → ℕ
    → Dict ProcessKey GpuProcess
    → Dict ProcessKey GpuProcess
    → List GpuProcessTransition
replacements at gpu_id index previous [] = []
replacements at gpu_id index previous ((key, process) ∷ rest) =
    process_transition at gpu_id index "stopped" (or_else (get previous key) process) true
    ∷ process_transition at gpu_id index "started" process true
    ∷ replacements at gpu_id index previous rest

-- One round of the loop over a sample's processes, with what the previous table has for its key.
unfoldable pub stamp : String → GpuProcess → Option GpuProcess → GpuProcess × Bool
unfolding same_process_instance
stamp at process none = (record process { first_seen_at = some at }, false)
stamp at process (some prior) =
    if same_process_instance prior process
    then (record process { first_seen_at = some (or_text prior.first_seen_at at) }, false)
    else (record process { first_seen_at = some at }, true)

-- The table of a sample, and the keys whose process is another instance than before.
unfoldable pub stamp_all :
    String
    → Dict ProcessKey GpuProcess
    → List GpuProcess
    → Dict ProcessKey GpuProcess × List ProcessKey
    → Dict ProcessKey GpuProcess × List ProcessKey
stamp_all at previous [] acc = acc
stamp_all at previous (process ∷ rest) (current, replaced) =
    let key = own_key process in
    let (stamped, is_new) = stamp at process (get previous key) in
    stamp_all at previous rest
      (put current key stamped, if is_new then key ∷ replaced else replaced)

abbrev pub is_empty {ℓ} : {A : Type ℓ} → List A → Bool
is_empty [] = true
is_empty (x ∷ xs) = false

module _ (history_points event_points : ℕ) (at host_gpu_id : String) where
  -- `deque.extend`, on a ring that is made when there is none; no transitions make none.
  unfoldable pub extend : List GpuProcessTransition → Slot → Slot
  extend [] s = s
  extend (t ∷ ts) s = record s { events = some (bounded event_points (ring s ++ t ∷ ts)) }

  -- `_close_process_inventory_locked`, of the popped table and the popped time
  unfoldable pub close_process_inventory :
      ℕ → Option String → Dict ProcessKey GpuProcess → List GpuProcessTransition
  unfolding edges sorted_items
  close_process_inventory index none previous = []
  close_process_inventory index (some observed_at) previous =
      edges observed_at host_gpu_id index "stopped" false (sorted_items previous)

  -- The index of the last point of the history, or 0.
  unfoldable pub last_index : Option ℕ → Slot → ℕ
  last_index (some index) s = index
  last_index none s = elim (last_point s) [ none ↦ 0 | some point ↦ point.values.index ]

  unfoldable pub close_unobservable : Option ℕ → Slot → Slot × List GpuProcessTransition
  unfolding last_index
  close_unobservable index s =
      let closed = close_process_inventory (last_index index s) s.last_observed (live s) in
      (extend closed (record s { active = none; last_observed = none }), closed)

  unfoldable pub point_of : GpuMetrics → GpuHistoryPoint
  point_of gpu = record {
    observed_at = at;
    values = record {
      index = gpu.index;
      utilization_gpu_pct = packed_optional_float (Option.map finite gpu.utilization_gpu_pct);
      memory_used_mib = packed_optional_float (Option.map finite gpu.memory_used_mib);
      memory_total_mib = packed_optional_float (Option.map finite gpu.memory_total_mib);
      temperature_c = packed_optional_float (Option.map finite gpu.temperature_c);
      power_draw_w = packed_optional_float (Option.map finite gpu.power_draw_w);
    };
  }

  -- The first process table of a GPU: transitions that were restored are reconciled, and without any
  -- the processes start unseen. `current` is changed in place.
  unfoldable pub initial_table :
      ℕ
      → Option String
      → Dict ProcessKey GpuProcess
      → Bool
      → Slot
      → List GpuProcessTransition × Dict ProcessKey GpuProcess
  initial_table index previous_at current true s =
      reconcile_restored_processes (ring s) host_gpu_id index current at previous_at
  initial_table index previous_at current false s =
      (edges at host_gpu_id index "started" false (sorted_items current), current)

  unfoldable pub on_first_table :
      ℕ → Option String → Dict ProcessKey GpuProcess → Slot → Slot × List GpuProcessTransition
  on_first_table index previous_at current s =
      let (transitions, current') = initial_table index previous_at current s.pending s in
      (
        extend transitions
            (record s { active = some current'; initialized = true; pending = false }),
        transitions,
      )

  -- A table without processes: the first one is reconciled and not kept, a later one ends the runs.
  unfoldable pub on_empty_table : ℕ → Option String → Slot → Slot × List GpuProcessTransition
  on_empty_table index previous_at s =
      if not s.initialized
      then (let transitions =
            if s.pending
            then (reconcile_restored_processes (ring s) host_gpu_id index [] at previous_at).0
            else [] in
          (extend transitions (record s { initialized = true; pending = false }), transitions))
      else (let transitions = edges at host_gpu_id index "stopped" true (sorted_items (live s)) in
          (extend transitions (record s { active = none }), transitions))

  -- The transitions between two tables.
  unfoldable pub changes :
      ℕ
      → Dict ProcessKey GpuProcess
      → Dict ProcessKey GpuProcess
      → List ProcessKey
      → List GpuProcessTransition
  changes index previous current replaced =
      edges at host_gpu_id index "started" true
        (sorted_items (restrict (λ key. not (has previous key)) current))
      ++ (edges at host_gpu_id index "stopped" true
            (sorted_items (restrict (λ key. not (has current key)) previous))
          ++ replacements at host_gpu_id index previous
              (sorted_items (restrict (λ key. contains replaced key) current)))

  unfoldable pub on_next_table :
      ℕ → Dict ProcessKey GpuProcess × List ProcessKey → Slot → Slot × List GpuProcessTransition
  on_next_table index (current, replaced) s =
      let transitions = changes index (live s) current replaced in
      (extend transitions (record s { active = some current }), transitions)

  -- The process table of a GPU that was sampled and is available.
  unfoldable pub on_table :
      ℕ → Option String → List GpuProcess → Slot → Slot × List GpuProcessTransition
  on_table index previous_at [] s = on_empty_table index previous_at s
  on_table index previous_at (p ∷ ps) s =
      let (current, replaced) = stamp_all at (live s) (p ∷ ps) ([], []) in
      if not s.initialized
      then on_first_table index previous_at current s
      else on_next_table index (current, replaced) s

  -- One round of the loop over the GPUs.
  unfoldable pub observe_gpu : GpuMetrics → Slot → Slot × List GpuProcessTransition
  observe_gpu gpu s =
      let previous_at =
        Option.map (λ (point : GpuHistoryPoint). point.observed_at) (last_point s) in
      let sampled = record s {
        history = some (bounded history_points (or_else s.history [] ++ point_of gpu ∷ []));
      } in
      if not gpu.processes_sampled
      then (sampled, [])
      else if not gpu.processes_available
      then (let (closed, transitions) = close_unobservable (some gpu.index) sampled in
          (record closed { initialized = false }, transitions))
      else on_table gpu.index previous_at gpu.processes (record sampled { last_observed = some at })
