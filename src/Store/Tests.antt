-- ===== src/Store/Tests.antt =====
-- A GPU whose restored run is taken up by its first table, and whose process then ends.
use mocop.Base.{refl, true, false, none, some, List, [], ◌∷◌, string_key, arith, ◌++◌, length, ◌≤◌}
use mocop.Base.Int.{pos}
use mocop.Base.Dict.{get, put}
use mocop.Models.{GpuProcess, GpuMetrics}
use mocop.Processes.Types.{process_key}
use mocop.Processes.Transitions.{
  process_transition, reconcile_restored_processes, open_transitions, track_all, track,
  close_restored, begin_live, has_start, started_by, continues, is_same, sorted_items,
  close_restored_start,
}
use mocop.Store.Slot.{
  Slot, ring, observe_gpu, on_table, stamp_all, stamp, on_first_table, initial_table, extend,
}
use mocop.Store.InStep.{InStep}
use mocop.Store.Close.{
  invalidate, close_restored_inventory, close_restored_from, closures, Ended, invalidate-Ended,
}
use mocop.Store.Observe.{observe_gpu-InStep}
use mocop.Processes.Reconcile.{nil-Sound}
use mocop.Processes.Inherit.{own_key}

abbrev trainer : GpuProcess
trainer = record {
  pid = 7;
  name = "train";
  used_memory_mib = some (pos 100000);
  workload = none;
  first_seen_at = none;
}

abbrev device : List GpuProcess → GpuMetrics
device processes = record {
  index = 0;
  uuid = "GPU-0";
  name = "H100";
  driver_version = "550";
  pstate = none;
  temperature_c = some (pos 6000);
  utilization_gpu_pct = some (pos 9000);
  utilization_memory_pct = none;
  memory_total_mib = some (pos 8000000);
  memory_used_mib = some (pos 100000);
  memory_free_mib = none;
  power_draw_w = none;
  power_limit_w = none;
  processes = processes;
  processes_available = true;
  processes_sampled = true;
  processes_observed_at = none;
  health = none;
}

-- A restored run of another process.
abbrev restored : Slot
restored = record {
  history = none;
  events =
      some (process_transition "t0" "GPU-0" 0 "started" (record trainer { pid = 3 }) true ∷ []);
  active = none;
  last_observed = none;
  initialized = false;
  pending = true;
}

restored-InStep : InStep restored
restored-InStep = record { sound = (nil-Sound own_key); agrees = refl }

restored_room :
    length (ring restored ++ (observe_gpu 10 10 "t1" "GPU-0" (device (trainer ∷ [])) restored).1)
    ≤ 10
unfolding observe_gpu on_table stamp_all stamp on_first_table initial_table
    reconcile_restored_processes open_transitions track_all track close_restored begin_live
    has_start started_by continues is_same sorted_items process_transition get put
    close_restored_start extend
restored_room = omega arith

observe_gpu-InStep_example :
    InStep (observe_gpu 10 10 "t1" "GPU-0" (device (trainer ∷ [])) restored).0
observe_gpu-InStep_example =
    observe_gpu-InStep 10 10 "t1" "GPU-0" (device (trainer ∷ [])) restored restored-InStep
      restored_room

restored_room_left : length (ring restored ++ (invalidate 10 10 "t1" "GPU-0" restored).1) ≤ 10
unfolding invalidate close_restored_inventory close_restored_from closures close_restored_start
    open_transitions track_all track process_transition sorted_items put get
restored_room_left = omega arith

invalidate-Ended_example : Ended (invalidate 10 10 "t1" "GPU-0" restored).0
invalidate-Ended_example =
    invalidate-Ended 10 10 "t1" "GPU-0" restored restored-InStep restored_room_left
