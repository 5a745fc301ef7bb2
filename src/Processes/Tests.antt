-- ===== src/Processes/Tests.antt =====
-- The theorems about occupancy at concrete transitions and intervals.
use mocop.Base.{
  String, ◌≡◌, true, Option, none, some, List, [], ◌∷◌, All, if◌then◌else◌, ◌==◌, string_key,
}
use mocop.Base.Int.{Float, pos}
use mocop.Base.{◌++◌}
use mocop.Base.Dict.{Dict, put, has}
use mocop.Models.{GpuProcess}
use mocop.Processes.Types.{ProcessKey, process_key}
use mocop.Processes.Transitions.{open_transitions, reconcile_restored_processes}
use mocop.Processes.Inherit.{Sound, own_key}
use mocop.Processes.Reconcile.{single-Sound, reconcile_restored_processes-has}
use mocop.Processes.Types.{GpuProcessTransition}
use mocop.Processes.Occupancy.{Interval, pair_intervals, merge_intervals}
use mocop.Processes.Window.{Inside, pair_intervals-Inside}
use mocop.Processes.Merge.{covered, Disjoint, merge_intervals-covered}

-- A start at 10 and a stop at 90.
abbrev clock : Option String → Option Float
clock none = none
clock (some text) = some (if text == "start" then pos 10 else pos 90)

abbrev edge : String → String → GpuProcessTransition
edge event at = record {
  observed_at = at;
  gpu_id = "GPU-0";
  index = 0;
  event = event;
  pid = 7;
  name = "train";
  used_memory_mib = none;
  workload = none;
  visible = true;
  first_seen_at = none;
}

abbrev edges : List GpuProcessTransition
edges = edge "started" "start" ∷ edge "stopped" "stop" ∷ []

pair_intervals-Inside_example :
    All (Inside clock (pos 50) (pos 100)) (pair_intervals clock (pos 50) (pos 100) edges [] none).0
pair_intervals-Inside_example = pair_intervals-Inside clock (pos 50) (pos 100) edges [] none

abbrev piece : Float → Float → Interval
piece start end = record {
  start = start;
  end = end;
  owner = some "ada";
  kind = "process";
  sampled_seconds = pos 0;
  idle_seconds = pos 0;
}

abbrev pieces : List Interval
pieces = piece (pos 30) (pos 50) ∷ piece (pos 10) (pos 35) ∷ piece (pos 60) (pos 70) ∷ []

merge_intervals-covered_example :
    ((t : Float) → covered (merge_intervals pieces) t ≡ covered pieces t)
    × Disjoint (merge_intervals pieces)
merge_intervals-covered_example = merge_intervals-covered pieces

abbrev resident : GpuProcess
resident = record {
  pid = 7;
  name = "train";
  used_memory_mib = none;
  workload = none;
  first_seen_at = none;
}

abbrev live : Dict ProcessKey GpuProcess
live = put [] (own_key resident) resident

live-Sound : Sound own_key live
live-Sound = single-Sound resident

-- The restored ring has an open run of another process.
abbrev orphan : List GpuProcessTransition
orphan = record (edge "started" "start") { pid = 9 } ∷ []

reconcile_restored_processes-has_example :
    (has
        (open_transitions
          (orphan ++ (reconcile_restored_processes orphan "GPU-0" 0 live "t2" none).0))
        (9, "train")
      ≡ has live (9, "train"))
    × (has (reconcile_restored_processes orphan "GPU-0" 0 live "t2" none).1 (9, "train")
        ≡ has live (9, "train"))
reconcile_restored_processes-has_example =
    reconcile_restored_processes-has orphan "GPU-0" 0 live "t2" none live-Sound (9, "train")
