-- ===== src/Telemetry/Tests.antt =====
-- The round trips at concrete records.
use mocop.Base.{◌^◌, ◌≡◌, true, false, none, some, [], ◌∷◌, if◌then◌else◌, ltb, arith}
use mocop.Base.Int.{pos}
use mocop.Processes.Types.{text, GpuProcessTransition}
use mocop.Telemetry.Json.{Conversions, nan, finite}
use mocop.Telemetry.Points.{
  HostHistoryPoint, GpuHistoryPoint, create_host, host_from_dict, host_to_dict, gpu_from_dict,
  gpu_to_dict, transition_from_dict, persistence_dict, transition_to_dict,
}
use mocop.Telemetry.RoundTrip.{
  host_from_dict-host_to_dict, gpu_from_dict-gpu_to_dict, transition_from_dict-persistence_dict,
}

abbrev conversions : Conversions
conversions = record {
  unit = 100;
  other_str = λ json. "";
  other_int = λ json. none;
  other_float = λ json. none;
}

abbrev host_point : HostHistoryPoint
host_point =
    create_host conversions "t1" none (finite (pos 4000)) (finite (pos 0)) (finite (pos 7000)) none
      none none none (some (finite (pos 9900))) none none true

host_from_dict-host_to_dict_example :
    host_from_dict conversions (host_to_dict conversions host_point) ≡ some host_point
host_from_dict-host_to_dict_example =
    host_from_dict-host_to_dict conversions "t1" none (finite (pos 4000)) (finite (pos 0))
      (finite (pos 7000)) none none none none (some (finite (pos 9900))) none none true
      (omega arith)

abbrev gpu_point : GpuHistoryPoint
gpu_point = record {
  observed_at = "t1";
  values = record {
    index = 3;
    utilization_gpu_pct = finite (pos 100);
    memory_used_mib = nan;
    memory_total_mib = nan;
    temperature_c = finite (pos 6000);
    power_draw_w = nan;
  };
}

gpu_from_dict-gpu_to_dict_example :
    gpu_from_dict conversions (gpu_to_dict conversions "GPU-0" gpu_point)
    ≡ (if ltb 3 (2 ^ 31) then some gpu_point else none)
gpu_from_dict-gpu_to_dict_example = gpu_from_dict-gpu_to_dict conversions "GPU-0" gpu_point

abbrev stopped : GpuProcessTransition
stopped = record {
  observed_at = "t2";
  gpu_id = "GPU-0";
  index = 0;
  event = "stopped";
  pid = 7;
  name = "train";
  used_memory_mib = some (pos 400);
  workload = some (("owner", text "ada") ∷ []);
  visible = false;
  first_seen_at = some "t1";
}

transition_from_dict-persistence_dict_example :
    (transition_from_dict conversions (persistence_dict conversions stopped) ≡ some stopped)
    × (transition_from_dict conversions (transition_to_dict conversions stopped)
        ≡ some (record stopped { visible = true }))
transition_from_dict-persistence_dict_example =
    transition_from_dict-persistence_dict conversions stopped
