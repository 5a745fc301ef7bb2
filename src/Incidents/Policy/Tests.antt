-- ===== src/Incidents/Policy/Tests.antt =====
-- The theorems about the policy at concrete configurations and samples.
use mocop.Base.{◌≡◌, refl, true, none, some, List, [], ◌∷◌, all, string_key}
use mocop.Base.Int.{pos}
use mocop.Base.Dict.{get, put, contains, distinct, restrict}
use mocop.Models.{ProbeResult}
use mocop.Incidents.Domains.{telemetry_unknown}
use mocop.Incidents.Policy.Config.{ThresholdConfig, Arithmetic, IncidentConfig}
use mocop.Incidents.Policy.Device.{conditions_of}
use mocop.Incidents.Policy.Sample.{conditions, conditions-conditions_of}
use mocop.Incidents.Policy.Conditions.{gpu_query_failed}
use mocop.Incidents.Policy.Observed.{observed_domains}
use mocop.Incidents.Policy.Overrides.{
  IncidentScopeOverrideConfig, PolicyState, start, thresholds_for, computed_thresholds,
  excluded_disk_mounts, computed_exclusions, thresholds_from, exclusions_from, group_override,
  apply_thresholds, update_thresholds, set_threshold, mounts_of, update_overrides, retain_hosts,
}
use mocop.Incidents.Policy.Coherent.{
  Coherent, PolicyCall, perform, read_thresholds, set_overrides, retain, perform_all,
  start-Coherent, thresholds_for-perform_all,
}
use mocop.Incidents.Policy.Blind.{query_failure-telemetry_unknown}

abbrev thresholds : ThresholdConfig
thresholds = record {
  cpu_warning_pct = pos 8500;
  memory_warning_pct = pos 9000;
  swap_warning_pct = pos 5000;
  disk_warning_pct = pos 8500;
  disk_min_free_gib = pos 500;
  psi_memory_some_pct = pos 2000;
  psi_io_some_pct = pos 3000;
  gpu_temperature_warning_c = pos 8000;
  gpu_busy_pct = pos 1000;
  gpu_memory_warning_pct = pos 9000;
  gpu_idle_memory_pct = pos 2000;
}

abbrev lenient : IncidentScopeOverrideConfig
lenient = record {
  thresholds = ("cpu_warning_pct", pos 9500) ∷ [];
  exclude_disk_mounts = "/scratch" ∷ [];
}

abbrev configured : PolicyState
configured = start thresholds [] [] [] []

abbrev calls : List PolicyCall
calls =
    read_thresholds "gpu-1"
    ∷ set_overrides [] (("lab", lenient) ∷ []) (("gpu-1", "lab") ∷ [])
    ∷ read_thresholds "gpu-1"
    ∷ retain ("gpu-1" ∷ [])
    ∷ []

thresholds_for-perform_all_example :
    ((thresholds_for (perform_all calls configured) "gpu-1").0
      ≡ computed_thresholds (perform_all calls configured) "gpu-1")
    × ((excluded_disk_mounts (perform_all calls configured) "gpu-1").0
        ≡ computed_exclusions (perform_all calls configured) "gpu-1")
thresholds_for-perform_all_example =
    thresholds_for-perform_all calls configured (start-Coherent thresholds [] [] [] []) "gpu-1"

-- The override of the group is in force.
override_in_force :
    ((thresholds_for (perform_all calls configured) "gpu-1").0.cpu_warning_pct ≡ pos 9500)
    × ((excluded_disk_mounts (perform_all calls configured) "gpu-1").0 ≡ "/scratch" ∷ [])
unfolding thresholds_for thresholds_from excluded_disk_mounts exclusions_from perform_all perform
    start computed_thresholds computed_exclusions group_override apply_thresholds update_thresholds
    set_threshold mounts_of update_overrides retain_hosts get put contains distinct restrict
override_in_force = (refl, refl)

abbrev failed : ProbeResult
failed = record {
  host = "gpu-1";
  status = "online";
  latency_ms = 4;
  gpus = [];
  message = some "nvidia-smi query failed";
  observed_at = "t1";
  system = none;
  transport_retries = 0;
}

failed_query : gpu_query_failed failed ≡ true
unfolding gpu_query_failed contains
failed_query = refl

query_failure-telemetry_unknown_example :
    all
      (λ category. telemetry_unknown category "gpu_count" (observed_domains failed))
      ("gpu_availability" ∷ "gpu_count" ∷ "gpu_processes" ∷ [])
    ≡ true
query_failure-telemetry_unknown_example =
    query_failure-telemetry_unknown failed "gpu_count" failed_query

abbrev arithmetic : Arithmetic
arithmetic = record {
  unit = 100;
  percent_of = λ used total. used;
  round2 = λ x. x;
  str_float = λ x. "";
}

abbrev settings : IncidentConfig
settings = record {
  resource_open_cycles = 2;
  recovery_cycles = 2;
  gpu_idle_memory_cycles = 12;
  resource_open_seconds = pos 6000;
  gpu_idle_memory_seconds = pos 30000;
  recovery_margin = pos 500;
}

conditions-conditions_of_example :
    ((conditions arithmetic settings configured failed).0
      ≡ conditions_of arithmetic settings
          (computed_thresholds configured "gpu-1")
          (computed_exclusions configured "gpu-1")
          (get configured.expected_gpu_counts "gpu-1")
          failed)
    × Coherent (conditions arithmetic settings configured failed).1
conditions-conditions_of_example =
    conditions-conditions_of arithmetic settings configured failed
      (start-Coherent thresholds [] [] [] [])
