-- ===== src/Incidents/Policy/Observed.antt =====
-- `observed_domains` and `condition_observed`: the telemetry for which a sample carries fresh data.
use Prim.Native.String.{◌++◌ as join}
use mocop.Base.{
  String, Bool, true, false, not, ◌&&◌, Option, none, some, List, [], ◌∷◌, all, if◌then◌else◌,
  string_key, ◌==◌, is_some, ◌++◌,
}
use mocop.Base.Int.{pos, ltb_ℤ}
use mocop.Base.Dict.{contains}
use mocop.Models.{
  ProbeResult, online, SystemMetrics, PressureStallMetrics, GpuMetrics, GpuHealthMetrics,
}
use mocop.Incidents.Domains.{condition_domains, partition}
use mocop.Incidents.Policy.Conditions.{gpu_identity, gpu_query_failed}

-- A domain that is added under a test.
abbrev when : Bool → String → List String
when b domain = if b then domain ∷ [] else []

unfoldable pub pressure_domains : Option PressureStallMetrics → List String
pressure_domains none = []
pressure_domains (some pressure) =
    when (is_some pressure.memory) "pressure:memory" ++ when (is_some pressure.io) "pressure:io"

unfoldable pub system_domains : Option SystemMetrics → List String
unfolding pressure_domains
system_domains none = []
system_domains (some system) =
    "system" ∷ when (is_some system.cpu_usage_pct) "system_cpu" ++ pressure_domains system.pressure

unfoldable pub health_domains : String → Option GpuHealthMetrics → List String
health_domains identity none = []
health_domains identity (some health) =
    (join "gpu_health:" identity)
    ∷ when (is_some health.ecc_uncorrected_volatile) (join "gpu_ecc:" identity)

-- Whether both sizes are known and the total is positive.
unfoldable pub memory_known : GpuMetrics → Bool
memory_known gpu =
    is_some gpu.memory_used_mib
    && elim gpu.memory_total_mib [ none ↦ false | some total ↦ ltb_ℤ (pos 0) total ]

-- One round of the loop over the GPUs.
unfoldable pub gpu_domains : GpuMetrics → List String
unfolding gpu_identity memory_known health_domains
gpu_domains gpu =
    let identity = gpu_identity gpu in
    (join "gpu_present:" identity)
      ∷ when (is_some gpu.temperature_c) (join "gpu_temperature:" identity)
    ++ when (memory_known gpu) (join "gpu_memory:" identity)
    ++ when (is_some gpu.utilization_gpu_pct) (join "gpu_utilization:" identity)
    ++ health_domains identity gpu.health

unfoldable pub gpus_domains : List GpuMetrics → List String
unfolding gpu_domains
gpus_domains [] = []
gpus_domains (gpu ∷ gpus) = gpu_domains gpu ++ gpus_domains gpus

unfoldable pub query_domains : ProbeResult → List String
unfolding gpus_domains gpu_query_failed
query_domains result =
    if gpu_query_failed result
    then []
    else "gpu_query"
        ∷ "gpu_inventory"
        ∷ when (all (λ gpu. gpu.processes_sampled) result.gpus) "gpu_processes"
      ++ gpus_domains result.gpus

-- The set as a list: each test of membership reads it alike.
unfoldable pub observed_domains : ProbeResult → List String
unfolding system_domains query_domains
observed_domains result =
    if not (online result) then [] else system_domains result.system ++ query_domains result

unfoldable pub condition_observed : ProbeResult → String → Bool
unfolding observed_domains condition_domains contains partition
condition_observed result key =
    if key == "connectivity"
    then true
    else let observed = observed_domains result in
      all (λ domain. contains observed domain) (condition_domains (partition key).0 key)
