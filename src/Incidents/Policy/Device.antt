-- ===== src/Incidents/Policy/Device.antt =====
-- The GPU blocks of `conditions`, and `gpu_health_conditions` of incident_health.py.
use Prim.Native.String.{◌++◌}
use mocop.Base.{
  ℕ, String, Bool, true, false, not, ◌&&◌, ◌||◌, Option, none, some, List, [], ◌∷◌, any,
  if◌then◌else◌, string_key, ltb, or_else,
}
use mocop.Base.Int.{Float, pos, leb_ℤ, ltb_ℤ, ◌+ℤ◌, ◌-ℤ◌}
use mocop.Base.Dict.{put}
use mocop.Base.Text.{str_nat}
use mocop.Models.{ProbeResult, online, GpuMetrics, GpuHealthMetrics}
use mocop.Incidents.Types.{Severity, warning, critical, IncidentCondition}
use mocop.Incidents.Policy.Config.{Arithmetic, number, ThresholdConfig, IncidentConfig}
use mocop.Incidents.Policy.Conditions.{
  Conditions, Metric, percentage, plain, flag, gpu_identity, add_percentage, connectivity,
  add_availability, add_count,
}
use mocop.Incidents.Policy.Host.{add_system}

module _ (a : Arithmetic) (incidents : IncidentConfig) where
  -- A hardware condition: no value band, confirmed like the other resource conditions.
  abbrev hardware :
      String
      → String
      → String
      → Severity
      → Option Float
      → Option Float
      → String
      → String
      → IncidentCondition
  hardware key category resource severity value threshold observed_at detail =
      plain a incidents key category resource severity value threshold observed_at (some detail)
        incidents.resource_open_cycles incidents.resource_open_seconds

  unfoldable pub add_ecc : GpuMetrics → String → String → GpuHealthMetrics → Conditions → Conditions
  unfolding plain str_nat
  add_ecc gpu identity observed_at health conditions =
      let count = or_else health.ecc_uncorrected_volatile 0 in
      let key = "gpu_ecc:" ++ identity in
      if ltb 0 count
      then put conditions key (
          hardware key "gpu_ecc" ("GPU " ++ str_nat gpu.index ++ " ECC") critical
            (some (number a count)) (some (pos 0)) observed_at
            "Volatile uncorrected ECC errors detected")
      else conditions

  unfoldable pub add_memory_repair :
      GpuMetrics → String → String → GpuHealthMetrics → Conditions → Conditions
  unfolding plain str_nat
  add_memory_repair gpu identity observed_at health conditions =
      let key = "gpu_memory_repair:" ++ identity in
      if flag health.retired_pages_pending || flag health.remapped_rows_pending
      then put conditions key (
          hardware key "gpu_memory_repair" ("GPU " ++ str_nat gpu.index ++ " memory") critical none
            none observed_at "GPU memory repair is pending")
      else conditions

  -- `', '.join(causes)`
  unfoldable pub slowdown_causes : Bool → Bool → String
  slowdown_causes true true = "thermal, power brake"
  slowdown_causes true false = "thermal"
  slowdown_causes false true = "power brake"
  slowdown_causes false false = ""

  unfoldable pub add_slowdown :
      GpuMetrics → String → String → GpuHealthMetrics → Conditions → Conditions
  unfolding plain str_nat slowdown_causes
  add_slowdown gpu identity observed_at health conditions =
      let key = "gpu_slowdown:" ++ identity in
      let thermal = flag health.thermal_slowdown in
      let power = flag health.power_brake_slowdown in
      if thermal || power
      then put conditions key (
          hardware key "gpu_slowdown" ("GPU " ++ str_nat gpu.index)
            (if thermal then critical else warning) none none observed_at
            ("Hardware slowdown active: " ++ slowdown_causes thermal power))
      else conditions

  -- `conditions.update(gpu_health_conditions(...))`
  unfoldable pub add_health :
      GpuMetrics → String → String → Option GpuHealthMetrics → Conditions → Conditions
  unfolding add_ecc add_memory_repair add_slowdown
  add_health gpu identity observed_at none conditions = conditions
  add_health gpu identity observed_at (some health) conditions =
      add_slowdown gpu identity observed_at health (
        add_memory_repair gpu identity observed_at health
          (add_ecc gpu identity observed_at health conditions))

  unfoldable pub add_processes : ProbeResult → Conditions → Conditions
  unfolding plain
  add_processes result conditions =
      if any (λ gpu. gpu.processes_sampled && not gpu.processes_available) result.gpus
      then put conditions "gpu_processes" (
          hardware "gpu_processes" "gpu_processes" "GPU processes" warning none none
            result.observed_at "GPU process telemetry is unavailable")
      else conditions

  -- The share of VRAM in use, where both sizes are known.
  unfoldable pub memory_pct : GpuMetrics → Option Float
  unfolding percentage
  memory_pct gpu = elim gpu.memory_used_mib [
    | none ↦ none
    | some used ↦ elim gpu.memory_total_mib [
      | none ↦ none
      | some total ↦ if ltb_ℤ (pos 0) total then some (percentage a incidents used total) else none
    ]
  ]

  module _ (th : ThresholdConfig) (observed_at : String) where
    -- VRAM held while the device idles; both lines carry the recovery margin.
    unfoldable pub add_idle_memory :
        GpuMetrics → String → Option Float → Option Float → Conditions → Conditions
    unfolding str_nat ◌-ℤ◌ ◌+ℤ◌
    add_idle_memory gpu identity (some held) (some utilization) conditions =
        let key = "gpu_idle_memory:" ++ identity in
        let margin = incidents.recovery_margin in
        if leb_ℤ (th.gpu_idle_memory_pct -ℤ margin) held
          && ltb_ℤ utilization (th.gpu_busy_pct +ℤ margin)
          && ltb_ℤ (pos 0) (or_else gpu.memory_used_mib (pos 0))
        then put conditions key (record {
          key = key;
          category = "gpu_idle_memory";
          resource = "GPU " ++ str_nat gpu.index ++ " VRAM";
          severity = warning;
          value = some held;
          threshold = some th.gpu_idle_memory_pct;
          observed_at = observed_at;
          detail = some ("GPU utilization is " ++ a.str_float (a.round2 utilization) ++ "%");
          open_after_cycles = incidents.gpu_idle_memory_cycles;
          recovery_cycles = incidents.recovery_cycles;
          group_key = none;
          open_after_seconds = incidents.gpu_idle_memory_seconds;
          below_threshold = ltb_ℤ held th.gpu_idle_memory_pct || leb_ℤ th.gpu_busy_pct utilization;
          critical_at = none;
          recovery_margin = margin;
        })
        else conditions
    add_idle_memory gpu identity _ _ conditions = conditions

    -- One round of the loop over the GPUs.
    unfoldable pub add_gpu : GpuMetrics → Conditions → Conditions
    unfolding gpu_identity str_nat memory_pct add_percentage add_idle_memory add_health ◌+ℤ◌
    add_gpu gpu conditions =
        let identity = gpu_identity gpu in
        let held = memory_pct gpu in
        let temperature : Metric = record {
          key = "gpu_temperature:" ++ identity;
          category = "gpu_temperature";
          resource = "GPU " ++ str_nat gpu.index;
          value = gpu.temperature_c;
          threshold = th.gpu_temperature_warning_c;
          critical_at = th.gpu_temperature_warning_c +ℤ number a 5;
          group_key = none;
          detail = none;
        } in
        let memory : Metric = record {
          key = "gpu_memory:" ++ identity;
          category = "gpu_memory";
          resource = "GPU " ++ str_nat gpu.index ++ " VRAM";
          value = held;
          threshold = th.gpu_memory_warning_pct;
          critical_at = number a 95;
          group_key = none;
          detail = none;
        } in
        add_health gpu identity observed_at gpu.health (
          add_idle_memory gpu identity held gpu.utilization_gpu_pct (
            add_percentage a incidents memory observed_at
              (add_percentage a incidents temperature observed_at conditions)))

    unfoldable pub add_gpus : List GpuMetrics → Conditions → Conditions
    add_gpus [] conditions = conditions
    add_gpus (gpu ∷ gpus) conditions = add_gpus gpus (add_gpu gpu conditions)

  -- `conditions(result)` with the host's thresholds, excluded mounts and expected GPU count.
  unfoldable pub conditions_of : ThresholdConfig → List String → Option ℕ → ProbeResult → Conditions
  unfolding connectivity add_availability add_count add_system add_processes add_gpu add_gpus
  conditions_of th excluded expected result =
      if not (online result)
      then connectivity a incidents result
      else add_gpus th result.observed_at result.gpus (
          add_processes result (
            add_system a incidents th result.observed_at excluded result.system
              (add_count a incidents expected result (add_availability a incidents result []))))
