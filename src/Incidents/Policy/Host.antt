-- ===== src/Incidents/Policy/Host.antt =====
-- The host blocks of `conditions`: CPU, memory, swap, pressure stalls and disks.
use Prim.Native.String.{◌++◌}
use mocop.Base.{String, Option, none, some, List, [], ◌∷◌, if◌then◌else◌, string_key}
use mocop.Base.Int.{Float, pos, leb_ℤ, ltb_ℤ, ◌*ℤ◌}
use mocop.Base.Dict.{contains}
use mocop.Models.{SystemMetrics, DiskMetrics, PressureStallSample, PressureStallMetrics}
use mocop.Incidents.Policy.Config.{Arithmetic, number, ThresholdConfig, IncidentConfig}
use mocop.Incidents.Policy.Conditions.{
  Conditions, Metric, percentage, add_percentage, network_disk_group_key,
}

module _ (a : Arithmetic) (incidents : IncidentConfig) (th : ThresholdConfig)
    (observed_at : String) where
  abbrev simple : String → String → Option Float → Float → Float → Metric
  simple name resource value threshold critical_at = record {
    key = name;
    category = name;
    resource = resource;
    value = value;
    threshold = threshold;
    critical_at = critical_at;
    group_key = none;
    detail = none;
  }

  unfoldable pub add_host : SystemMetrics → Conditions → Conditions
  unfolding percentage add_percentage
  add_host system conditions =
      let cpu = simple "cpu" "CPU" system.cpu_usage_pct th.cpu_warning_pct (number a 95) in
      let memory =
        simple "memory" "RAM"
          (some (percentage a incidents system.memory_used_mib system.memory_total_mib))
          th.memory_warning_pct (number a 95) in
      let swap =
        simple "swap" "Swap"
          (some (percentage a incidents system.swap_used_mib system.swap_total_mib))
          th.swap_warning_pct (number a 90) in
      let conditions = add_percentage a incidents cpu observed_at conditions in
      let conditions = add_percentage a incidents memory observed_at conditions in
      if ltb_ℤ (pos 0) system.swap_total_mib
      then add_percentage a incidents swap observed_at conditions
      else conditions

  -- One round of the loop over the two PSI resources.
  unfoldable pub add_pressure :
      String → String → Float → Option PressureStallSample → Conditions → Conditions
  unfolding add_percentage ◌*ℤ◌
  add_pressure resource label threshold none conditions = conditions
  add_pressure resource label threshold (some sample) conditions =
      let doubled = threshold *ℤ pos 2 in
      add_percentage a incidents
        (record {
          key = "pressure:" ++ resource;
          category = "pressure";
          resource = label ++ " pressure";
          value = some sample.some_avg60;
          threshold = threshold;
          critical_at = if leb_ℤ doubled (number a 100) then doubled else number a 100;
          group_key = none;
          detail = some (
              "Tasks stalled on "
              ++ resource
              ++ " for "
              ++ a.str_float (a.round2 sample.some_avg60)
              ++ "% of the last minute");
        })
        observed_at conditions

  unfoldable pub add_pressures : Option PressureStallMetrics → Conditions → Conditions
  unfolding add_pressure
  add_pressures none conditions = conditions
  add_pressures (some pressure) conditions =
      add_pressure "io" "I/O" th.psi_io_some_pct pressure.io
        (add_pressure "memory" "Memory" th.psi_memory_some_pct pressure.memory conditions)

  -- One round of the loop over the disks.
  unfoldable pub add_disk : List String → DiskMetrics → Conditions → Conditions
  unfolding add_percentage contains network_disk_group_key ◌*ℤ◌
  add_disk excluded disk conditions =
      if contains excluded disk.mountpoint
      then conditions
      else add_percentage a incidents
          (record {
            key = "disk:" ++ disk.device ++ ":" ++ disk.mountpoint;
            category = "disk";
            resource = disk.mountpoint;
            value = some disk.used_pct;
            threshold = th.disk_warning_pct;
            critical_at =
                if ltb_ℤ disk.available_mib (th.disk_min_free_gib *ℤ pos 1024)
                then pos 0
                else number a 95;
            group_key = network_disk_group_key disk.device disk.filesystem_type;
            detail = none;
          })
          observed_at conditions

  unfoldable pub add_disks : List String → List DiskMetrics → Conditions → Conditions
  add_disks excluded [] conditions = conditions
  add_disks excluded (disk ∷ disks) conditions =
      add_disks excluded disks (add_disk excluded disk conditions)

  unfoldable pub add_system : List String → Option SystemMetrics → Conditions → Conditions
  unfolding add_host add_pressures add_disk add_disks
  add_system excluded none conditions = conditions
  add_system excluded (some system) conditions =
      add_disks excluded system.disks (add_pressures system.pressure (add_host system conditions))
