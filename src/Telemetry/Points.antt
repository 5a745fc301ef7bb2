-- ===== src/Telemetry/Points.antt =====
-- `HostHistoryPoint`, `GpuHistoryPoint` and the dictionaries of `GpuProcessTransition`. A missing entry
-- or a value that cannot be converted or packed raises, which is `none`.
use mocop.Base.{
  ℕ, ◌^◌, String, Bool, true, false, Option, none, some, [], ◌∷◌, ◌++◌, if◌then◌else◌, string_key,
  ltb,
}
use mocop.Base.Int.{Float}
use mocop.Base.Dict.{get}
use mocop.Processes.Types.{GpuProcessTransition, Workload}
use mocop.Telemetry.Json.{
  Double, finite, Json, null, bool, int, double, text, object, Document, Conversions, to_str,
  to_int, to_float, float_of_bool, optional_float, truthy, truthy_double, packed_optional_float,
  unpacked_optional_float,
}

-- The twelve doubles of `HOST_HISTORY_VALUES`.
pub record HostValues : Type 0 where
  pub cpu_usage_pct : Double
  pub memory_usage_pct : Double
  pub swap_usage_pct : Double
  pub disk_usage_pct : Double
  pub network_rx_bps : Double
  pub network_tx_bps : Double
  pub disk_read_bps : Double
  pub disk_write_bps : Double
  pub gpu_usage_pct : Double
  pub gpu_memory_usage_pct : Double
  pub gpu_temperature_c : Double
  pub transport_retried : Double

pub record HostHistoryPoint : Type 0 where
  pub observed_at : String
  pub values : HostValues

-- The integer and the five doubles of `GPU_HISTORY_VALUES`.
pub record GpuValues : Type 0 where
  pub index : ℕ
  pub utilization_gpu_pct : Double
  pub memory_used_mib : Double
  pub memory_total_mib : Double
  pub temperature_c : Double
  pub power_draw_w : Double

pub record GpuHistoryPoint : Type 0 where
  pub observed_at : String
  pub values : GpuValues

infixl 5 ◌>>=◌
abbrev ◌>>=◌ {ℓ κ} : {A : Type ℓ} {B : Type κ} → Option A → (A → Option B) → Option B
none >>= f = none
some a >>= f = f a

module _ (c : Conversions) where
  -- `HostHistoryPoint.create`
  unfoldable pub create_host :
      String
      → Option Double
      → Double
      → Double
      → Double
      → Option Double
      → Option Double
      → Option Double
      → Option Double
      → Option Double
      → Option Double
      → Option Double
      → Bool
      → HostHistoryPoint
  create_host at cpu memory swap disk rx tx read write gpu gpu_memory temperature retried = record {
    observed_at = at;
    values = record {
      cpu_usage_pct = packed_optional_float cpu;
      memory_usage_pct = memory;
      swap_usage_pct = swap;
      disk_usage_pct = disk;
      network_rx_bps = packed_optional_float rx;
      network_tx_bps = packed_optional_float tx;
      disk_read_bps = packed_optional_float read;
      disk_write_bps = packed_optional_float write;
      gpu_usage_pct = packed_optional_float gpu;
      gpu_memory_usage_pct = packed_optional_float gpu_memory;
      gpu_temperature_c = packed_optional_float temperature;
      transport_retried = float_of_bool c retried;
    };
  }

  -- `float(point[key])`
  abbrev need_float : Document → String → Option Double
  need_float point key = get point key >>= to_float c

  -- `optional_float(point.get(key))`
  abbrev maybe : Document → String → Option Double
  maybe point key = optional_float c (get point key)

  unfoldable pub host_from_dict : Document → Option HostHistoryPoint
  unfolding create_host get
  host_from_dict point = do
    at ← get point "observedAt"
    memory ← need_float point "memoryUsagePct"
    swap ← need_float point "swapUsagePct"
    disk ← need_float point "diskUsagePct"
    some (
        create_host (to_str c at) (maybe point "cpuUsagePct") memory swap disk
          (maybe point "networkRxBps") (maybe point "networkTxBps") (maybe point "diskReadBps")
          (maybe point "diskWriteBps") (maybe point "gpuUsagePct") (maybe point "gpuMemoryUsagePct")
          (maybe point "gpuTemperatureC") (truthy (get point "transportRetried")))

  unfoldable pub host_to_dict : HostHistoryPoint → Document
  host_to_dict point =
      let v = point.values in
      ("observedAt", text point.observed_at)
      ∷ ("cpuUsagePct", unpacked_optional_float v.cpu_usage_pct)
      ∷ ("memoryUsagePct", double v.memory_usage_pct)
      ∷ ("swapUsagePct", double v.swap_usage_pct)
      ∷ ("diskUsagePct", double v.disk_usage_pct)
      ∷ ("networkRxBps", unpacked_optional_float v.network_rx_bps)
      ∷ ("networkTxBps", unpacked_optional_float v.network_tx_bps)
      ∷ ("diskReadBps", unpacked_optional_float v.disk_read_bps)
      ∷ ("diskWriteBps", unpacked_optional_float v.disk_write_bps)
      ∷ ("gpuUsagePct", unpacked_optional_float v.gpu_usage_pct)
      ∷ ("gpuMemoryUsagePct", unpacked_optional_float v.gpu_memory_usage_pct)
      ∷ ("gpuTemperatureC", unpacked_optional_float v.gpu_temperature_c)
      ∷ ("transportRetried", bool (truthy_double v.transport_retried))
      ∷ []

  -- `GpuHistoryPoint.create`: the index is packed into 32 bits with a sign.
  unfoldable pub create_gpu :
      String
      → ℕ
      → Option Double
      → Option Double
      → Option Double
      → Option Double
      → Option Double
      → Option GpuHistoryPoint
  create_gpu at index utilization used total temperature power =
      if ltb index (2 ^ 31)
      then some (record {
        observed_at = at;
        values = record {
          index = index;
          utilization_gpu_pct = packed_optional_float utilization;
          memory_used_mib = packed_optional_float used;
          memory_total_mib = packed_optional_float total;
          temperature_c = packed_optional_float temperature;
          power_draw_w = packed_optional_float power;
        };
      })
      else none

  unfoldable pub gpu_from_dict : Document → Option GpuHistoryPoint
  unfolding create_gpu get
  gpu_from_dict point = do
    at ← get point "observedAt"
    index ← get point "index" >>= to_int c
    create_gpu (to_str c at) index (maybe point "utilizationGpuPct") (maybe point "memoryUsedMiB")
        (maybe point "memoryTotalMiB") (maybe point "temperatureC") (maybe point "powerDrawW")

  unfoldable pub gpu_to_dict : String → GpuHistoryPoint → Document
  gpu_to_dict gpu_id point =
      let v = point.values in
      ("observedAt", text point.observed_at)
      ∷ ("gpuId", text gpu_id)
      ∷ ("index", int v.index)
      ∷ ("utilizationGpuPct", unpacked_optional_float v.utilization_gpu_pct)
      ∷ ("memoryUsedMiB", unpacked_optional_float v.memory_used_mib)
      ∷ ("memoryTotalMiB", unpacked_optional_float v.memory_total_mib)
      ∷ ("temperatureC", unpacked_optional_float v.temperature_c)
      ∷ ("powerDrawW", unpacked_optional_float v.power_draw_w)
      ∷ []

  -- A workload that is a dictionary.
  abbrev pub as_workload : Option Json → Option Workload
  as_workload (some (object w)) = some w
  as_workload _ = none

  abbrev pub as_text : Option Json → Option String
  as_text (some (text s)) = some s
  as_text _ = none

  -- `event.get("_visible") is not False`
  abbrev pub not_hidden : Option Json → Bool
  not_hidden (some (bool false)) = false
  not_hidden _ = true

  -- A double that is not NaN: the memory of a process is a finite number.
  abbrev pub finite_only : Option Double → Option Float
  finite_only (some (finite x)) = some x
  finite_only _ = none

  unfoldable pub transition_from_dict : Document → Option GpuProcessTransition
  unfolding get
  transition_from_dict event = do
    at ← get event "observedAt"
    gpu_id ← get event "gpuId"
    index ← get event "index" >>= to_int c
    kind ← get event "event"
    pid ← get event "pid" >>= to_int c
    name ← get event "name"
    some (record {
      observed_at = to_str c at;
      gpu_id = to_str c gpu_id;
      index = index;
      event = to_str c kind;
      pid = pid;
      name = to_str c name;
      used_memory_mib = finite_only (maybe event "usedMemoryMiB");
      workload = as_workload (get event "workload");
      visible = not_hidden (get event "_visible");
      first_seen_at = as_text (get event "firstSeenAt");
    })

  abbrev pub float_or_null : Option Float → Json
  float_or_null none = null
  float_or_null (some x) = double (finite x)

  abbrev pub workload_or_null : Option Workload → Json
  workload_or_null none = null
  workload_or_null (some w) = object w

  abbrev pub text_or_null : Option String → Json
  text_or_null none = null
  text_or_null (some s) = text s

  unfoldable pub transition_to_dict : GpuProcessTransition → Document
  transition_to_dict event =
      ("observedAt", text event.observed_at)
      ∷ ("gpuId", text event.gpu_id)
      ∷ ("index", int event.index)
      ∷ ("event", text event.event)
      ∷ ("pid", int event.pid)
      ∷ ("name", text event.name)
      ∷ ("usedMemoryMiB", float_or_null event.used_memory_mib)
      ∷ ("workload", workload_or_null event.workload)
      ∷ ("firstSeenAt", text_or_null event.first_seen_at)
      ∷ []

  unfoldable pub persistence_dict : GpuProcessTransition → Document
  unfolding transition_to_dict
  persistence_dict event = transition_to_dict event ++ ("_visible", bool event.visible) ∷ []
