-- ===== src/Models.antt =====
-- models.py: the metrics of one sample, the result of one probe, and the state kept for one host.
use mocop.Base.{
  ℕ, suc, String, Bool, false, not, ◌&&◌, Option, none, some, List, [], if◌then◌else◌, ◌==◌, ltb,
  string_key, is_some,
}
use mocop.Base.Int.{Float}

-- Only the kinds' names matter to what is modelled, so the kind is its text.
pub record WorkloadMetadata : Type 0 where
  pub kind : String
  pub workload_id : Option String
  pub name : Option String
  pub owner : Option String
  pub queue : Option String
  pub namespace : Option String
  pub command : Option String
  pub started_at : Option String
  pub cpu_seconds : Option Float
  pub rss_mib : Option Float

pub record GpuProcess : Type 0 where
  pub pid : ℕ
  pub name : String
  pub used_memory_mib : Option Float
  pub workload : Option WorkloadMetadata
  pub first_seen_at : Option String

pub record GpuHealthMetrics : Type 0 where
  pub ecc_uncorrected_volatile : Option ℕ
  pub retired_pages_pending : Option Bool
  pub remapped_rows_pending : Option Bool
  pub thermal_slowdown : Option Bool
  pub power_brake_slowdown : Option Bool
  pub mig_mode : Option String

pub record GpuMetrics : Type 0 where
  pub index : ℕ
  pub uuid : String
  pub name : String
  pub driver_version : String
  pub pstate : Option String
  pub temperature_c : Option Float
  pub utilization_gpu_pct : Option Float
  pub utilization_memory_pct : Option Float
  pub memory_total_mib : Option Float
  pub memory_used_mib : Option Float
  pub memory_free_mib : Option Float
  pub power_draw_w : Option Float
  pub power_limit_w : Option Float
  pub processes : List GpuProcess
  pub processes_available : Bool
  pub processes_sampled : Bool
  pub processes_observed_at : Option String
  pub health : Option GpuHealthMetrics

pub record PressureStallSample : Type 0 where
  pub some_avg10 : Float
  pub some_avg60 : Float
  pub full_avg10 : Option Float
  pub full_avg60 : Option Float

pub record PressureStallMetrics : Type 0 where
  pub cpu : Option PressureStallSample
  pub memory : Option PressureStallSample
  pub io : Option PressureStallSample

pub record DiskMetrics : Type 0 where
  pub device : String
  pub filesystem_type : String
  pub mountpoint : String
  pub total_mib : Float
  pub used_mib : Float
  pub available_mib : Float
  pub used_pct : Float

pub record SystemMetrics : Type 0 where
  pub hostname : String
  pub uptime_seconds : Float
  pub load_1m : Float
  pub load_5m : Float
  pub load_15m : Float
  pub cpu_cores : ℕ
  pub cpu_usage_pct : Option Float
  pub memory_total_mib : Float
  pub memory_used_mib : Float
  pub memory_available_mib : Float
  pub swap_total_mib : Float
  pub swap_used_mib : Float
  pub disk_total_mib : Float
  pub disk_used_mib : Float
  pub network_rx_bps : Option Float
  pub network_tx_bps : Option Float
  pub disk_read_bps : Option Float
  pub disk_write_bps : Option Float
  pub disks : List DiskMetrics
  pub pressure : Option PressureStallMetrics

pub record ProbeResult : Type 0 where
  pub host : String
  pub status : String
  pub latency_ms : ℕ
  pub gpus : List GpuMetrics
  pub message : Option String
  pub observed_at : String
  pub system : Option SystemMetrics
  pub transport_retries : ℕ

abbrev pub online : ProbeResult → Bool
online result = result.status == "online"

pub record ServerState : Type 0 where
  pub host : String
  pub status : String
  pub polling : Bool
  pub latency_ms : Option ℕ
  pub gpus : List GpuMetrics
  pub system : Option SystemMetrics
  pub message : Option String
  pub last_attempt_at : Option String
  pub last_success_at : Option String
  pub next_retry_at : Option String
  pub consecutive_failures : ℕ
  pub transport_retried : Bool

abbrev pub fresh_server : String → ServerState
fresh_server host = record {
  host = host;
  status = "pending";
  polling = false;
  latency_ms = none;
  gpus = [];
  system = none;
  message = none;
  last_attempt_at = none;
  last_success_at = none;
  next_retry_at = none;
  consecutive_failures = 0;
  transport_retried = false;
}

unfoldable pub apply : ServerState → ProbeResult → Option String → ServerState
apply state result next_retry_at =
    let common = record state {
      status = result.status;
      polling = false;
      latency_ms = some result.latency_ms;
      message = result.message;
      last_attempt_at = some result.observed_at;
      transport_retried = ltb 0 result.transport_retries;
    } in
    if online result
    then record common {
      gpus = result.gpus;
      system = result.system;
      last_success_at = some result.observed_at;
      next_retry_at = none;
      consecutive_failures = 0;
    }
    else record common {
      next_retry_at = next_retry_at;
      consecutive_failures = suc state.consecutive_failures;
    }

-- The `stale` field of `to_dict`.
unfoldable pub stale : ServerState → Bool
stale state = not (state.status == "online") && is_some state.last_success_at
