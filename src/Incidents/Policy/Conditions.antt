-- ===== src/Incidents/Policy/Conditions.antt =====
-- `ThresholdIncidentPolicy.conditions`, with the thresholds and the excluded mounts of the host given,
-- and `gpu_health_conditions` of incident_health.py. Each block of the method is a function from the
-- dictionary so far to the dictionary after it.
use Prim.Native.String.{◌++◌}
use text.Mathlib.Text.{starts_with}
use mocop.Base.{
  ℕ, String, Bool, false, not, ◌&&◌, ◌||◌, Option, none, some, List, [], ◌∷◌, if◌then◌else◌,
  string_key, ◌==◌, ltb, nat_beq, length,
}
use mocop.Base.Int.{Float, pos, leb_ℤ, ltb_ℤ, ◌-ℤ◌}
use mocop.Base.Dict.{Dict, put, contains}
use mocop.Base.Text.{str_nat, lower, has_colon}
use mocop.Models.{ProbeResult, GpuMetrics}
use mocop.Incidents.Types.{Severity, warning, critical, IncidentCondition}
use mocop.Incidents.Policy.Config.{Arithmetic, number, IncidentConfig}

abbrev pub Conditions : Type 0
Conditions = Dict String IncidentCondition

abbrev pub gpu_query_failure_messages : List String
gpu_query_failure_messages =
    "nvidia-smi is unavailable" ∷ "nvidia-smi query failed" ∷ "nvidia-smi output was malformed" ∷ []

-- `result.message in _GPU_QUERY_FAILURE_MESSAGES`
unfoldable pub gpu_query_failed : ProbeResult → Bool
unfolding contains
gpu_query_failed result = elim result.message [
  | none ↦ false
  | some message ↦ contains gpu_query_failure_messages message
]

-- `flag or False` of an optional flag
abbrev pub flag : Option Bool → Bool
flag none = false
flag (some b) = b

-- `gpu.uuid or str(gpu.index)`
unfoldable pub gpu_identity : GpuMetrics → String
unfolding str_nat
gpu_identity gpu = if gpu.uuid == "" then str_nat gpu.index else gpu.uuid

unfoldable pub network_disk_group_key : String → String → Option String
unfolding lower contains has_colon
network_disk_group_key device filesystem_type =
    let filesystem = lower filesystem_type in
    if contains ("nfs" ∷ "nfs4" ∷ "cifs" ∷ "smb3" ∷ "sshfs" ∷ "ceph" ∷ "glusterfs" ∷ []) filesystem
      || starts_with filesystem "fuse.sshfs"
      || starts_with filesystem "fuse.glusterfs"
      || starts_with device "//"
      || (has_colon device && not (starts_with device "/"))
    then some (filesystem ++ "|" ++ device)
    else none

-- What `_add_percentage` is given of one metric.
pub record Metric : Type 0 where
  pub key : String
  pub category : String
  pub resource : String
  pub value : Option Float
  pub threshold : Float
  pub critical_at : Float
  pub group_key : Option String
  pub detail : Option String

module _ (a : Arithmetic) (incidents : IncidentConfig) where
  unfoldable pub percentage : Float → Float → Float
  percentage used total = if ltb_ℤ (pos 0) total then a.percent_of used total else pos 0

  unfoldable pub severity_of : Float → Float → Severity
  severity_of value critical_at = if leb_ℤ critical_at value then critical else warning

  -- The condition that `_add_percentage` derives from a value.
  unfoldable pub percentage_condition : Metric → Float → String → IncidentCondition
  unfolding severity_of
  percentage_condition m value observed_at =
      let rounded = a.round2 value in
      record {
        key = m.key;
        category = m.category;
        resource = m.resource;
        severity = severity_of rounded m.critical_at;
        value = some rounded;
        threshold = some m.threshold;
        observed_at = observed_at;
        detail = m.detail;
        open_after_cycles = incidents.resource_open_cycles;
        recovery_cycles = incidents.recovery_cycles;
        group_key = m.group_key;
        open_after_seconds = incidents.resource_open_seconds;
        below_threshold = ltb_ℤ rounded m.threshold;
        critical_at = some m.critical_at;
        recovery_margin = incidents.recovery_margin;
      }

  -- `_add_percentage`
  unfoldable pub add_percentage : Metric → String → Conditions → Conditions
  unfolding percentage_condition ◌-ℤ◌
  add_percentage m observed_at conditions = elim m.value [
    | none ↦ conditions
    | some value ↦
        if ltb_ℤ value (m.threshold -ℤ incidents.recovery_margin)
        then conditions
        else put conditions m.key (percentage_condition m value observed_at)
  ]

  -- A condition with no value band.
  unfoldable pub plain :
      String
      → String
      → String
      → Severity
      → Option Float
      → Option Float
      → String
      → Option String
      → ℕ
      → Float
      → IncidentCondition
  plain key category resource severity value threshold observed_at detail cycles seconds = record {
    key = key;
    category = category;
    resource = resource;
    severity = severity;
    value = value;
    threshold = threshold;
    observed_at = observed_at;
    detail = detail;
    open_after_cycles = cycles;
    recovery_cycles = incidents.recovery_cycles;
    group_key = none;
    open_after_seconds = seconds;
    below_threshold = false;
    critical_at = none;
    recovery_margin = pos 0;
  }

  unfoldable pub connectivity : ProbeResult → Conditions
  unfolding plain put
  connectivity result = put [] "connectivity" (
      plain "connectivity" "connectivity" "SSH" critical none none result.observed_at result.message
        1 (pos 0))

  unfoldable pub add_availability : ProbeResult → Conditions → Conditions
  unfolding plain gpu_query_failed
  add_availability result conditions =
      if gpu_query_failed result
      then put conditions "gpu_availability" (
          plain "gpu_availability" "gpu_availability" "NVIDIA telemetry" critical none none
            result.observed_at result.message 1 (pos 0))
      else conditions

  unfoldable pub add_count : Option ℕ → ProbeResult → Conditions → Conditions
  unfolding plain gpu_query_failed str_nat
  add_count none result conditions = conditions
  add_count (some expected) result conditions =
      let observed = length result.gpus in
      if not (gpu_query_failed result) && not (nat_beq observed expected)
      then put conditions "gpu_count" (
          plain "gpu_count" "gpu_count" "GPU inventory"
            (if ltb observed expected then critical else warning) (some (number a observed))
            (some (number a expected)) result.observed_at
            (some ("Expected " ++ str_nat expected ++ " GPUs; observed " ++ str_nat observed)) 1
            (pos 0))
      else conditions
