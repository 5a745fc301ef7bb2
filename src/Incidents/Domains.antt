-- ===== src/Incidents/Domains.antt =====
-- incident_domains.py: the telemetry that a condition's recovery needs.
use Prim.Native.Char.{code}
use Prim.Native.String.{◌++◌}
use mocop.Base.{
  String, Bool, true, false, not, ◌&&◌, List, [], ◌∷◌, filter, all, if◌then◌else◌, ◌==◌, nat_key,
  string_key,
}
use mocop.Base.Dict.{contains}

-- `text.partition(":")`, its first and third parts.
unfoldable pub partition : String → String × String
partition String.[] = ("", "")
partition (String.◌∷◌ c rest) =
    let (before, after) = partition rest in
    if code c == b':' then ("", rest) else (String.◌∷◌ c before, after)

abbrev pub member : String → List String → Bool
member k xs = contains xs k

abbrev pub system_categories : List String
system_categories = "cpu" ∷ "memory" ∷ "swap" ∷ "disk" ∷ "pressure" ∷ []

abbrev pub gpu_health_categories : List String
gpu_health_categories = "gpu_ecc" ∷ "gpu_memory_repair" ∷ "gpu_slowdown" ∷ []

unfoldable pub condition_domains : String → String → List String
unfolding contains partition
condition_domains category key =
    let identity = (partition key).1 in
    if category == "cpu"
    then "system" ∷ "system_cpu" ∷ []
    else if category == "pressure"
    then "system" ∷ key ∷ []
    else if member category system_categories
    then "system" ∷ []
    else if member category ("gpu_availability" ∷ "gpu_count" ∷ [])
    then "gpu_query" ∷ []
    else if category == "gpu_ecc"
    then ("gpu_present:" ++ identity) ∷ ("gpu_ecc:" ++ identity) ∷ []
    else if member category gpu_health_categories
    then ("gpu_present:" ++ identity) ∷ ("gpu_health:" ++ identity) ∷ []
    else if category == "gpu_processes"
    then "gpu_processes" ∷ []
    else if category == "gpu_temperature"
    then ("gpu_present:" ++ identity) ∷ ("gpu_temperature:" ++ identity) ∷ []
    else if category == "gpu_memory"
    then ("gpu_present:" ++ identity) ∷ ("gpu_memory:" ++ identity) ∷ []
    else if category == "gpu_idle_memory"
    then ("gpu_present:" ++ identity)
      ∷ ("gpu_memory:" ++ identity)
      ∷ ("gpu_utilization:" ++ identity)
      ∷ []
    else []

abbrev pub per_identity_gpu_domains : List String
per_identity_gpu_domains =
    "gpu_present" ∷ "gpu_health" ∷ "gpu_ecc" ∷ "gpu_temperature" ∷ "gpu_memory" ∷ "gpu_utilization"
    ∷ []

-- `[domain for domain in condition_domains(category, key) if domain not in observed_domains]`
unfoldable pub missing_domains : String → String → List String → List String
unfolding condition_domains contains
missing_domains category key observed =
    filter (λ domain. not (member domain observed)) (condition_domains category key)

-- A per-device domain of a device that a complete inventory does not list.
unfoldable pub departed : List String → String → Bool
unfolding contains partition
departed observed domain =
    member (partition domain).0 per_identity_gpu_domains
    && not (member ("gpu_present:" ++ (partition domain).1) observed)

unfoldable pub telemetry_unknown : String → String → List String → Bool
unfolding missing_domains departed contains
telemetry_unknown category key observed =
    let missing = missing_domains category key observed in
    elim missing [
      | [] ↦ false
      | domain ∷ rest ↦
          if member "gpu_inventory" observed
          then not (all (departed observed) (domain ∷ rest))
          else true
    ]
