-- ===== src/Incidents/Policy/Overrides.antt =====
-- The overrides of `ThresholdIncidentPolicy` and its two caches of what holds for a host.
use mocop.Base.{
  ℕ, String, Bool, ◌&&◌, Option, none, some, List, [], ◌∷◌, ◌++◌, all, if◌then◌else◌, string_key,
  ◌==◌,
}
use mocop.Base.Int.{Float}
use mocop.Base.Dict.{Dict, get, put, keys, contains, restrict, distinct}
use mocop.Incidents.Policy.Config.{ThresholdConfig}

-- config.py's `IncidentScopeOverrideConfig`
pub record IncidentScopeOverrideConfig : Type 0 where
  pub thresholds : List (String × Float)
  pub exclude_disk_mounts : List String

pub record PolicyState : Type 0 where
  pub threshold_values : ThresholdConfig
  pub expected_gpu_counts : Dict String ℕ
  pub host_overrides : Dict String IncidentScopeOverrideConfig
  pub group_overrides : Dict String IncidentScopeOverrideConfig
  pub host_groups : Dict String String
  pub effective_thresholds : Dict String ThresholdConfig
  pub effective_disk_exclusions : Dict String (List String)

-- `ThresholdIncidentPolicy.__init__`, less the incident settings.
unfoldable pub start :
    ThresholdConfig
    → Dict String ℕ
    → Dict String IncidentScopeOverrideConfig
    → Dict String IncidentScopeOverrideConfig
    → Dict String String
    → PolicyState
start values counts hosts groups members = record {
  threshold_values = values;
  expected_gpu_counts = counts;
  host_overrides = hosts;
  group_overrides = groups;
  host_groups = members;
  effective_thresholds = [];
  effective_disk_exclusions = [];
}

-- `values[name] = value`; a name that no condition reads changes nothing.
unfoldable pub set_threshold : ThresholdConfig → String → Float → ThresholdConfig
set_threshold values name value =
    if name == "cpu_warning_pct"
    then record values { cpu_warning_pct = value }
    else if name == "memory_warning_pct"
    then record values { memory_warning_pct = value }
    else if name == "swap_warning_pct"
    then record values { swap_warning_pct = value }
    else if name == "disk_warning_pct"
    then record values { disk_warning_pct = value }
    else if name == "disk_min_free_gib"
    then record values { disk_min_free_gib = value }
    else if name == "psi_memory_some_pct"
    then record values { psi_memory_some_pct = value }
    else if name == "psi_io_some_pct"
    then record values { psi_io_some_pct = value }
    else if name == "gpu_temperature_warning_c"
    then record values { gpu_temperature_warning_c = value }
    else if name == "gpu_busy_pct"
    then record values { gpu_busy_pct = value }
    else if name == "gpu_memory_warning_pct"
    then record values { gpu_memory_warning_pct = value }
    else if name == "gpu_idle_memory_pct"
    then record values { gpu_idle_memory_pct = value }
    else values

-- `values.update(pairs)`
unfoldable pub update_thresholds : ThresholdConfig → List (String × Float) → ThresholdConfig
unfolding set_threshold
update_thresholds values [] = values
update_thresholds values ((name, value) ∷ rest) =
    update_thresholds (set_threshold values name value) rest

-- The override of the host's group: a missing or empty group has none.
unfoldable pub group_override : PolicyState → String → Option IncidentScopeOverrideConfig
group_override p host = elim (get p.host_groups host) [
  | none ↦ none
  | some group ↦ if group == "" then none else get p.group_overrides group
]

unfoldable pub apply_thresholds :
    ThresholdConfig → Option IncidentScopeOverrideConfig → ThresholdConfig
unfolding update_thresholds
apply_thresholds values none = values
apply_thresholds values (some override) = update_thresholds values override.thresholds

unfoldable pub mounts_of : Option IncidentScopeOverrideConfig → List String
mounts_of none = []
mounts_of (some override) = override.exclude_disk_mounts

-- What `_thresholds_for` computes when the cache has nothing.
unfoldable pub computed_thresholds : PolicyState → String → ThresholdConfig
computed_thresholds p host =
    apply_thresholds (apply_thresholds p.threshold_values (group_override p host))
      (get p.host_overrides host)

-- `_thresholds_for`, with what the cache has for the host.
unfoldable pub thresholds_from :
    PolicyState → String → Option ThresholdConfig → ThresholdConfig × PolicyState
thresholds_from p host (some cached) = (cached, p)
thresholds_from p host none =
    let values = computed_thresholds p host in
    (values, record p { effective_thresholds = put p.effective_thresholds host values })

unfoldable pub thresholds_for : PolicyState → String → ThresholdConfig × PolicyState
thresholds_for p host = thresholds_from p host (get p.effective_thresholds host)

unfoldable pub computed_exclusions : PolicyState → String → List String
computed_exclusions p host =
    distinct (mounts_of (group_override p host) ++ mounts_of (get p.host_overrides host))

-- `_excluded_disk_mounts`, with what the cache has for the host.
unfoldable pub exclusions_from :
    PolicyState → String → Option (List String) → List String × PolicyState
exclusions_from p host (some cached) = (cached, p)
exclusions_from p host none =
    let mounts = computed_exclusions p host in
    (mounts, record p { effective_disk_exclusions = put p.effective_disk_exclusions host mounts })

unfoldable pub excluded_disk_mounts : PolicyState → String → List String × PolicyState
excluded_disk_mounts p host = exclusions_from p host (get p.effective_disk_exclusions host)

unfoldable pub update_expected_gpu_counts : Dict String ℕ → PolicyState → PolicyState
update_expected_gpu_counts counts p = record p { expected_gpu_counts = counts }

unfoldable pub update_overrides :
    Dict String IncidentScopeOverrideConfig
    → Dict String IncidentScopeOverrideConfig
    → Dict String String
    → PolicyState
    → PolicyState
update_overrides host_overrides group_overrides host_groups p = record p {
  host_overrides = host_overrides;
  group_overrides = group_overrides;
  host_groups = host_groups;
  effective_thresholds = [];
  effective_disk_exclusions = [];
}

unfoldable pub retain_hosts : List String → PolicyState → PolicyState
retain_hosts hosts p =
    let kept : String → Bool = λ host. contains hosts host in
    if all kept (keys p.effective_thresholds) && all kept (keys p.effective_disk_exclusions)
    then p
    else record p {
      effective_thresholds = restrict kept p.effective_thresholds;
      effective_disk_exclusions = restrict kept p.effective_disk_exclusions;
    }
