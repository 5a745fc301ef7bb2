-- ===== src/Incidents/Policy/Blind.antt =====
-- What a failed GPU query leaves unknown.
use mocop.Base.{String, ◌≡◌, true, [], ◌∷◌, all, string_key, arith}
use mocop.Base.Dict.{contains}
use mocop.Models.{ProbeResult}
use mocop.Incidents.Domains.{
  condition_domains, telemetry_unknown, missing_domains, partition, departed,
}
use mocop.Incidents.Policy.Conditions.{gpu_query_failed}
use mocop.Incidents.Policy.Observed.{
  observed_domains, query_domains, system_domains, pressure_domains,
}

-- After a failed GPU query, a sample, online or not, leaves the telemetry of these categories unknown.
pub query_failure-telemetry_unknown :
    (result : ProbeResult) (key : String)
    → gpu_query_failed result ≡ true
    → all
        (λ category. telemetry_unknown category key (observed_domains result))
        ("gpu_availability" ∷ "gpu_count" ∷ "gpu_processes" ∷ [])
      ≡ true
unfolding observed_domains query_domains system_domains pressure_domains telemetry_unknown
    missing_domains condition_domains contains partition departed
query_failure-telemetry_unknown result key h = ground (arith)
