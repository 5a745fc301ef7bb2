-- ===== src/Fleet/Tests.antt =====
-- The theorems about the stateless components at concrete inputs.
use mocop.Base.{
  ℕ, ◌+◌, ◌-◌, ◌*◌, ◌%◌, String, ◌≡◌, refl, true, false, none, some, List, [], ◌∷◌, ltb, string_key,
  arith,
}
use mocop.Base.Int.{Float, pos}
use mocop.Base.Dict.{contains}
use mocop.Base.Text.{lower}
use mocop.Fleet.Ssh.{
  classify_ssh_failure, is_retryable_ssh_transport_failure, identity_failures, retryable-classify,
  includes, includes_any,
}
use mocop.Fleet.Maintenance.{
  day, minute, is_active, daily_window, weekly_window, is_active_daily, is_active_weekly,
}
use mocop.Fleet.Capacity.{Limits, CapacityRequest, Server, Gpu, match_capacity, count_satisfying}
use mocop.Fleet.Ranking.{SatisfyingFirst, match_capacity-SatisfyingFirst}

abbrev stale : String
stale = "mux_client_request_session: read from master failed: Broken pipe"

stale_retryable : is_retryable_ssh_transport_failure stale ≡ true
unfolding is_retryable_ssh_transport_failure includes_any includes lower
stale_retryable = refl

retryable-classify_example : contains identity_failures (classify_ssh_failure stale) ≡ false
retryable-classify_example = retryable-classify stale stale_retryable

-- 2026-01-01T03:00Z, in a window from 02:00 for two hours.
abbrev night : ℕ
night = 739616 * day + 180 * minute

is_active_daily_example :
    is_active (daily_window "backup" 120 120) night
    ≡ some (ltb ((night + day - 120 * minute) % day) (120 * minute))
is_active_daily_example =
    is_active_daily "backup" 120 120 night (omega arith) (omega arith) (omega arith)

is_active_weekly_example :
    is_active (weekly_window "patches" 3 120 600) night
    ≡ some (ltb ((night + 7 * day - (3 * day + 120 * minute)) % (7 * day)) (600 * minute))
is_active_weekly_example =
    is_active_weekly "patches" 3 120 600 night (omega arith) (omega arith) (omega arith)
      (omega arith)

abbrev limits : Limits
limits = record { busy_pct = pos 10; temperature_c = pos 80; unit = 1; divide = λ sum n. sum }

abbrev request : CapacityRequest
request = record { gpu_count = 1; min_vram_gib = 8; model = "any" }

abbrev idle : ℕ → Float → Gpu
idle index utilization = record {
  index = index;
  uuid = "";
  name = "A100";
  memory_free_mib = some (pos 40000);
  utilization_gpu_pct = some utilization;
  temperature_c = none;
}

abbrev server : String → Float → Server
server host utilization = record {
  host = host;
  status = "online";
  stale = false;
  maintenance = false;
  gpus = idle 0 utilization ∷ [];
  cpu_usage_pct = none;
}

abbrev fleet : List Server
fleet = server "busy" (pos 90) ∷ server "free" (pos 1) ∷ []

match_capacity-SatisfyingFirst_example :
    SatisfyingFirst (match_capacity limits request [] fleet).0.candidates
    × ((match_capacity limits request [] fleet).1
        ≡ count_satisfying (match_capacity limits request [] fleet).0.candidates)
match_capacity-SatisfyingFirst_example = match_capacity-SatisfyingFirst limits request [] fleet
