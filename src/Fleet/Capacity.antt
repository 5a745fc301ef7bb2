-- ===== src/Fleet/Capacity.antt =====
-- capacity.py. The servers and conditions arrive as dictionaries; a record has the entries that are read,
-- and a metric that is not a finite number is `none`.
use text.Mathlib.Text.{starts_with}
use Prim.Native.String.{◌++◌ as join}
use mocop.Base.{
  ℕ, ◌*◌, ◌-◌, ◌+◌, suc, String, Bool, true, false, not, ◌&&◌, ◌||◌, Option, none, some, List, [],
  ◌∷◌, ◌++◌, filter, any, map, length, if◌then◌else◌, string_key, ◌==◌, ltb, leb, nat_beq, or_else,
}
use mocop.Base.Int.{Float, pos, ltb_ℤ, leb_ℤ, ◌+ℤ◌}
use mocop.Base.Dict.{Dict, get, put, contains}
use mocop.Base.Sort.{sort_by, string_leb}
use mocop.Base.Text.{str_nat, ends_with}

pub record CapacityRequest : Type 0 where
  pub gpu_count : ℕ
  pub min_vram_gib : ℕ
  pub model : String

pub record Gpu : Type 0 where
  pub index : ℕ
  pub uuid : String
  pub name : String
  pub memory_free_mib : Option Float
  pub utilization_gpu_pct : Option Float
  pub temperature_c : Option Float

pub record Server : Type 0 where
  pub host : String
  pub status : String
  pub stale : Bool
  pub maintenance : Bool
  pub gpus : List Gpu
  pub cpu_usage_pct : Option Float

pub record Condition : Type 0 where
  pub host : String
  pub category : String
  pub condition_key : String
  pub resource : String

abbrev pub host_blockers : List String
host_blockers = "connectivity" ∷ "gpu_availability" ∷ "gpu_count" ∷ []

abbrev pub gpu_blockers : List String
gpu_blockers = "gpu_ecc" ∷ "gpu_memory_repair" ∷ "gpu_slowdown" ∷ "gpu_temperature" ∷ []

-- One round of the loop of `_gpu_has_blocker`.
unfoldable pub blocks : Gpu → Condition → Bool
unfolding str_nat
blocks gpu condition =
    let identity = if gpu.uuid == "" then str_nat gpu.index else gpu.uuid in
    let resource_prefix = join "GPU " (str_nat gpu.index) in
    contains gpu_blockers condition.category
    && (ends_with condition.condition_key (join ":" identity)
        || condition.resource == resource_prefix
        || starts_with condition.resource (join resource_prefix " "))

unfoldable pub gpu_has_blocker : Gpu → List Condition → Bool
gpu_has_blocker gpu conditions = any (blocks gpu) conditions

pub record Candidate : Type 0 where
  pub host : String
  pub model : String
  pub total : ℕ
  pub available : List Gpu
  pub satisfies : Bool
  pub deficit : ℕ
  pub minimum_free_mib : Float
  pub average_utilization : Float
  pub cpu_usage_pct : Option Float

-- The limits that the configuration sets, the unit of the floats, and Python's division of floats.
pub record Limits : Type 0 where
  pub busy_pct : Float
  pub temperature_c : Float
  pub unit : ℕ
  pub divide : Float → ℕ → Float

-- A free GPU, by the tests of the inner loop.
unfoldable pub is_available : Limits → CapacityRequest → List Condition → Gpu → Bool
is_available limits request conditions gpu =
    let minimum = pos (request.min_vram_gib * 1024 * limits.unit) in
    elim gpu.utilization_gpu_pct [
      | none ↦ false
      | some utilization ↦ ltb_ℤ utilization limits.busy_pct
    ]
    && elim gpu.memory_free_mib [ none ↦ false | some free ↦ leb_ℤ minimum free ]
    && elim gpu.temperature_c [
      | none ↦ true
      | some temperature ↦ ltb_ℤ temperature limits.temperature_c
    ]
    && not (gpu_has_blocker gpu conditions)

-- `groups.setdefault(model, []).append(gpu)`
unfoldable pub add_to_group : Dict String (List Gpu) → String → Gpu → Dict String (List Gpu)
add_to_group groups model gpu = put groups model (or_else (get groups model) [] ++ gpu ∷ [])

-- The loop over a server's GPUs.
unfoldable pub group_gpus :
    CapacityRequest → List Gpu → Dict String (List Gpu) → Dict String (List Gpu)
group_gpus request [] groups = groups
group_gpus request (gpu ∷ gpus) groups =
    let model = if gpu.name == "" then "Unknown NVIDIA GPU" else gpu.name in
    group_gpus request gpus (
      if not (request.model == "any") && not (model == request.model)
      then groups
      else add_to_group groups model gpu)

-- `min(values)` and `sum(values)` of the metrics that are known.
unfoldable pub minimum_of : List (Option Float) → Option Float
minimum_of [] = none
minimum_of (none ∷ rest) = minimum_of rest
minimum_of (some x ∷ rest) = elim (minimum_of rest) [
  | none ↦ some x
  | some y ↦ some (if leb_ℤ x y then x else y)
]

unfoldable pub sum_of : List (Option Float) → Float
sum_of [] = pos 0
sum_of (none ∷ rest) = sum_of rest
sum_of (some x ∷ rest) = x +ℤ sum_of rest

unfoldable pub candidate :
    Limits → CapacityRequest → List Condition → Server → String → List Gpu → Candidate
unfolding minimum_of sum_of
candidate limits request conditions server model gpus =
    let available = filter (is_available limits request conditions) gpus in
    record {
      host = server.host;
      model = model;
      total = length gpus;
      available = available;
      satisfies = leb request.gpu_count (length available);
      deficit = request.gpu_count - length available;
      minimum_free_mib = or_else (minimum_of (map (λ gpu. gpu.memory_free_mib) available)) (pos 0);
      average_utilization =
          if leb (length available) 0
          then pos (101 * limits.unit)
          else limits.divide (sum_of (map (λ gpu. gpu.utilization_gpu_pct) available))
              (length available);
      cpu_usage_pct = server.cpu_usage_pct;
    }

-- The order of the sort key.
unfoldable pub ranks_before : Candidate → Candidate → Bool
unfolding string_leb
ranks_before a b =
    let hosts = string_leb a.host b.host in
    let by_average =
      ltb_ℤ a.average_utilization b.average_utilization
      || (leb_ℤ a.average_utilization b.average_utilization && hosts) in
    let by_free =
      ltb_ℤ b.minimum_free_mib a.minimum_free_mib
      || (leb_ℤ b.minimum_free_mib a.minimum_free_mib && by_average) in
    let by_count =
      ltb (length b.available) (length a.available)
      || (nat_beq (length a.available) (length b.available) && by_free) in
    let by_deficit = ltb a.deficit b.deficit || (nat_beq a.deficit b.deficit && by_count) in
    (a.satisfies && not b.satisfies) || ((a.satisfies || not b.satisfies) && by_deficit)

pub record Matching : Type 0 where
  pub candidates : List Candidate
  pub excluded_maintenance : ℕ
  pub excluded_health : ℕ

unfoldable pub candidates_of :
    Limits → CapacityRequest → List Condition → Server → Dict String (List Gpu) → List Candidate
unfolding candidate
candidates_of limits request conditions server [] = []
candidates_of limits request conditions server ((model, gpus) ∷ groups) =
    candidate limits request conditions server model gpus
    ∷ candidates_of limits request conditions server groups

-- One round of the loop over the servers.
unfoldable pub match_server :
    Limits → CapacityRequest → List Condition → Server → Matching → Matching
unfolding group_gpus candidates_of
match_server limits request active_conditions server m =
    let conditions = filter (λ condition. condition.host == server.host) active_conditions in
    if not (server.status == "online") || server.stale
    then m
    else if server.maintenance
    then record m { excluded_maintenance = suc m.excluded_maintenance }
    else if any (λ condition. contains host_blockers condition.category) conditions
    then record m { excluded_health = suc m.excluded_health }
    else record m {
      candidates =
          m.candidates
          ++ candidates_of limits request conditions server (group_gpus request server.gpus []);
    }

unfoldable pub match_servers :
    Limits → CapacityRequest → List Condition → List Server → Matching → Matching
match_servers limits request active_conditions [] m = m
match_servers limits request active_conditions (server ∷ servers) m =
    match_servers limits request active_conditions servers
      (match_server limits request active_conditions server m)

unfoldable pub count_satisfying : List Candidate → ℕ
count_satisfying [] = 0
count_satisfying (c ∷ cs) = (if c.satisfies then 1 else 0) + count_satisfying cs

unfoldable pub match_capacity :
    Limits → CapacityRequest → List Condition → List Server → Matching × ℕ
unfolding ranks_before
match_capacity limits request active_conditions servers =
    let start : Matching = record {
      candidates = [];
      excluded_maintenance = 0;
      excluded_health = 0;
    } in
    let m = match_servers limits request active_conditions servers start in
    let ranked = sort_by ranks_before m.candidates in
    (record m { candidates = ranked }, count_satisfying m.candidates)
