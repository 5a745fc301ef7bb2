-- ===== src/Processes/Types.antt =====
-- telemetry_points.py's `GpuProcessTransition`, and a workload as the dictionary that it is stored as.
use mocop.Base.{
  ℕ, String, ◌≡◌, Bool, true, ◌&&◌, ◌↔◌, Option, none, some, [], ◌∷◌, string_key, nat_key, ◌==◌,
  ==_iff, Key, arith,
}
use mocop.Base.Int.{Float}
use mocop.Base.Dict.{Dict}
use mocop.Models.{WorkloadMetadata}

-- A value of a workload's dictionary.
pub data Value : Type 0 where
  null : Value
  text : String → Value
  float : Float → Value

abbrev pub Workload : Type 0
Workload = Dict String Value

abbrev texts : Option String → Value
texts none = null
texts (some s) = text s

abbrev floats : Option Float → Value
floats none = null
floats (some x) = float x

-- `WorkloadMetadata.to_dict`
unfoldable pub to_dict : WorkloadMetadata → Workload
to_dict w =
    ("kind", text w.kind)
    ∷ ("workload_id", texts w.workload_id)
    ∷ ("name", texts w.name)
    ∷ ("owner", texts w.owner)
    ∷ ("queue", texts w.queue)
    ∷ ("namespace", texts w.namespace)
    ∷ ("command", texts w.command)
    ∷ ("started_at", texts w.started_at)
    ∷ ("cpu_seconds", floats w.cpu_seconds)
    ∷ ("rss_mib", floats w.rss_mib)
    ∷ []

pub record GpuProcessTransition : Type 0 where
  pub observed_at : String
  pub gpu_id : String
  pub index : ℕ
  pub event : String
  pub pid : ℕ
  pub name : String
  pub used_memory_mib : Option Float
  pub workload : Option Workload
  pub visible : Bool
  pub first_seen_at : Option String

abbrev pub ProcessKey : Type 0
ProcessKey = ℕ × String

abbrev same_process : ProcessKey → ProcessKey → Bool
same_process (p, s) (q, t) = p == q && s == t

pub same_process_iff : (a b : ProcessKey) → (same_process a b ≡ true) ↔ (a ≡ b)
same_process_iff (p, s) (q, t) = ground (arith, ==_iff p q, ==_iff s t)

instance abbrev pub process_key : Key ProcessKey
process_key = record { same = same_process; same_iff = same_process_iff }

abbrev pub key_of : GpuProcessTransition → ProcessKey
key_of event = (event.pid, event.name)
