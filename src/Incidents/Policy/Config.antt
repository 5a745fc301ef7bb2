-- ===== src/Incidents/Policy/Config.antt =====
-- The configuration that the policy reads (config.py), and the float arithmetic that it uses.
use mocop.Base.{ℕ, ◌*◌, String}
use mocop.Base.Int.{Float, pos}

-- Floats are counted in units of which `unit` make 1. Division, rounding and printing are Python's.
pub record Arithmetic : Type 0 where
  pub unit : ℕ
  -- round((used / total) * 100, 2), for a positive total
  pub percent_of : Float → Float → Float
  -- round(x, 2)
  pub round2 : Float → Float
  -- the text of a float in an f-string
  pub str_float : Float → String

-- The float of a whole number.
abbrev pub number : Arithmetic → ℕ → Float
number a n = pos (n * a.unit)

pub record ThresholdConfig : Type 0 where
  pub cpu_warning_pct : Float
  pub memory_warning_pct : Float
  pub swap_warning_pct : Float
  pub disk_warning_pct : Float
  pub disk_min_free_gib : Float
  pub psi_memory_some_pct : Float
  pub psi_io_some_pct : Float
  pub gpu_temperature_warning_c : Float
  pub gpu_busy_pct : Float
  pub gpu_memory_warning_pct : Float
  pub gpu_idle_memory_pct : Float

pub record IncidentConfig : Type 0 where
  pub resource_open_cycles : ℕ
  pub recovery_cycles : ℕ
  pub gpu_idle_memory_cycles : ℕ
  pub resource_open_seconds : Float
  pub gpu_idle_memory_seconds : Float
  pub recovery_margin : Float
