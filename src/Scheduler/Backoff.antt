-- ===== src/Scheduler/Backoff.antt =====
-- The delay after failures, and what the end of a probe does to a host's schedule.
use mocop.Base.{
  ℕ, suc, ◌-◌, ◌^◌, min, String, Option, none, some, List, if◌then◌else◌, string_key, or_else,
}
use mocop.Base.Int.{Float, pos, leb_ℤ, ◌*ℤ◌}
use mocop.Base.Dict.{Dict, get, put, remove, restrict, contains}

-- The longest delay, 60 seconds, `base * (1 - pct / 100 * crc32(host, failures) / 0xFFFFFFFF)`, and the
-- sums and differences of Python's floats, which round.
pub record Delays : Type 0 where
  pub max_failure_backoff_seconds : Float
  pub jittered : Float → Float → String → ℕ → Float
  pub plus : Float → Float → Float
  pub minus : Float → Float → Float

module _ (d : Delays) where
  unfoldable pub base_delay : Float → ℕ → Float
  base_delay interval_seconds failures =
      let scaled = interval_seconds *ℤ pos (2 ^ min (failures - 1) 10) in
      if leb_ℤ d.max_failure_backoff_seconds scaled then d.max_failure_backoff_seconds else scaled

  unfoldable pub backoff_delay : Float → ℕ → String → Float → Float
  backoff_delay interval_seconds failures host jitter_pct =
      let base = base_delay interval_seconds failures in
      if leb_ℤ jitter_pct (pos 0) then base else d.jittered base jitter_pct host failures

-- The scheduler's tables of the hosts that fail.
pub record Schedule : Type 0 where
  pub failure_counts : Dict String ℕ
  pub next_probe_at : Dict String Float
  pub backoff_policies : Dict String (Float × Float)

-- The tables that `poll_once` keeps for the hosts that are still discovered.
unfoldable pub retain_active : List String → Schedule → Schedule
retain_active hosts s = record {
  failure_counts = restrict (λ host. contains hosts host) s.failure_counts;
  next_probe_at = restrict (λ host. contains hosts host) s.next_probe_at;
  backoff_policies = restrict (λ host. contains hosts host) s.backoff_policies;
}

module _ (d : Delays) where
  -- The end of a probe that `poll_once` started at `now`: the schedule, and the delay of the retry.
  unfoldable pub on_online : Option Float → Float → String → Schedule → Schedule × Option Float
  on_online override now host s = (
    record s {
      failure_counts = remove s.failure_counts host;
      backoff_policies = remove s.backoff_policies host;
      next_probe_at = elim override [
        | none ↦ remove s.next_probe_at host
        | some interval ↦ put s.next_probe_at host (d.plus now interval)
      ];
    },
    none,
  )

  unfoldable pub on_failure : Float → Float → Float → String → Schedule → Schedule × Option Float
  on_failure interval jitter_pct completed_at host s =
      let failures = suc (or_else (get s.failure_counts host) 0) in
      let delay = backoff_delay d interval failures host jitter_pct in
      (
        record s {
          failure_counts = put s.failure_counts host failures;
          next_probe_at = put s.next_probe_at host (d.plus completed_at delay);
          backoff_policies = put s.backoff_policies host (interval, jitter_pct);
        },
        some delay,
      )
