-- ===== src/Scheduler/Settled.antt =====
-- What `_rebase_failure_backoff` does to the schedule as a whole, and what it keeps.
use mocop.Base.{
  ℕ, String, Bool, Option, none, some, if◌then◌else◌, string_key, or_else, not, ◌||◌, is_some,
}
use mocop.Base.Int.{Float}
use mocop.Base.Dict.{Dict, get}
use mocop.Scheduler.Backoff.{Delays, Schedule}
use mocop.Scheduler.Rebase.{same_policy, policy_of, moved_deadline}

module _ (d : Delays) (now jitter_pct : Float) (interval_of : String → Float) where
  -- What one pass makes of a host's deadline and recorded policy, by its number of failures.
  pub rebased :
      String
      → Option ℕ
      → Option Float
      → Option (Float × Float)
      → Option Float × Option (Float × Float)
  rebased host none deadline policy = (deadline, policy)
  rebased host (some failures) none policy = (none, policy)
  rebased host (some failures) (some deadline) policy =
      let previous = or_else policy (policy_of d now jitter_pct interval_of host) in
      if same_policy (policy_of d now jitter_pct interval_of host) previous
      then (some deadline, policy)
      else (
        some (moved_deadline d now jitter_pct interval_of host failures previous deadline),
        some (policy_of d now jitter_pct interval_of host),
      )

  pub entry : Schedule → String → Option Float × Option (Float × Float)
  entry s host = (get s.next_probe_at host, get s.backoff_policies host)

  -- A host whose deadline is as the policy in force wants it.
  is_settled : Option Float × Option (Float × Float) → String → Bool
  is_settled (deadline, policy) host =
      not (is_some deadline)
      || same_policy (policy_of d now jitter_pct interval_of host)
          (or_else policy (policy_of d now jitter_pct interval_of host))
