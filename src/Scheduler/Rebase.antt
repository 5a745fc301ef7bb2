-- ===== src/Scheduler/Rebase.antt =====
-- `_rebase_failure_backoff`: a changed interval moves the retries of the hosts that fail.
use mocop.Base.{
  ℕ, String, Bool, ◌&&◌, Option, none, some, List, [], ◌∷◌, ◌++◌, if◌then◌else◌, string_key,
  or_else,
}
use mocop.Base.Int.{Float, pos, leb_ℤ}
use mocop.Base.Dict.{Dict, get, put}
use mocop.Scheduler.Backoff.{Delays, Schedule, backoff_delay}

abbrev same_float : Float → Float → Bool
same_float a b = leb_ℤ a b && leb_ℤ b a

abbrev pub same_policy : Float × Float → Float × Float → Bool
same_policy (i, j) (k, l) = same_float i k && same_float j l

module _ (d : Delays) (now jitter_pct : Float) (interval_of : String → Float) where
  abbrev pub policy_of : String → Float × Float
  policy_of host = (interval_of host, jitter_pct)

  unfoldable pub moved_deadline : String → ℕ → Float × Float → Float → Float
  moved_deadline host failures previous deadline =
      d.plus (d.minus deadline (backoff_delay d previous.0 failures host previous.1))
        (backoff_delay d (interval_of host) failures host jitter_pct)

  -- One round of the loop, with the host's deadline: the schedule, and the delays handed to the state.
  unfoldable pub rebase_deadline :
      String
      → ℕ
      → Option Float
      → Schedule
      → List (String × Float)
      → Schedule × List (String × Float)
  rebase_deadline host failures none s retries = (s, retries)
  rebase_deadline host failures (some deadline) s retries =
      let previous = or_else (get s.backoff_policies host) (policy_of host) in
      let moved = moved_deadline host failures previous deadline in
      if same_policy (policy_of host) previous then (s, retries) else (
        record s {
          next_probe_at = put s.next_probe_at host moved;
          backoff_policies = put s.backoff_policies host (policy_of host);
        },
        retries
            ++ (host, (let left = d.minus moved now in if leb_ℤ (pos 0) left then left else pos 0))
              ∷ [],
      )

  unfoldable pub rebase_each :
      Dict String ℕ → Schedule → List (String × Float) → Schedule × List (String × Float)
  rebase_each [] s retries = (s, retries)
  rebase_each ((host, failures) ∷ rest) s retries =
      let (s', retries') = rebase_deadline host failures (get s.next_probe_at host) s retries in
      rebase_each rest s' retries'

  unfoldable pub rebase_failure_backoff : Schedule → Schedule × List (String × Float)
  rebase_failure_backoff s = rebase_each s.failure_counts s []
