-- ===== src/Scheduler/Tests.antt =====
-- The theorems about the scheduler at concrete states.
use mocop.Base.{◌≡◌, refl, true, String, List, [], ◌∷◌, string_key, nat_key, is_some, ltb}
use mocop.Base.Int.{Float, pos, ◌-ℤ◌, ◌+ℤ◌}
use mocop.Base.Dict.{get, contains}
use mocop.Scheduler.Control.{
  Control, Monitored, request_probe, keep_discovered, keep_discovered-Monitored,
}
use mocop.Scheduler.Cooldown.{
  Event, requests, starts, ends, refreshes, happen_all, Spaced, last_accepted, happen_all-Spaced,
}
use mocop.Scheduler.Backoff.{Delays, Schedule}
use mocop.Scheduler.Batches.{Step, submits, ends as finishes, steps}
use mocop.Scheduler.Counted.{count, left, idle_rounds, steps-counted}

abbrev control : Control
control = record {
  runtime_hosts = "gpu-1" ∷ [];
  runtime_in_flight = [];
  manual_probe_requests = [];
  last_manual_probe_at = [];
}

-- Accepted, probed, refused and accepted again, and then once more after a change of the inventory.
abbrev events : List Event
events =
    requests "gpu-1" (pos 100) (pos 5)
    ∷ starts "gpu-1"
    ∷ ends "gpu-1"
    ∷ requests "gpu-1" (pos 103) (pos 5)
    ∷ requests "gpu-1" (pos 106) (pos 5)
    ∷ refreshes true []
    ∷ refreshes true ("gpu-1" ∷ [])
    ∷ requests "gpu-1" (pos 107) (pos 5)
    ∷ []

happen_all-Spaced_example :
    Spaced ◌-ℤ◌ (λ x. x) (happen_all ◌-ℤ◌ (λ x. x) events (control, [])).1
    × ((host : String)
        → get (happen_all ◌-ℤ◌ (λ x. x) events (control, [])).0.last_manual_probe_at host
          ≡ last_accepted (happen_all ◌-ℤ◌ (λ x. x) events (control, [])).1 host)
happen_all-Spaced_example = happen_all-Spaced ◌-ℤ◌ (λ x. x) control events refl

control-Monitored : Monitored control
unfolding contains
control-Monitored host h = cc

keep_discovered-Monitored_example :
    Monitored (request_probe ◌-ℤ◌ (λ x. x) "gpu-1" (pos 200) (pos 5) control).1
    × Monitored (keep_discovered [] control)
keep_discovered-Monitored_example =
    keep_discovered-Monitored ◌-ℤ◌ (λ x. x) control "gpu-1" (pos 200) (pos 5) [] control-Monitored

abbrev delays : Delays
delays = record {
  max_failure_backoff_seconds = pos 60;
  jittered = λ base pct host failures. base;
  plus = λ a b. a +ℤ b +ℤ pos 1;
  minus = ◌-ℤ◌;
}

abbrev schedule : Schedule
schedule = record {
  failure_counts = ("gpu-1", 2) ∷ [];
  next_probe_at = ("gpu-1", pos 110) ∷ [];
  backoff_policies = ("gpu-1", (pos 5, pos 0)) ∷ [];
}

-- The interval has become 10 seconds.
abbrev interval_of : String → Float
interval_of host = pos 10

-- Two batches, of which the first ends.
abbrev two_batches : List Step
two_batches =
    submits (pos 100) (("a", 1) ∷ ("b", 2) ∷ [])
    ∷ finishes 1 (pos 150)
    ∷ submits (pos 200) (("c", 3) ∷ [])
    ∷ finishes 0 (pos 250)
    ∷ []

steps-counted_example :
    (left (get (steps two_batches idle_rounds).batches 2)
      ≡ count 2 (steps two_batches idle_rounds).in_flight)
    × (is_some (get (steps two_batches idle_rounds).batches 2)
        ≡ ltb 0 (count 2 (steps two_batches idle_rounds).in_flight))
steps-counted_example = steps-counted two_batches 2
