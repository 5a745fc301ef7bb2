-- ===== src/Scheduler/Batches.antt =====
-- The probes in flight and their batches, in `run` of service_scheduler.py: what a submission and the
-- end of a probe do to them. Which hosts are due, and the pool, are not modelled.
use mocop.Base.{
  ℕ, zero, suc, ◌+◌, ◌-◌, String, Option, none, some, List, [], ◌∷◌, ◌++◌, if◌then◌else◌, ltb,
  length, nat_key, ◌==◌,
}
use mocop.Base.Int.{Float, ◌-ℤ◌}
use mocop.Base.Dict.{Dict, get, put, remove}

pub record ScheduledProbe : Type 0 where
  pub host : String
  pub started_at : Float
  pub batch_id : ℕ
  pub incarnation : ℕ

pub record ProbeBatch : Type 0 where
  pub started_at : Float
  pub remaining : ℕ

-- `in_flight` in the order of submission.
pub record Rounds : Type 0 where
  pub in_flight : List ScheduledProbe
  pub batches : Dict ℕ ProbeBatch
  pub next_batch_id : ℕ
  pub last_completed_batch_id : ℕ

-- The due hosts with their incarnations, as one batch.
unfoldable pub probes_of : Float → ℕ → List (String × ℕ) → List ScheduledProbe
probes_of started_at batch_id [] = []
probes_of started_at batch_id ((host, incarnation) ∷ due) =
    record { host = host; started_at = started_at; batch_id = batch_id; incarnation = incarnation }
    ∷ probes_of started_at batch_id due

unfoldable pub submit : Float → List (String × ℕ) → Rounds → Rounds
submit started_at [] r = r
submit started_at (first ∷ due) r = record r {
  in_flight = r.in_flight ++ probes_of started_at r.next_batch_id (first ∷ due);
  batches =
      put r.batches r.next_batch_id
        (record { started_at = started_at; remaining = length (first ∷ due) });
  next_batch_id = r.next_batch_id + 1;
}

-- The batch of a probe that has ended, and its duration where it is complete and no later one was.
-- A batch in the table has a probe left, so that the count stays a number.
unfoldable pub end_in : ℕ → Float → Option ProbeBatch → Rounds → Rounds × Option Float
end_in batch_id completed_at none r = (r, none)
end_in batch_id completed_at (some batch) r =
    if batch.remaining == 1
    then (if ltb r.last_completed_batch_id batch_id
        then (
          record r { batches = remove r.batches batch_id; last_completed_batch_id = batch_id },
          some (completed_at -ℤ batch.started_at),
        )
        else (record r { batches = remove r.batches batch_id }, none))
    else (
      record r {
        batches = put r.batches batch_id (record batch { remaining = batch.remaining - 1 });
      },
      none,
    )

-- The end of the probe at a place in flight.
unfoldable pub take_out : ℕ → List ScheduledProbe → List ScheduledProbe
take_out n [] = []
take_out zero (task ∷ tasks) = tasks
take_out (suc n) (task ∷ tasks) = task ∷ take_out n tasks

unfoldable pub probe_at : ℕ → List ScheduledProbe → Option ScheduledProbe
probe_at n [] = none
probe_at zero (task ∷ tasks) = some task
probe_at (suc n) (task ∷ tasks) = probe_at n tasks

-- One round of the loop of `drain_completed`, where it is not about schedules; nothing where no probe
-- is at that place.
unfoldable pub drain : ℕ → Float → Option ScheduledProbe → Rounds → Rounds × Option Float
drain n completed_at none r = (r, none)
drain n completed_at (some task) r =
    end_in task.batch_id completed_at (get r.batches task.batch_id)
      (record r { in_flight = take_out n r.in_flight })

pub data Step : Type 0 where
  submits : Float → List (String × ℕ) → Step
  ends : ℕ → Float → Step

unfoldable pub step : Step → Rounds → Rounds
step (submits started_at due) r = submit started_at due r
step (ends n completed_at) r = (drain n completed_at (probe_at n r.in_flight) r).0

unfoldable pub steps : List Step → Rounds → Rounds
steps [] r = r
steps (first ∷ rest) r = steps rest (step first r)
