-- ===== src/Notifications/Delivery.antt =====
-- `_WebhookWorker._run` of notifications.py, for one envelope: the attempts and their outcome.
use mocop.Base.{
  ℕ, zero, suc, ◌+◌, String, Bool, true, false, not, ◌&&◌, ◌||◌, Option, none, some, if◌then◌else◌,
  ltb,
}
use mocop.Base.Dict.{contains}
use mocop.Incidents.Types.{opened, resolved}
use mocop.Processes.Transitions.{or_text}
use mocop.Notifications.Worker.{
  NotificationEnvelope, WebhookConfig, DeliveryResult, Worker, Pairing, pairing_key,
  same_transition, subscribes, evict, pop_key, move_to_end,
}

-- What the callback that was set says of an event.
pub data Check : Type 0 where
  unset raises : Check
  answers : Bool → Check

-- What the outside does in one attempt: whether the stop event ends the wait before a retry, or the
-- throttle's, the callback's answer, the time, and what the sender returns (nothing where it raises).
pub record Attempt : Type 0 where
  pub retry_stopped : Bool
  pub throttle_stopped : Bool
  pub check : Check
  pub at : String
  pub sent : Option DeliveryResult

pub data Outcome : Type 0 where
  stopped sent suppressed : Outcome
  failed : String → Outcome

-- What a delivery comes to, with the time of its last attempt and the number of calls of the sender.
pub record Delivery : Type 0 where
  pub outcome : Outcome
  pub last_attempt_at : Option String
  pub sends : ℕ

-- `_still_actionable`
unfoldable pub is_actionable : Check → Bool
is_actionable unset = true
is_actionable raises = true
is_actionable (answers actionable) = actionable

abbrev pub still_actionable : NotificationEnvelope → Check → Bool
still_actionable envelope check = envelope.is_test || is_actionable check

abbrev pub result_of : Option DeliveryResult → DeliveryResult
result_of (some result) = result
result_of none = record {
  success = false;
  retryable = true;
  error_code = some "sender_internal_failure";
}

abbrev pub is_stopped : ℕ → Attempt → Bool
is_stopped attempt a = ltb 0 attempt && a.retry_stopped || a.throttle_stopped

abbrev pub code_of : DeliveryResult → String
code_of result = or_text result.error_code "delivery_failed"

-- The loop over the attempts, with those that are left, the number of this one, and the last code and
-- time so far.
unfoldable pub deliver :
    (ℕ → Attempt) → NotificationEnvelope → ℕ → ℕ → String → Option String → Delivery
deliver world item zero attempt code last = record {
  outcome = failed code;
  last_attempt_at = last;
  sends = 0;
}
deliver world item (suc left) attempt code last =
    let a = world attempt in
    let result = result_of a.sent in
    let rest = deliver world item left (suc attempt) (code_of result) (some a.at) in
    if is_stopped attempt a
    then record { outcome = stopped; last_attempt_at = last; sends = 0 }
    else if not (still_actionable item a.check)
    then record { outcome = suppressed; last_attempt_at = last; sends = 0 }
    else if result.success
    then record { outcome = sent; last_attempt_at = some a.at; sends = 1 }
    else if not result.retryable
    then record { outcome = failed (code_of result); last_attempt_at = some a.at; sends = 1 }
    else record rest { sends = suc rest.sends }

abbrev pub pairing_of : NotificationEnvelope → Pairing
pairing_of item = (item.event.host, item.event.condition.key)

abbrev pub is_resolved : NotificationEnvelope → Bool
is_resolved item = same_transition item.event.state resolved

abbrev pub is_paired : WebhookConfig → NotificationEnvelope → Bool
is_paired config item = not item.is_test && (subscribes config opened && subscribes config resolved)

-- The receiver knows of a condition after a delivery that is not a recovery.
unfoldable pub pair : WebhookConfig → NotificationEnvelope → Worker → Worker
pair config item w =
    if not (is_paired config item)
    then w
    else if is_resolved item
    then record w { active_conditions = pop_key w.active_conditions (pairing_of item) }
    else (let (active, saturated) =
          evict (move_to_end w.active_conditions (pairing_of item)) w.pairing_saturated in
        record w { active_conditions = active; pairing_saturated = saturated })

-- The bookkeeping after the attempts; the thread ends on a stop.
unfoldable pub settle : WebhookConfig → NotificationEnvelope → String → Outcome → Worker → Worker
settle config item now stopped w = w
settle config item now sent w =
    pair config item
      (record w { delivered = w.delivered + 1; last_error = none; last_success_at = some now })
settle config item now suppressed w = record w { suppressed = w.suppressed + 1 }
settle config item now (failed code) w = record w {
  dropped = w.dropped + 1;
  last_error = some code;
}

-- A recovery of which the receiver never saw the opening.
abbrev pub is_unpaired : WebhookConfig → NotificationEnvelope → Worker → Bool
is_unpaired config item w =
    is_paired config item
    && (is_resolved item
        && (not (contains w.active_conditions (pairing_of item)) && not w.pairing_saturated))

unfoldable pub process :
    WebhookConfig → (ℕ → Attempt) → String → NotificationEnvelope → Worker → Worker × Outcome
process config world now item w =
    if is_unpaired config item w
    then (record w { suppressed = w.suppressed + 1 }, suppressed)
    else (let d = deliver world item config.max_attempts 0 "delivery_failed" w.last_attempt_at in
        (
          settle config item now d.outcome (record w { last_attempt_at = d.last_attempt_at }),
          d.outcome,
        ))
