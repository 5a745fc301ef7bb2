-- ===== src/Notifications/Runs.antt =====
-- What happens to a worker over time, and what its receiver gets.
use mocop.Base.{
  ℕ, String, Bool, true, false, not, ◌&&◌, Option, none, some, List, [], ◌∷◌, if◌then◌else◌, ◌==◌,
  ◌≡◌,
}
use mocop.Base.Int.{Float}
use mocop.Base.Dict.{contains}
use mocop.Notifications.Worker.{
  NotificationEnvelope, WebhookConfig, Worker, Pairing, pairing_key, publish, test_available,
  queue_test, close_worker,
}
use mocop.Notifications.Delivery.{
  Attempt, Outcome, stopped, sent, suppressed, failed, process, pairing_of, is_resolved,
}

-- The worker's thread takes the envelope that waits longest.
unfoldable pub work_on :
    WebhookConfig
    → (ℕ → Attempt)
    → String
    → List NotificationEnvelope
    → Worker
    → Worker × Option (NotificationEnvelope × Outcome)
work_on config world now [] w = (w, none)
work_on config world now (item ∷ rest) w =
    let (w', outcome) = process config world now item (record w { queue = rest }) in
    (w', some (item, outcome))

-- What is done to a worker: an event is published, a test is queued, the thread does one round, or
-- the worker is closed.
pub data Action : Type 0 where
  publishing : NotificationEnvelope → Action
  testing : NotificationEnvelope → Float → Float → Action
  working : (ℕ → Attempt) → String → Action
  closing : Action

-- What the receiver has got, the latest first.
abbrev pub Log : Type 0
Log = List NotificationEnvelope

unfoldable pub receive : Option (NotificationEnvelope × Outcome) → Log → Log
receive none log = log
receive (some (item, sent)) log = item ∷ log
receive (some (item, stopped)) log = log
receive (some (item, suppressed)) log = log
receive (some (item, failed code)) log = log

unfoldable pub perform : WebhookConfig → Action → Worker × Log → Worker × Log
perform config (publishing envelope) (w, log) = (publish config envelope w, log)
perform config (testing envelope thirty_seconds now) (w, log) =
    (if test_available thirty_seconds now w then queue_test envelope now w else w, log)
perform config (working world now) (w, log) =
    let (w', done) = work_on config world now w.queue w in (w', receive done log)
perform config closing (w, log) = (close_worker w, log)

unfoldable pub perform_all : WebhookConfig → List Action → Worker × Log → Worker × Log
perform_all config [] state = state
perform_all config (action ∷ actions) state =
    perform_all config actions (perform config action state)

-- Whether the receiver takes a condition to be open, by the last delivery about it; `known` is what it
-- was told before.
unfoldable pub is_known : List Pairing → Log → Pairing → Bool
is_known known [] key = contains known key
is_known known (item ∷ log) key =
    let before = is_known known log key in
    if not item.is_test && pairing_of item == key then not (is_resolved item) else before

-- Each recovery that the receiver got is of a condition that it took to be open.
abbrev pub Paired : List Pairing → Log → Type 0
Paired known [] = Unit
Paired known (item ∷ log) =
    (item.is_test ≡ false → is_resolved item ≡ true → is_known known log (pairing_of item) ≡ true)
    × Paired known log
