-- ===== src/Notifications/Sink.antt =====
-- `WebhookNotificationSink` of notifications.py: the workers of all endpoints.
use mocop.Base.{
  ◌≤◌, String, Bool, true, false, not, ◌&&◌, ◌||◌, Option, none, some, List, [], ◌∷◌, ◌++◌,
  if◌then◌else◌, ◌≡◌, refl, arith, length, length-append, if-split, string_key,
}
use mocop.Base.Int.{Float, pos}
use mocop.Base.Dict.{contains}
use mocop.Incidents.Types.{IncidentEvent, warning, opened}
use mocop.Fleet.Correlation.{Correlation}
use mocop.Notifications.Worker.{
  NotificationEnvelope, WebhookConfig, Worker, Pairing, publish, test_available, queue_test,
  queue_capacity, is_full, create,
}

pub record Endpoint : Type 0 where
  pub config : WebhookConfig
  pub worker : Worker

-- `__init__`
unfoldable pub create_sink : List WebhookConfig → List Pairing → List Endpoint
create_sink [] known = []
create_sink (config ∷ configs) known =
    record { config = config; worker = create known } ∷ create_sink configs known

-- The first correlation that names the host.
unfoldable pub correlation_of : List Correlation → String → Option Correlation
correlation_of [] host = none
correlation_of (item ∷ items) host =
    let rest = correlation_of items host in if contains item.hosts host then some item else rest

unfoldable pub publish_to : NotificationEnvelope → List Endpoint → List Endpoint
publish_to envelope [] = []
publish_to envelope (e ∷ endpoints) =
    record e { worker = publish e.config envelope e.worker } ∷ publish_to envelope endpoints

-- `publish`
unfoldable pub publish_events :
    List IncidentEvent → List Correlation → List Endpoint → List Endpoint
publish_events [] correlations endpoints = endpoints
publish_events (event ∷ events) correlations endpoints = publish_events events correlations (
    publish_to
      (record {
        event = event;
        correlation = correlation_of correlations event.host;
        is_test = false;
      })
      endpoints)

unfoldable pub all_available : Float → Float → List Endpoint → Bool
all_available thirty_seconds now [] = true
all_available thirty_seconds now (e ∷ endpoints) =
    test_available thirty_seconds now e.worker && all_available thirty_seconds now endpoints

unfoldable pub queue_tests : NotificationEnvelope → Float → List Endpoint → List Endpoint
queue_tests envelope now [] = []
queue_tests envelope now (e ∷ endpoints) =
    record e { worker = queue_test envelope now e.worker } ∷ queue_tests envelope now endpoints

abbrev pub has_endpoints : List Endpoint → Bool
has_endpoints [] = false
has_endpoints (e ∷ endpoints) = true

-- The event of a test, which is not about an incident.
abbrev pub test_envelope : String → NotificationEnvelope
test_envelope observed_at = record {
  event = record {
    event_id = 0;
    host = "mocop";
    condition = record {
      key = "notification_test";
      category = "notification_test";
      resource = "Webhook delivery";
      severity = warning;
      value = none;
      threshold = none;
      observed_at = observed_at;
      detail = some "Operator-requested delivery test";
      open_after_cycles = 1;
      recovery_cycles = 1;
      group_key = none;
      open_after_seconds = pos 0;
      below_threshold = false;
      critical_at = none;
      recovery_margin = pos 0;
    };
    state = opened;
    observed_at = observed_at;
  };
  correlation = none;
  is_test = true;
}

-- `test`, at a time, under the locks of all workers
unfoldable pub test : String → Float → Float → List Endpoint → Bool × List Endpoint
test observed_at thirty_seconds now endpoints =
    if not (has_endpoints endpoints) || not (all_available thirty_seconds now endpoints)
    then (false, endpoints)
    else (true, queue_tests (test_envelope observed_at) now endpoints)

-- What a test leaves of one endpoint: it waits last, and the queue is not above its capacity.
pub record Queued (envelope : NotificationEnvelope) (now : Float) (old new : Endpoint)
    : Type 0 where
  pub last : new.worker.queue ≡ old.worker.queue ++ envelope ∷ []
  pub bound : length new.worker.queue ≤ queue_capacity
  pub since : new.worker.last_test_queued_at ≡ some now

-- The endpoints of two lists, side by side.
pub data Pairwise (R : Endpoint → Endpoint → Type 0) : List Endpoint → List Endpoint → Type 0 where
  done : Pairwise R [] []
  next :
      {x y : Endpoint} {xs ys : List Endpoint}
      → R x y
      → Pairwise R xs ys
      → Pairwise R (x ∷ xs) (y ∷ ys)

-- What `test` comes to, by its answer.
abbrev pub Answered : NotificationEnvelope → Float → List Endpoint → Bool → List Endpoint → Type 0
Answered envelope now old true new =
    Pairwise (Queued envelope now) old new × (has_endpoints old ≡ true)
Answered envelope now old false new = new ≡ old

queue_tests-Pairwise :
    (envelope : NotificationEnvelope) (thirty_seconds now : Float) (endpoints : List Endpoint)
    → all_available thirty_seconds now endpoints ≡ true
    → Pairwise (Queued envelope now) endpoints (queue_tests envelope now endpoints)
unfolding queue_tests all_available
queue_tests-Pairwise envelope thirty_seconds now [] h = done
queue_tests-Pairwise envelope thirty_seconds now (e ∷ endpoints) h =
    let room : is_full e.worker ≡ false = ground (arith, h) in
    next
      (record {
        last = refl;
        bound = ground (arith, room, length-append e.worker.queue (envelope ∷ []));
        since = refl;
      })
      (queue_tests-Pairwise envelope thirty_seconds now endpoints (ground (arith, h)))

-- A test is queued for all endpoints or for none: if the answer is no, nothing has changed, and if it is
-- yes, there are endpoints, and the test waits last in the queue of each, which is within its capacity.
pub test-Answered :
    (observed_at : String) (thirty_seconds now : Float) (endpoints : List Endpoint)
    → Answered
        (test_envelope observed_at)
        now
        endpoints
        (test observed_at thirty_seconds now endpoints).0
        (test observed_at thirty_seconds now endpoints).1
unfolding test
test-Answered observed_at thirty_seconds now endpoints =
    let envelope : NotificationEnvelope = test_envelope observed_at in
    if-split {A = Bool × List Endpoint} (λ r. Answered envelope now endpoints r.0 r.1)
      (not (has_endpoints endpoints) || not (all_available thirty_seconds now endpoints))
      (false, endpoints) (true, queue_tests envelope now endpoints) (λ _. refl)
      (λ e. (
        queue_tests-Pairwise envelope thirty_seconds now endpoints (ground (arith, e)),
        ground (arith, e),
      ))
