-- ===== src/Notifications/Worker.antt =====
-- `_WebhookWorker` of notifications.py: its state, and each method as a function on it. What the
-- outside does during a delivery (waits that the stop event ends, the callback, the sender and the
-- clock) is one record per attempt; how long a wait lasts is not modelled.
use mocop.Base.{
  ℕ, suc, ◌+◌, String, Bool, true, false, not, ◌&&◌, Option, none, some, List, [], ◌∷◌, ◌++◌,
  if◌then◌else◌, ltb, leb, length, filter, any, nat_key, string_key, ◌==◌, ==_iff, ◌≡◌, ◌↔◌, arith,
  Key,
}
use mocop.Base.Int.{Float, ◌-ℤ◌, leb_ℤ}
use mocop.Base.Dict.{contains}
use mocop.Incidents.Types.{Transition, opened, resolved, escalated, deescalated, IncidentEvent}
use mocop.Fleet.Correlation.{Correlation}

-- The host and the key of a condition.
abbrev pub Pairing : Type 0
Pairing = String × String

pub same_pairing_iff : (a b : Pairing) → ((a.0 == b.0 && a.1 == b.1) ≡ true) ↔ (a ≡ b)
same_pairing_iff (h, k) (h', k') = ground (arith, ==_iff h h', ==_iff k k')

instance abbrev pub pairing_key : Key Pairing
pairing_key = record { same = λ a b. a.0 == b.0 && a.1 == b.1; same_iff = same_pairing_iff }

pub record NotificationEnvelope : Type 0 where
  pub event : IncidentEvent
  pub correlation : Option Correlation
  pub is_test : Bool

-- The part of an endpoint's configuration that its worker reads.
pub record WebhookConfig : Type 0 where
  pub name : String
  pub events : List Transition
  pub max_attempts : ℕ

pub record DeliveryResult : Type 0 where
  pub success : Bool
  pub retryable : Bool
  pub error_code : Option String

-- A test that was never queued has no time: minus infinity.
pub record Worker : Type 0 where
  pub queue : List NotificationEnvelope
  pub seen_order : List ℕ
  pub seen : List ℕ
  pub dropped : ℕ
  pub suppressed : ℕ
  pub delivered : ℕ
  pub last_error : Option String
  pub last_attempt_at : Option String
  pub last_success_at : Option String
  pub last_test_queued_at : Option Float
  pub closed : Bool
  pub active_conditions : List Pairing
  pub pairing_saturated : Bool

abbrev pub queue_capacity : ℕ
queue_capacity = 1024

abbrev pub seen_capacity : ℕ
seen_capacity = 4096

abbrev pub same_transition : Transition → Transition → Bool
same_transition opened opened = true
same_transition resolved resolved = true
same_transition escalated escalated = true
same_transition deescalated deescalated = true
same_transition _ _ = false

abbrev pub subscribes : WebhookConfig → Transition → Bool
subscribes config state = any (same_transition state) config.events

-- `while len(keys) > capacity: keys.popitem(last=False)`, with the flag that this sets
unfoldable pub evict : List Pairing → Bool → List Pairing × Bool
evict [] saturated = ([], saturated)
evict (key ∷ keys) saturated =
    let rest = evict keys true in
    if ltb seen_capacity (suc (length keys)) then rest else (key ∷ keys, saturated)

-- An `OrderedDict` whose values are None: insertion, and insertion at the end.
abbrev pub insert_key : List Pairing → Pairing → List Pairing
insert_key keys key = if contains keys key then keys else keys ++ key ∷ []

abbrev pub pop_key : List Pairing → Pairing → List Pairing
pop_key keys key = filter (λ k. not (k == key)) keys

abbrev pub move_to_end : List Pairing → Pairing → List Pairing
move_to_end keys key = pop_key keys key ++ key ∷ []

abbrev pub insert_keys : List Pairing → List Pairing → List Pairing
insert_keys keys [] = keys
insert_keys keys (key ∷ more) = insert_keys (insert_key keys key) more

-- `__init__`
unfoldable pub create : List Pairing → Worker
unfolding evict
create known_conditions =
    let (active, saturated) = evict (insert_keys [] known_conditions) false in
    record {
      queue = [];
      seen_order = [];
      seen = [];
      dropped = 0;
      suppressed = 0;
      delivered = 0;
      last_error = none;
      last_attempt_at = none;
      last_success_at = none;
      last_test_queued_at = none;
      closed = false;
      active_conditions = active;
      pairing_saturated = saturated;
    }

abbrev pub is_full : Worker → Bool
is_full w = leb queue_capacity (length w.queue)

-- `while len(order) > capacity: seen.discard(order.popleft())`
unfoldable pub trim : List ℕ → List ℕ → List ℕ × List ℕ
trim [] seen = ([], seen)
trim (id ∷ order) seen =
    let rest = trim order (filter (λ i. not (i == id)) seen) in
    if ltb seen_capacity (suc (length order)) then rest else (id ∷ order, seen)

abbrev pub drop_event : String → Worker → Worker
drop_event error w = record w { dropped = w.dropped + 1; last_error = some error }

abbrev pub enqueue : NotificationEnvelope → Worker → Worker
enqueue envelope w = record w { queue = w.queue ++ envelope ∷ [] }

unfoldable pub remember : ℕ → Worker → Worker
unfolding trim
remember id w =
    let (order, seen) = trim (w.seen_order ++ id ∷ []) (id ∷ w.seen) in
    record w { seen_order = order; seen = seen }

unfoldable pub publish : WebhookConfig → NotificationEnvelope → Worker → Worker
publish config envelope w =
    if not (subscribes config envelope.event.state)
    then w
    else if w.closed
    then drop_event "notification endpoint is closed" w
    else if contains w.seen envelope.event.event_id
    then w
    else if is_full w
    then drop_event "delivery queue is full" w
    else remember envelope.event.event_id (enqueue envelope w)

-- `_test_available_locked`
abbrev pub is_rested : Float → Float → Option Float → Bool
is_rested thirty_seconds now none = true
is_rested thirty_seconds now (some last) = leb_ℤ thirty_seconds (now -ℤ last)

abbrev pub test_available : Float → Float → Worker → Bool
test_available thirty_seconds now w =
    not w.closed && (is_rested thirty_seconds now w.last_test_queued_at && not (is_full w))

-- `_queue_test_locked`
abbrev pub queue_test : NotificationEnvelope → Float → Worker → Worker
queue_test envelope now w = record (enqueue envelope w) { last_test_queued_at = some now }

abbrev pub close_worker : Worker → Worker
close_worker w = record w { closed = true }
