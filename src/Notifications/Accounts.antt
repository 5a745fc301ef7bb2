-- ===== src/Notifications/Accounts.antt =====
-- Every event that a worker takes is counted once, and its tables stay within bounds.
use mocop.Base.{
  ℕ, suc, ◌+◌, String, Bool, true, false, not, ◌&&◌, ◌||◌, Option, none, some, List, [], ◌∷◌,
  if◌then◌else◌, nat_key, ◌≡◌, refl, ap, arith, length, length-append, if-split,
}
use mocop.Base.Int.{Float}
use mocop.Base.Dict.{contains}
use mocop.Notifications.Worker.{
  NotificationEnvelope, WebhookConfig, Worker, Pairing, pairing_key, publish, test_available,
  queue_test, close_worker, remember, subscribes, create,
}
use mocop.Notifications.Delivery.{
  Attempt, Outcome, stopped, sent, suppressed, failed, process, settle, pair, is_unpaired, deliver,
}
use mocop.Notifications.Runs.{
  work_on, Action, publishing, testing, working, closing, Log, perform, perform_all,
}
use mocop.Notifications.Bounds.{IsValid, publish-split, publish-IsValid, enqueue-IsValid}

-- What waits, and what was counted.
pub total : Worker → ℕ
total w = length w.queue + w.delivered + w.suppressed + w.dropped

-- An envelope is lost only where the thread stops with it in hand.
pub lost : Outcome → ℕ
lost stopped = 1
lost sent = 0
lost suppressed = 0
lost (failed code) = 0

-- The tables are left alone, and the envelope is counted.
record Counted (v w : Worker) (one : ℕ) : Type 0 where
  same_queue : v.queue ≡ w.queue
  same_order : v.seen_order ≡ w.seen_order
  same_seen : v.seen ≡ w.seen
  same_total : total v ≡ total w + one

pair-Counted :
    (config : WebhookConfig) (item : NotificationEnvelope) (w : Worker)
    → Counted (pair config item w) w 0
unfolding pair total
pair-Counted config item w = record {
  same_queue = ground arith;
  same_order = ground arith;
  same_seen = ground arith;
  same_total = ground arith;
}

-- One envelope in hand, and then not.
record Processed (v w : Worker) (o : Outcome) : Type 0 where
  same_queue : v.queue ≡ w.queue
  same_order : v.seen_order ≡ w.seen_order
  same_seen : v.seen ≡ w.seen
  accounted : total v + lost o ≡ total w + 1

settle-Processed :
    (config : WebhookConfig) (item : NotificationEnvelope) (now : String) (o : Outcome) (w : Worker)
    → Processed (settle config item now o w) w o
unfolding settle total lost
settle-Processed config item now stopped w = record {
  same_queue = refl;
  same_order = refl;
  same_seen = refl;
  accounted = refl;
}
settle-Processed config item now sent w =
    let c =
      pair-Counted config item
        (record w { delivered = w.delivered + 1; last_error = none; last_success_at = some now }) in
    record {
      same_queue = c.same_queue;
      same_order = c.same_order;
      same_seen = c.same_seen;
      accounted = omega (arith, c.same_total);
    }
settle-Processed config item now suppressed w = record {
  same_queue = refl;
  same_order = refl;
  same_seen = refl;
  accounted = omega arith;
}
settle-Processed config item now (failed code) w = record {
  same_queue = refl;
  same_order = refl;
  same_seen = refl;
  accounted = omega arith;
}

process-Processed :
    (config : WebhookConfig) (world : ℕ → Attempt) (now : String) (item : NotificationEnvelope)
    (w : Worker)
    → Processed (process config world now item w).0 w (process config world now item w).1
unfolding process total lost
process-Processed config world now item w =
    let d = deliver world item config.max_attempts 0 "delivery_failed" w.last_attempt_at in
    if-split {A = Worker × Outcome} (λ r. Processed r.0 w r.1) (is_unpaired config item w)
      (record w { suppressed = w.suppressed + 1 }, suppressed)
      (
        settle config item now d.outcome (record w { last_attempt_at = d.last_attempt_at }),
        d.outcome,
      )
      (λ _. record {
        same_queue = refl;
        same_order = refl;
        same_seen = refl;
        accounted = omega arith;
      })
      (λ _.
        let s =
          settle-Processed config item now d.outcome
            (record w { last_attempt_at = d.last_attempt_at }) in
        record {
          same_queue = s.same_queue;
          same_order = s.same_order;
          same_seen = s.same_seen;
          accounted = omega (arith, s.accounted);
        })

-- The envelopes that an action hands to the worker: an event that the endpoint subscribes to and that
-- the worker does not remember (one that a closed worker gets counts whatever it remembers), or a test
-- that is allowed.
pub taken : WebhookConfig → Action → Worker → ℕ
taken config (publishing envelope) w =
    if subscribes config envelope.event.state
      && (w.closed || not (contains w.seen envelope.event.event_id))
    then 1
    else 0
taken config (testing envelope thirty_seconds now) w =
    if test_available thirty_seconds now w then 1 else 0
taken config (working world now) w = 0
taken config closing w = 0

lost_of : Option (NotificationEnvelope × Outcome) → ℕ
lost_of none = 0
lost_of (some (item, outcome)) = lost outcome

pub lost_in : WebhookConfig → Action → Worker → ℕ
lost_in config (publishing envelope) w = 0
lost_in config (testing envelope thirty_seconds now) w = 0
lost_in config (working world now) w = lost_of (work_on config world now w.queue w).1
lost_in config closing w = 0

pub taken_all : WebhookConfig → List Action → Worker × Log → ℕ
taken_all config [] state = 0
taken_all config (action ∷ actions) state =
    taken config action state.0 + taken_all config actions (perform config action state)

pub lost_all : WebhookConfig → List Action → Worker × Log → ℕ
lost_all config [] state = 0
lost_all config (action ∷ actions) state =
    lost_in config action state.0 + lost_all config actions (perform config action state)

total-publish :
    (config : WebhookConfig) (envelope : NotificationEnvelope) (w : Worker)
    → total (publish config envelope w) ≡ total w + taken config (publishing envelope) w
unfolding total taken remember
total-publish config envelope w =
    publish-split (λ v. total v ≡ total w + taken config (publishing envelope) w) config envelope w
      (λ e. rw e (omega arith)) (λ e c. rw (e, c) (omega arith))
      (λ e c d. rw (e, c, d) (omega arith)) (λ e c d f. rw (e, c, d) (omega arith))
      (λ e c d f. rw (e, c, d) (omega (arith, length-append w.queue (envelope ∷ []))))

work_on-total :
    (config : WebhookConfig) (world : ℕ → Attempt) (now : String) (w : Worker)
    (queue : List NotificationEnvelope)
    → w.queue ≡ queue
    → (total (work_on config world now queue w).0 + lost_of (work_on config world now queue w).1
        ≡ total w)
      × (IsValid w → IsValid (work_on config world now queue w).0)
unfolding work_on total lost_of
work_on-total config world now w [] e = (omega arith, λ h. h)
work_on-total config world now w (item ∷ rest) e =
    let p = process-Processed config world now item (record w { queue = rest }) in
    (
      rw e (omega (arith, p.accounted)),
      λ h. record {
        queue_bound = rw p.same_queue (
            let b : length w.queue ≡ suc (length rest) =
              ap (λ (q : List NotificationEnvelope). length q) e in
            omega (arith, b, h.queue_bound));
        order_bound = rw p.same_order h.order_bound;
        matches = rw (p.same_order, p.same_seen) h.matches;
      },
    )

test-total :
    (envelope : NotificationEnvelope) (now : Float) (w : Worker) (b : Bool)
    → total (if b then queue_test envelope now w else w) ≡ total w + (if b then 1 else 0)
unfolding total
test-total envelope now w true = omega (arith, length-append w.queue (envelope ∷ []))
test-total envelope now w false = omega arith

closed-total : (w : Worker) → total (close_worker w) ≡ total w
unfolding total
closed-total w = refl

perform-total :
    (config : WebhookConfig) (action : Action) (state : Worker × Log)
    → total (perform config action state).0 + lost_in config action state.0
      ≡ total state.0 + taken config action state.0
unfolding perform lost_in taken
perform-total config (publishing envelope) (w, log) = omega (arith, total-publish config envelope w)
perform-total config (testing envelope thirty_seconds now) (w, log) =
    omega (arith, test-total envelope now w (test_available thirty_seconds now w))
perform-total config (working world now) (w, log) =
    omega (arith, (work_on-total config world now w w.queue refl).0)
perform-total config closing (w, log) = omega (arith, closed-total w)

perform-IsValid :
    (config : WebhookConfig) (action : Action) (state : Worker × Log)
    → IsValid state.0
    → IsValid (perform config action state).0
unfolding perform
perform-IsValid config (publishing envelope) (w, log) h = publish-IsValid config envelope w h
perform-IsValid config (testing envelope thirty_seconds now) (w, log) h =
    if-split IsValid (test_available thirty_seconds now w) (queue_test envelope now w) w
      (λ e.
        let v = enqueue-IsValid envelope w (ground (arith, e)) h in
        record { queue_bound = v.queue_bound; order_bound = v.order_bound; matches = v.matches })
      (λ _. h)
perform-IsValid config (working world now) (w, log) h =
    (work_on-total config world now w w.queue refl).1 h
perform-IsValid config closing (w, log) h = record {
  queue_bound = h.queue_bound;
  order_bound = h.order_bound;
  matches = h.matches;
}

pub create-IsValid : (known : List Pairing) → IsValid (create known)
unfolding create
create-IsValid known = record {
  queue_bound = omega arith;
  order_bound = omega arith;
  matches = record { distinct_ids = tt; same_ids = λ i. refl };
}

-- Whatever happens to a worker, and in any order: what waits and what was counted as delivered,
-- suppressed or dropped, together with what was lost when the thread stopped with it in hand, grows by
-- exactly the envelopes that the worker was handed; and the queue and the remembered events stay within
-- their capacities, the set holding what the order lists, each once.
pub perform_all-accounts :
    (config : WebhookConfig) (actions : List Action) (state : Worker × Log)
    → IsValid state.0
    → (total (perform_all config actions state).0 + lost_all config actions state
        ≡ total state.0 + taken_all config actions state)
      × IsValid (perform_all config actions state).0
unfolding perform_all lost_all taken_all
perform_all-accounts config [] state h = (refl, h)
perform_all-accounts config (action ∷ actions) state h =
    let rest =
      perform_all-accounts config actions (perform config action state)
        (perform-IsValid config action state h) in
    (omega (arith, rest.0, perform-total config action state), rest.1)
