-- ===== src/Notifications/Bounds.antt =====
-- The bounds of a worker's tables, and events that are published again.
use mathlib.Core.Bool.{true≢false}
use mocop.Base.{
  ℕ, suc, ◌≤◌, String, true, false, not, List, [], ◌∷◌, ◌++◌, if◌then◌else◌, nat_key, ◌==◌, ==_iff,
  ==_refl, ◌≡◌, refl, sym, ◌∙◌, arith, ltb, length, length-append, filter, if-case, if-split,
}
use mocop.Base.Dict.{contains, contains-filter, contains-append, append-IsDistinct, IsDistinct}
use mocop.Notifications.Worker.{
  NotificationEnvelope, WebhookConfig, Worker, pairing_key, publish, enqueue, queue_capacity,
  seen_capacity, remember, subscribes, trim, is_full, drop_event,
}

-- The set of seen events holds what the order lists, each once.
pub record Matches (order seen : List ℕ) : Type 0 where
  pub distinct_ids : IsDistinct order
  pub same_ids : (i : ℕ) → contains seen i ≡ contains order i

trim-Matches :
    (order seen : List ℕ) → Matches order seen → Matches (trim order seen).0 (trim order seen).1
unfolding trim contains
trim-Matches [] seen h = h
trim-Matches (id ∷ order) seen h =
    let fewer : List ℕ = filter (λ i. not (i == id)) seen in
    if-case {A = List ℕ × List ℕ} (λ r. Matches r.0 r.1) (ltb seen_capacity (suc (length order)))
      (trim order fewer) (id ∷ order, seen)
      (trim-Matches order fewer (record {
        distinct_ids = h.distinct_ids.1;
        same_ids = λ i. ground (
          arith,
          contains-filter (λ i. not (i == id)) seen i,
          h.same_ids i,
          h.distinct_ids.0,
          ==_iff i id,
          ==_iff id i,
        );
      }))
      h

length-trim-le : (order seen : List ℕ) → length (trim order seen).0 ≤ seen_capacity
unfolding trim
length-trim-le [] seen = omega arith
length-trim-le (id ∷ order) seen =
    if-split {A = List ℕ × List ℕ} (λ r. length r.0 ≤ seen_capacity)
      (ltb seen_capacity (suc (length order))) (trim order (filter (λ i. not (i == id)) seen))
      (id ∷ order, seen) (λ _. length-trim-le order (filter (λ i. not (i == id)) seen))
      (λ e. ground (arith, e))

-- The latest event stays.
trim-contains_last :
    (order seen : List ℕ) (id : ℕ) → contains (trim (order ++ id ∷ []) seen).0 id ≡ true
unfolding trim contains
trim-contains_last [] seen id = ground (arith, ==_refl id)
trim-contains_last (x ∷ order) seen id =
    if-case {A = List ℕ × List ℕ} (λ r. contains r.0 id ≡ true)
      (ltb seen_capacity (suc (length (order ++ id ∷ []))))
      (trim (order ++ id ∷ []) (filter (λ i. not (i == x)) seen)) (x ∷ (order ++ id ∷ []), seen)
      (trim-contains_last order (filter (λ i. not (i == x)) seen) id)
      (ground (arith, contains-append order (id ∷ []) id, ==_refl id))

-- A worker's tables: its queue and what it remembers stay within their capacities.
pub record IsValid (w : Worker) : Type 0 where
  pub queue_bound : length w.queue ≤ queue_capacity
  pub order_bound : length w.seen_order ≤ seen_capacity
  pub matches : Matches w.seen_order w.seen

add-Matches :
    (order seen : List ℕ) (id : ℕ)
    → contains seen id ≡ false
    → Matches order seen
    → Matches (order ++ id ∷ []) (id ∷ seen)
unfolding contains
add-Matches order seen id fresh h = record {
  distinct_ids = append-IsDistinct order id (sym (h.same_ids id) ∙ fresh) h.distinct_ids;
  same_ids = λ i. ground (arith, contains-append order (id ∷ []) i, h.same_ids i);
}

remember-IsValid :
    (id : ℕ) (w : Worker) → contains w.seen id ≡ false → IsValid w → IsValid (remember id w)
unfolding remember
remember-IsValid id w fresh h = record {
  queue_bound = h.queue_bound;
  order_bound = length-trim-le (w.seen_order ++ id ∷ []) (id ∷ w.seen);
  matches =
      trim-Matches (w.seen_order ++ id ∷ []) (id ∷ w.seen)
        (add-Matches w.seen_order w.seen id fresh h.matches);
}

pub enqueue-IsValid :
    (envelope : NotificationEnvelope) (w : Worker)
    → is_full w ≡ false
    → IsValid w
    → IsValid (enqueue envelope w)
enqueue-IsValid envelope w room h = record {
  queue_bound = ground (arith, length-append w.queue (envelope ∷ []), room);
  order_bound = h.order_bound;
  matches = h.matches;
}

-- What holds after each of the ways that `publish` takes holds after it.
pub publish-split {κ} :
    (P : Worker → Type κ) (config : WebhookConfig) (envelope : NotificationEnvelope) (w : Worker)
    → (subscribes config envelope.event.state ≡ false → P w)
    → (subscribes config envelope.event.state ≡ true
        → w.closed ≡ true
        → P (drop_event "notification endpoint is closed" w))
    → (subscribes config envelope.event.state ≡ true
        → w.closed ≡ false
        → contains w.seen envelope.event.event_id ≡ true
        → P w)
    → (subscribes config envelope.event.state ≡ true
        → w.closed ≡ false
        → contains w.seen envelope.event.event_id ≡ false
        → is_full w ≡ true
        → P (drop_event "delivery queue is full" w))
    → (subscribes config envelope.event.state ≡ true
        → w.closed ≡ false
        → contains w.seen envelope.event.event_id ≡ false
        → is_full w ≡ false
        → P (remember envelope.event.event_id (enqueue envelope w)))
    → P (publish config envelope w)
unfolding publish
publish-split P config envelope w other shut again full room =
    let id : ℕ = envelope.event.event_id in
    let taken : Worker = remember id (enqueue envelope w) in
    let fits : Worker = if is_full w then drop_event "delivery queue is full" w else taken in
    let is_new : Worker = if contains w.seen id then w else fits in
    let is_open : Worker =
      if w.closed then drop_event "notification endpoint is closed" w else is_new in
    if-split P (not (subscribes config envelope.event.state)) w is_open
      (λ e. other (ground (arith, e)))
      (λ e.
        let on : subscribes config envelope.event.state ≡ true = ground (arith, e) in
        if-split P w.closed (drop_event "notification endpoint is closed" w) is_new (shut on) (λ c.
          if-split P (contains w.seen id) w fits (again on c) (λ d.
            if-split P (is_full w) (drop_event "delivery queue is full" w) taken (full on c d)
              (room on c d))))

drop_event-IsValid : (error : String) (w : Worker) → IsValid w → IsValid (drop_event error w)
drop_event-IsValid error w h = record {
  queue_bound = h.queue_bound;
  order_bound = h.order_bound;
  matches = h.matches;
}

pub publish-IsValid :
    (config : WebhookConfig) (envelope : NotificationEnvelope) (w : Worker)
    → IsValid w
    → IsValid (publish config envelope w)
publish-IsValid config envelope w h =
    publish-split IsValid config envelope w (λ _. h) (λ _ _. drop_event-IsValid _ w h) (λ _ _ _. h)
      (λ _ _ _ _. drop_event-IsValid _ w h)
      (λ _ _ d e.
        remember-IsValid envelope.event.event_id (enqueue envelope w) d
          (enqueue-IsValid envelope w e h))

-- What is remembered is found again.
remember-contains :
    (id : ℕ) (w : Worker)
    → contains w.seen id ≡ false
    → IsValid w
    → contains (remember id w).seen id ≡ true
unfolding remember
remember-contains id w fresh h =
    let m : Matches (trim (w.seen_order ++ id ∷ []) (id ∷ w.seen)).0
        (trim (w.seen_order ++ id ∷ []) (id ∷ w.seen)).1 =
      trim-Matches (w.seen_order ++ id ∷ []) (id ∷ w.seen)
        (add-Matches w.seen_order w.seen id fresh h.matches) in
    m.same_ids id ∙ trim-contains_last w.seen_order (id ∷ w.seen) id

remember-closed : (id : ℕ) (v : Worker) → v.closed ≡ false → (remember id v).closed ≡ false
unfolding remember
remember-closed id v h = h

publish_again :
    (config : WebhookConfig) (second : NotificationEnvelope) (v : Worker)
    → contains v.seen second.event.event_id ≡ true
    → v.closed ≡ false
    → publish config second v ≡ v
publish_again config second v h is_open =
    publish-split (λ u. u ≡ v) config second v (λ _. refl)
      (λ _ e. absurd (true≢false (sym e ∙ is_open))) (λ _ _ _. refl)
      (λ _ _ d _. absurd (true≢false (sym h ∙ d))) (λ _ _ d _. absurd (true≢false (sym h ∙ d)))

-- A worker that is open and whose tables are in order, with room in its queue, ignores an event that
-- it has just taken, whatever else the second envelope says.
pub publish-publish :
    (config : WebhookConfig) (first second : NotificationEnvelope) (w : Worker)
    → IsValid w
    → w.closed ≡ false
    → is_full w ≡ false
    → subscribes config first.event.state ≡ true
    → second.event.event_id ≡ first.event.event_id
    → publish config second (publish config first w) ≡ publish config first w
publish-publish config first second w h is_open room on same =
    publish-split (λ v. publish config second v ≡ v) config first w
      (λ e. absurd (true≢false (sym on ∙ e))) (λ _ e. absurd (true≢false (sym e ∙ is_open)))
      (λ _ _ d. publish_again config second w (rw same d) is_open)
      (λ _ _ _ e. absurd (true≢false (sym e ∙ room)))
      (λ _ _ d e.
        publish_again config second (remember first.event.event_id (enqueue first w))
          (rw same (
            remember-contains first.event.event_id (enqueue first w) d
              (enqueue-IsValid first w e h)))
          (remember-closed first.event.event_id (enqueue first w) is_open))
