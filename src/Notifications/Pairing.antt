-- ===== src/Notifications/Pairing.antt =====
-- Recoveries are only delivered to a receiver that was told of the incident.
use mathlib.Core.Bool.{true≢false}
use mocop.Base.{
  ℕ, suc, ◌+◌, String, Bool, true, false, not, ◌&&◌, ◌||◌, none, some, List, [], ◌∷◌, ◌==◌, ==_iff,
  ◌≡◌, refl, sym, ◌∙◌, arith, Bool-cases, inl, inr, ltb, length, if-case, if-split,
}
use mocop.Base.Dict.{contains, contains-filter, contains-append}
use mocop.Incidents.Types.{opened, resolved}
use mocop.Notifications.Worker.{
  NotificationEnvelope, WebhookConfig, Worker, Pairing, pairing_key, publish, test_available, evict,
  seen_capacity, pop_key, move_to_end, remember, subscribes, insert_key, insert_keys, create,
}
use mocop.Notifications.Delivery.{
  Attempt, Outcome, stopped, sent, suppressed, failed, process, pairing_of, is_resolved, settle,
  pair, is_unpaired, deliver,
}
use mocop.Notifications.Runs.{
  work_on, Action, publishing, testing, working, closing, Log, receive, perform, perform_all,
  is_known, Paired,
}

move_to_end-contains :
    (xs : List Pairing) (j k : Pairing) → contains (move_to_end xs j) k ≡ (j == k || contains xs k)
unfolding contains
move_to_end-contains xs j k =
    contains-append (pop_key xs j) (j ∷ []) k
    ∙ ground (arith, contains-filter (λ i. not (i == j)) xs k, ==_iff k j, ==_iff j k)

evict-contains :
    (xs : List Pairing) (s : Bool) (k : Pairing)
    → contains (evict xs s).0 k ≡ true
    → contains xs k ≡ true
unfolding evict contains
evict-contains [] s k = λ h. h
evict-contains (x ∷ xs) s k =
    if-case {A = List Pairing × Bool} (λ r. contains r.0 k ≡ true → contains (x ∷ xs) k ≡ true)
      (ltb seen_capacity (suc (length xs))) (evict xs true) (x ∷ xs, s)
      (λ h. let there : contains xs k ≡ true = evict-contains xs true k h in ground (arith))
      (λ h. h)

-- Nothing was evicted if the flag is not set.
evict-kept :
    (xs : List Pairing) (s : Bool) → (evict xs s).1 ≡ false → ((evict xs s).0 ≡ xs) × (s ≡ false)
unfolding evict
evict-kept [] s = λ h. (refl, h)
evict-kept (x ∷ xs) s =
    if-case {A = List Pairing × Bool} (λ r. r.1 ≡ false → (r.0 ≡ x ∷ xs) × (s ≡ false))
      (ltb seen_capacity (suc (length xs))) (evict xs true) (x ∷ xs, s)
      (λ h. absurd (true≢false (evict-kept xs true h).1)) (λ h. (refl, h))

-- The worker's table against what the receiver takes to be open.
pub record InTouch (known active : List Pairing) (saturated : Bool) (log : Log) : Type 0 where
  pub told : (k : Pairing) → contains active k ≡ true → is_known known log k ≡ true
  pub exact : saturated ≡ false → (k : Pairing) → contains active k ≡ is_known known log k
  pub paired : saturated ≡ false → Paired known log

abbrev pub Holds : List Pairing → Worker × Log → Type 0
Holds known (w, log) = InTouch known w.active_conditions w.pairing_saturated log

publish-active :
    (config : WebhookConfig) (envelope : NotificationEnvelope) (w : Worker)
    → ((publish config envelope w).active_conditions ≡ w.active_conditions)
      × ((publish config envelope w).pairing_saturated ≡ w.pairing_saturated)
unfolding publish remember
publish-active config envelope w = ground arith

publish-Holds :
    (config : WebhookConfig) (envelope : NotificationEnvelope) (known : List Pairing) (w : Worker)
    (log : Log)
    → Holds known (w, log)
    → Holds known (publish config envelope w, log)
publish-Holds config envelope known w log h =
    let same = publish-active config envelope w in rw (same.0, same.1) h

module _ (config : WebhookConfig) (known : List Pairing) (to_open : subscribes config opened ≡ true)
    (to_resolve : subscribes config resolved ≡ true) where
  resolved-InTouch :
      (item : NotificationEnvelope) (active : List Pairing) (saturated : Bool) (log : Log)
      → item.is_test ≡ false
      → is_resolved item ≡ true
      → (saturated ≡ false → contains active (pairing_of item) ≡ true)
      → InTouch known active saturated log
      → InTouch known (pop_key active (pairing_of item)) saturated (item ∷ log)
  unfolding is_known
  resolved-InTouch item active saturated log live ends fit h =
      let p : Pairing = pairing_of item in
      let gone : (k : Pairing)
          → contains (pop_key active p) k ≡ (not (k == p) && contains active k) =
        λ k. contains-filter (λ i. not (i == p)) active k in
      record {
        told = λ k c. ground (arith, gone k, h.told k, ==_iff k p, ==_iff p k);
        exact = λ e k. ground (arith, gone k, h.exact e k, ==_iff k p, ==_iff p k);
        paired = λ e. ((λ _ _. h.told p (fit e)), h.paired e);
      }

  opened-InTouch :
      (item : NotificationEnvelope) (active : List Pairing) (saturated : Bool) (log : Log)
      → item.is_test ≡ false
      → is_resolved item ≡ false
      → InTouch known active saturated log
      → InTouch known
          (evict (move_to_end active (pairing_of item)) saturated).0
          (evict (move_to_end active (pairing_of item)) saturated).1
          (item ∷ log)
  unfolding is_known
  opened-InTouch item active saturated log live opens h =
      let p : Pairing = pairing_of item in
      let moved : List Pairing = move_to_end active p in
      record {
        told = λ k c.
            ground (
              arith,
              move_to_end-contains active p k,
              evict-contains moved saturated k c,
              h.told k,
            );
        exact = λ e k.
            let kept = evict-kept moved saturated e in
            rw kept.0 (ground (arith, move_to_end-contains active p k, h.exact kept.1 k));
        paired = λ e. (
          (λ _ r. absurd (true≢false (sym r ∙ opens))),
          h.paired (evict-kept moved saturated e).1,
        );
      }

  test-InTouch :
      (item : NotificationEnvelope) (active : List Pairing) (saturated : Bool) (log : Log)
      → item.is_test ≡ true
      → InTouch known active saturated log
      → InTouch known active saturated (item ∷ log)
  unfolding is_known
  test-InTouch item active saturated log test h = record {
    told = λ k c. rw test (h.told k c);
    exact = λ e k. rw test (h.exact e k);
    paired = λ e. ((λ live _. absurd (true≢false (sym test ∙ live))), h.paired e);
  }

  pair-Holds :
      (item : NotificationEnvelope) (w : Worker) (log : Log)
      → is_unpaired config item w ≡ false
      → Holds known (w, log)
      → Holds known (pair config item w, item ∷ log)
  unfolding pair
  pair-Holds item w log fit h = elim (Bool-cases item.is_test) [
    | inl test ↦ simp (test) (test-InTouch item w.active_conditions w.pairing_saturated log test h)
    | inr live ↦ elim (Bool-cases (is_resolved item)) [
      | inl ends ↦
          simp (live, to_open, to_resolve, ends)
            (resolved-InTouch item w.active_conditions w.pairing_saturated log live ends
              (λ e. ground (arith, fit, live, ends, e, to_open, to_resolve)) h)
      | inr opens ↦
          simp (live, to_open, to_resolve, opens)
            (opened-InTouch item w.active_conditions w.pairing_saturated log live opens h)
    ]
  ]

  settle-Holds :
      (item : NotificationEnvelope) (now : String) (o : Outcome) (w : Worker) (log : Log)
      → is_unpaired config item w ≡ false
      → Holds known (w, log)
      → Holds known (settle config item now o w, receive (some (item, o)) log)
  unfolding settle receive
  settle-Holds item now stopped w log fit h = h
  settle-Holds item now sent w log fit h =
      pair-Holds item
        (record w { delivered = w.delivered + 1; last_error = none; last_success_at = some now })
        log fit h
  settle-Holds item now suppressed w log fit h = h
  settle-Holds item now (failed code) w log fit h = h

  process-Holds :
      (world : ℕ → Attempt) (now : String) (item : NotificationEnvelope) (w : Worker) (log : Log)
      → Holds known (w, log)
      → Holds known (
        (process config world now item w).0,
        receive (some (item, (process config world now item w).1)) log,
      )
  unfolding process receive
  process-Holds world now item w log h =
      let d = deliver world item config.max_attempts 0 "delivery_failed" w.last_attempt_at in
      if-split {A = Worker × Outcome} (λ r. Holds known (r.0, receive (some (item, r.1)) log))
        (is_unpaired config item w) (record w { suppressed = w.suppressed + 1 }, suppressed)
        (
          settle config item now d.outcome (record w { last_attempt_at = d.last_attempt_at }),
          d.outcome,
        )
        (λ _. h)
        (λ fit.
          settle-Holds item now d.outcome (record w { last_attempt_at = d.last_attempt_at }) log fit
            h)

  work_on-Holds :
      (world : ℕ → Attempt) (now : String) (queue : List NotificationEnvelope) (w : Worker)
      (log : Log)
      → Holds known (w, log)
      → Holds known
          ((work_on config world now queue w).0, receive (work_on config world now queue w).1 log)
  unfolding work_on receive
  work_on-Holds world now [] w log h = h
  work_on-Holds world now (item ∷ rest) w log h =
      process-Holds world now item (record w { queue = rest }) log h

  perform-Holds :
      (action : Action) (state : Worker × Log)
      → Holds known state
      → Holds known (perform config action state)
  unfolding perform
  perform-Holds (publishing envelope) (w, log) h = publish-Holds config envelope known w log h
  perform-Holds (testing envelope thirty_seconds now) (w, log) h =
      elim (Bool-cases (test_available thirty_seconds now w)) [
        | inl b ↦ simp (b) h
        | inr b ↦ simp (b) h
      ]
  perform-Holds (working world now) (w, log) h = work_on-Holds world now w.queue w log h
  perform-Holds closing (w, log) h = h

  perform_all-Holds :
      (actions : List Action) (state : Worker × Log)
      → Holds known state
      → Holds known (perform_all config actions state)
  unfolding perform_all
  perform_all-Holds [] state h = h
  perform_all-Holds (action ∷ actions) state h =
      perform_all-Holds actions (perform config action state) (perform-Holds action state h)

insert_key-contains :
    (xs : List Pairing) (y k : Pairing) → contains (insert_key xs y) k ≡ (contains xs k || y == k)
unfolding contains
insert_key-contains xs y k = elim (Bool-cases (contains xs y)) [
  | inl b ↦ rw b (ground (arith, ==_iff y k))
  | inr b ↦ rw b (contains-append xs (y ∷ []) k ∙ ground (arith))
]

insert_keys-contains :
    (xs more : List Pairing) (k : Pairing)
    → contains (insert_keys xs more) k ≡ (contains xs k || contains more k)
unfolding contains
insert_keys-contains xs [] k = ground arith
insert_keys-contains xs (y ∷ more) k =
    insert_keys-contains (insert_key xs y) more k ∙ rw (insert_key-contains xs y k) (ground (arith))

create-Holds : (known : List Pairing) → Holds known (create known, [])
unfolding create is_known contains
create-Holds known =
    let keys : List Pairing = insert_keys [] known in
    record {
      told = λ k c. sym (insert_keys-contains [] known k) ∙ evict-contains keys false k c;
      exact = λ e k. rw (evict-kept keys false e).0 (insert_keys-contains [] known k);
      paired = λ e. tt;
    }

-- For an endpoint that subscribes to openings and recoveries, whatever happens to its worker, and in any
-- order: as long as it had to forget no condition, each recovery that was delivered is of a condition
-- that the receiver took to be open, by the delivery before it about that condition or by what was
-- known at the start, and what the worker takes the receiver to know is what it knows.
pub perform_all-Paired :
    (config : WebhookConfig) (known : List Pairing) (actions : List Action)
    → subscribes config opened ≡ true
    → subscribes config resolved ≡ true
    → (perform_all config actions (create known, [])).0.pairing_saturated ≡ false
    → Paired known (perform_all config actions (create known, [])).1
      × ((k : Pairing)
          → contains (perform_all config actions (create known, [])).0.active_conditions k
            ≡ is_known known (perform_all config actions (create known, [])).1 k)
perform_all-Paired config known actions to_open to_resolve e =
    let h =
      perform_all-Holds config known to_open to_resolve actions (create known, [])
        (create-Holds known) in
    (h.paired e, h.exact e)
