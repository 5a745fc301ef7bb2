-- ===== src/Notifications/Tests.antt =====
-- The theorems about deliveries at concrete events.
use mocop.Base.{
  ℕ, zero, suc, ◌+◌, ◌<◌, true, false, Option, none, some, List, [], ◌∷◌, ◌≡◌, refl, arith,
  string_key,
}
use mocop.Base.Int.{pos}
use mocop.Base.Dict.{contains}
use mocop.Incidents.Types.{Transition, opened, resolved, warning}
use mocop.Notifications.Worker.{
  NotificationEnvelope, WebhookConfig, DeliveryResult, Pairing, pairing_key, publish, create,
  remember, trim, evict, is_full,
}
use mocop.Notifications.Delivery.{
  Attempt, answers, sent, failed, deliver, process, settle, pair, is_actionable, result_of, code_of,
}
use mocop.Notifications.Runs.{
  Action, publishing, working, perform, perform_all, work_on, receive, is_known, Paired,
}
use mocop.Notifications.Pairing.{perform_all-Paired}
use mocop.Notifications.Bounds.{IsValid, publish-publish}
use mocop.Notifications.Accounts.{total, taken_all, lost_all, perform_all-accounts, create-IsValid}
use mocop.Notifications.Attempts.{FailsFor, SucceedsFor, deliver-reaches, deliver-exhausts}
use mocop.Notifications.Sink.{create_sink, test, test_envelope, Answered, test-Answered}

abbrev config : WebhookConfig
config = record { name = "ops"; events = opened ∷ resolved ∷ []; max_attempts = 3 }

abbrev envelope_of : ℕ → Transition → NotificationEnvelope
envelope_of id state = record {
  event = record {
    event_id = id;
    host = "gpu-1";
    condition = record {
      key = "cpu";
      category = "cpu";
      resource = "CPU";
      severity = warning;
      value = none;
      threshold = none;
      observed_at = "t0";
      detail = none;
      open_after_cycles = 1;
      recovery_cycles = 1;
      group_key = none;
      open_after_seconds = pos 0;
      below_threshold = false;
      critical_at = none;
      recovery_margin = pos 0;
    };
    state = state;
    observed_at = "t0";
  };
  correlation = none;
  is_test = false;
}

abbrev attempt_with : Option DeliveryResult → Attempt
attempt_with result = record {
  retry_stopped = false;
  throttle_stopped = false;
  check = answers true;
  at = "t1";
  sent = result;
}

abbrev success : DeliveryResult
success = record { success = true; retryable = false; error_code = none }

-- The sender raises at first.
abbrev world : ℕ → Attempt
world zero = attempt_with none
world (suc n) = attempt_with (some success)

abbrev raising : ℕ → Attempt
raising n = attempt_with none

abbrev actions : List Action
actions =
    publishing (envelope_of 1 opened)
    ∷ working world "t2"
    ∷ publishing (envelope_of 2 resolved)
    ∷ working world "t3"
    ∷ []

not_saturated : (perform_all config actions (create [], [])).0.pairing_saturated ≡ false
unfolding perform_all perform publish remember trim contains work_on process deliver settle pair
    evict create is_actionable receive
not_saturated = refl

perform_all-Paired_example :
    Paired [] (perform_all config actions (create [], [])).1
    × ((k : Pairing)
        → contains (perform_all config actions (create [], [])).0.active_conditions k
          ≡ is_known [] (perform_all config actions (create [], [])).1 k)
perform_all-Paired_example = perform_all-Paired config [] actions refl refl not_saturated

created_open : (create []).closed ≡ false
unfolding create
created_open = refl

created_room : is_full (create []) ≡ false
unfolding create
created_room = refl

publish-publish_example :
    publish config (envelope_of 1 opened) (publish config (envelope_of 1 opened) (create []))
    ≡ publish config (envelope_of 1 opened) (create [])
publish-publish_example =
    publish-publish config (envelope_of 1 opened) (envelope_of 1 opened) (create [])
      (create-IsValid []) created_open created_room refl refl

perform_all-accounts_example :
    (total (perform_all config actions (create [], [])).0 + lost_all config actions (create [], [])
      ≡ total (create []) + taken_all config actions (create [], []))
    × IsValid (perform_all config actions (create [], [])).0
perform_all-accounts_example =
    perform_all-accounts config actions (create [], []) (create-IsValid [])

raises-FailsFor : (j : ℕ) → FailsFor (envelope_of 1 opened) j (attempt_with none)
unfolding is_actionable
raises-FailsFor j = record {
  goes_on = ground arith;
  wanted = refl;
  no_success = refl;
  again = refl;
}

first-FailsFor : (j : ℕ) → j < 1 → FailsFor (envelope_of 1 opened) j (world j)
first-FailsFor zero h = raises-FailsFor 0
first-FailsFor (suc j) h = absurd (omega arith)

second-SucceedsFor : SucceedsFor (envelope_of 1 opened) 1 (world 1)
unfolding is_actionable
second-SucceedsFor = record { goes_on = refl; wanted = refl; success = refl }

deliver-reaches_example :
    deliver world (envelope_of 1 opened) 3 0 "delivery_failed" none
    ≡ record { outcome = sent; last_attempt_at = some "t1"; sends = 2 }
deliver-reaches_example =
    deliver-reaches world (envelope_of 1 opened) 1 3 "delivery_failed" none (omega arith)
      first-FailsFor second-SucceedsFor

deliver-exhausts_example :
    deliver raising (envelope_of 1 opened) 3 0 "delivery_failed" none
    ≡ record { outcome = failed (code_of (result_of none)); last_attempt_at = some "t1"; sends = 3 }
deliver-exhausts_example =
    deliver-exhausts raising (envelope_of 1 opened) 2 "delivery_failed" none
      (λ j _. raises-FailsFor j)

test-Answered_example :
    Answered
      (test_envelope "t5")
      (pos 4000)
      (create_sink (config ∷ []) [])
      (test "t5" (pos 3000) (pos 4000) (create_sink (config ∷ []) [])).0
      (test "t5" (pos 3000) (pos 4000) (create_sink (config ∷ []) [])).1
test-Answered_example = test-Answered "t5" (pos 3000) (pos 4000) (create_sink (config ∷ []) [])
