-- ===== src/Notifications/Attempts.antt =====
-- How often a delivery is tried, and what it comes to.
use mocop.Base.{
  ℕ, zero, suc, ◌+◌, ◌-◌, ◌≤◌, ◌<◌, String, true, false, Option, some, ◌≡◌, refl, ◌∙◌, arith, ltb,
  ltb→lt, Bool-cases, inl, inr,
}
use mocop.Notifications.Worker.{NotificationEnvelope}
use mocop.Notifications.Delivery.{
  Attempt, sent, failed, deliver, is_stopped, still_actionable, result_of, code_of,
}

-- An attempt that is made and fails, but may be made again.
pub record FailsFor (item : NotificationEnvelope) (attempt : ℕ) (a : Attempt) : Type 0 where
  pub goes_on : is_stopped attempt a ≡ false
  pub wanted : still_actionable item a.check ≡ true
  pub no_success : (result_of a.sent).success ≡ false
  pub again : (result_of a.sent).retryable ≡ true

-- An attempt that is made and succeeds.
pub record SucceedsFor (item : NotificationEnvelope) (attempt : ℕ) (a : Attempt) : Type 0 where
  pub goes_on : is_stopped attempt a ≡ false
  pub wanted : still_actionable item a.check ≡ true
  pub success : (result_of a.sent).success ≡ true

module _ (world : ℕ → Attempt) (item : NotificationEnvelope) where
  deliver-fails :
      (left attempt : ℕ) (code : String) (last : Option String)
      → FailsFor item attempt (world attempt)
      → deliver world item (suc left) attempt code last ≡ (
          let rest =
            deliver world item left
              (suc attempt)
              (code_of (result_of (world attempt).sent))
              (some (world attempt).at) in
          record rest { sends = suc rest.sends })
  unfolding deliver
  deliver-fails left attempt code last f = rw (f.goes_on, f.wanted, f.no_success, f.again) refl

  deliver-succeeds :
      (left attempt : ℕ) (code : String) (last : Option String)
      → SucceedsFor item attempt (world attempt)
      → deliver world item (suc left) attempt code last
        ≡ record { outcome = sent; last_attempt_at = some (world attempt).at; sends = 1 }
  unfolding deliver
  deliver-succeeds left attempt code last f = rw (f.goes_on, f.wanted, f.success) refl

  exhausted-zero :
      (n : ℕ)
      → (let rest =
            deliver world item 0 (suc n) (code_of (result_of (world n).sent)) (some (world n).at) in
          record rest { sends = suc rest.sends })
        ≡ record {
          outcome = failed (code_of (result_of (world n).sent));
          last_attempt_at = some (world n).at;
          sends = 1;
        }
  unfolding deliver
  exhausted-zero n = refl

  -- The first success ends the loop.
  from-reaches :
      (n left attempt : ℕ) (code : String) (last : Option String)
      → attempt ≤ n
      → n < attempt + left
      → ((j : ℕ) → attempt ≤ j → j < n → FailsFor item j (world j))
      → SucceedsFor item n (world n)
      → deliver world item left attempt code last
        ≡ record { outcome = sent; last_attempt_at = some (world n).at; sends = suc (n - attempt) }
  from-reaches n zero attempt code last h k fails s = absurd (omega (arith, h, k))
  from-reaches n (suc left) attempt code last h k fails s = elim (Bool-cases (ltb attempt n)) [
    | inl b ↦
        let below : attempt < n = ltb→lt attempt n b in
        deliver-fails left attempt code last (fails attempt (omega arith) below)
        ∙ rw
            (from-reaches n left (suc attempt) (code_of (result_of (world attempt).sent))
              (some (world attempt).at) below (omega (arith, k)) (λ j l. fails j (omega (arith, l)))
              s)
            (let e : suc (suc (n - suc attempt)) ≡ suc (n - attempt) = omega (arith, below) in
              rw e refl)
    | inr b ↦
        let same : attempt ≡ n = ground (arith, h, b) in
        rw same (
          deliver-succeeds left n code last s
          ∙ (let e : suc (n - n) ≡ 1 = omega arith in rw e refl))
  ]

  -- With the attempts used up, the code is that of the last.
  from-exhausts :
      (n left attempt : ℕ) (code : String) (last : Option String)
      → n ≡ attempt + left
      → ((j : ℕ) → attempt ≤ j → j ≤ n → FailsFor item j (world j))
      → deliver world item (suc left) attempt code last ≡ record {
        outcome = failed (code_of (result_of (world n).sent));
        last_attempt_at = some (world n).at;
        sends = suc left;
      }
  from-exhausts n zero attempt code last e fails =
      let same : attempt ≡ n = omega (arith, e) in
      rw same (
        deliver-fails zero n code last (fails n (omega (arith, e)) (omega arith))
        ∙ exhausted-zero n)
  from-exhausts n (suc left) attempt code last e fails =
      deliver-fails (suc left) attempt code last (fails attempt (omega arith) (omega (arith, e)))
      ∙ rw
          (from-exhausts n left (suc attempt) (code_of (result_of (world attempt).sent))
            (some (world attempt).at) (omega (arith, e)) (λ j l m. fails j (omega (arith, l)) m))
          refl

  -- If the callback keeps wanting the event and nothing stops the worker: the first attempt that succeeds,
  -- all before it having failed in a way that may be tried again, ends the delivery, which is sent
  -- with no further call of the sender.
  pub deliver-reaches :
      (n max_attempts : ℕ) (code : String) (last : Option String)
      → n < max_attempts
      → ((j : ℕ) → j < n → FailsFor item j (world j))
      → SucceedsFor item n (world n)
      → deliver world item max_attempts 0 code last
        ≡ record { outcome = sent; last_attempt_at = some (world n).at; sends = suc n }
  deliver-reaches n max_attempts code last k fails s =
      from-reaches n max_attempts 0 code last (omega arith) (omega (arith, k)) (λ j _ l. fails j l)
        s
      ∙ (let e : n - 0 ≡ n = omega arith in rw e refl)

  -- If nothing stops the worker, the callback keeps wanting the event, and each of the attempts fails in
  -- a way that may be tried again: the sender is called once for each attempt, and the delivery fails with
  -- the code of the last.
  pub deliver-exhausts :
      (n : ℕ) (code : String) (last : Option String)
      → ((j : ℕ) → j ≤ n → FailsFor item j (world j))
      → deliver world item (suc n) 0 code last ≡ record {
        outcome = failed (code_of (result_of (world n).sent));
        last_attempt_at = some (world n).at;
        sends = suc n;
      }
  deliver-exhausts n code last fails =
      from-exhausts n n 0 code last (omega arith) (λ j _ l. fails j l)
