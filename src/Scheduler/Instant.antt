-- ===== src/Scheduler/Instant.antt =====
-- The instant of the failure that `_rebase_failure_backoff` goes by, with sums and differences that round.
use mocop.Base.{ℕ, String}
use mocop.Base.Int.{Float, ◌+ℤ◌, ◌-ℤ◌, ◌≤ℤ◌, int_laws}
use mocop.Scheduler.Backoff.{Delays, backoff_delay}
use mocop.Scheduler.Rebase.{moved_deadline}

-- At most so far apart.
abbrev pub Close : Float → Float → Float → Type 0
Close bound a b = (a -ℤ b ≤ℤ bound) × (b -ℤ a ≤ℤ bound)

-- Sums and differences are off by what the unit in the last place of the exact result allows.
pub record Rounds (d : Delays) (ulp : Float → Float) : Type 0 where
  pub sums : (a b : Float) → Close (ulp (a +ℤ b)) (d.plus a b) (a +ℤ b)
  pub differences : (a b : Float) → Close (ulp (a -ℤ b)) (d.minus a b) (a -ℤ b)

rounded-twice :
    (moved left new deadline old e f : Float)
    → Close e left (deadline -ℤ old)
    → Close f moved (left +ℤ new)
    → Close (e +ℤ f) (moved -ℤ new) (deadline -ℤ old)
rounded-twice moved left new deadline old e f h k =
    (omega (int_laws, h.0, h.1, k.0, k.1), omega (int_laws, h.0, h.1, k.0, k.1))

module _ (d : Delays) (now jitter_pct : Float) (interval_of : String → Float) where
  -- The moved deadline less the new delay is the old deadline less the old delay, up to what the
  -- difference and the sum round.
  abbrev pub Kept : (Float → Float) → String → ℕ → Float × Float → Float → Type 0
  Kept ulp host failures previous deadline =
      Close
        (ulp (deadline -ℤ backoff_delay d previous.0 failures host previous.1)
          +ℤ ulp (
              d.minus deadline (backoff_delay d previous.0 failures host previous.1)
              +ℤ backoff_delay d (interval_of host) failures host jitter_pct))
        (moved_deadline d now jitter_pct interval_of host failures previous deadline
          -ℤ backoff_delay d (interval_of host) failures host jitter_pct)
        (deadline -ℤ backoff_delay d previous.0 failures host previous.1)

  pub deadline-Kept :
      (ulp : Float → Float) (host : String) (failures : ℕ) (previous : Float × Float)
      (deadline : Float)
      → Rounds d ulp
      → Kept ulp host failures previous deadline
  unfolding moved_deadline
  deadline-Kept ulp host failures previous deadline r =
      let old : Float = backoff_delay d previous.0 failures host previous.1 in
      let new : Float = backoff_delay d (interval_of host) failures host jitter_pct in
      let left : Float = d.minus deadline old in
      let first : Close (ulp (deadline -ℤ old)) left (deadline -ℤ old) =
        r.differences deadline old in
      let second : Close (ulp (left +ℤ new)) (d.plus left new) (left +ℤ new) = r.sums left new in
      rounded-twice (d.plus left new) left new deadline old (ulp (deadline -ℤ old))
        (ulp (left +ℤ new)) first second
