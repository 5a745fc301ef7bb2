-- ===== src/Processes/Window.antt =====
-- Where the intervals of `pair_intervals` lie.
use mocop.Base.{
  String, Bool, true, false, Option, none, some, List, [], ◌∷◌, All, if◌then◌else◌, string_key,
  ◌==◌, arith, Bool-cases, inl, inr,
}
use mocop.Base.Int.{Float, leb_ℤ, ◌≤ℤ◌, ◌<ℤ◌}
use mocop.Base.Dict.{Dict, get, has}
use mocop.Base.Members.{All-append}
use mocop.Models.{GpuProcess}
use mocop.Processes.Types.{Workload, GpuProcessTransition, ProcessKey, process_key, key_of}
use mocop.Processes.Occupancy.{
  Interval, Pairing, close, close_previous, on_started, on_stopped, on_unmatched, on_event,
  on_events, close_open, close_seeded, close_live, pair_intervals, note_earliest, max_ℤ, min_ℤ,
}

module _ (epoch_seconds : Option String → Option Float) (window_start now_epoch : Float) where
  -- A run of positive length within the window.
  pub record Inside (interval : Interval) : Type 0 where
    pub after_start : window_start ≤ℤ interval.start
    pub before_now : interval.end ≤ℤ now_epoch
    pub nonempty : interval.start <ℤ interval.end

  abbrev Kept : Pairing → Type 0
  Kept p = All Inside p.intervals

  if-Kept : (b : Bool) (p q : Pairing) → Kept p → Kept q → Kept (if b then p else q)
  if-Kept true p q h k = h
  if-Kept false p q h k = k

  close-Kept :
      (s e : Float) (w : Option Workload) (p : Pairing)
      → Kept p
      → Kept (close epoch_seconds window_start now_epoch s e w p)
  unfolding close
  close-Kept s e w p h =
      let cs : Float = max_ℤ s window_start in
      let ce : Float = min_ℤ e now_epoch in
      elim (Bool-cases (leb_ℤ ce cs)) [
        | inl b ↦ rw b h
        | inr b ↦ rw b (
            All-append Inside p.intervals _ h (
              record {
                after_start = ground (arith);
                before_now = ground (arith);
                nonempty = ground (arith);
              },
              tt,
            ))
      ]

  abbrev closed : Float → Float → Option Workload → Pairing → Pairing
  closed = close epoch_seconds window_start now_epoch

  note_earliest-Kept :
      (t : Float) (p : Pairing)
      → Kept p
      → Kept (note_earliest epoch_seconds window_start now_epoch t p)
  unfolding note_earliest
  note_earliest-Kept t p h = h

  close_previous-Kept :
      (o : Option (Float × Option Workload)) (t : Float) (p : Pairing)
      → Kept p
      → Kept (close_previous epoch_seconds window_start now_epoch o t p)
  unfolding close_previous
  close_previous-Kept none t p h = h
  close_previous-Kept (some (s, w)) t p h = close-Kept s t w p h

  on_unmatched-Kept :
      (event : GpuProcessTransition) (t : Float) (anchor : Option Float) (p : Pairing)
      → Kept p
      → Kept (on_unmatched epoch_seconds window_start now_epoch event t anchor p)
  unfolding on_unmatched
  on_unmatched-Kept event t none p h = h
  on_unmatched-Kept event t (some a) p h = elim (Bool-cases (leb_ℤ a t)) [
    | inl b ↦ rw b (
        close-Kept a t event.workload (note_earliest epoch_seconds window_start now_epoch a p)
          (note_earliest-Kept a p h))
    | inr b ↦ rw b h
  ]

  on_stopped-Kept :
      (event : GpuProcessTransition) (t : Float) (o : Option (Float × Option Workload))
      (p : Pairing)
      → Kept p
      → Kept (on_stopped epoch_seconds window_start now_epoch event t o p)
  unfolding on_stopped
  on_stopped-Kept event t none p h =
      on_unmatched-Kept event t (epoch_seconds event.first_seen_at) p h
  on_stopped-Kept event t (some (s, w)) p h = close-Kept s t _ _ h

  on_event-Kept :
      (event : GpuProcessTransition) (o : Option Float) (p : Pairing)
      → Kept p
      → Kept (on_event epoch_seconds window_start now_epoch event o p)
  unfolding on_event on_started
  on_event-Kept event none p h = h
  on_event-Kept event (some t) p h =
      let q : Pairing = note_earliest epoch_seconds window_start now_epoch t p in
      let k : Kept q = note_earliest-Kept t p h in
      let o : Option (Float × Option Workload) = get q.open_processes (key_of event) in
      elim (Bool-cases (event.event == "started")) [
        | inl b ↦ rw b (close_previous-Kept o t q k)
        | inr b ↦ rw b (on_stopped-Kept event t o q k)
      ]

  on_events-Kept :
      (events : List GpuProcessTransition) (p : Pairing)
      → Kept p
      → Kept (on_events epoch_seconds window_start now_epoch events p)
  unfolding on_events
  on_events-Kept [] p h = h
  on_events-Kept (event ∷ events) p h =
      on_events-Kept events _ (on_event-Kept event (epoch_seconds (some event.observed_at)) p h)

  module _ (active_processes : Dict ProcessKey GpuProcess) (active_until : Float) where
    close_open-Kept :
        (open_runs : Dict ProcessKey (Float × Option Workload)) (p : Pairing)
        → Kept p
        → Kept (
            close_open epoch_seconds window_start now_epoch active_processes active_until open_runs
              p)
    unfolding close_open
    close_open-Kept [] p h = h
    close_open-Kept ((key, (s, w)) ∷ rest) p h =
        close_open-Kept rest _
          (if-Kept (has active_processes key) _ _ (close-Kept s active_until w p h) h)

    close_seeded-Kept :
        (process : GpuProcess) (o : Option Float) (p : Pairing)
        → Kept p
        → Kept (
            close_seeded epoch_seconds window_start now_epoch active_processes active_until process
              o p)
    unfolding close_seeded
    close_seeded-Kept process none p h = h
    close_seeded-Kept process (some s) p h = close-Kept s active_until _ p h

    close_live-Kept :
        (live : Dict ProcessKey GpuProcess) (p : Pairing)
        → Kept p
        → Kept
            (close_live epoch_seconds window_start now_epoch active_processes active_until live p)
    unfolding close_live
    close_live-Kept [] p h = h
    close_live-Kept ((key, process) ∷ rest) p h = close_live-Kept rest _ (
        if-Kept (has p.open_processes key) p _ h
          (close_seeded-Kept process (epoch_seconds process.first_seen_at) p h))

  -- Each interval that pair_intervals returns lies within the window that ends now, and its end comes
  -- after its start.
  pub pair_intervals-Inside :
      (events : List GpuProcessTransition) (active_processes : Dict ProcessKey GpuProcess)
      (observed_until : Option Float)
      → All Inside
          (pair_intervals epoch_seconds window_start now_epoch events active_processes
            observed_until).0
  unfolding pair_intervals
  pair_intervals-Inside events active_processes observed_until =
      close_live-Kept active_processes _ active_processes _
        (close_open-Kept active_processes _ _ _ (on_events-Kept events _ tt))
