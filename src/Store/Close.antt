-- ===== src/Store/Close.antt =====
-- `_close_restored_inventory_locked` and `_invalidate_process_inventory_locked` for one GPU.
use mathlib.Core.List.{append_assoc}
use mocop.Base.{if-split, if-yes, if-no}
use mocop.Base.{
  ℕ, ◌≤◌, String, ◌≡◌, refl, ap, ◌∙◌, Bool, true, false, not, ◌&&◌, Option, none, some, List, [],
  ◌∷◌, ◌++◌, if◌then◌else◌, string_key, arith, length, length-append,
}
use mocop.Base.Dict.{Dict, get, remove, has}
use mocop.Processes.Types.{GpuProcessTransition, ProcessKey, process_key, key_of}
use mocop.Processes.Transitions.{
  track, track_all, open_transitions, sorted_items, close_restored_start,
}
use mocop.Processes.Tables.{OwnKeys, Filed-OwnKeys, sort-get, sort-IsDict}
use mocop.Processes.Inherit.{Sound, track_all-Sound, sort-Filed}
use mocop.Telemetry.Points.{GpuHistoryPoint}
use mocop.Store.Slot.{
  Slot, ring, live, last_of, last_point, extend, close_unobservable, close_process_inventory,
  last_index,
}
use mocop.Store.Replay.{has-cons, has-remove, has-nil}
use mocop.Store.InStep.{Agrees, InStep, open-append, extend_lem}
use mocop.Store.Tables.{held-Agrees}
use mocop.Store.Observe.{gone-InStep}
use mocop.Processes.Reconcile.{nil-Sound}

-- The loop over the open runs.
unfoldable pub closures : String → Dict ProcessKey GpuProcessTransition → List GpuProcessTransition
closures close_at [] = []
closures close_at ((key, event) ∷ rest) =
    close_restored_start event close_at (some false) ∷ closures close_at rest

-- When observation of a GPU ended: at its last point, else at its last transition.
unfoldable pub observation_end : Option GpuHistoryPoint → GpuProcessTransition → String
observation_end (some point) event = point.observed_at
observation_end none event = event.observed_at

module _ (history_points event_points : ℕ) (at host_gpu_id : String) where
  unfoldable pub close_restored_from :
      Option GpuProcessTransition → Slot → Slot × List GpuProcessTransition
  close_restored_from none s = (s, [])
  close_restored_from (some last) s =
      let closed =
        closures (observation_end (last_point s) last) (sorted_items (open_transitions (ring s))) in
      (extend history_points event_points at host_gpu_id closed s, closed)

  -- One GPU of `_close_restored_inventory_locked` that the sample did not list.
  unfoldable pub close_restored_inventory : Slot → Slot × List GpuProcessTransition
  close_restored_inventory s =
      if s.pending
      then close_restored_from (last_of (ring s)) (record s { pending = false })
      else (s, [])

  -- A GPU whose process table is gone.
  unfoldable pub vanish : Slot → Slot × List GpuProcessTransition
  vanish s =
      let (closed, transitions) =
        close_unobservable history_points event_points at host_gpu_id none s in
      (record closed { initialized = false }, transitions)

  -- One GPU of `_invalidate_process_inventory_locked`.
  unfoldable pub invalidate : Slot → Slot × List GpuProcessTransition
  invalidate s =
      let (gone, closed) =
        if◌then◌else◌ {A = Slot × List GpuProcessTransition} s.initialized (vanish s) (s, []) in
      let (ended, restored) = close_restored_inventory gone in (ended, closed ++ restored)

closures-has :
    (c : String) (items d : Dict ProcessKey GpuProcessTransition) (k : ProcessKey)
    → OwnKeys key_of items
    → has (track_all (closures c items) d) k ≡ (not (has items k) && has d k)
unfolding closures track_all track close_restored_start
closures-has c [] d k h = rw (has-nil GpuProcessTransition k) refl
closures-has c ((j, e) ∷ items) d k h =
    closures-has c items (remove d (key_of e)) k h.1
    ∙ rw (h.0, has-remove d j k, has-cons j k e items) (ground (arith))

-- Closing every open run leaves none open.
closures_open :
    (c : String) (xs : List GpuProcessTransition) (k : ProcessKey)
    → has (open_transitions (xs ++ closures c (sorted_items (open_transitions xs)))) k ≡ false
unfolding open_transitions sorted_items
closures_open c xs k =
    let open_events : Dict ProcessKey GpuProcessTransition = track_all xs [] in
    let sound : Sound key_of open_events = track_all-Sound xs [] (nil-Sound key_of) in
    let items : Dict ProcessKey GpuProcessTransition = sorted_items open_events in
    let same : get items k ≡ get open_events k = sort-get open_events k sound.distinct_keys in
    ap (λ (d : Dict ProcessKey GpuProcessTransition). has d k) (open-append xs (closures c items))
    ∙ closures-has c items open_events k (
        Filed-OwnKeys key_of items (sort-IsDict open_events sound.distinct_keys)
          (sort-Filed key_of open_events sound))
    ∙ rw same (ground (arith))

last_of-nil {ℓ} : {A : Type ℓ} (xs : List A) → last_of xs ≡ none → xs ≡ []
last_of-nil [] h = refl
last_of-nil (x ∷ []) h = cc
last_of-nil (x ∷ y ∷ ys) h = let e : y ∷ ys ≡ [] = last_of-nil (y ∷ ys) h in cc

nothing_open : (k : ProcessKey) → has (open_transitions []) k ≡ false
unfolding open_transitions track_all get
nothing_open k = refl

-- A slot in which no run is open, and no process live.
pub record Ended (s : Slot) : Type 0 where
  pub closed : (k : ProcessKey) → has (open_transitions (ring s)) k ≡ false
  pub empty : live s ≡ []

module _ (history_points event_points : ℕ) (at gpu_id : String) where
  from-Ended :
      (o : Option GpuProcessTransition) (s : Slot)
      → last_of (ring s) ≡ o
      → live s ≡ []
      → length (ring s ++ (close_restored_from history_points event_points at gpu_id o s).1)
        ≤ event_points
      → Ended (close_restored_from history_points event_points at gpu_id o s).0
  unfolding close_restored_from
  from-Ended none s e empty room = record {
    closed = λ k. rw (last_of-nil (ring s) e) (nothing_open k);
    empty = empty;
  }
  from-Ended (some last) s e empty room =
      let ts =
        closures (observation_end (last_point s) last) (sorted_items (open_transitions (ring s))) in
      let (events, same, all) = extend_lem history_points event_points at gpu_id ts s room in
      rw same (record {
        closed = λ k. rw all (closures_open (observation_end (last_point s) last) (ring s) k);
        empty = empty;
      })

  restored-Ended :
      (s : Slot) (p : Bool)
      → s.initialized ≡ false
      → s.pending ≡ p
      → InStep s
      → length (ring s ++ (close_restored_inventory history_points event_points at gpu_id s).1)
        ≤ event_points
      → Ended (close_restored_inventory history_points event_points at gpu_id s).0
  unfolding close_restored_inventory
  restored-Ended s true ei ep h =
      let waiting : Agrees false true s =
        held-Agrees history_points event_points at gpu_id false true s ei ep h in
      if-yes {A = Slot × List GpuProcessTransition}
        (λ r. length (ring s ++ r.1) ≤ event_points → Ended r.0) s.pending _ _ ep
        (from-Ended (last_of (ring s)) (record s { pending = false }) refl waiting)
  restored-Ended s false ei ep h =
      let (closed, empty) =
        held-Agrees history_points event_points at gpu_id false false s ei ep h in
      if-no {A = Slot × List GpuProcessTransition}
        (λ r. length (ring s ++ r.1) ≤ event_points → Ended r.0) s.pending _ _ ep
        (λ room. record { closed = closed; empty = empty })

  vanish-InStep :
      (s : Slot)
      → InStep s
      → length (ring s ++ (vanish history_points event_points at gpu_id s).1) ≤ event_points
      → InStep (vanish history_points event_points at gpu_id s).0
  unfolding vanish
  vanish-InStep s h =
      gone-InStep history_points event_points at gpu_id none s s.initialized s.pending refl refl h

  vanish-initialized :
      (s : Slot) → (vanish history_points event_points at gpu_id s).0.initialized ≡ false
  unfolding vanish
  vanish-initialized s = refl

  vanish-ring :
      (s : Slot)
      → length (ring s ++ (vanish history_points event_points at gpu_id s).1) ≤ event_points
      → ring (vanish history_points event_points at gpu_id s).0
        ≡ ring s ++ (vanish history_points event_points at gpu_id s).1
  unfolding vanish close_unobservable
  vanish-ring s room =
      let ts =
        close_process_inventory history_points event_points at gpu_id
          (last_index history_points event_points at gpu_id none s) s.last_observed (live s) in
      let (events, same, all) =
        extend_lem history_points event_points at gpu_id ts
          (record s { active = none; last_observed = none }) room in
      rw same all

  -- What `invalidate` does with a slot, and its transitions, after the first loop.
  abbrev Finishes : Slot → Slot × List GpuProcessTransition → Type 0
  Finishes s (gone, closed) =
      length (
          ring s
          ++ (closed ++ (close_restored_inventory history_points event_points at gpu_id gone).1))
        ≤ event_points
      → Ended (close_restored_inventory history_points event_points at gpu_id gone).0

  vanish-Finishes :
      (s : Slot) → InStep s → Finishes s (vanish history_points event_points at gpu_id s)
  vanish-Finishes s h room =
      let gone : Slot = (vanish history_points event_points at gpu_id s).0 in
      let closed : List GpuProcessTransition = (vanish history_points event_points at gpu_id s).1 in
      let restored : List GpuProcessTransition =
        (close_restored_inventory history_points event_points at gpu_id gone).1 in
      let grouped : length ((ring s ++ closed) ++ restored) ≤ event_points =
        rw (append_assoc (ring s) closed restored) room in
      let room1 : length (ring s ++ closed) ≤ event_points =
        omega (arith, length-append (ring s ++ closed) restored, grouped) in
      let same : ring gone ≡ ring s ++ closed = vanish-ring s room1 in
      restored-Ended gone gone.pending (vanish-initialized s) refl (vanish-InStep s h room1)
        (rw same grouped)

  -- From a slot in step, with room in its ring: when the host turns stale, no run is left open, and no
  -- process is left live.
  pub invalidate-Ended :
      (s : Slot)
      → InStep s
      → length (ring s ++ (invalidate history_points event_points at gpu_id s).1) ≤ event_points
      → Ended (invalidate history_points event_points at gpu_id s).0
  unfolding invalidate
  invalidate-Ended s h =
      if-split {A = Slot × List GpuProcessTransition} (Finishes s) s.initialized _ _
        (λ e. vanish-Finishes s h) (λ e. restored-Ended s s.pending e refl h)
