-- ===== src/Store/Observe.antt =====
-- One GPU of a sample keeps its slot in step.
use mathlib.Core.Path.{subst}
use mathlib.Core.List.{append-nil}
use mocop.Base.{if-case}
use mocop.Base.{
  ℕ, ◌≤◌, String, ◌≡◌, refl, sym, ◌∙◌, Bool, true, false, not, ◌&&◌, Option, none, some, List, [],
  ◌∷◌, ◌++◌, if◌then◌else◌, string_key, arith, is_some, or_else, length, bounded,
}
use mocop.Base.Dict.{Dict, has}
use mocop.Models.{GpuProcess, GpuMetrics}
use mocop.Processes.Types.{GpuProcessTransition, ProcessKey, process_key}
use mocop.Processes.Transitions.{open_transitions}
use mocop.Processes.Inherit.{own_key, Sound}
use mocop.Processes.Reconcile.{nil-Sound}
use mocop.Telemetry.Points.{GpuHistoryPoint}
use mocop.Store.Slot.{
  Slot, ring, live, close_process_inventory, last_index, close_unobservable, observe_gpu, point_of,
}
use mocop.Store.InStep.{Agrees, InStep, extend_lem, stopped_open}
use mocop.Store.Tables.{held-Agrees, on_table-InStep}

module _ (history_points event_points : ℕ) (at gpu_id : String) where
  -- The stops of a table are made at the time of its last observation, and not without one.
  pub closed_open :
      (index : ℕ) (o : Option String) (d : Dict ProcessKey GpuProcess)
      (xs : List GpuProcessTransition) (k : ProcessKey)
      → Sound own_key d
      → has
          (open_transitions
            (xs ++ close_process_inventory history_points event_points at gpu_id index o d))
          k
        ≡ (if is_some o
            then not (has d k) && has (open_transitions xs) k
            else has (open_transitions xs) k)
  unfolding close_process_inventory
  closed_open index none d xs k s = rw (append-nil xs) refl
  closed_open index (some o) d xs k s =
      stopped_open history_points event_points at gpu_id o index false d xs k s

  gone-Agrees :
      (index : ℕ) (s : Slot) (i p : Bool) (e : Option (List GpuProcessTransition))
      → Sound own_key (live s)
      → Agrees i p s
      → or_else e []
        ≡ ring s
          ++ close_process_inventory history_points event_points at gpu_id index s.last_observed
              (live s)
      → Agrees false p
          (record s { events = e; active = none; last_observed = none; initialized = false })
  gone-Agrees index s true true e sound h all = absurd h
  gone-Agrees index s false true e sound h all = refl
  gone-Agrees index s true false e sound (agrees, seen) all = (
    (λ k. rw all (
        closed_open index s.last_observed (live s) (ring s) k sound
        ∙ rw (seen, agrees k) (ground (arith)))),
    refl,
  )
  gone-Agrees index s false false e sound (closed, empty) all = (
    (λ k. rw all (
        closed_open index s.last_observed (live s) (ring s) k sound
        ∙ rw (closed k) (ground (arith)))),
    refl,
  )

  pub gone-InStep :
      (index : Option ℕ) (s : Slot) (i p : Bool)
      → s.initialized ≡ i
      → s.pending ≡ p
      → InStep s
      → length (ring s ++ (close_unobservable history_points event_points at gpu_id index s).1)
        ≤ event_points
      → InStep (record (close_unobservable history_points event_points at gpu_id index s).0 {
        initialized = false;
      })
  unfolding close_unobservable close_process_inventory
  gone-InStep index s i p ei ep h room =
      let ix : ℕ = last_index history_points event_points at gpu_id index s in
      let (e, same, all) =
        extend_lem history_points event_points at gpu_id
          (close_process_inventory history_points event_points at gpu_id ix s.last_observed
            (live s))
          (record s { active = none; last_observed = none }) room in
      rw same (record {
        sound = (nil-Sound own_key);
        agrees =
            subst
              (λ q.
                Agrees false q (record s {
                  events = e;
                  active = none;
                  last_observed = none;
                  initialized = false;
                }))
              (sym ep)
              (gone-Agrees ix s i p e h.sound
                (held-Agrees history_points event_points at gpu_id i p s ei ep h) all);
      })

  history-Agrees :
      (i p : Bool) (s : Slot) (e : Option (List GpuHistoryPoint))
      → Agrees i p s
      → Agrees i p (record s { history = e })
  history-Agrees true true s e h = h
  history-Agrees true false s e h = h
  history-Agrees false true s e h = h
  history-Agrees false false s e h = h

  seen-Agrees :
      (i p : Bool) (s : Slot) → Agrees i p s → Agrees i p (record s { last_observed = some at })
  seen-Agrees true true s h = h
  seen-Agrees true false s h = (h.0, refl)
  seen-Agrees false true s h = h
  seen-Agrees false false s h = h

  abbrev Stays : Slot → Slot × List GpuProcessTransition → Type 0
  Stays s r = length (ring s ++ r.1) ≤ event_points → InStep r.0

  -- While the ring of a GPU has room, a sample keeps its slot in step.
  pub observe_gpu-InStep :
      (gpu : GpuMetrics) (s : Slot)
      → InStep s
      → length (ring s ++ (observe_gpu history_points event_points at gpu_id gpu s).1)
        ≤ event_points
      → InStep (observe_gpu history_points event_points at gpu_id gpu s).0
  unfolding observe_gpu
  observe_gpu-InStep gpu s h =
      let sampled : Slot = record s {
        history = some (
            bounded history_points
              (or_else s.history [] ++ point_of history_points event_points at gpu_id gpu ∷ []));
      } in
      let in_step : InStep sampled = record {
        sound = h.sound;
        agrees = history-Agrees _ _ s _ h.agrees;
      } in
      if-case (Stays s) (not gpu.processes_sampled) _ _ (λ room. in_step)
        (if-case (Stays s) (not gpu.processes_available) _ _
          (gone-InStep (some gpu.index) sampled s.initialized s.pending refl refl in_step)
          (on_table-InStep history_points event_points at gpu_id gpu.index _ gpu.processes
            (record sampled { last_observed = some at }) s.initialized s.pending refl refl refl
            (record { sound = h.sound; agrees = seen-Agrees _ _ sampled in_step.agrees })))
