-- ===== src/Store/Tables.antt =====
-- A process table keeps the slot of its GPU in step.
use mathlib.Core.List.{append_assoc, append-nil}
use mocop.Base.{if-yes, if-no}
use mocop.Base.{
  ℕ, ◌≤◌, String, ◌≡◌, refl, sym, ◌∙◌, Bool, true, false, not, Option, none, some, List, [], ◌∷◌,
  ◌++◌, string_key, arith, Bool-cases, inl, inr, is_some, length,
}
use mocop.Base.Dict.{Dict, get, put, has, restrict, contains, put-IsDict}
use mocop.Models.{GpuProcess}
use mocop.Processes.Types.{GpuProcessTransition, ProcessKey, process_key}
use mocop.Processes.Transitions.{
  open_transitions, sorted_items, reconcile_restored_processes, same_process_instance,
}
use mocop.Processes.Inherit.{own_key, Sound, put-Filed}
use mocop.Processes.Reconcile.{
  nil-Sound, reconcile_restored_processes-has, reconcile_restored_processes-Sound,
}
use mocop.Store.Slot.{
  Slot, ring, live, edges, replacements, stamp, stamp_all, extend, initial_table, on_first_table,
  on_empty_table, changes, on_next_table, on_table,
}
use mocop.Store.Replay.{has-nil, has-restrict}
use mocop.Store.InStep.{
  Agrees, InStep, restrict-Sound, extend-InStep, started_open, stopped_open, replaced_open,
}

stamp-own :
    (at : String) (p : GpuProcess) (o : Option GpuProcess) → own_key (stamp at p o).0 ≡ own_key p
unfolding stamp
stamp-own at p none = refl
stamp-own at p (some q) = elim (Bool-cases (same_process_instance q p)) [
  | inl b ↦ rw b refl
  | inr b ↦ rw b refl
]

put-Sound :
    (d : Dict ProcessKey GpuProcess) (j : ProcessKey) (p : GpuProcess)
    → own_key p ≡ j
    → Sound own_key d
    → Sound own_key (put d j p)
put-Sound d j p own s = record {
  distinct_keys = put-IsDict d j p s.distinct_keys;
  filed = put-Filed own_key d j p own s.filed;
}

stamp_all-Sound :
    (at : String) (previous : Dict ProcessKey GpuProcess) (ps : List GpuProcess)
    (c : Dict ProcessKey GpuProcess) (replaced : List ProcessKey)
    → Sound own_key c
    → Sound own_key (stamp_all at previous ps (c, replaced)).0
unfolding stamp_all
stamp_all-Sound at previous [] c replaced s = s
stamp_all-Sound at previous (p ∷ ps) c replaced s = stamp_all-Sound at previous ps _ _ (
    put-Sound c (own_key p) (stamp at p (get previous (own_key p))).0
      (stamp-own at p (get previous (own_key p))) s)

module _ (history_points event_points : ℕ) (at gpu_id : String) where
  -- What the transitions between two tables leave open.
  changes_open :
      (index : ℕ) (previous current : Dict ProcessKey GpuProcess) (replaced : List ProcessKey)
      (xs : List GpuProcessTransition) (k : ProcessKey)
      → Sound own_key previous
      → Sound own_key current
      → has (open_transitions xs) k ≡ has previous k
      → has
          (open_transitions
            (xs ++ changes history_points event_points at gpu_id index previous current replaced))
          k
        ≡ has current k
  unfolding changes
  changes_open index previous current replaced xs k sp sc h =
      let new : Dict ProcessKey GpuProcess = restrict (λ key. not (has previous key)) current in
      let gone : Dict ProcessKey GpuProcess = restrict (λ key. not (has current key)) previous in
      let again : Dict ProcessKey GpuProcess = restrict (λ key. contains replaced key) current in
      let a : List GpuProcessTransition = edges at gpu_id index "started" true (sorted_items new) in
      let b : List GpuProcessTransition =
        edges at gpu_id index "stopped" true (sorted_items gone) in
      let c : List GpuProcessTransition =
        replacements at gpu_id index previous (sorted_items again) in
      let grouped : xs ++ (a ++ (b ++ c)) ≡ ((xs ++ a) ++ b) ++ c =
        sym (append_assoc (xs ++ a) b c ∙ append_assoc xs a (b ++ c)) in
      rw grouped (
        replaced_open history_points event_points at gpu_id index previous again ((xs ++ a) ++ b) k
          sp (restrict-Sound _ current sc)
        ∙ rw
            (
              stopped_open history_points event_points at gpu_id at index true gone (xs ++ a) k
                  (restrict-Sound _ previous sp),
              started_open history_points event_points at gpu_id index true new xs k
                  (restrict-Sound _ current sc),
              has-restrict (λ key. not (has previous key)) current k,
              has-restrict (λ key. not (has current key)) previous k,
              has-restrict (λ key. contains replaced key) current k,
              h,
            )
            (ground (arith)))

  pub held-Agrees :
      (i p : Bool) (s : Slot) → s.initialized ≡ i → s.pending ≡ p → InStep s → Agrees i p s
  held-Agrees i p s ei ep h = rw (← ei, ← ep) h.agrees

  -- A first table is in step once what is open agrees with it.
  first_table-InStep :
      (ts : List GpuProcessTransition) (c : Dict ProcessKey GpuProcess) (s : Slot)
      → is_some s.last_observed ≡ true
      → Sound own_key c
      → ((k : ProcessKey) → has (open_transitions (ring s ++ ts)) k ≡ has c k)
      → length (ring s ++ ts) ≤ event_points
      → InStep (
          extend history_points event_points at gpu_id ts
            (record s { active = some c; initialized = true; pending = false }))
  first_table-InStep ts c s seen sound agrees room =
      extend-InStep history_points event_points at gpu_id ts
        (record s { active = some c; initialized = true; pending = false }) room sound
        (λ e' all. ((λ k. rw all (agrees k)), seen))

  on_first_table-InStep :
      (index : ℕ) (previous_at : Option String) (current : Dict ProcessKey GpuProcess) (s : Slot)
      (p : Bool)
      → is_some s.last_observed ≡ true
      → s.pending ≡ p
      → Agrees false p s
      → Sound own_key current
      → length (
          ring s
          ++ (on_first_table history_points event_points at gpu_id index previous_at current s).1)
        ≤ event_points
      → InStep (on_first_table history_points event_points at gpu_id index previous_at current s).0
  unfolding on_first_table initial_table
  on_first_table-InStep index previous_at current s true seen e waiting sound = rw e (
      let done = reconcile_restored_processes (ring s) gpu_id index current at previous_at in
      first_table-InStep done.0 done.1 s seen
        (reconcile_restored_processes-Sound (ring s) gpu_id index current at previous_at sound)
        (λ k.
          let has_lem =
            reconcile_restored_processes-has (ring s) gpu_id index current at previous_at sound k in
          has_lem.0 ∙ sym has_lem.1))
  on_first_table-InStep index previous_at current s false seen e (closed, empty) sound = rw e (
      first_table-InStep (edges at gpu_id index "started" false (sorted_items current)) current s
        seen sound
        (λ k.
          started_open history_points event_points at gpu_id index false current (ring s) k sound
          ∙ rw (closed k) (ground (arith))))

  next_table-InStep :
      (index : ℕ) (current : Dict ProcessKey GpuProcess) (replaced : List ProcessKey) (s : Slot)
      → is_some s.last_observed ≡ true
      → s.initialized ≡ true
      → s.pending ≡ false
      → Sound own_key (live s)
      → ((k : ProcessKey) → has (open_transitions (ring s)) k ≡ has (live s) k)
      → Sound own_key current
      → length (
          ring s
          ++ (on_next_table history_points event_points at gpu_id index (current, replaced) s).1)
        ≤ event_points
      → InStep (on_next_table history_points event_points at gpu_id index (current, replaced) s).0
  unfolding on_next_table
  next_table-InStep index current replaced s seen ei ep sp agrees sound room =
      extend-InStep history_points event_points at gpu_id
        (changes history_points event_points at gpu_id index (live s) current replaced)
        (record s { active = some current }) room sound
        (λ e' all.
          rw (ei, ep)
            (
              (λ k.
                  rw all
                    (changes_open index (live s) current replaced (ring s) k sp sound (agrees k))),
              seen,
            ))

  -- Nothing is live, and what was open is closed.
  closed-InStep :
      (ts : List GpuProcessTransition) (s : Slot)
      → is_some s.last_observed ≡ true
      → live s ≡ []
      → ((k : ProcessKey) → has (open_transitions (ring s ++ ts)) k ≡ false)
      → length (ring s ++ ts) ≤ event_points
      → InStep (
          extend history_points event_points at gpu_id ts
            (record s { initialized = true; pending = false }))
  closed-InStep ts s seen empty closed room =
      extend-InStep history_points event_points at gpu_id ts
        (record s { initialized = true; pending = false }) room (rw empty (nil-Sound own_key))
        (λ e' all. ((λ k. rw (all, empty) (closed k ∙ sym (has-nil GpuProcess k))), seen))

  -- A table without processes that comes first: what is restored is closed.
  empty_first :
      (index : ℕ) (previous_at : Option String) (s : Slot) (p : Bool)
      → is_some s.last_observed ≡ true
      → s.initialized ≡ false
      → s.pending ≡ p
      → Agrees false p s
      → length
          (ring s ++ (on_empty_table history_points event_points at gpu_id index previous_at s).1)
        ≤ event_points
      → InStep (on_empty_table history_points event_points at gpu_id index previous_at s).0
  unfolding on_empty_table
  empty_first index previous_at s true seen ei ep waiting =
      rw (ei, ep)
        (λ room.
          closed-InStep (reconcile_restored_processes (ring s) gpu_id index [] at previous_at).0 s
            seen waiting
            (λ k.
              (reconcile_restored_processes-has (ring s) gpu_id index [] at previous_at
                (nil-Sound own_key) k).0
              ∙ has-nil GpuProcess k)
            room)
  empty_first index previous_at s false seen ei ep (closed, empty) =
      rw (ei, ep)
        (λ room. closed-InStep [] s seen empty (λ k. rw (append-nil (ring s)) (closed k)) room)

  empty_next :
      (index : ℕ) (previous_at : Option String) (s : Slot)
      → is_some s.last_observed ≡ true
      → s.initialized ≡ true
      → s.pending ≡ false
      → Sound own_key (live s)
      → ((k : ProcessKey) → has (open_transitions (ring s)) k ≡ has (live s) k)
      → length
          (ring s ++ (on_empty_table history_points event_points at gpu_id index previous_at s).1)
        ≤ event_points
      → InStep (on_empty_table history_points event_points at gpu_id index previous_at s).0
  unfolding on_empty_table
  empty_next index previous_at s seen ei ep sound agrees = rw ei (λ room.
      extend-InStep history_points event_points at gpu_id
        (edges at gpu_id index "stopped" true (sorted_items (live s)))
        (record s { active = none; initialized = true }) room (nil-Sound own_key)
        (λ e' all. rw ep (
          (λ k. rw all (
              stopped_open history_points event_points at gpu_id at index true (live s) (ring s) k
                sound
              ∙ rw (agrees k, has-nil GpuProcess k) (ground (arith)))),
          seen,
        )))

  pub on_table-InStep :
      (index : ℕ) (previous_at : Option String) (ps : List GpuProcess) (s : Slot) (i p : Bool)
      → is_some s.last_observed ≡ true
      → s.initialized ≡ i
      → s.pending ≡ p
      → InStep s
      → length (ring s ++ (on_table history_points event_points at gpu_id index previous_at ps s).1)
        ≤ event_points
      → InStep (on_table history_points event_points at gpu_id index previous_at ps s).0
  unfolding on_table
  on_table-InStep index previous_at ps s true true seen ei ep h =
      absurd (held-Agrees true true s ei ep h)
  on_table-InStep index previous_at [] s true false seen ei ep h =
      empty_next index previous_at s seen ei ep h.sound (held-Agrees true false s ei ep h).0
  on_table-InStep index previous_at [] s false p seen ei ep h =
      empty_first index previous_at s p seen ei ep (held-Agrees false p s ei ep h)
  on_table-InStep index previous_at (q ∷ qs) s true false seen ei ep h =
      let stamped = stamp_all at (live s) (q ∷ qs) ([], []) in
      if-no {A = Slot × List GpuProcessTransition}
        (λ r. length (ring s ++ r.1) ≤ event_points → InStep r.0) (not s.initialized) _ _
        (rw ei refl)
        (next_table-InStep index stamped.0 stamped.1 s seen ei ep h.sound
          (held-Agrees true false s ei ep h).0
          (stamp_all-Sound at (live s) (q ∷ qs) [] [] (nil-Sound own_key)))
  on_table-InStep index previous_at (q ∷ qs) s false p seen ei ep h =
      if-yes {A = Slot × List GpuProcessTransition}
        (λ r. length (ring s ++ r.1) ≤ event_points → InStep r.0) (not s.initialized) _ _
        (rw ei refl)
        (on_first_table-InStep index previous_at (stamp_all at (live s) (q ∷ qs) ([], [])).0 s p
          seen ep (held-Agrees false p s ei ep h)
          (stamp_all-Sound at (live s) (q ∷ qs) [] [] (nil-Sound own_key)))
