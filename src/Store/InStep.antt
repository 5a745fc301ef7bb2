-- ===== src/Store/InStep.antt =====
-- The ring of a GPU's transitions against its table of live processes.
use mathlib.Core.List.{append-nil}
use mocop.Base.{
  ℕ, ◌≤◌, String, ◌≡◌, refl, sym, ◌∙◌, Bool, true, false, not, ◌&&◌, ◌||◌, Option, none, some, List,
  [], ◌∷◌, ◌++◌, string_key, Bool-cases, inl, inr, is_some, or_else, length, bounded_of_le, bounded,
}
use mocop.Base.Dict.{Dict, get, has, restrict, restrict-IsDict, get-restrict}
use mocop.Models.{GpuProcess}
use mocop.Processes.Types.{GpuProcessTransition, ProcessKey, process_key}
use mocop.Processes.Transitions.{track_all, open_transitions, sorted_items}
use mocop.Processes.Tables.{OwnKeys, Filed-OwnKeys, sort-get, sort-IsDict}
use mocop.Processes.Stops.{track_all-append}
use mocop.Processes.Inherit.{own_key, Sound, sort-Filed}
use mocop.Store.Slot.{Slot, ring, live, edges, replacements, extend}
use mocop.Store.Replay.{starts-has, stops-has, replacements-has}

-- Of a GPU whose first table has been seen, the runs that the ring leaves open are those of the live
-- processes. Before, nothing is live, and nothing is open unless restored transitions wait for the table.
abbrev pub Agrees : Bool → Bool → Slot → Type 0
Agrees true true s = ⊥
Agrees true false s =
    ((k : ProcessKey) → has (open_transitions (ring s)) k ≡ has (live s) k)
    × (is_some s.last_observed ≡ true)
Agrees false false s =
    ((k : ProcessKey) → has (open_transitions (ring s)) k ≡ false) × (live s ≡ [])
Agrees false true s = live s ≡ []

pub record InStep (s : Slot) : Type 0 where
  pub sound : Sound own_key (live s)
  pub agrees : Agrees s.initialized s.pending s

pub restrict-Sound :
    (p : ProcessKey → Bool) (d : Dict ProcessKey GpuProcess)
    → Sound own_key d
    → Sound own_key (restrict p d)
restrict-Sound p d s = record {
  distinct_keys = restrict-IsDict p d s.distinct_keys;
  filed = λ k v h. elim (Bool-cases (p k)) [
    | inl b ↦ s.filed k v (let e : get (restrict p d) k ≡ get d k = rw (get-restrict, b) refl in cc)
    | inr b ↦ let e : get (restrict p d) k ≡ none = rw (get-restrict, b) refl in cc
  ];
}

-- A sorted table: its entries are under their own keys, and it has the keys of the table.
pub sorted_own :
    (d : Dict ProcessKey GpuProcess) → Sound own_key d → OwnKeys own_key (sorted_items d)
unfolding sorted_items
sorted_own d s =
    Filed-OwnKeys own_key (sorted_items d) (sort-IsDict d s.distinct_keys) (sort-Filed own_key d s)

sorted_has :
    (d : Dict ProcessKey GpuProcess) (k : ProcessKey)
    → Sound own_key d
    → has (sorted_items d) k ≡ has d k
unfolding sorted_items
sorted_has d k s = rw (sort-get d k s.distinct_keys) refl

-- What is open after more transitions.
pub open-append :
    (xs ys : List GpuProcessTransition)
    → open_transitions (xs ++ ys) ≡ track_all ys (open_transitions xs)
unfolding open_transitions
open-append xs ys = track_all-append xs ys []

module _ (history_points event_points : ℕ) (at gpu_id : String) where
  -- While the ring has room, it is extended at its end, and nothing else changes.
  pub extend_lem :
      (ts : List GpuProcessTransition) (s : Slot)
      → length (ring s ++ ts) ≤ event_points
      → (e : Option (List GpuProcessTransition)) × (extend history_points event_points at gpu_id ts
            s
          ≡ record s { events = e })
        × (or_else e [] ≡ ring s ++ ts)
  unfolding extend
  extend_lem [] s h = (s.events, refl, sym (append-nil (ring s)))
  extend_lem (t ∷ ts) s h = (
    some (bounded event_points (ring s ++ t ∷ ts)),
    refl,
    bounded_of_le event_points (ring s ++ t ∷ ts) h,
  )

  -- So the slot is in step if what it leaves open agrees with its table.
  pub extend-InStep :
      (ts : List GpuProcessTransition) (s : Slot)
      → length (ring s ++ ts) ≤ event_points
      → Sound own_key (live s)
      → ((e : Option (List GpuProcessTransition))
          → or_else e [] ≡ ring s ++ ts
          → Agrees s.initialized s.pending (record s { events = e }))
      → InStep (extend history_points event_points at gpu_id ts s)
  extend-InStep ts s room sound agrees =
      let (e, same, all) = extend_lem ts s room in
      rw same (record { sound = sound; agrees = agrees e all })

  pub started_open :
      (index : ℕ) (v : Bool) (d : Dict ProcessKey GpuProcess) (xs : List GpuProcessTransition)
      (k : ProcessKey)
      → Sound own_key d
      → has (open_transitions (xs ++ edges at gpu_id index "started" v (sorted_items d))) k
        ≡ (has d k || has (open_transitions xs) k)
  started_open index v d xs k s =
      rw (open-append xs (edges at gpu_id index "started" v (sorted_items d))) (
        starts-has at gpu_id index v (sorted_items d) (open_transitions xs) k (sorted_own d s)
        ∙ rw (sorted_has d k s) refl)

  pub stopped_open :
      (o : String) (index : ℕ) (v : Bool) (d : Dict ProcessKey GpuProcess)
      (xs : List GpuProcessTransition) (k : ProcessKey)
      → Sound own_key d
      → has (open_transitions (xs ++ edges o gpu_id index "stopped" v (sorted_items d))) k
        ≡ (not (has d k) && has (open_transitions xs) k)
  stopped_open o index v d xs k s =
      rw (open-append xs (edges o gpu_id index "stopped" v (sorted_items d))) (
        stops-has o gpu_id index v (sorted_items d) (open_transitions xs) k (sorted_own d s)
        ∙ rw (sorted_has d k s) refl)

  pub replaced_open :
      (index : ℕ) (previous d : Dict ProcessKey GpuProcess) (xs : List GpuProcessTransition)
      (k : ProcessKey)
      → Sound own_key previous
      → Sound own_key d
      → has (open_transitions (xs ++ replacements at gpu_id index previous (sorted_items d))) k
        ≡ (has d k || has (open_transitions xs) k)
  replaced_open index previous d xs k f s =
      rw (open-append xs (replacements at gpu_id index previous (sorted_items d))) (
        replacements-has at gpu_id index previous (sorted_items d) (open_transitions xs) k f.filed
          (sorted_own d s)
        ∙ rw (sorted_has d k s) refl)
