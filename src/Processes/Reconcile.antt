-- ===== src/Processes/Reconcile.antt =====
-- What reconciling restored transitions leaves open.
use mocop.Base.{
  ℕ, String, ◌≡◌, refl, sym, ◌∙◌, Bool, true, false, not, ◌||◌, Option, none, some, List, [], ◌∷◌,
  ◌++◌, if◌then◌else◌, string_key, ◌==◌, ==_iff, arith, Bool-cases, inl, inr, is_some,
}
use mocop.Base.Dict.{put-IsDict, Dict, IsDict, get, put, has, get-put, get-nil}
use mocop.Base.Sort.{sort_by}
use mocop.Models.{GpuProcess}
use mocop.Processes.Types.{GpuProcessTransition, ProcessKey, process_key, key_of}
use mocop.Processes.Transitions.{
  track, track_all, open_transitions, transition_matches_process, continues, close_restored,
  is_same, has_start, started_by, begin_live, reconcile_restored_processes, process_transition,
  sorted_items, or_text,
}
use mocop.Processes.Tables.{item_leb, sort-get, sort-IsDict, OwnKeys, Filed-OwnKeys}
use mocop.Processes.Stops.{stopped, track_all-append, close_restored-get}
use mocop.Processes.Inherit.{
  Sound, Inherited, own_key, put-Filed, sort-Filed, track_all-Sound, close_restored-Inherited,
}

-- Whether the second loop starts a run of a key, by what the sorted live table has for it.
unfoldable begun : Dict ProcessKey GpuProcessTransition → ProcessKey → Option GpuProcess → Bool
begun open_events k none = false
begun open_events k (some p) = not (has_start open_events k p)

start-track :
    (at gpu_id : String) (index : ℕ) (p : GpuProcess) (d : Dict ProcessKey GpuProcessTransition)
    → track (process_transition at gpu_id index "started" p true) d
      ≡ put d (own_key p) (process_transition at gpu_id index "started" p true)
unfolding track process_transition
start-track at gpu_id index p d = refl

module _ (at gpu_id : String) (index : ℕ) (open_events : Dict ProcessKey GpuProcessTransition) where
  begun-skip :
      (items : Dict ProcessKey GpuProcess) (j k : ProcessKey) (p : GpuProcess) (b : Bool)
      → get items j ≡ none
      → has_start open_events j p ≡ true
      → (b || begun open_events k (get items k))
        ≡ (b || begun open_events k (get ((j, p) ∷ items) k))
  unfolding get begun
  begun-skip items j k p b fresh h = elim (Bool-cases (j == k)) [
    | inl s ↦
        let same : j ≡ k = (==_iff j k).0 s in
        let gone : get items k ≡ none = rw (← same) fresh in
        let kept : has_start open_events k p ≡ true = rw (← same) h in rw (s, gone, kept) refl
    | inr s ↦ rw s refl
  ]

  begun-put :
      (items : Dict ProcessKey GpuProcess) (j k : ProcessKey) (p : GpuProcess)
      (d : Dict ProcessKey GpuProcessTransition) (t : GpuProcessTransition)
      → get items j ≡ none
      → has_start open_events j p ≡ false
      → (has (put d j t) k || begun open_events k (get items k))
        ≡ (has d k || begun open_events k (get ((j, p) ∷ items) k))
  unfolding get begun
  begun-put items j k p d t fresh h = elim (Bool-cases (j == k)) [
    | inl s ↦
        let same : j ≡ k = (==_iff j k).0 s in
        let new : has_start open_events k p ≡ false = rw (← same) h in
        rw (get-put, s, new) (ground (arith))
    | inr s ↦ rw (get-put, s) refl
  ]

  begun-nil : (k : ProcessKey) (b : Bool) → b ≡ (b || begun open_events k (get [] k))
  unfolding get begun
  begun-nil k b = ground arith

  begin_live-has :
      (items : Dict ProcessKey GpuProcess) (d : Dict ProcessKey GpuProcessTransition)
      (k : ProcessKey)
      → IsDict items
      → OwnKeys own_key items
      → has (track_all (begin_live at gpu_id index open_events items) d) k
        ≡ (has d k || begun open_events k (get items k))
  unfolding begin_live track_all
  begin_live-has [] d k h o = begun-nil k (has d k)
  begin_live-has ((j, p) ∷ items) d k h o = elim (Bool-cases (has_start open_events j p)) [
    | inl b ↦ rw b (begin_live-has items d k h.1 o.1 ∙ begun-skip items j k p (has d k) h.0 b)
    | inr b ↦
        let t : GpuProcessTransition = process_transition at gpu_id index "started" p true in
        let d' : Dict ProcessKey GpuProcessTransition = track t d in
        let own : d' ≡ put d j t = start-track at gpu_id index p d ∙ rw o.0 refl in
        rw b (begin_live-has items d' k h.1 o.1 ∙ rw own (begun-put items j k p d t h.0 b))
  ]

-- What is open at the end, from what a key has in the ring and in the two live tables.
settled :
    (c c' : Dict ProcessKey GpuProcess) (open_events : Dict ProcessKey GpuProcessTransition)
    (k : ProcessKey) (o : Option GpuProcessTransition) (l : Option GpuProcess)
    → get open_events k ≡ o
    → get c' k ≡ l
    → Inherited c c'
    → (is_some (if stopped c k o then none else o) || begun open_events k l) ≡ is_some l
unfolding stopped begun has_start started_by continues is_same
settled c c' open_events k none none e h s = refl
settled c c' open_events k none (some p) e h s = rw e refl
settled c c' open_events k (some f) none e h s =
    let here : is_same f (get c' k) ≡ false = rw h refl in
    let gone : is_same f (get c k) ≡ false = sym (s.same_match k f) ∙ here in rw gone refl
settled c c' open_events k (some f) (some p) e h s =
    let here : is_same f (get c' k) ≡ transition_matches_process f p = rw h refl in
    let kept : is_same f (get c k) ≡ transition_matches_process f p =
      sym (s.same_match k f) ∙ here in
    elim (Bool-cases (transition_matches_process f p)) [
      | inl b ↦ rw (kept, e, b) refl
      | inr b ↦ rw (kept, e, b) refl
    ]

-- The empty table.
pub nil-Sound {ℓ} : {A : Type ℓ} (own : A → ProcessKey) → Sound own []
nil-Sound {A = A} own = record {
  distinct_keys = tt;
  filed = λ j v h. let g : ◌≡◌ {A = Option A} (get [] j) none = get-nil j in cc;
}

-- A table of one process.
pub single-Sound : (p : GpuProcess) → Sound own_key (put [] (own_key p) p)
single-Sound p =
    let nil : Dict ProcessKey GpuProcess = [] in
    let s : Sound own_key nil = nil-Sound own_key in
    record {
      distinct_keys = put-IsDict nil (own_key p) p s.distinct_keys;
      filed = put-Filed own_key nil (own_key p) p refl s.filed;
    }

-- The live table stays in order.
pub reconcile_restored_processes-Sound :
    (events : List GpuProcessTransition) (gpu_id : String) (index : ℕ)
    (current : Dict ProcessKey GpuProcess) (at : String) (previous : Option String)
    → Sound own_key current
    → Sound own_key (reconcile_restored_processes events gpu_id index current at previous).1
unfolding reconcile_restored_processes
reconcile_restored_processes-Sound events gpu_id index current at previous sound =
    (close_restored-Inherited (or_text previous at) (sorted_items (open_transitions events)) current
      current (record { sound = sound; same_has = λ j. refl; same_match = λ j f. refl })).sound

-- From live processes filed under their own keys: once the transitions that reconciliation returns are
-- appended to the restored ones, the runs left open are those of exactly the live processes, and the
-- live table that it leaves lists the same processes.
pub reconcile_restored_processes-has :
    (events : List GpuProcessTransition) (gpu_id : String) (index : ℕ)
    (current : Dict ProcessKey GpuProcess) (at : String) (previous : Option String)
    → Sound own_key current
    → (k : ProcessKey)
    → (has
          (open_transitions
            (events ++ (reconcile_restored_processes events gpu_id index current at previous).0))
          k
        ≡ has current k)
      × (has (reconcile_restored_processes events gpu_id index current at previous).1 k
          ≡ has current k)
unfolding reconcile_restored_processes open_transitions sorted_items
reconcile_restored_processes-has events gpu_id index current at previous sound k =
    let open_events : Dict ProcessKey GpuProcessTransition = track_all events [] in
    let open_sound : Sound key_of open_events = track_all-Sound events [] (nil-Sound key_of) in
    let items : Dict ProcessKey GpuProcessTransition = sort_by item_leb open_events in
    let close_at : String = or_text previous at in
    let stops : List GpuProcessTransition = (close_restored close_at items current).0 in
    let live : Dict ProcessKey GpuProcess = (close_restored close_at items current).1 in
    let inherited : Inherited current live =
      close_restored-Inherited close_at items current current
        (record { sound = sound; same_has = λ j. refl; same_match = λ j f. refl }) in
    let sorted_live : Dict ProcessKey GpuProcess = sort_by item_leb live in
    let starts : List GpuProcessTransition = begin_live at gpu_id index open_events sorted_live in
    let d1 : Dict ProcessKey GpuProcessTransition = track_all stops open_events in
    let items_dict : IsDict items = sort-IsDict open_events open_sound.distinct_keys in
    let items_get : get items k ≡ get open_events k =
      sort-get open_events k open_sound.distinct_keys in
    let live_get : get sorted_live k ≡ get live k = sort-get live k inherited.sound.distinct_keys in
    let after_stops : get d1 k
        ≡ (if stopped current k (get open_events k) then none else get open_events k) =
      close_restored-get close_at items current open_events k items_dict
        (Filed-OwnKeys key_of items items_dict (sort-Filed key_of open_events open_sound))
      ∙ rw items_get refl in
    let live_dict : IsDict sorted_live = sort-IsDict live inherited.sound.distinct_keys in
    let after_starts : has (track_all starts d1) k
        ≡ (has d1 k || begun open_events k (get live k)) =
      begin_live-has at gpu_id index open_events sorted_live d1 k live_dict
        (Filed-OwnKeys own_key sorted_live live_dict (sort-Filed own_key live inherited.sound))
      ∙ rw live_get refl in
    let replay : track_all (events ++ (stops ++ starts)) [] ≡ track_all starts d1 =
      track_all-append events (stops ++ starts) [] ∙ track_all-append stops starts open_events in
    (
      rw replay (
          after_starts
          ∙ rw after_stops (
              settled current live open_events k (get open_events k) (get live k) refl refl
                inherited)
          ∙ inherited.same_has k),
      inherited.same_has k,
    )
