-- ===== src/Store/Replay.antt =====
-- What is open after the transitions that the store makes.
use mocop.Base.{
  ℕ, String, ◌≡◌, refl, ◌∙◌, Bool, true, false, not, ◌&&◌, ◌||◌, Option, none, some, [], ◌∷◌,
  string_key, ◌==◌, arith, or_else,
}
use mocop.Base.Dict.{Dict, get, put, remove, has, restrict, get-put, get-remove, get-restrict}
use mocop.Models.{GpuProcess}
use mocop.Processes.Types.{GpuProcessTransition, ProcessKey, process_key}
use mocop.Processes.Transitions.{track, track_all, process_transition}
use mocop.Processes.Tables.{Filed, OwnKeys}
use mocop.Processes.Inherit.{own_key}
use mocop.Store.Slot.{edges, replacements}

pub has-cons {ℓ} :
    {A : Type ℓ} (j k : ProcessKey) (v : A) (d : Dict ProcessKey A)
    → has ((j, v) ∷ d) k ≡ (j == k || has d k)
unfolding get
has-cons j k v d = ground (arith)

has-put {ℓ} :
    {A : Type ℓ} (d : Dict ProcessKey A) (j k : ProcessKey) (v : A)
    → has (put d j v) k ≡ (j == k || has d k)
has-put d j k v = rw get-put (ground (arith))

pub has-remove {ℓ} :
    {A : Type ℓ} (d : Dict ProcessKey A) (j k : ProcessKey)
    → has (remove d j) k ≡ (not (j == k) && has d k)
has-remove d j k = rw get-remove (ground (arith))

pub has-restrict {ℓ} :
    {A : Type ℓ} (p : ProcessKey → Bool) (d : Dict ProcessKey A) (k : ProcessKey)
    → has (restrict p d) k ≡ (p k && has d k)
has-restrict p d k = rw get-restrict (ground (arith))

pub has-nil {ℓ} : (A : Type ℓ) (k : ProcessKey) → has {V = A} [] k ≡ false
unfolding get
has-nil A k = refl

prior-own :
    (j : ProcessKey) (p : GpuProcess) (o : Option GpuProcess)
    → ((v : GpuProcess) → o ≡ some v → own_key v ≡ j)
    → own_key p ≡ j
    → own_key (or_else o p) ≡ j
prior-own j p none f h = h
prior-own j p (some v) f h = f v refl

module _ (at gpu_id : String) (index : ℕ) where
  track-started :
      (v : Bool) (p : GpuProcess) (d : Dict ProcessKey GpuProcessTransition) (j k : ProcessKey)
      → own_key p ≡ j
      → has (track (process_transition at gpu_id index "started" p v) d) k ≡ (j == k || has d k)
  unfolding track process_transition
  track-started v p d j k h = rw (← h) (has-put d (own_key p) k _)

  track-stopped :
      (v : Bool) (p : GpuProcess) (d : Dict ProcessKey GpuProcessTransition) (j k : ProcessKey)
      → own_key p ≡ j
      → has (track (process_transition at gpu_id index "stopped" p v) d) k
        ≡ (not (j == k) && has d k)
  unfolding track process_transition
  track-stopped v p d j k h = rw (← h) (has-remove d (own_key p) k)

  -- Starts open the runs of their table.
  pub starts-has :
      (v : Bool) (items : Dict ProcessKey GpuProcess) (d : Dict ProcessKey GpuProcessTransition)
      (k : ProcessKey)
      → OwnKeys own_key items
      → has (track_all (edges at gpu_id index "started" v items) d) k ≡ (has items k || has d k)
  unfolding edges track_all
  starts-has v [] d k h = rw (has-nil GpuProcess k) refl
  starts-has v ((j, p) ∷ items) d k h =
      starts-has v items (track (process_transition at gpu_id index "started" p v) d) k h.1
      ∙ rw (track-started v p d j k h.0, has-cons j k p items) (ground (arith))

  -- Stops close the runs of their table.
  pub stops-has :
      (v : Bool) (items : Dict ProcessKey GpuProcess) (d : Dict ProcessKey GpuProcessTransition)
      (k : ProcessKey)
      → OwnKeys own_key items
      → has (track_all (edges at gpu_id index "stopped" v items) d) k
        ≡ (not (has items k) && has d k)
  unfolding edges track_all
  stops-has v [] d k h = rw (has-nil GpuProcess k) refl
  stops-has v ((j, p) ∷ items) d k h =
      stops-has v items (track (process_transition at gpu_id index "stopped" p v) d) k h.1
      ∙ rw (track-stopped v p d j k h.0, has-cons j k p items) (ground (arith))

  -- A replaced instance stays open.
  pub replacements-has :
      (previous items : Dict ProcessKey GpuProcess) (d : Dict ProcessKey GpuProcessTransition)
      (k : ProcessKey)
      → Filed own_key previous
      → OwnKeys own_key items
      → has (track_all (replacements at gpu_id index previous items) d) k ≡ (has items k || has d k)
  unfolding replacements track_all
  replacements-has previous [] d k f h = rw (has-nil GpuProcess k) refl
  replacements-has previous ((j, p) ∷ items) d k f h =
      let prior : GpuProcess = or_else (get previous j) p in
      let own : own_key prior ≡ j = prior-own j p (get previous j) (f j) h.0 in
      let d1 : Dict ProcessKey GpuProcessTransition =
        track (process_transition at gpu_id index "stopped" prior true) d in
      let d2 : Dict ProcessKey GpuProcessTransition =
        track (process_transition at gpu_id index "started" p true) d1 in
      replacements-has previous items d2 k f h.1
      ∙ rw
          (
            track-started true p d1 j k h.0,
            track-stopped true prior d j k own,
            has-cons j k p items,
          )
          (ground (arith))
