-- ===== src/Processes/Stops.antt =====
-- What the first loop of the reconciliation stops.
use mocop.Base.{
  String, ◌≡◌, refl, ◌∙◌, Bool, true, false, not, Option, none, some, List, [], ◌∷◌, ◌++◌,
  if◌then◌else◌, string_key, ◌==◌, ==_iff, Bool-cases, inl, inr,
}
use mocop.Base.Dict.{Dict, IsDict, get, remove, get-put, get-remove}
use mocop.Models.{GpuProcess}
use mocop.Processes.Types.{GpuProcessTransition, ProcessKey, process_key, key_of}
use mocop.Processes.Transitions.{
  track, track_all, close_restored_start, transition_matches_process, continues, inherit,
  close_restored, is_same, inherit_as, workload_start,
}
use mocop.Processes.Tables.{OwnKeys}

-- The first sight of a process does not matter to whether it is the one that started.
pub inherit_as-same :
    (event f : GpuProcessTransition) (j k : ProcessKey) (o : Option GpuProcess)
    (c : Dict ProcessKey GpuProcess)
    → get c j ≡ o
    → is_same f (get (inherit_as event j o c) k) ≡ is_same f (get c k)
unfolding inherit_as is_same transition_matches_process workload_start
inherit_as-same event f j k none c h = refl
inherit_as-same event f j k (some process) c h = elim (Bool-cases (j == k)) [
  | inl b ↦
      let same : j ≡ k = (==_iff j k).0 b in
      let here : get c k ≡ some process = rw (← same) h in rw (get-put, b, here) refl
  | inr b ↦ rw (get-put, b) refl
]

pub inherit-continues :
    (c : Dict ProcessKey GpuProcess) (j k : ProcessKey) (e f : GpuProcessTransition)
    → continues (inherit c j e) k f ≡ continues c k f
unfolding continues inherit
inherit-continues c j k e f = inherit_as-same e f j k (get c j) c refl

-- Whether the first loop stops the run of a key, by what the sorted open transitions have for it.
unfoldable pub stopped :
    Dict ProcessKey GpuProcess → ProcessKey → Option GpuProcessTransition → Bool
stopped c k none = false
stopped c k (some e) = not (continues c k e)

pub stopped-inherit :
    (c : Dict ProcessKey GpuProcess) (j k : ProcessKey) (e : GpuProcessTransition)
    (o : Option GpuProcessTransition)
    → stopped (inherit c j e) k o ≡ stopped c k o
unfolding stopped
stopped-inherit c j k e none = refl
stopped-inherit c j k e (some f) = rw (inherit-continues c j k e f) refl

pub track_all-append :
    (xs ys : List GpuProcessTransition) (d : Dict ProcessKey GpuProcessTransition)
    → track_all (xs ++ ys) d ≡ track_all ys (track_all xs d)
unfolding track_all
track_all-append [] ys d = refl
track_all-append (x ∷ xs) ys d = track_all-append xs ys (track x d)

pub stop-track :
    (e : GpuProcessTransition) (at : String) (d : Dict ProcessKey GpuProcessTransition)
    → track (close_restored_start e at none) d ≡ remove d (key_of e)
unfolding track close_restored_start
stop-track e at d = refl

module _ (items : Dict ProcessKey GpuProcessTransition) (c : Dict ProcessKey GpuProcess)
    (j k : ProcessKey) (e : GpuProcessTransition) (fresh : get items j ≡ none) where
  pub stopped-keep :
      continues c j e ≡ true
      → stopped (inherit c j e) k (get items k) ≡ stopped c k (get ((j, e) ∷ items) k)
  unfolding get stopped
  stopped-keep b = elim (Bool-cases (j == k)) [
    | inl s ↦
        let same : j ≡ k = (==_iff j k).0 s in
        let gone : get items k ≡ none = rw (← same) fresh in
        let kept : continues c k e ≡ true = rw (← same) b in rw (s, gone, kept) refl
    | inr s ↦ rw s (stopped-inherit c j k e (get items k))
  ]

  pub stopped-drop :
      (d : Dict ProcessKey GpuProcessTransition)
      → continues c j e ≡ false
      → (if stopped c k (get items k) then none else get (remove d j) k)
        ≡ (if stopped c k (get ((j, e) ∷ items) k) then none else get d k)
  unfolding get stopped
  stopped-drop d b = elim (Bool-cases (j == k)) [
    | inl s ↦
        let same : j ≡ k = (==_iff j k).0 s in
        let gone : get items k ≡ none = rw (← same) fresh in
        let ended : continues c k e ≡ false = rw (← same) b in rw (get-remove, s, gone, ended) refl
    | inr s ↦ rw (get-remove, s) refl
  ]

pub stopped-nil : (c : Dict ProcessKey GpuProcess) (k : ProcessKey) → stopped c k (get [] k) ≡ false
unfolding get stopped
stopped-nil c k = refl

pub close_restored-get :
    (at : String) (items : Dict ProcessKey GpuProcessTransition) (c : Dict ProcessKey GpuProcess)
    (d : Dict ProcessKey GpuProcessTransition) (k : ProcessKey)
    → IsDict items
    → OwnKeys key_of items
    → get (track_all (close_restored at items c).0 d) k
      ≡ (if stopped c k (get items k) then none else get d k)
unfolding close_restored track_all
close_restored-get at [] c d k h o = rw (stopped-nil c k) refl
close_restored-get at ((j, e) ∷ items) c d k h o = elim (Bool-cases (continues c j e)) [
  | inl b ↦ rw b (
      close_restored-get at items (inherit c j e) d k h.1 o.1
      ∙ rw (stopped-keep items c j k e h.0 b) refl)
  | inr b ↦
      let stop : GpuProcessTransition = close_restored_start e at none in
      let d' : Dict ProcessKey GpuProcessTransition = track stop d in
      let own : d' ≡ remove d j = stop-track e at d ∙ rw o.0 refl in
      rw b
        (close_restored-get at items c d' k h.1 o.1 ∙ rw own (stopped-drop items c j k e h.0 d b))
]
