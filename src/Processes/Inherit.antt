-- ===== src/Processes/Inherit.antt =====
-- What the first loop of the reconciliation leaves of the live table.
use mocop.Base.{
  String, ◌≡◌, refl, sym, ◌∙◌, Option, none, some, List, [], ◌∷◌, string_key, ◌==◌, ==_iff,
  Bool-cases, inl, inr,
}
use mocop.Base.Dict.{
  put-IsDict, remove-IsDict, Dict, IsDict, get, put, remove, has, get-put, get-remove,
}
use mocop.Base.Sort.{sort_by}
use mocop.Models.{GpuProcess}
use mocop.Processes.Types.{GpuProcessTransition, ProcessKey, process_key, key_of}
use mocop.Processes.Transitions.{track, track_all, continues, inherit, close_restored, inherit_as}
use mocop.Processes.Tables.{item_leb, sort-get, Filed}
use mocop.Processes.Stops.{inherit-continues}

abbrev pub own_key : GpuProcess → ProcessKey
own_key process = (process.pid, process.name)

pub put-Filed {ℓ} :
    {A : Type ℓ} (own : A → ProcessKey) (d : Dict ProcessKey A) (k : ProcessKey) (v : A)
    → own v ≡ k
    → Filed own d
    → Filed own (put d k v)
put-Filed own d k v o f j w h = elim (Bool-cases (k == j)) [
  | inl s ↦
      let same : k ≡ j = (==_iff k j).0 s in
      let here : get (put d k v) j ≡ some v = rw (get-put, s) refl in cc
  | inr s ↦ f j w (let there : get (put d k v) j ≡ get d j = rw (get-put, s) refl in cc)
]

pub track-IsDict :
    (e : GpuProcessTransition) (d : Dict ProcessKey GpuProcessTransition)
    → IsDict d
    → IsDict (track e d)
unfolding track
track-IsDict e d h = elim (Bool-cases (e.event == "started")) [
  | inl s ↦ rw s (put-IsDict d (key_of e) e h)
  | inr s ↦ rw s (remove-IsDict d (key_of e) h)
]

pub track-Filed :
    (e : GpuProcessTransition) (d : Dict ProcessKey GpuProcessTransition)
    → Filed key_of d
    → Filed key_of (track e d)
unfolding track
track-Filed e d f = elim (Bool-cases (e.event == "started")) [
  | inl s ↦ rw s (put-Filed key_of d (key_of e) e refl f)
  | inr s ↦ rw s (λ j w h. elim (Bool-cases (key_of e == j)) [
    | inl t ↦ let gone : get (remove d (key_of e)) j ≡ none = rw (get-remove, t) refl in cc
    | inr t ↦
        f j w (let there : get (remove d (key_of e)) j ≡ get d j = rw (get-remove, t) refl in cc)
  ])
]

-- The tables on which reconciliation works.
pub record Sound {ℓ} {A : Type ℓ} (own : A → ProcessKey) (d : Dict ProcessKey A) : Type ℓ where
  pub distinct_keys : IsDict d
  pub filed : Filed own d

pub sort-Filed {ℓ} :
    {A : Type ℓ} (own : A → ProcessKey) (d : Dict ProcessKey A)
    → Sound own d
    → Filed own (sort_by item_leb d)
sort-Filed own d s k v h = s.filed k v (sym (sort-get d k s.distinct_keys) ∙ h)

pub track_all-Sound :
    (events : List GpuProcessTransition) (d : Dict ProcessKey GpuProcessTransition)
    → Sound key_of d
    → Sound key_of (track_all events d)
unfolding track_all
track_all-Sound [] d s = s
track_all-Sound (e ∷ events) d s =
    track_all-Sound events (track e d)
      (record { distinct_keys = track-IsDict e d s.distinct_keys; filed = track-Filed e d s.filed })

pub inherit_as-Sound :
    (e : GpuProcessTransition) (j : ProcessKey) (o : Option GpuProcess)
    (c : Dict ProcessKey GpuProcess)
    → get c j ≡ o
    → Sound own_key c
    → Sound own_key (inherit_as e j o c)
unfolding inherit_as
inherit_as-Sound e j none c h s = s
inherit_as-Sound e j (some p) c h s =
    let p' : GpuProcess = record p { first_seen_at = some e.observed_at } in
    record {
      distinct_keys = put-IsDict c j p' s.distinct_keys;
      filed = put-Filed own_key c j p' (s.filed j p h) s.filed;
    }

pub inherit_as-has :
    (e : GpuProcessTransition) (j k : ProcessKey) (o : Option GpuProcess)
    (c : Dict ProcessKey GpuProcess)
    → get c j ≡ o
    → has (inherit_as e j o c) k ≡ has c k
unfolding inherit_as
inherit_as-has e j k none c h = refl
inherit_as-has e j k (some p) c h = elim (Bool-cases (j == k)) [
  | inl s ↦
      let same : j ≡ k = (==_iff j k).0 s in
      let here : get c k ≡ some p = rw (← same) h in rw (get-put, s, here) refl
  | inr s ↦ rw (get-put, s) refl
]

-- What the first loop leaves of the live table.
pub record Inherited (c c' : Dict ProcessKey GpuProcess) : Type 0 where
  pub sound : Sound own_key c'
  pub same_has : (k : ProcessKey) → has c' k ≡ has c k
  pub same_match : (k : ProcessKey) (f : GpuProcessTransition) → continues c' k f ≡ continues c k f

pub inherit-Inherited :
    (c c' : Dict ProcessKey GpuProcess) (j : ProcessKey) (e : GpuProcessTransition)
    → Inherited c c'
    → Inherited c (inherit c' j e)
unfolding inherit
inherit-Inherited c c' j e h = record {
  sound = inherit_as-Sound e j (get c' j) c' refl h.sound;
  same_has = λ k. inherit_as-has e j k (get c' j) c' refl ∙ h.same_has k;
  same_match = λ k f. inherit-continues c' j k e f ∙ h.same_match k f;
}

pub close_restored-Inherited :
    (at : String) (items : Dict ProcessKey GpuProcessTransition) (c c' : Dict ProcessKey GpuProcess)
    → Inherited c c'
    → Inherited c (close_restored at items c').1
unfolding close_restored
close_restored-Inherited at [] c c' h = h
close_restored-Inherited at ((j, e) ∷ items) c c' h = elim (Bool-cases (continues c' j e)) [
  | inl b ↦
      rw b (close_restored-Inherited at items c (inherit c' j e) (inherit-Inherited c c' j e h))
  | inr b ↦ rw b (close_restored-Inherited at items c c' h)
]
