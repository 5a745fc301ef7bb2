-- ===== src/Fleet/Table.antt =====
-- The table of the losses that SimultaneousLossCorrelator of correlation.py goes by.
use mathlib.Core.Option
use mocop.Base.{
  String, ◌≡◌, refl, ◌∙◌, false, ◌&&◌, Option, none, some, List, [], ◌∷◌, map, All, if◌then◌else◌,
  string_key, ◌==◌, ==_iff, ==_refl, arith, Bool-cases, Option-cases, inl, inr,
}
use mocop.Base.Int.{Float}
use mocop.Base.Dict.{Dict, IsDict, IsDistinct, get, put, contains, get-put, put-IsDict}
use mocop.Base.Members.{All-imply}
use mocop.Fleet.Correlation.{Incident, is_affected, actionable_connectivity, losses_of}
use mocop.Fleet.Densest.{host_of}

abbrev pub otherwise {ℓ} : {A : Type ℓ} → Option A → Option A → Option A
otherwise none d = d
otherwise (some a) d = some a

-- The last of the incidents that is an actionable loss of connectivity of the host, if it is monitored.
pub latest : List Incident → List String → String → Option Incident
latest [] monitored_hosts host = none
latest (item ∷ items) monitored_hosts host =
    otherwise (latest items monitored_hosts host)
      (if is_affected monitored_hosts item && item.host == host then some item else none)

otherwise-put :
    (o : Option Incident) (item : Incident) (d : Dict String Incident) (host : String)
    → otherwise o (get (put d item.host item) host)
      ≡ otherwise (otherwise o (if item.host == host then some item else none)) (get d host)
otherwise-put none item d host = get-put d item.host host item ∙ ground arith
otherwise-put (some found) item d host = refl

otherwise-none : (o d : Option Incident) → otherwise o d ≡ otherwise (otherwise o none) d
otherwise-none none d = refl
otherwise-none (some found) d = refl

pub otherwise-last : (o : Option Incident) → otherwise o none ≡ o
otherwise-last none = refl
otherwise-last (some found) = refl

pub latest-get :
    (items : List Incident) (monitored : List String) (d : Dict String Incident) (host : String)
    → get (actionable_connectivity items monitored d) host
      ≡ otherwise (latest items monitored host) (get d host)
unfolding actionable_connectivity latest
latest-get [] monitored d host = refl
latest-get (item ∷ items) monitored d host = elim (Bool-cases (is_affected monitored item)) [
  | inl b ↦ rw b (
      latest-get items monitored (put d item.host item) host
      ∙ otherwise-put (latest items monitored host) item d host)
  | inr b ↦ rw b (
      latest-get items monitored d host ∙ otherwise-none (latest items monitored host) (get d host))
]

pub actionable-IsDict :
    (items : List Incident) (monitored : List String) (d : Dict String Incident)
    → IsDict d
    → IsDict (actionable_connectivity items monitored d)
unfolding actionable_connectivity
actionable-IsDict [] monitored d h = h
actionable-IsDict (item ∷ items) monitored d h = elim (Bool-cases (is_affected monitored item)) [
  | inl b ↦
      rw b
        (actionable-IsDict items monitored (put d item.host item) (put-IsDict d item.host item h))
  | inr b ↦ rw b (actionable-IsDict items monitored d h)
]

-- Each entry of a dictionary is what is found under its key.
pub entries-get : (d : Dict String Incident) → IsDict d → All (λ e. get d e.0 ≡ some e.1) d
unfolding get
entries-get [] h = tt
entries-get ((k, v) ∷ d) h = (
  rw (==_refl k) refl,
  All-imply d
      (λ e f. elim (Bool-cases (k == e.0)) [
        | inl s ↦
            let same : k ≡ e.0 = (==_iff k e.0).0 s in
            let gone : get d e.0 ≡ none = rw (← same) h.0 in cc
        | inr s ↦ rw s f
      ])
      (entries-get d h.1),
)

module _ (epoch_seconds : Option String → Option Float) (window : Float) where
  abbrev pub start_of : Option Incident → Option Float
  start_of o = Option.bind o (λ item. epoch_seconds item.first_observed_at)

  pub losses-start :
      (full d : Dict String Incident)
      → All (λ e. get full e.0 ≡ some e.1) d
      → All (λ l. start_of (get full l.1) ≡ some l.0) (losses_of epoch_seconds window d)
  unfolding losses_of Option.bind
  losses-start full [] h = tt
  losses-start full ((host, item) ∷ d) h =
      elim (Option-cases (epoch_seconds item.first_observed_at)) [
        | inl e ↦ rw e (losses-start full d h.1)
        | inr (epoch, e) ↦ rw e (rw (h.0, e) refl, losses-start full d h.1)
      ]

  losses-gone :
      (d : Dict String Incident) (k : String)
      → get d k ≡ none
      → contains (map host_of (losses_of epoch_seconds window d)) k ≡ false
  unfolding losses_of contains get
  losses-gone [] k h = refl
  losses-gone ((host, item) ∷ d) k h = elim (Option-cases (epoch_seconds item.first_observed_at)) [
    | inl e ↦ rw e (losses-gone d k (ground (arith, h)))
    | inr (epoch, e) ↦ rw e (ground (arith, h, losses-gone d k))
  ]

  pub losses-IsDistinct :
      (d : Dict String Incident)
      → IsDict d
      → IsDistinct (map host_of (losses_of epoch_seconds window d))
  unfolding losses_of
  losses-IsDistinct [] h = tt
  losses-IsDistinct ((host, item) ∷ d) h =
      elim (Option-cases (epoch_seconds item.first_observed_at)) [
        | inl e ↦ rw e (losses-IsDistinct d h.1)
        | inr (epoch, e) ↦ rw e (losses-gone d host h.0, losses-IsDistinct d h.1)
      ]
