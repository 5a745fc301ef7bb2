-- ===== src/Incidents/Tracker/Observe.antt =====
-- The first loop of `update`: each observed key moves as Phase.antt says, the others stay.
use mocop.Base.{
  ℕ, String, ◌≡◌, refl, ◌∙◌, false, not, Option, none, some, [], ◌∷◌, if◌then◌else◌, string_key,
  ◌==◌, ==_iff, Bool-cases, inl, inr, arith,
}
use mocop.Base.Dict.{
  Dict, IsDict, get, has, get-put_self, get-remove_self, get-put_ne, get-remove_ne, get-restrict,
}
use mocop.Models.{ProbeResult}
use mocop.Incidents.Types.{IncidentCondition}
use mocop.Incidents.Tracker.State.{Runtime, Tables, Work}
use mocop.Incidents.Tracker.Update.{
  interrupt_recovery, observe_known, observe_all, observe, observe_active, observe_inactive,
  confirming, prune,
}
use mocop.Incidents.Tracker.Phase.{
  Phase, Open, idle, candidate, open_incident, reobserve, present, slot, entries, InPhase,
}

module _ (rt : Runtime) (result : ProbeResult) where
  slot-observe_active_ne :
      (key j : String) (new old : IncidentCondition) (w : Work)
      → (key == j) ≡ false
      → slot (observe_active rt result key new old w).tables j ≡ slot w.tables j
  unfolding slot observe_active
  slot-observe_active_ne key j new old w h = grind (arith, get-put_ne, get-remove_ne)

  slot-observe_inactive_ne :
      (key j : String) (new : IncidentCondition) (w : Work)
      → (key == j) ≡ false
      → slot (observe_inactive rt result key new w).tables j ≡ slot w.tables j
  unfolding slot observe_inactive
  slot-observe_inactive_ne key j new w h = grind (arith, get-put_ne, get-remove_ne)

  slot-interrupt_recovery_ne :
      (key j : String) (w : Work)
      → (key == j) ≡ false
      → slot (interrupt_recovery key w).tables j ≡ slot w.tables j
  unfolding slot interrupt_recovery
  slot-interrupt_recovery_ne key j w h = grind (arith, get-remove_ne)

  slot-observe_known_ne :
      (old : Option IncidentCondition) (key j : String) (new : IncidentCondition) (w : Work)
      → (key == j) ≡ false
      → slot (observe_known rt result old key new w).tables j ≡ slot w.tables j
  unfolding observe_known
  slot-observe_known_ne (some old) key j new w h = slot-observe_active_ne key j new old w h
  slot-observe_known_ne none key j new w h = slot-observe_inactive_ne key j new w h

  pub slot-observe_ne :
      (previous : Dict String IncidentCondition) (key j : String) (new : IncidentCondition)
      (w : Work)
      → (key == j) ≡ false
      → slot (observe rt result previous key new w).tables j ≡ slot w.tables j
  unfolding observe
  slot-observe_ne previous key j new w h =
      slot-observe_known_ne (get previous key) key j new (interrupt_recovery key w) h
      ∙ slot-interrupt_recovery_ne key j w h

  observe_active-InPhase :
      (key : String) (new : IncidentCondition) (w : Work) (o : Open)
      → InPhase w.tables key (open_incident (record o { healthy = 0 }))
      → InPhase
          (observe_active rt result key new o.condition w).tables
          key
          (open_incident (reobserve rt new o))
  unfolding observe_active slot reobserve entries
  observe_active-InPhase key new w o h = grind (arith, get-put_self, get-remove_self)

  observe_idle-InPhase :
      (key : String) (new : IncidentCondition) (w : Work)
      → InPhase w.tables key idle
      → InPhase (observe_inactive rt result key new w).tables key (present rt new idle)
  unfolding observe_inactive slot present entries
  observe_idle-InPhase key new w h = grind (arith, get-put_self, get-remove_self)

-- What the two pruning loops leave of a phase.
unfoldable pub pruned : Option IncidentCondition → Phase → Phase
pruned observed idle = idle
pruned none (candidate c count since) = idle
pruned (some new) (candidate c count since) =
    if new.below_threshold then idle else candidate c count since
pruned none (open_incident o) = open_incident (record o { change = none })
pruned (some new) (open_incident o) = open_incident o

interrupted : Phase → Phase
interrupted (open_incident o) = open_incident (record o { healthy = 0 })
interrupted (candidate c count since) = candidate c count since
interrupted idle = idle

interrupt_recovery-InPhase :
    (key : String) (w : Work) (p : Phase)
    → InPhase w.tables key p
    → InPhase (interrupt_recovery key w).tables key (interrupted p)
unfolding interrupt_recovery slot entries interrupted
interrupt_recovery-InPhase key w idle h = grind (arith, get-remove_self)
interrupt_recovery-InPhase key w (candidate c n s) h = grind (arith, get-remove_self)
interrupt_recovery-InPhase key w (open_incident o) h = grind (arith, get-remove_self)

-- A candidate is not active, also when the pruning drops it.
inactive-candidate :
    (new c : IncidentCondition) (count : ℕ) (since : String)
    → (entries (pruned (some new) (candidate c count since))).active ≡ none
unfolding pruned entries
inactive-candidate new c count since = ground arith

module _ (rt : Runtime) (result : ProbeResult) where
  observe_candidate-InPhase :
      (key : String) (new : IncidentCondition) (w : Work) (c : IncidentCondition) (count : ℕ)
      (since : String)
      → InPhase w.tables key (interrupted (pruned (some new) (candidate c count since)))
      → InPhase
          (observe_inactive rt result key new w).tables
          key
          (present rt new (candidate c count since))
  unfolding observe_inactive slot present entries pruned interrupted
  observe_candidate-InPhase key new w c count since h = grind (arith, get-put_self, get-remove_self)

  observe_known-InPhase :
      (key : String) (new : IncidentCondition) (w : Work) (p : Phase)
      → InPhase w.tables key (interrupted (pruned (some new) p))
      → InPhase
          (observe_known rt result (entries (pruned (some new) p)).active key new w).tables
          key
          (present rt new p)
  unfolding observe_known
  observe_known-InPhase key new w idle h =
      unfold pruned interrupted entries in observe_idle-InPhase rt result key new w h
  observe_known-InPhase key new w (candidate c n s) h =
      rw (inactive-candidate new c n s) (observe_candidate-InPhase key new w c n s h)
  observe_known-InPhase key new w (open_incident o) h =
      unfold pruned interrupted entries present in observe_active-InPhase rt result key new w o h

  observe-InPhase :
      (previous : Dict String IncidentCondition) (key : String) (new : IncidentCondition) (w : Work)
      (p : Phase)
      → InPhase w.tables key (pruned (some new) p)
      → get previous key ≡ (entries (pruned (some new) p)).active
      → InPhase (observe rt result previous key new w).tables key (present rt new p)
  unfolding observe
  observe-InPhase previous key new w p h same = rw same (
      observe_known-InPhase key new (interrupt_recovery key w) p
        (interrupt_recovery-InPhase key w (pruned (some new) p) h))

  pub slot-observe_all_ne :
      (previous observed : Dict String IncidentCondition) (k : String) (w : Work)
      → get observed k ≡ none
      → slot (observe_all rt result previous observed w).tables k ≡ slot w.tables k
  unfolding observe_all get
  slot-observe_all_ne previous [] k w h = refl
  slot-observe_all_ne previous ((key, new) ∷ observed) k w h =
      let other : (key == k) ≡ false = ground arith in
      let rest : get observed k ≡ none = ground arith in
      slot-observe_all_ne previous observed k (observe rt result previous key new w) rest
      ∙ slot-observe_ne rt result previous key k new w other

  pub observe_all-InPhase :
      (previous observed : Dict String IncidentCondition) (k : String) (new : IncidentCondition)
      (w : Work) (p : Phase)
      → IsDict observed
      → get observed k ≡ some new
      → InPhase w.tables k (pruned (some new) p)
      → get previous k ≡ (entries (pruned (some new) p)).active
      → InPhase (observe_all rt result previous observed w).tables k (present rt new p)
  unfolding observe_all get
  observe_all-InPhase previous [] k new w p d found h same = cc
  observe_all-InPhase previous ((key, c) ∷ observed) k new w p d found h same =
      elim (Bool-cases (key == k)) [
        | inl here ↦
            let e : key ≡ k = (==_iff key k).0 here in
            let fetched : c ≡ new = ground arith in
            let rest : get observed k ≡ none = rw e at d.0 in
            slot-observe_all_ne previous observed k (observe rt result previous key c w) rest
            ∙ rw (e, fetched) (observe-InPhase previous k new w p h same)
        | inr other ↦
            let rest : get observed k ≡ some new = ground arith in
            observe_all-InPhase previous observed k new (observe rt result previous key c w) p d.1
              rest (slot-observe_ne rt result previous key k c w other ∙ h) same
      ]

get-confirming :
    (observed : Dict String IncidentCondition) (k : String)
    → IsDict observed
    → has (confirming observed) k
      ≡ elim (get observed k) [ none ↦ false | some c ↦ not c.below_threshold ]
unfolding confirming get
get-confirming [] k d = refl
get-confirming ((key, c) ∷ observed) k d =
    ground (arith, get-confirming observed k d.1, ==_iff key k)

pub prune-InPhase :
    (observed : Dict String IncidentCondition) (t : Tables) (k : String) (p : Phase)
    → IsDict observed
    → InPhase t k p
    → InPhase (prune observed t) k (pruned (get observed k) p)
unfolding prune slot entries pruned
prune-InPhase observed t k idle d h = ground (
  arith,
  get-confirming observed k d,
  get-restrict (has (confirming observed)) t.candidates k,
  get-restrict (has observed) t.severity_changes k,
)
prune-InPhase observed t k (candidate c n s) d h = ground (
  arith,
  get-confirming observed k d,
  get-restrict (has (confirming observed)) t.candidates k,
  get-restrict (has observed) t.severity_changes k,
)
prune-InPhase observed t k (open_incident o) d h = ground (
  arith,
  get-confirming observed k d,
  get-restrict (has (confirming observed)) t.candidates k,
  get-restrict (has observed) t.severity_changes k,
)
