-- ===== src/Incidents/Tracker/Refine.antt =====
-- `update` implements the state machine of Phase.antt.
use mocop.Base.{
  String, ◌≡◌, refl, sym, ap, ◌∙◌, Bool, true, false, not, ◌&&◌, Option, none, some, List, [],
  string_key, Bool-cases, Option-cases, inl, inr, arith,
}
use mocop.Base.Dict.{
  Dict, contains, contains-filter, contains-keys, All-of_contains, get, has, keys,
}
use mocop.Models.{ProbeResult, online}
use mocop.Incidents.Types.{IncidentCondition, IncidentPolicy}
use mocop.Incidents.Tracker.State.{Runtime, Tables, EventLog, Work}
use mocop.Incidents.Tracker.Update.{prune, observe_all, unobserved, apply_sample}
use mocop.Incidents.Tracker.Phase.{
  Phase, Open, idle, candidate, open_incident, present, absent, step, slot, entries, InPhase,
}
use mocop.Incidents.Tracker.Observe.{
  pruned, prune-InPhase, observe_all-InPhase, slot-observe_all_ne,
}
use mocop.Incidents.Tracker.Recover.{speaks, recover_all-Recovered, Recovered, AreOpen}

-- After the first loop.
after_observing : Runtime → Option IncidentCondition → Phase → Phase
after_observing rt (some new) p = present rt new p
after_observing rt none p = pruned none p

active-pruned :
    (observed : Option IncidentCondition) (p : Phase)
    → (entries (pruned observed p)).active ≡ (entries p).active
unfolding pruned entries
active-pruned observed idle = refl
active-pruned none (candidate c n s) = refl
active-pruned (some new) (candidate c n s) = ground arith
active-pruned none (open_incident o) = refl
active-pruned (some new) (open_incident o) = refl

active-InPhase :
    (t : Tables) (k : String) (p : Phase) → InPhase t k p → get t.active k ≡ (entries p).active
unfolding slot
active-InPhase t k p h = ap (λ s. s.active) h

contains-unobserved :
    (previous observed : Dict String IncidentCondition) (k : String)
    → contains (unobserved previous observed) k ≡ (not (has observed k) && has previous k)
unfolding unobserved
contains-unobserved previous observed k =
    rw (contains-filter (λ key. not (has observed key)) (keys previous) k, contains-keys previous k)

module _ (rt : Runtime) (policy : IncidentPolicy) (result : ProbeResult) where
  -- Whether the sample, if it does not observe the condition, counts towards its recovery.
  unfoldable pub advances : String → IncidentCondition → String → Bool
  advances key old opening =
      online result && speaks rt result (policy.observed_domains result) key old opening

  module _ (t : Tables) (log : EventLog) (phases : String → Phase)
      (h : (k : String) → InPhase t k (phases k)) where
    abbrev pub observed : Dict String IncidentCondition
    observed = policy.conditions result

    abbrev start : Work
    start = record { tables = prune observed t; log = log; created = [] }

    middle : Work
    middle = observe_all rt result t.active observed start

    middle-InPhase :
        (k : String) → InPhase middle.tables k (after_observing rt (get observed k) (phases k))
    unfolding middle after_observing
    middle-InPhase k =
        let d = policy.conditions-IsDict result in
        let started = prune-InPhase observed t k (phases k) d (h k) in
        let same = active-InPhase t k (phases k) (h k) in
        elim (Option-cases (get observed k)) [
          | inl e ↦
              rw e (slot-observe_all_ne rt result t.active observed k start e ∙ (rw e at started))
          | inr (new, e) ↦ rw e (
              observe_all-InPhase rt result t.active observed k new start (phases k) d e
                (rw e at started) (same ∙ sym (active-pruned (some new) (phases k))))
        ]

    abbrev gone : List String
    gone = rt.set_order (unobserved t.active observed)

    contains-gone : (k : String) → contains gone k ≡ (not (has observed k) && has t.active k)
    contains-gone k =
        rt.set_order-contains (unobserved t.active observed) k
        ∙ contains-unobserved t.active observed k

    -- A key that the second loop visits is an open incident.
    open_of_gone :
        (k : String) (p : Phase)
        → phases k ≡ p
        → contains gone k ≡ true
        → (o : Open) × (p ≡ open_incident o)
          × (get observed k ≡ none)
          × (get t.active k ≡ some o.condition)
    unfolding entries
    open_of_gone k idle e visited =
        ground (arith, contains-gone k, active-InPhase t k (phases k) (h k))
    open_of_gone k (candidate c n s) e visited =
        ground (arith, contains-gone k, active-InPhase t k (phases k) (h k))
    open_of_gone k (open_incident o) e visited =
        let act : get t.active k ≡ some o.condition =
          active-InPhase t k (open_incident o) (rw e at (h k)) in
        (o, refl, ground (arith, contains-gone k), act)

    gone-AreOpen : AreOpen rt result (policy.observed_domains result) t.active middle gone
    unfolding after_observing pruned
    gone-AreOpen = All-of_contains gone λ k visited.
        let (o, at, unseen, act) = open_of_gone k (phases k) refl visited in
        (record o { change = none }, act, refl, rw (unseen, at) at (middle-InPhase k))

    -- The machine's step at a key that the second loop leaves alone.
    step_of_kept :
        (k : String) (p : Phase)
        → phases k ≡ p
        → (online result && contains gone k) ≡ false
        → after_observing rt (get observed k) p ≡ step rt (advances k) (get observed k) p
    unfolding after_observing step pruned absent advances
    step_of_kept k idle e kept = ground arith
    step_of_kept k (candidate c n s) e kept = ground arith
    step_of_kept k (open_incident o) e kept =
        let act : get t.active k ≡ some o.condition =
          unfold entries in active-InPhase t k (open_incident o) (rw e at (h k)) in
        ground (arith, contains-gone k)

    abbrev pub next : String → Phase
    next k = step rt (advances k) (get observed k) (phases k)

    abbrev pub Follows : Work → Type 0
    Follows w = (k : String) → InPhase w.tables k (next k)

    kept-Follows :
        (k : String) (w : Work)
        → slot w.tables k ≡ slot middle.tables k
        → (online result && contains gone k) ≡ false
        → InPhase w.tables k (next k)
    kept-Follows k w same kept =
        same ∙ middle-InPhase k ∙ ap entries (step_of_kept k (phases k) refl kept)

    Recovered-Follows :
        (w : Work)
        → online result ≡ true
        → Recovered rt result (policy.observed_domains result) t.active middle gone w
        → Follows w
    unfolding step absent advances
    Recovered-Follows w live r k = elim (Bool-cases (contains gone k)) [
      | inl visited ↦
          let (o, at, unseen, act) = open_of_gone k (phases k) refl visited in
          let quiet : Open = record o { change = none } in
          let before : InPhase middle.tables k (open_incident quiet) =
            unfold after_observing pruned in rw (unseen, at) at (middle-InPhase k) in
          rw (unseen, at, live) (r.visited k quiet visited refl before)
      | inr kept ↦ kept-Follows k w (r.others k kept) (ground arith)
    ]

    pub apply_sample-refines :
        (w : Work) × (apply_sample rt policy result t log ≡ some w) × Follows w
    unfolding apply_sample middle
    apply_sample-refines = elim (Bool-cases (online result)) [
      | inl live ↦
          let (w, r) =
            recover_all-Recovered rt result (policy.observed_domains result) t.active gone middle
              (rt.set_order-IsDistinct (unobserved t.active observed)) gone-AreOpen in
          (w, rw live r.returns, Recovered-Follows w live r)
      | inr offline ↦ (middle, rw offline, λ k. kept-Follows k middle refl (ground arith))
    ]
