-- ===== src/Incidents/Tracker/Log.antt =====
-- The transition log: event ids are consecutive, the version counts the events, and the deque keeps the
-- last ones.
use mathlib.Core.List.{append-nil, append_assoc}
use mocop.Base.{
  bind-eq-some, map-eq-some, subst, ℕ, ◌+◌, ◌≤◌, String, ◌≡◌, refl, ap, ◌∙◌, Bool, true, false,
  Option, none, some, List, [], ◌∷◌, ◌++◌, All, length, length-append, bounded, bounded-bounded,
  length-bounded-le, bounded_of_le, if◌then◌else◌, string_key, Bool-cases, inl, inr, arith,
}
use mocop.Base.Dict.{Dict, get}
use mocop.Models.{ProbeResult, online}
use mocop.Incidents.Types.{Transition, IncidentCondition, IncidentEvent, IncidentPolicy}
use mocop.Incidents.Tracker.State.{
  Runtime, Tables, EventLog, Work, Tracker, append_event, tables_of, store_tables,
}
use mocop.Incidents.Tracker.Update.{
  emit, observe_active, observe_inactive, interrupt_recovery, observe_known, observe, observe_all,
  recover_active, recover, recover_all, prune, apply_sample, update,
}

abbrev pub IsNumbered : ℕ → List IncidentEvent → Type 0
IsNumbered n [] = Unit
IsNumbered n (e ∷ es) = (e.event_id ≡ n) × IsNumbered (n + 1) es

IsNumbered-snoc :
    (n : ℕ) (es : List IncidentEvent) (e : IncidentEvent)
    → IsNumbered n es
    → e.event_id ≡ n + length es
    → IsNumbered n (es ++ e ∷ [])
IsNumbered-snoc n [] e h next = (omega arith, tt)
IsNumbered-snoc n (x ∷ es) e h next = (h.0, IsNumbered-snoc (n + 1) es e h.1 (omega arith))

All-snoc {ℓ κ} :
    {A : Type ℓ} (P : A → Type κ) (xs : List A) (x : A) → All P xs → P x → All P (xs ++ x ∷ [])
All-snoc P [] x h p = (p, tt)
All-snoc P (y ∷ xs) x h p = (h.0, All-snoc P xs x h.1 p)

-- The log after `new` events have been appended to `before`, all of them about one sample.
pub record Extends (result : ProbeResult) (before after : EventLog) (new : List IncidentEvent)
    : Type 0 where
  pub capacity : after.history_points ≡ before.history_points
  pub version : after.version ≡ before.version + length new
  pub next_id : after.next_event_id ≡ before.next_event_id + length new
  pub numbered : IsNumbered before.next_event_id new
  pub kept : after.events ≡ bounded before.history_points (before.events ++ new)
  pub stamped : All (λ e. (e.host ≡ result.host) × (e.observed_at ≡ result.observed_at)) new

-- The deque respects its `maxlen`.
abbrev pub IsBounded : EventLog → Type 0
IsBounded log = length log.events ≤ log.history_points

module _ (rt : Runtime) (result : ProbeResult) (before : EventLog) where
  record Grown (w : Work) : Type 0 where
    so_far : Extends result before w.log w.created

  -- The tables do not matter.
  Grown-tables : {w : Work} (t : Tables) → Grown w → Grown (record w { tables = t })
  Grown-tables t g = record { so_far = g.so_far }

  emit-Grown :
      (condition : IncidentCondition) (state : Transition) (w : Work)
      → Grown w
      → Grown (emit result.host condition state result.observed_at w)
  unfolding emit append_event
  emit-Grown condition state w g' =
      let g = g'.so_far in
      record {
        so_far = record {
          capacity = g.capacity;
          version = omega (arith, g, length-append {0} w.created);
          next_id = omega (arith, g, length-append {0} w.created);
          numbered = IsNumbered-snoc before.next_event_id w.created _ g.numbered g.next_id;
          kept =
              rw (g.capacity, g.kept)
                (bounded-bounded before.history_points (before.events ++ w.created) _
                  ∙ ap (bounded before.history_points) (append_assoc before.events w.created _));
          stamped = All-snoc _ w.created _ g.stamped (refl, refl);
        };
      }

  Grown-if : (b : Bool) (v w : Work) → Grown v → Grown w → Grown (if b then v else w)
  Grown-if true v w gv gw = gv
  Grown-if false v w gv gw = gw

  ruleset growth = (Grown-if, Grown-tables, emit-Grown)

  observe_active-Grown :
      (key : String) (new old : IncidentCondition) (w : Work)
      → Grown w
      → Grown (observe_active rt result key new old w)
  unfolding observe_active
  observe_active-Grown key new old w g = search growth

  observe_inactive-Grown :
      (key : String) (new : IncidentCondition) (w : Work)
      → Grown w
      → Grown (observe_inactive rt result key new w)
  unfolding observe_inactive
  observe_inactive-Grown key new w g = search growth

  recover_active-Grown :
      (key : String) (old : IncidentCondition) (w : Work)
      → Grown w
      → Grown (recover_active rt result key old w)
  unfolding recover_active
  recover_active-Grown key old w g = search growth

  observe_known-Grown :
      (old : Option IncidentCondition) (key : String) (new : IncidentCondition) (w : Work)
      → Grown w
      → Grown (observe_known rt result old key new w)
  unfolding observe_known
  observe_known-Grown (some old) key new w g = observe_active-Grown key new old w g
  observe_known-Grown none key new w g = observe_inactive-Grown key new w g

  observe_all-Grown :
      (previous observed : Dict String IncidentCondition) (w : Work)
      → Grown w
      → Grown (observe_all rt result previous observed w)
  unfolding observe_all observe interrupt_recovery
  observe_all-Grown previous [] w g = g
  observe_all-Grown previous ((key, new) ∷ observed) w g =
      observe_all-Grown previous observed _
        (observe_known-Grown (get previous key) key new _ (Grown-tables _ g))

  recover-Grown :
      (domains : List String) (previous : Dict String IncidentCondition) (key : String)
      (w w' : Work)
      → Grown w
      → recover rt result domains previous key w ≡ some w'
      → Grown w'
  unfolding recover
  recover-Grown domains previous key w w' g e = grind (arith, recover_active-Grown)

  recover_all-Grown :
      (domains : List String) (previous : Dict String IncidentCondition) (gone : List String)
      (w w' : Work)
      → Grown w
      → recover_all rt result domains previous gone w ≡ some w'
      → Grown w'
  unfolding recover_all
  recover_all-Grown domains previous [] w w' g e = subst Grown (let same : w ≡ w' = cc in same) g
  recover_all-Grown domains previous (key ∷ gone) w w' g e =
      let (v, first, later) = bind-eq-some _ _ e in
      recover_all-Grown domains previous gone v w' (recover-Grown domains previous key w v g first)
        later

module _ (rt : Runtime) (policy : IncidentPolicy) (result : ProbeResult) where
  pub apply_sample-Extends :
      (t : Tables) (log : EventLog) (w : Work)
      → IsBounded log
      → apply_sample rt policy result t log ≡ some w
      → Extends result log w.log w.created
  unfolding apply_sample
  apply_sample-Extends t log w fits e =
      let observed : Dict String IncidentCondition = policy.conditions result in
      let start : Work = record { tables = prune observed t; log = log; created = [] } in
      let g : Grown rt result log start = record {
        so_far = record {
          capacity = refl;
          version = omega arith;
          next_id = omega arith;
          numbered = tt;
          kept = rw (append-nil, bounded_of_le log.history_points log.events fits);
          stamped = tt;
        };
      } in
      let middle = observe_all-Grown rt result log t.active observed start g in
      elim (Bool-cases (online result)) [
        | inl live ↦
            (recover_all-Grown rt result log (policy.observed_domains result) t.active _ _ w middle
              (rw live at e)).so_far
        | inr offline ↦
            let same : observe_all rt result t.active observed start ≡ w = ground arith in
            (subst (Grown rt result log) same middle).so_far
      ]

  -- Every event that a sample creates is in the log under the next free id, in order; the version
  -- grows by their number; the log keeps the last `history_points` events.
  pub update-Extends :
      (t t' : Tracker) (created : List IncidentEvent)
      → IsBounded t.log
      → update rt policy result t ≡ some (t', created)
      → Extends result t.log t'.log created × IsBounded t'.log
  unfolding update store_tables
  update-Extends t t' created fits e =
      let (w, done, same) = map-eq-some _ _ e in
      let same_log : w.log ≡ t'.log = ap (λ p. p.0.log) same in
      let same_events : w.created ≡ created = ap (λ p. p.1) same in
      let grown : Extends result t.log t'.log created =
        rw (← same_log, ← same_events)
          (apply_sample-Extends (tables_of t result.host) t.log w fits done) in
      (grown, rw (grown.kept, grown.capacity) (length-bounded-le _ _))
