-- ===== src/Incidents/Tracker/Removal.antt =====
-- `remove_hosts`, and the queries on one condition.
use mocop.Base.{
  ◌+◌, String, ◌≡◌, refl, ap, ◌∙◌, Bool, true, false, not, ◌&&◌, Option, none, some, List, [], ◌∷◌,
  filter, if◌then◌else◌, string_key, ◌==◌, Bool-cases, inl, inr, arith,
}
use mocop.Base.Dict.{
  Dict, get, remove, has, keys, contains, contains-filter, contains-keys, get-remove,
}
use mocop.Incidents.Tracker.State.{Runtime, Tracker, row, tables_of}
use mocop.Incidents.Tracker.Phase.{Phase, idle, candidate, open_incident, slot, entries, InPhase}
use mocop.Incidents.Tracker.Runs.{Phases, AtPhases, IsKnown}

abbrev is_empty {ℓ} : {A : Type ℓ} → List A → Bool
is_empty [] = true
is_empty (x ∷ xs) = false

-- One round of `for host in set(self._active) - desired`.
unfoldable pub remove_host : Tracker → String → Tracker
remove_host t host = record {
  active = remove t.active host;
  candidates = remove t.candidates host;
  recoveries = remove t.recoveries host;
  severity_changes = remove t.severity_changes host;
  opened_at = remove t.opened_at host;
  last_observed_at = remove t.last_observed_at host;
  log =
      if is_empty (row t.active host) then t.log else record t.log { version = t.log.version + 1 };
}

unfoldable pub remove_each : List String → Tracker → Tracker
remove_each [] t = t
remove_each (host ∷ hosts) t = remove_each hosts (remove_host t host)

unfoldable pub remove_hosts : Runtime → List String → Tracker → Tracker
remove_hosts rt desired t =
    remove_each (rt.set_order (filter (λ host. not (contains desired host)) (keys t.active))) t

row-remove {κ} :
    {V : Type κ} (d : Dict String (Dict String V)) (host other : String)
    → row (remove d host) other ≡ (if host == other then [] else row d other)
row-remove d host other = rw get-remove (ground arith)

remove_host-AtPhases :
    (t : Tracker) (phases : Phases) (x : String)
    → AtPhases t phases
    → AtPhases (remove_host t x) (λ host key. if x == host then idle else phases host key)
unfolding remove_host tables_of
remove_host-AtPhases t phases x h host key = elim (Bool-cases (x == host)) [
  | inl here ↦ simp (row-remove, here) (unfold slot entries get in refl)
  | inr other ↦ simp (row-remove, other) (h host key)
]

remove_each-AtPhases :
    (hosts : List String) (t : Tracker) (phases : Phases)
    → AtPhases t phases
    → AtPhases
        (remove_each hosts t)
        (λ host key. if contains hosts host then idle else phases host key)
unfolding remove_each contains
remove_each-AtPhases [] t phases h host key = h host key
remove_each-AtPhases (x ∷ hosts) t phases h host key =
    remove_each-AtPhases hosts (remove_host t x)
      (λ host key. if x == host then idle else phases host key) (remove_host-AtPhases t phases x h)
      host key
    ∙ ap entries (ground arith)

-- After `remove_hosts` every condition of a host outside `desired` is idle, and the conditions of the
-- desired hosts are in the phases that they were in.
pub remove_hosts-AtPhases :
    (rt : Runtime) (desired : List String) (t : Tracker) (phases : Phases) (host key : String)
    → AtPhases t phases
    → IsKnown t phases
    → InPhase
        (tables_of (remove_hosts rt desired t) host)
        key
        (if contains desired host then phases host key else idle)
unfolding remove_hosts
remove_hosts-AtPhases rt desired t phases host key h known =
    let stale : List String = filter (λ x. not (contains desired x)) (keys t.active) in
    let listed : contains (rt.set_order stale) host
        ≡ (not (contains desired host) && has t.active host) =
      rt.set_order-contains stale host
      ∙ contains-filter (λ x. not (contains desired x)) (keys t.active) host
      ∙ ap (λ b. not (contains desired host) && b) (contains-keys t.active host) in
    remove_each-AtPhases (rt.set_order stale) t phases h host key
    ∙ ap entries (
        rw listed (elim (Bool-cases (has t.active host)) [
          | inl there ↦ ground arith
          | inr gone ↦ let still : phases host key ≡ idle = known host gone key in ground arith
        ]))

-- `has_active_condition`
unfoldable pub has_active_condition : Tracker → String → String → Bool
has_active_condition t host key = has (row t.active host) key

-- `has_pending_condition`
unfoldable pub has_pending_condition : Tracker → String → String → Bool
has_pending_condition t host key = has (row t.candidates host) key

-- `active_started_at`
unfoldable pub active_started_at : Tracker → String → String → Option String
active_started_at t host key =
    if has_active_condition t host key then get (row t.opened_at host) key else none

-- The answers that the phases call for.
abbrev pub is_open : Phase → Bool
is_open (open_incident o) = true
is_open _ = false

abbrev pub is_pending : Phase → Bool
is_pending (candidate c n s) = true
is_pending _ = false

abbrev pub started_at : Phase → Option String
started_at (open_incident o) = some o.opened_at
started_at _ = none

-- The three queries answer by the phase: a condition is reported active, pending or neither, never
-- both, and every active one has a start.
pub queries-AtPhases :
    (t : Tracker) (phases : Phases) (host key : String)
    → AtPhases t phases
    → (has_active_condition t host key ≡ is_open (phases host key))
      × (has_pending_condition t host key ≡ is_pending (phases host key))
      × (active_started_at t host key ≡ started_at (phases host key))
unfolding active_started_at has_active_condition has_pending_condition
queries-AtPhases t phases host key h = by_phase (phases host key) (h host key)
  where
    by_phase :
        (p : Phase)
        → slot (tables_of t host) key ≡ entries p
        → (has_active_condition t host key ≡ is_open p)
          × (has_pending_condition t host key ≡ is_pending p)
          × (active_started_at t host key ≡ started_at p)
    by_phase idle e = unfold tables_of slot entries in ground arith
    by_phase (candidate c n s) e = unfold tables_of slot entries in ground arith
    by_phase (open_incident o) e = unfold tables_of slot entries in ground arith
