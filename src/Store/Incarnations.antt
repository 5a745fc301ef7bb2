-- ===== src/Store/Incarnations.antt =====
-- A host that is removed and added again is another incarnation: results of earlier probes are not taken.
use mocop.Base.{
  ℕ, ◌<◌, String, Bool, true, false, not, none, some, List, if◌then◌else◌, string_key, ◌==◌, ==_iff,
  ◌≡◌, refl, ◌∙◌, arith, Bool-cases, inl, inr,
}
use mocop.Base.Dict.{get, put, has, restrict, contains, get-put, get-restrict}
use mocop.Models.{ServerState}
use mocop.Telemetry.Json.{Conversions}
use mocop.Telemetry.Points.{HostHistoryPoint}
use mocop.Store.Hosts.{
  Hosts, publish_change, sync_tracker_revision, is_removed, remove_servers, drop_stale, initialize,
  prepare, begin_host,
}

-- What the calls keep: a host with an incarnation is monitored, and incarnations are below the next.
pub record IsNumbered (h : Hosts) : Type 0 where
  pub below : (host : String) (j : ℕ) → get h.incarnations host ≡ some j → j < h.next_incarnation
  pub monitored :
      (host : String) (j : ℕ) → get h.incarnations host ≡ some j → has h.servers host ≡ true

-- An incarnation of a host that is over.
pub record IsOver (host : String) (i : ℕ) (h : Hosts) : Type 0 where
  pub gone : i < h.next_incarnation
  pub later : (j : ℕ) → get h.incarnations host ≡ some j → i < j

-- What matters of the state.
-- The states agree on them.
pub record Same (v h : Hosts) : Type 0 where
  pub same_incarnations : v.incarnations ≡ h.incarnations
  pub same_next : v.next_incarnation ≡ h.next_incarnation
  pub same_servers : (host : String) → has v.servers host ≡ has h.servers host

pub Same-IsNumbered : (v h : Hosts) → Same v h → IsNumbered h → IsNumbered v
Same-IsNumbered v h s n = record {
  below = rw (s.same_incarnations, s.same_next) n.below;
  monitored = λ host j e. s.same_servers host ∙ n.monitored host j (rw (← s.same_incarnations) e);
}

pub Same-IsOver :
    (host : String) (i : ℕ) (v h : Hosts) → Same v h → IsOver host i h → IsOver host i v
Same-IsOver host i v h s o = record {
  gone = rw s.same_next o.gone;
  later = rw s.same_incarnations o.later;
}

pub publish-Same : (b : Bool) (h : Hosts) → Same (publish_change b h) h
unfolding publish_change
publish-Same b h = record {
  same_incarnations = ground arith;
  same_next = ground arith;
  same_servers = λ host. ground arith;
}

pub sync-Same : (h : Hosts) → Same (sync_tracker_revision h) h
unfolding sync_tracker_revision
sync-Same h = record {
  same_incarnations = ground arith;
  same_next = ground arith;
  same_servers = λ host. ground arith;
}

pub publish-Kept : (b : Bool) (v h : Hosts) → Same v h → Same (publish_change b v) h
publish-Kept b v h s =
    let p = publish-Same b v in
    record {
      same_incarnations = p.same_incarnations ∙ s.same_incarnations;
      same_next = p.same_next ∙ s.same_next;
      same_servers = λ host. p.same_servers host ∙ s.same_servers host;
    }

-- A known host's entry is replaced.
pub put-Same :
    (host : String) (old new : ServerState) (h : Hosts)
    → get h.servers host ≡ some old
    → Same (record h { servers = put h.servers host new }) h
put-Same host old new h e = record {
  same_incarnations = refl;
  same_next = refl;
  same_servers = λ other. elim (Bool-cases (host == other)) [
    | inl b ↦
        let same : host ≡ other = (==_iff host other).0 b in
        rw (get-put, b)
          (let there : get h.servers other ≡ some old = rw (← same) e in rw there refl)
    | inr b ↦ rw (get-put, b) refl
  ];
}

pub begin_host-IsNumbered :
    (c : Conversions) (n : ℕ) (host : String) (points : List HostHistoryPoint) (h : Hosts)
    → IsNumbered h
    → IsNumbered (begin_host c n host points h)
unfolding begin_host
begin_host-IsNumbered c n host points h w = record {
  below = λ other j. elim (Bool-cases (host == other)) [
    | inl b ↦ rw (get-put, b) (λ e. ground (arith, e))
    | inr b ↦ rw (get-put, b) (λ e. ground (arith, w.below other j e))
  ];
  monitored = λ other j. elim (Bool-cases (host == other)) [
    | inl b ↦ rw (get-put, get-put, b) (λ e. refl)
    | inr b ↦ rw (get-put, get-put, b) (λ e. w.monitored other j e)
  ];
}

pub begin_host-IsOver :
    (c : Conversions) (n : ℕ) (host : String) (points : List HostHistoryPoint) (h : Hosts)
    (other : String) (i : ℕ)
    → IsOver other i h
    → IsOver other i (begin_host c n host points h)
unfolding begin_host
begin_host-IsOver c n host points h other i o = record {
  gone = omega (arith, o.gone);
  later = λ j. elim (Bool-cases (host == other)) [
    | inl b ↦ rw (get-put, b) (λ e. ground (arith, e, o.gone))
    | inr b ↦ rw (get-put, b) (o.later j)
  ];
}

prepare-fields :
    (hosts : List String) (h : Hosts)
    → ((prepare hosts h).incarnations
        ≡ restrict (λ host. not (is_removed hosts h host)) h.incarnations)
      × ((prepare hosts h).servers ≡ restrict (λ host. contains hosts host) h.servers)
      × ((prepare hosts h).next_incarnation ≡ h.next_incarnation)
unfolding prepare remove_servers drop_stale initialize
prepare-fields hosts h = (ground arith, ground arith, ground arith)

prepare-get :
    (hosts : List String) (h : Hosts) (host : String)
    → get (prepare hosts h).incarnations host
      ≡ (if not (is_removed hosts h host) then get h.incarnations host else none)
prepare-get hosts h host =
    rw ((prepare-fields hosts h).0)
      (get-restrict (λ j. not (is_removed hosts h j)) h.incarnations host)

prepare-has :
    (hosts : List String) (h : Hosts) (host : String)
    → get (prepare hosts h).servers host
      ≡ (if contains hosts host then get h.servers host else none)
prepare-has hosts h host =
    rw ((prepare-fields hosts h).1) (get-restrict (λ j. contains hosts j) h.servers host)

pub prepare-IsNumbered :
    (hosts : List String) (h : Hosts) → IsNumbered h → IsNumbered (prepare hosts h)
prepare-IsNumbered hosts h w = record {
  below = λ host j e.
      rw ((prepare-fields hosts h).2) (ground (arith, prepare-get hosts h host, w.below host j, e));
  monitored = λ host j e.
      rw (prepare-has hosts h host)
        (ground (arith, prepare-get hosts h host, w.monitored host j, e));
}

pub prepare-IsOver :
    (hosts : List String) (h : Hosts) (host : String) (i : ℕ)
    → IsOver host i h
    → IsOver host i (prepare hosts h)
prepare-IsOver hosts h host i o = record {
  gone = rw ((prepare-fields hosts h).2) o.gone;
  later = λ j e. ground (arith, prepare-get hosts h host, o.later j, e);
}

-- Removal ends an incarnation.
pub removed-IsOver :
    (hosts : List String) (h : Hosts) (host : String) (i : ℕ)
    → IsNumbered h
    → get h.incarnations host ≡ some i
    → contains hosts host ≡ false
    → IsOver host i (prepare hosts h)
removed-IsOver hosts h host i w e out = record {
  gone = rw ((prepare-fields hosts h).2) (w.below host i e);
  later = λ j f.
      let none_left : get (prepare hosts h).incarnations host ≡ none =
        prepare-get hosts h host ∙ rw (w.monitored host i e, out) refl in
      cc;
}
