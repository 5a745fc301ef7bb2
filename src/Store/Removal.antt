-- ===== src/Store/Removal.antt =====
-- Results of probes of an earlier incarnation are not taken.
use mocop.Base.{
  ℕ, String, Bool, true, false, Option, none, some, List, [], ◌∷◌, string_key, ◌==◌, ◌≡◌, refl,
  arith, or_else, if-case, subst, bind-eq-some, map-eq-some,
}
use mocop.Base.Dict.{get, put, has, contains, keys}
use mocop.Models.{ServerState}
use mocop.Incidents.Tracker.State.{Runtime}
use mocop.Incidents.Tracker.Removal.{remove_hosts}
use mocop.Incidents.Policy.Overrides.{retain_hosts}
use mocop.Telemetry.Json.{Conversions}
use mocop.Telemetry.Points.{HostHistoryPoint}
use mocop.Store.Hosts.{
  Hosts, publish_change, sync_tracker_revision, prepare, any_removed, restore_points, begin_host,
  add_restored, add_host, add_hosts, finish, set_hosts, poll_from, poll_host, poll_hosts,
  begin_poll, host_incarnation, accepts, same_message, set_collector_error, reschedule_from,
  reschedule_retry,
}
use mocop.Store.Hosts.{
  HostCall, setting, polling_of, failing, rescheduling, call, call_all, is_incarnation,
}
use mocop.Store.Incarnations.{
  IsNumbered, IsOver, Same, Same-IsNumbered, Same-IsOver, publish-Same, publish-Kept, put-Same,
  sync-Same, begin_host-IsNumbered, begin_host-IsOver, prepare-IsNumbered, prepare-IsOver,
  removed-IsOver,
}

-- What survives the changes of the hosts survives the calls.
record Stable (P : Hosts → Type 0) : Type 0 where
  same : (v h : Hosts) → Same v h → P h → P v
  begins :
      (c : Conversions) (n : ℕ) (host : String) (points : List HostHistoryPoint) (h : Hosts)
      → P h
      → P (begin_host c n host points h)
  prepares : (hosts : List String) (h : Hosts) → P h → P (prepare hosts h)

IsNumbered-Stable : Stable IsNumbered
IsNumbered-Stable = record {
  same = Same-IsNumbered;
  begins = begin_host-IsNumbered;
  prepares = prepare-IsNumbered;
}

IsOver-Stable : (host : String) (i : ℕ) → Stable (IsOver host i)
IsOver-Stable host i = record {
  same = Same-IsOver host i;
  begins = λ c n other points h. begin_host-IsOver c n other points h host i;
  prepares = λ hosts h. prepare-IsOver hosts h host i;
}

module _ (P : Hosts → Type 0) (stable : Stable P) where
  poll_from-keeps :
      (host : String) (o : Option ServerState) (h : Hosts) (changed : Bool)
      → get h.servers host ≡ o
      → P h
      → P (poll_from host o (h, changed)).0
  unfolding poll_from
  poll_from-keeps host none h changed e p = p
  poll_from-keeps host (some state) h changed e p =
      if-case {A = Hosts × Bool} (λ r. P r.0) state.polling (h, changed)
        (record h { servers = put h.servers host (record state { polling = true }) }, true) p
        (stable.same _ h (put-Same host state (record state { polling = true }) h e) p)

  poll_hosts-keeps :
      (hosts : List String) (state : Hosts × Bool) → P state.0 → P (poll_hosts hosts state).0
  unfolding poll_hosts poll_host
  poll_hosts-keeps [] state p = p
  poll_hosts-keeps (host ∷ hosts) (h, changed) p =
      poll_hosts-keeps hosts _ (poll_from-keeps host (get h.servers host) h changed refl p)

  begin_poll-keeps : (b : Bool) (hosts : List String) (h : Hosts) → P h → P (begin_poll b hosts h)
  unfolding begin_poll
  begin_poll-keeps b hosts h p =
      let polled = poll_hosts hosts (h, false) in
      let q : P polled.0 = poll_hosts-keeps hosts (h, false) p in
      if-case P polled.1 (publish_change b polled.0) polled.0
        (stable.same _ _ (publish-Same b polled.0) q) q

  error-keeps :
      (b : Bool) (message : Option String) (h : Hosts) → P h → P (set_collector_error b message h)
  unfolding set_collector_error
  error-keeps b message h p =
      if-case P (same_message message h.collector_error) h
        (publish_change b (record h { collector_error = message })) p
        (stable.same _ h
          (publish-Kept b (record h { collector_error = message }) h
            (record { same_incarnations = refl; same_next = refl; same_servers = λ host. refl }))
          p)

  reschedule_from-keeps :
      (b : Bool) (host at : String) (o : Option ServerState) (h : Hosts)
      → get h.servers host ≡ o
      → P h
      → P (reschedule_from b host at o h)
  unfolding reschedule_from
  reschedule_from-keeps b host at none h e p = p
  reschedule_from-keeps b host at (some state) h e p =
      let moved : Hosts = record h {
        servers = put h.servers host (record state { next_retry_at = some at });
      } in
      if-case P (state.status == "online") h (publish_change b moved) p (
        stable.same _ h
          (publish-Kept b moved h
            (put-Same host state (record state { next_retry_at = some at }) h e))
          p)

  reschedule-keeps :
      (b : Bool) (host at : String) (h : Hosts) → P h → P (reschedule_retry b host at h)
  unfolding reschedule_retry
  reschedule-keeps b host at h p = reschedule_from-keeps b host at (get h.servers host) h refl p

  finish-keeps :
      (rt : Runtime) (b : Bool) (c : Conversions) (n : ℕ) (hosts : List String)
      (state : Hosts × Bool)
      → P state.0
      → P (finish c n rt b hosts state)
  unfolding finish
  finish-keeps rt b c n hosts (h, changed) p =
      let cleaned : Hosts = record h {
        tracker = remove_hosts rt hosts h.tracker;
        policy = retain_hosts hosts h.policy;
      } in
      let q : P (sync_tracker_revision cleaned) = stable.same _ cleaned (sync-Same cleaned) (
        stable.same cleaned h
          (record { same_incarnations = refl; same_next = refl; same_servers = λ host. refl }) p) in
      if-case P changed (publish_change b (sync_tracker_revision cleaned))
        (sync_tracker_revision cleaned)
        (stable.same _ _ (publish-Same b (sync_tracker_revision cleaned)) q) q

  module _ (c : Conversions) (n : ℕ) where
    add_restored-keeps :
        (host : String) (o : Option (List HostHistoryPoint)) (h : Hosts) (state : Hosts × Bool)
        → P h
        → add_restored c n host o h ≡ some state
        → P state.0
    unfolding add_restored
    add_restored-keeps host none h state p e = cc
    add_restored-keeps host (some points) h state p e =
        let same : (begin_host c n host points h, true) ≡ state = cc in
        subst (λ (s : Hosts × Bool). P s.0) same (stable.begins c n host points h p)

    add_host-keeps :
        (host : String) (h : Hosts) (changed : Bool) (state : Hosts × Bool)
        → P h
        → add_host c n host (h, changed) ≡ some state
        → P state.0
    unfolding add_host
    add_host-keeps host h changed state p =
        if-case (λ r. r ≡ some state → P state.0) (has h.servers host) (some (h, changed))
          (add_restored c n host (restore_points c n (or_else (get h.restored_history host) [])) h)
          (λ e. let same : (h, changed) ≡ state = cc in subst (λ (s : Hosts × Bool). P s.0) same p)
          (add_restored-keeps host (restore_points c n (or_else (get h.restored_history host) [])) h
            state p)

    add_hosts-keeps :
        (hosts : List String) (h : Hosts) (changed : Bool) (state : Hosts × Bool)
        → P h
        → add_hosts c n hosts (h, changed) ≡ some state
        → P state.0
    unfolding add_hosts
    add_hosts-keeps [] h changed state p e =
        let same : (h, changed) ≡ state = cc in subst (λ (s : Hosts × Bool). P s.0) same p
    add_hosts-keeps (host ∷ hosts) h changed state p e =
        let (mid, first, rest) =
          bind-eq-some (add_host c n host (h, changed)) (add_hosts c n hosts) e in
        add_hosts-keeps hosts mid.0 mid.1 state (add_host-keeps host h changed mid p first) rest

    -- It is enough that what is prepared has the property.
    set_hosts-gives :
        (rt : Runtime) (b : Bool) (hosts : List String) (h h' : Hosts)
        → P (prepare hosts h)
        → set_hosts c n rt b hosts h ≡ some h'
        → P h'
    unfolding set_hosts
    set_hosts-gives rt b hosts h h' p e =
        let (state, added, done) =
          map-eq-some (finish c n rt b hosts)
            (add_hosts c n hosts (prepare hosts h, any_removed hosts (keys h.servers))) e in
        subst P done (
          finish-keeps rt b c n hosts state (
            add_hosts-keeps hosts (prepare hosts h) (any_removed hosts (keys h.servers)) state p
              added))

    call-keeps :
        (rt : Runtime) (b : Bool) (next : HostCall) (h h' : Hosts)
        → P h
        → call c n rt b next h ≡ some h'
        → P h'
    unfolding call
    call-keeps rt b (setting hosts) h h' p e =
        set_hosts-gives rt b hosts h h' (stable.prepares hosts h p) e
    call-keeps rt b (polling_of hosts) h h' p e =
        let same : begin_poll b hosts h ≡ h' = cc in subst P same (begin_poll-keeps b hosts h p)
    call-keeps rt b (failing message) h h' p e =
        let same : set_collector_error b message h ≡ h' = cc in
        subst P same (error-keeps b message h p)
    call-keeps rt b (rescheduling host at) h h' p e =
        let same : reschedule_retry b host at h ≡ h' = cc in
        subst P same (reschedule-keeps b host at h p)

    call_all-keeps :
        (rt : Runtime) (calls : List (Bool × HostCall)) (h h' : Hosts)
        → P h
        → call_all c n rt calls h ≡ some h'
        → P h'
    unfolding call_all
    call_all-keeps rt [] h h' p e = let same : h ≡ h' = cc in subst P same p
    call_all-keeps rt ((b, next) ∷ calls) h h' p e =
        let (mid, first, rest) = bind-eq-some (call c n rt b next h) (call_all c n rt calls) e in
        call_all-keeps rt calls mid h' (call-keeps rt b next h mid p first) rest

empty-IsNumbered : (start : Hosts) → start.incarnations ≡ [] → IsNumbered start
unfolding get
empty-IsNumbered start e = record {
  below = λ host j. rw e (λ f. cc);
  monitored = λ host j. rw e (λ f. cc);
}

over-accepts :
    (host : String) (i : ℕ) (h : Hosts) (o : Option ℕ)
    → IsOver host i h
    → get h.incarnations host ≡ o
    → is_incarnation o i ≡ false
over-accepts host i h none o e = refl
over-accepts host i h (some j) o e = ground (arith, o.later j e)

-- If no host has an incarnation at first: once a host is removed, a result of a probe that began with
-- its incarnation of before is not taken, whatever calls come before and after, adding the host again
-- among them.
pub set_hosts-accepts :
    (c : Conversions) (history_points : ℕ) (rt : Runtime) (windows_changed : Bool)
    (before after : List (Bool × HostCall)) (hosts : List String) (host : String) (i : ℕ)
    (start old removed new : Hosts)
    → start.incarnations ≡ []
    → call_all c history_points rt before start ≡ some old
    → host_incarnation old host ≡ some i
    → contains hosts host ≡ false
    → set_hosts c history_points rt windows_changed hosts old ≡ some removed
    → call_all c history_points rt after removed ≡ some new
    → accepts new host (some i) ≡ false
unfolding accepts
set_hosts-accepts c n rt b before after hosts host i start old removed new empty e1 here out e2 e3 =
    let numbered : IsNumbered old =
      call_all-keeps IsNumbered IsNumbered-Stable c n rt before start old
        (empty-IsNumbered start empty) e1 in
    let over : IsOver host i removed =
      set_hosts-gives (IsOver host i) (IsOver-Stable host i) c n rt b hosts old removed
        (removed-IsOver hosts old host i numbered here out) e2 in
    let later : IsOver host i new =
      call_all-keeps (IsOver host i) (IsOver-Stable host i) c n rt after removed new over e3 in
    ground (arith, over-accepts host i new (host_incarnation new host) later refl)
