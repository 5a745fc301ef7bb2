-- ===== src/Scheduler/Cooldown.antt =====
-- The cooldown between the requests for a probe that are accepted.
use mocop.Base.{
  String, ◌≡◌, refl, ◌∙◌, Bool, true, false, not, Option, none, some, List, [], ◌∷◌, if◌then◌else◌,
  string_key, ◌==◌, Bool-cases, inl, inr, if-split, if-case,
}
use mocop.Base.Int.{Float, ltb_ℤ}
use mocop.Base.Dict.{get, contains, get-nil, get-put, get-restrict}
use mocop.Scheduler.Control.{
  Control, Answer, unknown_host, in_progress, queued, rate_limited, left_of, admit, request_probe,
  keep_discovered, start_probe, end_probe, prune_requests, refresh_hosts,
}

-- What happens to the requests: a request at a time and with the cooldown in force, the start and the
-- end of a probe, a change of the configuration, and a refreshed inventory.
pub data Event : Type 0 where
  requests : String → Float → Float → Event
  starts : String → Event
  ends : String → Event
  reconfigures : List String → Event
  refreshes : Bool → List String → Event

-- What is seen of it, the latest first: a request that is newly accepted, with its time and cooldown, and
-- an inventory that changed.
pub data Entry : Type 0 where
  accepted : String → Float → Float → Entry
  replaced : List String → Entry

-- The answer to a request is that it is queued, and it was not waiting before.
pub is_new : String → Answer → Control → Bool
is_new host unknown_host c = false
is_new host in_progress c = false
is_new host queued c = not (contains c.manual_probe_requests host)
is_new host (rate_limited left) c = false

-- When a host's last request was accepted since the host was last missing from a changed inventory.
pub last_accepted : List Entry → String → Option Float
last_accepted [] host = none
last_accepted (accepted other at cooldown ∷ log) host =
    let before = last_accepted log host in if other == host then some at else before
last_accepted (replaced hosts ∷ log) host =
    let before = last_accepted log host in if contains hosts host then before else none

module _ (minus : Float → Float → Float) (round : Float → Float) where
  note : String → Float → Float → Bool → List Entry → List Entry
  note host now cooldown true log = accepted host now cooldown ∷ log
  note host now cooldown false log = log

  pub happen : Event → Control × List Entry → Control × List Entry
  happen (requests host now cooldown) (c, log) =
      let (answer, after) = request_probe minus round host now cooldown c in
      (after, note host now cooldown (is_new host answer c) log)
  happen (starts host) (c, log) = (start_probe host c, log)
  happen (ends host) (c, log) = (end_probe host c, log)
  happen (reconfigures hosts) (c, log) = (keep_discovered hosts c, log)
  happen (refreshes changed hosts) (c, log) =
      (refresh_hosts changed hosts c, if changed then replaced hosts ∷ log else log)

  pub happen_all : List Event → Control × List Entry → Control × List Entry
  happen_all [] state = state
  happen_all (event ∷ events) state = happen_all events (happen event state)

  -- Each accepted request came when the cooldown since the one before it for the same host had passed.
  abbrev pub Cooled : Option Float → Float → Float → Type 0
  Cooled none now cooldown = Unit
  Cooled (some last) now cooldown = ltb_ℤ (minus now last) cooldown ≡ false

  pub Spaced : List Entry → Type 0
  Spaced [] = Unit
  Spaced (accepted host now cooldown ∷ log) =
      Cooled (last_accepted log host) now cooldown × Spaced log
  Spaced (replaced hosts ∷ log) = Spaced log

  record Recorded (state : Control × List Entry) : Type 0 where
    times : (host : String) → get state.0.last_manual_probe_at host ≡ last_accepted state.1 host
    spaced : Spaced state.1

  left_of-Cooled :
      (o : Option Float) (now cooldown : Float)
      → left_of minus o now cooldown ≡ none
      → Cooled o now cooldown
  unfolding left_of
  left_of-Cooled none now cooldown e = tt
  left_of-Cooled (some last) now cooldown e = elim (Bool-cases (ltb_ℤ (minus now last) cooldown)) [
    | inl b ↦
        let f : left_of minus (some last) now cooldown ≡ some (minus cooldown (minus now last)) =
          rw b refl in
        cc
    | inr b ↦ b
  ]

  admit-Recorded :
      (host : String) (now cooldown : Float) (o : Option Float) (c : Control) (log : List Entry)
      → left_of minus (get c.last_manual_probe_at host) now cooldown ≡ o
      → contains c.manual_probe_requests host ≡ false
      → Recorded (c, log)
      → Recorded (
        (admit round host now o c).1,
        note host now cooldown (is_new host (admit round host now o c).0 c) log,
      )
  unfolding admit is_new note last_accepted Spaced
  admit-Recorded host now cooldown (some left) c log e w h = h
  admit-Recorded host now cooldown none c log e w h = rw w (record {
    times = λ k. get-put c.last_manual_probe_at host k now ∙ rw (h.times k) refl;
    spaced = (
      rw (← h.times host) (left_of-Cooled (get c.last_manual_probe_at host) now cooldown e),
      h.spaced,
    );
  })

  request-Recorded :
      (host : String) (now cooldown : Float) (c : Control) (log : List Entry)
      → Recorded (c, log)
      → Recorded (happen (requests host now cooldown) (c, log))
  unfolding happen request_probe is_new note
  request-Recorded host now cooldown c log h =
      let P : Answer × Control → Type 0 =
        λ r. Recorded (r.1, note host now cooldown (is_new host r.0 c) log) in
      let left : Option Float = left_of minus (get c.last_manual_probe_at host) now cooldown in
      let fits : Answer × Control =
        if contains c.manual_probe_requests host
        then (queued, c)
        else admit round host now left c in
      if-case P (not (contains c.runtime_hosts host)) (unknown_host, c)
        (if contains c.runtime_in_flight host then (in_progress, c) else fits) h
        (if-case P (contains c.runtime_in_flight host) (in_progress, c) fits h
          (if-split P (contains c.manual_probe_requests host) (queued, c)
            (admit round host now left c) (λ waits. rw waits h)
            (λ new. admit-Recorded host now cooldown left c log refl new h)))

  refresh-Recorded :
      (changed : Bool) (hosts : List String) (c : Control) (log : List Entry)
      → Recorded (c, log)
      → Recorded (happen (refreshes changed hosts) (c, log))
  unfolding happen refresh_hosts prune_requests last_accepted Spaced
  refresh-Recorded true hosts c log h = record {
    times = λ k.
        get-restrict (λ host. contains hosts host) c.last_manual_probe_at k ∙ rw (h.times k) refl;
    spaced = h.spaced;
  }
  refresh-Recorded false hosts c log h = record { times = h.times; spaced = h.spaced }

  happen-Recorded :
      (event : Event) (state : Control × List Entry)
      → Recorded state
      → Recorded (happen event state)
  unfolding happen start_probe end_probe keep_discovered
  happen-Recorded (requests host now cooldown) (c, log) h =
      request-Recorded host now cooldown c log h
  happen-Recorded (starts host) (c, log) h = record { times = h.times; spaced = h.spaced }
  happen-Recorded (ends host) (c, log) h = record { times = h.times; spaced = h.spaced }
  happen-Recorded (reconfigures hosts) (c, log) h = record { times = h.times; spaced = h.spaced }
  happen-Recorded (refreshes changed hosts) (c, log) h = refresh-Recorded changed hosts c log h

  happen_all-Recorded :
      (events : List Event) (state : Control × List Entry)
      → Recorded state
      → Recorded (happen_all events state)
  unfolding happen_all
  happen_all-Recorded [] state h = h
  happen_all-Recorded (event ∷ events) state h =
      happen_all-Recorded events (happen event state) (happen-Recorded event state h)

  -- From a state without a recorded request, whatever happens, in any order: no request that is newly
  -- accepted for a host comes within the cooldown, as it is when the request is made, of the one accepted
  -- before it for that host, unless a changed inventory lacked the host in between; and the recorded
  -- time of a host is that of its last accepted request since it was last missing from one.
  pub happen_all-Spaced :
      (c : Control) (events : List Event)
      → c.last_manual_probe_at ≡ []
      → Spaced (happen_all events (c, [])).1
        × ((host : String)
            → get (happen_all events (c, [])).0.last_manual_probe_at host
              ≡ last_accepted (happen_all events (c, [])).1 host)
  unfolding Spaced last_accepted
  happen_all-Spaced c events e =
      let h : Recorded (happen_all events (c, [])) =
        happen_all-Recorded events (c, [])
          (record { times = λ host. rw e (get-nil host); spaced = tt }) in
      (h.spaced, h.times)
