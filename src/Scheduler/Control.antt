-- ===== src/Scheduler/Control.antt =====
-- `request_probe`, with the clock's reading, the cooldown and the difference of floats passed in, and what
-- the rest of the scheduler does to the requests. The locks make each call one step.
use mocop.Base.{
  String, ◌≡◌, true, not, Option, none, some, List, ◌∷◌, filter, if◌then◌else◌, string_key, Bool,
  ◌==◌, ==_iff, arith, Bool-cases, inl, inr,
}
use mocop.Base.Int.{Float, ltb_ℤ}
use mocop.Base.Dict.{Dict, get, put, restrict, contains, contains-filter}

pub record Control : Type 0 where
  pub runtime_hosts : List String
  pub runtime_in_flight : List String
  pub manual_probe_requests : List String
  pub last_manual_probe_at : Dict String Float

pub data Answer : Type 0 where
  unknown_host : Answer
  in_progress : Answer
  queued : Answer
  rate_limited : Float → Answer

-- What is left of the cooldown at `now`, if `now - last < cooldown`; a host never asked for has none.
unfoldable pub left_of : (Float → Float → Float) → Option Float → Float → Float → Option Float
left_of minus none now cooldown = none
left_of minus (some last) now cooldown =
    if ltb_ℤ (minus now last) cooldown then some (minus cooldown (minus now last)) else none

-- The end of `request_probe`, with what is left of the cooldown; `round` is Python's, to two places.
unfoldable pub admit : (Float → Float) → String → Float → Option Float → Control → Answer × Control
admit round host now (some left) c = (rate_limited (round left), c)
admit round host now none c = (
  queued,
  record c {
    manual_probe_requests = host ∷ c.manual_probe_requests;
    last_manual_probe_at = put c.last_manual_probe_at host now;
  },
)

unfoldable pub request_probe :
    (Float → Float → Float) → (Float → Float) → String → Float → Float → Control → Answer × Control
request_probe minus round host now cooldown c =
    if not (contains c.runtime_hosts host)
    then (unknown_host, c)
    else if contains c.runtime_in_flight host
    then (in_progress, c)
    else if contains c.manual_probe_requests host
    then (queued, c)
    else admit round host now (left_of minus (get c.last_manual_probe_at host) now cooldown) c

-- The requests and hosts that `update_config` keeps.
unfoldable pub keep_discovered : List String → Control → Control
keep_discovered discovered c = record c {
  runtime_hosts = filter (λ host. contains discovered host) c.runtime_hosts;
  manual_probe_requests = filter (λ host. contains discovered host) c.manual_probe_requests;
}

-- The start and the end of a probe of a host, in `run`.
unfoldable pub start_probe : String → Control → Control
start_probe host c = record c {
  runtime_in_flight = host ∷ c.runtime_in_flight;
  manual_probe_requests = filter (λ other. not (other == host)) c.manual_probe_requests;
}

unfoldable pub end_probe : String → Control → Control
end_probe host c = record c {
  runtime_in_flight = filter (λ other. not (other == host)) c.runtime_in_flight;
}

-- `_prune_schedules`, of the requests
unfoldable pub prune_requests : List String → Control → Control
prune_requests active_hosts c = record c {
  manual_probe_requests = filter (λ host. contains active_hosts host) c.manual_probe_requests;
  last_manual_probe_at = restrict (λ host. contains active_hosts host) c.last_manual_probe_at;
}

-- What a refreshed inventory does, with whether it lists other hosts than before.
unfoldable pub refresh_hosts : Bool → List String → Control → Control
refresh_hosts changed active_hosts c =
    let monitored = record c {
      runtime_hosts = active_hosts;
      manual_probe_requests = filter (λ host. contains active_hosts host) c.manual_probe_requests;
    } in
    if changed then prune_requests active_hosts monitored else monitored

-- Each request waits for a host that is monitored.
abbrev pub Monitored : Control → Type 0
Monitored c =
    (host : String)
    → contains c.manual_probe_requests host ≡ true
    → contains c.runtime_hosts host ≡ true

admit-Monitored :
    (round : Float → Float) (host : String) (now : Float) (left : Option Float) (c : Control)
    → contains c.runtime_hosts host ≡ true
    → Monitored c
    → Monitored (admit round host now left c).1
unfolding admit contains
admit-Monitored round host now (some left) c known m = m
admit-Monitored round host now none c known m = λ k h. ground (arith, ==_iff host k, m k)

request_probe-Monitored :
    (minus : Float → Float → Float) (round : Float → Float) (c : Control) (host : String)
    (now cooldown : Float)
    → Monitored c
    → Monitored (request_probe minus round host now cooldown c).1
unfolding request_probe
request_probe-Monitored minus round c host now cooldown m =
    elim (Bool-cases (contains c.runtime_hosts host)) [
      | inl x ↦ elim (Bool-cases (contains c.runtime_in_flight host)) [
        | inl y ↦ rw (x, y) m
        | inr y ↦ elim (Bool-cases (contains c.manual_probe_requests host)) [
          | inl z ↦ rw (x, y, z) m
          | inr z ↦
              rw (x, y, z)
                (admit-Monitored round host now
                  (left_of minus (get c.last_manual_probe_at host) now cooldown) c x m)
        ]
      ]
      | inr x ↦ rw x m
    ]

-- Requests only wait for monitored hosts, after a request and after a change of the configuration.
pub keep_discovered-Monitored :
    (minus : Float → Float → Float) (round : Float → Float) (c : Control) (host : String)
    (now cooldown : Float) (discovered : List String)
    → Monitored c
    → Monitored (request_probe minus round host now cooldown c).1
      × Monitored (keep_discovered discovered c)
unfolding keep_discovered
keep_discovered-Monitored minus round c host now cooldown discovered m = (
  request_probe-Monitored minus round c host now cooldown m,
  λ h k. ground (
    arith,
    contains-filter (λ host. contains discovered host) c.runtime_hosts h,
    contains-filter (λ host. contains discovered host) c.manual_probe_requests h,
    m h,
  ),
)
