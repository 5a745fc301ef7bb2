-- ===== src/Fleet/Ssh.antt =====
-- ssh_failures.py: what is told of a failed SSH client, and which failures are tried again.
use text.Mathlib.Text.{starts_with}
use mocop.Base.{
  String, ◌≡◌, refl, Bool, true, false, not, ◌||◌, List, [], ◌∷◌, ◌++◌, any, all, drop,
  if◌then◌else◌, string_key, ◌==◌, ==_iff, arith, Bool-cases, inl, inr,
}
use mocop.Base.Dict.{contains}
use mocop.Base.Text.{lower}

-- `needle in text`
unfoldable pub includes : String → String → Bool
includes String.[] needle = starts_with String.[] needle
includes (String.◌∷◌ c text) needle = starts_with (String.◌∷◌ c text) needle || includes text needle

unfoldable pub includes_any : String → List String → Bool
unfolding includes
includes_any text needles = any (includes text) needles

abbrev pub categories : List (List String × String)
categories =
    ("remote host identification has changed" ∷ [], "SSH host key changed")
    ∷ ("host key verification failed" ∷ [], "SSH host key is not trusted")
    ∷ ("permission denied" ∷ "authentication failed" ∷ [], "SSH authentication failed")
    ∷ (
      "could not resolve hostname" ∷ "name or service not known" ∷ [],
      "SSH name resolution failed",
    )
    ∷ (
      "stdio forwarding request failed" ∷ "channel 0: open failed"
          ∷ "open failed: administratively prohibited" ∷ "open failed: connect failed" ∷ [],
      "SSH jump host could not reach the target",
    )
    ∷ ("connection refused" ∷ [], "SSH connection was refused")
    ∷ ("connection timed out" ∷ "operation timed out" ∷ [], "SSH connection timed out")
    ∷ ("no route to host" ∷ "network is unreachable" ∷ [], "SSH network is unreachable")
    ∷ (
      "kex_exchange_identification" ∷ "banner exchange" ∷ "connection reset by peer"
          ∷ "connection closed by remote host" ∷ [],
      "SSH connection closed during key exchange",
    )
    ∷ ("timeout, server" ∷ "server not responding" ∷ [], "SSH transport stopped responding")
    ∷ []

-- The loop over the categories.
unfoldable pub first_message : List (List String × String) → String → String
first_message [] normalized = "SSH connection failed"
first_message ((needles, message) ∷ rest) normalized =
    let later = first_message rest normalized in
    if includes_any normalized needles then message else later

unfoldable pub classify_ssh_failure : String → String
classify_ssh_failure stderr = first_message categories (lower stderr)

abbrev pub hard_failures : List String
hard_failures =
    "permission denied" ∷ "authentication failed" ∷ "session open refused"
    ∷ "administratively prohibited" ∷ "host key verification failed"
    ∷ "remote host identification has changed" ∷ "open failed" ∷ []

abbrev pub stale_markers : List String
stale_markers =
    "mux_client_request_session" ∷ "control socket connect" ∷ "master is dead" ∷ "broken pipe"
    ∷ "read from master failed" ∷ []

unfoldable pub is_retryable_ssh_transport_failure : String → Bool
is_retryable_ssh_transport_failure stderr =
    let normalized = lower stderr in
    if includes_any normalized hard_failures then false else includes_any normalized stale_markers

abbrev pub fresh_options : List String
fresh_options = "-o" ∷ "ControlMaster=no" ∷ "-o" ∷ "ControlPath=none" ∷ []

-- The command with the options before its first separator.
unfoldable pub insert_options : List String → List String
insert_options [] = []
insert_options (word ∷ rest) =
    let later = insert_options rest in
    if word == "--" then fresh_options ++ word ∷ rest else word ∷ later

unfoldable pub force_fresh_transport : List String → List String
force_fresh_transport command = if contains command "--" then insert_options command else command

-- The messages that classify_ssh_failure has.
abbrev pub vocabulary : List String
vocabulary =
    "SSH connection failed" ∷ "SSH host key changed" ∷ "SSH host key is not trusted"
    ∷ "SSH authentication failed" ∷ "SSH name resolution failed"
    ∷ "SSH jump host could not reach the target" ∷ "SSH connection was refused"
    ∷ "SSH connection timed out" ∷ "SSH network is unreachable"
    ∷ "SSH connection closed during key exchange" ∷ "SSH transport stopped responding" ∷ []

first_message-all :
    (p : String → Bool) (table : List (List String × String)) (normalized : String)
    → p "SSH connection failed" ≡ true
    → all (λ row. p row.1) table ≡ true
    → p (first_message table normalized) ≡ true
unfolding first_message
first_message-all p [] normalized h k = h
first_message-all p ((needles, message) ∷ rest) normalized h k =
    let later : p (first_message rest normalized) ≡ true =
      first_message-all p rest normalized h (ground (arith)) in
    elim (Bool-cases (includes_any normalized needles)) [
      | inl b ↦ rw b (ground (arith))
      | inr b ↦ rw b later
    ]

-- Whatever the SSH client printed, its classification is one of eleven fixed messages.
pub classify_ssh_failure-contains :
    (stderr : String) → contains vocabulary (classify_ssh_failure stderr) ≡ true
unfolding classify_ssh_failure contains
classify_ssh_failure-contains stderr =
    first_message-all (contains vocabulary) categories (lower stderr) refl refl

abbrev pub identity_failures : List String
identity_failures =
    "SSH host key changed" ∷ "SSH host key is not trusted" ∷ "SSH authentication failed" ∷ []

includes_any-false :
    (text : String) (needles : List String) (needle : String)
    → includes_any text needles ≡ false
    → contains needles needle ≡ true
    → includes text needle ≡ false
unfolding includes_any contains
includes_any-false text [] needle h k = cc
includes_any-false text (x ∷ xs) needle h k = elim (Bool-cases (x == needle)) [
  | inl b ↦ let e : x ≡ needle = (==_iff x needle).0 b in rw (← e) (ground (arith))
  | inr b ↦ includes_any-false text xs needle (ground (arith)) (ground (arith))
]

-- A failure that is tried again is not classified as a changed or untrusted host key, nor as a failed
-- authentication.
pub retryable-classify :
    (stderr : String)
    → is_retryable_ssh_transport_failure stderr ≡ true
    → contains identity_failures (classify_ssh_failure stderr) ≡ false
unfolding classify_ssh_failure contains is_retryable_ssh_transport_failure first_message
    includes_any
retryable-classify stderr h =
    let text : String = lower stderr in
    let none_hard : includes_any text hard_failures ≡ false = ground (arith) in
    let changed : includes text "remote host identification has changed" ≡ false =
      includes_any-false text hard_failures _ none_hard refl in
    let untrusted : includes text "host key verification failed" ≡ false =
      includes_any-false text hard_failures _ none_hard refl in
    let denied : includes text "permission denied" ≡ false =
      includes_any-false text hard_failures _ none_hard refl in
    let refused : includes text "authentication failed" ≡ false =
      includes_any-false text hard_failures _ none_hard refl in
    let later : not (contains identity_failures (first_message (drop 3 categories) text)) ≡ true =
      first_message-all (λ m. not (contains identity_failures m)) (drop 3 categories) text refl
        refl in
    rw (changed, untrusted, denied, refused) (ground (arith))

insert_options-append :
    (before after : List String)
    → contains before "--" ≡ false
    → insert_options (before ++ "--" ∷ after) ≡ before ++ fresh_options ++ "--" ∷ after
unfolding insert_options contains
insert_options-append [] after h = refl
insert_options-append (x ∷ xs) after h =
    let e : (x == "--") ≡ false = ground (arith) in
    let rest : insert_options (xs ++ "--" ∷ after) ≡ xs ++ fresh_options ++ "--" ∷ after =
      insert_options-append xs after (ground (arith)) in
    rw (e, rest) refl

contains-append_self : (before after : List String) → contains (before ++ "--" ∷ after) "--" ≡ true
unfolding contains
contains-append_self [] after = refl
contains-append_self (x ∷ xs) after = ground (arith, contains-append_self xs after)

-- For words without a separator: alone they stay as they are, and followed by a separator and any
-- words they get the options before it, every other word staying in its place.
pub force_fresh_transport-append :
    (before after : List String)
    → contains before "--" ≡ false
    → (force_fresh_transport before ≡ before)
      × (force_fresh_transport (before ++ "--" ∷ after) ≡ before ++ fresh_options ++ "--" ∷ after)
unfolding force_fresh_transport
force_fresh_transport-append before after h =
    (rw h refl, rw (contains-append_self before after) (insert_options-append before after h))
