-- ===== src/Fleet/Composite.antt =====
-- Which hosts CompositeIncidentCorrelator of correlation.py reports on.
use mocop.Base.{
  String, ◌≡◌, refl, sym, ◌∙◌, Bool, true, false, not, ◌||◌, Option, List, [], ◌∷◌, ◌++◌, filter,
  all, any, All, string_key, ==_iff, ==_refl, arith, Bool-cases, inl, inr,
}
use mocop.Base.Int.{Float}
use mocop.Base.Dict.{contains}
use mocop.Base.Members.{All-append, filter-All}
use mocop.Fleet.Correlation.{
  Incident, Correlation, Correlator, simultaneous_loss, is_covered, covered_hosts, others_of,
  correlate_all,
}

-- Whether a correlation of the list names the host.
abbrev pub named : List Correlation → String → Bool
named correlations host = any (λ c. contains c.hosts host) correlations

-- Whether one of the correlators, asked on its own, names the host.
abbrev pub named_by : List Correlator → List Incident → List String → String → Bool
named_by correlators active monitored host =
    any (λ correlate. named (correlate active monitored) host) correlators

-- A correlation that names a host which the first list does not.
abbrev pub Beyond : List Correlation → Correlation → Type 0
Beyond first c = (host : String) × (contains c.hosts host ≡ true) × (named first host ≡ false)

named-append :
    (xs ys : List Correlation) (host : String)
    → named (xs ++ ys) host ≡ (named xs host || named ys host)
named-append [] ys host = refl
named-append (x ∷ xs) ys host = ground (arith, named-append xs ys host)

covered-contains :
    (covered hosts : List String) (host : String)
    → all (contains covered) hosts ≡ true
    → contains hosts host ≡ true
    → contains covered host ≡ true
unfolding contains
covered-contains covered [] host h m = absurd (ground (arith, m))
covered-contains covered (x ∷ hosts) host h m =
    ground (arith, h, m, ==_iff x host, covered-contains covered hosts host)

-- A host that is not covered.
uncovered_host :
    (covered hosts : List String)
    → all (contains covered) hosts ≡ false
    → (host : String) × (contains hosts host ≡ true) × (contains covered host ≡ false)
unfolding contains
uncovered_host covered [] h = absurd (ground (arith, h))
uncovered_host covered (x ∷ hosts) h = elim (Bool-cases (contains covered x)) [
  | inl b ↦
      let found = uncovered_host covered hosts (ground (arith, b, h)) in
      (found.0, ground (arith, found.1), found.2)
  | inr b ↦ (x, ground (arith, ==_refl x), b)
]

module _ (epoch_seconds : Option String → Option Float) (window : Float) where
  -- Correlations that are kept name every host that is named and not covered.
  filter-named :
      (covered : List String) (cs : List Correlation) (host : String)
      → (contains covered host
          || named (filter (λ c. not (is_covered epoch_seconds window covered c)) cs) host)
        ≡ (contains covered host || named cs host)
  unfolding is_covered
  filter-named covered [] host = refl
  filter-named covered (c ∷ cs) host =
      ground (arith, filter-named covered cs host, covered-contains covered c.hosts host)

  others-named :
      (correlators : List Correlator) (active : List Incident) (monitored covered : List String)
      (host : String)
      → (contains covered host
          || named (others_of epoch_seconds window correlators active monitored covered) host)
        ≡ (contains covered host || named_by correlators active monitored host)
  unfolding others_of
  others-named [] active monitored covered host = refl
  others-named (correlate ∷ correlators) active monitored covered host =
      let reported : List Correlation = correlate active monitored in
      let kept : List Correlation =
        filter (λ c. not (is_covered epoch_seconds window covered c)) reported in
      let rest : List Correlation =
        others_of epoch_seconds window correlators active monitored covered in
      ground (
        arith,
        named-append kept rest host,
        filter-named covered reported host,
        others-named correlators active monitored covered host,
      )

  others-Beyond :
      (correlators : List Correlator) (active : List Incident) (monitored covered : List String)
      (first : List Correlation)
      → ((host : String) → contains covered host ≡ named first host)
      → All (Beyond first) (others_of epoch_seconds window correlators active monitored covered)
  unfolding others_of is_covered
  others-Beyond [] active monitored covered first same = tt
  others-Beyond (correlate ∷ correlators) active monitored covered first same =
      All-append (Beyond first)
        (filter (λ c. not (is_covered epoch_seconds window covered c)) (correlate active monitored))
        (others_of epoch_seconds window correlators active monitored covered)
        (filter-All (Beyond first) (λ c. not (is_covered epoch_seconds window covered c))
          (correlate active monitored)
          (λ c h.
            let found = uncovered_host covered c.hosts (ground (arith, h)) in
            (found.0, found.1, sym (same found.0) ∙ found.2)))
        (others-Beyond correlators active monitored covered first same)

  -- The hosts of the loss reported first are those that it names.
  covered-named :
      (active : List Incident) (monitored : List String) (host : String)
      → contains
          (covered_hosts epoch_seconds window
            (simultaneous_loss epoch_seconds window active monitored))
          host
        ≡ named (simultaneous_loss epoch_seconds window active monitored) host
  unfolding covered_hosts simultaneous_loss contains
  covered-named active monitored host = ground arith

  -- The report names exactly the hosts that the loss at once names or that one of the correlators does,
  -- asked on its own. It begins with the loss at once, and each correlation after that names a host that
  -- the loss does not.
  pub correlate_all-named :
      (correlators : List Correlator) (active : List Incident) (monitored : List String)
      → ((host : String)
          → named (correlate_all epoch_seconds window correlators active monitored) host ≡ (
              named (simultaneous_loss epoch_seconds window active monitored) host
              || named_by correlators active monitored host))
        × (others : List Correlation) × (correlate_all epoch_seconds window correlators active
              monitored
            ≡ simultaneous_loss epoch_seconds window active monitored ++ others)
        × All (Beyond (simultaneous_loss epoch_seconds window active monitored)) others
  unfolding correlate_all
  correlate_all-named correlators active monitored =
      let fleet : List Correlation = simultaneous_loss epoch_seconds window active monitored in
      let covered : List String = covered_hosts epoch_seconds window fleet in
      let others : List Correlation =
        others_of epoch_seconds window correlators active monitored covered in
      (
        λ host. ground (
          arith,
          named-append fleet others host,
          covered-named active monitored host,
          others-named correlators active monitored covered host,
        ),
        others,
        refl,
        others-Beyond correlators active monitored covered fleet (covered-named active monitored),
      )
