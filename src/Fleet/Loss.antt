-- ===== src/Fleet/Loss.antt =====
-- What SimultaneousLossCorrelator of correlation.py reports.
use mocop.Base.{
  ℕ, ◌*◌, ◌≤◌, String, ◌≡◌, ◌∙◌, ◌||◌, Option, some, List, [], ◌∷◌, map, All, length, string_key,
  ltb, leb, arith, Bool-cases, inl, inr,
}
use mocop.Base.Int.{Float, ◌≤ℤ◌, ◌-ℤ◌}
use mocop.Base.Dict.{Dict, IsDict, IsDistinct, get, distinct}
use mocop.Base.Sort.{sort_by, string_leb}
use mocop.Base.Members.{
  All-imply, All-filter, All-sort_by, All-map, All-zip, map-id, length-sort_by, sort_by-IsDistinct,
  filter-IsDistinct,
}
use mocop.Fleet.Correlation.{
  Incident, Correlation, actionable_connectivity, Loss, loss_leb, losses_of, densest,
  loss_correlation, simultaneous_loss,
}
use mocop.Fleet.Densest.{host_of, Group, sorted-Group}
use mocop.Fleet.Table.{
  latest, otherwise-last, latest-get, actionable-IsDict, entries-get, start_of, losses-start,
  losses-IsDistinct,
}

module _ (epoch_seconds : Option String → Option Float) (window : Float) where
  -- When the host was last reported to have lost its connectivity.
  abbrev pub lost_at : List Incident → List String → String → Option Float
  lost_at active monitored host = start_of epoch_seconds window (latest active monitored host)

  -- Both hosts are lost, the first at most a window after the other.
  abbrev pub Near : List Incident → List String → String → String → Type 0
  Near active monitored a b =
      (s t : Float) × lost_at active monitored a ≡ some s
      × lost_at active monitored b ≡ some t
      × (s -ℤ t ≤ℤ window)

  -- A correlation that names at least three different hosts, at least half as many as are monitored, all
  -- lost within one window.
  pub record FleetLoss (active : List Incident) (monitored : List String) (c : Correlation)
      : Type 0 where
    pub distinct_hosts : IsDistinct c.hosts
    pub three : 3 ≤ length c.hosts
    pub half : length (distinct monitored) ≤ 2 * length c.hosts
    pub near : All (λ a. All (Near active monitored a) c.hosts) c.hosts

  module _ (active : List Incident) (monitored : List String) where
    Starts : Loss → Type 0
    Starts loss = lost_at active monitored loss.1 ≡ some loss.0

    Reported : List Loss → Type 0
    Reported group = IsDistinct (map host_of group) × All Starts group

    affected : Dict String Incident
    affected = actionable_connectivity active monitored []

    affected-start :
        (l : Loss) → start_of epoch_seconds window (get affected l.1) ≡ some l.0 → Starts l
    unfolding Starts affected get
    affected-start l h =
        let e : get (actionable_connectivity active monitored []) l.1
            ≡ latest active monitored l.1 =
          latest-get active monitored [] l.1 ∙ otherwise-last (latest active monitored l.1) in
        rw (← e) h

    losses-Reported : Reported (sort_by loss_leb (losses_of epoch_seconds window affected))
    unfolding Reported affected
    losses-Reported =
        let d : IsDict affected = actionable-IsDict active monitored [] tt in
        (
          sort_by-IsDistinct loss_leb host_of (losses_of epoch_seconds window affected)
              (losses-IsDistinct epoch_seconds window affected d),
          All-sort_by Starts loss_leb (losses_of epoch_seconds window affected) (
              All-imply (losses_of epoch_seconds window affected) affected-start
                (losses-start epoch_seconds window affected affected (entries-get affected d))),
        )

    best : List String
    best =
        densest epoch_seconds window (sort_by loss_leb (losses_of epoch_seconds window affected)) []

    best-Group : Group epoch_seconds window Reported best
    unfolding Reported best
    best-Group =
        sorted-Group epoch_seconds window Reported
          (λ p ys h. (filter-IsDistinct p host_of ys h.0, All-filter Starts p ys h.1))
          (λ y ys h. (h.0.1, h.1.1)) (losses_of epoch_seconds window affected) losses-Reported
          (tt, tt)

    best-IsDistinct : IsDistinct (sort_by string_leb best)
    unfolding Reported
    best-IsDistinct =
        let g : Group epoch_seconds window Reported best = best-Group in
        let h : IsDistinct best = rw g.same_hosts g.ok.0 in
        rw (← map-id (sort_by string_leb best))
          (sort_by-IsDistinct string_leb (λ x. x) best (rw (map-id best) h))

    losses-Near :
        (all group : List Loss)
        → All Starts all
        → All Starts group
        → All (λ a. All (λ b. a.0 -ℤ b.0 ≤ℤ window) all) group
        → All (λ a. All (λ b. Near active monitored a.1 b.1) all) group
    unfolding Starts
    losses-Near all [] h k w = tt
    losses-Near all (a ∷ group) h k w = (
      All-imply all (λ b n. (a.0, b.0, k.0, n.0, n.1))
          (All-zip Starts (λ b. a.0 -ℤ b.0 ≤ℤ window) all h w.0),
      losses-Near all group h k.1 w.1,
    )

    best-Near : All (λ a. All (Near active monitored a) best) best
    unfolding Reported
    best-Near =
        let g : Group epoch_seconds window Reported best = best-Group in
        rw g.same_hosts (
          All-map (λ a. All (Near active monitored a) (map host_of g.losses)) host_of g.losses
            (All-imply g.losses (λ a h. All-map (Near active monitored a.1) host_of g.losses h)
              (losses-Near g.losses g.losses g.ok.1 g.ok.1 g.within)))

    sorted-Near :
        All (λ a. All (Near active monitored a) (sort_by string_leb best)) (sort_by string_leb best)
    sorted-Near =
        All-sort_by (λ a. All (Near active monitored a) (sort_by string_leb best)) string_leb best
          (All-imply best (λ a h. All-sort_by (Near active monitored a) string_leb best h)
            best-Near)

  -- A loss at once names at least three different hosts, at least half as many as are monitored. Of each
  -- of them the last actionable loss of connectivity has a readable start, and no two of these are
  -- further apart than the window.
  pub simultaneous_loss-FleetLoss :
      (active : List Incident) (monitored : List String)
      → All (FleetLoss active monitored) (simultaneous_loss epoch_seconds window active monitored)
  unfolding simultaneous_loss loss_correlation best affected
  simultaneous_loss-FleetLoss active monitored =
      let count : ℕ = length (distinct monitored) in
      let hosts : List String = best active monitored in
      elim (Bool-cases (
        leb count 0
        || ltb (length (affected active monitored)) 3
        || ltb (length hosts) 3
        || ltb (2 * length hosts) count)) [
          | inl b ↦ rw b tt
          | inr b ↦
              let e : length (sort_by string_leb hosts) ≡ length hosts =
                length-sort_by string_leb hosts in
              rw b (
                record {
                  distinct_hosts = best-IsDistinct active monitored;
                  three = rw e (ground arith);
                  half = rw e (ground arith);
                  near = sorted-Near active monitored;
                },
                tt,
              )
        ]
