-- ===== src/Fleet/Reports.antt =====
-- The theorems about the correlators at concrete inputs.
use mocop.Base.{
  ◌≤◌, String, ◌≡◌, Bool, true, false, ◌&&◌, ◌||◌, Option, none, some, List, [], ◌∷◌, ◌++◌, filter,
  All, length, string_key, ◌==◌, if◌then◌else◌, arith, Bool-cases, inl, inr,
}
use mocop.Base.Int.{Float, pos, leb_ℤ, ◌≤ℤ◌, ◌-ℤ◌, int_laws}
use mocop.Base.Dict.{Dict}
use mocop.Base.Sort.{sort_by}
use mocop.Fleet.Correlation.{
  Incident, Correlation, Correlator, Loss, losses_of, loss_leb, densest, simultaneous_loss,
  correlate_all,
}
use mocop.Fleet.Densest.{Group, Taken, densest-selection}
use mocop.Fleet.Loss.{FleetLoss, simultaneous_loss-FleetLoss}
use mocop.Fleet.Composite.{named, named_by, Beyond, correlate_all-named}

-- Three starts, of which the last is far from the others.
abbrev clock : Option String → Option Float
clock none = none
clock (some text) =
    let late = pos 900 in
    let early = if text == "t1" then pos 5 else pos 60 in
    some (if text == "t3" then late else early)

abbrev lost : String → String → Incident
lost host text = record {
  host = host;
  category = "connectivity";
  silenced = false;
  actionable = true;
  first_observed_at = some text;
}

abbrev incidents : List Incident
incidents = lost "a" "t1" ∷ lost "b" "t2" ∷ lost "c" "t1" ∷ lost "d" "t3" ∷ []

abbrev monitored : List String
monitored = "a" ∷ "b" ∷ "c" ∷ "d" ∷ []

abbrev affected : Dict String Incident
affected = ("a", lost "a" "t1") ∷ ("b", lost "b" "t2") ∷ ("d", lost "d" "t3") ∷ []

-- Losses of the first minute and a half.
abbrev is_early : Loss → Bool
is_early loss = leb_ℤ (pos 0) loss.0 && leb_ℤ loss.0 (pos 90)

early-bounds :
    (t : Float) → (leb_ℤ (pos 0) t && leb_ℤ t (pos 90)) ≡ true → (pos 0 ≤ℤ t) × (t ≤ℤ pos 90)
early-bounds t h = elim (Bool-cases (leb_ℤ (pos 0) t)) [
  | inl b ↦ (ground (arith, b), ground (arith, b, h))
  | inr b ↦ absurd (ground (arith, b, h))
]

early-near : (a b : Loss) → is_early a ≡ true → is_early b ≡ true → a.0 -ℤ b.0 ≤ℤ pos 120
early-near a b h k =
    let first = early-bounds a.0 h in
    let second = early-bounds b.0 k in omega (int_laws, first.0, first.1, second.0, second.1)

densest-selection_example :
    Group clock
      (pos 120)
      (Taken clock (pos 120) (losses_of clock (pos 120) affected))
      (densest clock (pos 120) (sort_by loss_leb (losses_of clock (pos 120) affected)) [])
    × (length (filter is_early (losses_of clock (pos 120) affected))
        ≤ length
            (densest clock (pos 120) (sort_by loss_leb (losses_of clock (pos 120) affected)) []))
densest-selection_example = densest-selection clock (pos 120) affected is_early early-near

simultaneous_loss-FleetLoss_example :
    All
      (FleetLoss clock (pos 120) incidents monitored)
      (simultaneous_loss clock (pos 120) incidents monitored)
simultaneous_loss-FleetLoss_example =
    simultaneous_loss-FleetLoss clock (pos 120) incidents monitored

-- A correlator that reports a path of two hosts, and one that is part of it.
abbrev report : List String → Correlation
report hosts = record {
  correlation_key = "path";
  kind = "ssh_path";
  anchor = none;
  hosts = hosts;
  detail = "";
}

abbrev paths : Correlator
paths active hosts = report ("a" ∷ "e" ∷ []) ∷ report ("a" ∷ []) ∷ []

correlate_all-named_example :
    ((host : String)
      → named (correlate_all clock (pos 120) (paths ∷ []) incidents monitored) host ≡ (
          named (simultaneous_loss clock (pos 120) incidents monitored) host
          || named_by (paths ∷ []) incidents monitored host))
    × (others : List Correlation) × (correlate_all clock (pos 120) (paths ∷ []) incidents monitored
        ≡ simultaneous_loss clock (pos 120) incidents monitored ++ others)
    × All (Beyond (simultaneous_loss clock (pos 120) incidents monitored)) others
correlate_all-named_example = correlate_all-named clock (pos 120) (paths ∷ []) incidents monitored
