-- ===== src/Fleet/Correlation.antt =====
-- correlation.py without the correlator of configured paths: losses at once, and what else to report
-- beside them. The parser of timestamps and the float of 120.0 are parameters.
use Prim.Native.String.{◌++◌ as join}
use mocop.Base.{
  ℕ, ◌*◌, String, Bool, not, ◌&&◌, ◌||◌, Option, none, some, List, [], ◌∷◌, ◌++◌, filter, map, all,
  length, if◌then◌else◌, string_key, ◌==◌, ltb, leb, or_else,
}
use mocop.Base.Int.{Float, ltb_ℤ, leb_ℤ, ◌-ℤ◌}
use mocop.Base.Dict.{Dict, get, put, contains, distinct}
use mocop.Base.Sort.{sort_by, string_leb}
use mocop.Base.Text.{str_nat}

pub record Incident : Type 0 where
  pub host : String
  pub category : String
  pub silenced : Bool
  pub actionable : Bool
  pub first_observed_at : Option String

pub record Correlation : Type 0 where
  pub correlation_key : String
  pub kind : String
  pub anchor : Option String
  pub hosts : List String
  pub detail : String

abbrev pub Correlator : Type 0
Correlator = List Incident → List String → List Correlation

unfoldable pub is_affected : List String → Incident → Bool
is_affected monitored_hosts item =
    item.category == "connectivity"
    && not item.silenced
    && item.actionable
    && contains monitored_hosts item.host

-- `_actionable_connectivity`, from the table so far: a later item of a host replaces an earlier one.
unfoldable pub actionable_connectivity :
    List Incident → List String → Dict String Incident → Dict String Incident
unfolding is_affected
actionable_connectivity [] monitored_hosts affected = affected
actionable_connectivity (item ∷ items) monitored_hosts affected =
    actionable_connectivity items monitored_hosts
      (if is_affected monitored_hosts item then put affected item.host item else affected)

abbrev pub Loss : Type 0
Loss = Float × String

abbrev pub loss_leb : Loss → Loss → Bool
loss_leb a b = let hosts = string_leb a.1 b.1 in ltb_ℤ a.0 b.0 || (leb_ℤ a.0 b.0 && hosts)

-- A loss whose start cannot be read is left out.
abbrev pub add_loss : String → Option Float → List Loss → List Loss
add_loss host none losses = losses
add_loss host (some epoch) losses = (epoch, host) ∷ losses

module _ (epoch_seconds : Option String → Option Float) (window : Float) where
  unfoldable pub losses_of : Dict String Incident → List Loss
  losses_of [] = []
  losses_of ((host, item) ∷ affected) =
      add_loss host (epoch_seconds item.first_observed_at) (losses_of affected)

  -- The losses inside the window that its first loss opens.
  unfoldable pub group_from : List Loss → List String
  group_from [] = []
  group_from ((epoch, host) ∷ losses) =
      map (λ loss. loss.1)
        (filter (λ loss. leb_ℤ (loss.0 -ℤ epoch) window) ((epoch, host) ∷ losses))

  -- The loop that keeps the largest group.
  unfoldable pub densest : List Loss → List String → List String
  densest [] best = best
  densest (loss ∷ losses) best =
      let group = group_from (loss ∷ losses) in
      densest losses (if ltb (length best) (length group) then group else best)

  -- `min` of the texts, from the first of them.
  unfoldable pub earliest_text : String → List String → String
  unfolding string_leb
  earliest_text first [] = first
  earliest_text first (text ∷ texts) =
      earliest_text (if string_leb first text then first else text) texts

  -- `str(affected[host]["firstObservedAt"])`
  unfoldable pub observed_text : Dict String Incident → String → String
  observed_text affected host = elim (get affected host) [
    | none ↦ ""
    | some item ↦ or_else item.first_observed_at "None"
  ]

  unfoldable pub loss_correlation : Dict String Incident → ℕ → List String → Correlation
  unfolding str_nat observed_text earliest_text
  loss_correlation affected monitored hosts =
      let first : String = elim (map (observed_text affected) hosts) [
        | [] ↦ ""
        | text ∷ texts ↦ earliest_text text texts
      ] in
      record {
        correlation_key = join "simultaneous-loss:" first;
        kind = "simultaneous_connectivity_loss";
        anchor = none;
        hosts = hosts;
        detail = join (str_nat (length hosts)) (
            join " of " (
              join (str_nat monitored)
                " monitored nodes lost connectivity within 120 seconds of each other; the monitor's own uplink or a shared relay is the likely cause"));
      }

  -- `SimultaneousLossCorrelator.correlate`
  unfoldable pub simultaneous_loss : Correlator
  unfolding loss_correlation
  simultaneous_loss active_incidents monitored_hosts =
      let monitored = length (distinct monitored_hosts) in
      let affected = actionable_connectivity active_incidents monitored_hosts [] in
      let best = densest (sort_by loss_leb (losses_of affected)) [] in
      if leb monitored 0
        || ltb (length affected) 3
        || ltb (length best) 3
        || ltb (2 * length best) monitored
      then []
      else loss_correlation affected monitored (sort_by string_leb best) ∷ []

  unfoldable pub is_covered : List String → Correlation → Bool
  is_covered covered correlation = all (contains covered) correlation.hosts

  unfoldable pub covered_hosts : List Correlation → List String
  covered_hosts [] = []
  covered_hosts (first ∷ rest) = first.hosts

  unfoldable pub others_of :
      List Correlator → List Incident → List String → List String → List Correlation
  others_of [] active_incidents monitored_hosts covered = []
  others_of (correlate ∷ correlators) active_incidents monitored_hosts covered =
      filter (λ correlation. not (is_covered covered correlation))
        (correlate active_incidents monitored_hosts)
      ++ others_of correlators active_incidents monitored_hosts covered

  -- `CompositeIncidentCorrelator.correlate`
  unfoldable pub correlate_all : List Correlator → Correlator
  unfolding covered_hosts
  correlate_all correlators active_incidents monitored_hosts =
      let fleet = simultaneous_loss active_incidents monitored_hosts in
      fleet ++ others_of correlators active_incidents monitored_hosts (covered_hosts fleet)
