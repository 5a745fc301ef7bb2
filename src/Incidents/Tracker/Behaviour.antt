-- ===== src/Incidents/Tracker/Behaviour.antt =====
-- What runs of samples do to one condition: freezing, staying open, opening and resolving.
use mocop.Base.{
  String, ◌≡◌, refl, ap, ◌∙◌, true, false, not, ◌&&◌, Option, none, some, List, [], ◌∷◌, All,
  string_key, or_else, ◌==◌, Bool-cases, Option-cases, inl, inr, arith, is_some,
}
use mocop.Base.Dict.{get, has}
use mocop.Models.{ProbeResult, online}
use mocop.Incidents.Types.{IncidentCondition, IncidentPolicy}
use mocop.Incidents.Domains.{telemetry_unknown}
use mocop.Incidents.Tracker.State.{Runtime, Pending, Tracker, row, tables_of}
use mocop.Incidents.Tracker.Phase.{
  Open, open_incident, reobserve, present, absent, step, slot, entries,
}
use mocop.Incidents.Tracker.Recover.{speaks}
use mocop.Incidents.Tracker.Refine.{advances}
use mocop.Incidents.Tracker.Runs.{Phases, AtPhases, next_phases, final_phases, run, run-refines}

module _ (rt : Runtime) (policy : IncidentPolicy) (host key : String) where
  -- The sample is of the host, does not observe the condition, and carries no fresh telemetry for it:
  -- the probe failed, or a domain that the condition's category needs is missing.
  abbrev pub IsBlind : String → ProbeResult → Type 0
  IsBlind category result =
      (get (policy.conditions result) key ≡ none)
      × ((online result && not (telemetry_unknown category key (policy.observed_domains result)))
          ≡ false)

  abbrev Of : (ProbeResult → Type 0) → ProbeResult → Type 0
  Of P result = (result.host == host) ≡ true → P result

  blind_step :
      (result : ProbeResult) (o : Open)
      → IsBlind o.condition.category result
      → step rt
          (advances rt policy result key)
          (get (policy.conditions result) key)
          (open_incident o)
        ≡ open_incident (record o { change = none })
  unfolding step absent advances speaks
  blind_step result o (unseen, blind) = rw unseen (ground arith)

  opened_at-reobserve :
      (new : IncidentCondition) (o : Open) → (reobserve rt new o).opened_at ≡ o.opened_at
  unfolding reobserve
  opened_at-reobserve new o = ground arith

  healthy-reobserve : (new : IncidentCondition) (o : Open) → (reobserve rt new o).healthy ≡ 0
  unfolding reobserve
  healthy-reobserve new o = ground arith

  observed_step :
      (result : ProbeResult) (o : Open)
      → has (policy.conditions result) key ≡ true
      → (o' : Open) × (step rt
            (advances rt policy result key)
            (get (policy.conditions result) key)
            (open_incident o)
          ≡ open_incident o')
        × (o'.opened_at ≡ o.opened_at)
        × (o'.healthy ≡ 0)
  unfolding step present
  observed_step result o seen = elim (Option-cases (get (policy.conditions result) key)) [
    | inl e ↦ absurd (ground arith)
    | inr (new, e) ↦ (reobserve rt new o, rw e, opened_at-reobserve new o, healthy-reobserve new o)
  ]

  final_blind :
      (results : List ProbeResult) (phases : Phases) (o : Open)
      → phases host key ≡ open_incident o
      → All (Of (IsBlind o.condition.category)) results
      → (change : Option Pending) × (final_phases rt policy results phases host key
          ≡ open_incident (record o { change = change }))
  final_blind [] phases o at blind = (o.change, at)
  final_blind (result ∷ results) phases o at (now, later) =
      elim (Bool-cases (result.host == host)) [
        | inl here ↦
            final_blind results (next_phases rt policy result phases) (record o { change = none })
              (rw (here, at) (blind_step result o (now here))) later
        | inr other ↦
            final_blind results (next_phases rt policy result phases) o (rw other at) later
      ]

  -- An open incident survives blind samples as it is: whatever the number and order of samples, if
  -- those of its host are blind to it, `update` raises nothing, the condition stays active with the
  -- same contents and opening time, and its count of healthy samples neither grows nor resets.
  pub run_blind :
      (results : List ProbeResult) (t : Tracker) (phases : Phases) (o : Open)
      → AtPhases t phases
      → phases host key ≡ open_incident o
      → All (Of (IsBlind o.condition.category)) results
      → (t' : Tracker) × (run rt policy results t ≡ some t')
        × (get (row t'.active host) key ≡ some o.condition)
        × (get (row t'.opened_at host) key ≡ some o.opened_at)
        × (or_else (get (row t'.recoveries host) key) 0 ≡ o.healthy)
  unfolding tables_of slot entries
  run_blind results t phases o h at blind =
      let (t', e, f, _) = run-refines rt policy results t phases h in
      let (change, final) = final_blind results phases o at blind in
      let reached = rw final at (f host key) in
      (
        t',
        e,
        ap (λ s. s.active) reached,
        ap (λ s. s.opened_at) reached,
        ap (λ s. s.recovery) reached,
      )

  final_observed :
      (results : List ProbeResult) (phases : Phases) (o : Open)
      → phases host key ≡ open_incident o
      → All (Of (λ result. has (policy.conditions result) key ≡ true)) results
      → (o' : Open) × (final_phases rt policy results phases host key ≡ open_incident o')
        × (o'.opened_at ≡ o.opened_at)
  final_observed [] phases o at seen = (o, at, refl)
  final_observed (result ∷ results) phases o at (now, later) =
      elim (Bool-cases (result.host == host)) [
        | inl here ↦
            let (o', stepped, same, _) = observed_step result o (now here) in
            let (o'', final, same') =
              final_observed results (next_phases rt policy result phases) o'
                (rw (here, at) stepped) later in
            (o'', final, same' ∙ same)
        | inr other ↦
            final_observed results (next_phases rt policy result phases) o (rw other at) later
      ]

  -- An incident stays open, with its opening time, as long as every sample of its host observes the
  -- condition, be it only within the recovery margin.
  pub run_observed :
      (results : List ProbeResult) (t : Tracker) (phases : Phases) (o : Open)
      → AtPhases t phases
      → phases host key ≡ open_incident o
      → All (Of (λ result. has (policy.conditions result) key ≡ true)) results
      → (t' : Tracker) × (run rt policy results t ≡ some t')
        × (has (row t'.active host) key ≡ true)
        × (get (row t'.opened_at host) key ≡ some o.opened_at)
  unfolding tables_of slot entries
  run_observed results t phases o h at seen =
      let (t', e, f, _) = run-refines rt policy results t phases h in
      let (o', final, same) = final_observed results phases o at seen in
      let reached = rw final at (f host key) in
      (t', e, ap (λ s. is_some s.active) reached, ap (λ s. s.opened_at) reached ∙ ap some same)
