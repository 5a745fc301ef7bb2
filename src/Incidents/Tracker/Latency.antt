-- ===== src/Incidents/Tracker/Latency.antt =====
-- How many samples it takes to open and to resolve an incident, exactly.
use native.Mathlib.Nat.{zero-add}
use mocop.Base.{
  subst, ℕ, suc, ◌+◌, ◌≤◌, ◌<◌, String, ◌≡◌, refl, sym, ap, ◌∙◌, true, false, none, some, List, [],
  ◌∷◌, All, length, if◌then◌else◌, string_key, leb, ◌==◌, Bool-cases, Option-cases, inl, inr, arith,
  is_some,
}
use mocop.Base.Dict.{get, has}
use mocop.Base.Int.{pos, leb_ℤ}
use mocop.Models.{ProbeResult}
use mocop.Incidents.Types.{
  Severity, warning, critical, same_severity, IncidentCondition, IncidentPolicy,
}
use mocop.Incidents.Tracker.State.{Runtime, Tracker, sustained, row, tables_of}
use mocop.Incidents.Tracker.Update.{streak, confirmed}
use mocop.Incidents.Tracker.Phase.{
  Phase, Open, idle, candidate, open_incident, begin, present, absent, step, slot, entries,
}
use mocop.Incidents.Tracker.Refine.{advances}
use mocop.Incidents.Tracker.Runs.{Phases, AtPhases, next_phases, final_phases, run, run-refines}

module _ (rt : Runtime) (policy : IncidentPolicy) (host key : String) where
  -- The sample is of the host, does not observe the condition, and counts towards its recovery.
  abbrev pub IsHealthy : IncidentCondition → String → ProbeResult → Type 0
  IsHealthy condition opening result =
      ((result.host == host) ≡ true)
      × (get (policy.conditions result) key ≡ none)
      × (advances rt policy result key condition opening ≡ true)

  -- An incident that is resolved after `n` healthy samples in all.
  abbrev recovering : Open → ℕ → Phase
  recovering o n =
      if leb o.condition.recovery_cycles n
      then idle
      else open_incident (record o { healthy = n; change = none })

  idle_stays :
      (results : List ProbeResult) (phases : Phases) (condition : IncidentCondition)
      (opening : String)
      → phases host key ≡ idle
      → All (IsHealthy condition opening) results
      → final_phases rt policy results phases host key ≡ idle
  unfolding step absent
  idle_stays [] phases c opening at healthy = at
  idle_stays (result ∷ results) phases c opening at ((here, unseen, _), later) =
      idle_stays results (next_phases rt policy result phases) c opening (rw (here, unseen, at))
        later

  healthy_step :
      (result : ProbeResult) (o : Open)
      → IsHealthy o.condition o.opened_at result
      → step rt
          (advances rt policy result key)
          (get (policy.conditions result) key)
          (open_incident o)
        ≡ recovering o (o.healthy + 1)
  unfolding step absent
  healthy_step result o (_, unseen, counts) = rw (unseen, counts) (ground arith)

  final_healthy :
      (result : ProbeResult) (results : List ProbeResult) (phases : Phases) (o : Open)
      → phases host key ≡ open_incident o
      → All (IsHealthy o.condition o.opened_at) (result ∷ results)
      → final_phases rt policy (result ∷ results) phases host key
        ≡ recovering o (o.healthy + length (result ∷ results))
  final_healthy result [] phases o at (now, later) =
      rw (now.0, at, healthy_step result o now) (ground arith)
  final_healthy result (second ∷ results) phases o at (now, later) =
      elim (Bool-cases (leb o.condition.recovery_cycles (o.healthy + 1))) [
        | inl resolved ↦
            idle_stays (second ∷ results) (next_phases rt policy result phases) o.condition
              o.opened_at (rw (now.0, at, healthy_step result o now, resolved)) later
            ∙ ground arith
        | inr waits ↦
            final_healthy second results (next_phases rt policy result phases)
              (record o { healthy = o.healthy + 1; change = none })
              (rw (now.0, at, healthy_step result o now, waits)) later
            ∙ ap (recovering o) (
                let n : ℕ = length results in
                let e : o.healthy + 1 + suc n ≡ o.healthy + suc (suc n) = omega arith in e)
      ]

  -- Healthy samples in a row resolve an open incident exactly when their number, with the healthy
  -- samples before them, reaches its `recovery_cycles`; before that it is active as it was.
  pub run_healthy :
      (result : ProbeResult) (results : List ProbeResult) (t : Tracker) (phases : Phases) (o : Open)
      → AtPhases t phases
      → phases host key ≡ open_incident o
      → All (IsHealthy o.condition o.opened_at) (result ∷ results)
      → (t' : Tracker) × (run rt policy (result ∷ results) t ≡ some t')
        × (get (row t'.active host) key ≡ (
            if leb o.condition.recovery_cycles (o.healthy + length (result ∷ results))
            then none
            else some o.condition))
  unfolding tables_of slot entries
  run_healthy result results t phases o h at healthy =
      let (t', e, f, _) = run-refines rt policy (result ∷ results) t phases h in
      let final = final_healthy result results phases o at healthy in
      let active = ap (λ s. s.active) (rw final at (f host key)) in (t', e, active ∙ ground arith)

  -- The sample is of the host and confirms the condition: it reads outside the recovery margin, at the
  -- severity, with the cycle count, and with no duration floor.
  abbrev pub IsConfirming : Severity → ℕ → ProbeResult → Type 0
  IsConfirming severity cycles result =
      (new : IncidentCondition) × ((result.host == host) ≡ true)
      × (get (policy.conditions result) key ≡ some new)
      × (new.below_threshold ≡ false)
      × (new.severity ≡ severity)
      × (new.open_after_cycles ≡ cycles)
      × (leb_ℤ new.open_after_seconds (pos 0) ≡ true)

  -- The condition has been confirmed `n` times in a row, out of `cycles`.
  abbrev Counted : Severity → ℕ → ℕ → Phase → Type 0
  Counted severity cycles n idle = (n ≡ 0) × (n < cycles)
  Counted severity cycles n (candidate c count since) =
      (count ≡ n) × (n < cycles) × (c.severity ≡ severity)
  Counted severity cycles n (open_incident o) = cycles ≤ n

  same_severity_refl : (s : Severity) → same_severity s s ≡ true
  same_severity_refl warning = refl
  same_severity_refl critical = refl

  confirming_step :
      (severity : Severity) (cycles n : ℕ) (result : ProbeResult) (p : Phase)
      → IsConfirming severity cycles result
      → Counted severity cycles n p
      → Counted severity cycles
          (n + 1)
          (step rt (advances rt policy result key) (get (policy.conditions result) key) p)
  unfolding step present begin confirmed streak sustained
  confirming_step severity cycles n result idle (new, _, seen, up, same, needs, floor) counted =
      rw seen (ground (arith, same_severity_refl severity))
  confirming_step severity cycles n result (candidate c m since)
        (new, _, seen, up, same, needs, floor) counted =
      rw seen (ground (arith, same_severity_refl severity))
  confirming_step severity cycles n result (open_incident o) (new, _, seen, up, same, needs, floor)
        counted =
      rw seen (omega arith)

  final_confirming :
      (severity : Severity) (cycles n : ℕ) (results : List ProbeResult) (phases : Phases)
      → Counted severity cycles n (phases host key)
      → All (IsConfirming severity cycles) results
      → Counted severity cycles
          (n + length results)
          (final_phases rt policy results phases host key)
  final_confirming severity cycles n [] phases counted confirming =
      subst (λ m. Counted severity cycles m (phases host key))
        (let e : n ≡ n + 0 = omega arith in e) counted
  final_confirming severity cycles n (result ∷ results) phases counted (now, later) =
      let moved = confirming_step severity cycles n result (phases host key) now counted in
      let rest =
        final_confirming severity cycles (n + 1) results (next_phases rt policy result phases)
          (rw now.1 moved) later in
      subst
        (λ m.
          Counted severity cycles m
            (final_phases rt policy results (next_phases rt policy result phases) host key))
        (let k : ℕ = length results in let e : n + 1 + k ≡ n + suc k = omega arith in e) rest

  Counted-active :
      (severity : Severity) (cycles n : ℕ) (p : Phase)
      → Counted severity cycles n p
      → is_some (entries p).active ≡ leb cycles n
  unfolding entries
  Counted-active severity cycles n idle c = ground arith
  Counted-active severity cycles n (candidate _ _ _) c = ground arith
  Counted-active severity cycles n (open_incident o) c = ground arith

  -- A condition that is neither open nor pending opens exactly with the `cycles`-th confirming sample
  -- in a row: after fewer it is not active, and from then on it is.
  pub run_confirming :
      (severity : Severity) (cycles : ℕ) (results : List ProbeResult) (t : Tracker)
      (phases : Phases)
      → 0 < cycles
      → AtPhases t phases
      → phases host key ≡ idle
      → All (IsConfirming severity cycles) results
      → (t' : Tracker) × (run rt policy results t ≡ some t')
        × (has (row t'.active host) key ≡ leb cycles (length results))
  unfolding tables_of slot
  run_confirming severity cycles results t phases positive h at confirming =
      let (t', e, f, _) = run-refines rt policy results t phases h in
      let start : Counted severity cycles 0 (phases host key) = rw at (refl, positive) in
      let counted = final_confirming severity cycles 0 results phases start confirming in
      (
        t',
        e,
        ap (λ s. is_some s.active) (f host key)
            ∙ Counted-active severity cycles (0 + length results) _ counted
            ∙ ap (leb cycles) (zero-add (length results)),
      )

  gap_step :
      (result : ProbeResult) (p : Phase)
      → ((new : IncidentCondition)
          → get (policy.conditions result) key ≡ some new
          → new.below_threshold ≡ true)
      → is_some (entries p).active ≡ false
      → step rt (advances rt policy result key) (get (policy.conditions result) key) p ≡ idle
  unfolding step present absent entries
  gap_step result (open_incident o) gap closed = cc
  gap_step result idle gap closed = elim (Option-cases (get (policy.conditions result) key)) [
    | inl e ↦ rw e
    | inr (new, e) ↦ rw e (ground (arith, gap new e))
  ]
  gap_step result (candidate c n s) gap closed =
      elim (Option-cases (get (policy.conditions result) key)) [
        | inl e ↦ rw e
        | inr (new, e) ↦ rw e (ground (arith, gap new e))
      ]

  -- A sample of the host that does not confirm the condition breaks its streak: if the condition is
  -- not open, nothing is left of the confirmations before, and it must be confirmed from the start.
  pub gap_forgets :
      (result : ProbeResult) (t : Tracker) (phases : Phases)
      → AtPhases t phases
      → (result.host == host) ≡ true
      → ((new : IncidentCondition)
          → get (policy.conditions result) key ≡ some new
          → new.below_threshold ≡ true)
      → has (row t.active host) key ≡ false
      → (t' : Tracker) × (run rt policy (result ∷ []) t ≡ some t')
        × (has (row t'.active host) key ≡ false)
        × (has (row t'.candidates host) key ≡ false)
  unfolding tables_of slot
  gap_forgets result t phases h here gap closed =
      let (t', e, f, _) = run-refines rt policy (result ∷ []) t phases h in
      let inactive : is_some (entries (phases host key)).active ≡ false =
        sym (ap (λ s. is_some s.active) (h host key)) ∙ closed in
      let after : slot (tables_of t' host) key ≡ entries idle =
        rw (here, gap_step result (phases host key) gap inactive) at (f host key) in
      (
        t',
        e,
        unfold entries in ap (λ s. is_some s.active) after,
        unfold entries in ap (λ s. is_some s.candidate) after,
      )
