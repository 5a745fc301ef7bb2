-- ===== src/Incidents/Tracker/Runs.antt =====
-- Samples of any hosts in any order: `update` never raises, and each condition of each host lives the
-- life of Phase.antt by itself.
use mathlib.Core.Option
use mocop.Base.{
  String, ◌≡◌, refl, false, Option, some, List, [], ◌∷◌, if◌then◌else◌, string_key, ◌==◌, ==_iff,
  Bool-cases, inl, inr, arith,
}
use mocop.Base.Dict.{get, has, get-put, get-put_self, get-put_ne}
use mocop.Models.{ProbeResult}
use mocop.Incidents.Types.{IncidentEvent, IncidentPolicy}
use mocop.Incidents.Tracker.State.{Runtime, Tables, EventLog, Tracker, tables_of, store_tables}
use mocop.Incidents.Tracker.Update.{update}
use mocop.Incidents.Tracker.Phase.{Phase, idle, step, InPhase}
use mocop.Incidents.Tracker.Refine.{advances, apply_sample-refines}

tables_of-store_tables_self :
    (t : Tracker) (host : String) (tables : Tables) (log : EventLog)
    → tables_of (store_tables t host tables log) host ≡ tables
unfolding tables_of store_tables
tables_of-store_tables_self t host tables log = simp get-put_self

tables_of-store_tables_ne :
    (t : Tracker) (host other : String) (tables : Tables) (log : EventLog)
    → (host == other) ≡ false
    → tables_of (store_tables t host tables log) other ≡ tables_of t other
unfolding tables_of store_tables
tables_of-store_tables_ne t host other tables log h = grind (arith, get-put_ne)

-- The phase of every condition of every host.
abbrev pub Phases : Type 0
Phases = String → String → Phase

abbrev pub AtPhases : Tracker → Phases → Type 0
AtPhases t phases = (host key : String) → InPhase (tables_of t host) key (phases host key)

-- A host without an entry in `_active` has nothing open and nothing pending.
abbrev pub IsKnown : Tracker → Phases → Type 0
IsKnown t phases =
    (host : String) → has t.active host ≡ false → (key : String) → phases host key ≡ idle

module _ (rt : Runtime) (policy : IncidentPolicy) where
  -- The phases after one sample: those of its host move, the others stay.
  abbrev pub next_phases : ProbeResult → Phases → Phases
  next_phases result phases host key =
      if result.host == host
      then step rt (advances rt policy result key) (get (policy.conditions result) key)
          (phases host key)
      else phases host key

  -- What `update` returns in given phases.
  pub record Updated (result : ProbeResult) (t : Tracker) (phases : Phases) : Type 0 where
    pub after : Tracker
    pub created : List IncidentEvent
    pub returns : update rt policy result t ≡ some (after, created)
    pub at : AtPhases after (next_phases result phases)
    pub known : IsKnown t phases → IsKnown after (next_phases result phases)

  -- From a tracker whose tables are in order, one sample raises no `KeyError`, moves each condition
  -- of its host by one step of the machine, and leaves the other hosts alone. A host still without an
  -- entry in `_active` stays idle.
  pub update-refines :
      (result : ProbeResult) (t : Tracker) (phases : Phases)
      → AtPhases t phases
      → Updated result t phases
  unfolding update store_tables
  update-refines result t phases h =
      let (w, e, f) =
        apply_sample-refines rt policy result (tables_of t result.host) t.log (phases result.host)
          (h result.host) in
      record {
        after = store_tables t result.host w.tables w.log;
        created = w.created;
        returns = rw e;
        at = λ host key. elim (Bool-cases (result.host == host)) [
          | inl here ↦
              let same : result.host ≡ host = (==_iff result.host host).0 here in
              rw (here, ← same, tables_of-store_tables_self t result.host w.tables w.log) (f key)
          | inr other ↦
              rw (tables_of-store_tables_ne t result.host host w.tables w.log other, other)
                (h host key)
        ];
        known = λ k host gone key. elim (Bool-cases (result.host == host)) [
          | inl here ↦ ground (arith, get-put t.active result.host host w.tables.active)
          | inr other ↦
              let before : has t.active host ≡ false =
                ground (arith, get-put t.active result.host host w.tables.active) in
              rw other (k host before key)
        ];
      }

  -- Samples one after another.
  unfoldable pub run : List ProbeResult → Tracker → Option Tracker
  run [] t = some t
  run (result ∷ results) t = Option.bind (update rt policy result t) (λ after. run results after.0)

  abbrev pub final_phases : List ProbeResult → Phases → Phases
  final_phases [] phases = phases
  final_phases (result ∷ results) phases = final_phases results (next_phases result phases)

  -- The whole history of samples, of any hosts in any order, is processed without an error, and
  -- leaves each condition where its own machine ends. Hosts without an entry stay idle throughout.
  pub run-refines :
      (results : List ProbeResult) (t : Tracker) (phases : Phases)
      → AtPhases t phases
      → (t' : Tracker) × (run results t ≡ some t')
        × AtPhases t' (final_phases results phases)
        × (IsKnown t phases → IsKnown t' (final_phases results phases))
  unfolding run Option.bind
  run-refines [] t phases h = (t, refl, h, λ k. k)
  run-refines (result ∷ results) t phases h =
      let u : Updated result t phases = update-refines result t phases h in
      let (t', e, f, k) = run-refines results u.after (next_phases result phases) u.at in
      (t', rw u.returns e, f, λ known. k (u.known known))
