-- ===== src/Incidents/Tracker/Recover.antt =====
-- The second loop of `update`: with the tables in order it raises no `KeyError`, moves each key that it
-- visits as Phase.antt says, and leaves the others.
use mathlib.Core.Option
use mocop.Base.{
  String, ◌≡◌, refl, sym, ◌∙◌, Bool, true, false, not, ◌||◌, none, some, List, [], ◌∷◌, All,
  if◌then◌else◌, string_key, ◌==◌, ==_iff, Bool-cases, inl, inr, arith,
}
use mocop.Base.Dict.{
  Dict, IsDistinct, contains, get, get-put_self, get-remove_self, get-put_ne, get-remove_ne,
}
use mocop.Models.{ProbeResult}
use mocop.Incidents.Types.{IncidentCondition}
use mocop.Incidents.Domains.{telemetry_unknown}
use mocop.Incidents.Tracker.State.{Runtime, Work}
use mocop.Incidents.Tracker.Update.{recover_active, recover, recover_all, delayed}
use mocop.Incidents.Tracker.Phase.{Open, open_incident, absent, slot, entries, InPhase}

entries-injective : (o o' : Open) → entries (open_incident o) ≡ entries (open_incident o') → o ≡ o'
unfolding entries
entries-injective o o' h = ground arith

module _ (rt : Runtime) (result : ProbeResult) (domains : List String) where
  -- Whether an online sample that does not observe the condition speaks for its recovery.
  unfoldable pub speaks : String → IncidentCondition → String → Bool
  speaks key old opening =
      not (delayed rt result opening || telemetry_unknown old.category key domains)

  recover_active-InPhase :
      (key : String) (w : Work) (o : Open)
      → InPhase w.tables key (open_incident o)
      → o.change ≡ none
      → InPhase
          (recover_active rt result key o.condition w).tables
          key
          (absent (λ _ _. true) (open_incident o))
  unfolding recover_active slot absent entries
  recover_active-InPhase key w o h quiet = grind (arith, get-put_self, get-remove_self)

  slot-recover_active_ne :
      (key j : String) (old : IncidentCondition) (w : Work)
      → (key == j) ≡ false
      → slot (recover_active rt result key old w).tables j ≡ slot w.tables j
  unfolding recover_active slot
  slot-recover_active_ne key j old w h = grind (arith, get-put_ne, get-remove_ne)

  -- What one round does, in the absence of a `KeyError`.
  recovered : String → Open → Work → Work
  recovered key o w =
      if speaks key o.condition o.opened_at then recover_active rt result key o.condition w else w

  recover-eq :
      (previous : Dict String IncidentCondition) (key : String) (w : Work) (o : Open)
      → get previous key ≡ some o.condition
      → InPhase w.tables key (open_incident o)
      → recover rt result domains previous key w ≡ some (recovered key o w)
  unfolding recover recovered speaks slot entries
  recover-eq previous key w o same h = ground arith

  recovered-InPhase :
      (key : String) (w : Work) (o : Open)
      → InPhase w.tables key (open_incident o)
      → o.change ≡ none
      → InPhase (recovered key o w).tables key (absent (speaks key) (open_incident o))
  unfolding recovered absent entries
  recovered-InPhase key w o h quiet = ground (arith, recover_active-InPhase key w o h quiet)

  slot-recovered_ne :
      (key j : String) (o : Open) (w : Work)
      → (key == j) ≡ false
      → slot (recovered key o w).tables j ≡ slot w.tables j
  unfolding recovered
  slot-recovered_ne key j o w h = ground (arith, slot-recover_active_ne key j o.condition w h)

  -- The keys are open incidents in `w`, those that the sample began with, with no severity change
  -- left to confirm.
  abbrev pub AreOpen : Dict String IncidentCondition → Work → List String → Type 0
  AreOpen previous w = All (λ key.
      (o : Open) × (get previous key ≡ some o.condition)
      × (o.change ≡ none)
      × InPhase w.tables key (open_incident o))

  AreOpen-of_slot_eq :
      (previous : Dict String IncidentCondition) (key : String) (w v : Work) (gone : List String)
      → contains gone key ≡ false
      → ((j : String) → (key == j) ≡ false → slot v.tables j ≡ slot w.tables j)
      → AreOpen previous w gone
      → AreOpen previous v gone
  unfolding contains
  AreOpen-of_slot_eq previous key w v [] absent_key same h = tt
  AreOpen-of_slot_eq previous key w v (j ∷ gone) absent_key same ((o, e, quiet, ph), rest) =
      let other : (key == j) ≡ false = ground (arith, ==_iff j key, ==_iff key j) in
      let later : contains gone key ≡ false = ground arith in
      ((o, e, quiet, same j other ∙ ph), AreOpen-of_slot_eq previous key w v gone later same rest)

  -- What the whole loop leaves at a key, visited or not.
  pub record Recovered (previous : Dict String IncidentCondition) (w : Work) (gone : List String)
      (w' : Work) : Type 0 where
    pub returns : recover_all rt result domains previous gone w ≡ some w'
    pub others : (k : String) → contains gone k ≡ false → slot w'.tables k ≡ slot w.tables k
    pub visited :
        (k : String) (o : Open)
        → contains gone k ≡ true
        → o.change ≡ none
        → InPhase w.tables k (open_incident o)
        → InPhase w'.tables k (absent (speaks k) (open_incident o))

  pub recover_all-Recovered :
      (previous : Dict String IncidentCondition) (gone : List String) (w : Work)
      → IsDistinct gone
      → AreOpen previous w gone
      → (w' : Work) × Recovered previous w gone w'
  unfolding recover_all contains Option.bind
  recover_all-Recovered previous [] w d h =
      (w, record { returns = refl; others = λ k _. refl; visited = λ k o absurd_key _ _. cc })
  recover_all-Recovered previous (key ∷ gone) w d ((o, e, quiet, ph), rest) =
      let v : Work = recovered key o w in
      let (w', r) =
        recover_all-Recovered previous gone v d.1
          (AreOpen-of_slot_eq previous key w v gone d.0 (λ j. slot-recovered_ne key j o w) rest) in
      (
        w',
        record {
          returns = rw (recover-eq previous key w o e ph) r.returns;
          others = λ k away.
              let other : (key == k) ≡ false = ground arith in
              let later : contains gone k ≡ false = ground arith in
              r.others k later ∙ slot-recovered_ne key k o w other;
          visited = λ k o' there calm start. elim (Bool-cases (key == k)) [
            | inl here ↦
                let e' : key ≡ k = (==_iff key k).0 here in
                let away : contains gone k ≡ false = rw e' at d.0 in
                let same : o ≡ o' = entries-injective o o' (sym (rw e' at ph) ∙ start) in
                r.others k away ∙ rw (e', same) (recovered-InPhase k w o' start calm)
            | inr other ↦
                let later : contains gone k ≡ true = ground arith in
                r.visited k o' later calm (slot-recovered_ne key k o w other ∙ start)
          ];
        },
      )
