-- ===== src/Incidents/Policy/Sample.antt =====
-- `conditions` as a whole: the caches are read, and then the blocks run.
use mocop.Base.{
  ℕ, String, ◌≡◌, refl, ◌∙◌, Bool, true, false, ◌&&◌, Option, none, some, List, [], ◌∷◌, string_key,
  arith, Bool-cases, inl, inr,
}
use mocop.Base.Dict.{get}
use mocop.Models.{ProbeResult, online, SystemMetrics, DiskMetrics}
use mocop.Incidents.Policy.Config.{Arithmetic, ThresholdConfig, IncidentConfig}
use mocop.Incidents.Policy.Conditions.{Conditions, add_availability, add_count}
use mocop.Incidents.Policy.Host.{add_disks, add_system}
use mocop.Incidents.Policy.Device.{conditions_of}
use mocop.Incidents.Policy.Overrides.{
  PolicyState, thresholds_for, thresholds_from, excluded_disk_mounts, computed_thresholds,
  computed_exclusions, group_override,
}
use mocop.Incidents.Policy.Coherent.{
  Coherent, thresholds_from-Coherent, reads_current, perform-Coherent, read_exclusions, perform,
}

abbrev any_disk : List DiskMetrics → Bool
any_disk [] = false
any_disk (disk ∷ disks) = true

abbrev has_disks : Option SystemMetrics → Bool
has_disks none = false
has_disks (some system) = any_disk system.disks

-- The excluded mounts are looked up in the loop over the disks, so only where there is one.
unfoldable pub mounts_for : Bool → String → PolicyState → List String × PolicyState
mounts_for true host p = excluded_disk_mounts p host
mounts_for false host p = ([], p)

module _ (a : Arithmetic) (incidents : IncidentConfig) where
  unfoldable pub conditions : PolicyState → ProbeResult → Conditions × PolicyState
  conditions p result =
      let (th, p1) = thresholds_for p result.host in
      let (mounts, p2) = mounts_for (online result && has_disks result.system) result.host p1 in
      (conditions_of a incidents th mounts (get p.expected_gpu_counts result.host) result, p2)

  add_disks-mounts :
      (th : ThresholdConfig) (at : String) (m n : List String) (disks : List DiskMetrics)
      (d : Conditions)
      → any_disk disks ≡ false
      → add_disks a incidents th at m disks d ≡ add_disks a incidents th at n disks d
  unfolding add_disks
  add_disks-mounts th at m n [] d h = refl
  add_disks-mounts th at m n (x ∷ xs) d h = cc

  add_system-mounts :
      (th : ThresholdConfig) (at : String) (m n : List String) (s : Option SystemMetrics)
      (d : Conditions)
      → has_disks s ≡ false
      → add_system a incidents th at m s d ≡ add_system a incidents th at n s d
  unfolding add_system
  add_system-mounts th at m n none d h = refl
  add_system-mounts th at m n (some s) d h = add_disks-mounts th at m n s.disks _ h

  conditions_of-mounts :
      (th : ThresholdConfig) (m n : List String) (count : Option ℕ) (result : ProbeResult)
      → (online result && has_disks result.system) ≡ false
      → conditions_of a incidents th m count result ≡ conditions_of a incidents th n count result
  unfolding conditions_of
  conditions_of-mounts th m n count result h = elim (Bool-cases (online result)) [
    | inl b ↦
        let d : Conditions =
          add_count a incidents count result (add_availability a incidents result []) in
        let e : has_disks result.system ≡ false = ground (arith) in
        rw b (rw (add_system-mounts th result.observed_at m n result.system d e) refl)
    | inr b ↦ rw b refl
  ]

  thresholds_for-exclusions :
      (p : PolicyState) (host : String) (o : Option ThresholdConfig)
      → computed_exclusions (thresholds_from p host o).1 host ≡ computed_exclusions p host
  unfolding thresholds_from computed_exclusions group_override
  thresholds_for-exclusions p host none = refl
  thresholds_for-exclusions p host (some th) = refl

  mounts_for-Coherent :
      (b : Bool) (host : String) (p : PolicyState) → Coherent p → Coherent (mounts_for b host p).1
  unfolding mounts_for perform
  mounts_for-Coherent true host p c = perform-Coherent (read_exclusions host) p c
  mounts_for-Coherent false host p c = c

  conditions_of-mounts_for :
      (b : Bool) (th : ThresholdConfig) (count : Option ℕ) (p : PolicyState) (result : ProbeResult)
      → (online result && has_disks result.system) ≡ b
      → Coherent p
      → conditions_of a incidents th (mounts_for b result.host p).0 count result
        ≡ conditions_of a incidents th (computed_exclusions p result.host) count result
  unfolding mounts_for
  conditions_of-mounts_for true th count p result e c = rw ((reads_current p result.host c).1) refl
  conditions_of-mounts_for false th count p result e c =
      conditions_of-mounts th [] (computed_exclusions p result.host) count result e

  -- With coherent caches, the conditions of a sample are those that the thresholds and the excluded
  -- mounts in force for its host give, whatever the caches hold, and the caches stay coherent.
  pub conditions-conditions_of :
      (p : PolicyState) (result : ProbeResult)
      → Coherent p
      → ((conditions p result).0
          ≡ conditions_of a incidents
              (computed_thresholds p result.host)
              (computed_exclusions p result.host)
              (get p.expected_gpu_counts result.host)
              result)
        × Coherent (conditions p result).1
  unfolding conditions thresholds_for perform
  conditions-conditions_of p result c =
      let host : String = result.host in
      let b : Bool = online result && has_disks result.system in
      let count : Option ℕ = get p.expected_gpu_counts host in
      let o : Option ThresholdConfig = get p.effective_thresholds host in
      let p1 : PolicyState = (thresholds_from p host o).1 in
      let th : ThresholdConfig = (thresholds_from p host o).0 in
      let c1 : Coherent p1 = thresholds_from-Coherent p host o c in
      let current : th ≡ computed_thresholds p host = (reads_current p host c).0 in
      (
        conditions_of-mounts_for b th count p1 result refl c1
            ∙ rw (thresholds_for-exclusions p host o, current) refl,
        mounts_for-Coherent b host p1 c1,
      )
