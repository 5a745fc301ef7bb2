-- ===== src/Incidents/Policy/Coherent.antt =====
-- The caches of the policy never go stale.
use mocop.Base.{
  ℕ, String, ◌≡◌, refl, Bool, ◌&&◌, Option, none, some, List, [], ◌∷◌, all, string_key, ◌==◌,
  ==_iff, Bool-cases, inl, inr,
}
use mocop.Base.Dict.{Dict, get, put, restrict, contains, keys, get-nil, get-put, get-restrict}
use mocop.Incidents.Policy.Config.{ThresholdConfig}
use mocop.Incidents.Policy.Overrides.{
  IncidentScopeOverrideConfig, PolicyState, thresholds_for, computed_thresholds,
  excluded_disk_mounts, computed_exclusions, update_expected_gpu_counts, update_overrides,
  retain_hosts, group_override, start, thresholds_from, exclusions_from,
}

-- One call of a method of the policy.
pub data PolicyCall : Type 0 where
  read_thresholds : String → PolicyCall
  read_exclusions : String → PolicyCall
  set_counts : Dict String ℕ → PolicyCall
  set_overrides :
      Dict String IncidentScopeOverrideConfig
      → Dict String IncidentScopeOverrideConfig
      → Dict String String
      → PolicyCall
  retain : List String → PolicyCall

unfoldable pub perform : PolicyCall → PolicyState → PolicyState
perform (read_thresholds host) p = (thresholds_for p host).1
perform (read_exclusions host) p = (excluded_disk_mounts p host).1
perform (set_counts counts) p = update_expected_gpu_counts counts p
perform (set_overrides hosts groups members) p = update_overrides hosts groups members p
perform (retain hosts) p = retain_hosts hosts p

unfoldable pub perform_all : List PolicyCall → PolicyState → PolicyState
perform_all [] p = p
perform_all (call ∷ calls) p = perform_all calls (perform call p)

-- Every entry of a cache is what the function computes for its host.
abbrev Caches {ℓ} : {A : Type ℓ} → Dict String A → (String → A) → Type ℓ
Caches {A = A} cache f = (host : String) (a : A) → get cache host ≡ some a → a ≡ f host

pub record Coherent (p : PolicyState) : Type 0 where
  pub thresholds_cached : Caches p.effective_thresholds (computed_thresholds p)
  pub exclusions_cached : Caches p.effective_disk_exclusions (computed_exclusions p)

module _ {ℓ} {A : Type ℓ} (f : String → A) where
  nil-Caches : Caches [] f
  nil-Caches host a h = let e : ◌≡◌ {A = Option A} (get [] host) none = get-nil host in cc

  put-Caches :
      (cache : Dict String A) (host : String) → Caches cache f → Caches (put cache host (f host)) f
  put-Caches cache host c j a h = elim (Bool-cases (host == j)) [
    | inl e ↦
        let same : host ≡ j = (==_iff host j).0 e in
        let found : get (put cache host (f host)) j ≡ some (f host) = rw (get-put, e) refl in cc
    | inr e ↦
        c j a (let g : get (put cache host (f host)) j ≡ get cache j = rw (get-put, e) refl in cc)
  ]

  restrict-Caches :
      (p : String → Bool) (cache : Dict String A) → Caches cache f → Caches (restrict p cache) f
  restrict-Caches p cache c j a h = elim (Bool-cases (p j)) [
    | inl e ↦
        c j a (let g : get (restrict p cache) j ≡ get cache j = rw (get-restrict, e) refl in cc)
    | inr e ↦ let g : get (restrict p cache) j ≡ none = rw (get-restrict, e) refl in cc
  ]

pub thresholds_from-Coherent :
    (p : PolicyState) (host : String) (o : Option ThresholdConfig)
    → Coherent p
    → Coherent (thresholds_from p host o).1
unfolding thresholds_from computed_thresholds computed_exclusions group_override
thresholds_from-Coherent p host (some a) c = c
thresholds_from-Coherent p host none c = record {
  thresholds_cached =
      put-Caches (computed_thresholds p) p.effective_thresholds host c.thresholds_cached;
  exclusions_cached = c.exclusions_cached;
}

pub exclusions_from-Coherent :
    (p : PolicyState) (host : String) (o : Option (List String))
    → Coherent p
    → Coherent (exclusions_from p host o).1
unfolding exclusions_from computed_thresholds computed_exclusions group_override
exclusions_from-Coherent p host (some a) c = c
exclusions_from-Coherent p host none c = record {
  thresholds_cached = c.thresholds_cached;
  exclusions_cached =
      put-Caches (computed_exclusions p) p.effective_disk_exclusions host c.exclusions_cached;
}

retain_hosts-Coherent :
    (hosts : List String) (p : PolicyState) → Coherent p → Coherent (retain_hosts hosts p)
unfolding retain_hosts computed_thresholds computed_exclusions group_override
retain_hosts-Coherent hosts p c =
    let kept : String → Bool = λ host. contains hosts host in
    elim (Bool-cases
      (all kept (keys p.effective_thresholds) && all kept (keys p.effective_disk_exclusions))) [
        | inl e ↦ rw e c
        | inr e ↦ rw e (record {
          thresholds_cached =
              restrict-Caches (computed_thresholds p) kept p.effective_thresholds
                c.thresholds_cached;
          exclusions_cached =
              restrict-Caches (computed_exclusions p) kept p.effective_disk_exclusions
                c.exclusions_cached;
        })
      ]

update_overrides-Coherent :
    (hosts groups : Dict String IncidentScopeOverrideConfig) (members : Dict String String)
    (p : PolicyState)
    → Coherent (update_overrides hosts groups members p)
unfolding update_overrides
update_overrides-Coherent hosts groups members p = record {
  thresholds_cached = nil-Caches (computed_thresholds (update_overrides hosts groups members p));
  exclusions_cached = nil-Caches (computed_exclusions (update_overrides hosts groups members p));
}

update_expected_gpu_counts-Coherent :
    (counts : Dict String ℕ) (p : PolicyState)
    → Coherent p
    → Coherent (update_expected_gpu_counts counts p)
unfolding update_expected_gpu_counts computed_thresholds computed_exclusions group_override
update_expected_gpu_counts-Coherent counts p c = record {
  thresholds_cached = c.thresholds_cached;
  exclusions_cached = c.exclusions_cached;
}

pub perform-Coherent :
    (call : PolicyCall) (p : PolicyState) → Coherent p → Coherent (perform call p)
unfolding perform thresholds_for excluded_disk_mounts
perform-Coherent (read_thresholds host) p c =
    thresholds_from-Coherent p host (get p.effective_thresholds host) c
perform-Coherent (read_exclusions host) p c =
    exclusions_from-Coherent p host (get p.effective_disk_exclusions host) c
perform-Coherent (set_counts counts) p c = update_expected_gpu_counts-Coherent counts p c
perform-Coherent (set_overrides hosts groups members) p c =
    update_overrides-Coherent hosts groups members p
perform-Coherent (retain hosts) p c = retain_hosts-Coherent hosts p c

perform_all-Coherent :
    (calls : List PolicyCall) (p : PolicyState) → Coherent p → Coherent (perform_all calls p)
unfolding perform_all
perform_all-Coherent [] p c = c
perform_all-Coherent (call ∷ calls) p c =
    perform_all-Coherent calls (perform call p) (perform-Coherent call p c)

thresholds_from_current :
    (p : PolicyState) (host : String) (o : Option ThresholdConfig)
    → get p.effective_thresholds host ≡ o
    → Coherent p
    → (thresholds_from p host o).0 ≡ computed_thresholds p host
unfolding thresholds_from
thresholds_from_current p host (some a) e c = c.thresholds_cached host a e
thresholds_from_current p host none e c = refl

exclusions_from_current :
    (p : PolicyState) (host : String) (o : Option (List String))
    → get p.effective_disk_exclusions host ≡ o
    → Coherent p
    → (exclusions_from p host o).0 ≡ computed_exclusions p host
unfolding exclusions_from
exclusions_from_current p host (some a) e c = c.exclusions_cached host a e
exclusions_from_current p host none e c = refl

pub reads_current :
    (p : PolicyState) (host : String)
    → Coherent p
    → ((thresholds_for p host).0 ≡ computed_thresholds p host)
      × ((excluded_disk_mounts p host).0 ≡ computed_exclusions p host)
unfolding thresholds_for excluded_disk_mounts
reads_current p host c = (
  thresholds_from_current p host (get p.effective_thresholds host) refl c,
  exclusions_from_current p host (get p.effective_disk_exclusions host) refl c,
)

-- After any calls of its methods, a policy that began with coherent caches reads for every host the
-- thresholds and the excluded mounts that the overrides in force give.
pub thresholds_for-perform_all :
    (calls : List PolicyCall) (p : PolicyState)
    → Coherent p
    → (host : String)
    → ((thresholds_for (perform_all calls p) host).0
        ≡ computed_thresholds (perform_all calls p) host)
      × ((excluded_disk_mounts (perform_all calls p) host).0
          ≡ computed_exclusions (perform_all calls p) host)
thresholds_for-perform_all calls p c host =
    reads_current (perform_all calls p) host (perform_all-Coherent calls p c)

pub start-Coherent :
    (values : ThresholdConfig) (counts : Dict String ℕ)
    (hosts groups : Dict String IncidentScopeOverrideConfig) (members : Dict String String)
    → Coherent (start values counts hosts groups members)
unfolding start
start-Coherent values counts hosts groups members = record {
  thresholds_cached = nil-Caches (computed_thresholds (start values counts hosts groups members));
  exclusions_cached = nil-Caches (computed_exclusions (start values counts hosts groups members));
}
