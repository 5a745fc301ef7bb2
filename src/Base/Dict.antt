-- ===== src/Base/Dict.antt =====
-- Python's `dict` and `set`: insertion-ordered association lists and lists of members, over any
-- type with an equality test.
use mathlib.Core.Path.{◌≡◌, refl, ◌∙◌}
use mathlib.Core.Bool.{Bool, true, false, ◌||◌, ◌&&◌}
use mathlib.Core.Logic.{inl, inr}
use mathlib.Core.Option.{Option, none, some}
use mathlib.Core.List.{List, [], ◌∷◌, ◌++◌}
use native.Mathlib.Omega.{arith}
use mocop.Base.Eq.{Key, ◌==◌, ==_iff}
use mocop.Base.Lists.{All, filter}
use mocop.Base.Tests.{if◌then◌else◌, is_some, Bool-cases}

abbrev pub Dict {ℓ κ} : Type ℓ → Type κ → Type (ℓ ⊔ κ)
Dict K V = List (K × V)

module _ {ℓ κ} {K : Type ℓ} {V : Type κ} where
  -- list(d)
  abbrev pub keys : Dict K V → List K
  keys [] = []
  keys ((k, v) ∷ d) = k ∷ keys d

module _ {ℓ} {K : Type ℓ} ⦃e : Key K⦄ where
  -- k in xs
  unfoldable pub contains : List K → K → Bool
  contains [] k = false
  contains (x ∷ xs) k = x == k || contains xs k

  abbrev pub IsDistinct : List K → Type 0
  IsDistinct [] = Unit
  IsDistinct (x ∷ xs) = (contains xs x ≡ false) × IsDistinct xs

  -- The members of `set(xs)`, each once.
  unfoldable pub distinct : List K → List K
  unfolding contains
  distinct [] = []
  distinct (x ∷ xs) = let rest = distinct xs in if contains rest x then rest else x ∷ rest

  pub contains-filter :
      (p : K → Bool) (xs : List K) (k : K) → contains (filter p xs) k ≡ (p k && contains xs k)
  unfolding contains
  contains-filter p [] k = ground arith
  contains-filter p (x ∷ xs) k = ground (arith, contains-filter p xs k, ==_iff x k)

  pub contains-append :
      (xs ys : List K) (k : K) → contains (xs ++ ys) k ≡ (contains xs k || contains ys k)
  unfolding contains
  contains-append [] ys k = refl
  contains-append (x ∷ xs) ys k = ground (arith, contains-append xs ys k)

  -- One more at the end.
  pub append-IsDistinct :
      (xs : List K) (k : K) → contains xs k ≡ false → IsDistinct xs → IsDistinct (xs ++ k ∷ [])
  unfolding contains
  append-IsDistinct [] k fresh h = (refl, tt)
  append-IsDistinct (x ∷ xs) k fresh h = (
    contains-append xs (k ∷ []) x ∙ ground (arith, h.0, ==_iff x k, ==_iff k x),
    append-IsDistinct xs k (ground (arith)) h.1,
  )

  pub All-of_contains {κ} :
      {P : K → Type κ} (xs : List K) → ((k : K) → contains xs k ≡ true → P k) → All P xs
  unfolding contains
  All-of_contains [] h = tt
  All-of_contains (x ∷ xs) h =
      (h x (ground (arith, ==_iff x x)), All-of_contains xs (λ k m. h k (ground (arith))))

  pub contains-distinct : (xs : List K) (k : K) → contains (distinct xs) k ≡ contains xs k
  unfolding contains distinct
  contains-distinct [] k = refl
  contains-distinct (x ∷ xs) k =
      ground (arith, contains-distinct xs k, contains-distinct xs x, ==_iff x k)

  pub distinct-IsDistinct : (xs : List K) → IsDistinct (distinct xs)
  unfolding distinct
  distinct-IsDistinct [] = tt
  distinct-IsDistinct (x ∷ xs) = ground (arith, distinct-IsDistinct xs)

module _ {ℓ κ} {K : Type ℓ} {V : Type κ} ⦃e : Key K⦄ where
  -- d.get(k)
  unfoldable pub get : Dict K V → K → Option V
  get [] k = none
  get ((j, v) ∷ d) k = if j == k then some v else get d k

  -- d[k] = v: an old key keeps its place, a new one goes last
  unfoldable pub put : Dict K V → K → V → Dict K V
  put [] k v = (k, v) ∷ []
  put ((j, w) ∷ d) k v = if j == k then (j, v) ∷ d else (j, w) ∷ put d k v

  -- d.pop(k, None)
  unfoldable pub remove : Dict K V → K → Dict K V
  remove [] k = []
  remove ((j, w) ∷ d) k = let rest = remove d k in if j == k then rest else (j, w) ∷ rest

  -- k in d
  abbrev pub has : Dict K V → K → Bool
  has d k = is_some (get d k)

  -- {k: v for k, v in d.items() if p(k)}
  unfoldable pub restrict : (K → Bool) → Dict K V → Dict K V
  restrict p [] = []
  restrict p ((j, w) ∷ d) = let rest = restrict p d in if p j then (j, w) ∷ rest else rest

  -- The keys of a dictionary are distinct.
  abbrev pub IsDict : Dict K V → Type κ
  IsDict [] = Unit
  IsDict ((k, v) ∷ d) = (get d k ≡ none) × IsDict d

  pub get-nil : (k : K) → get [] k ≡ none
  unfolding get
  get-nil k = refl

  pub get-put :
      (d : Dict K V) (k j : K) (v : V) → get (put d k v) j ≡ (if k == j then some v else get d j)
  unfolding get put
  get-put [] k j v = refl
  get-put ((i, w) ∷ d) k j v = ground (arith, get-put d k j v, ==_iff i k, ==_iff i j, ==_iff k j)

  pub get-remove :
      (d : Dict K V) (k j : K) → get (remove d k) j ≡ (if k == j then none else get d j)
  unfolding get remove
  get-remove [] k j = ground arith
  get-remove ((i, w) ∷ d) k j = ground (arith, get-remove d k j, ==_iff i k, ==_iff i j, ==_iff k j)

  pub get-restrict :
      (p : K → Bool) (d : Dict K V) (j : K) → get (restrict p d) j ≡ (if p j then get d j else none)
  unfolding get restrict
  get-restrict p [] j = ground arith
  get-restrict p ((i, w) ∷ d) j = ground (arith, get-restrict p d j, ==_iff i j)

  pub get-put_self : (d : Dict K V) (k : K) (v : V) → get (put d k v) k ≡ some v
  get-put_self d k v = ground (arith, get-put d k k v, ==_iff k k)

  pub get-put_ne : (d : Dict K V) (k j : K) (v : V) → (k == j) ≡ false → get (put d k v) j ≡ get d j
  get-put_ne d k j v h = ground (arith, get-put d k j v)

  pub get-remove_self : (d : Dict K V) (k : K) → get (remove d k) k ≡ none
  get-remove_self d k = ground (arith, get-remove d k k, ==_iff k k)

  pub get-remove_ne : (d : Dict K V) (k j : K) → (k == j) ≡ false → get (remove d k) j ≡ get d j
  get-remove_ne d k j h = ground (arith, get-remove d k j)

  pub contains-keys : (d : Dict K V) (k : K) → contains (keys d) k ≡ has d k
  unfolding contains get
  contains-keys [] k = refl
  contains-keys ((j, v) ∷ d) k = ground (arith, contains-keys d k)

  pub ruleset dict_laws = (get-nil, get-put, get-remove, get-restrict)

  pub ruleset self_laws = (get-put_self, get-remove_self)

  pub ruleset other_laws = (get-put_ne, get-remove_ne)

module _ {ℓ κ} {K : Type ℓ} {V : Type κ} ⦃e : Key K⦄ where
  pub put-IsDict : (d : Dict K V) (k : K) (v : V) → IsDict d → IsDict (put d k v)
  unfolding put
  put-IsDict [] k v h = (get-nil k, tt)
  put-IsDict ((j, w) ∷ d) k v h = elim (Bool-cases (j == k)) [
    | inl s ↦ rw s h
    | inr s ↦
        let other : (k == j) ≡ false = ground (arith, ==_iff j k, ==_iff k j) in
        rw s (get-put_ne d k j v other ∙ h.0, put-IsDict d k v h.1)
  ]

  pub remove-IsDict : (d : Dict K V) (k : K) → IsDict d → IsDict (remove d k)
  unfolding remove
  remove-IsDict [] k h = tt
  remove-IsDict ((j, w) ∷ d) k h = elim (Bool-cases (j == k)) [
    | inl s ↦ rw s (remove-IsDict d k h.1)
    | inr s ↦
        let other : (k == j) ≡ false = ground (arith, ==_iff j k, ==_iff k j) in
        rw s (get-remove_ne d k j other ∙ h.0, remove-IsDict d k h.1)
  ]

  pub restrict-IsDict : (p : K → Bool) (d : Dict K V) → IsDict d → IsDict (restrict p d)
  unfolding restrict
  restrict-IsDict p [] h = tt
  restrict-IsDict p ((j, w) ∷ d) h = elim (Bool-cases (p j)) [
    | inl s ↦ rw s (get-restrict p d j ∙ rw (s, h.0) refl, restrict-IsDict p d h.1)
    | inr s ↦ rw s (restrict-IsDict p d h.1)
  ]
