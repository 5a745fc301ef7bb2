-- ===== src/Base/Members.antt =====
-- What sorting and selection keep of a list: what holds of all members, how many are of a kind, and that
-- keys are distinct.
use Prim.Native.Nat.{◌≤◌}
use mathlib.Core.Path.{◌≡◌, refl, sym, ap, ◌∙◌}
use mathlib.Core.Bool.{Bool, true, false, ◌||◌}
use mathlib.Core.Logic.{inl, inr}
use mathlib.Core.List.{List, [], ◌∷◌, ◌++◌, map}
use native.Mathlib.Omega.{arith}
use mocop.Base.Eq.{Key, ◌==◌, ==_iff}
use mocop.Base.Tests.{Bool-cases}
use mocop.Base.Lists.{All, filter, length}
use mocop.Base.Sort.{insert_by, sort_by}
use mocop.Base.Dict.{contains, IsDistinct}

module _ {ℓ κ μ} {A : Type ℓ} {P : A → Type κ} {Q : A → Type μ} where
  pub All-imply : (xs : List A) → ((a : A) → P a → Q a) → All P xs → All Q xs
  All-imply [] f h = tt
  All-imply (x ∷ xs) f h = (f x h.0, All-imply xs f h.1)

module _ {ℓ κ μ} {A : Type ℓ} (P : A → Type κ) (Q : A → Type μ) where
  pub All-zip : (xs : List A) → All P xs → All Q xs → All (λ a. P a × Q a) xs
  All-zip [] h k = tt
  All-zip (x ∷ xs) h k = ((h.0, k.0), All-zip xs h.1 k.1)

module _ {ℓ κ} {A : Type ℓ} (P : A → Type κ) where
  pub All-append : (xs ys : List A) → All P xs → All P ys → All P (xs ++ ys)
  All-append [] ys h k = k
  All-append (x ∷ xs) ys h k = (h.0, All-append xs ys h.1 k)

  pub All-filter : (p : A → Bool) (xs : List A) → All P xs → All P (filter p xs)
  All-filter p [] h = tt
  All-filter p (x ∷ xs) h = elim (Bool-cases (p x)) [
    | inl b ↦ rw b (h.0, All-filter p xs h.1)
    | inr b ↦ rw b (All-filter p xs h.1)
  ]

  pub filter-All : (p : A → Bool) (xs : List A) → ((a : A) → p a ≡ true → P a) → All P (filter p xs)
  filter-All p [] f = tt
  filter-All p (x ∷ xs) f = elim (Bool-cases (p x)) [
    | inl b ↦ rw b (f x b, filter-All p xs f)
    | inr b ↦ rw b (filter-All p xs f)
  ]

  pub All-insert_by :
      (le : A → A → Bool) (x : A) (xs : List A) → P x → All P xs → All P (insert_by le x xs)
  All-insert_by le x [] h k = (h, tt)
  All-insert_by le x (y ∷ ys) h k = elim (Bool-cases (le x y)) [
    | inl b ↦ rw b (h, k)
    | inr b ↦ rw b (k.0, All-insert_by le x ys h k.1)
  ]

  pub All-sort_by : (le : A → A → Bool) (xs : List A) → All P xs → All P (sort_by le xs)
  All-sort_by le [] h = tt
  All-sort_by le (x ∷ xs) h = All-insert_by le x (sort_by le xs) h.0 (All-sort_by le xs h.1)

module _ {ℓ κ μ} {A : Type ℓ} {B : Type κ} (P : B → Type μ) where
  pub All-map : (f : A → B) (xs : List A) → All (λ a. P (f a)) xs → All P (map f xs)
  All-map f [] h = tt
  All-map f (x ∷ xs) h = (h.0, All-map f xs h.1)

module _ {ℓ} {A : Type ℓ} where
  pub length-filter-filter-le :
      (p q : A → Bool) (xs : List A) → length (filter p (filter q xs)) ≤ length (filter p xs)
  length-filter-filter-le p q [] = omega arith
  length-filter-filter-le p q (x ∷ xs) = ground (arith, length-filter-filter-le p q xs)

  pub length-filter-le :
      (p q : A → Bool) (xs : List A)
      → ((a : A) → p a ≡ true → q a ≡ true)
      → length (filter p xs) ≤ length (filter q xs)
  length-filter-le p q [] f = omega arith
  length-filter-le p q (x ∷ xs) f = ground (arith, length-filter-le p q xs f, f x)

  pub map-id : (xs : List A) → map (λ x. x) xs ≡ xs
  map-id [] = refl
  map-id (x ∷ xs) = ap (λ rest. x ∷ rest) (map-id xs)

  insert_by-count :
      (le : A → A → Bool) (p : A → Bool) (x : A) (xs : List A)
      → length (filter p (insert_by le x xs)) ≡ length (filter p (x ∷ xs))
  insert_by-count le p x [] = refl
  insert_by-count le p x (y ∷ ys) = ground (arith, insert_by-count le p x ys)

  pub sort_by-count :
      (le : A → A → Bool) (p : A → Bool) (xs : List A)
      → length (filter p (sort_by le xs)) ≡ length (filter p xs)
  sort_by-count le p [] = refl
  sort_by-count le p (x ∷ xs) =
      ground (arith, insert_by-count le p x (sort_by le xs), sort_by-count le p xs)

  filter-true : (xs : List A) → filter (λ x. true) xs ≡ xs
  filter-true [] = refl
  filter-true (x ∷ xs) = ap (λ rest. x ∷ rest) (filter-true xs)

  pub length-sort_by : (le : A → A → Bool) (xs : List A) → length (sort_by le xs) ≡ length xs
  length-sort_by le xs =
      ap length (sym (filter-true (sort_by le xs)))
      ∙ sort_by-count le (λ x. true) xs
      ∙ ap length (filter-true xs)

module _ {ℓ κ} {A : Type ℓ} {K : Type κ} ⦃e : Key K⦄ where
  insert_by-contains :
      (le : A → A → Bool) (f : A → K) (x : A) (xs : List A) (k : K)
      → contains (map f (insert_by le x xs)) k ≡ (f x == k || contains (map f xs) k)
  unfolding contains
  insert_by-contains le f x [] k = refl
  insert_by-contains le f x (y ∷ ys) k = ground (arith, insert_by-contains le f x ys k)

  insert_by-IsDistinct :
      (le : A → A → Bool) (f : A → K) (x : A) (xs : List A)
      → contains (map f xs) (f x) ≡ false
      → IsDistinct (map f xs)
      → IsDistinct (map f (insert_by le x xs))
  unfolding contains
  insert_by-IsDistinct le f x [] n h = (refl, tt)
  insert_by-IsDistinct le f x (y ∷ ys) n h = elim (Bool-cases (le x y)) [
    | inl b ↦ rw b (n, h)
    | inr b ↦ rw b (
      ground (
        arith,
        insert_by-contains le f x ys (f y),
        h.0,
        n,
        ==_iff (f x) (f y),
        ==_iff (f y) (f x),
      ),
      insert_by-IsDistinct le f x ys (ground (arith, n)) h.1,
    )
  ]

  sort_by-contains :
      (le : A → A → Bool) (f : A → K) (xs : List A) (k : K)
      → contains (map f (sort_by le xs)) k ≡ contains (map f xs) k
  unfolding contains
  sort_by-contains le f [] k = refl
  sort_by-contains le f (x ∷ xs) k =
      insert_by-contains le f x (sort_by le xs) k ∙ rw (sort_by-contains le f xs k) refl

  pub sort_by-IsDistinct :
      (le : A → A → Bool) (f : A → K) (xs : List A)
      → IsDistinct (map f xs)
      → IsDistinct (map f (sort_by le xs))
  sort_by-IsDistinct le f [] h = tt
  sort_by-IsDistinct le f (x ∷ xs) h =
      insert_by-IsDistinct le f x (sort_by le xs) (sort_by-contains le f xs (f x) ∙ h.0)
        (sort_by-IsDistinct le f xs h.1)

  filter-contains :
      (p : A → Bool) (f : A → K) (xs : List A) (k : K)
      → contains (map f xs) k ≡ false
      → contains (map f (filter p xs)) k ≡ false
  unfolding contains
  filter-contains p f [] k h = h
  filter-contains p f (x ∷ xs) k h = ground (arith, filter-contains p f xs k)

  pub filter-IsDistinct :
      (p : A → Bool) (f : A → K) (xs : List A)
      → IsDistinct (map f xs)
      → IsDistinct (map f (filter p xs))
  filter-IsDistinct p f [] h = tt
  filter-IsDistinct p f (x ∷ xs) h = elim (Bool-cases (p x)) [
    | inl b ↦ rw b (filter-contains p f xs (f x) h.0, filter-IsDistinct p f xs h.1)
    | inr b ↦ rw b (filter-IsDistinct p f xs h.1)
  ]
