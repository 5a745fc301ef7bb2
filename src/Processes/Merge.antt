-- ===== src/Processes/Merge.antt =====
-- `merge_intervals` against the set of moments that its intervals cover.
use mocop.Base.{◌≡◌, refl, Bool, ◌&&◌, ◌||◌, List, [], ◌∷◌, any, arith, Bool-cases, inl, inr, ◌∙◌}
use mocop.Base.Int.{Float, pos, leb_ℤ, ltb_ℤ, ◌-ℤ◌, int_laws, ◌≤ℤ◌, ◌<ℤ◌}
use mocop.Base.Sort.{sort_by, insert_by}
use mocop.Processes.Occupancy.{
  Interval, interval_leb, merge_from, merge_sorted, merge_intervals, max_ℤ,
}

-- Whether an interval holds the device at a moment.
unfoldable pub holds_at : Float → Interval → Bool
holds_at t interval = leb_ℤ interval.start t && ltb_ℤ t interval.end

unfoldable pub covered : List Interval → Float → Bool
covered intervals t = any (holds_at t) intervals

-- In order of start, none before `from`.
abbrev pub StartsFrom : Float → List Interval → Type 0
StartsFrom from [] = Unit
StartsFrom from (interval ∷ rest) = (from ≤ℤ interval.start) × StartsFrom interval.start rest

-- In order with a gap before each interval, none touching the end that is given.
abbrev pub Apart : Float → List Interval → Type 0
Apart end [] = Unit
Apart end (interval ∷ rest) = (end <ℤ interval.start) × Apart interval.end rest

insert-covered :
    (t : Float) (x : Interval) (xs : List Interval)
    → covered (insert_by interval_leb x xs) t ≡ (holds_at t x || covered xs t)
unfolding covered
insert-covered t x [] = refl
insert-covered t x (y ∷ ys) = ground (arith, insert-covered t x ys)

sort-covered : (t : Float) (xs : List Interval) → covered (sort_by interval_leb xs) t ≡ covered xs t
unfolding covered
sort-covered t [] = refl
sort-covered t (x ∷ xs) = insert-covered t x (sort_by interval_leb xs) ∙ rw (sort-covered t xs) refl

insert-StartsFrom :
    (from : Float) (x : Interval) (xs : List Interval)
    → from ≤ℤ x.start
    → StartsFrom from xs
    → StartsFrom from (insert_by interval_leb x xs)
insert-StartsFrom from x [] h k = (h, tt)
insert-StartsFrom from x (y ∷ ys) h k = elim (Bool-cases (interval_leb x y)) [
  | inl b ↦ rw b (h, (ground (arith), k.1))
  | inr b ↦ rw b (k.0, insert-StartsFrom y.start x ys (ground (arith)) k.1)
]

abbrev InOrder : List Interval → Type 0
InOrder [] = Unit
InOrder (interval ∷ rest) = StartsFrom interval.start rest

insert-InOrder :
    (x : Interval) (xs : List Interval) → InOrder xs → InOrder (insert_by interval_leb x xs)
insert-InOrder x [] h = tt
insert-InOrder x (y ∷ ys) h = elim (Bool-cases (interval_leb x y)) [
  | inl b ↦ rw b (ground (arith), h)
  | inr b ↦ rw b (insert-StartsFrom y.start x ys (ground (arith)) h)
]

sort-InOrder : (xs : List Interval) → InOrder (sort_by interval_leb xs)
sort-InOrder [] = tt
sort-InOrder (x ∷ xs) = insert-InOrder x (sort_by interval_leb xs) (sort-InOrder xs)

StartsFrom-le : (a b : Float) (xs : List Interval) → a ≤ℤ b → StartsFrom b xs → StartsFrom a xs
StartsFrom-le a b [] h k = tt
StartsFrom-le a b (x ∷ xs) h k = (omega arith, k.1)

merge_from-covered :
    (t : Float) (last : Interval) (rest : List Interval)
    → StartsFrom last.start rest
    → covered (merge_from last rest) t ≡ (holds_at t last || covered rest t)
unfolding covered merge_from holds_at
merge_from-covered t last [] h = refl
merge_from-covered t last (x ∷ rest) h = elim (Bool-cases (leb_ℤ x.start last.end)) [
  | inl b ↦ rw b (
      merge_from-covered t (record last { end = max_ℤ last.end x.end }) rest
        (StartsFrom-le last.start x.start rest h.0 h.1)
      ∙ ground arith)
  | inr b ↦ rw b (
      rw
        (merge_from-covered t (record x { sampled_seconds = pos 0; idle_seconds = pos 0 }) rest h.1)
        refl)
]

merge_from-Apart :
    (last : Interval) (rest : List Interval) (end : Float)
    → StartsFrom last.start rest
    → end <ℤ last.start
    → Apart end (merge_from last rest)
unfolding merge_from
merge_from-Apart last [] end h k = (k, tt)
merge_from-Apart last (x ∷ rest) end h k = elim (Bool-cases (leb_ℤ x.start last.end)) [
  | inl b ↦ rw b (
      merge_from-Apart (record last { end = max_ℤ last.end x.end }) rest end
        (StartsFrom-le last.start x.start rest h.0 h.1) k)
  | inr b ↦ rw b (
    k,
    merge_from-Apart (record x { sampled_seconds = pos 0; idle_seconds = pos 0 }) rest last.end h.1
        (ground arith),
  )
]

-- Each interval starts after the one before it ends.
abbrev pub Disjoint : List Interval → Type 0
Disjoint [] = Unit
Disjoint (interval ∷ rest) = Apart interval.end rest

Apart-Disjoint : (end : Float) (xs : List Interval) → Apart end xs → Disjoint xs
Apart-Disjoint end [] h = tt
Apart-Disjoint end (x ∷ xs) h = h.1

merge_sorted-covered :
    (t : Float) (xs : List Interval) → InOrder xs → covered (merge_sorted xs) t ≡ covered xs t
unfolding merge_sorted covered holds_at
merge_sorted-covered t [] h = refl
merge_sorted-covered t (x ∷ xs) h =
    merge_from-covered t (record x { sampled_seconds = pos 0; idle_seconds = pos 0 }) xs h

merge_sorted-Disjoint : (xs : List Interval) → InOrder xs → Disjoint (merge_sorted xs)
unfolding merge_sorted
merge_sorted-Disjoint [] h = tt
merge_sorted-Disjoint (x ∷ xs) h =
    let fresh : Interval = record x { sampled_seconds = pos 0; idle_seconds = pos 0 } in
    let end : Float = x.start -ℤ pos 1 in
    Apart-Disjoint end (merge_from fresh xs) (merge_from-Apart fresh xs end h (omega int_laws))

-- merge_intervals covers exactly the moments that the given intervals cover, and each of its intervals
-- starts after the one before it ends.
pub merge_intervals-covered :
    (intervals : List Interval)
    → ((t : Float) → covered (merge_intervals intervals) t ≡ covered intervals t)
      × Disjoint (merge_intervals intervals)
unfolding merge_intervals
merge_intervals-covered intervals =
    let sorted : List Interval = sort_by interval_leb intervals in
    (
      λ t. merge_sorted-covered t sorted (sort-InOrder intervals) ∙ sort-covered t intervals,
      merge_sorted-Disjoint sorted (sort-InOrder intervals),
    )
