-- ===== src/Fleet/Densest.antt =====
-- The group that the densest window holds, of SimultaneousLossCorrelator in correlation.py.
use mocop.Base.{
  ◌≤◌, String, ◌≡◌, refl, Bool, true, false, Option, List, [], ◌∷◌, filter, map, All, length,
  if◌then◌else◌, string_key, ltb, arith, Bool-cases, inl, inr, if-case, if-split,
}
use mocop.Base.Int.{Float, leb_ℤ, ◌≤ℤ◌, ◌-ℤ◌, int_laws}
use mocop.Base.Dict.{Dict}
use mocop.Base.Sort.{sort_by, insert_by}
use mocop.Base.Members.{
  All-imply, All-insert_by, length-filter-filter-le, length-filter-le, sort_by-count,
}
use mocop.Fleet.Correlation.{Incident, Loss, loss_leb, losses_of, group_from, densest}

abbrev pub host_of : Loss → String
host_of loss = loss.1

-- In order of time.
abbrev Ordered : List Loss → Type 0
Ordered [] = Unit
Ordered (x ∷ xs) = All (λ y. x.0 ≤ℤ y.0) xs × Ordered xs

leb-le : (x y : Loss) → loss_leb x y ≡ true → x.0 ≤ℤ y.0
leb-le x y h = ground arith

not_leb-le : (x y : Loss) → loss_leb x y ≡ false → y.0 ≤ℤ x.0
not_leb-le x y h = ground arith

insert-Ordered : (x : Loss) (ys : List Loss) → Ordered ys → Ordered (insert_by loss_leb x ys)
insert-Ordered x [] h = (tt, tt)
insert-Ordered x (y ∷ ys) h = elim (Bool-cases (loss_leb x y)) [
  | inl b ↦
      let first : x.0 ≤ℤ y.0 = leb-le x y b in
      rw b ((first, All-imply ys (λ z l. omega (arith, first, l)) h.0), h)
  | inr b ↦ rw b (
    All-insert_by (λ z. y.0 ≤ℤ z.0) loss_leb x ys (not_leb-le x y b) h.0,
    insert-Ordered x ys h.1,
  )
]

sort-Ordered : (xs : List Loss) → Ordered (sort_by loss_leb xs)
sort-Ordered [] = tt
sort-Ordered (x ∷ xs) = insert-Ordered x (sort_by loss_leb xs) (sort-Ordered xs)

module _ (epoch_seconds : Option String → Option Float) (window : Float) where
  -- No two of the losses are further apart than the window.
  abbrev pub Within : List Loss → Type 0
  Within group = All (λ a. All (λ b. a.0 -ℤ b.0 ≤ℤ window) group) group

  -- The losses that follow `x` inside its window are within the window of each other.
  close-Within :
      (x : Loss) (group : List Loss)
      → All (λ y. (x.0 ≤ℤ y.0) × (y.0 -ℤ x.0 ≤ℤ window)) group
      → Within group
  close-Within x group h =
      All-imply group (λ a l. All-imply group (λ b m. omega (int_laws, l.0, l.1, m.0, m.1)) h) h

  -- A group of losses whose hosts are those of a list.
  pub record Group (Ok : List Loss → Type 0) (hosts : List String) : Type 0 where
    pub losses : List Loss
    pub same_hosts : hosts ≡ map host_of losses
    pub ok : Ok losses
    pub within : Within losses

  close-after :
      (x : Loss) (ys : List Loss)
      → All (λ y. x.0 ≤ℤ y.0) ys
      → All
          (λ y. (x.0 ≤ℤ y.0) × (y.0 -ℤ x.0 ≤ℤ window))
          (filter (λ y. leb_ℤ (y.0 -ℤ x.0) window) ys)
  close-after x [] h = tt
  close-after x (y ∷ ys) h = elim (Bool-cases (leb_ℤ (y.0 -ℤ x.0) window)) [
    | inl b ↦ rw b ((h.0, ground (arith, b)), close-after x ys h.1)
    | inr b ↦ rw b (close-after x ys h.1)
  ]

  -- The group of one window.
  group_from-Group :
      (Ok : List Loss → Type 0) (x : Loss) (xs : List Loss)
      → ((p : Loss → Bool) (ys : List Loss) → Ok ys → Ok (filter p ys))
      → Ordered (x ∷ xs)
      → Ok (x ∷ xs)
      → Group Ok (group_from epoch_seconds window (x ∷ xs))
  unfolding group_from
  group_from-Group Ok x xs keeps h k =
      let close : Loss → Bool = λ y. leb_ℤ (y.0 -ℤ x.0) window in
      let after : All (λ y. x.0 ≤ℤ y.0) (x ∷ xs) = (omega arith, h.0) in
      record {
        losses = filter close (x ∷ xs);
        same_hosts = refl;
        ok = keeps close (x ∷ xs) k;
        within = close-Within x (filter close (x ∷ xs)) (close-after x (x ∷ xs) after);
      }

  pub densest-Group :
      (Ok : List Loss → Type 0)
      → ((p : Loss → Bool) (ys : List Loss) → Ok ys → Ok (filter p ys))
      → ((y : Loss) (ys : List Loss) → Ok (y ∷ ys) → Ok ys)
      → (losses : List Loss) (best : List String) → Ordered losses
      → Ok losses
      → Group Ok best
      → Group Ok (densest epoch_seconds window losses best)
  unfolding densest
  densest-Group Ok keeps tails [] best h k g = g
  densest-Group Ok keeps tails (x ∷ xs) best h k g =
      densest-Group Ok keeps tails xs
        (if ltb (length best) (length (group_from epoch_seconds window (x ∷ xs)))
          then group_from epoch_seconds window (x ∷ xs)
          else best)
        h.1 (tails x xs k)
        (if-case (Group Ok) (ltb (length best) (length (group_from epoch_seconds window (x ∷ xs))))
          (group_from epoch_seconds window (x ∷ xs)) best (group_from-Group Ok x xs keeps h k) g)

  pub sorted-Group :
      (Ok : List Loss → Type 0)
      → ((p : Loss → Bool) (ys : List Loss) → Ok ys → Ok (filter p ys))
      → ((y : Loss) (ys : List Loss) → Ok (y ∷ ys) → Ok ys)
      → (losses : List Loss) → Ok (sort_by loss_leb losses)
      → Ok []
      → Group Ok (densest epoch_seconds window (sort_by loss_leb losses) [])
  sorted-Group Ok keeps tails losses k none_ok =
      densest-Group Ok keeps tails (sort_by loss_leb losses) [] (sort-Ordered losses) k
        (record { losses = []; same_hosts = refl; ok = none_ok; within = tt })

  densest-best :
      (losses : List Loss) (best : List String)
      → length best ≤ length (densest epoch_seconds window losses best)
  unfolding densest
  densest-best [] best = omega arith
  densest-best (loss ∷ losses) best =
      let group : List String = group_from epoch_seconds window (loss ∷ losses) in
      if-split (λ next. length best ≤ length (densest epoch_seconds window losses next))
        (ltb (length best) (length group)) group best
        (λ b. ground (arith, b, densest-best losses group)) (λ _. densest-best losses best)

  densest-first :
      (loss : Loss) (losses : List Loss) (best : List String)
      → length (group_from epoch_seconds window (loss ∷ losses))
        ≤ length (densest epoch_seconds window (loss ∷ losses) best)
  unfolding densest
  densest-first loss losses best =
      let group : List String = group_from epoch_seconds window (loss ∷ losses) in
      if-split (λ next. length group ≤ length (densest epoch_seconds window losses next))
        (ltb (length best) (length group)) group best (λ _. densest-best losses group)
        (λ b. ground (arith, b, densest-best losses best))

  map-length : (xs : List Loss) → length (map host_of xs) ≡ length xs
  map-length [] = refl
  map-length (x ∷ xs) = omega (arith, map-length xs)

  selection-le :
      (p : Loss → Bool) (losses : List Loss) (best : List String)
      → ((a b : Loss) → p a ≡ true → p b ≡ true → a.0 -ℤ b.0 ≤ℤ window)
      → length (filter p losses) ≤ length (densest epoch_seconds window losses best)
  unfolding densest group_from
  selection-le p [] best close = omega arith
  selection-le p (x ∷ xs) best close = elim (Bool-cases (p x)) [
    | inl b ↦
        let q : Loss → Bool = λ y. leb_ℤ (y.0 -ℤ x.0) window in
        let fits : length (filter p (x ∷ xs)) ≤ length (filter q (x ∷ xs)) =
          length-filter-le p q (x ∷ xs)
            (λ a m. let c : a.0 -ℤ x.0 ≤ℤ window = close a x m b in ground (arith, c)) in
        let names : length (map host_of (filter q (x ∷ xs))) ≡ length (filter q (x ∷ xs)) =
          map-length (filter q (x ∷ xs)) in
        omega (arith, fits, names, densest-first x xs best)
    | inr b ↦ rw b (
        selection-le p xs
          (if ltb (length best) (length (group_from epoch_seconds window (x ∷ xs)))
            then group_from epoch_seconds window (x ∷ xs)
            else best)
          close)
  ]

  -- Within what the table of the losses holds, as often as it holds it.
  abbrev pub Taken : List Loss → List Loss → Type 0
  Taken all group = (q : Loss → Bool) → length (filter q group) ≤ length (filter q all)

  -- The hosts that the loop keeps are those of losses of the table, each taken at most as often as it is
  -- there, of which no two are further apart than the window; and whichever losses are selected of which
  -- no two are further apart than the window, the table holds no more of them than hosts are kept.
  pub densest-selection :
      (affected : Dict String Incident) (p : Loss → Bool)
      → ((a b : Loss) → p a ≡ true → p b ≡ true → a.0 -ℤ b.0 ≤ℤ window)
      → Group (Taken (losses_of epoch_seconds window affected)) (
          densest epoch_seconds window
            (sort_by loss_leb (losses_of epoch_seconds window affected))
            [])
        × (length (filter p (losses_of epoch_seconds window affected))
            ≤ length (
                densest epoch_seconds window
                  (sort_by loss_leb (losses_of epoch_seconds window affected))
                  []))
  densest-selection affected p close =
      let all : List Loss = losses_of epoch_seconds window affected in
      (
        sorted-Group (Taken all) (λ r ys t q. omega (arith, length-filter-filter-le q r ys, t q))
            (λ y ys t q. ground (arith, t q)) all (λ q. omega (arith, sort_by-count loss_leb q all))
            (λ q. omega arith),
        omega (arith, sort_by-count loss_leb p all, selection-le p (sort_by loss_leb all) [] close),
      )
