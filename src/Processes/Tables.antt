-- ===== src/Processes/Tables.antt =====
-- Tables of processes: sorting them, and entries under their own keys.
use mocop.Base.{
  ◌≡◌, refl, ◌∙◌, Bool, true, false, none, some, [], ◌∷◌, if◌then◌else◌, string_key, ◌==◌, ==_iff,
  arith, Bool-cases, inl, inr,
}
use mocop.Base.Dict.{Dict, IsDict, get}
use mocop.Base.Sort.{sort_by, insert_by, pair_leb}
use mocop.Processes.Types.{ProcessKey, process_key}

module _ {ℓ} {A : Type ℓ} where
  abbrev pub item_leb : ProcessKey × A → ProcessKey × A → Bool
  item_leb x y = pair_leb x.0 y.0

  -- Sorting does not change what a key has.
  pub insert-get :
      (j : ProcessKey) (v : A) (d : Dict ProcessKey A) (k : ProcessKey)
      → get d j ≡ none
      → get (insert_by item_leb (j, v) d) k ≡ (if j == k then some v else get d k)
  unfolding get
  insert-get j v [] k h = refl
  insert-get j v ((i, w) ∷ d) k h =
      let ij : (i == j) ≡ false = ground (arith) in
      let rest : get (insert_by item_leb (j, v) d) k ≡ (if j == k then some v else get d k) =
        insert-get j v d k (ground (arith)) in
      elim (Bool-cases (pair_leb j i)) [
        | inl b ↦ rw b refl
        | inr b ↦ rw (b, rest) (ground (arith, ==_iff i j, ==_iff i k, ==_iff j k))
      ]

  pub sort-get :
      (d : Dict ProcessKey A) (k : ProcessKey) → IsDict d → get (sort_by item_leb d) k ≡ get d k
  unfolding get
  sort-get [] k h = refl
  sort-get ((j, v) ∷ d) k h =
      insert-get j v (sort_by item_leb d) k (sort-get d j h.1 ∙ h.0) ∙ rw (sort-get d k h.1) refl

  pub insert-IsDict :
      (j : ProcessKey) (v : A) (d : Dict ProcessKey A)
      → get d j ≡ none
      → IsDict d
      → IsDict (insert_by item_leb (j, v) d)
  unfolding get
  insert-IsDict j v [] h k = (refl, tt)
  insert-IsDict j v ((i, w) ∷ d) h k =
      let ij : (i == j) ≡ false = ground (arith) in
      let ji : (j == i) ≡ false = ground (arith, ==_iff i j, ==_iff j i) in
      let gone : get d j ≡ none = ground (arith) in
      elim (Bool-cases (pair_leb j i)) [
        | inl b ↦ rw b (h, k)
        | inr b ↦ rw b (insert-get j v d i gone ∙ rw ji k.0, insert-IsDict j v d gone k.1)
      ]

  pub sort-IsDict : (d : Dict ProcessKey A) → IsDict d → IsDict (sort_by item_leb d)
  sort-IsDict [] h = tt
  sort-IsDict ((j, v) ∷ d) h =
      insert-IsDict j v (sort_by item_leb d) (sort-get d j h.1 ∙ h.0) (sort-IsDict d h.1)

  module _ (own : A → ProcessKey) where
    -- Each entry is filed under its own key.
    abbrev pub Filed : Dict ProcessKey A → Type ℓ
    Filed d = (k : ProcessKey) (v : A) → get d k ≡ some v → own v ≡ k

    abbrev pub OwnKeys : Dict ProcessKey A → Type 0
    OwnKeys [] = Unit
    OwnKeys ((k, v) ∷ d) = (own v ≡ k) × OwnKeys d

    pub Filed-OwnKeys : (d : Dict ProcessKey A) → IsDict d → Filed d → OwnKeys d
    unfolding get
    Filed-OwnKeys [] h f = tt
    Filed-OwnKeys ((j, v) ∷ d) h f = (
      f j v (let s : (j == j) ≡ true = ground (arith, ==_iff j j) in rw s refl),
      Filed-OwnKeys d h.1 (λ k w g. elim (Bool-cases (j == k)) [
        | inl s ↦
            let same : j ≡ k = (==_iff j k).0 s in let gone : get d k ≡ none = rw (← same) h.0 in cc
        | inr s ↦ f k w (rw s g)
      ]),
    )
