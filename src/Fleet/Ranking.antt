-- ===== src/Fleet/Ranking.antt =====
-- The order in which capacity.py ranks its candidates.
use mocop.Base.{
  ℕ, ◌+◌, ◌≡◌, refl, sym, ◌∙◌, Bool, true, false, List, [], ◌∷◌, if◌then◌else◌, arith, Bool-cases,
  inl, inr,
}
use mocop.Base.Sort.{sort_by, insert_by}
use mocop.Fleet.Capacity.{
  Candidate, Matching, Limits, CapacityRequest, Condition, Server, ranks_before, count_satisfying,
  match_capacity, match_servers,
}

-- After a candidate that falls short, no candidate satisfies.
abbrev pub SatisfyingFirst : List Candidate → Type 0
SatisfyingFirst [] = Unit
SatisfyingFirst (c ∷ cs) = (c.satisfies ≡ false → count_satisfying cs ≡ 0) × SatisfyingFirst cs

one_if : Bool → ℕ
one_if b = if b then 1 else 0

insert-count :
    (x : Candidate) (ys : List Candidate)
    → count_satisfying (insert_by ranks_before x ys) ≡ one_if x.satisfies + count_satisfying ys
unfolding count_satisfying one_if
insert-count x [] = refl
insert-count x (y ∷ ys) = elim (Bool-cases (ranks_before x y)) [
  | inl b ↦ rw b refl
  | inr b ↦ rw b (omega (arith, insert-count x ys))
]

sort-count :
    (xs : List Candidate) → count_satisfying (sort_by ranks_before xs) ≡ count_satisfying xs
unfolding count_satisfying one_if
sort-count [] = refl
sort-count (x ∷ xs) = insert-count x (sort_by ranks_before xs) ∙ rw (sort-count xs) refl

satisfying_first :
    (x y : Candidate) → x.satisfies ≡ true → y.satisfies ≡ false → ranks_before x y ≡ true
unfolding ranks_before
satisfying_first x y h k = ground arith

short_later :
    (x y : Candidate) → x.satisfies ≡ false → ranks_before x y ≡ true → y.satisfies ≡ false
unfolding ranks_before
short_later x y h k = ground arith

insert-SatisfyingFirst :
    (x : Candidate) (ys : List Candidate)
    → SatisfyingFirst ys
    → SatisfyingFirst (insert_by ranks_before x ys)
unfolding count_satisfying one_if
insert-SatisfyingFirst x [] h = (λ e. refl, tt)
insert-SatisfyingFirst x (y ∷ ys) h = elim (Bool-cases (ranks_before x y)) [
  | inl b ↦ rw b (
    (λ e.
        let s : y.satisfies ≡ false = short_later x y e b in
        let n : count_satisfying ys ≡ 0 = h.0 s in rw (s, n) refl),
    h,
  )
  | inr b ↦ rw b (
    (λ e. elim (Bool-cases x.satisfies) [
      | inl s ↦ absurd (let r : ranks_before x y ≡ true = satisfying_first x y s e in ground arith)
      | inr s ↦ insert-count x ys ∙ rw (s, h.0 e) refl
    ]),
    insert-SatisfyingFirst x ys h.1,
  )
]

sort-SatisfyingFirst : (xs : List Candidate) → SatisfyingFirst (sort_by ranks_before xs)
sort-SatisfyingFirst [] = tt
sort-SatisfyingFirst (x ∷ xs) =
    insert-SatisfyingFirst x (sort_by ranks_before xs) (sort-SatisfyingFirst xs)

-- Among the candidates that match_capacity returns none that satisfies the request comes after one that
-- falls short, and the number that it reports is the number of satisfying candidates returned.
pub match_capacity-SatisfyingFirst :
    (limits : Limits) (request : CapacityRequest) (conditions : List Condition)
    (servers : List Server)
    → SatisfyingFirst (match_capacity limits request conditions servers).0.candidates
      × ((match_capacity limits request conditions servers).1
          ≡ count_satisfying (match_capacity limits request conditions servers).0.candidates)
unfolding match_capacity
match_capacity-SatisfyingFirst limits request conditions servers =
    let start : Matching = record {
      candidates = [];
      excluded_maintenance = 0;
      excluded_health = 0;
    } in
    let m : Matching = match_servers limits request conditions servers start in
    (sort-SatisfyingFirst m.candidates, sym (sort-count m.candidates))
