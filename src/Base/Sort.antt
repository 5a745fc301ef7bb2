-- ===== src/Base/Sort.antt =====
-- Python's `sorted` as a stable insertion sort, and the order of texts and pairs.
use Prim.Native.Nat.{ℕ}
use Prim.Native.Char.{code}
use Prim.Native.String.{String}
use mathlib.Core.Bool.{Bool, true, false, ◌||◌, ◌&&◌}
use mathlib.Core.List.{List, [], ◌∷◌}
use mocop.Base.Tests.{ltb, nat_beq, if◌then◌else◌}

module _ {ℓ} {A : Type ℓ} (le : A → A → Bool) where
  abbrev pub insert_by : A → List A → List A
  insert_by x [] = x ∷ []
  insert_by x (y ∷ ys) = let rest = insert_by x ys in if le x y then x ∷ y ∷ ys else y ∷ rest

  abbrev pub sort_by : List A → List A
  sort_by [] = []
  sort_by (x ∷ xs) = insert_by x (sort_by xs)

-- Texts are ordered by their code points.
unfoldable pub string_leb : String → String → Bool
string_leb String.[] s = true
string_leb (String.◌∷◌ c s) String.[] = false
string_leb (String.◌∷◌ c s) (String.◌∷◌ d t) =
    let rest = string_leb s t in ltb (code c) (code d) || (nat_beq (code c) (code d) && rest)

-- Pairs of a number and a text.
unfoldable pub pair_leb : ℕ × String → ℕ × String → Bool
unfolding string_leb
pair_leb (m, s) (n, t) = ltb m n || (nat_beq m n && string_leb s t)
