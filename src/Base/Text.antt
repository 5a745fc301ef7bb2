-- ===== src/Base/Text.antt =====
-- Python's `str(int)`, `str.lower` on ASCII, and tests on texts.
use Prim.Native.Nat.{ℕ, zero, suc, ◌/◌, ◌%◌}
use Prim.Native.Char.{Char, code}
use Prim.Native.String.{String, ◌++◌}
use mathlib.Core.Bool.{Bool, false, ◌||◌}
use mocop.Base.Tests.{ltb, nat_beq, if◌then◌else◌}
use mocop.Base.Eq.{◌==◌, string_key}

abbrev pub digit : ℕ → String
digit zero = "0"
digit (suc zero) = "1"
digit (suc (suc zero)) = "2"
digit (suc (suc (suc zero))) = "3"
digit (suc (suc (suc (suc zero)))) = "4"
digit (suc (suc (suc (suc (suc zero))))) = "5"
digit (suc (suc (suc (suc (suc (suc zero)))))) = "6"
digit (suc (suc (suc (suc (suc (suc (suc zero))))))) = "7"
digit (suc (suc (suc (suc (suc (suc (suc (suc zero)))))))) = "8"
digit _ = "9"

-- A number has at most as many digits as its successor counts.
digits_from : ℕ → ℕ → String → String
digits_from zero n rest = rest
digits_from (suc fuel) n rest =
    let text = digit (n % 10) ++ rest in
    let more = digits_from fuel (n / 10) text in if ltb n 10 then text else more

-- `str(n)`
unfoldable pub str_nat : ℕ → String
unfolding digits_from
str_nat n = digits_from (suc n) n ""

-- The lower-case letter of an upper-case ASCII letter, by position in the two alphabets.
lower_from : String → String → Char → Char
lower_from (String.◌∷◌ u upper) (String.◌∷◌ l lower) c =
    let rest = lower_from upper lower c in if nat_beq (code u) (code c) then l else rest
lower_from _ _ c = c

unfoldable pub lower : String → String
unfolding lower_from
lower String.[] = String.[]
lower (String.◌∷◌ c text) =
    String.◌∷◌ (lower_from "ABCDEFGHIJKLMNOPQRSTUVWXYZ" "abcdefghijklmnopqrstuvwxyz" c) (lower text)

-- `":" in text`
unfoldable pub has_colon : String → Bool
has_colon String.[] = false
has_colon (String.◌∷◌ c text) = nat_beq (code c) b':' || has_colon text

-- `text.endswith(suffix)`
unfoldable pub ends_with : String → String → Bool
ends_with String.[] suffix = String.[] == suffix
ends_with (String.◌∷◌ c text) suffix = String.◌∷◌ c text == suffix || ends_with text suffix
