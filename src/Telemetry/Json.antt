-- ===== src/Telemetry/Json.antt =====
-- The values of the dictionaries, and Python's conversions of them.
use mocop.Base.{
  ℕ, ◌*◌, String, Bool, true, false, not, ◌||◌, Option, none, some, [], ◌∷◌, if◌then◌else◌,
  string_key, ◌==◌, ltb,
}
use mocop.Base.Int.{Float, pos, ltb_ℤ}
use mocop.Base.Dict.{Dict}
use mocop.Processes.Types.{Workload}

-- A double: the packed records write a missing value as NaN.
pub data Double : Type 0 where
  nan : Double
  finite : Float → Double

pub data Json : Type 0 where
  null : Json
  bool : Bool → Json
  int : ℕ → Json
  double : Double → Json
  text : String → Json
  object : Workload → Json

abbrev pub Document : Type 0
Document = Dict String Json

-- What Python's `str`, `int` and `float` do with a value that is not of the type already, and how many
-- units make 1.0.
pub record Conversions : Type 0 where
  pub unit : ℕ
  pub other_str : Json → String
  pub other_int : Json → Option ℕ
  pub other_float : Json → Option Double

module _ (c : Conversions) where
  -- float(n)
  abbrev pub float_of : ℕ → Double
  float_of n = finite (pos (n * c.unit))

  -- float(b)
  abbrev pub float_of_bool : Bool → Double
  float_of_bool b = if b then float_of 1 else float_of 0

  abbrev pub to_str : Json → String
  to_str (text s) = s
  to_str other = c.other_str other

  abbrev pub to_int : Json → Option ℕ
  to_int (int n) = some n
  to_int other = c.other_int other

  abbrev pub to_float : Json → Option Double
  to_float (double d) = some d
  to_float (int n) = some (float_of n)
  to_float (bool b) = some (float_of_bool b)
  to_float other = c.other_float other

  -- `optional_float(point.get(key))`
  abbrev pub optional_float : Option Json → Option Double
  optional_float (some (double d)) = some d
  optional_float (some (int n)) = some (float_of n)
  optional_float _ = none

-- `bool(x)` of a double
abbrev pub truthy_double : Double → Bool
truthy_double nan = true
truthy_double (finite x) = ltb_ℤ x (pos 0) || ltb_ℤ (pos 0) x

-- `bool(point.get(key))`
abbrev pub truthy : Option Json → Bool
truthy none = false
truthy (some null) = false
truthy (some (bool b)) = b
truthy (some (int n)) = ltb 0 n
truthy (some (double d)) = truthy_double d
truthy (some (text s)) = not (s == "")
truthy (some (object [])) = false
truthy (some (object (x ∷ xs))) = true

abbrev pub packed_optional_float : Option Double → Double
packed_optional_float none = nan
packed_optional_float (some d) = d

-- `unpacked_optional_float(value)` as a value of a dictionary
abbrev pub unpacked_optional_float : Double → Json
unpacked_optional_float nan = null
unpacked_optional_float (finite x) = double (finite x)
