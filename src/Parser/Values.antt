-- ===== src/Parser/Values.antt =====
-- `TryParse` of common/parser/include/ValueParser.hpp for `bool`, `std::string` and
-- `std::string_view`, and the choice of a parser by type.
pub mod Booleans
use ecommerce_platform.Prelude.{
  Bool, true, false, ◌||◌, [], ◌∷◌, Option, none, some, ltb, if◌then◌else◌, length, Text, text,
  text_eq, ℤ,
}
use ecommerce_platform.Parser.Integral.{IntegralType, try_parse_integral}
use ecommerce_platform.Parser.Floating.{string_to_lower, FloatValue, try_parse_float}

unfoldable pub is_empty : Text → Bool
is_empty [] = true
is_empty (c ∷ s) = false

-- TryParse<bool>
unfoldable pub try_parse_bool : Text → Option Bool
unfolding is_empty string_to_lower text_eq
try_parse_bool s =
    if is_empty s || ltb 5 (length s)
    then none
    else let lower_value = string_to_lower s in
      if text_eq lower_value (text "true") || text_eq lower_value (text "1")
      then some true
      else if text_eq lower_value (text "false") || text_eq lower_value (text "0")
      then some false
      else none

-- TryParse<std::string> and TryParse<std::string_view>
unfoldable pub try_parse_string : Text → Option Text
try_parse_string s = some s

-- The types that TryParse is instantiated at, and what it reads for each.
pub data ValueType : Type 0 where
  integral : IntegralType → ValueType
  floating : ValueType
  boolean : ValueType
  string_like : ValueType

abbrev pub Value : ValueType → Type 0
Value (integral t) = ℤ
Value floating = FloatValue
Value boolean = Bool
Value string_like = Text

unfoldable pub try_parse : (t : ValueType) → Text → Option (Value t)
try_parse (integral t) s = try_parse_integral t s
try_parse floating s = try_parse_float s
try_parse boolean s = try_parse_bool s
try_parse string_like s = try_parse_string s
