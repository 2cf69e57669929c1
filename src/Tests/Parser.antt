-- ===== src/Tests/Parser.antt =====
-- Runs of the parsers, and the theorems of Parser at concrete inputs.
use ecommerce_platform.Prelude.{
  ◌≡◌, refl, ◌↔◌, true, false, ◌∷◌, some, none, if◌then◌else◌, text, pos, negsuc, arith,
}
use ecommerce_platform.Parser.Floating.{finite, infinity, nan, try_parse_float, string_to_lower}
use ecommerce_platform.Parser.Floating.Specials.{try_parse_float-inf}
use ecommerce_platform.Parser.Integral.{int32, int64, fits, try_parse_integral, to_string}
use ecommerce_platform.Parser.Integral.Literal.{IsLiteral, try_parse_integral_iff}
use ecommerce_platform.Parser.Integral.Narrowing.{try_parse_integral-narrower}
use ecommerce_platform.Parser.Integral.Printing.{try_parse_integral-to_string}
use ecommerce_platform.Parser.Values.{try_parse_bool}
use ecommerce_platform.Parser.Values.Booleans.{Spells, try_parse_bool_iff}

float_tests :
    (try_parse_float (text "3.14") ≡ some (finite false 314 (negsuc 1)))
    × (try_parse_float (text "-1e3") ≡ some (finite true 1 (pos 3)))
    × (try_parse_float (text "1e400") ≡ none)
    × (try_parse_float (text "3.14abc") ≡ none)
    × (try_parse_float (text ".5") ≡ some (finite false 5 (negsuc 0)))
    × (try_parse_float (text "5.") ≡ some (finite false 5 (pos 0)))
    × (try_parse_float (text ".") ≡ none)
    × (try_parse_float (text "") ≡ none)
    × (try_parse_float (text "1e") ≡ none)
    × (try_parse_float (text "nan(x)") ≡ some (nan false))
    × (try_parse_float (text "-Inf") ≡ some (infinity true))
unfolding try_parse_float
float_tests = (refl, refl, refl, refl, refl, refl, refl, refl, refl, refl, refl)

integral_tests :
    (try_parse_integral int32 (text "2147483647") ≡ some (pos 2147483647))
    × (try_parse_integral int32 (text "2147483648") ≡ none)
    × (try_parse_integral int32 (text "-2147483648") ≡ some (negsuc 2147483647))
    × (try_parse_integral int32 (text "+5") ≡ none)
    × (try_parse_integral int32 (text " 5") ≡ none)
    × (try_parse_integral int32 (text "12abc") ≡ none)
    × (try_parse_integral int32 (text "-") ≡ none)
    × (try_parse_integral int64 (text "9223372036854775808") ≡ none)
unfolding try_parse_integral
integral_tests = (refl, refl, refl, refl, refl, refl, refl, refl)

try_parse_integral_iff_example :
    (try_parse_integral int32 (text "-42") ≡ some (negsuc 41))
    ↔ IsLiteral int32 (text "-42") (negsuc 41)
try_parse_integral_iff_example = try_parse_integral_iff int32 (text "-42") (negsuc 41)

try_parse_integral-to_string_example :
    try_parse_integral int32 (to_string (negsuc 41)) ≡ some (negsuc 41)
unfolding fits
try_parse_integral-to_string_example = try_parse_integral-to_string int32 (negsuc 41) refl refl

try_parse_integral-narrower_example :
    try_parse_integral int32 (text "3000000000")
    ≡ (if fits int32 (pos 3000000000) then some (pos 3000000000) else none)
unfolding try_parse_integral
try_parse_integral-narrower_example =
    try_parse_integral-narrower int32 int64 (text "3000000000") (pos 3000000000) refl (omega arith)
      (omega arith) refl

try_parse_bool_iff_example :
    (try_parse_bool (text "TRUE") ≡ some true) ↔ Spells true (string_to_lower (text "TRUE"))
try_parse_bool_iff_example = try_parse_bool_iff (text "TRUE") true

try_parse_float-inf_example :
    (try_parse_float (text "Inf") ≡ none)
    × (try_parse_float (b'-' ∷ text "Inf") ≡ some (infinity true))
unfolding string_to_lower
try_parse_float-inf_example = try_parse_float-inf (text "Inf") refl
