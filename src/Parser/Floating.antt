-- ===== src/Parser/Floating.antt =====
-- std::from_chars on `double` (general format) and `TryParse<double>` of
-- common/parser/include/ValueParser.hpp. A finite result is the decimal fraction that the text
-- denotes, before it is rounded to the nearest double: no caller computes with it.
pub mod Specials
use ecommerce_platform.Prelude.{
  ℕ, suc, ◌+◌, ◌-◌, ◌*◌, ◌^◌, Bool, true, false, ◌&&◌, ◌||◌, [], ◌∷◌, ◌++◌, Option, none, some, ltb,
  leb, ◌==◌, if◌then◌else◌, length, map, Text, text, text_eq, ℤ, pos, negsuc, signed,
}
use ecommerce_platform.Parser.Integral.{
  is_digit, FromChars, ok, invalid_argument, result_out_of_range, accept,
}

-- std::tolower in the "C" locale, and detail::StringToLower
unfoldable pub to_lower : ℕ → ℕ
to_lower c = if leb b'A' c && leb c b'Z' then c + 32 else c

unfoldable pub string_to_lower : Text → Text
unfolding to_lower
string_to_lower s = map to_lower s

pub data FloatValue : Type 0 where
  finite : (negative : Bool) (mantissa : ℕ) (exponent : ℤ) → FloatValue
  infinity : (negative : Bool) → FloatValue
  nan : (negative : Bool) → FloatValue

-- The text behind a word, which is given in lower case and compared without regard to case.
unfoldable pub strip_word : Text → Text → Option Text
unfolding to_lower
strip_word [] s = some s
strip_word (w ∷ ws) [] = none
strip_word (w ∷ ws) (c ∷ s) = if to_lower c == w then strip_word ws s else none

unfoldable pub span_digits : Text → Text × Text
unfolding is_digit
span_digits [] = ([], [])
span_digits (c ∷ s) =
    let (run, rest) = span_digits s in if is_digit c then (c ∷ run, rest) else ([], c ∷ s)

unfoldable pub digits_value : ℕ → Text → ℕ
digits_value acc [] = acc
digits_value acc (c ∷ s) = digits_value (acc * 10 + (c - b'0')) s

-- `.` and the digits behind it
unfoldable pub fraction : Text → Text × Text
fraction [] = ([], [])
fraction (c ∷ s) = if c == b'.' then span_digits s else ([], c ∷ s)

-- `e`, an optional sign, and digits; without digits nothing of it is read.
unfoldable pub exponent_value : Bool → Text → Text × Text → ℤ × Text
exponent_value negative s ([], _) = (pos 0, s)
exponent_value negative s (run, behind) = (signed negative (digits_value 0 run), behind)

unfoldable pub exponent_digits : Bool → Text → Text → ℤ × Text
unfolding exponent_value
exponent_digits negative s rest = exponent_value negative s (span_digits rest)

unfoldable pub exponent_sign : Text → Text → ℤ × Text
exponent_sign s [] = (pos 0, s)
exponent_sign s (c ∷ rest) =
    if c == b'-'
    then exponent_digits true s rest
    else if c == b'+'
    then exponent_digits false s rest
    else exponent_digits false s (c ∷ rest)

unfoldable pub exponent_part : Text → ℤ × Text
exponent_part [] = (pos 0, [])
exponent_part (c ∷ s) = if to_lower c == b'e' then exponent_sign (c ∷ s) s else (pos 0, c ∷ s)

-- The exponent of the mantissa's last digit, `places` digits behind the point.
unfoldable pub lower_exponent : ℤ → ℕ → ℤ
lower_exponent (pos e) places = if leb places e then pos (e - places) else negsuc (places - e - 1)
lower_exponent (negsuc e) places = negsuc (e + places)

-- Rounds to a finite double that is zero for zero only: below 2^1024 - 2^970 and above 2^-1075.
unfoldable pub in_double_range : ℕ → ℤ → Bool
in_double_range m (pos e) = ltb (m * 10 ^ e) (2 ^ 1024 - 2 ^ 970)
in_double_range m (negsuc e) =
    (m == 0) || (ltb m ((2 ^ 1024 - 2 ^ 970) * 10 ^ suc e) && ltb (10 ^ suc e) (m * 2 ^ 1075))

unfoldable pub finite_result : Bool → ℕ → ℤ × Text → FromChars FloatValue
finite_result negative m (e, rest) =
    if in_double_range m e
    then record { rest = rest; ec = ok; value = some (finite negative m e) }
    else record { rest = rest; ec = result_out_of_range; value = none }

unfoldable pub decimal_result : Text → Bool → Text × Text → Text × Text → FromChars FloatValue
decimal_result s negative ([], _) ([], _) = record { rest = s; ec = invalid_argument; value = none }
decimal_result s negative (whole, _) (places, rest) =
    let (e, behind) = exponent_part rest in
    finite_result negative (digits_value 0 (whole ++ places))
      (lower_exponent e (length places), behind)

-- Behind `nan`: letters, digits and underscores in parentheses, if they close.
unfoldable pub is_word_char : ℕ → Bool
unfolding to_lower
is_word_char c = is_digit c || (leb b'a' (to_lower c) && leb (to_lower c) b'z') || c == b'_'

unfoldable pub closing : Text → Option Text
closing [] = none
closing (c ∷ s) =
    let behind = closing s in if c == b')' then some s else if is_word_char c then behind else none

unfoldable pub nan_payload : Text → Text
nan_payload [] = []
nan_payload (c ∷ s) =
    if c == b'(' then (elim (closing s) [ none ↦ c ∷ s | some behind ↦ behind ]) else c ∷ s

special : Text → FloatValue → FromChars FloatValue
special rest v = record { rest = rest; ec = ok; value = some v }

unfoldable pub unsigned_float : Text → Bool → Text → FromChars FloatValue
unfolding strip_word span_digits digits_value fraction exponent_digits exponent_sign exponent_part
    lower_exponent in_double_range finite_result decimal_result is_word_char closing nan_payload
    special is_digit
unsigned_float s negative body = elim (strip_word (text "infinity") body) [
  | some rest ↦ special rest (infinity negative)
  | none ↦ elim (strip_word (text "inf") body) [
    | some rest ↦ special rest (infinity negative)
    | none ↦ elim (strip_word (text "nan") body) [
      | some rest ↦ special (nan_payload rest) (nan negative)
      | none ↦
          let (whole, behind) = span_digits body in
          decimal_result s negative (whole, behind) (fraction behind)
    ]
  ]
]

-- std::from_chars(first, last, result) for a double
unfoldable pub from_chars_float : Text → FromChars FloatValue
unfolding unsigned_float
from_chars_float [] = record { rest = []; ec = invalid_argument; value = none }
from_chars_float (c ∷ s) =
    if c == b'-' then unsigned_float (c ∷ s) true s else unsigned_float (c ∷ s) false (c ∷ s)

unfoldable pub is_nan_or_inf_literal : Text → Bool
unfolding string_to_lower text_eq
is_nan_or_inf_literal s =
    length s == 3
    && (text_eq (string_to_lower s) (text "inf") || text_eq (string_to_lower s) (text "nan"))

-- TryParse<double>
unfoldable pub try_parse_float : Text → Option FloatValue
unfolding from_chars_float is_nan_or_inf_literal accept
try_parse_float s =
    let r = from_chars_float s in
    if is_nan_or_inf_literal s then none else accept r.ec r.rest r.value
