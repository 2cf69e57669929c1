-- ===== src/Parser/Integral.antt =====
-- std::from_chars and std::to_string on integers, and `TryParse<T>` of
-- common/parser/include/ValueParser.hpp for an integral T.
pub mod Literal
pub mod Narrowing
pub mod Printing
use ecommerce_platform.Prelude.{
  ℕ, zero, suc, ◌+◌, ◌-◌, ◌*◌, ◌/◌, ◌%◌, ◌^◌, Bool, true, false, ◌&&◌, ◌||◌, not, List, [], ◌∷◌,
  ◌++◌, Option, none, some, ltb, leb, ◌==◌, if◌then◌else◌, Text, ℤ, pos, negsuc, signed,
}

-- A built-in integer type: its signedness and its width in bits.
pub record IntegralType : Type 0 where
  pub is_signed : Bool
  pub width : ℕ

-- `int` and `int64_t` of the platforms that the build files name.
abbrev pub int32 : IntegralType
int32 = record { is_signed = true; width = 32 }

abbrev pub int64 : IntegralType
int64 = record { is_signed = true; width = 64 }

-- The values of the type go from `- neg_limit` to `pos_limit - 1`.
abbrev pub pos_limit : IntegralType → ℕ
pos_limit t = if t.is_signed then 2 ^ (t.width - 1) else 2 ^ t.width

abbrev pub neg_limit : IntegralType → ℕ
neg_limit t = if t.is_signed then 2 ^ (t.width - 1) else 0

unfoldable pub fits : IntegralType → ℤ → Bool
fits t (pos n) = ltb n (pos_limit t)
fits t (negsuc n) = ltb n (neg_limit t)

unfoldable pub is_digit : ℕ → Bool
is_digit c = leb b'0' c && leb c b'9'

-- The longest run of digits, read in base ten onto `acc`, and the text behind it.
unfoldable pub scan_digits : ℕ → Text → ℕ × Text
scan_digits acc [] = (acc, [])
scan_digits acc (c ∷ s) = if is_digit c then scan_digits (acc * 10 + (c - b'0')) s else (acc, c ∷ s)

pub data Errc : Type 0 where
  ok invalid_argument result_out_of_range : Errc

-- What `from_chars` leaves: the text from `ptr` on, the error code, and the result variable's new
-- value, if it is written.
pub record FromChars {ℓ} (A : Type ℓ) : Type ℓ where
  pub rest : Text
  pub ec : Errc
  pub value : Option A

-- A minus sign is read for signed types only; a plus sign never is.
unfoldable pub split_sign : IntegralType → Text → Bool × Text
split_sign t [] = (false, [])
split_sign t (c ∷ s) = if t.is_signed && c == b'-' then (true, s) else (false, c ∷ s)

unfoldable pub starts_with_digit : Text → Bool
starts_with_digit [] = false
starts_with_digit (c ∷ s) = is_digit c

unfoldable pub range_check : IntegralType → Bool → ℕ × Text → FromChars ℤ
range_check t negative (n, rest) =
    if fits t (signed negative n)
    then record { rest = rest; ec = ok; value = some (signed negative n) }
    else record { rest = rest; ec = result_out_of_range; value = none }

unfoldable pub from_digits : IntegralType → Text → Bool × Text → FromChars ℤ
from_digits t s (negative, body) =
    if starts_with_digit body
    then range_check t negative (scan_digits 0 body)
    else record { rest = s; ec = invalid_argument; value = none }

-- std::from_chars(first, last, result) in base ten
unfoldable pub from_chars : IntegralType → Text → FromChars ℤ
unfolding from_digits range_check split_sign scan_digits starts_with_digit is_digit fits
from_chars t s = from_digits t s (split_sign t s)

-- The test behind the call: no error, and the whole text is read.
unfoldable pub accept {ℓ} : {A : Type ℓ} → Errc → Text → Option A → Option A
accept ok [] value = value
accept ok (c ∷ s) value = none
accept invalid_argument rest value = none
accept result_out_of_range rest value = none

-- TryParse<T>, T integral and not bool
unfoldable pub try_parse_integral : IntegralType → Text → Option ℤ
unfolding from_chars accept
try_parse_integral t s = let r = from_chars t s in accept r.ec r.rest r.value

-- std::to_string: the decimal digits of a number, the fuel being one more than the number.
unfoldable pub print_digits : ℕ → ℕ → Text
print_digits zero n = []
print_digits (suc fuel) n =
    let rest = print_digits fuel (n / 10) in
    if ltb n 10 then (b'0' + n) ∷ [] else rest ++ (b'0' + n % 10) ∷ []

unfoldable pub to_string : ℤ → Text
unfolding print_digits
to_string (pos n) = print_digits (suc n) n
to_string (negsuc n) = b'-' ∷ print_digits (suc (suc n)) (suc n)
