-- ===== src/Parser/Integral/Literal.antt =====
-- Which texts `TryParse` of an integral type reads, described without the scanning loop.
use ecommerce_platform.Prelude.{
  negsuc, ℕ, ◌+◌, ◌-◌, ◌*◌, ◌≤◌, ◌<◌, ◌≡◌, ◌≢◌, refl, sym, ap, subst, ◌∙◌, ◌↔◌, ◌⊎◌, inl, inr, Bool,
  true, false, [], ◌∷◌, Option, some, arith, All, Text, ℤ, pos, signed,
}
use ecommerce_platform.Parser.Integral.{
  int32, int64, IntegralType, fits, is_digit, scan_digits, split_sign, starts_with_digit,
  range_check, FromChars, from_digits, accept, try_parse_integral,
}

abbrev pub IsDigit : ℕ → Type 0
IsDigit c = (b'0' ≤ c) × (c ≤ b'9')

-- The number that a row of digits stands for, most significant first.
abbrev pub decimal : ℕ → Text → ℕ
decimal acc [] = acc
decimal acc (c ∷ s) = decimal (acc * 10 + (c - b'0')) s

pub record IsMagnitude (s : Text) (n : ℕ) : Type 0 where
  pub nonempty : s ≢ []
  pub digits : All IsDigit s
  pub value : n ≡ decimal 0 s

-- A literal of the type: digits, or for a signed type a minus sign and digits, in range.
pub data IsLiteral (t : IntegralType) (s : Text) (z : ℤ) : Type 0 where
  plain : (n : ℕ) → IsMagnitude s n → z ≡ pos n → fits t z ≡ true → IsLiteral t s z
  minus :
      (n : ℕ) (body : Text)
      → t.is_signed ≡ true
      → s ≡ b'-' ∷ body
      → IsMagnitude body n
      → z ≡ signed true n
      → fits t z ≡ true
      → IsLiteral t s z

is_digit_iff : (c : ℕ) → (is_digit c ≡ true) ↔ IsDigit c
unfolding is_digit
is_digit_iff c = ground arith

-- The loop reads everything exactly when all characters are digits.
scan_digits-All : (acc : ℕ) (s : Text) → All IsDigit s → scan_digits acc s ≡ (decimal acc s, [])
unfolding scan_digits
scan_digits-All acc [] h = refl
scan_digits-All acc (c ∷ s) h =
    rw ((is_digit_iff c).1 h.0) (scan_digits-All (acc * 10 + (c - b'0')) s h.1)

scan_digits-only :
    (acc n : ℕ) (s : Text) → scan_digits acc s ≡ (n, []) → All IsDigit s × (n ≡ decimal acc s)
unfolding scan_digits
scan_digits-only acc n [] h = (tt, ground arith)
scan_digits-only acc n (c ∷ s) h =
    ground (arith, is_digit_iff c, scan_digits-only (acc * 10 + (c - b'0')) n s)

abbrev finish : FromChars ℤ → Option ℤ
finish r = accept r.ec r.rest r.value

range_check_sound :
    (t : IntegralType) (negative : Bool) (n : ℕ) (rest : Text) (z : ℤ)
    → finish (range_check t negative (n, rest)) ≡ some z
    → (rest ≡ []) × (z ≡ signed negative n) × (fits t z ≡ true)
unfolding range_check accept
range_check_sound t negative n [] z h = ground arith
range_check_sound t negative n (c ∷ rest) z h = ground arith

from_digits_sound :
    (t : IntegralType) (s : Text) (negative : Bool) (body : Text) (z : ℤ)
    → finish (from_digits t s (negative, body)) ≡ some z
    → (n : ℕ) × IsMagnitude body n × (z ≡ signed negative n) × (fits t z ≡ true)
unfolding from_digits range_check accept starts_with_digit
from_digits_sound t s negative [] z h = ground arith
from_digits_sound t s negative (c ∷ body) z h =
    let (n, rest) = scan_digits 0 (c ∷ body) in
    let digit : is_digit c ≡ true = ground arith in
    let (all_read, value, fit) =
      range_check_sound t negative n rest z (rw (digit, from_digits) at h) in
    let (digits, same) = scan_digits-only 0 n (c ∷ body) (rw (← all_read)) in
    (n, record { nonempty = λ e. cc; digits = digits; value = same }, value, fit)

from_digits_complete :
    (t : IntegralType) (s : Text) (negative : Bool) (body : Text) (n : ℕ)
    → IsMagnitude body n
    → fits t (signed negative n) ≡ true
    → finish (from_digits t s (negative, body)) ≡ some (signed negative n)
unfolding from_digits range_check accept starts_with_digit
from_digits_complete t s negative [] n m f = absurd (m.nonempty refl)
from_digits_complete t s negative (c ∷ body) n m f =
    rw ((is_digit_iff c).1 m.digits.0, scan_digits-All 0 (c ∷ body) m.digits, ← m.value, f)

abbrev AfterSign : IntegralType → Text → Bool × Text → Type 0
AfterSign t s (negative, body) =
    ((negative ≡ false) × (body ≡ s))
    ⊎ ((negative ≡ true) × (t.is_signed ≡ true) × (s ≡ b'-' ∷ body))

split_sign-AfterSign : (t : IntegralType) (s : Text) → AfterSign t s (split_sign t s)
unfolding split_sign
split_sign-AfterSign t [] = ground arith
split_sign-AfterSign t (c ∷ s) = ground arith

by_sign :
    (t : IntegralType) (s : Text) (p : Bool × Text)
    → split_sign t s ≡ p
    → try_parse_integral t s ≡ finish (from_digits t s p)
unfolding try_parse_integral
by_sign t s p e = ap (λ q. finish (from_digits t s q)) e

split_sign-digits : (t : IntegralType) (s : Text) → All IsDigit s → split_sign t s ≡ (false, s)
unfolding split_sign
split_sign-digits t [] h = refl
split_sign-digits t (c ∷ s) h = ground arith

split_sign-minus :
    (t : IntegralType) (body : Text)
    → t.is_signed ≡ true
    → split_sign t (b'-' ∷ body) ≡ (true, body)
unfolding split_sign
split_sign-minus t body h = ground arith

try_parse_integral-IsLiteral :
    (t : IntegralType) (s : Text) (z : ℤ) → try_parse_integral t s ≡ some z → IsLiteral t s z
try_parse_integral-IsLiteral t s z h =
    go (split_sign t s) (split_sign-AfterSign t s) (sym (by_sign t s _ refl) ∙ h)
  where
    go : (p : Bool × Text) → AfterSign t s p → finish (from_digits t s p) ≡ some z → IsLiteral t s z
    go (negative, body) (inl (same, whole)) k =
        let (n, m, value, fit) = from_digits_sound t s negative body z k in
        plain n (subst (λ b. IsMagnitude b n) whole m) (value ∙ ap (λ b. signed b n) same) fit
    go (negative, body) (inr (same, sg, cut)) k =
        let (n, m, value, fit) = from_digits_sound t s negative body z k in
        minus n body sg cut m (value ∙ ap (λ b. signed b n) same) fit

IsLiteral-try_parse_integral :
    (t : IntegralType) (s : Text) (z : ℤ) → IsLiteral t s z → try_parse_integral t s ≡ some z
IsLiteral-try_parse_integral t s z (plain n m e f) =
    by_sign t s _ (split_sign-digits t s m.digits)
    ∙ from_digits_complete t s false s n m (rw e at f)
    ∙ ap some (sym e)
IsLiteral-try_parse_integral t s z (minus n body sg es m e f) =
    by_sign t s _ (rw es (split_sign-minus t body sg))
    ∙ from_digits_complete t s true body n m (rw e at f)
    ∙ ap some (sym e)

-- Exactly the literals of the type are read, at the value that they stand for: a row of digits, for
-- a signed type with one minus sign before it, and in the type's range. So no white space, no plus
-- sign and no text behind the digits is accepted, and what is out of range is refused.
pub try_parse_integral_iff :
    (t : IntegralType) (s : Text) (z : ℤ) → (try_parse_integral t s ≡ some z) ↔ IsLiteral t s z
try_parse_integral_iff t s z =
    (try_parse_integral-IsLiteral t s z, IsLiteral-try_parse_integral t s z)

digits-IsAscii : (s : Text) → All IsDigit s → All (λ c. c < 128) s
digits-IsAscii [] h = tt
digits-IsAscii (c ∷ s) (d, h) = (omega arith, digits-IsAscii s h)

-- A text that is read as an integer is ASCII.
pub literal-IsAscii :
    (t : IntegralType) (s : Text) (z : ℤ) → try_parse_integral t s ≡ some z → All (λ c. c < 128) s
literal-IsAscii t s z h = of_literal (try_parse_integral-IsLiteral t s z h)
  where
    of_literal : IsLiteral t s z → All (λ c. c < 128) s
    of_literal (plain n m e g) = digits-IsAscii s m.digits
    of_literal (minus n body sg e m ez g) = rw e ((omega arith), digits-IsAscii body m.digits)

digits-NoSlash : (s : Text) → All IsDigit s → All (λ c. c ≢ b'/') s
digits-NoSlash [] h = tt
digits-NoSlash (c ∷ s) (d, h) = (omega arith, digits-NoSlash s h)

-- A text that is read as an integer is not empty and holds no slash.
pub literal_lem :
    (t : IntegralType) (s : Text) (z : ℤ)
    → try_parse_integral t s ≡ some z
    → (s ≢ []) × All (λ c. c ≢ b'/') s
literal_lem t s z h = of_literal (try_parse_integral-IsLiteral t s z h)
  where
    of_literal : IsLiteral t s z → (s ≢ []) × All (λ c. c ≢ b'/') s
    of_literal (plain n m e g) = (m.nonempty, digits-NoSlash s m.digits)
    of_literal (minus n body sg e m ez g) =
        rw e ((λ q. cc), (omega arith, digits-NoSlash body m.digits))

-- An `int` is a 64-bit integer.
pub fits_int64 : (z : ℤ) → fits int32 z ≡ true → fits int64 z ≡ true
unfolding fits
fits_int64 (pos n) h = ground arith
fits_int64 (negsuc n) h = ground arith
