-- ===== src/Parser/Integral/Printing.antt =====
-- std::to_string and `TryParse` undo each other.
use ecommerce_platform.Prelude.{
  ℕ, zero, suc, ◌+◌, ◌-◌, ◌*◌, ◌/◌, ◌%◌, ◌<◌, ◌≡◌, ◌≢◌, refl, inl, inr, true, [], ◌∷◌, ◌++◌, some,
  arith, ltb, Bool-cases, All, All-append, Text, ℤ, pos, negsuc,
}
use ecommerce_platform.Parser.Integral.{
  IntegralType, fits, print_digits, to_string, try_parse_integral,
}
use ecommerce_platform.Parser.Integral.Literal.{
  IsDigit, decimal, IsMagnitude, IsLiteral, plain, minus, try_parse_integral_iff,
}

decimal-append : (acc : ℕ) (s t : Text) → decimal acc (s ++ t) ≡ decimal (decimal acc s) t
decimal-append acc [] t = refl
decimal-append acc (c ∷ s) t = decimal-append (acc * 10 + (c - b'0')) s t

print_digits-nonempty : (fuel n : ℕ) → n < fuel → print_digits fuel n ≢ []
unfolding print_digits
print_digits-nonempty zero n h = elim h [ ]
print_digits-nonempty (suc fuel) n h = elim (Bool-cases (ltb n 10)) [
  | inl small ↦ rw small (λ e. cc)
  | inr big ↦ rw big (append-ne (print_digits fuel (n / 10)) (b'0' + n % 10))
]
  where
    append-ne : (s : Text) (c : ℕ) → (s ++ c ∷ []) ≢ []
    append-ne [] c e = cc
    append-ne (d ∷ s) c e = cc

print_digits-digits : (fuel n : ℕ) → All IsDigit (print_digits fuel n)
unfolding print_digits
print_digits-digits zero n = tt
print_digits-digits (suc fuel) n = elim (Bool-cases (ltb n 10)) [
  | inl small ↦ rw small ((omega arith, ground arith), tt)
  | inr big ↦ rw big (
      All-append IsDigit (print_digits fuel (n / 10)) _ (print_digits-digits fuel (n / 10))
        ((omega arith, omega arith), tt))
]

decimal-print_digits : (fuel n : ℕ) → n < fuel → decimal 0 (print_digits fuel n) ≡ n
unfolding print_digits
decimal-print_digits zero n h = elim h [ ]
decimal-print_digits (suc fuel) n h = elim (Bool-cases (ltb n 10)) [
  | inl small ↦ rw small (omega arith)
  | inr big ↦
      let ih = decimal-print_digits fuel (n / 10) (ground arith) in
      rw (big, decimal-append 0 (print_digits fuel (n / 10)) ((b'0' + n % 10) ∷ []), ih)
        (omega arith)
]

print_digits-IsMagnitude : (n : ℕ) → IsMagnitude (print_digits (suc n) n) n
print_digits-IsMagnitude n = record {
  nonempty = print_digits-nonempty (suc n) n (omega arith);
  digits = print_digits-digits (suc n) n;
  value = rw (decimal-print_digits (suc n) n (omega arith));
}

to_string-IsLiteral :
    (t : IntegralType) (z : ℤ) → t.is_signed ≡ true → fits t z ≡ true → IsLiteral t (to_string z) z
unfolding to_string
to_string-IsLiteral t (pos n) sg f = plain n (print_digits-IsMagnitude n) refl f
to_string-IsLiteral t (negsuc n) sg f =
    minus (suc n) _ sg refl (print_digits-IsMagnitude (suc n)) refl f

-- A value of a signed type that is printed by std::to_string is read back by `TryParse` of that
-- type as the same value.
pub try_parse_integral-to_string :
    (t : IntegralType) (z : ℤ)
    → t.is_signed ≡ true
    → fits t z ≡ true
    → try_parse_integral t (to_string z) ≡ some z
try_parse_integral-to_string t z sg f =
    (try_parse_integral_iff t (to_string z) z).1 (to_string-IsLiteral t z sg f)
