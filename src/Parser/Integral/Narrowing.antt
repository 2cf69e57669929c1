-- ===== src/Parser/Integral/Narrowing.antt =====
-- Reading one text at two integral types.
use ecommerce_platform.Prelude.{
  ◌≤◌, ◌≡◌, sym, ◌∙◌, inl, inr, true, none, some, arith, if◌then◌else◌, Bool-cases, Option-cases,
  Text, ℤ, pos, negsuc,
}
use ecommerce_platform.Parser.Integral.{
  IntegralType, pos_limit, neg_limit, fits, try_parse_integral,
}
use ecommerce_platform.Parser.Integral.Literal.{IsLiteral, plain, minus, try_parse_integral_iff}

IsLiteral-change :
    (t u : IntegralType) (s : Text) (z : ℤ)
    → t.is_signed ≡ u.is_signed
    → fits u z ≡ true
    → IsLiteral t s z
    → IsLiteral u s z
IsLiteral-change t u s z sg f (plain n m e g) = plain n m e f
IsLiteral-change t u s z sg f (minus n body signed_type es m e g) =
    minus n body (sym sg ∙ signed_type) es m e f

fits_mono :
    (t u : IntegralType) (z : ℤ)
    → pos_limit t ≤ pos_limit u
    → neg_limit t ≤ neg_limit u
    → fits t z ≡ true
    → fits u z ≡ true
unfolding fits
fits_mono t u (pos n) p q h = ground arith
fits_mono t u (negsuc n) p q h = ground arith

-- Where the values of t are values of u and the types have the same signedness, a text that is read
-- at u is read at t as the same value if that fits t, and is refused at t if it does not.
pub try_parse_integral-narrower :
    (t u : IntegralType) (s : Text) (z : ℤ)
    → t.is_signed ≡ u.is_signed
    → pos_limit t ≤ pos_limit u
    → neg_limit t ≤ neg_limit u
    → try_parse_integral u s ≡ some z
    → try_parse_integral t s ≡ (if fits t z then some z else none)
try_parse_integral-narrower t u s z sg p q h = elim (Bool-cases (fits t z)) [
  | inl f ↦ rw f (
      (try_parse_integral_iff t s z).1
        (IsLiteral-change u t s z (sym sg) f ((try_parse_integral_iff u s z).0 h)))
  | inr out ↦ rw out (elim (Option-cases (try_parse_integral t s)) [
    | inl refused ↦ refused
    | inr (y, e) ↦
        let lit = (try_parse_integral_iff t s y).0 e in
        let f = fits_of_literal lit in
        let wide =
          (try_parse_integral_iff u s y).1
            (IsLiteral-change t u s y sg (fits_mono t u y p q f) lit) in
        let same : y ≡ z = ground arith in cc
  ])
]
  where
    fits_of_literal : {y : ℤ} → IsLiteral t s y → fits t y ≡ true
    fits_of_literal (plain n m e g) = g
    fits_of_literal (minus n body signed_type es m e g) = g
