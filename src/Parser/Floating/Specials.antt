-- ===== src/Parser/Floating/Specials.antt =====
-- How `TryParse<double>` treats the words for infinity and for not-a-number.
use ecommerce_platform.Prelude.{
  ◌≡◌, refl, Bool, true, false, [], ◌∷◌, none, some, arith, Text, text, map, ◌++◌, ◌≢◌, ap, subst,
  ◌∙◌, drop, if◌then◌else◌, length-map, ℕ,
}
use ecommerce_platform.Parser.Integral.{accept}
use ecommerce_platform.Parser.Floating.{
  to_lower, string_to_lower, FloatValue, infinity, strip_word, unsigned_float, from_chars_float,
  is_nan_or_inf_literal, try_parse_float, special,
}

strip_word-all : (s : Text) → strip_word (map to_lower s) s ≡ some []
unfolding strip_word
strip_word-all [] = refl
strip_word-all (c ∷ s) = ground (arith, strip_word-all s)

strip_word-short : (w t s : Text) → map to_lower s ≡ w → t ≢ [] → strip_word (w ++ t) s ≡ none
unfolding strip_word
strip_word-short w [] s h n = absurd (n refl)
strip_word-short [] (x ∷ t) [] h n = refl
strip_word-short [] (x ∷ t) (c ∷ s) h n = cc
strip_word-short (x ∷ w) t [] h n = cc
strip_word-short (x ∷ w) (y ∷ t) (c ∷ s) h n =
    ground (arith, strip_word-short w (y ∷ t) s (ap (drop 1) h) n)

unsigned_float-infinity :
    (s : Text) (negative : Bool) (body rest : Text)
    → strip_word (text "infinity") body ≡ some rest
    → unsigned_float s negative body ≡ special rest (infinity negative)
unfolding unsigned_float
unsigned_float-infinity s negative body rest h = rw h

unsigned_float-inf :
    (s : Text) (negative : Bool) (body rest : Text)
    → strip_word (text "infinity") body ≡ none
    → strip_word (text "inf") body ≡ some rest
    → unsigned_float s negative body ≡ special rest (infinity negative)
unfolding unsigned_float
unsigned_float-inf s negative body rest h k = rw (h, k)

try_parse_float-eq :
    (s : Text)
    → try_parse_float s ≡ (
        if is_nan_or_inf_literal s
        then none
        else accept (from_chars_float s).ec (from_chars_float s).rest (from_chars_float s).value)
unfolding try_parse_float
try_parse_float-eq s = refl

from_chars_float-minus : (s : Text) → from_chars_float (b'-' ∷ s) ≡ unsigned_float (b'-' ∷ s) true s
unfolding from_chars_float
from_chars_float-minus s = refl

accept-special :
    (v : FloatValue) → accept (special [] v).ec (special [] v).rest (special [] v).value ≡ some v
unfolding accept special
accept-special v = refl

is_nan_or_inf_literal-inf :
    (s : Text) → string_to_lower s ≡ text "inf" → is_nan_or_inf_literal s ≡ true
unfolding is_nan_or_inf_literal
is_nan_or_inf_literal-inf s h = rw (← length-map s to_lower, h)

is_nan_or_inf_literal-minus :
    (s : Text) → string_to_lower s ≡ text "inf" → is_nan_or_inf_literal (b'-' ∷ s) ≡ false
unfolding is_nan_or_inf_literal
is_nan_or_inf_literal-minus s h = rw (← length-map s to_lower, h)

string_to_lower-map : (s : Text) → map to_lower s ≡ string_to_lower s
unfolding string_to_lower
string_to_lower-map s = refl

-- A text that spells `inf` in any case is refused, as the guard means it to be, but the same
-- text behind a minus sign is accepted as minus infinity.
pub try_parse_float-inf :
    (s : Text)
    → string_to_lower s ≡ text "inf"
    → (try_parse_float s ≡ none) × (try_parse_float (b'-' ∷ s) ≡ some (infinity true))
try_parse_float-inf s h = (rw (try_parse_float-eq s, is_nan_or_inf_literal-inf s h), minus)
  where
    words : map to_lower s ≡ text "inf"
    words = string_to_lower-map s ∙ h

    minus : try_parse_float (b'-' ∷ s) ≡ some (infinity true)
    minus =
        rw
          (
            try_parse_float-eq (b'-' ∷ s),
            is_nan_or_inf_literal-minus s h,
            from_chars_float-minus s,
            unsigned_float-inf (b'-' ∷ s) true s []
                (strip_word-short (text "inf") (text "inity") s words (λ e. cc))
                (subst (λ w. strip_word w s ≡ some []) words (strip_word-all s)),
          )
          (accept-special (infinity true))

is_nan_or_inf_literal-infinity :
    (s : Text) → string_to_lower s ≡ text "infinity" → is_nan_or_inf_literal s ≡ false
unfolding is_nan_or_inf_literal
is_nan_or_inf_literal-infinity s h = rw (← length-map s to_lower, h)

is_nan_or_inf_literal-minus_infinity :
    (s : Text) → string_to_lower s ≡ text "infinity" → is_nan_or_inf_literal (b'-' ∷ s) ≡ false
unfolding is_nan_or_inf_literal
is_nan_or_inf_literal-minus_infinity s h = rw (← length-map s to_lower, h)

from_chars_float-plain :
    (c : ℕ) (s : Text) → c ≢ b'-' → from_chars_float (c ∷ s) ≡ unsigned_float (c ∷ s) false (c ∷ s)
unfolding from_chars_float
from_chars_float-plain c s h = ground arith

not_minus : (c : ℕ) (s : Text) → string_to_lower (c ∷ s) ≡ text "infinity" → c ≢ b'-'
unfolding string_to_lower
not_minus c s h = ground arith

absurd_word {ℓ} : {A : Type ℓ} → string_to_lower [] ≡ text "infinity" → A
unfolding string_to_lower
absurd_word h = cc

whole_word :
    (s : Text) → string_to_lower s ≡ text "infinity" → strip_word (text "infinity") s ≡ some []
whole_word s h =
    subst (λ w. strip_word w s ≡ some []) (string_to_lower-map s ∙ h) (strip_word-all s)

-- A text that spells `infinity` in any case is accepted as infinity, and behind a minus sign as
-- minus infinity.
try_parse_float-infinity :
    (s : Text)
    → string_to_lower s ≡ text "infinity"
    → (try_parse_float s ≡ some (infinity false))
      × (try_parse_float (b'-' ∷ s) ≡ some (infinity true))
try_parse_float-infinity [] h = absurd_word h
try_parse_float-infinity (c ∷ s) h = (
  rw
      (
        try_parse_float-eq (c ∷ s),
        is_nan_or_inf_literal-infinity (c ∷ s) h,
        from_chars_float-plain c s (not_minus c s h),
        unsigned_float-infinity (c ∷ s) false (c ∷ s) [] (whole_word (c ∷ s) h),
      )
      (accept-special (infinity false)),
  rw
      (
        try_parse_float-eq (b'-' ∷ c ∷ s),
        is_nan_or_inf_literal-minus_infinity (c ∷ s) h,
        from_chars_float-minus (c ∷ s),
        unsigned_float-infinity (b'-' ∷ c ∷ s) true (c ∷ s) [] (whole_word (c ∷ s) h),
      )
      (accept-special (infinity true)),
)
