-- ===== src/Parser/Values/Booleans.antt =====
-- Which texts `TryParse<bool>` reads.
use ecommerce_platform.Prelude.{
  ◌≡◌, ◌↔◌, ◌⊎◌, refl, ◌∙◌, sym, Bool, true, false, some, arith, Text, text, text_eq, text_eq_iff,
  length, length-map, ◌≤◌, none, ltb, if◌then◌else◌, Option, ◌||◌, [], ◌∷◌,
}
use ecommerce_platform.Parser.Floating.{to_lower, string_to_lower}
use ecommerce_platform.Parser.Values.{is_empty, try_parse_bool}

-- The spellings of a truth value, in lower case.
abbrev pub Spells : Bool → Text → Type 0
Spells true s = (s ≡ text "true") ⊎ (s ≡ text "1")
Spells false s = (s ≡ text "false") ⊎ (s ≡ text "0")

words : Text → Option Bool
words w =
    if text_eq w (text "true") || text_eq w (text "1")
    then some true
    else if text_eq w (text "false") || text_eq w (text "0")
    then some false
    else none

try_parse_bool-eq :
    (s : Text)
    → try_parse_bool s
      ≡ (if is_empty s || ltb 5 (length s) then none else words (string_to_lower s))
unfolding try_parse_bool words
try_parse_bool-eq s = refl

words_iff : (w : Text) (b : Bool) → (words w ≡ some b) ↔ Spells b w
unfolding words
words_iff w true = ground (
  arith,
  text_eq_iff w (text "true"),
  text_eq_iff w (text "1"),
  text_eq_iff w (text "false"),
  text_eq_iff w (text "0"),
)
words_iff w false = ground (
  arith,
  text_eq_iff w (text "true"),
  text_eq_iff w (text "1"),
  text_eq_iff w (text "false"),
  text_eq_iff w (text "0"),
)

Spells-length : (b : Bool) (w : Text) → Spells b w → (1 ≤ length w) × (length w ≤ 5)
Spells-length true w h = ground arith
Spells-length false w h = ground arith

length-string_to_lower : (s : Text) → length (string_to_lower s) ≡ length s
unfolding string_to_lower
length-string_to_lower s = length-map s to_lower

within_guard : (s : Text) → 1 ≤ length s → length s ≤ 5 → (is_empty s || ltb 5 (length s)) ≡ false
unfolding is_empty
within_guard [] h k = absurd (omega arith)
within_guard (c ∷ s) h k = ground arith

-- A truth value is read from `true` and `1`, and from `false` and `0`, in upper or lower case, and
-- from no other text: the test on the length refuses none of these words.
pub try_parse_bool_iff :
    (s : Text) (b : Bool) → (try_parse_bool s ≡ some b) ↔ Spells b (string_to_lower s)
try_parse_bool_iff s b = (
  λ h.
      (words_iff (string_to_lower s) b).0
        (past_guard (is_empty s || ltb 5 (length s)) (sym (try_parse_bool-eq s) ∙ h)),
  λ h.
      let (lo, hi) = Spells-length b (string_to_lower s) h in
      let n = length-string_to_lower s in
      rw (try_parse_bool-eq s, within_guard s (omega arith) (omega arith))
        ((words_iff (string_to_lower s) b).1 h),
)
  where
    past_guard :
        (g : Bool)
        → (if g then none else words (string_to_lower s)) ≡ some b
        → words (string_to_lower s) ≡ some b
    past_guard true h = cc
    past_guard false h = h
