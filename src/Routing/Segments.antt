-- ===== src/Routing/Segments.antt =====
-- ParseParamSegment of common/http/src/RouteTrie.cpp, and ParamKey of include/RouteTrie.hpp.
use ecommerce_platform.Prelude.{
  ℕ, suc, ◌+◌, ◌-◌, Bool, false, not, ◌||◌, [], ◌∷◌, ◌++◌, Option, none, some, ltb, ◌==◌,
  if◌then◌else◌, length, take, drop, Text, text,
}
use ecommerce_platform.Http.Error.{Outcome, returns, throws, other_exception}
use ecommerce_platform.Routing.ParamType.{TypePointer, find_by_name, default_type}
use ecommerce_platform.Routing.Paths.{substr}

pub record ParamKey : Type 0 where
  pub name : Text
  pub type : TypePointer

-- What the function reports: `false`, or `true` with its two results.
pub data ParsedSegment : Type 0 where
  literal : ParsedSegment
  capture : ParamKey → ParsedSegment

abbrev pub front_is : ℕ → Text → Bool
front_is c [] = false
front_is c (d ∷ s) = d == c

abbrev pub back_is : ℕ → Text → Bool
back_is c [] = false
back_is c (d ∷ []) = d == c
back_is c (d ∷ e ∷ s) = back_is c (e ∷ s)

-- std::string::find for one character
unfoldable pub find_char : ℕ → Text → Option ℕ
find_char c [] = none
find_char c (d ∷ s) =
    let later = find_char c s in
    if d == c then some 0 else (elim later [ none ↦ none | some i ↦ some (suc i) ])

-- The type behind the colon, or the exception.
typed_capture : Text → Text → Outcome ParsedSegment
typed_capture name spec = elim (find_by_name spec) [
  | some found ↦ returns (capture (record { name = name; type = found }))
  | none ↦ throws (other_exception (text "Unknown path param type: " ++ spec))
]

unfoldable pub parse_content : Text → Outcome ParsedSegment
unfolding typed_capture find_by_name find_char
parse_content content = elim (find_char b':' content) [
  | none ↦ returns (capture (record { name = content; type = default_type }))
  | some colon ↦ typed_capture (take colon content) (drop (colon + 1) content)
]

unfoldable pub parse_param_segment : Text → Outcome ParsedSegment
unfolding parse_content
parse_param_segment segment =
    if ltb (length segment) 3 || not (front_is b'{' segment) || not (back_is b'}' segment)
    then returns literal
    else parse_content (substr segment 1 (length segment - 2))
