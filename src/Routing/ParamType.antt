-- ===== src/Routing/ParamType.antt =====
-- common/http/include/PathParamType.hpp: the registry of path parameter types.
use ecommerce_platform.Prelude.{
  ℕ, Bool, true, false, List, [], ◌∷◌, Option, none, some, if◌then◌else◌, Text, text, text_eq,
}
use ecommerce_platform.Parser.Integral.{int64, try_parse_integral}
use ecommerce_platform.Parser.Floating.{try_parse_float}

pub data PathParamPriority : Type 0 where
  lowest low medium high highest : PathParamPriority

-- The numbers of the enumerators, by which they are compared.
abbrev pub rank : PathParamPriority → ℕ
rank lowest = 0
rank low = 1
rank medium = 2
rank high = 3
rank highest = 4

unfoldable pub has_value {ℓ} : {A : Type ℓ} → Option A → Bool
has_value none = false
has_value (some a) = true

unfoldable pub match_int : Text → Bool
unfolding try_parse_integral has_value
match_int value = has_value (try_parse_integral int64 value)

unfoldable pub match_float : Text → Bool
unfolding try_parse_float has_value
match_float value = has_value (try_parse_float value)

unfoldable pub match_string : Text → Bool
match_string value = true

pub record PathParamTypeDescriptor : Type 0 where
  pub name : Text
  pub priority : PathParamPriority
  pub matcher : Text → Bool

-- A pointer into PathParamRegistry::Types. The code makes no other descriptor, so a pointer is one
-- of three, and pointers are equal when they are the same one.
pub data TypePointer : Type 0 where
  string_type float_type int_type : TypePointer

abbrev pub descriptor : TypePointer → PathParamTypeDescriptor
descriptor string_type = record { name = text "string"; priority = lowest; matcher = match_string }
descriptor float_type = record { name = text "float"; priority = medium; matcher = match_float }
descriptor int_type = record { name = text "int"; priority = highest; matcher = match_int }

abbrev pub types : List TypePointer
types = string_type ∷ float_type ∷ int_type ∷ []

find_in : Text → List TypePointer → Option TypePointer
find_in name [] = none
find_in name (t ∷ ts) = if text_eq (descriptor t).name name then some t else find_in name ts

-- PathParamRegistry::FindByName
unfoldable pub find_by_name : Text → Option TypePointer
unfolding find_in text_eq
find_by_name name = find_in name types

-- PathParamRegistry::Default
abbrev pub default_type : TypePointer
default_type = string_type

-- Pointer comparison
unfoldable pub same_type : TypePointer → TypePointer → Bool
same_type string_type string_type = true
same_type float_type float_type = true
same_type int_type int_type = true
same_type _ _ = false
