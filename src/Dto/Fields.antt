-- ===== src/Dto/Fields.antt =====
-- What the conversions use of the JSON library: `at` and `get_to` at the types of the fields. The
-- library reads a number that does not fit the field's type modulo the size of that type.
use ecommerce_platform.Prelude.{
  ◌-◌, ◌%◌, ◌^◌, ◌≡◌, true, List, none, some, arith, ltb, if◌then◌else◌, lookup, Text, Text-eq, ℤ,
  pos, negsuc,
}
use ecommerce_platform.Http.Error.{Outcome, returns, throws, other_exception}
use ecommerce_platform.Http.Json.{JsonLibrary}
use ecommerce_platform.Parser.Integral.{IntegralType, int32, int64, fits}

-- static_cast to a signed type from a wider one
unfoldable pub wrap : IntegralType → ℤ → ℤ
wrap t (pos n) =
    let m = n % 2 ^ t.width in
    if ltb m (2 ^ (t.width - 1)) then pos m else negsuc (2 ^ t.width - m - 1)
wrap t (negsuc n) =
    let m = n % 2 ^ t.width in
    if ltb m (2 ^ (t.width - 1)) then negsuc m else pos (2 ^ t.width - m - 1)

pub wrap-int64 : (z : ℤ) → fits int64 z ≡ true → wrap int64 z ≡ z
unfolding wrap fits
wrap-int64 (pos n) h = ground arith
wrap-int64 (negsuc n) h = ground arith

pub wrap-int32 : (z : ℤ) → fits int32 z ≡ true → wrap int32 z ≡ z
unfolding wrap fits
wrap-int32 (pos n) h = ground arith
wrap-int32 (negsuc n) h = ground arith

module _ (lib : JsonLibrary) where
  open lib use {
    Json, object, is_object, member, as_string, as_integer, missing_key_what, type_error_what,
  }

  -- j.at(key): an exception where the value is no object, or has no such key.
  unfoldable pub at : Text → Json → Outcome Json
  at key j =
      if is_object j
      then elim (member key j) [
        | none ↦ throws (other_exception (missing_key_what key))
        | some value ↦ returns value
      ]
      else throws (other_exception (type_error_what j))

  unfoldable pub get_string : Json → Outcome Text
  get_string j = elim (as_string j) [
    | none ↦ throws (other_exception (type_error_what j))
    | some s ↦ returns s
  ]

  unfoldable pub get_integral : IntegralType → Json → Outcome ℤ
  get_integral t j = elim (as_integer j) [
    | none ↦ throws (other_exception (type_error_what j))
    | some z ↦ returns (wrap t z)
  ]

  pub at-object :
      (key : Text) (fields : List (Text × Json)) (value : Json)
      → lookup key fields ≡ some value
      → at key (object fields) ≡ returns value
  unfolding at
  at-object key fields value h = rw (lib.is_object-object fields, lib.member-object key fields, h)

  pub get_string-string : (s : Text) → get_string (lib.string s) ≡ returns s
  unfolding get_string
  get_string-string s = rw (get_string, lib.as_string-string s)

  pub get_integral-integer :
      (t : IntegralType) (z : ℤ) → get_integral t (lib.integer z) ≡ returns (wrap t z)
  unfolding get_integral
  get_integral-integer t z = rw (get_integral, lib.as_integer-integer z)
