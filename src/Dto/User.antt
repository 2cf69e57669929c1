-- ===== src/Dto/User.antt =====
-- common/dto/include/User.hpp
use ecommerce_platform.Prelude.{
  ◌≡◌, refl, arith, ◌∙◌, true, true, [], ◌∷◌, lookup, Text, Text-eq, text, text_eq, ℤ,
}
use ecommerce_platform.Dto.Fields.{
  at, get_string, get_integral, at-object, get_string-string, get_integral-integer, wrap-int64,
}
use ecommerce_platform.Http.Error.{Outcome, returns, ◌>>=◌}
use ecommerce_platform.Http.Json.{JsonLibrary, dump}
use ecommerce_platform.Http.Message.Printing.{object-printable}
use ecommerce_platform.Parser.Integral.{int64, fits}

pub record User : Type 0 where
  pub id : ℤ
  pub status : Text
  pub created_at : Text
  pub updated_at : Text

module _ (lib : JsonLibrary) where
  open lib use {Json, object, string, integer, parse, is_utf8, printable}

  unfoldable pub to_json : User → Json
  to_json u = object (
      (text "id", integer u.id)
      ∷ (text "status", string u.status)
      ∷ (text "created_at", string u.created_at)
      ∷ (text "updated_at", string u.updated_at)
      ∷ [])

  unfoldable pub from_json : Json → Outcome User
  from_json j = do
    j_id ← at lib (text "id") j
    id ← get_integral lib int64 j_id
    j_status ← at lib (text "status") j
    status ← get_string lib j_status
    j_created ← at lib (text "created_at") j
    created_at ← get_string lib j_created
    j_updated ← at lib (text "updated_at") j
    updated_at ← get_string lib j_updated
    returns (record { id = id; status = status; created_at = created_at; updated_at = updated_at })

  to_json-printable :
      (u : User)
      → is_utf8 u.status ≡ true
      → is_utf8 u.created_at ≡ true
      → is_utf8 u.updated_at ≡ true
      → printable (to_json u) ≡ true
  unfolding to_json
  to_json-printable u a b c = object-printable lib _ (
    (omega arith, lib.printable-integer u.id),
    (
      (omega arith, lib.printable-string u.status ∙ a),
      (
        (omega arith, lib.printable-string u.created_at ∙ b),
        ((omega arith, lib.printable-string u.updated_at ∙ c), tt),
      ),
    ),
  )

  -- A user whose id has 64 bits and whose texts are UTF-8, converted to JSON, printed, parsed and
  -- converted back, is the same user.
  user_roundtrip :
      (u : User)
      → fits int64 u.id ≡ true
      → is_utf8 u.status ≡ true
      → is_utf8 u.created_at ≡ true
      → is_utf8 u.updated_at ≡ true
      → (dump lib (to_json u) >>= λ printed. from_json (parse printed)) ≡ returns u
  unfolding from_json to_json lookup text_eq dump
  user_roundtrip u h a b c = rw (
    to_json-printable u a b c,
    lib.parse-print _ (to_json-printable u a b c),
    at-object lib (text "id") _ _ refl,
    get_integral-integer lib int64 u.id,
    wrap-int64 u.id h,
    at-object lib (text "status") _ _ refl,
    get_string-string lib u.status,
    at-object lib (text "created_at") _ _ refl,
    get_string-string lib u.created_at,
    at-object lib (text "updated_at") _ _ refl,
    get_string-string lib u.updated_at,
  )
