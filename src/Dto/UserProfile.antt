-- ===== src/Dto/UserProfile.antt =====
-- common/dto/include/UserProfile.hpp
use ecommerce_platform.Prelude.{
  ◌≡◌, refl, ◌∙◌, arith, Bool, true, false, not, ◌&&◌, [], ◌∷◌, Option, none, some, lookup, Text,
  Text-eq, text, text_eq, ℤ, if◌then◌else◌,
}
use ecommerce_platform.Dto.Fields.{
  at, get_string, get_integral, at-object, get_string-string, get_integral-integer, wrap-int64,
}
use ecommerce_platform.Http.Error.{Outcome, returns, ◌>>=◌}
use ecommerce_platform.Http.Json.{JsonLibrary, dump}
use ecommerce_platform.Http.Message.Printing.{object-printable}
use ecommerce_platform.Parser.Integral.{int64, fits}

pub record UserProfile : Type 0 where
  pub user_id : ℤ
  pub display_name : Option Text

-- value_or("")
abbrev pub shown_name : Option Text → Text
shown_name none = []
shown_name (some name) = name

module _ (lib : JsonLibrary) where
  open lib use {
    Json, object, string, integer, parse, is_utf8, printable, is_object, member, is_null,
  }

  unfoldable pub to_json : UserProfile → Json
  to_json p = object (
      (text "user_id", integer p.user_id)
      ∷ (text "display_name", string (shown_name p.display_name))
      ∷ [])

  -- The test on the field: it is there and is not null.
  unfoldable pub has_name : Json → Bool
  has_name j =
      is_object j
      && elim (member (text "display_name") j) [ none ↦ false | some value ↦ not (is_null value) ]

  unfoldable pub named : Json → Outcome (Option Text)
  named j =
      if has_name j
      then (do
        value ← at lib (text "display_name") j
        name ← get_string lib value
        returns (some name))
      else returns none

  unfoldable pub from_json : Json → Outcome UserProfile
  from_json j = do
    j_id ← at lib (text "user_id") j
    user_id ← get_integral lib int64 j_id
    display_name ← named j
    returns (record { user_id = user_id; display_name = display_name })

  named-to_json : (p : UserProfile) → named (to_json p) ≡ returns (some (shown_name p.display_name))
  unfolding named has_name to_json lookup text_eq
  named-to_json p = rw (
    lib.is_object-object _,
    lib.member-object (text "display_name") _,
    lib.is_null-string _,
    at-object lib (text "display_name") _ _ refl,
    get_string-string lib _,
  )

  at-id : (p : UserProfile) → at lib (text "user_id") (to_json p) ≡ returns (integer p.user_id)
  unfolding to_json lookup text_eq
  at-id p = at-object lib (text "user_id") _ _ refl

  to_json-printable :
      (p : UserProfile) → is_utf8 (shown_name p.display_name) ≡ true → printable (to_json p) ≡ true
  unfolding to_json
  to_json-printable p a = object-printable lib _ (
    (omega arith, lib.printable-integer p.user_id),
    ((omega arith, lib.printable-string (shown_name p.display_name) ∙ a), tt),
  )

  -- A profile whose id has 64 bits and whose name, if it has one, is UTF-8, converted to JSON, printed, parsed and converted back, has the same
  -- id and the name that it had, but where it had no name its name is now the empty text.
  pub profile_roundtrip :
      (p : UserProfile)
      → fits int64 p.user_id ≡ true
      → is_utf8 (shown_name p.display_name) ≡ true
      → (dump lib (to_json p) >>= λ printed. from_json (parse printed))
        ≡ returns (record { user_id = p.user_id; display_name = some (shown_name p.display_name) })
  unfolding from_json dump
  profile_roundtrip p h a = rw (
    to_json-printable p a,
    lib.parse-print _ (to_json-printable p a),
    at-id p,
    named-to_json p,
    get_integral-integer lib int64 p.user_id,
    wrap-int64 p.user_id h,
  )
