-- ===== src/Dto/OrderCreatedEvent.antt =====
-- common/dto/include/OrderCreatedEvent.hpp and common/dto/src/OrderCreatedEvent.cpp. The value that
-- to_json fills is null before, so that the two assignments make an object.
use ecommerce_platform.Prelude.{
  ◌≡◌, refl, arith, ◌∙◌, true, true, [], ◌∷◌, lookup, Text, Text-eq, text, text_eq, ℤ,
}
use ecommerce_platform.Dto.Fields.{
  at, get_string, get_integral, at-object, get_string-string, get_integral-integer, wrap-int32,
}
use ecommerce_platform.Http.Error.{Outcome, returns, ◌>>=◌}
use ecommerce_platform.Http.Json.{JsonLibrary, dump}
use ecommerce_platform.Http.Message.Printing.{object-printable}
use ecommerce_platform.Parser.Integral.{int32, fits}

pub record OrderCreatedEvent : Type 0 where
  pub order_id : Text
  pub amount : ℤ

module _ (lib : JsonLibrary) where
  open lib use {Json, object, string, integer, parse, is_utf8, printable}

  unfoldable pub to_json : OrderCreatedEvent → Json
  to_json e = object ((text "order_id", string e.order_id) ∷ (text "amount", integer e.amount) ∷ [])

  unfoldable pub from_json : Json → Outcome OrderCreatedEvent
  from_json j = do
    j_id ← at lib (text "order_id") j
    order_id ← get_string lib j_id
    j_amount ← at lib (text "amount") j
    amount ← get_integral lib int32 j_amount
    returns (record { order_id = order_id; amount = amount })

  to_json-printable :
      (e : OrderCreatedEvent) → is_utf8 e.order_id ≡ true → printable (to_json e) ≡ true
  unfolding to_json
  to_json-printable e a = object-printable lib _ (
    (omega arith, lib.printable-string e.order_id ∙ a),
    ((omega arith, lib.printable-integer e.amount), tt),
  )

  -- An event whose amount is an `int` and whose id is UTF-8, converted to JSON, printed, parsed and converted back, is the
  -- same event.
  event_roundtrip :
      (e : OrderCreatedEvent)
      → fits int32 e.amount ≡ true
      → is_utf8 e.order_id ≡ true
      → (dump lib (to_json e) >>= λ printed. from_json (parse printed)) ≡ returns e
  unfolding from_json to_json lookup text_eq dump
  event_roundtrip e h a = rw (
    to_json-printable e a,
    lib.parse-print _ (to_json-printable e a),
    at-object lib (text "order_id") _ _ refl,
    get_string-string lib e.order_id,
    at-object lib (text "amount") _ _ refl,
    get_integral-integer lib int32 e.amount,
    wrap-int32 e.amount h,
  )
