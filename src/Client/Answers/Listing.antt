-- ===== src/Client/Answers/Listing.antt =====
-- The client's listing of orders: the two numbers go into the query of the target and come back.
use ecommerce_platform.Prelude.{
  ℕ, ◌≡◌, refl, ap, ◌∙◌, true, List, [], ◌∷◌, ◌++◌, Option, some, arith, lookup, emplace, Text,
  Text-eq, text, text_eq, ℤ, pos,
}
use ecommerce_platform.Client.{OrdersClient, get_orders}
use ecommerce_platform.Client.Answers.{Delivers, delivered}
use ecommerce_platform.Client.Server.{KnowsMethods, to_server, bare, request-bare}
use ecommerce_platform.Client.Targets.{orders_path}
use ecommerce_platform.Http.Error.{returns}
use ecommerce_platform.Http.Json.{JsonLibrary}
use ecommerce_platform.Http.Message.{Request}
use ecommerce_platform.Http.Message.Printing.{reply, object-printable}
use ecommerce_platform.Http.Router.{Target, collect_query}
use ecommerce_platform.Http.Verb.{Verb}
use ecommerce_platform.Orders.Answers.Names.{route-list}
use ecommerce_platform.Orders.Controller.{OrdersController, orders_controller, value_or}
use ecommerce_platform.Parser.Integral.{int32, fits, to_string}
use ecommerce_platform.Parser.Integral.Printing.{try_parse_integral-to_string}
use ecommerce_platform.Parser.Params.{try_get}
use ecommerce_platform.Parser.Values.{integral as integral_type, try_parse}

abbrev numbers : ℤ → ℤ → List (Text × Text)
numbers limit offset = (text "limit", to_string limit) ∷ (text "offset", to_string offset) ∷ []

abbrev number_at : Text → List (Text × Text) → ℤ → ℤ
number_at key params other =
    value_or (try_get (integral_type int32) (record { entries = collect_query params [] }) key)
      other

-- The two numbers, as List reads them from the query.
asked_for :
    (limit offset : ℤ)
    → fits int32 limit ≡ true
    → fits int32 offset ≡ true
    → ◌≡◌ {A = ℤ × ℤ}
        (
          number_at (text "limit") (numbers limit offset) (pos 20),
          number_at (text "offset") (numbers limit offset) (pos 0),
        )
        (limit, offset)
unfolding try_get try_parse collect_query emplace lookup text_eq
asked_for limit offset f g = rw (
  try_parse_integral-to_string int32 limit refl f,
  try_parse_integral-to_string int32 offset refl g,
)

module _ (lib : JsonLibrary) (string_to_verb : Text → Verb) (names : KnowsMethods string_to_verb)
    (parse_target : Text → Option Target) (lock : ℕ → Option OrdersController)
    (alive : lock 0 ≡ some orders_controller) (self : OrdersClient) where
  open lib use {Json, object, array, string, integer, boolean, print, parse, printable, is_utf8}

  abbrev asking_for : ℤ → ℤ → Request
  asking_for limit offset =
      bare lib parse_target lock string_to_verb self (text "GET")
        (text "/orders?limit=" ++ (to_string limit ++ (text "&offset=" ++ to_string offset)))

  abbrev listing : ℤ → ℤ → Json
  listing limit offset = object (
      (text "limit", integer limit)
      ∷ (text "offset", integer offset)
      ∷ (text "orders", array [])
      ∷ [])

  -- While the controller is alive, asking for orders with a limit and an offset that are `int`s
  -- delivers these two numbers back, if the target is parsed to the path /orders with the two
  -- numbers as the client printed them.
  pub get_orders-Delivers :
      (limit offset : ℤ)
      → fits int32 limit ≡ true
      → fits int32 offset ≡ true
      → parse_target
          (text "/orders?limit=" ++ (to_string limit ++ (text "&offset=" ++ to_string offset)))
        ≡ some (record {
          path = text "/orders";
          params = (text "limit", to_string limit) ∷ (text "offset", to_string offset) ∷ [];
        })
      → Delivers lib
          (get_orders lib string_to_verb (to_server lib parse_target lock) self limit offset)
          (object (
            (text "limit", integer limit)
            ∷ (text "offset", integer offset)
            ∷ (text "orders", array [])
            ∷ []))
  unfolding get_orders
  get_orders-Delivers limit offset f g good =
      delivered lib string_to_verb names parse_target lock alive self _ _
        (request-bare lib parse_target lock string_to_verb self (text "GET") _ _ (
          route-list lib parse_target lock alive _ _ good orders_path names.knows_get
          ∙ ap
              (λ (o : ℤ × ℤ).
                returns (reply lib (asking_for limit offset) 200 (listing (o.0) (o.1))))
              (asked_for limit offset f g)))
        (object-printable lib _ (
          (omega arith, lib.printable-integer limit),
          ((omega arith, lib.printable-integer offset), ((omega arith, lib.printable-empty), tt)),
        ))
