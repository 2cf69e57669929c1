-- ===== src/Client/Answers.antt =====
-- What the client's calls return when the orders server answers them.
pub mod Listing
use ecommerce_platform.Prelude.{
  ℕ, ◌≡◌, refl, ap, ◌∙◌, Bool, true, List, [], ◌∷◌, ◌++◌, Option, some, arith, if◌then◌else◌,
  lookup, emplace, Text, Text-eq, text, text_eq, ℤ, pos,
}
use ecommerce_platform.Client.{
  OrdersClient, HttpResponse, get_orders, get_order_by_id, update_order_name, delete_order,
  remove_all, test_method,
}
use ecommerce_platform.Client.Server.{KnowsMethods, to_server, bare, request-bare, request-body}
use ecommerce_platform.Client.Targets.{
  printed_literal, orders_path, remove_all_path, order_path, name_path, random_path,
}
use ecommerce_platform.Http.Error.{Outcome, returns}
use ecommerce_platform.Http.Json.{JsonLibrary}
use ecommerce_platform.Http.Message.{Request}
use ecommerce_platform.Http.Message.Printing.{reply, object-printable}
use ecommerce_platform.Http.Router.{Target, collect_query}
use ecommerce_platform.Http.Verb.{Verb}
use ecommerce_platform.Orders.Answers.{route-get_by_id}
use ecommerce_platform.Orders.Answers.Names.{
  route-list, route-remove_all, route-delete, route-update_order_name, route-test_method,
}
use ecommerce_platform.Orders.Controller.{OrdersController, orders_controller, value_or, name_field}
use ecommerce_platform.Orders.Serving.{matched-IsAscii}
use ecommerce_platform.Orders.Ways.{literal_matches}
use ecommerce_platform.Parser.Integral.{int32, fits, to_string}
use ecommerce_platform.Parser.Integral.Printing.{try_parse_integral-to_string}
use ecommerce_platform.Parser.Params.{try_get}
use ecommerce_platform.Parser.Values.{integral as integral_type, try_parse}
use ecommerce_platform.Routing.ParamType.{match_int}
use ecommerce_platform.Routing.Paths.Splitting.{IsSegment}

-- A target without characters that have a meaning in it is its own path.
abbrev pub IsPath : (Text → Option Target) → Text → Type 0
IsPath parse_target target = parse_target target ≡ some (record { path = target; params = [] })

kept {ℓ} : {A : Type ℓ} (b : Bool) (x y : A) → b ≡ true → (if b then x else y) ≡ x
kept b x y h = rw h

module _ (lib : JsonLibrary) where
  -- The call returns status 200 with a body that is parsed to this value.
  abbrev pub Delivers : Outcome HttpResponse → lib.Json → Type 0
  Delivers o j =
      (printed : Text) × (o ≡ returns (record { status = 200; body = printed }))
      × (lib.parse printed ≡ j)

module _ (lib : JsonLibrary) (string_to_verb : Text → Verb) (names : KnowsMethods string_to_verb)
    (parse_target : Text → Option Target) (lock : ℕ → Option OrdersController)
    (alive : lock 0 ≡ some orders_controller) (self : OrdersClient) where
  open lib use {Json, object, array, string, integer, boolean, print, parse, printable, is_utf8}

  pub delivered :
      (o : Outcome HttpResponse) (j : Json)
      → o ≡ returns (record { status = 200; body = print j })
      → printable j ≡ true
      → Delivers lib o j
  delivered o j e p = (print j, e, lib.parse-print j p)

  -- Asking for an order by an `int` delivers the order with its number as text.
  pub get_order_by_id-Delivers :
      (z : ℤ)
      → fits int32 z ≡ true
      → IsPath parse_target (text "/orders/" ++ to_string z)
      → Delivers lib (get_order_by_id lib string_to_verb (to_server lib parse_target lock) self z) (
          object (
            (text "order_id", string (to_string z))
            ∷ (text "status", string (text "pending"))
            ∷ []))
  unfolding get_order_by_id
  get_order_by_id-Delivers z f good =
      delivered _ _
        (request-bare lib parse_target lock string_to_verb self (text "GET") _ _ (
          route-get_by_id lib parse_target lock alive _ _ good (to_string z) (order_path z f)
            names.knows_get matches))
        (object-printable lib _ (
          (omega arith, lib.printable-string _ ∙ lib.is_utf8-ascii _ (matched-IsAscii _ matches)),
          ((omega arith, lib.printable-string _ ∙ lib.is_utf8-ascii _ (omega arith)), tt),
        ))
    where
      matches : match_int (to_string z) ≡ true
      matches = literal_matches (to_string z) z (printed_literal z f)

  -- Deleting an order delivers its number back.
  pub delete_order-Delivers :
      (z : ℤ)
      → fits int32 z ≡ true
      → IsPath parse_target (text "/orders/" ++ to_string z)
      → Delivers lib
          (delete_order lib string_to_verb (to_server lib parse_target lock) self z)
          (object ((text "deleted", boolean true) ∷ (text "order_id", integer z) ∷ []))
  unfolding delete_order
  delete_order-Delivers z f good =
      delivered _ _
        (request-bare lib parse_target lock string_to_verb self (text "DELETE") _ _ (
          route-delete lib parse_target lock alive _ _ good (to_string z) z (printed_literal z f)
            (order_path z f) names.knows_delete
          ∙ ap returns (kept _ _ _ f)))
        (object-printable lib _
          ((omega arith, lib.printable-boolean true), ((omega arith, lib.printable-integer z), tt)))

  -- Removing all orders delivers that they are removed.
  pub remove_all-Delivers :
      IsPath parse_target (text "/orders/remove_all")
      → Delivers lib
          (remove_all lib string_to_verb (to_server lib parse_target lock) self)
          (object ((text "removed", boolean true) ∷ []))
  unfolding remove_all
  remove_all-Delivers good =
      delivered _ _
        (request-bare lib parse_target lock string_to_verb self (text "POST") _ _
          (route-remove_all lib parse_target lock alive _ _ good remove_all_path names.knows_post))
        (object-printable lib _ ((omega arith, lib.printable-boolean true), tt))

  named :
      (name : Text) → name_field lib (object ((text "name", string name) ∷ [])) ≡ some (string name)
  unfolding name_field lookup text_eq
  named name = rw (
    name_field,
    lib.is_object-object _,
    lib.member-object (text "name") _,
    lib.as_string-string name,
  )

  -- While the controller is alive and the target is parsed to its own path, renaming an order that
  -- is an `int` to a UTF-8 text delivers the order's number and the same name, which has gone
  -- through the printed and parsed bodies of the request and of the response.
  pub update_order_name-Delivers :
      (z : ℤ) (name : Text)
      → fits int32 z ≡ true
      → is_utf8 name ≡ true
      → IsPath parse_target (text "/orders/" ++ (to_string z ++ text "/name"))
      → Delivers lib
          (update_order_name lib string_to_verb (to_server lib parse_target lock) self z name)
          (object (
            (text "updated", boolean true)
            ∷ (text "order_id", integer z)
            ∷ (text "new_name", string name)
            ∷ []))
  unfolding update_order_name
  update_order_name-Delivers z name f u good =
      delivered _ _
        (request-body lib parse_target lock string_to_verb self (text "PUT") _ _ _ sendable (
          route-update_order_name lib parse_target lock alive _ _ good (to_string z) z
            (printed_literal z f) (string name) (name_path z f) names.knows_put
            (rw (lib.parse-print _ sendable) (named name)) named_printable
          ∙ ap returns (kept _ _ _ f)))
        (object-printable lib _ (
          (omega arith, lib.printable-boolean true),
          ((omega arith, lib.printable-integer z), ((omega arith, named_printable), tt)),
        ))
    where
      named_printable : printable (string name) ≡ true
      named_printable = lib.printable-string name ∙ u

      sendable : printable (object ((text "name", string name) ∷ [])) ≡ true
      sendable = object-printable lib _ ((omega arith, named_printable), tt)

  -- Putting a text under an order that is an `int` delivers both back, if the text is UTF-8, is not
  -- empty and has no slash.
  pub test_method-Delivers :
      (z : ℤ) (r : Text)
      → fits int32 z ≡ true
      → IsSegment r
      → is_utf8 r ≡ true
      → IsPath parse_target (text "/orders/" ++ (to_string z ++ (text "/name/" ++ r)))
      → Delivers lib
          (test_method lib string_to_verb (to_server lib parse_target lock) self z r)
          (object ((text "order_id", integer z) ∷ (text "random_string", string r) ∷ []))
  unfolding test_method
  test_method-Delivers z r f g u good =
      delivered _ _
        (request-bare lib parse_target lock string_to_verb self (text "PUT") _ _ (
          route-test_method lib parse_target lock alive _ _ good (to_string z) z
            (printed_literal z f) r (random_path z f r g) names.knows_put u
          ∙ ap returns (kept _ _ _ f)))
        (object-printable lib _
          ((omega arith, lib.printable-integer z), ((omega arith, lib.printable-string r ∙ u), tt)))
