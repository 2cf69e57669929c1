-- ===== src/Orders/Answers/Names.antt =====
-- What the orders server answers on the other routes.
use ecommerce_platform.Prelude.{
  ℕ, ◌≡◌, refl, ap, ◌∙◌, true, [], ◌∷◌, Option, none, some, arith, if◌then◌else◌, lookup, Text,
  text, text_eq, Text-eq, ℤ, pos,
}
use ecommerce_platform.Http.Error.{Outcome, returns}
use ecommerce_platform.Http.ErrorMapping.{map_exception}
use ecommerce_platform.Http.Json.{JsonLibrary}
use ecommerce_platform.Http.Message.{Request, Response}
use ecommerce_platform.Http.Message.Printing.{
  reply, error_reply, object-printable, error_response-error_reply,
}
use ecommerce_platform.Http.Router.{Target, collect_query, answer, route}
use ecommerce_platform.Http.Verb.{get, put, post, delete_, verb_eq, Verb-eq}
use ecommerce_platform.Orders.Controller.{
  OrdersController, orders_controller, value_or, invalid_request_body, list, remove_all, delete,
  name_field, update_order_name, test_method,
}
use ecommerce_platform.Orders.Routes.{orders_trie}
use ecommerce_platform.Orders.Ways.{
  random_params, literal_matches, order_leads, remove_all_leads, list_leads, name_leads,
  random_leads,
}
use ecommerce_platform.Parser.Integral.{int32, int64, fits, try_parse_integral}
use ecommerce_platform.Parser.Params.{TypedParams, try_get, required}
use ecommerce_platform.Parser.Values.{
  integral as integral_type, string_like, try_parse, try_parse_string,
}
use ecommerce_platform.Routing.Paths.{split_path}
use ecommerce_platform.Orders.Serving.{ascii-IsPrintable, refused, served, answer-reply, numbered}

random_parameter :
    (s r : Text)
    → required string_like (record { entries = random_params s r }) (text "random_string")
      ≡ returns r
unfolding required try_get try_parse try_parse_string lookup text_eq
random_parameter s r = refl

module _ (lib : JsonLibrary) (parse_target : Text → Option Target)
    (lock : ℕ → Option OrdersController) (alive : lock 0 ≡ some orders_controller) (req : Request)
    (parsed : Target) (good : parse_target req.target ≡ some parsed) where
  open lib use {Json, object, array, string, integer, boolean, parse, is_utf8, printable}

  abbrev served_here : Outcome Response
  served_here = route lib parse_target lock (orders_trie lib) req

  abbrev asked : TypedParams
  asked = record { entries = collect_query parsed.params [] }

  -- What is answered to a request for an `int` order: this value, or the error for its number.
  abbrev pub or_refused : ℤ → Json → Response
  or_refused z body =
      if fits int32 z then reply lib req 200 body else error_reply lib req (map_exception refused)

  -- POST of the segments `orders` and `remove_all`.
  pub route-remove_all :
      split_path parsed.path ≡ text "orders" ∷ text "remove_all" ∷ []
      → req.method ≡ post
      → route lib parse_target lock (orders_trie lib) req
        ≡ returns (reply lib req 200 (object ((text "removed", boolean true) ∷ [])))
  unfolding lookup verb_eq remove_all
  route-remove_all cut m =
      served lib parse_target lock alive req parsed good _ _ _ post (remove_all lib) cut
        (remove_all_leads lib) m refl
      ∙ answer-reply lib parse_target lock alive req parsed good _ 200 _ refl
          (object-printable lib _ ((omega arith, lib.printable-boolean true), tt))

  -- GET of the segment `orders`: the two numbers of the query, or their defaults.
  pub route-list :
      split_path parsed.path ≡ text "orders" ∷ []
      → req.method ≡ get
      → route lib parse_target lock (orders_trie lib) req
        ≡ returns (
            reply lib req 200 (
              object (
                (
                  text "limit",
                  integer (value_or (try_get (integral_type int32) asked (text "limit")) (pos 20)),
                )
                ∷ (
                  text "offset",
                  integer (value_or (try_get (integral_type int32) asked (text "offset")) (pos 0)),
                )
                ∷ (text "orders", array [])
                ∷ [])))
  unfolding lookup verb_eq list
  route-list cut m =
      served lib parse_target lock alive req parsed good _ _ _ get (list lib) cut (list_leads lib) m
        refl
      ∙ answer-reply lib parse_target lock alive req parsed good _ 200 _ refl (
          object-printable lib _ (
            (omega arith, lib.printable-integer _),
            ((omega arith, lib.printable-integer _), ((omega arith, lib.printable-empty), tt)),
          ))

  module _ (s : Text) (z : ℤ) (literal : try_parse_integral int64 s ≡ some z) where
    -- DELETE of an order.
    pub route-delete :
        split_path parsed.path ≡ text "orders" ∷ s ∷ []
        → req.method ≡ delete_
        → route lib parse_target lock (orders_trie lib) req
          ≡ returns (
              or_refused z
                (object ((text "deleted", boolean true) ∷ (text "order_id", integer z) ∷ [])))
    unfolding lookup verb_eq text_eq delete
    route-delete cut m =
        served lib parse_target lock alive req parsed good _ _ _ delete_ (delete lib) cut
          (order_leads lib s (literal_matches s z literal)) m refl
        ∙ numbered lib parse_target lock alive req parsed good s z _ _ _ literal refl (λ small.
          answer-reply lib parse_target lock alive req parsed good _ 200 _ refl (
            object-printable lib _ (
              (omega arith, lib.printable-boolean true),
              ((omega arith, lib.printable-integer z), tt),
            )))

    -- PUT of an order's name, with a body that has one.
    pub route-update_order_name :
        (name : Json)
        → split_path parsed.path ≡ text "orders" ∷ s ∷ text "name" ∷ []
        → req.method ≡ put
        → name_field lib (parse req.body) ≡ some name
        → printable name ≡ true
        → route lib parse_target lock (orders_trie lib) req
          ≡ returns (
              or_refused z (
                object (
                  (text "updated", boolean true)
                  ∷ (text "order_id", integer z)
                  ∷ (text "new_name", name)
                  ∷ [])))
    unfolding lookup verb_eq text_eq update_order_name
    route-update_order_name name cut m named p =
        served lib parse_target lock alive req parsed good _ _ _ put (update_order_name lib) cut
          (name_leads lib s (literal_matches s z literal)) m refl
        ∙ numbered lib parse_target lock alive req parsed good s z _ _ _ literal refl (λ small.
          answer-reply lib parse_target lock alive req parsed good _ 200 _ (rw named) (
            object-printable lib _ (
              (omega arith, lib.printable-boolean true),
              ((omega arith, lib.printable-integer z), ((omega arith, p), tt)),
            )))

    -- The same with a body that is no object or has no text under `name`.
    route-unnamed :
        split_path parsed.path ≡ text "orders" ∷ s ∷ text "name" ∷ []
        → req.method ≡ put
        → name_field lib (parse req.body) ≡ none
        → fits int32 z ≡ true
        → route lib parse_target lock (orders_trie lib) req
          ≡ returns (error_reply lib req invalid_request_body)
    unfolding lookup verb_eq text_eq update_order_name answer
    route-unnamed cut m named small =
        served lib parse_target lock alive req parsed good _ _ _ put (update_order_name lib) cut
          (name_leads lib s (literal_matches s z literal)) m refl
        ∙ numbered lib parse_target lock alive req parsed good s z _ _
            (error_reply lib req invalid_request_body) literal refl
            (λ k. rw named (
              ap (answer lib req) (
                error_response-error_reply lib req invalid_request_body
                  (ascii-IsPrintable lib invalid_request_body (omega arith)))))
        ∙ rw small

    -- PUT of a text under an order's name.
    pub route-test_method :
        (r : Text)
        → split_path parsed.path ≡ text "orders" ∷ s ∷ text "name" ∷ r ∷ []
        → req.method ≡ put
        → is_utf8 r ≡ true
        → route lib parse_target lock (orders_trie lib) req
          ≡ returns (
              or_refused z
                (object ((text "order_id", integer z) ∷ (text "random_string", string r) ∷ [])))
    unfolding lookup verb_eq text_eq test_method
    route-test_method r cut m p =
        served lib parse_target lock alive req parsed good _ _ _ put (test_method lib) cut
          (random_leads lib s r (literal_matches s z literal)) m refl
        ∙ numbered lib parse_target lock alive req parsed good s z _ _ _ literal refl (λ small.
          answer-reply lib parse_target lock alive req parsed good _ 200 _
            (rw (random_parameter s r))
            (object-printable lib _ (
              (omega arith, lib.printable-integer z),
              ((omega arith, lib.printable-string r ∙ p), tt),
            )))
