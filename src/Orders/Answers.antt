-- ===== src/Orders/Answers.antt =====
-- What the orders server answers to requests for one order.
pub mod Names
use ecommerce_platform.Prelude.{
  ℕ, ◌+◌, ◌≡◌, ◌≢◌, refl, ap, ◌∙◌, inl, inr, Bool, true, false, List, [], ◌∷◌, ◌++◌, Option, none,
  some, arith, if◌then◌else◌, Bool-cases, Option-cases, lookup, Text, text, text_eq, Text-eq, ℤ,
  pos,
}
use ecommerce_platform.Http.Context.{RequestContext, make_context}
use ecommerce_platform.Http.Error.{
  Outcome, HttpError, returns, throws, Exception, invalid_parameter, ◌>>=◌,
}
use ecommerce_platform.Http.ErrorMapping.{map_exception}
use ecommerce_platform.Http.Json.{JsonLibrary, IsAscii}
use ecommerce_platform.Http.Message.{Request, Response, json_response, error_response}
use ecommerce_platform.Http.Message.Printing.{
  IsPrintable, reply, error_reply, object-printable, json_response-reply,
  error_response-error_reply,
}
use ecommerce_platform.Http.Router.{
  Target, Handler, route_not_found, HandlerPointer, collect_query, bind_handler, answer, dispatch,
  route,
}
use ecommerce_platform.Http.Verb.{Verb, get, put, post, delete_, verb_eq, Verb-eq}
use ecommerce_platform.Orders.Controller.{
  OrdersController, orders_controller, value_or, invalid_request_body, list, remove_all, get_by_id,
  update, delete, get_order_name, name_field, update_order_name, test_method,
}
use ecommerce_platform.Orders.Routes.{
  bound, orders_node, order_node, name_node, random_node, remove_node, orders_trie,
}
use ecommerce_platform.Orders.Ways.{
  order_params, random_params, literal_matches, order_leads, no_order_leads, remove_all_leads,
  list_leads, name_leads, random_leads, find_route-way,
}
use ecommerce_platform.Parser.Integral.{int32, int64, fits, to_string, try_parse_integral}
use ecommerce_platform.Parser.Integral.Literal.{literal-IsAscii}
use ecommerce_platform.Parser.Integral.Narrowing.{try_parse_integral-narrower}
use ecommerce_platform.Parser.Params.{
  GeneralParams, TypedParams, invalid_parameter_what, try_get, required,
}
use ecommerce_platform.Parser.Values.{
  ValueType, integral as integral_type, boolean as boolean_type, try_parse, try_parse_string,
}
use ecommerce_platform.Routing.ParamType.{match_int, has_value}
use ecommerce_platform.Routing.Paths.{split_path}
use ecommerce_platform.Routing.Trie.{TrieNode, find_path, handlers, pick_handler, find_route}
use ecommerce_platform.Orders.Serving.{
  matched-IsAscii, ascii-IsPrintable, ascii_string, query, serve, refused, served, answer-reply,
  numbered,
}

module _ (lib : JsonLibrary) (parse_target : Text → Option Target)
    (lock : ℕ → Option OrdersController) (alive : lock 0 ≡ some orders_controller) (req : Request)
    (parsed : Target) (good : parse_target req.target ≡ some parsed) where
  open lib use {object, string, integer, boolean}

  -- While the controller is alive, a path of the segments `orders` and s, where s is neither a
  -- 64-bit integer literal nor the word `remove_all`, is answered by 404, whatever the method.
  pub route-not_an_order :
      (s : Text)
      → split_path parsed.path ≡ text "orders" ∷ s ∷ []
      → match_int s ≡ false
      → s ≢ text "remove_all"
      → route lib parse_target lock (orders_trie lib) req
        ≡ returns (error_reply lib req route_not_found)
  unfolding route pick_handler
  route-not_an_order s cut h n =
      let missing : find_route req.method parsed.path (orders_trie lib) ≡ none =
        find_route-way lib req.method parsed.path _ _ cut (no_order_leads lib s h n) in
      rw (good, missing, route)
        (error_response-error_reply lib req route_not_found
          (ascii-IsPrintable lib route_not_found (omega arith)))

  -- While the controller is alive, GET of a path of the segments `orders` and s, where s is a 64-bit
  -- integer literal, is answered by 200 with the text s as the id.
  pub route-get_by_id :
      (s : Text)
      → split_path parsed.path ≡ text "orders" ∷ s ∷ []
      → req.method ≡ get
      → match_int s ≡ true
      → route lib parse_target lock (orders_trie lib) req
        ≡ returns (
            reply lib req 200 (
              object ((text "order_id", string s) ∷ (text "status", string (text "pending")) ∷ [])))
  unfolding lookup verb_eq get_by_id required try_get try_parse try_parse_string text_eq
  route-get_by_id s cut m h =
      served lib parse_target lock alive req parsed good _ _ _ get (get_by_id lib) cut
        (order_leads lib s h) m refl
      ∙ answer-reply lib parse_target lock alive req parsed good _ 200 _ refl (
          object-printable lib _ (
            (omega arith, lib.printable-string s ∙ lib.is_utf8-ascii s (matched-IsAscii s h)),
            ((omega arith, ascii_string lib (text "pending") (omega arith)), tt),
          ))

  -- While the controller is alive, PUT of a path of the segments `orders` and s, where s is the literal
  -- of a 64-bit integer z, is answered by 200 with the
  -- number z if z fits 32 bits, and by 400 with the name of the parameter if not: the route takes
  -- 64-bit integers, and the method asks for an `int`.
  pub route-update :
      (s : Text) (z : ℤ)
      → split_path parsed.path ≡ text "orders" ∷ s ∷ []
      → req.method ≡ put
      → try_parse_integral int64 s ≡ some z
      → route lib parse_target lock (orders_trie lib) req
        ≡ returns (
            if fits int32 z
            then reply lib req 200
                (object ((text "updated", boolean true) ∷ (text "order_id", integer z) ∷ []))
            else error_reply lib req (map_exception (invalid_parameter (text "order_id"))))
  unfolding lookup verb_eq text_eq update
  route-update s z cut m h =
      served lib parse_target lock alive req parsed good _ _ _ put (update lib) cut
        (order_leads lib s (literal_matches s z h)) m refl
      ∙ numbered lib parse_target lock alive req parsed good s z _ _ _ h refl (λ small.
        answer-reply lib parse_target lock alive req parsed good _ 200 _ refl (
          object-printable lib _ (
            (omega arith, lib.printable-boolean true),
            ((omega arith, lib.printable-integer z), tt),
          )))
