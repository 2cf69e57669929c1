-- ===== src/Orders/Serving.antt =====
-- How a request to the orders server reaches a method of the controller, and how the method's
-- response gets back.
use ecommerce_platform.Prelude.{
  ℕ, ◌≡◌, refl, ap, ◌∙◌, inl, inr, true, List, [], Option, none, some, arith, if◌then◌else◌,
  Bool-cases, Option-cases, lookup, Text, text, Text-eq, ℤ,
}
use ecommerce_platform.Http.Context.{RequestContext, make_context}
use ecommerce_platform.Http.Error.{
  Outcome, HttpError, returns, throws, Exception, invalid_parameter, ◌>>=◌,
}
use ecommerce_platform.Http.ErrorMapping.{map_exception}
use ecommerce_platform.Http.Json.{JsonLibrary, IsAscii}
use ecommerce_platform.Http.Message.{Request, Response, json_response}
use ecommerce_platform.Http.Message.Printing.{
  IsPrintable, reply, error_reply, json_response-reply, error_response-error_reply,
}
use ecommerce_platform.Http.Router.{
  Target, Handler, HandlerPointer, collect_query, bind_handler, answer, dispatch, route,
}
use ecommerce_platform.Http.Verb.{Verb, Verb-eq}
use ecommerce_platform.Orders.Controller.{OrdersController, orders_controller}
use ecommerce_platform.Orders.Routes.{bound, orders_trie}
use ecommerce_platform.Orders.Ways.{find_route-way}
use ecommerce_platform.Parser.Integral.{int32, int64, fits, try_parse_integral}
use ecommerce_platform.Parser.Integral.Literal.{literal-IsAscii}
use ecommerce_platform.Parser.Integral.Narrowing.{try_parse_integral-narrower}
use ecommerce_platform.Parser.Params.{GeneralParams, invalid_parameter_what, try_get, required}
use ecommerce_platform.Parser.Values.{integral as integral_type, try_parse}
use ecommerce_platform.Routing.ParamType.{match_int, has_value}
use ecommerce_platform.Routing.Paths.{split_path}
use ecommerce_platform.Routing.Trie.{TrieNode, find_path, handlers, pick_handler, find_route}

-- A 64-bit literal is read as an `int` if its value fits, and refused if not.
narrow :
    (s : Text) (z : ℤ)
    → try_parse_integral int64 s ≡ some z
    → try_parse_integral int32 s ≡ (if fits int32 z then some z else none)
narrow s z h = try_parse_integral-narrower int32 int64 s z refl (omega arith) (omega arith) h

pub matched-IsAscii : (s : Text) → match_int s ≡ true → IsAscii s
unfolding match_int
matched-IsAscii s h = elim (Option-cases (try_parse_integral int64 s)) [
  | inl refused ↦ cc (rw (refused, has_value) at h)
  | inr (z, e) ↦ literal-IsAscii int64 s z e
]

abbrev pub refused : Exception
refused = invalid_parameter (text "order_id")

bind_handler-alive :
    (lib : JsonLibrary) (method : HandlerPointer OrdersController)
    (lock : ℕ → Option OrdersController) (ctx : RequestContext)
    → lock 0 ≡ some orders_controller
    → bound lib method lock ctx ≡ method orders_controller ctx
unfolding bind_handler
bind_handler-alive lib method lock ctx alive = rw (alive, bind_handler)

module _ (lib : JsonLibrary) where
  open lib use {Json, object, array, string, integer, boolean, parse, is_utf8, printable}

  -- An error with ASCII texts.
  abbrev pub AsciiError : HttpError → Type 0
  AsciiError error = IsAscii error.code × IsAscii error.message

  pub ascii-IsPrintable : (error : HttpError) → AsciiError error → IsPrintable lib error
  ascii-IsPrintable error (c, m) = record {
    code_utf8 = lib.is_utf8-ascii error.code c;
    message_utf8 = lib.is_utf8-ascii error.message m;
  }

  pub ascii_string : (s : Text) → IsAscii s → printable (string s) ≡ true
  ascii_string s a = lib.printable-string s ∙ lib.is_utf8-ascii s a

  module _ (parse_target : Text → Option Target) (lock : ℕ → Option OrdersController)
      (alive : lock 0 ≡ some orders_controller) (req : Request) (parsed : Target)
      (good : parse_target req.target ≡ some parsed) where
    abbrev pub query : GeneralParams
    query = collect_query parsed.params []

    abbrev pub serve : Outcome Response
    serve = route lib parse_target lock (orders_trie lib) req

    -- A request whose way ends in a node that has a controller's method for it is answered by that.
    pub served :
        (segments : List Text) (end : TrieNode (Handler OrdersController)) (params : GeneralParams)
        (v : Verb) (method : HandlerPointer OrdersController)
        → split_path parsed.path ≡ segments
        → find_path segments (orders_trie lib) [] ≡ some (end, params)
        → req.method ≡ v
        → lookup v (handlers end) ≡ some (bound lib method)
        → serve ≡ answer lib req (method orders_controller (make_context req params query))
    unfolding route dispatch pick_handler
    served segments end params v method cut leads m held =
        let found : find_route req.method parsed.path (orders_trie lib)
            ≡ some (bound lib method, params) =
          find_route-way lib req.method parsed.path segments _ cut leads
          ∙ rw (m, pick_handler, held) in
        rw (good, found, route)
          (ap (answer lib req)
            (bind_handler-alive lib method lock (make_context req params query) alive))

    -- A handler's response with a value that is printed reaches the client.
    pub answer-reply :
        (o : Outcome Response) (status : ℕ) (body : Json)
        → o ≡ json_response lib req status body
        → printable body ≡ true
        → answer lib req o ≡ returns (reply lib req status body)
    unfolding answer
    answer-reply o status body e p = rw (e, json_response-reply lib req status body p)

    -- The parameter that the methods ask for as an `int`.
    int_parameter :
        (s : Text) (z : ℤ) (params : GeneralParams)
        → try_parse_integral int64 s ≡ some z
        → lookup (text "order_id") params ≡ some s
        → required (integral_type int32) (record { entries = params }) (text "order_id")
          ≡ (if fits int32 z then returns z else throws (invalid_parameter (text "order_id")))
    unfolding required try_get try_parse
    int_parameter s z params h l = ground (arith, narrow s z h)

    -- What a method answers that reads the number of an order and then goes on.
    pub numbered :
        (s : Text) (z : ℤ) (params : GeneralParams) (go : ℤ → Outcome Response) (res : Response)
        → try_parse_integral int64 s ≡ some z
        → lookup (text "order_id") params ≡ some s
        → (fits int32 z ≡ true → answer lib req (go z) ≡ returns res)
        → answer lib req
            (required (integral_type int32) (record { entries = params }) (text "order_id") >>= go)
          ≡ returns (if fits int32 z then res else error_reply lib req (map_exception refused))
    unfolding answer map_exception invalid_parameter_what
    numbered s z params go res h l e = elim (Bool-cases (fits int32 z)) [
      | inl small ↦ rw (int_parameter s z params h l, small) (e small)
      | inr large ↦
          rw (int_parameter s z params h l, large)
            (error_response-error_reply lib req (map_exception refused)
              (ascii-IsPrintable (map_exception refused) (omega arith)))
    ]
