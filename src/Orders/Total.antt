-- ===== src/Orders/Total.antt =====
-- No exception leaves the orders server: each method throws only exceptions that are mapped to an
-- error that can be printed.
use ecommerce_platform.Prelude.{
  ℕ, ◌≡◌, refl, sym, ap, subst, ◌∙◌, inl, inr, Bool, true, false, ◌&&◌, List, [], ◌∷◌, Option, none,
  some, arith, if◌then◌else◌, Bool-cases, Option-cases, All, All-append, ◌===◌, Text, text, ◌<◌,
}
use ecommerce_platform.Http.Context.{RequestContext}
use ecommerce_platform.Http.Controller.{RouteDescription}
use ecommerce_platform.Http.Controller.Registration.{is_spelled, latest, handler_at-add_all}
use ecommerce_platform.Http.Controller.{register_routes}
use ecommerce_platform.Routing.Trie.{empty_node}
use ecommerce_platform.Routing.Trie.Adding.Effect.{route_pattern}
use ecommerce_platform.Routing.Trie.Adding.Steps.{handler_at-empty_node}
use ecommerce_platform.Http.Error.{Status, Outcome, HttpError, returns, throws, ◌>>=◌}
use ecommerce_platform.Http.ErrorMapping.{map_exception}
use ecommerce_platform.Http.Json.{JsonLibrary, IsAscii}
use ecommerce_platform.Http.Message.{Request, Response, json_response, error_response}
use ecommerce_platform.Http.Message.Printing.{IsPrintable, error_reply, error_response-error_reply}
use ecommerce_platform.Http.Router.{
  Target, Handler, controller_unavailable, invalid_request_target, route_not_found, HandlerPointer,
  bind_handler, answer, route,
}
use ecommerce_platform.Http.Router.Answers.{rejected, unrouted, handled, route-Routed}
use ecommerce_platform.Http.Verb.{Verb, Verb-eq}
use ecommerce_platform.Orders.Controller.{
  OrdersController, invalid_request_body, list, remove_all, get_by_id, update, delete,
  get_order_name, name_field, update_order_name, test_method, routes,
}
use ecommerce_platform.Orders.Routes.{orders_trie, orders_trie-IsWellFormed, register_routes-orders}
use ecommerce_platform.Orders.Serving.{ascii-IsPrintable}
use ecommerce_platform.Parser.Params.{TypedParams, invalid_parameter_what, try_get, required}
use ecommerce_platform.Parser.Values.{ValueType, Value}
use ecommerce_platform.Routing.Trie.Table.{RouteStep-eq, Pattern, handler_at}

module _ (lib : JsonLibrary) where
  open lib use {Json}

  -- What is thrown is mapped to an error with UTF-8 texts.
  abbrev pub IsMild {ℓ} : {A : Type ℓ} → Outcome A → Type 0
  IsMild (returns a) = Unit
  IsMild (throws e) = IsPrintable lib (map_exception e)

  bind-IsMild {ℓ κ} :
      {A : Type ℓ} {B : Type κ} (m : Outcome A) (f : A → Outcome B)
      → IsMild m
      → ((a : A) → IsMild (f a))
      → IsMild (m >>= f)
  bind-IsMild (returns a) f h k = k a
  bind-IsMild (throws e) f h k = h

  json_response-IsMild :
      (req : Request) (status : Status) (body : Json) → IsMild (json_response lib req status body)
  unfolding json_response map_exception
  json_response-IsMild req status body = elim (Bool-cases (lib.printable body)) [
    | inl p ↦ rw p tt
    | inr p ↦ rw p (ascii-IsPrintable lib _ (omega arith))
  ]

  error_response-IsMild :
      (req : Request) (error : HttpError) → IsMild (error_response lib req error)
  unfolding error_response
  error_response-IsMild req error = json_response-IsMild req error.status _

  required-IsMild :
      (t : ValueType) (params : TypedParams) (key : Text)
      → IsAscii key
      → IsMild (required t params key)
  unfolding required map_exception invalid_parameter_what
  required-IsMild t params key a = elim (Option-cases (try_get t params key)) [
    | inl missing ↦
        rw (missing, required)
          (ascii-IsPrintable lib _ (
            omega arith,
            All-append (λ c. c < 128) (text "Missing or invalid parameter: ") key (omega arith) a,
          ))
    | inr (value, found) ↦ rw (found, required) tt
  ]

  -- A method that never throws anything else.
  abbrev pub IsMildMethod : HandlerPointer OrdersController → Type 0
  IsMildMethod method = (c : OrdersController) (ctx : RequestContext) → IsMild (method c ctx)

  numbered-IsMild :
      (t : ValueType) (params : TypedParams) (f : Value t → Outcome Response)
      → ((v : Value t) → IsMild (f v))
      → IsMild (required t params (text "order_id") >>= f)
  numbered-IsMild t params f k =
      bind-IsMild _ f (required-IsMild t params (text "order_id") (omega arith)) k

  update_order_name-IsMild : IsMildMethod (update_order_name lib)
  unfolding update_order_name
  update_order_name-IsMild c ctx = numbered-IsMild _ _ _ λ z.
      elim (Option-cases (name_field lib (lib.parse ctx.request.body))) [
        | inl missing ↦ rw missing (error_response-IsMild ctx.request invalid_request_body)
        | inr (name, found) ↦ rw found (json_response-IsMild ctx.request 200 _)
      ]

  routes-IsMild :
      All (λ (r : RouteDescription OrdersController). IsMildMethod r.handler) (routes lib)
  unfolding routes list remove_all get_by_id update delete get_order_name test_method
  routes-IsMild = (
    (λ c ctx. json_response-IsMild ctx.request 200 _),
    (
      (λ c ctx. json_response-IsMild ctx.request 200 _),
      (
        (λ c ctx. numbered-IsMild _ _ _ (λ s. json_response-IsMild ctx.request 200 _)),
        (
          (λ c ctx. numbered-IsMild _ _ _ (λ z. json_response-IsMild ctx.request 200 _)),
          (
            (λ c ctx. numbered-IsMild _ _ _ (λ z. json_response-IsMild ctx.request 200 _)),
            (
              (λ c ctx. numbered-IsMild _ _ _ (λ z. json_response-IsMild ctx.request 200 _)),
              (
                update_order_name-IsMild,
                (
                  (λ c ctx. numbered-IsMild _ _ _ λ z.
                      bind-IsMild _ _ (required-IsMild _ _ (text "random_string") (omega arith))
                        (λ r. json_response-IsMild ctx.request 200 _)),
                  tt,
                ),
              ),
            ),
          ),
        ),
      ),
    ),
  )

  -- The handlers that the router makes of mild methods are mild, whatever the weak pointers say.
  abbrev IsMildEntry : Option (Handler OrdersController) → Type 0
  IsMildEntry none = Unit
  IsMildEntry (some handler) =
      (lock : ℕ → Option OrdersController) (ctx : RequestContext) → IsMild (handler lock ctx)

  bind_handler-IsMildEntry :
      (method : HandlerPointer OrdersController)
      → IsMildMethod method
      → IsMildEntry (some (bind_handler lib method 0))
  unfolding bind_handler
  bind_handler-IsMildEntry method h lock ctx = elim (Option-cases (lock 0)) [
    | inl gone ↦ rw (gone, bind_handler) (error_response-IsMild ctx.request controller_unavailable)
    | inr (c, alive) ↦ rw (alive, bind_handler) (h c ctx)
  ]

  latest-IsMildEntry :
      (q : Pattern) (v : Verb) (rs : List (RouteDescription OrdersController))
      (before : Option (Handler OrdersController))
      → All (λ (r : RouteDescription OrdersController). IsMildMethod r.handler) rs
      → IsMildEntry before
      → IsMildEntry (latest lib 0 q v rs before)
  unfolding latest
  latest-IsMildEntry q v [] before h b = b
  latest-IsMildEntry q v (r ∷ rs) before (h, hs) b =
      latest-IsMildEntry q v rs _ hs
        (entry (is_spelled (route_pattern r.path) q && (r.method === v)))
    where
      entry :
          (test : Bool) → IsMildEntry (if test then some (bind_handler lib r.handler 0) else before)
      entry true = bind_handler-IsMildEntry r.handler h
      entry false = b

  orders_trie-latest :
      (q : Pattern) (v : Verb)
      → handler_at q v (orders_trie lib) ≡ latest lib 0 q v (routes lib) none
  unfolding register_routes
  orders_trie-latest q v =
      ap (λ r. handler_at q v (r.0)) (sym (register_routes-orders lib))
      ∙ handler_at-add_all lib 0 (routes lib) empty_node q v (tt, tt, tt)
          (ap (λ r. r.1) (register_routes-orders lib))
      ∙ ap (latest lib 0 q v (routes lib)) (handler_at-empty_node v q)

  orders_trie-IsMildEntry :
      (q : Pattern) (v : Verb) → IsMildEntry (handler_at q v (orders_trie lib))
  orders_trie-IsMildEntry q v =
      subst IsMildEntry (sym (orders_trie-latest q v))
        (latest-IsMildEntry q v (routes lib) none routes-IsMild tt)

  answer-IsMild :
      (req : Request) (o : Outcome Response)
      → IsMild o
      → (res : Response) × (answer lib req o ≡ returns res)
  unfolding answer
  answer-IsMild req (returns res) h = (res, refl)
  answer-IsMild req (throws e) h = (
    error_reply lib req (map_exception e),
    error_response-error_reply lib req (map_exception e) h,
  )

  -- Every request to the orders server is answered, and no exception leaves Router::Route: whatever the
  -- request holds, and whether the controller is still there or not.
  pub route-returns :
      (parse_target : Text → Option Target) (lock : ℕ → Option OrdersController) (req : Request)
      → (res : Response) × (route lib parse_target lock (orders_trie lib) req ≡ returns res)
  route-returns parse_target lock req =
      elim (route-Routed lib parse_target lock (orders_trie lib) (orders_trie-IsWellFormed lib)
        req) [
          | rejected bad e ↦ (
            error_reply lib req invalid_request_target,
            e
                ∙ error_response-error_reply lib req invalid_request_target
                    (ascii-IsPrintable lib invalid_request_target (omega arith)),
          )
          | unrouted parsed good missing e ↦ (
            error_reply lib req route_not_found,
            e
                ∙ error_response-error_reply lib req route_not_found
                    (ascii-IsPrintable lib route_not_found (omega arith)),
          )
          | handled parsed p handler params good held fits same e ↦
              let mild : IsMildEntry (some handler) =
                subst IsMildEntry held (orders_trie-IsMildEntry p req.method) in
              let (res, a) = answer-IsMild req _ (mild lock _) in (res, e ∙ a)
        ]
