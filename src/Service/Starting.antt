-- ===== src/Service/Starting.antt =====
-- The start of services/CreateOrdersService/main.cpp: the router with the orders routes, the listener
-- and the process; and how main ends. `verb_text` is http::to_string of Boost.Beast, and `setup` what
-- the calls on the acceptor report.
use ecommerce_platform.Prelude.{map, List, [], ◌∷◌, ◌++◌, Option, none, some, Text, text, ℕ, false}
use ecommerce_platform.Http.Controller.{
  register_routes, printed_by_register, print_available_routes,
}
use ecommerce_platform.Http.Error.{
  Exception, Outcome, returns, throws, other_exception, non_standard,
}
use ecommerce_platform.Http.Json.{JsonLibrary}
use ecommerce_platform.Http.Router.{Handler}
use ecommerce_platform.Http.Verb.{Verb, get, post, put, delete_}
use ecommerce_platform.Orders.Controller.{OrdersController, routes}
use ecommerce_platform.Orders.Routes.{orders_trie}
use ecommerce_platform.Routing.Trie.{TrieNode, empty_node}
use ecommerce_platform.Server.Listener.{Setup, Listener, make_listener, do_accept}
use ecommerce_platform.Service.{Process, set_up}

-- A process that runs: its router and its state.
pub record Running : Type 0 where
  pub router : TrieNode (Handler OrdersController)
  pub process : Process

-- RegisterRoutes on a new router; an exception ends main's body.
unfoldable pub registered {ℓ} : {A : Type ℓ} → A × Option Exception → Outcome A
registered (router, none) = returns router
registered (router, some x) = throws x

abbrev pub listening_line : Setup → Text
listening_line setup = text "Listening on http://" ++ (setup.address ++ (text ":" ++ setup.port))

-- What is printed before an exception ends main's body, and what comes of the body.
abbrev pub and_goes_on {ℓ κ} :
    {A : Type ℓ} {B : Type κ}
    → List Text
    → Outcome A
    → (A → List Text × Outcome B)
    → List Text × Outcome B
and_goes_on printed (returns a) f = let rest = f a in (printed ++ rest.0, rest.1)
and_goes_on printed (throws x) f = (printed, throws x)

module _ (lib : JsonLibrary) (verb_text : Verb → Text) where
  -- main up to the threads: the lines that it prints, and the process.
  unfoldable pub start_up : Setup → List Text × Outcome Running
  unfolding registered
  start_up setup =
      and_goes_on (printed_by_register lib verb_text false 0 (routes lib) empty_node)
        (registered (register_routes lib false 0 (routes lib) empty_node))
        (λ router.
          and_goes_on (print_available_routes verb_text (routes lib)) (make_listener setup)
            (λ listener. (
              listening_line setup ∷ [] ∷ [],
              returns (record {
                router = router;
                process = record set_up { listener = do_accept listener };
              }),
            )))

-- What main returns: also after an std::exception, whose text is written to the standard error.
unfoldable pub create_orders_exit {ℓ} : {A : Type ℓ} → Outcome A → Option ℕ
create_orders_exit (returns running) = some 0
create_orders_exit (throws non_standard) = none
create_orders_exit (throws x) = some 0

-- The first of four calls that fails, with the text that is thrown for it.
abbrev failing : Option Text → (Text → Text) → Option Text → Option Text
failing none explain later = later
failing (some message) explain later = some (explain message)

abbrev pub setup_failure : Setup → Option Text
setup_failure setup =
    failing setup.opened (λ m. text "Failed to open acceptor: " ++ m)
      (failing setup.reuse_set (λ m. text "Failed to set reuse_address option: " ++ m)
        (failing setup.bound
          (λ m.
            text "Failed to bind to endpoint "
            ++ (setup.address ++ (text ":" ++ (setup.port ++ (text ": " ++ m)))))
          (failing setup.listening (λ m. text "Failed to start listening: " ++ m) none)))

-- The routes that the orders server has, as a request's method and path are written.
abbrev pub served_routes : List (Verb × Text)
served_routes =
    (get, text "orders")
    ∷ (post, text "orders/remove_all")
    ∷ (get, text "orders/{order_id:int}")
    ∷ (put, text "orders/{order_id:int}")
    ∷ (delete_, text "orders/{order_id:int}")
    ∷ (get, text "orders/{order_id:int}/name")
    ∷ (put, text "orders/{order_id:int}/name")
    ∷ (put, text "orders/{order_id:int}/name/{random_string:string}")
    ∷ []

module _ (lib : JsonLibrary) (verb_text : Verb → Text) where
  -- The process that runs when all calls on the acceptor have succeeded.
  abbrev pub ready : Running
  ready = record { router = orders_trie lib; process = set_up }

  -- What is printed before the listener is made.
  abbrev pub route_lines : List Text
  route_lines =
      map (λ r. text "Added route: " ++ (verb_text (r.0) ++ (text " /" ++ r.1))) served_routes
      ++ map (λ r. text "route: method " ++ (verb_text (r.0) ++ (text ", path /" ++ r.1)))
          served_routes

  -- What the start comes to, by the first call on the acceptor that fails.
  abbrev pub started : Setup → Option Text → List Text × Outcome Running
  started setup none = (route_lines ++ listening_line setup ∷ [] ∷ [], returns ready)
  started setup (some what) = (route_lines, throws (other_exception what))
