-- ===== src/Tests/Orders.antt =====
-- The orders server at concrete requests, and the theorems of Http and Orders there.
use ecommerce_platform.Prelude.{
  ℕ, ◌≡◌, refl, true, [], ◌∷◌, Option, some, none, if◌then◌else◌, lookup, arith, Text, Text-eq,
  text, text_eq, pos,
}
use ecommerce_platform.Http.Controller.{add_all}
use ecommerce_platform.Http.Controller.Registration.{latest, handler_at-add_all}
use ecommerce_platform.Http.Error.{Exception, invalid_parameter, returns, throws}
use ecommerce_platform.Http.ErrorMapping.{map_exception}
use ecommerce_platform.Http.Message.{Request, Response}
use ecommerce_platform.Http.Message.Printing.{reply, error_reply}
use ecommerce_platform.Orders.Total.{route-returns}
use ecommerce_platform.Http.Router.{Target, route_not_found, answer, route}
use ecommerce_platform.Http.Router.Answers.{Reports, answer-throws}
use ecommerce_platform.Http.Verb.{Verb, get, put, verb_eq}
use ecommerce_platform.Orders.Answers.{route-not_an_order, route-update}
use ecommerce_platform.Orders.Controller.{OrdersController, orders_controller, routes}
use ecommerce_platform.Orders.Routes.{registration, orders_trie}
use ecommerce_platform.Parser.Integral.{int32, fits, try_parse_integral}
use ecommerce_platform.Routing.ParamType.{match_int}
use ecommerce_platform.Routing.Paths.{split_path, normalize_path}
use ecommerce_platform.Routing.Trie.{
  empty_node, find_route, find_path, find_static, best_child, pick_handler,
}
use ecommerce_platform.Routing.Trie.Table.{fixed, handler_at}
use ecommerce_platform.Orders.Sessions.{serve, Sends, Ends, read_goes_on}
use ecommerce_platform.Server.Listener.{build_session_config, k_default_http_server_config}
use ecommerce_platform.Server.Session.{
  SessionConfig, Session, new_session, run, completed, header_limit, handle_read_success,
  handle_read_error,
}
use ecommerce_platform.Tests.Json.{sample_json}

abbrev as_path : Text → Option Target
as_path target = some (record { path = target; params = [] })

abbrev only_controller : ℕ → Option OrdersController
only_controller n = some orders_controller

abbrev no_controller : ℕ → Option OrdersController
no_controller n = none

abbrev ask : Verb → Text → Request
ask method target = record {
  method = method;
  target = target;
  version = 11;
  keep_alive = true;
  body = [];
}

abbrev at_path : Text → Target
at_path path = record { path = path; params = [] }

handler_at-add_all_example :
    handler_at
      (fixed (text "orders") ∷ [])
      get
      (add_all sample_json 0 (routes sample_json) empty_node).0
    ≡ latest sample_json 0
        (fixed (text "orders") ∷ [])
        get
        (routes sample_json)
        (handler_at (fixed (text "orders") ∷ []) get empty_node)
unfolding registration
handler_at-add_all_example =
    handler_at-add_all sample_json 0 (routes sample_json) empty_node (fixed (text "orders") ∷ [])
      get (tt, tt, tt) refl

abbrev missing_id : Exception
missing_id = invalid_parameter (text "order_id")

answer-throws_example :
    (res : Response) × (answer sample_json (ask get (text "/")) (throws missing_id) ≡ returns res)
    × (res.status ≡ (map_exception missing_id).status)
    × Reports sample_json res.body (map_exception missing_id)
    × (res.version ≡ 11)
    × (res.keep_alive ≡ true)
answer-throws_example =
    answer-throws sample_json (ask get (text "/")) missing_id
      (record { code_utf8 = refl; message_utf8 = refl })

finding : Unit {0}
unfolding find_route find_path find_static best_child pick_handler normalize_path split_path
    match_int try_parse_integral lookup verb_eq text_eq orders_trie
finding = tt

route-not_an_order_example :
    route sample_json as_path only_controller
      (orders_trie sample_json)
      (ask get (text "/orders/abc"))
    ≡ returns (error_reply sample_json (ask get (text "/orders/abc")) route_not_found)
unfolding finding
route-not_an_order_example =
    route-not_an_order sample_json as_path only_controller refl (ask get (text "/orders/abc"))
      (at_path (text "/orders/abc")) refl (text "abc") refl refl (λ e. ground arith)

abbrev large_request : Request
large_request = ask put (text "/orders/3000000000")

route-update_example :
    route sample_json as_path only_controller (orders_trie sample_json) large_request
    ≡ returns (
        if fits int32 (pos 3000000000)
        then reply sample_json large_request 200 (
            sample_json.object (
              (text "updated", sample_json.boolean true)
              ∷ (text "order_id", sample_json.integer (pos 3000000000))
              ∷ []))
        else error_reply sample_json large_request
            (map_exception (invalid_parameter (text "order_id"))))
unfolding finding
route-update_example =
    route-update sample_json as_path only_controller refl large_request
      (at_path (text "/orders/3000000000")) refl (text "3000000000") (pos 3000000000) refl refl refl

route-returns_example :
    (res : Response) × (route sample_json as_path no_controller
        (orders_trie sample_json)
        large_request
      ≡ returns res)
route-returns_example = route-returns sample_json as_path no_controller large_request

abbrev session_config : SessionConfig
session_config = build_session_config k_default_http_server_config

abbrev orders_session : Session
orders_session =
    run sample_json (serve sample_json as_path only_controller session_config) session_config
      (new_session true)

read_goes_on_example :
    ((res : Response) × (t : Session) × (serve sample_json as_path only_controller session_config
          (ask get (text "/orders/7"))
        ≡ returns res)
      × (handle_read_success sample_json
            (serve sample_json as_path only_controller session_config)
            session_config
            (ask get (text "/orders/7"))
            (completed orders_session)
          ≡ returns t)
      × Sends res t)
    × ((t : Session) × (handle_read_error sample_json
            (serve sample_json as_path only_controller session_config)
            session_config
            header_limit
            (completed orders_session)
          ≡ returns t)
        × Ends sample_json header_limit orders_session t)
read_goes_on_example =
    read_goes_on sample_json as_path only_controller session_config orders_session
      (ask get (text "/orders/7")) header_limit
