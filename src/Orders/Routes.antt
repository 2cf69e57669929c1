-- ===== src/Orders/Routes.antt =====
-- The trie after the orders controller has registered its routes.
use ecommerce_platform.Prelude.{◌≡◌, refl, subst, false, [], ◌∷◌, none, assign, text, text_eq}
use ecommerce_platform.Http.Controller.{register_routes}
use ecommerce_platform.Http.Controller.Registration.{add_all-IsWellFormed}
use ecommerce_platform.Http.Json.{JsonLibrary}
use ecommerce_platform.Http.Router.{Handler, HandlerPointer, bind_handler, router_add_route}
use ecommerce_platform.Http.Verb.{get, post, put, delete_, verb_eq}
use ecommerce_platform.Orders.Controller.{
  OrdersController, list, remove_all, get_by_id, update, delete, get_order_name, update_order_name,
  test_method, routes,
}
use ecommerce_platform.Routing.ParamType.{int_type, string_type, find_by_name, same_type}
use ecommerce_platform.Routing.Paths.{normalize_path, split_path}
use ecommerce_platform.Routing.Segments.{ParamKey, parse_param_segment}
use ecommerce_platform.Routing.Trie.Table.{IsWellFormed}
use ecommerce_platform.Routing.Trie.{
  TrieNode, node, no_static, static, no_param, param, empty_node, text_lt, key_lt, find_static,
  put_static, find_param, put_param, insert_param, find_same_type, add_path, add_route,
}

-- What a registration computes through.
unfoldable pub registration : Unit {0}
unfolding register_routes routes router_add_route add_route add_path normalize_path split_path
    parse_param_segment find_by_name same_type text_lt key_lt find_static put_static find_param
    put_param insert_param find_same_type assign verb_eq text_eq
registration = tt

abbrev pub order_key : ParamKey
order_key = record { name = text "order_id"; type = int_type }

abbrev pub random_key : ParamKey
random_key = record { name = text "random_string"; type = string_type }

module _ (lib : JsonLibrary) where
  abbrev pub bound : HandlerPointer OrdersController → Handler OrdersController
  bound method = bind_handler lib method 0

  -- Below `/orders/{order_id}/name`
  abbrev pub random_node : TrieNode (Handler OrdersController)
  random_node = node no_static no_param ((put, bound (test_method lib)) ∷ [])

  -- Below `/orders/{order_id}`
  abbrev pub name_node : TrieNode (Handler OrdersController)
  name_node =
      node no_static (param random_key random_node no_param)
        ((get, bound (get_order_name lib)) ∷ (put, bound (update_order_name lib)) ∷ [])

  abbrev pub order_node : TrieNode (Handler OrdersController)
  order_node = node (static (text "name") name_node no_static) no_param (
      (get, bound (get_by_id lib)) ∷ (put, bound (update lib)) ∷ (delete_, bound (delete lib)) ∷ [])

  abbrev pub remove_node : TrieNode (Handler OrdersController)
  remove_node = node no_static no_param ((post, bound (remove_all lib)) ∷ [])

  abbrev pub orders_node : TrieNode (Handler OrdersController)
  orders_node =
      node (static (text "remove_all") remove_node no_static) (param order_key order_node no_param)
        ((get, bound (list lib)) ∷ [])

  unfoldable pub orders_trie : TrieNode (Handler OrdersController)
  orders_trie = node (static (text "orders") orders_node no_static) no_param []

  -- Registering the controller's routes in an empty router succeeds and makes this trie.
  pub register_routes-orders :
      register_routes lib false 0 (routes lib) empty_node ≡ (orders_trie, none)
  unfolding registration orders_trie
  register_routes-orders = refl

  -- The table that the orders controller fills is well formed.
  pub orders_trie-IsWellFormed : IsWellFormed orders_trie
  unfolding register_routes
  orders_trie-IsWellFormed =
      subst (λ r. IsWellFormed (r.0)) register_routes-orders
        (add_all-IsWellFormed lib 0 (routes lib) empty_node (tt, tt, tt))
