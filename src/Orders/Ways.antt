-- ===== src/Orders/Ways.antt =====
-- Where the paths of the orders controller lead in its trie.
use ecommerce_platform.Prelude.{
  ◌≡◌, ◌≢◌, refl, ap, ◌∙◌, inl, inr, true, false, [], ◌∷◌, Option, none, some, arith, if◌then◌else◌,
  Bool-cases, assign, List, Text, text, text_eq, text_eq_iff, Text-eq, ℤ,
}
use ecommerce_platform.Http.Json.{JsonLibrary}
use ecommerce_platform.Http.Router.{Handler}
use ecommerce_platform.Http.Verb.{Verb}
use ecommerce_platform.Orders.Controller.{OrdersController}
use ecommerce_platform.Orders.Routes.{
  orders_node, order_node, name_node, remove_node, orders_trie, random_node,
}
use ecommerce_platform.Parser.Params.{GeneralParams}
use ecommerce_platform.Parser.Integral.{int64, try_parse_integral}
use ecommerce_platform.Routing.ParamType.{match_int, match_string}
use ecommerce_platform.Routing.Paths.{split_path}
use ecommerce_platform.Routing.Paths.Splitting.{split_path-normalize_path}
use ecommerce_platform.Routing.Trie.{
  TrieNode, find_static, best_child, find_path, pick_handler, find_route,
}

remove_all-not_int : match_int (text "remove_all") ≡ false
unfolding match_int
remove_all-not_int = refl

not_remove_all : (s : Text) → match_int s ≡ true → text_eq (text "remove_all") s ≡ false
not_remove_all s h = elim (Bool-cases (text_eq (text "remove_all") s)) [
  | inl same ↦ cc (ap match_int ((text_eq_iff _ s).0 same), h, remove_all-not_int)
  | inr other ↦ other
]

-- The matcher of the routes takes the literals of 64-bit integers.
pub literal_matches : (s : Text) (z : ℤ) → try_parse_integral int64 s ≡ some z → match_int s ≡ true
unfolding match_int
literal_matches s z h = rw h

abbrev pub order_params : Text → GeneralParams
order_params s = (text "order_id", s) ∷ []

abbrev pub random_params : Text → Text → GeneralParams
random_params s r = (text "order_id", s) ∷ (text "random_string", r) ∷ []

module _ (lib : JsonLibrary) where
  -- The node that `/orders/<s>` leads to.
  order_way : Text → Option (TrieNode (Handler OrdersController) × GeneralParams)
  order_way s =
      if text_eq (text "remove_all") s
      then some (remove_node lib, [])
      else if match_int s
      then some (order_node lib, order_params s)
      else none

  find_path-order_way :
      (s : Text) → find_path (text "orders" ∷ s ∷ []) (orders_trie lib) [] ≡ order_way s
  unfolding find_path find_static orders_trie order_way best_child text_eq assign
  find_path-order_way s = ground arith

  pub order_leads :
      (s : Text)
      → match_int s ≡ true
      → find_path (text "orders" ∷ s ∷ []) (orders_trie lib) []
        ≡ some (order_node lib, order_params s)
  unfolding order_way
  order_leads s h = find_path-order_way s ∙ rw (not_remove_all s h, h)

  pub no_order_leads :
      (s : Text)
      → match_int s ≡ false
      → s ≢ text "remove_all"
      → find_path (text "orders" ∷ s ∷ []) (orders_trie lib) [] ≡ none
  unfolding order_way
  no_order_leads s h n = find_path-order_way s ∙ ground (arith, text_eq_iff (text "remove_all") s)

  pub remove_all_leads :
      find_path (text "orders" ∷ text "remove_all" ∷ []) (orders_trie lib) []
      ≡ some (remove_node lib, [])
  unfolding find_path find_static orders_trie text_eq
  remove_all_leads = refl

  pub list_leads : find_path (text "orders" ∷ []) (orders_trie lib) [] ≡ some (orders_node lib, [])
  unfolding find_path find_static orders_trie text_eq
  list_leads = refl

  pub name_leads :
      (s : Text)
      → match_int s ≡ true
      → find_path (text "orders" ∷ s ∷ text "name" ∷ []) (orders_trie lib) []
        ≡ some (name_node lib, order_params s)
  unfolding find_path find_static orders_trie best_child text_eq assign
  name_leads s h = ground (arith, not_remove_all s h)

  pub random_leads :
      (s r : Text)
      → match_int s ≡ true
      → find_path (text "orders" ∷ s ∷ text "name" ∷ r ∷ []) (orders_trie lib) []
        ≡ some (random_node lib, random_params s r)
  unfolding find_path find_static orders_trie best_child text_eq assign match_string
  random_leads s r h = ground (arith, not_remove_all s h)

  -- A request is resolved to the handler that the node at the end of its way has for its method.
  pub find_route-way :
      (method : Verb) (path : Text) (segments : List Text)
      (way : Option (TrieNode (Handler OrdersController) × GeneralParams))
      → split_path path ≡ segments
      → find_path segments (orders_trie lib) [] ≡ way
      → find_route method path (orders_trie lib) ≡ pick_handler method way
  unfolding find_route
  find_route-way method path segments way cut leads =
      rw (split_path-normalize_path path, cut, leads)
