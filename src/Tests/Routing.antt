-- ===== src/Tests/Routing.antt =====
-- Runs of the route trie, and the theorems of Routing at concrete inputs.
use ecommerce_platform.Prelude.{
  Text, ℕ, ◌≡◌, refl, ◌↔◌, ◌&&◌, [], ◌∷◌, some, none, if◌then◌else◌, ◌===◌, lookup, assign, list_eq,
  text, text_eq,
}
use ecommerce_platform.Http.Error.{other_exception, returns}
use ecommerce_platform.Http.Verb.{Verb, Verb-eq, get, put, verb_eq}
use ecommerce_platform.Parser.Params.{GeneralParams}
use ecommerce_platform.Routing.ParamType.{
  int_type, match_int, match_float, match_string, find_by_name, same_type,
}
use ecommerce_platform.Routing.Paths.{normalize_path, split_path}
use ecommerce_platform.Routing.Paths.Reference.{pieces, split_path-pieces}
use ecommerce_platform.Routing.Segments.{ParamKey, parse_param_segment}
use ecommerce_platform.Routing.Trie.{
  TrieNode, empty_node, text_lt, key_lt, find_static, put_static, find_param, put_param,
  insert_param, find_same_type, add_path, add_route, best_child, find_path, handlers, pick_handler,
  find_route,
}
use ecommerce_platform.Routing.Trie.Adding.Effect.{
  route_pattern, handler_at-add_route, handler_at-add_route_throws, add_route-IsWellFormed,
}
use ecommerce_platform.Routing.Trie.Finding.Routes.{find_route_iff}
use ecommerce_platform.Routing.Trie.Finding.Typed.{AreRead, find_route_typed}
use ecommerce_platform.Routing.Trie.Finding.Ways.{Follows, captures}
use ecommerce_platform.Routing.Trie.Listed.{get_all_routes_iff}
use ecommerce_platform.Routing.Trie.Listing.{get_all_routes, line, IsIn, shown}
use ecommerce_platform.Routing.Trie.Order.{key_eq, search_param}
use ecommerce_platform.Routing.Trie.Table.{
  RouteStep-eq, fixed, taken, Pattern, handler_at, IsWellFormed,
}

trie_run : Unit {0}
unfolding add_route add_path normalize_path split_path parse_param_segment find_by_name same_type
    text_lt key_lt find_static put_static find_param put_param insert_param find_same_type assign
    verb_eq text_eq find_route find_path best_child pick_handler lookup match_int match_float
    match_string handler_at search_param
trie_run = tt

abbrev small : TrieNode ℕ
small = (add_route get (text "/a/b") 1 empty_node).0

abbrev mixed : TrieNode ℕ
mixed = (add_route get (text "/a/{id:int}") 2 small).0

empty_node-IsWellFormed : IsWellFormed (empty_node {H = ℕ})
empty_node-IsWellFormed = (tt, tt, tt)

small-IsWellFormed : IsWellFormed small
small-IsWellFormed = add_route-IsWellFormed get (text "/a/b") 1 empty_node empty_node-IsWellFormed

mixed-IsWellFormed : IsWellFormed mixed
mixed-IsWellFormed = add_route-IsWellFormed get (text "/a/{id:int}") 2 small small-IsWellFormed

abbrev id_params : GeneralParams
id_params = (text "id", text "17") ∷ []

find_tests :
    (find_route get (text "/a/17/") mixed ≡ some (2, id_params))
    × (find_route get (text "/a/b") mixed ≡ some (1, []))
    × (find_route put (text "/a/b") mixed ≡ none)
    × (find_route get (text "/a/x") mixed ≡ none)
    × (find_route get (text "/a") mixed ≡ none)
unfolding trie_run
find_tests = (refl, refl, refl, refl, refl)

add_route-IsWellFormed_example : IsWellFormed (add_route get (text "/a/{id:int}") 2 small).0
add_route-IsWellFormed_example =
    add_route-IsWellFormed get (text "/a/{id:int}") 2 small small-IsWellFormed

handler_at-add_route_example :
    (p : Pattern) × (route_pattern (text "/a/{id:int}") ≡ returns p)
    × ((q : Pattern) (v : Verb)
        → handler_at q v (add_route get (text "/a/{id:int}") 2 small).0
          ≡ (if list_eq p q && (get === v) then some 2 else handler_at q v small))
unfolding trie_run
handler_at-add_route_example =
    handler_at-add_route get (text "/a/{id:int}") 2 small small-IsWellFormed refl

handler_at-add_route_throws_example :
    handler_at
      (fixed (text "a") ∷ fixed (text "b") ∷ [])
      get
      (add_route get (text "/x/{n:date}") 3 small).0
    ≡ handler_at (fixed (text "a") ∷ fixed (text "b") ∷ []) get small
unfolding trie_run
handler_at-add_route_throws_example =
    handler_at-add_route_throws get (text "/x/{n:date}") 3 small small-IsWellFormed
      (other_exception (text "Unknown path param type: date")) refl
      (fixed (text "a") ∷ fixed (text "b") ∷ []) get

find_route_iff_example : (find_route get (text "/a/17") mixed ≡ some (2, id_params)) ↔ (
    (steps : Pattern) × (end : TrieNode ℕ) × Follows mixed (split_path (text "/a/17")) steps end
    × (lookup get (handlers end) ≡ some 2)
    × (id_params ≡ captures steps (split_path (text "/a/17")) []))
find_route_iff_example = find_route_iff get (text "/a/17") mixed mixed-IsWellFormed 2 id_params

find_route_typed_example : (p : Pattern) × (handler_at p get mixed ≡ some 2) × AreRead id_params p
unfolding trie_run
find_route_typed_example =
    find_route_typed get (text "/a/17") mixed 2 id_params mixed-IsWellFormed refl

split_path-pieces_example : split_path (text "/a//b/") ≡ pieces [] (text "/a//b/")
split_path-pieces_example = split_path-pieces (text "/a//b/")

abbrev id_key : ParamKey
id_key = record { name = text "id"; type = int_type }

abbrev any_verb : Verb → Text
any_verb v = text "GET"

id_handler : handler_at (fixed (text "a") ∷ taken id_key ∷ []) get mixed ≡ some 2
unfolding trie_run key_eq
id_handler = refl

get_all_routes_iff_example : IsIn (text "GET /a/{id:int}") (get_all_routes any_verb mixed) ↔ (
    (p : Pattern) × (v : Verb) × (handler : ℕ) × (handler_at p v mixed ≡ some handler)
    × (text "GET /a/{id:int}" ≡ line any_verb v (shown [] p)))
get_all_routes_iff_example =
    get_all_routes_iff any_verb mixed (text "GET /a/{id:int}") mixed-IsWellFormed

listed_line : IsIn (text "GET /a/{id:int}") (get_all_routes any_verb mixed)
unfolding shown
listed_line =
    (get_all_routes_iff any_verb mixed (text "GET /a/{id:int}") mixed-IsWellFormed).1
      (fixed (text "a") ∷ taken id_key ∷ [], get, 2, id_handler, refl)
