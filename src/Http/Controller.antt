-- ===== src/Http/Controller.antt =====
-- IController of common/http/include/IController.hpp, and the route descriptions of
-- common/http/include/RouteDSL.hpp.
pub mod Registration
use ecommerce_platform.Prelude.{
  ℕ, Bool, true, false, List, [], ◌∷◌, ◌++◌, Option, none, some, map, Text, text,
}
use ecommerce_platform.Http.Error.{Exception, other_exception}
use ecommerce_platform.Http.Json.{JsonLibrary}
use ecommerce_platform.Http.Router.{HandlerPointer, Handler, router_add_route}
use ecommerce_platform.Http.Verb.{Verb, get, post, put, delete_}
use ecommerce_platform.Routing.Paths.{normalize_path}
use ecommerce_platform.Routing.Trie.{TrieNode}

pub record RouteDescription (C : Type 0) : Type 0 where
  pub method : Verb
  pub path : Text
  pub handler : HandlerPointer C

-- route_dsl::Concat
unfoldable pub concat : Text → Text → Text
concat a b = a ++ b

module _ {C : Type 0} where
  -- route_dsl::GET, POST, PUT and DEL
  abbrev pub get_route : Text → HandlerPointer C → RouteDescription C
  get_route path h = record { method = get; path = path; handler = h }

  abbrev pub post_route : Text → HandlerPointer C → RouteDescription C
  post_route path h = record { method = post; path = path; handler = h }

  abbrev pub put_route : Text → HandlerPointer C → RouteDescription C
  put_route path h = record { method = put; path = path; handler = h }

  abbrev pub del_route : Text → HandlerPointer C → RouteDescription C
  del_route path h = record { method = delete_; path = path; handler = h }

  -- route_dsl::WithBase
  rebase : Text → RouteDescription C → RouteDescription C
  rebase base r = record { method = r.method; path = concat base r.path; handler = r.handler }

  unfoldable pub with_base : Text → List (RouteDescription C) → List (RouteDescription C)
  unfolding concat rebase
  with_base base routes = map (rebase base) routes

  -- The loop of RegisterRoutes; an exception ends it, and what was added before it stays.
  unfoldable pub add_all :
      JsonLibrary
      → ℕ
      → List (RouteDescription C)
      → TrieNode (Handler C)
      → TrieNode (Handler C) × Option Exception
  add_all lib instance_id [] trie = (trie, none)
  add_all lib instance_id (r ∷ routes) trie =
      let (trie', thrown) = router_add_route lib r.method r.path r.handler instance_id trie in
      let rest = add_all lib instance_id routes trie' in
      elim thrown [ none ↦ rest | some e ↦ (trie', some e) ]

  -- RegisterRoutes; `expired` says that no shared_ptr owns the controller.
  unfoldable pub register_routes :
      JsonLibrary
      → Bool
      → ℕ
      → List (RouteDescription C)
      → TrieNode (Handler C)
      → TrieNode (Handler C) × Option Exception
  unfolding add_all
  register_routes lib true instance_id routes trie = (
    trie,
    some (
        other_exception
          (text "Controller must be managed by std::shared_ptr before RegisterRoutes()")),
  )
  register_routes lib false instance_id routes trie = add_all lib instance_id routes trie

  -- The line that RouteTrie::AddRoute prints when the route has been added.
  abbrev pub added_line : (Verb → Text) → RouteDescription C → Text
  added_line verb_text r =
      text "Added route: " ++ (verb_text r.method ++ (text " /" ++ normalize_path r.path))

  -- The lines that are printed while the loop of RegisterRoutes runs.
  unfoldable pub printed_by_add_all :
      JsonLibrary → (Verb → Text) → ℕ → List (RouteDescription C) → TrieNode (Handler C) → List Text
  printed_by_add_all lib verb_text instance_id [] trie = []
  printed_by_add_all lib verb_text instance_id (r ∷ routes) trie =
      let (trie', thrown) = router_add_route lib r.method r.path r.handler instance_id trie in
      let rest = printed_by_add_all lib verb_text instance_id routes trie' in
      elim thrown [ none ↦ added_line verb_text r ∷ rest | some e ↦ [] ]

  -- The lines that RegisterRoutes prints.
  unfoldable pub printed_by_register :
      JsonLibrary
      → (Verb → Text)
      → Bool
      → ℕ
      → List (RouteDescription C)
      → TrieNode (Handler C)
      → List Text
  unfolding printed_by_add_all
  printed_by_register lib verb_text true instance_id routes trie = []
  printed_by_register lib verb_text false instance_id routes trie =
      printed_by_add_all lib verb_text instance_id routes trie

  -- PrintAvailableRoutes: the lines that it prints. `verb_text` is http::to_string.
  unfoldable pub print_available_routes : (Verb → Text) → List (RouteDescription C) → List Text
  print_available_routes verb_text routes =
      map (λ r. text "route: method " ++ (verb_text r.method ++ (text ", path " ++ r.path))) routes
