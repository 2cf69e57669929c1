-- ===== src/Http/Controller/Registration.antt =====
-- What registering a list of routes does to the trie's table.
use ecommerce_platform.Prelude.{
  ℕ, ◌≡◌, refl, ap, ◌∙◌, inl, inr, Bool, false, ◌&&◌, List, [], ◌∷◌, Option, none, some,
  if◌then◌else◌, Option-cases, ◌===◌, list_eq,
}
use mathlib.Core.Option.{some-ne-none}
use ecommerce_platform.Http.Controller.{RouteDescription, add_all}
use ecommerce_platform.Http.Error.{Outcome, returns, throws}
use ecommerce_platform.Http.Json.{JsonLibrary}
use ecommerce_platform.Http.Router.{Handler, bind_handler, router_add_route}
use ecommerce_platform.Http.Verb.{Verb, Verb-eq}
use ecommerce_platform.Routing.Trie.{TrieNode}
use ecommerce_platform.Routing.Trie.Adding.Effect.{
  route_pattern, handler_at-add_route, add_route-IsWellFormed,
}
use ecommerce_platform.Routing.Trie.Table.{RouteStep-eq, Pattern, handler_at, IsWellFormed}

-- The pattern that a path spells is this one.
unfoldable pub is_spelled : Outcome Pattern → Pattern → Bool
is_spelled (returns p) q = list_eq p q
is_spelled (throws e) q = false

module _ (lib : JsonLibrary) {C : Type 0} (instance_id : ℕ) where
  -- The entry of a pattern and a method after the routes, where `before` stood there before them:
  -- the last of the routes with that pattern and that method holds it.
  unfoldable pub latest :
      Pattern → Verb → List (RouteDescription C) → Option (Handler C) → Option (Handler C)
  latest q v [] before = before
  latest q v (r ∷ routes) before = latest q v routes (
      if is_spelled (route_pattern r.path) q && (r.method === v)
      then some (bind_handler lib r.handler instance_id)
      else before)

  add_one :
      (r : RouteDescription C) (trie : TrieNode (Handler C)) (q : Pattern) (v : Verb)
      → IsWellFormed trie
      → (router_add_route lib r.method r.path r.handler instance_id trie).1 ≡ none
      → handler_at q v (router_add_route lib r.method r.path r.handler instance_id trie).0 ≡ (
          if is_spelled (route_pattern r.path) q && (r.method === v)
          then some (bind_handler lib r.handler instance_id)
          else handler_at q v trie)
  unfolding router_add_route is_spelled
  add_one r trie q v w h =
      let (p, spelled, table) =
        handler_at-add_route r.method r.path (bind_handler lib r.handler instance_id) trie w h in
      rw spelled (table q v)

  router_add_route-IsWellFormed :
      (r : RouteDescription C) (trie : TrieNode (Handler C))
      → IsWellFormed trie
      → IsWellFormed (router_add_route lib r.method r.path r.handler instance_id trie).0
  unfolding router_add_route
  router_add_route-IsWellFormed r trie w =
      add_route-IsWellFormed r.method r.path (bind_handler lib r.handler instance_id) trie w

  -- Registering routes keeps a trie well formed, also when one of them throws.
  pub add_all-IsWellFormed :
      (routes : List (RouteDescription C)) (trie : TrieNode (Handler C))
      → IsWellFormed trie
      → IsWellFormed (add_all lib instance_id routes trie).0
  unfolding add_all
  add_all-IsWellFormed [] trie w = w
  add_all-IsWellFormed (r ∷ routes) trie w =
      elim (Option-cases (router_add_route lib r.method r.path r.handler instance_id trie).1) [
        | inl fine ↦
            rw (fine, add_all)
              (add_all-IsWellFormed routes _ (router_add_route-IsWellFormed r trie w))
        | inr (e, thrown) ↦ rw (thrown, add_all) (router_add_route-IsWellFormed r trie w)
      ]

  -- After routes are registered in a well-formed trie with no exception, each pattern and method has the handler of the
  -- last of these routes that spells the pattern and has the method, bound to the controller, and
  -- where there is none, the handler that it had before.
  pub handler_at-add_all :
      (routes : List (RouteDescription C)) (trie : TrieNode (Handler C)) (q : Pattern) (v : Verb)
      → IsWellFormed trie
      → (add_all lib instance_id routes trie).1 ≡ none
      → handler_at q v (add_all lib instance_id routes trie).0
        ≡ latest q v routes (handler_at q v trie)
  unfolding add_all latest
  handler_at-add_all [] trie q v w h = refl
  handler_at-add_all (r ∷ routes) trie q v w h =
      elim (Option-cases (router_add_route lib r.method r.path r.handler instance_id trie).1) [
        | inl fine ↦
            rw (fine, add_all)
              (handler_at-add_all routes _ q v (router_add_route-IsWellFormed r trie w)
                  (rw (fine, add_all) at h)
                ∙ ap (latest q v routes) (add_one r trie q v w fine))
        | inr (e, thrown) ↦ absurd (some-ne-none _ (rw (thrown, add_all) at h))
      ]
