-- ===== src/Routing/Trie/Adding/Effect.antt =====
-- What adding a route does to the table.
use ecommerce_platform.Prelude.{
  ◌≡◌, refl, ◌∙◌, inl, inr, ◌&&◌, List, [], ◌∷◌, none, some, if◌then◌else◌, Option-cases, ◌===◌,
  list_eq, Text,
}
use ecommerce_platform.Http.Error.{Outcome, returns, throws, Exception}
use ecommerce_platform.Http.Verb.{Verb, Verb-eq}
use ecommerce_platform.Routing.Segments.{ParsedSegment, literal, capture, parse_param_segment}
use ecommerce_platform.Routing.Paths.{normalize_path, split_path}
use mathlib.Core.Option.{some-ne-none}
use ecommerce_platform.Routing.Trie.{
  TrieNode, node, StaticChildren, ParamChildren, empty_node, child_or_new, find_static, find_param,
  find_same_type, add_path, add_route,
}
use ecommerce_platform.Routing.Trie.Adding.Shape.{add_path-IsWellFormed}
use ecommerce_platform.Routing.Trie.Table.{
  RouteStep-eq, Pattern, compile, step_of, handler_at, IsWellFormed,
}
use ecommerce_platform.Routing.Trie.Adding.Steps.{spells}
use ecommerce_platform.Routing.Trie.Adding.Walk.{handler_at-add_path}

module _ {H : Type 0} (method : Verb) (handler : H) where
  tail_success :
      (segment : Text) (segments : List Text) (ss : StaticChildren H) (ps : ParamChildren H)
      (hs : List (Verb × H)) (o : Outcome ParsedSegment)
      → parse_param_segment segment ≡ o
      → (add_path (segment ∷ segments) method handler (node ss ps hs)).1 ≡ none
      → (parsed : ParsedSegment) × (o ≡ returns parsed)
        × (base : TrieNode H) × ((add_path segments method handler base).1 ≡ none)
  unfolding add_path
  tail_success segment segments ss ps hs (throws e) p h =
      absurd (some-ne-none _ (rw (p, add_path) at h))
  tail_success segment segments ss ps hs (returns literal) p h =
      (literal, refl, child_or_new (find_static segment ss), rw (p, add_path) at h)
  tail_success segment segments ss ps hs (returns (capture key)) p h =
      elim (Option-cases (find_param key ps)) [
        | inl missing ↦ elim (Option-cases (find_same_type key.type ps)) [
          | inl free ↦ (capture key, refl, empty_node, rw (p, missing, free, add_path) at h)
          | inr (existing, held) ↦ absurd (some-ne-none _ (rw (p, missing, held, add_path) at h))
        ]
        | inr (child, f) ↦ (capture key, refl, child, rw (p, f, add_path) at h)
      ]

  compile_of_success :
      (segments : List Text) (t : TrieNode H)
      → (add_path segments method handler t).1 ≡ none
      → (p : Pattern) × (compile segments ≡ returns p)
  unfolding compile
  compile_of_success [] t h = ([], refl)
  compile_of_success (segment ∷ segments) (node ss ps hs) h =
      let (parsed, found, base, rest) =
        tail_success segment segments ss ps hs (parse_param_segment segment) refl h in
      let (p, same) = compile_of_success segments base rest in
      (step_of segment parsed ∷ p, rw (found, same))

abbrev pub route_pattern : Text → Outcome Pattern
route_pattern path = compile (split_path (normalize_path path))

module _ {H : Type 0} (method : Verb) (path : Text) (handler : H) (t : TrieNode H)
    (w : IsWellFormed t) where
  -- A route that is added to a well-formed trie with no exception stands in the table under the
  -- pattern that its path spells and under its method, in place of what stood there, and every other
  -- entry of the table is as before.
  pub handler_at-add_route :
      (add_route method path handler t).1 ≡ none
      → (p : Pattern) × (route_pattern path ≡ returns p)
        × ((q : Pattern) (v : Verb)
            → handler_at q v (add_route method path handler t).0
              ≡ (if list_eq p q && (method === v) then some handler else handler_at q v t))
  unfolding add_route spells
  handler_at-add_route h =
      let (p, same) = compile_of_success method handler (split_path (normalize_path path)) t h in
      (
        p,
        same,
        λ q v.
            handler_at-add_path method handler (split_path (normalize_path path)) t q v w
            ∙ rw (h, same),
      )

  -- If an addition to a well-formed trie throws, every entry of the table is what it was: no route is
  -- added, changed or lost.
  pub handler_at-add_route_throws :
      (e : Exception)
      → (add_route method path handler t).1 ≡ some e
      → (q : Pattern) (v : Verb)
      → handler_at q v (add_route method path handler t).0 ≡ handler_at q v t
  unfolding add_route
  handler_at-add_route_throws e h q v =
      handler_at-add_path method handler (split_path (normalize_path path)) t q v w ∙ rw h

  -- Adding a route to a well-formed trie leaves a well-formed trie, whether it throws or not.
  pub add_route-IsWellFormed : IsWellFormed (add_route method path handler t).0
  unfolding add_route
  add_route-IsWellFormed =
      add_path-IsWellFormed (split_path (normalize_path path)) method handler t w
