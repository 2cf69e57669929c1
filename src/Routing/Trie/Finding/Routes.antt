-- ===== src/Routing/Trie/Finding/Routes.antt =====
-- FindRoute: what a request path is resolved to.
use ecommerce_platform.Prelude.{
  ◌≡◌, refl, sym, ap, ◌∙◌, ◌↔◌, inl, inr, List, [], ◌∷◌, Option, none, some, arith, Option-cases,
  lookup, map, Text, Text-eq,
}
use mathlib.Core.Option.{none-ne-some}
use ecommerce_platform.Http.Verb.{Verb, Verb-eq}
use ecommerce_platform.Parser.Params.{GeneralParams}
use ecommerce_platform.Routing.Paths.{normalize_path, split_path}
use ecommerce_platform.Routing.Trie.{
  TrieNode, node, find_static, find_path, handlers, pick_handler, find_route,
}
use ecommerce_platform.Routing.Trie.Table.{fixed, Pattern, handler_at, IsWellFormed}
use ecommerce_platform.Routing.Paths.Splitting.{
  IsSegment, join_path, split_path-join_path, split_path-normalize_path,
}
use ecommerce_platform.Prelude.{All}
use ecommerce_platform.Routing.Trie.Finding.Ways.{
  Follows, stop, by_text, captures, Matches, Follows-Matches, Follows-handler_at, find_path-Follows,
  Follows-find_path,
}

module _ {H : Type 0} where
  pick_handler-some :
      (method : Verb) (o : Option (TrieNode H × GeneralParams)) (handler : H) (out : GeneralParams)
      → pick_handler method o ≡ some (handler, out)
      → (end : TrieNode H) × (o ≡ some (end, out)) × (lookup method (handlers end) ≡ some handler)
  unfolding pick_handler
  pick_handler-some method none handler out h = absurd (none-ne-some _ h)
  pick_handler-some method (some (n, params)) handler out h =
      elim (Option-cases (lookup method (handlers n))) [
        | inl missing ↦ absurd (none-ne-some _ (rw (missing, pick_handler) at h))
        | inr (held, e) ↦
            let same : held ≡ handler = ground arith in
            let params_same : params ≡ out = ground arith in (n, rw params_same, e ∙ ap some same)
      ]

module _ {H : Type 0} (method : Verb) (path : Text) (t : TrieNode H) (w : IsWellFormed t)
    (handler : H) (out : GeneralParams) where
  -- In a well-formed trie a handler is returned, with parameters, exactly when the way of the path's
  -- segments ends in a node that holds the handler under the method, the parameters being the captures of the pattern
  -- that the way follows. The way goes by the static child of a segment, and only if there is none
  -- by the parameter child of the highest priority that takes the segment; it never turns back.
  pub find_route_iff : (find_route method path t ≡ some (handler, out)) ↔ (
      (steps : Pattern) × (end : TrieNode H) × Follows t (split_path path) steps end
      × (lookup method (handlers end) ≡ some handler)
      × (out ≡ captures steps (split_path path) []))
  unfolding find_route pick_handler
  find_route_iff = (
    λ h.
        let (end, found, held) =
          pick_handler-some method (find_path (split_path (normalize_path path)) t []) handler out
            h in
        let (steps, f, e) =
          find_path-Follows (split_path path) t [] end out w
            (rw (split_path-normalize_path path) at found) in
        (steps, end, f, held, e),
    λ (steps, end, f, held, e).
        rw (split_path-normalize_path path, Follows-find_path f [] w, pick_handler, held, e),
  )

  -- Only what is registered is found: the handler stands in the table under the method and a
  -- pattern that the path's segments match, and the parameters are what this pattern captures.
  pub find_route-registered :
      find_route method path t ≡ some (handler, out)
      → (p : Pattern) × (handler_at p method t ≡ some handler)
        × Matches p (split_path path)
        × (out ≡ captures p (split_path path) [])
  find_route-registered h =
      let (steps, end, f, held, e) = find_route_iff.0 h in
      (steps, Follows-handler_at f method ∙ held, Follows-Matches f, e)

module _ {H : Type 0} where
  static_way :
      (segments : List Text) (method : Verb) (t : TrieNode H) (handler : H)
      → handler_at (map fixed segments) method t ≡ some handler
      → (end : TrieNode H) × Follows t segments (map fixed segments) end
        × (lookup method (handlers end) ≡ some handler)
  unfolding handler_at
  static_way [] method (node ss ps hs) handler h = (node ss ps hs, stop _, h)
  static_way (s ∷ segments) method (node ss ps hs) handler h =
      elim (Option-cases (find_static s ss)) [
        | inl missing ↦ absurd (none-ne-some _ (rw (missing, handler_at) at h))
        | inr (child, e) ↦
            let (end, f, held) =
              static_way segments method child handler (rw (e, handler_at) at h) in
            (end, by_text e f, held)
      ]

captures-fixed :
    (texts segments : List Text) (params : GeneralParams)
    → captures (map fixed texts) segments params ≡ params
captures-fixed [] segments params = refl
captures-fixed (s ∷ texts) [] params = refl
captures-fixed (s ∷ texts) (segment ∷ segments) params = captures-fixed texts segments params

-- In a well-formed trie a handler that stands in the table under fixed segments, nonempty and with
-- no slash, is found under the path of these segments, with no parameters captured, whatever
-- parameter routes are registered beside it.
find_route-static :
    {H : Type 0} (segments : List Text) (method : Verb) (t : TrieNode H) (handler : H)
    → IsWellFormed t
    → All IsSegment segments
    → handler_at (map fixed segments) method t ≡ some handler
    → find_route method (join_path segments) t ≡ some (handler, [])
find_route-static segments method t handler w clean h =
    let (end, f, held) = static_way segments method t handler h in
    let split = split_path-join_path segments clean in
    (find_route_iff method (join_path segments) t w handler []).1
      (map fixed segments, end, rw split f, held, sym (captures-fixed segments _ []))
