-- ===== src/Routing/Trie/Listed.antt =====
-- What the listing of a trie's routes holds.
use ecommerce_platform.Prelude.{
  ℕ, ◌≡◌, refl, sym, ap, ◌∙◌, ◌⊎◌, ◌↔◌, subst, inl, inr, List, [], ◌∷◌, ◌++◌, some, arith, lookup,
  Bool-cases, Text, text_eq, text_eq_iff,
}
use mathlib.Core.Option.{none-ne-some}
use ecommerce_platform.Http.Verb.{Verb, Verb-eq, verb_eq, verb_eq_iff}
use ecommerce_platform.Routing.Segments.{ParamKey}
use ecommerce_platform.Routing.Trie.{
  TrieNode, node, StaticChildren, no_static, static, ParamChildren, no_param, param, find_static,
}
use ecommerce_platform.Routing.Trie.Listing.{
  extend, param_text, line, lines, walk, walk_static, walk_params, get_all_routes, IsIn, here,
  there, shown, walk-handler_at,
}
use ecommerce_platform.Routing.Trie.Order.{
  priority, key_eq, key_eq_iff, search_param, search_param_below, IsDescending,
}
use ecommerce_platform.Routing.Trie.Table.{
  fixed, taken, Pattern, handler_at, IsWellFormed, AreStatic, AreParams,
}

IsIn-cons : {s t : Text} {ts : List Text} → IsIn s (t ∷ ts) → (s ≡ t) ⊎ IsIn s ts
IsIn-cons (here ts) = inl refl
IsIn-cons (there h) = inr h

IsIn-append : {s : Text} (ss ts : List Text) → IsIn s (ss ++ ts) → IsIn s ss ⊎ IsIn s ts
IsIn-append [] ts h = inr h
IsIn-append (t ∷ ss) ts (here us) = inl (here ss)
IsIn-append (t ∷ ss) ts (there h) = elim (IsIn-append ss ts h) [
  | inl i ↦ inl (there i)
  | inr i ↦ inr i
]

module _ (verb_text : Verb → Text) {H : Type 0} where
  -- A route of the table whose line this is, from a node that the path leads to.
  record Route (s : Text) (t : TrieNode H) (path : Text) : Type 0 where
    pattern_of : Pattern
    method : Verb
    handler : H
    held : handler_at pattern_of method t ≡ some handler
    printed : s ≡ line verb_text method (shown path pattern_of)

  of_lines :
      (path s : Text) (hs : List (Verb × H))
      → IsIn s (lines verb_text hs path)
      → (v : Verb) × (handler : H) × (lookup v hs ≡ some handler) × (s ≡ line verb_text v path)
  unfolding lookup
  of_lines path s [] i = elim i [ ]
  of_lines path s ((w, first) ∷ hs) i = elim (IsIn-cons i) [
    | inl e ↦ (w, first, ground (arith, verb_eq_iff w w), e)
    | inr j ↦
        let (v, handler, h, e) = of_lines path s hs j in
        elim (Bool-cases (verb_eq w v)) [
          | inl same ↦ (v, first, ground arith, e)
          | inr other ↦ (v, handler, ground arith, e)
        ]
  ]

  mutual
    unfolding handler_at shown find_static search_param

    of_node :
        (s : Text) (t : TrieNode H) (path : Text)
        → IsWellFormed t
        → IsIn s (walk verb_text t path)
        → Route s t path
    of_node s (node ss ps hs) path w i = elim (IsIn-append (lines verb_text hs path) _ i) [
      | inl j ↦
          let (v, handler, h, e) = of_lines path s hs j in
          record { pattern_of = []; method = v; handler = handler; held = h; printed = e }
      | inr j ↦ elim (IsIn-append (walk_static verb_text ss path) _ j) [
        | inl k ↦
            let (seg, child, found, r) = of_static s ss path w.0 k in
            record {
              pattern_of = fixed seg ∷ r.pattern_of;
              method = r.method;
              handler = r.handler;
              held = rw (found, handler_at) r.held;
              printed = r.printed;
            }
        | inr k ↦
            let (key, child, found, r) = of_params s 5 ps path w.1 w.2 k in
            record {
              pattern_of = taken key ∷ r.pattern_of;
              method = r.method;
              handler = r.handler;
              held = rw (found, handler_at) r.held;
              printed = r.printed;
            }
      ]
    ]

    of_static :
        (s : Text) (ss : StaticChildren H) (path : Text)
        → AreStatic ss
        → IsIn s (walk_static verb_text ss path)
        → (seg : Text) × (child : TrieNode H) × (find_static seg ss ≡ some child)
          × Route s child (extend path seg)
    of_static s no_static path w i = elim i [ ]
    of_static s (static t c rest) path (fresh, w, ws) i =
        elim (IsIn-append (walk verb_text c (extend path t)) _ i) [
          | inl j ↦ (t, c, ground (arith, text_eq_iff t t), of_node s c (extend path t) w j)
          | inr j ↦
              let (seg, child, found, r) = of_static s rest path ws j in
              elim (Bool-cases (text_eq t seg)) [
                | inl same ↦ absurd (
                    none-ne-some child (
                      sym fresh
                      ∙ ap (λ u. find_static u rest) ((text_eq_iff t seg).0 same)
                      ∙ found))
                | inr other ↦ (seg, child, rw (other, find_static) found, r)
              ]
        ]

    of_params :
        (s : Text) (bound : ℕ) (ps : ParamChildren H) (path : Text)
        → IsDescending bound ps
        → AreParams ps
        → IsIn s (walk_params verb_text ps path)
        → (key : ParamKey) × (child : TrieNode H) × (search_param key ps ≡ some child)
          × Route s child (extend path (param_text key))
    of_params s bound no_param path d w i = elim i [ ]
    of_params s bound (param k c rest) path (low, d) (w, ws) i =
        elim (IsIn-append (walk verb_text c (extend path (param_text k))) _ i) [
          | inl j ↦
              (k, c, ground (arith, key_eq_iff k k), of_node s c (extend path (param_text k)) w j)
          | inr j ↦
              let (key, child, found, r) = of_params s (priority k.type) rest path d ws j in
              elim (Bool-cases (key_eq k key)) [
                | inl same ↦ absurd (
                    none-ne-some child (
                      sym (search_param_below k (priority k.type) rest d (omega arith))
                      ∙ ap (λ u. search_param u rest) ((key_eq_iff k key).0 same)
                      ∙ found))
                | inr other ↦ (key, child, rw (other, search_param) found, r)
              ]
        ]

  -- In a well-formed trie the listing holds the lines of the routes in the table and no other: a line
  -- is listed exactly when it is the method and the printed pattern of an entry.
  pub get_all_routes_iff :
      (t : TrieNode H) (s : Text)
      → IsWellFormed t
      → IsIn s (get_all_routes verb_text t) ↔ (
          (p : Pattern) × (v : Verb) × (handler : H) × (handler_at p v t ≡ some handler)
          × (s ≡ line verb_text v (shown [] p)))
  unfolding get_all_routes
  get_all_routes_iff t s w = (
    λ i. let r = of_node s t [] w i in (r.pattern_of, r.method, r.handler, r.held, r.printed),
    λ (p, v, handler, h, e).
        subst (λ u. IsIn u (walk verb_text t [])) (sym e)
          (walk-handler_at verb_text p v handler t [] h),
  )
