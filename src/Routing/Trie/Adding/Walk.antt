-- ===== src/Routing/Trie/Adding/Walk.antt =====
-- What adding a path to a trie does to its table.
use ecommerce_platform.Prelude.{
  ◌≡◌, refl, sym, ap, ◌∙◌, inl, inr, Bool, true, false, ◌&&◌, List, [], ◌∷◌, Option, none, some,
  if◌then◌else◌, Option-cases, ◌===◌, list_eq, assign, lookup-assign, Text, text_eq, text_eq_iff,
}
use ecommerce_platform.Http.Error.{Outcome, returns, throws, Exception}
use ecommerce_platform.Http.Verb.{Verb, Verb-eq}
use ecommerce_platform.Routing.Segments.{
  ParamKey, ParsedSegment, literal, capture, parse_param_segment,
}
use ecommerce_platform.Routing.Trie.{
  TrieNode, node, StaticChildren, ParamChildren, empty_node, child_or_new, find_static, find_param,
  find_same_type, add_path,
}
use ecommerce_platform.Routing.Trie.Order.{
  key_eq, key_eq_iff, search_param, find_param-search_param, search_param-put_param,
  search_param-insert_param, search_param_fresh,
}
use ecommerce_platform.Routing.Trie.Adding.Shape.{
  find_static-put_static, child_or_new-IsWellFormed, search_param-IsWellFormed,
}
use ecommerce_platform.Routing.Trie.Table.{
  RouteStep-eq, fixed, taken, Pattern, step_eq, compile, handler_at, at_child, IsWellFormed,
}
use ecommerce_platform.Routing.Trie.Adding.Steps.{
  succeeded, spells, spells-cons, spells-nil, handler_at-empty_node, at_child-new, handler_at-nil,
  handler_at-fixed, handler_at-taken,
}

module _ {H : Type 0} (method : Verb) (handler : H) where
  -- What the table holds after an addition that left `r`.
  abbrev pub expected : List Text → TrieNode H → Option Exception → Pattern → Verb → Option H
  expected segments t error q v =
      if succeeded error && (spells (compile segments) q && (method === v))
      then some handler
      else handler_at q v t

  module _ (segment : Text) (segments : List Text)
      (below : (t : TrieNode H) (q : Pattern) (v : Verb)
        → IsWellFormed t
        → handler_at q v (add_path segments method handler t).0
          ≡ expected segments t (add_path segments method handler t).1 q v)
      (ss : StaticChildren H) (ps : ParamChildren H) (hs : List (Verb × H))
      (w : IsWellFormed (node ss ps hs)) where
    abbrev Holds : Pattern → Verb → Type 0
    Holds q v =
        handler_at q v (add_path (segment ∷ segments) method handler (node ss ps hs)).0
        ≡ expected (segment ∷ segments) (node ss ps hs)
            (add_path (segment ∷ segments) method handler (node ss ps hs)).1 q v

    untouched : (b : Bool) (y z : Option H) → y ≡ z → y ≡ (if b && false then some handler else z)
    untouched true y z e = e
    untouched false y z e = e

    -- One step down: the child at a step is the changed one if the step is the added one.
    one_step :
        (base : TrieNode H) (o : Option (TrieNode H)) (b : Bool) (q : Pattern) (v : Verb)
        → IsWellFormed base
        → (b ≡ true → handler_at q v base ≡ at_child q v o)
        → at_child q v (if b then some (add_path segments method handler base).0 else o) ≡ (
            if succeeded (add_path segments method handler base).1
              && ((b && spells (compile segments) q) && (method === v))
            then some handler
            else at_child q v o)
    one_step base o true q v wb same =
        below base q v wb
        ∙ ap
            (λ z.
              if succeeded (add_path segments method handler base).1
                && (spells (compile segments) q && (method === v))
              then some handler
              else z)
            (same refl)
    one_step base o false q v wb same =
        untouched (succeeded (add_path segments method handler base).1) _ _ refl

    -- The same between the two whole tables, at the two ends that `y` and `z` name.
    between :
        (base : TrieNode H) (o : Option (TrieNode H)) (b : Bool) (q : Pattern) (v : Verb)
        (y z : Option H)
        → IsWellFormed base
        → (b ≡ true → handler_at q v base ≡ at_child q v o)
        → y ≡ at_child q v (if b then some (add_path segments method handler base).0 else o)
        → z ≡ at_child q v o
        → y ≡ (
            if succeeded (add_path segments method handler base).1
              && ((b && spells (compile segments) q) && (method === v))
            then some handler
            else z)
    between base o b q v y z wb same ey ez =
        ey
        ∙ one_step base o b q v wb same
        ∙ ap
            (λ t.
              if succeeded (add_path segments method handler base).1
                && ((b && spells (compile segments) q) && (method === v))
              then some handler
              else t)
            (sym ez)

    add_literal :
        (q : Pattern) (v : Verb) → parse_param_segment segment ≡ returns literal → Holds q v
    unfolding add_path step_eq
    add_literal [] v h =
        rw (h, add_path, spells-nil segment segments)
          (untouched _ _ _ (handler_at-nil v ss ps _ _ hs))
    add_literal (fixed s ∷ q) v h =
        rw (h, add_path, spells-cons segment segments literal (fixed s) q h)
          (between (child_or_new (find_static segment ss)) (find_static s ss) (text_eq segment s) q
            v _ _ (child_or_new-IsWellFormed segment ss w.0)
            (λ e.
              at_child-new v q (find_static segment ss)
              ∙ ap (λ t. at_child q v (find_static t ss)) ((text_eq_iff segment s).0 e))
            (handler_at-fixed v s q _ ps hs _ (find_static-put_static segment s _ ss))
            (handler_at-fixed v s q ss ps hs _ refl))
    add_literal (taken k ∷ q) v h =
        rw (h, add_path, spells-cons segment segments literal (taken k) q h)
          (untouched _ _ _
            (handler_at-taken v k q _ ps hs _ refl ∙ sym (handler_at-taken v k q ss ps hs _ refl)))

    add_found :
        (key : ParamKey) (child : TrieNode H) (q : Pattern) (v : Verb)
        → parse_param_segment segment ≡ returns (capture key)
        → find_param key ps ≡ some child
        → Holds q v
    unfolding add_path step_eq
    add_found key child [] v h f =
        rw (h, f, add_path, spells-nil segment segments)
          (untouched _ _ _ (handler_at-nil v ss ps _ _ hs))
    add_found key child (fixed s ∷ q) v h f =
        rw (h, f, add_path, spells-cons segment segments (capture key) (fixed s) q h)
          (untouched _ _ _
            (handler_at-fixed v s q ss _ hs _ refl ∙ sym (handler_at-fixed v s q ss ps hs _ refl)))
    add_found key child (taken k ∷ q) v h f =
        rw (h, f, add_path, spells-cons segment segments (capture key) (taken k) q h)
          (between child (search_param k ps) (key_eq key k) q v _ _
            (search_param-IsWellFormed key ps child w.2 found)
            (λ e.
              ap (at_child q v) (sym found ∙ ap (λ j. search_param j ps) ((key_eq_iff key k).0 e)))
            (handler_at-taken v k q ss _ hs _ (search_param-put_param key k 5 _ child ps w.1 found))
            (handler_at-taken v k q ss ps hs _ refl))
      where
        found : search_param key ps ≡ some child
        found = sym (find_param-search_param key 5 ps w.1) ∙ f

    add_inserted :
        (key : ParamKey) (q : Pattern) (v : Verb)
        → parse_param_segment segment ≡ returns (capture key)
        → find_param key ps ≡ none
        → find_same_type key.type ps ≡ none
        → Holds q v
    unfolding add_path step_eq
    add_inserted key [] v h f free =
        rw (h, f, free, add_path, spells-nil segment segments)
          (untouched _ _ _ (handler_at-nil v ss ps _ _ hs))
    add_inserted key (fixed s ∷ q) v h f free =
        rw (h, f, free, add_path, spells-cons segment segments (capture key) (fixed s) q h)
          (untouched _ _ _
            (handler_at-fixed v s q ss _ hs _ refl ∙ sym (handler_at-fixed v s q ss ps hs _ refl)))
    add_inserted key (taken k ∷ q) v h f free =
        rw (h, f, free, add_path, spells-cons segment segments (capture key) (taken k) q h)
          (between empty_node (search_param k ps) (key_eq key k) q v _ _ (tt, tt, tt)
            (λ e.
              handler_at-empty_node v q
              ∙ ap (at_child q v) (
                  sym (search_param_fresh key ps free)
                  ∙ ap (λ j. search_param j ps) ((key_eq_iff key k).0 e)))
            (handler_at-taken v k q ss _ hs _ (search_param-insert_param key k _ ps free))
            (handler_at-taken v k q ss ps hs _ refl))

    add_capture :
        (key : ParamKey) (q : Pattern) (v : Verb)
        → parse_param_segment segment ≡ returns (capture key)
        → Holds q v
    unfolding add_path
    add_capture key q v h = elim (Option-cases (find_param key ps)) [
      | inl missing ↦ elim (Option-cases (find_same_type key.type ps)) [
        | inl free ↦ add_inserted key q v h missing free
        | inr (existing, held) ↦ rw (h, missing, held, add_path)
      ]
      | inr (child, f) ↦ add_found key child q v h f
    ]

    add_segment :
        (parsed : Outcome ParsedSegment) (q : Pattern) (v : Verb)
        → parse_param_segment segment ≡ parsed
        → Holds q v
    unfolding add_path
    add_segment (throws e) q v h = rw (h, add_path)
    add_segment (returns literal) q v h = add_literal q v h
    add_segment (returns (capture key)) q v h = add_capture key q v h

  add_here :
      (q : Pattern) (v : Verb) (ss : StaticChildren H) (ps : ParamChildren H) (hs : List (Verb × H))
      → handler_at q v (node ss ps (assign method handler hs))
        ≡ expected [] (node ss ps hs) none q v
  unfolding handler_at spells compile list_eq
  add_here [] v ss ps hs = lookup-assign method v handler hs
  add_here (fixed s ∷ q) v ss ps hs = refl
  add_here (taken k ∷ q) v ss ps hs = refl

  pub handler_at-add_path :
      (segments : List Text) (t : TrieNode H) (q : Pattern) (v : Verb)
      → IsWellFormed t
      → handler_at q v (add_path segments method handler t).0
        ≡ expected segments t (add_path segments method handler t).1 q v
  unfolding add_path
  handler_at-add_path [] (node ss ps hs) q v w = add_here q v ss ps hs
  handler_at-add_path (segment ∷ segments) (node ss ps hs) q v w =
      add_segment segment segments (handler_at-add_path segments) ss ps hs w
        (parse_param_segment segment) q v refl
