-- ===== src/Routing/Trie/Adding/Shape.antt =====
-- Adding a route keeps a trie well formed, also when it throws.
use ecommerce_platform.Prelude.{
  ◌<◌, ◌≡◌, refl, inl, inr, [], ◌∷◌, List, Option, none, some, arith, if◌then◌else◌, Text, text_eq,
  text_eq_iff, Option-cases, Bool-cases, subst, sym, ◌∙◌,
}
use ecommerce_platform.Routing.ParamType.{TypePointer, string_type}
use ecommerce_platform.Http.Error.{Outcome, returns, throws}
use ecommerce_platform.Http.Verb.{Verb}
use ecommerce_platform.Routing.Segments.{
  ParamKey, ParsedSegment, literal, capture, parse_param_segment,
}
use ecommerce_platform.Routing.Trie.{
  TrieNode, node, StaticChildren, no_static, static, ParamChildren, no_param, param, empty_node,
  child_or_new, find_static, put_static, find_param, put_param, insert_param, find_same_type,
  add_path,
}
use ecommerce_platform.Routing.Trie.Order.{
  priority, search_param, find_param-search_param, key_eq, put_param-IsDescending,
  insert_param-IsDescending,
}
use ecommerce_platform.Routing.Trie.Table.{IsWellFormed, AreStatic, AreParams}

priority-lt : (t : TypePointer) → priority t < 5
priority-lt string_type = omega arith
priority-lt t = omega arith

module _ {H : Type 0} where
  pub find_static-put_static :
      (s t : Text) (child : TrieNode H) (ss : StaticChildren H)
      → find_static t (put_static s child ss)
        ≡ (if text_eq s t then some child else find_static t ss)
  unfolding find_static put_static
  find_static-put_static s t child no_static = refl
  find_static-put_static s t child (static u old rest) = ground (
    arith,
    text_eq_iff u s,
    text_eq_iff u t,
    text_eq_iff s t,
    find_static-put_static s t child rest,
  )

  put_static-AreStatic :
      (s : Text) (child : TrieNode H) (ss : StaticChildren H)
      → AreStatic ss
      → IsWellFormed child
      → AreStatic (put_static s child ss)
  unfolding put_static find_static
  put_static-AreStatic s child no_static a w = (refl, w, tt)
  put_static-AreStatic s child (static u old rest) a w = ground (
    arith,
    text_eq_iff u s,
    text_eq_iff s u,
    find_static-put_static s u child rest,
    put_static-AreStatic s child rest,
  )

  pub find_static-IsWellFormed :
      (s : Text) (ss : StaticChildren H) (child : TrieNode H)
      → AreStatic ss
      → find_static s ss ≡ some child
      → IsWellFormed child
  unfolding find_static
  find_static-IsWellFormed s no_static child a h = cc
  find_static-IsWellFormed s (static u old rest) child a h = elim (Bool-cases (text_eq u s)) [
    | inl hit ↦ let same : old ≡ child = ground arith in subst IsWellFormed same a.1
    | inr miss ↦ find_static-IsWellFormed s rest child a.2 (rw (miss, find_static) at h)
  ]

  pub child_or_new-IsWellFormed :
      (s : Text) (ss : StaticChildren H)
      → AreStatic ss
      → IsWellFormed (child_or_new (find_static s ss))
  child_or_new-IsWellFormed s ss a = elim (Option-cases (find_static s ss)) [
    | inl new ↦ rw new (tt, tt, tt)
    | inr (child, old) ↦ rw old (find_static-IsWellFormed s ss child a old)
  ]

  pub search_param-IsWellFormed :
      (key : ParamKey) (ps : ParamChildren H) (child : TrieNode H)
      → AreParams ps
      → search_param key ps ≡ some child
      → IsWellFormed child
  unfolding search_param
  search_param-IsWellFormed key no_param child a h = cc
  search_param-IsWellFormed key (param k c rest) child a h = elim (Bool-cases (key_eq k key)) [
    | inl hit ↦ let same : c ≡ child = ground arith in subst IsWellFormed same a.0
    | inr miss ↦ search_param-IsWellFormed key rest child a.1 (rw (miss, search_param) at h)
  ]

  put_param-AreParams :
      (key : ParamKey) (child : TrieNode H) (ps : ParamChildren H)
      → AreParams ps
      → IsWellFormed child
      → AreParams (put_param key child ps)
  unfolding put_param
  put_param-AreParams key child no_param a w = tt
  put_param-AreParams key child (param k c rest) a w =
      ground (arith, put_param-AreParams key child rest)

  insert_param-AreParams :
      (key : ParamKey) (child : TrieNode H) (ps : ParamChildren H)
      → AreParams ps
      → IsWellFormed child
      → AreParams (insert_param key child ps)
  unfolding insert_param
  insert_param-AreParams key child no_param a w = (w, tt)
  insert_param-AreParams key child (param k c rest) a w =
      ground (arith, insert_param-AreParams key child rest)

  module _ (segment : Text) (segments : List Text) (method : Verb) (handler : H)
      (below : (t : TrieNode H)
        → IsWellFormed t
        → IsWellFormed (add_path segments method handler t).0)
      (ss : StaticChildren H) (ps : ParamChildren H) (hs : List (Verb × H))
      (w : IsWellFormed (node ss ps hs)) where
    add_capture-IsWellFormed :
        (key : ParamKey)
        → parse_param_segment segment ≡ returns (capture key)
        → (found : Option (TrieNode H)) → find_param key ps ≡ found
        → IsWellFormed (add_path (segment ∷ segments) method handler (node ss ps hs)).0
    unfolding add_path
    add_capture-IsWellFormed key h (some child) f =
        let old =
          search_param-IsWellFormed key ps child w.2
            (sym (find_param-search_param key 5 ps w.1) ∙ f) in
        rw (h, f, add_path)
          (
            w.0,
            put_param-IsDescending key 5 _ ps w.1,
            put_param-AreParams key _ ps w.2 (below child old),
          )
    add_capture-IsWellFormed key h none f = elim (Option-cases (find_same_type key.type ps)) [
      | inl free ↦
          rw (h, f, free, add_path)
            (
              w.0,
              insert_param-IsDescending key 5 _ ps w.1 (priority-lt key.type) free,
              insert_param-AreParams key _ ps w.2 (below empty_node (tt, tt, tt)),
            )
      | inr (existing, taken_type) ↦ rw (h, f, taken_type, add_path) w
    ]

    add_segment-IsWellFormed :
        (parsed : Outcome ParsedSegment)
        → parse_param_segment segment ≡ parsed
        → IsWellFormed (add_path (segment ∷ segments) method handler (node ss ps hs)).0
    unfolding add_path
    add_segment-IsWellFormed (throws e) h = rw (h, add_path) w
    add_segment-IsWellFormed (returns literal) h =
        rw (h, add_path)
          (
            put_static-AreStatic segment _ ss w.0
                (below _ (child_or_new-IsWellFormed segment ss w.0)),
            w.1,
            w.2,
          )
    add_segment-IsWellFormed (returns (capture key)) h =
        add_capture-IsWellFormed key h (find_param key ps) refl

  -- Adding a path to a well-formed trie leaves a well-formed trie, whether it succeeds or throws: no
  -- node ever has two parameter children of one type, and a parameter child of higher priority
  -- always stands before one of lower priority.
  pub add_path-IsWellFormed :
      (segments : List Text) (method : Verb) (handler : H) (t : TrieNode H)
      → IsWellFormed t
      → IsWellFormed (add_path segments method handler t).0
  unfolding add_path
  add_path-IsWellFormed [] method handler (node ss ps hs) w = w
  add_path-IsWellFormed (segment ∷ segments) method handler (node ss ps hs) w =
      add_segment-IsWellFormed segment segments method handler
        (add_path-IsWellFormed segments method handler) ss ps hs w (parse_param_segment segment)
        refl
