-- ===== src/Routing/Trie.antt =====
-- RouteTrie of common/http/include/RouteTrie.hpp and common/http/src/RouteTrie.cpp. `H` is the type
-- of handlers; an empty std::function is not registered. Parameter children stand in the order of
-- the flat_map; static children and handlers stand in the order of their insertion.
pub mod Order
pub mod Table
pub mod Adding
pub mod Finding
pub mod Listing
pub mod Listed
use ecommerce_platform.Prelude.{
  ℕ, ◌≡◌, Bool, true, false, not, ◌&&◌, ◌||◌, List, [], ◌∷◌, ◌++◌, Option, none, some, ltb, ◌==◌,
  if◌then◌else◌, lookup, assign, Text, Text-eq, text, text_eq,
}
use ecommerce_platform.Http.Error.{Outcome, returns, throws, Exception, other_exception}
use ecommerce_platform.Http.Verb.{Verb, Verb-eq, verb_eq}
use ecommerce_platform.Parser.Params.{GeneralParams}
use ecommerce_platform.Routing.ParamType.{TypePointer, descriptor, rank, same_type}
use ecommerce_platform.Routing.Paths.{normalize_path, split_path}
use ecommerce_platform.Routing.Segments.{ParamKey, literal, capture, parse_param_segment}

mutual
  pub data TrieNode (H : Type 0) : Type 0 where
    node : StaticChildren H → ParamChildren H → List (Verb × H) → TrieNode H

  pub data StaticChildren (H : Type 0) : Type 0 where
    no_static : StaticChildren H
    static : Text → TrieNode H → StaticChildren H → StaticChildren H

  pub data ParamChildren (H : Type 0) : Type 0 where
    no_param : ParamChildren H
    param : ParamKey → TrieNode H → ParamChildren H → ParamChildren H

-- operator< of std::string
unfoldable pub text_lt : Text → Text → Bool
text_lt s [] = false
text_lt [] (d ∷ t) = true
text_lt (c ∷ s) (d ∷ t) = ltb c d || (c == d && text_lt s t)

-- ParamKey::operator<: the tuples of priority, type name and name compare the other way round.
unfoldable pub key_lt : ParamKey → ParamKey → Bool
key_lt a b =
    let p = rank (descriptor a.type).priority in
    let q = rank (descriptor b.type).priority in
    ltb q p
    || (p == q
        && (text_lt (descriptor b.type).name (descriptor a.type).name
            || (text_eq (descriptor a.type).name (descriptor b.type).name
                && text_lt b.name a.name)))

abbrev pub ambiguous : ParamKey → ParamKey → Exception
ambiguous existing key = other_exception (
    text "Ambiguous parameter routes with same matcher at: {"
    ++ (existing.name ++ (text "} and {" ++ (key.name ++ text "}"))))

module _ {H : Type 0} where
  abbrev pub empty_node : TrieNode H
  empty_node = node no_static no_param []

  -- static_children.find and static_children[segment]
  unfoldable pub find_static : Text → StaticChildren H → Option (TrieNode H)
  find_static s no_static = none
  find_static s (static t child rest) = if text_eq t s then some child else find_static s rest

  unfoldable pub put_static : Text → TrieNode H → StaticChildren H → StaticChildren H
  put_static s child no_static = static s child no_static
  put_static s child (static t old rest) =
      if text_eq t s then static t child rest else static t old (put_static s child rest)

  abbrev pub child_or_new : Option (TrieNode H) → TrieNode H
  child_or_new none = empty_node
  child_or_new (some child) = child

  -- param_children.find: the first key that is not less, if the key is not less than it.
  unfoldable pub find_param : ParamKey → ParamChildren H → Option (TrieNode H)
  find_param key no_param = none
  find_param key (param k child rest) =
      if key_lt k key then find_param key rest else if key_lt key k then none else some child

  -- The child behind the iterator that `find` returned, changed in place.
  unfoldable pub put_param : ParamKey → TrieNode H → ParamChildren H → ParamChildren H
  put_param key child no_param = no_param
  put_param key child (param k old rest) =
      if key_lt k key then param k old (put_param key child rest) else param k child rest

  -- param_children.emplace of a key that is not there: before the first key that is not less.
  unfoldable pub insert_param : ParamKey → TrieNode H → ParamChildren H → ParamChildren H
  insert_param key child no_param = param key child no_param
  insert_param key child (param k old rest) =
      if key_lt k key
      then param k old (insert_param key child rest)
      else param key child (param k old rest)

  -- The loop over the existing keys: the first one of the same type.
  unfoldable pub find_same_type : TypePointer → ParamChildren H → Option ParamKey
  find_same_type t no_param = none
  find_same_type t (param k child rest) =
      if same_type k.type t then some k else find_same_type t rest

  -- AddPath. The trie that is left is returned in any case: what was made before an exception stays.
  unfoldable pub add_path : List Text → Verb → H → TrieNode H → TrieNode H × Option Exception
  add_path [] method handler (node ss ps hs) = (node ss ps (assign method handler hs), none)
  add_path (segment ∷ segments) method handler (node ss ps hs) =
      elim (parse_param_segment segment) [
        | throws e ↦ (node ss ps hs, some e)
        | returns literal ↦
            let r = add_path segments method handler (child_or_new (find_static segment ss)) in
            (node (put_static segment r.0 ss) ps hs, r.1)
        | returns (capture key) ↦ elim (find_param key ps) [
          | some child ↦
              let r = add_path segments method handler child in
              (node ss (put_param key r.0 ps) hs, r.1)
          | none ↦ elim (find_same_type key.type ps) [
            | some existing ↦ (node ss ps hs, some (ambiguous existing key))
            | none ↦
                let r = add_path segments method handler empty_node in
                (node ss (insert_param key r.0 ps) hs, r.1)
          ]
        ]
      ]

  -- AddRoute
  unfoldable pub add_route : Verb → Text → H → TrieNode H → TrieNode H × Option Exception
  add_route method path handler root =
      add_path (split_path (normalize_path path)) method handler root

  -- The loop over the parameter children: the first one whose type takes the segment.
  unfoldable pub best_child : Text → ParamChildren H → Option (ParamKey × TrieNode H)
  best_child segment no_param = none
  best_child segment (param k child rest) =
      if (descriptor k.type).matcher segment then some (k, child) else best_child segment rest

  -- FindPath
  unfoldable pub find_path :
      List Text → TrieNode H → GeneralParams → Option (TrieNode H × GeneralParams)
  find_path [] n params = some (n, params)
  find_path (segment ∷ segments) (node ss ps hs) params = elim (find_static segment ss) [
    | some child ↦ find_path segments child params
    | none ↦ elim (best_child segment ps) [
      | none ↦ none
      | some (key, child) ↦ find_path segments child (assign key.name segment params)
    ]
  ]

  abbrev pub handlers : TrieNode H → List (Verb × H)
  handlers (node ss ps hs) = hs

  unfoldable pub pick_handler :
      Verb → Option (TrieNode H × GeneralParams) → Option (H × GeneralParams)
  pick_handler method none = none
  pick_handler method (some (n, params)) = elim (lookup method (handlers n)) [
    | none ↦ none
    | some handler ↦ some (handler, params)
  ]

  -- FindRoute; `none` is the empty handler with no parameters.
  unfoldable pub find_route : Verb → Text → TrieNode H → Option (H × GeneralParams)
  find_route method path root =
      pick_handler method (find_path (split_path (normalize_path path)) root [])
