-- ===== src/Routing/Trie/Listing.antt =====
-- GetAllRoutes of common/http/src/RouteTrie.cpp. `verb_text` is http::to_string of Boost.Beast. The
-- order of static children and of handlers is that of their insertion here.
use ecommerce_platform.Prelude.{
  ◌≡◌, inl, inr, List, [], ◌∷◌, ◌++◌, some, arith, lookup, Bool-cases, Option-cases, Text, text,
  text_eq, text_eq_iff,
}
use mathlib.Core.Option.{none-ne-some}
use ecommerce_platform.Http.Verb.{Verb, Verb-eq, verb_eq, verb_eq_iff}
use ecommerce_platform.Routing.ParamType.{descriptor}
use ecommerce_platform.Routing.Segments.{ParamKey}
use ecommerce_platform.Routing.Trie.{
  TrieNode, node, StaticChildren, no_static, static, ParamChildren, no_param, param, find_static,
}
use ecommerce_platform.Routing.Trie.Order.{key_eq, key_eq_iff, search_param}
use ecommerce_platform.Routing.Trie.Table.{fixed, taken, Pattern, handler_at}

-- path.empty() ? seg : path + "/" + seg
abbrev pub extend : Text → Text → Text
extend [] seg = seg
extend (c ∷ path) seg = (c ∷ path) ++ (text "/" ++ seg)

abbrev pub param_text : ParamKey → Text
param_text key = text "{" ++ (key.name ++ (text ":" ++ ((descriptor key.type).name ++ text "}")))

module _ (verb_text : Verb → Text) where
  abbrev pub line : Verb → Text → Text
  line v path = verb_text v ++ (text " /" ++ path)

  abbrev pub lines : {H : Type 0} → List (Verb × H) → Text → List Text
  lines [] path = []
  lines ((v, handler) ∷ hs) path = line v path ∷ lines hs path

  abbrev mutual
    pub walk : {H : Type 0} → TrieNode H → Text → List Text
    walk (node ss ps hs) path = lines hs path ++ (walk_static ss path ++ walk_params ps path)

    pub walk_static : {H : Type 0} → StaticChildren H → Text → List Text
    walk_static no_static path = []
    walk_static (static seg child rest) path = walk child (extend path seg) ++ walk_static rest path

    pub walk_params : {H : Type 0} → ParamChildren H → Text → List Text
    walk_params no_param path = []
    walk_params (param key child rest) path =
        walk child (extend path (param_text key)) ++ walk_params rest path

  unfoldable pub get_all_routes : {H : Type 0} → TrieNode H → List Text
  get_all_routes root = walk root []

pub data IsIn (s : Text) : List Text → Type 0 where
  here : (ts : List Text) → IsIn s (s ∷ ts)
  there : {t : Text} {ts : List Text} → IsIn s ts → IsIn s (t ∷ ts)

left-IsIn : {s : Text} {ss : List Text} (ts : List Text) → IsIn s ss → IsIn s (ss ++ ts)
left-IsIn ts (here us) = here (us ++ ts)
left-IsIn ts (there h) = there (left-IsIn ts h)

right-IsIn : {s : Text} (ss : List Text) {ts : List Text} → IsIn s ts → IsIn s (ss ++ ts)
right-IsIn [] h = h
right-IsIn (t ∷ ss) h = there (right-IsIn ss h)

-- A route pattern as it is printed behind a path.
unfoldable pub shown : Text → Pattern → Text
shown path [] = path
shown path (fixed s ∷ steps) = shown (extend path s) steps
shown path (taken key ∷ steps) = shown (extend path (param_text key)) steps

module _ (verb_text : Verb → Text) {H : Type 0} where
  lines-lookup :
      (v : Verb) (handler : H) (hs : List (Verb × H)) (path : Text)
      → lookup v hs ≡ some handler
      → IsIn (line verb_text v path) (lines verb_text hs path)
  unfolding lookup
  lines-lookup v handler [] path h = absurd (none-ne-some _ h)
  lines-lookup v handler ((w, held) ∷ hs) path h = elim (Bool-cases (verb_eq w v)) [
    | inl same ↦ rw ((verb_eq_iff w v).0 same) (here _)
    | inr other ↦ there (lines-lookup v handler hs path (rw other at h))
  ]

  walk_static-find :
      (s line : Text) (child : TrieNode H) (ss : StaticChildren H) (path : Text)
      → find_static s ss ≡ some child
      → IsIn line (walk verb_text child (extend path s))
      → IsIn line (walk_static verb_text ss path)
  unfolding find_static
  walk_static-find s line child no_static path h i = absurd (none-ne-some _ h)
  walk_static-find s line child (static t held rest) path h i = elim (Bool-cases (text_eq t s)) [
    | inl same ↦
        let e : held ≡ child = ground arith in rw (e, (text_eq_iff t s).0 same) (left-IsIn _ i)
    | inr other ↦
        right-IsIn _ (walk_static-find s line child rest path (rw (other, find_static) at h) i)
  ]

  walk_params-search :
      (key : ParamKey) (line : Text) (child : TrieNode H) (ps : ParamChildren H) (path : Text)
      → search_param key ps ≡ some child
      → IsIn line (walk verb_text child (extend path (param_text key)))
      → IsIn line (walk_params verb_text ps path)
  unfolding search_param
  walk_params-search key line child no_param path h i = absurd (none-ne-some _ h)
  walk_params-search key line child (param k held rest) path h i =
      elim (Bool-cases (key_eq k key)) [
        | inl same ↦
            let e : held ≡ child = ground arith in rw (e, (key_eq_iff k key).0 same) (left-IsIn _ i)
        | inr other ↦
            right-IsIn _
              (walk_params-search key line child rest path (rw (other, search_param) at h) i)
      ]

  -- What stands in the table below a node is listed below the node.
  pub walk-handler_at :
      (p : Pattern) (v : Verb) (handler : H) (t : TrieNode H) (path : Text)
      → handler_at p v t ≡ some handler
      → IsIn (line verb_text v (shown path p)) (walk verb_text t path)
  unfolding handler_at shown
  walk-handler_at [] v handler (node ss ps hs) path h =
      left-IsIn _ (lines-lookup v handler hs path h)
  walk-handler_at (fixed s ∷ p) v handler (node ss ps hs) path h =
      elim (Option-cases (find_static s ss)) [
        | inl missing ↦ absurd (none-ne-some _ (rw (missing, handler_at) at h))
        | inr (child, e) ↦ right-IsIn _ (
            left-IsIn _ (
              walk_static-find s _ child ss path e
                (walk-handler_at p v handler child (extend path s) (rw (e, handler_at) at h))))
      ]
  walk-handler_at (taken key ∷ p) v handler (node ss ps hs) path h =
      elim (Option-cases (search_param key ps)) [
        | inl missing ↦ absurd (none-ne-some _ (rw (missing, handler_at) at h))
        | inr (child, e) ↦ right-IsIn _ (
            right-IsIn _ (
              walk_params-search key _ child ps path e (
                walk-handler_at p v handler child (extend path (param_text key))
                  (rw (e, handler_at) at h))))
      ]
