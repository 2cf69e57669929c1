-- ===== src/Routing/Trie/Adding/Steps.antt =====
-- The patterns that paths spell, and the table of a node in terms of its children.
use ecommerce_platform.Prelude.{
  ◌≡◌, refl, Bool, true, false, ◌&&◌, List, [], ◌∷◌, Option, none, some, arith, list_eq, lookup,
  Text,
}
use ecommerce_platform.Http.Error.{Outcome, returns, throws, ◌>>=◌, Exception}
use ecommerce_platform.Http.Verb.{Verb, Verb-eq}
use ecommerce_platform.Routing.Segments.{ParamKey, ParsedSegment, parse_param_segment}
use ecommerce_platform.Routing.Trie.{
  TrieNode, node, StaticChildren, ParamChildren, empty_node, child_or_new, find_static,
}
use ecommerce_platform.Routing.Trie.Order.{search_param}
use ecommerce_platform.Routing.Trie.Table.{
  RouteStep, RouteStep-eq, fixed, taken, Pattern, step_eq, compile, step_of, handler_at, at_child,
}

abbrev pub succeeded : Option Exception → Bool
succeeded none = true
succeeded (some e) = false

-- The segments spell this pattern.
unfoldable pub spells : Outcome Pattern → Pattern → Bool
spells (returns p) q = list_eq p q
spells (throws e) q = false

spells-prefix :
    (y x : RouteStep) (o : Outcome Pattern) (q : Pattern)
    → spells (o >>= λ steps. returns (y ∷ steps)) (x ∷ q) ≡ (step_eq y x && spells o q)
unfolding spells list_eq
spells-prefix y x (returns p) q = refl
spells-prefix y x (throws e) q = ground arith

pub spells-cons :
    (segment : Text) (segments : List Text) (parsed : ParsedSegment) (x : RouteStep) (q : Pattern)
    → parse_param_segment segment ≡ returns parsed
    → spells (compile (segment ∷ segments)) (x ∷ q)
      ≡ (step_eq (step_of segment parsed) x && spells (compile segments) q)
unfolding compile
spells-cons segment segments parsed x q h =
    rw (h, compile) (spells-prefix (step_of segment parsed) x (compile segments) q)

throws_nil : (e : Exception) → spells (throws e) [] ≡ false
unfolding spells
throws_nil e = refl

no_nil :
    (y : RouteStep) (o : Outcome Pattern) → spells (o >>= λ steps. returns (y ∷ steps)) [] ≡ false
unfolding spells list_eq
no_nil y (returns p) = refl
no_nil y (throws e) = refl

pub spells-nil :
    (segment : Text) (segments : List Text) → spells (compile (segment ∷ segments)) [] ≡ false
unfolding compile
spells-nil segment segments = go (parse_param_segment segment)
  where
    go :
        (o : Outcome ParsedSegment)
        → spells
            (o >>= λ parsed. compile segments >>= λ steps. returns (step_of segment parsed ∷ steps))
            []
          ≡ false
    go (returns parsed) = no_nil (step_of segment parsed) (compile segments)
    go (throws e) = throws_nil e

module _ {H : Type 0} (v : Verb) where
  pub handler_at-empty_node : (q : Pattern) → handler_at q v (empty_node {H = H}) ≡ none
  unfolding handler_at search_param find_static lookup
  handler_at-empty_node [] = refl
  handler_at-empty_node (fixed s ∷ q) = refl
  handler_at-empty_node (taken k ∷ q) = refl

  pub at_child-new :
      (q : Pattern) (o : Option (TrieNode H)) → handler_at q v (child_or_new o) ≡ at_child q v o
  at_child-new q none = handler_at-empty_node q
  at_child-new q (some child) = refl

  pub handler_at-nil :
      (ss : StaticChildren H) (ps : ParamChildren H) (ss' : StaticChildren H)
      (ps' : ParamChildren H) (hs : List (Verb × H))
      → handler_at [] v (node ss' ps' hs) ≡ handler_at [] v (node ss ps hs)
  unfolding handler_at
  handler_at-nil ss ps ss' ps' hs = refl

  pub handler_at-fixed :
      (s : Text) (q : Pattern) (ss : StaticChildren H) (ps : ParamChildren H) (hs : List (Verb × H))
      (o : Option (TrieNode H))
      → find_static s ss ≡ o
      → handler_at (fixed s ∷ q) v (node ss ps hs) ≡ at_child q v o
  unfolding handler_at
  handler_at-fixed s q ss ps hs none h = rw (h, handler_at)
  handler_at-fixed s q ss ps hs (some child) h = rw (h, handler_at)

  pub handler_at-taken :
      (k : ParamKey) (q : Pattern) (ss : StaticChildren H) (ps : ParamChildren H)
      (hs : List (Verb × H)) (o : Option (TrieNode H))
      → search_param k ps ≡ o
      → handler_at (taken k ∷ q) v (node ss ps hs) ≡ at_child q v o
  unfolding handler_at
  handler_at-taken k q ss ps hs none h = rw (h, handler_at)
  handler_at-taken k q ss ps hs (some child) h = rw (h, handler_at)
