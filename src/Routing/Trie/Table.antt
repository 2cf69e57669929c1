-- ===== src/Routing/Trie/Table.antt =====
-- The trie as a table: which handler stands under a route pattern and a method, how a pattern is
-- read from a path, and the well-formedness of a trie.
use ecommerce_platform.Prelude.{
  ◌≡◌, ◌↔◌, Bool, true, false, List, [], ◌∷◌, Option, none, some, arith, lookup, Eq, Text, Text-eq,
  text_eq, text_eq_iff,
}
use ecommerce_platform.Http.Error.{Outcome, returns, ◌>>=◌}
use ecommerce_platform.Http.Verb.{Verb, Verb-eq}
use ecommerce_platform.Routing.Segments.{
  ParamKey, ParsedSegment, literal, capture, parse_param_segment,
}
use ecommerce_platform.Routing.Trie.{
  TrieNode, node, StaticChildren, no_static, static, ParamChildren, no_param, param, find_static,
}
use ecommerce_platform.Routing.Trie.Order.{key_eq, key_eq_iff, search_param, IsDescending}

-- One step of a route: a fixed text, or a parameter.
pub data RouteStep : Type 0 where
  fixed : Text → RouteStep
  taken : ParamKey → RouteStep

unfoldable pub step_eq : RouteStep → RouteStep → Bool
step_eq (fixed s) (fixed t) = text_eq s t
step_eq (taken k) (taken j) = key_eq k j
step_eq _ _ = false

pub step_eq_iff : (x y : RouteStep) → (step_eq x y ≡ true) ↔ (x ≡ y)
unfolding step_eq
step_eq_iff (fixed s) (fixed t) = ground (arith, text_eq_iff s t)
step_eq_iff (fixed s) (taken j) = ground arith
step_eq_iff (taken k) (fixed t) = ground arith
step_eq_iff (taken k) (taken j) = ground (arith, key_eq_iff k j)

instance abbrev pub RouteStep-eq : Eq RouteStep
RouteStep-eq = record { beq = step_eq; beq_iff = step_eq_iff }

abbrev pub Pattern : Type 0
Pattern = List RouteStep

abbrev pub step_of : Text → ParsedSegment → RouteStep
step_of segment literal = fixed segment
step_of segment (capture key) = taken key

-- The pattern that the segments of a registered path spell, or the exception of the first segment
-- that names an unknown type.
unfoldable pub compile : List Text → Outcome Pattern
compile [] = returns []
compile (segment ∷ segments) = do
  parsed ← parse_param_segment segment
  steps ← compile segments
  returns (step_of segment parsed ∷ steps)

module _ {H : Type 0} where
  unfoldable pub handler_at : Pattern → Verb → TrieNode H → Option H
  handler_at [] method (node ss ps hs) = lookup method hs
  handler_at (fixed s ∷ steps) method (node ss ps hs) = elim (find_static s ss) [
    | none ↦ none
    | some child ↦ handler_at steps method child
  ]
  handler_at (taken key ∷ steps) method (node ss ps hs) = elim (search_param key ps) [
    | none ↦ none
    | some child ↦ handler_at steps method child
  ]

  -- The same from a child that may be missing.
  abbrev pub at_child : Pattern → Verb → Option (TrieNode H) → Option H
  at_child steps method none = none
  at_child steps method (some child) = handler_at steps method child

abbrev mutual
  -- A static child's key stands once in its row, parameter children fall in priority, so that no
  -- type stands twice, and the same holds in all nodes below.
  pub IsWellFormed : {H : Type 0} → TrieNode H → Type 0
  IsWellFormed (node ss ps hs) = AreStatic ss × IsDescending 5 ps × AreParams ps

  pub AreStatic : {H : Type 0} → StaticChildren H → Type 0
  AreStatic no_static = Unit
  AreStatic (static s child rest) =
      (find_static s rest ≡ none) × IsWellFormed child × AreStatic rest

  pub AreParams : {H : Type 0} → ParamChildren H → Type 0
  AreParams no_param = Unit
  AreParams (param k child rest) = IsWellFormed child × AreParams rest
