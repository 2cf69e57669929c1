-- ===== src/Routing/Trie/Finding/Ways.antt =====
-- FindPath against the resolution that it means.
use ecommerce_platform.Prelude.{
  ◌≡◌, refl, sym, ap, ◌∙◌, ◌↔◌, inl, inr, true, List, [], ◌∷◌, none, some, arith, Option-cases,
  subst, lookup, assign, Text, Text-eq,
}
use mathlib.Core.Option.{none-ne-some}
use ecommerce_platform.Http.Verb.{Verb, Verb-eq}
use ecommerce_platform.Parser.Params.{GeneralParams}
use ecommerce_platform.Routing.Segments.{ParamKey}
use ecommerce_platform.Routing.Trie.{
  TrieNode, node, StaticChildren, ParamChildren, find_static, best_child, find_path, handlers,
}
use ecommerce_platform.Routing.Trie.Table.{fixed, taken, Pattern, handler_at, IsWellFormed}
use ecommerce_platform.Routing.Trie.Adding.Shape.{
  find_static-IsWellFormed, search_param-IsWellFormed,
}
use ecommerce_platform.Routing.Trie.Adding.Steps.{handler_at-fixed, handler_at-taken}
use ecommerce_platform.Routing.Trie.Finding.Best.{
  takes, IsBest, best_child-IsBest, IsBest-best_child,
}

-- The way that a path takes through the trie, with the pattern that it follows and the node that it
-- ends in: at each node the static child of the segment; only if there is none, the best parameter
-- child. It never turns back.
pub data Follows {H : Type 0} : TrieNode H → List Text → Pattern → TrieNode H → Type 0 where
  stop : (n : TrieNode H) → Follows n [] [] n
  by_text :
      {ss : StaticChildren H} {ps : ParamChildren H} {hs : List (Verb × H)} {segment : Text}
      {segments : List Text} {child end : TrieNode H} {steps : Pattern}
      → find_static segment ss ≡ some child
      → Follows child segments steps end
      → Follows (node ss ps hs) (segment ∷ segments) (fixed segment ∷ steps) end
  by_param :
      {ss : StaticChildren H} {ps : ParamChildren H} {hs : List (Verb × H)} {segment : Text}
      {segments : List Text} {key : ParamKey} {child end : TrieNode H} {steps : Pattern}
      → find_static segment ss ≡ none
      → IsBest segment ps key child
      → Follows child segments steps end
      → Follows (node ss ps hs) (segment ∷ segments) (taken key ∷ steps) end

-- What the parameters of the pattern capture; a later one overwrites an earlier one of its name.
abbrev pub captures : Pattern → List Text → GeneralParams → GeneralParams
captures (taken key ∷ steps) (segment ∷ segments) params =
    captures steps segments (assign key.name segment params)
captures (fixed s ∷ steps) (segment ∷ segments) params = captures steps segments params
captures _ _ params = params

-- The pattern fits the segments, step by step.
abbrev pub Matches : Pattern → List Text → Type 0
Matches [] [] = Unit
Matches (fixed s ∷ steps) (segment ∷ segments) = (s ≡ segment) × Matches steps segments
Matches (taken key ∷ steps) (segment ∷ segments) =
    (takes key segment ≡ true) × Matches steps segments
Matches _ _ = ⊥

module _ {H : Type 0} where
  pub Follows-Matches :
      {t end : TrieNode H} {segments : List Text} {steps : Pattern}
      → Follows t segments steps end
      → Matches steps segments
  Follows-Matches (stop n) = tt
  Follows-Matches (by_text h f) = (refl, Follows-Matches f)
  Follows-Matches (by_param h b f) = (b.fits, Follows-Matches f)

  pub Follows-handler_at :
      {t end : TrieNode H} {segments : List Text} {steps : Pattern}
      → Follows t segments steps end
      → (v : Verb) → handler_at steps v t ≡ lookup v (handlers end)
  unfolding handler_at
  Follows-handler_at (stop (node ss ps hs)) v = refl
  Follows-handler_at (by_text {ss} {ps} {hs} {segment} {steps} h f) v =
      handler_at-fixed v segment steps ss ps hs _ h ∙ Follows-handler_at f v
  Follows-handler_at (by_param {ss} {ps} {hs} {key} {steps} h b f) v =
      handler_at-taken v key steps ss ps hs _ b.present ∙ Follows-handler_at f v

  pub find_path-Follows :
      (segments : List Text) (t : TrieNode H) (params : GeneralParams) (end : TrieNode H)
      (out : GeneralParams)
      → IsWellFormed t
      → find_path segments t params ≡ some (end, out)
      → (steps : Pattern) × Follows t segments steps end × (out ≡ captures steps segments params)
  unfolding find_path
  find_path-Follows [] t params end out w h =
      let here : t ≡ end = ground arith in ([], subst (Follows t [] []) here (stop t), ground arith)
  find_path-Follows (segment ∷ segments) (node ss ps hs) params end out w h =
      elim (Option-cases (find_static segment ss)) [
        | inr (child, s) ↦
            let (steps, f, e) =
              find_path-Follows segments child params end out
                (find_static-IsWellFormed segment ss child w.0 s) (rw (s, find_path) at h) in
            (fixed segment ∷ steps, by_text s f, e)
        | inl s ↦ elim (Option-cases (best_child segment ps)) [
          | inl missed ↦ absurd (none-ne-some _ (rw (s, missed, find_path) at h))
          | inr ((key, child), b) ↦
              let best = best_child-IsBest segment 5 ps key child w.1 b in
              let (steps, f, e) =
                find_path-Follows segments child (assign key.name segment params) end out
                  (search_param-IsWellFormed key ps child w.2 best.present)
                  (rw (s, b, find_path) at h) in
              (taken key ∷ steps, by_param s best f, e)
        ]
      ]

  pub Follows-find_path :
      {t end : TrieNode H} {segments : List Text} {steps : Pattern}
      → Follows t segments steps end
      → (params : GeneralParams) → IsWellFormed t
      → find_path segments t params ≡ some (end, captures steps segments params)
  unfolding find_path
  Follows-find_path (stop n) params w = refl
  Follows-find_path (by_text {ss} {segment} {child} h f) params w =
      rw (h, find_path)
        (Follows-find_path f params (find_static-IsWellFormed segment ss child w.0 h))
  Follows-find_path (by_param {ps} {segment} {key} {child} h b f) params w =
      rw (h, IsBest-best_child segment ps key child w.1 b, find_path)
        (Follows-find_path f (assign key.name segment params)
          (search_param-IsWellFormed key ps child w.2 b.present))

  -- FindPath returns exactly the end of the way that the rules of resolution describe, with the
  -- captures of the pattern that this way follows laid over the given parameters.
  find_path_iff :
      (segments : List Text) (t : TrieNode H) (params : GeneralParams) (end : TrieNode H)
      (out : GeneralParams)
      → IsWellFormed t
      → (find_path segments t params ≡ some (end, out)) ↔ (
          (steps : Pattern) × Follows t segments steps end × (out ≡ captures steps segments params))
  find_path_iff segments t params end out w = (
    find_path-Follows segments t params end out w,
    λ (steps, f, e). Follows-find_path f params w ∙ ap (λ o. some (end, o)) (sym e),
  )
