-- ===== src/Routing/Trie/Finding/Best.antt =====
-- The loop over the parameter children picks the child of the highest priority whose type takes the
-- segment.
use ecommerce_platform.Prelude.{
  ℕ, ◌≤◌, ◌<◌, ◌≡◌, ap, inl, inr, Bool, true, false, none, some, arith, Option-cases, Bool-cases,
  subst, Text, Text-eq,
}
use ecommerce_platform.Http.Verb.{Verb-eq}
use ecommerce_platform.Routing.ParamType.{descriptor}
use ecommerce_platform.Routing.Segments.{ParamKey}
use ecommerce_platform.Routing.Trie.{TrieNode, ParamChildren, no_param, param, best_child}
use ecommerce_platform.Routing.Trie.Order.{
  key_eq_iff, priority, search_param, search_param_below, IsDescending,
}

abbrev pub takes : ParamKey → Text → Bool
takes key segment = (descriptor key.type).matcher segment

-- The key with the child is the best that the row has for the segment.
pub record IsBest {H : Type 0} (segment : Text) (ps : ParamChildren H) (key : ParamKey)
    (child : TrieNode H) : Type 0 where
  pub present : search_param key ps ≡ some child
  pub fits : takes key segment ≡ true
  pub highest :
      (j : ParamKey) (other : TrieNode H)
      → search_param j ps ≡ some other
      → takes j segment ≡ true
      → priority j.type ≤ priority key.type

module _ {H : Type 0} where
  present_below :
      (bound : ℕ) (ps : ParamChildren H) (j : ParamKey) (other : TrieNode H)
      → IsDescending bound ps
      → search_param j ps ≡ some other
      → priority j.type < bound
  present_below bound ps j other d h = ground (arith, search_param_below j bound ps d)

module _ {H : Type 0} (segment : Text) where
  first-IsBest :
      (bound : ℕ) (k : ParamKey) (c : TrieNode H) (rest : ParamChildren H)
      → IsDescending bound (param k c rest)
      → takes k segment ≡ true
      → IsBest segment (param k c rest) k c
  unfolding search_param
  first-IsBest bound k c rest d hit = record {
    present = ground (arith, key_eq_iff k k);
    fits = hit;
    highest = λ j other s f. ground (
      arith,
      key_eq_iff k j,
      ap (λ (i : ParamKey). priority i.type) {x = k} {y = j},
      present_below (priority k.type) rest j other d.1,
    );
  }

  later-IsBest :
      (k key : ParamKey) (c child : TrieNode H) (bound : ℕ) (rest : ParamChildren H)
      → IsDescending bound (param k c rest)
      → takes k segment ≡ false
      → IsBest segment rest key child
      → IsBest segment (param k c rest) key child
  unfolding search_param
  later-IsBest k key c child bound rest d miss b = record {
    present = ground (
      arith,
      key_eq_iff k key,
      b.present,
      b.fits,
      ap (λ (i : ParamKey). takes i segment) {x = k} {y = key},
    );
    fits = b.fits;
    highest = λ j other s f. ground (
      arith,
      key_eq_iff k j,
      ap (λ (i : ParamKey). takes i segment) {x = k} {y = j},
      b.highest j other,
    );
  }

  pub best_child-IsBest :
      (bound : ℕ) (ps : ParamChildren H) (key : ParamKey) (child : TrieNode H)
      → IsDescending bound ps
      → best_child segment ps ≡ some (key, child)
      → IsBest segment ps key child
  unfolding best_child
  best_child-IsBest bound no_param key child d h = cc
  best_child-IsBest bound (param k c rest) key child d h = elim (Bool-cases (takes k segment)) [
    | inl hit ↦
        let same_key : k ≡ key = ground arith in
        let same_child : c ≡ child = ground arith in
        subst (λ j. IsBest segment (param k c rest) j child) same_key
          (subst (IsBest segment (param k c rest) k) same_child (first-IsBest bound k c rest d hit))
    | inr miss ↦
        later-IsBest k key c child bound rest d miss
          (best_child-IsBest (priority k.type) rest key child d.1 (rw (miss, best_child) at h))
  ]

  best_child-none :
      (ps : ParamChildren H) (j : ParamKey) (other : TrieNode H)
      → best_child segment ps ≡ none
      → search_param j ps ≡ some other
      → takes j segment ≡ false
  unfolding best_child search_param
  best_child-none no_param j other h s = cc
  best_child-none (param k c rest) j other h s = ground (
    arith,
    key_eq_iff k j,
    best_child-none rest j other,
    ap (λ (i : ParamKey). takes i segment) {x = k} {y = j},
  )

module _ {H : Type 0} where
  one_of_type :
      (bound : ℕ) (ps : ParamChildren H) (j k : ParamKey) (c d : TrieNode H)
      → IsDescending bound ps
      → search_param j ps ≡ some c
      → search_param k ps ≡ some d
      → priority j.type ≡ priority k.type
      → j ≡ k
  unfolding search_param
  one_of_type bound no_param j k c d w h h' e = cc
  one_of_type bound (param i x rest) j k c d w h h' e = ground (
    arith,
    key_eq_iff i j,
    key_eq_iff i k,
    ap (λ (a : ParamKey). priority a.type) {x = i} {y = j},
    ap (λ (a : ParamKey). priority a.type) {x = i} {y = k},
    present_below (priority i.type) rest j c w.1,
    present_below (priority i.type) rest k d w.1,
    one_of_type (priority i.type) rest j k c d w.1,
  )

  pub IsBest-best_child :
      (segment : Text) (ps : ParamChildren H) (key : ParamKey) (child : TrieNode H)
      → IsDescending 5 ps
      → IsBest segment ps key child
      → best_child segment ps ≡ some (key, child)
  IsBest-best_child segment ps key child d b = elim (Option-cases (best_child segment ps)) [
    | inl missed ↦ cc (best_child-none segment ps key child missed b.present, b.fits)
    | inr ((k, c), h) ↦
        let a = best_child-IsBest segment 5 ps k c d h in
        let level : priority k.type ≡ priority key.type =
          omega (arith, a.highest key child b.present b.fits, b.highest k c a.present a.fits) in
        let same = one_of_type 5 ps k key c child d a.present b.present level in
        let same_child : c ≡ child = ground (arith, a.present, b.present) in
        rw (h, same, same_child)
  ]
