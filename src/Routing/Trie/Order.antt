-- ===== src/Routing/Trie/Order.antt =====
-- The order of parameter keys, and the parameter children of a node: at most one of each type, the
-- higher priority first. In such a row the ordered search of the flat_map finds what a plain search
-- by equality finds.
use ecommerce_platform.Prelude.{
  ℕ, ◌≤◌, ◌<◌, ◌≡◌, refl, ap, ◌↔◌, Bool, true, false, ◌&&◌, [], ◌∷◌, Option, none, some, arith, ltb,
  if◌then◌else◌, Eq, Text, text_eq, text_eq_iff,
}
use ecommerce_platform.Routing.ParamType.{
  TypePointer, string_type, float_type, int_type, descriptor, rank, same_type,
}
use ecommerce_platform.Routing.Segments.{ParamKey}
use ecommerce_platform.Routing.Trie.{
  TrieNode, ParamChildren, no_param, param, text_lt, key_lt, find_param, put_param, insert_param,
  find_same_type,
}

abbrev pub priority : TypePointer → ℕ
priority t = rank (descriptor t).priority

pub same_type_iff : (s t : TypePointer) → (same_type s t ≡ true) ↔ (s ≡ t)
unfolding same_type
same_type_iff string_type t = ground arith
same_type_iff s t = ground arith

unfoldable pub key_eq : ParamKey → ParamKey → Bool
unfolding same_type text_eq
key_eq a b = same_type a.type b.type && text_eq a.name b.name

pub key_eq_iff : (a b : ParamKey) → (key_eq a b ≡ true) ↔ (a ≡ b)
unfolding key_eq
key_eq_iff a b = ground (arith, same_type_iff a.type b.type, text_eq_iff a.name b.name)

instance abbrev pub ParamKey-eq : Eq ParamKey
ParamKey-eq = record { beq = key_eq; beq_iff = key_eq_iff }

text_lt_irrefl : (s : Text) → text_lt s s ≡ false
unfolding text_lt
text_lt_irrefl [] = refl
text_lt_irrefl (c ∷ s) = ground (arith, text_lt_irrefl s)

text_lt_total : (s t : Text) → text_lt s t ≡ false → text_lt t s ≡ false → s ≡ t
unfolding text_lt
text_lt_total [] [] h k = refl
text_lt_total [] (d ∷ t) h k = cc
text_lt_total (c ∷ s) [] h k = cc
text_lt_total (c ∷ s) (d ∷ t) h k = ground (arith, text_lt_total s t)

-- Keys of different types compare by priority, those of one type by name, the greater first.
type_lt :
    (n m : Text) (s t : TypePointer)
    → key_lt (record { name = n; type = s }) (record { name = m; type = t })
      ≡ (if same_type s t then text_lt m n else ltb (priority t) (priority s))
unfolding key_lt same_type text_lt text_eq
type_lt n m string_type string_type = refl
type_lt n m string_type float_type = refl
type_lt n m string_type int_type = refl
type_lt n m float_type string_type = refl
type_lt n m float_type float_type = refl
type_lt n m float_type int_type = refl
type_lt n m int_type string_type = refl
type_lt n m int_type float_type = refl
type_lt n m int_type int_type = refl

key_lt-eq :
    (a b : ParamKey)
    → key_lt a b ≡ (
        if same_type a.type b.type
        then text_lt b.name a.name
        else ltb (priority b.type) (priority a.type))
key_lt-eq a b = type_lt a.name b.name a.type b.type

priority_injective : (s t : TypePointer) → priority s ≡ priority t → s ≡ t
priority_injective string_type t h = ground arith
priority_injective s t h = ground arith

key_lt_irrefl : (a : ParamKey) → key_lt a a ≡ false
key_lt_irrefl a = ground (arith, key_lt-eq a a, same_type_iff a.type a.type, text_lt_irrefl a.name)

key_lt-priority : (a b : ParamKey) → key_lt a b ≡ true → priority b.type ≤ priority a.type
key_lt-priority a b h =
    ground
      (arith, key_lt-eq a b, same_type_iff a.type b.type, ap priority {x = a.type} {y = b.type})

key_lt_total : (a b : ParamKey) → key_lt a b ≡ false → key_lt b a ≡ false → a ≡ b
key_lt_total a b h k = ground (
  arith,
  key_lt-eq a b,
  key_lt-eq b a,
  same_type_iff a.type b.type,
  same_type_iff b.type a.type,
  text_lt_total a.name b.name,
  priority_injective a.type b.type,
)

module _ {H : Type 0} where
  -- The search by equality.
  unfoldable pub search_param : ParamKey → ParamChildren H → Option (TrieNode H)
  search_param key no_param = none
  search_param key (param k child rest) = if key_eq k key then some child else search_param key rest

  -- Every priority lies below the bound, and they fall along the row; so no type stands twice.
  abbrev pub IsDescending : ℕ → ParamChildren H → Type 0
  IsDescending bound no_param = Unit
  IsDescending bound (param k child rest) =
      (priority k.type < bound) × IsDescending (priority k.type) rest

  pub search_param_below :
      (key : ParamKey) (bound : ℕ) (ps : ParamChildren H)
      → IsDescending bound ps
      → bound ≤ priority key.type
      → search_param key ps ≡ none
  unfolding search_param
  search_param_below key bound no_param d h = refl
  search_param_below key bound (param k child rest) d h = ground (
    arith,
    key_eq_iff k key,
    ap (λ (j : ParamKey). priority j.type) {x = k} {y = key},
    search_param_below key (priority k.type) rest d.1,
  )

  pub find_param-search_param :
      (key : ParamKey) (bound : ℕ) (ps : ParamChildren H)
      → IsDescending bound ps
      → find_param key ps ≡ search_param key ps
  unfolding find_param search_param
  find_param-search_param key bound no_param d = refl
  find_param-search_param key bound (param k child rest) d = ground (
    arith,
    key_eq_iff k key,
    key_lt_irrefl key,
    key_lt_total k key,
    key_lt-priority key k,
    find_param-search_param key (priority k.type) rest d.1,
    search_param_below key (priority k.type) rest d.1,
  )

  pub search_param-put_param :
      (key j : ParamKey) (bound : ℕ) (child old : TrieNode H) (ps : ParamChildren H)
      → IsDescending bound ps
      → search_param key ps ≡ some old
      → search_param j (put_param key child ps)
        ≡ (if key_eq key j then some child else search_param j ps)
  unfolding search_param put_param
  search_param-put_param key j bound child old no_param d h = cc
  search_param-put_param key j bound child old (param k c rest) d h = ground (
    arith,
    key_eq_iff k key,
    key_eq_iff k j,
    key_eq_iff key j,
    key_lt_irrefl key,
    key_lt_total k key,
    key_lt-priority key k,
    search_param_below key (priority k.type) rest d.1,
    search_param-put_param key j (priority k.type) child old rest d.1,
  )

  pub search_param-insert_param :
      (key j : ParamKey) (child : TrieNode H) (ps : ParamChildren H)
      → find_same_type key.type ps ≡ none
      → search_param j (insert_param key child ps)
        ≡ (if key_eq key j then some child else search_param j ps)
  unfolding search_param insert_param find_same_type
  search_param-insert_param key j child no_param h = refl
  search_param-insert_param key j child (param k c rest) h = ground (
    arith,
    key_eq_iff k j,
    key_eq_iff key j,
    same_type_iff k.type key.type,
    search_param-insert_param key j child rest,
  )

  pub search_param_fresh :
      (key : ParamKey) (ps : ParamChildren H)
      → find_same_type key.type ps ≡ none
      → search_param key ps ≡ none
  unfolding search_param find_same_type
  search_param_fresh key no_param h = refl
  search_param_fresh key (param k c rest) h =
      ground (arith, key_eq_iff k key, same_type_iff k.type key.type, search_param_fresh key rest)

  pub put_param-IsDescending :
      (key : ParamKey) (bound : ℕ) (child : TrieNode H) (ps : ParamChildren H)
      → IsDescending bound ps
      → IsDescending bound (put_param key child ps)
  unfolding put_param
  put_param-IsDescending key bound child no_param d = tt
  put_param-IsDescending key bound child (param k c rest) d =
      ground (arith, put_param-IsDescending key (priority k.type) child rest d.1)

  pub insert_param-IsDescending :
      (key : ParamKey) (bound : ℕ) (child : TrieNode H) (ps : ParamChildren H)
      → IsDescending bound ps
      → priority key.type < bound
      → find_same_type key.type ps ≡ none
      → IsDescending bound (insert_param key child ps)
  unfolding insert_param find_same_type
  insert_param-IsDescending key bound child no_param d b h = (b, tt)
  insert_param-IsDescending key bound child (param k c rest) d b h = ground (
    arith,
    same_type_iff k.type key.type,
    priority_injective k.type key.type,
    key_lt-priority k key,
    key_lt_total k key,
    key_lt-eq k key,
    insert_param-IsDescending key (priority k.type) child rest d.1,
  )
