-- ===== src/Routing/Trie/Finding/Typed.antt =====
-- The types of a route's parameters: what TypedParams reads of the captures.
use ecommerce_platform.Prelude.{
  ◌≡◌, ◌⊎◌, refl, ◌∙◌, inl, inr, Bool, true, false, List, [], ◌∷◌, Option, none, some, arith,
  Bool-cases, lookup, assign, lookup-assign, ◌||◌, ◌===◌, Text, Text-eq, text_eq_iff,
}
use ecommerce_platform.Http.Error.{returns}
use ecommerce_platform.Http.Verb.{Verb, Verb-eq}
use ecommerce_platform.Parser.Integral.{int64}
use ecommerce_platform.Parser.Params.{GeneralParams, try_get, required}
use ecommerce_platform.Parser.Values.{
  ValueType, Value, integral, floating, string_like, try_parse, try_parse_string,
}
use ecommerce_platform.Routing.Paths.{split_path}
use ecommerce_platform.Routing.ParamType.{
  TypePointer, string_type, float_type, int_type, has_value, match_int, match_float,
}
use ecommerce_platform.Routing.Trie.{TrieNode, find_route}
use ecommerce_platform.Routing.Trie.Table.{fixed, taken, Pattern, handler_at, IsWellFormed}
use ecommerce_platform.Routing.Trie.Finding.Best.{takes}
use ecommerce_platform.Routing.Trie.Finding.Routes.{find_route-registered}
use ecommerce_platform.Routing.Trie.Finding.Ways.{captures, Matches}

-- The C++ type that stands behind a parameter type.
abbrev pub value_type : TypePointer → ValueType
value_type string_type = string_like
value_type float_type = floating
value_type int_type = integral int64

-- A parameter of this name stands among the steps.
abbrev pub names : Text → Pattern → Bool
names name [] = false
names name (fixed s ∷ steps) = names name steps
names name (taken key ∷ steps) = key.name === name || names name steps

-- Each parameter of the pattern is read at its type, if no later one overwrites it.
abbrev pub AreRead : GeneralParams → Pattern → Type 0
AreRead params [] = Unit
AreRead params (fixed s ∷ steps) = AreRead params steps
AreRead params (taken key ∷ steps) =
    ((names key.name steps ≡ true)
      ⊎ ((v : Value (value_type key.type)) × (required (value_type key.type)
              (record { entries = params }) key.name
            ≡ returns v)))
    × AreRead params steps

held {ℓ} : {A : Type ℓ} (o : Option A) → has_value o ≡ true → (a : A) × (o ≡ some a)
unfolding has_value
held none h = cc h
held (some a) h = (a, refl)

takes-read :
    (t : TypePointer) (name segment : Text)
    → takes (record { name = name; type = t }) segment ≡ true
    → (v : Value (value_type t)) × (try_parse (value_type t) segment ≡ some v)
unfolding match_int match_float try_parse try_parse_string
takes-read string_type name segment h = (segment, refl)
takes-read float_type name segment h = held _ h
takes-read int_type name segment h = held _ h

lookup-captures :
    (name : Text) (steps : Pattern) (segments : List Text) (params : GeneralParams)
    → names name steps ≡ false
    → lookup name (captures steps segments params) ≡ lookup name params
lookup-captures name [] segments params h = refl
lookup-captures name (fixed s ∷ steps) [] params h = refl
lookup-captures name (fixed s ∷ steps) (segment ∷ segments) params h =
    lookup-captures name steps segments params h
lookup-captures name (taken key ∷ steps) [] params h = refl
lookup-captures name (taken key ∷ steps) (segment ∷ segments) params h =
    lookup-captures name steps segments (assign key.name segment params) (ground arith)
    ∙ (lookup-assign key.name name segment params ∙ ground arith)

required-read :
    (t : ValueType) (params : GeneralParams) (key value : Text) (v : Value t)
    → lookup key params ≡ some value
    → try_parse t value ≡ some v
    → required t (record { entries = params }) key ≡ returns v
unfolding required try_get
required-read t params key value v found read = rw (required, try_get, found, read) refl

captures-AreRead :
    (steps : Pattern) (segments : List Text) (params : GeneralParams)
    → Matches steps segments
    → AreRead (captures steps segments params) steps
captures-AreRead [] segments params m = tt
captures-AreRead (fixed s ∷ steps) [] params m = absurd m
captures-AreRead (fixed s ∷ steps) (segment ∷ segments) params (e, m) =
    captures-AreRead steps segments params m
captures-AreRead (taken key ∷ steps) [] params m = absurd m
captures-AreRead (taken key ∷ steps) (segment ∷ segments) params (fits, m) = (
  elim (Bool-cases (names key.name steps)) [
    | inl again ↦ inl again
    | inr last ↦
        let (v, e) = takes-read key.type key.name segment fits in
        inr (v, required-read (value_type key.type) _ key.name segment v (kept last) e)
  ],
  captures-AreRead steps segments (assign key.name segment params) m,
)
  where
    kept :
        names key.name steps ≡ false
        → lookup key.name (captures steps segments (assign key.name segment params)) ≡ some segment
    kept last =
        lookup-captures key.name steps segments (assign key.name segment params) last
        ∙ (lookup-assign key.name key.name segment params
            ∙ rw ((text_eq_iff key.name key.name).1 refl) refl)

-- A route's types are honoured: where a handler is found in a well-formed trie, it stands in the
-- table under a pattern each parameter of which `Required` reads, without an exception, at the C++
-- type behind its type (a 64-bit integer for `int`, a double for `float`), unless a later parameter
-- of the pattern has the same name.
pub find_route_typed :
    {H : Type 0} (method : Verb) (path : Text) (t : TrieNode H) (handler : H) (out : GeneralParams)
    → IsWellFormed t
    → find_route method path t ≡ some (handler, out)
    → (p : Pattern) × (handler_at p method t ≡ some handler) × AreRead out p
find_route_typed method path t handler out w h =
    let (p, at_, m, e) = find_route-registered method path t w handler out h in
    (p, at_, rw e (captures-AreRead p (split_path path) [] m))
