-- ===== src/Http/Router/Answers.antt =====
-- What Router::Route answers.
use ecommerce_platform.Prelude.{
  ℕ, ◌≡◌, refl, ap, ◌∙◌, inl, inr, List, [], ◌∷◌, Option, none, some, arith, Option-cases, lookup,
  emplace, lookup-emplace, emplace_present, Text, Text-eq, text, text_eq, text_eq_iff,
}
use ecommerce_platform.Http.Context.{RequestContext, make_context}
use ecommerce_platform.Http.Error.{HttpError, Outcome, returns, throws, Exception}
use ecommerce_platform.Http.ErrorMapping.{map_exception}
use ecommerce_platform.Http.Json.{JsonLibrary}
use ecommerce_platform.Http.Message.{Request, Response, error_body, error_response}
use ecommerce_platform.Http.Message.Printing.{
  IsPrintable, error_reply, error_body-printable, error_response-error_reply,
}
use ecommerce_platform.Http.Router.{
  Target, HandlerPointer, Handler, controller_unavailable, invalid_request_target, route_not_found,
  collect_query, bind_handler, answer, dispatch, route,
}
use ecommerce_platform.Parser.Params.{GeneralParams}
use ecommerce_platform.Routing.Paths.{split_path}
use ecommerce_platform.Routing.Trie.{TrieNode, find_route}
use ecommerce_platform.Routing.Trie.Finding.Routes.{find_route-registered}
use ecommerce_platform.Routing.Trie.Finding.Ways.{captures, Matches}
use ecommerce_platform.Routing.Trie.Table.{Pattern, handler_at, IsWellFormed}

lookup-collect_query_from :
    (key : Text) (params : List (Text × Text)) (query : GeneralParams)
    → lookup key (collect_query params query)
      ≡ elim (lookup key query) [ none ↦ lookup key params | some value ↦ some value ]
unfolding collect_query lookup
lookup-collect_query_from key [] query = ground arith
lookup-collect_query_from key ((k, v) ∷ params) query = elim (Option-cases (lookup k query)) [
  | inl new ↦ ground (
    arith,
    lookup-collect_query_from key params (emplace k v query),
    lookup-emplace k key v query new,
    text_eq_iff k key,
  )
  | inr (old, held) ↦ ground (
    arith,
    lookup-collect_query_from key params (emplace k v query),
    emplace_present k v old query held,
    text_eq_iff k key,
  )
]

-- A query parameter that the target gives more than once has its first value.
lookup-collect_query :
    (key : Text) (params : List (Text × Text))
    → lookup key (collect_query params []) ≡ lookup key params
unfolding lookup
lookup-collect_query key params = lookup-collect_query_from key params []

module _ (lib : JsonLibrary) where
  open lib use {Json, string, parse, member}

  -- The two texts of an error, read back from the body of its response.
  abbrev pub Reports : Text → HttpError → Type 0
  Reports body error =
      (inner : Json) × (member (text "error") (parse body) ≡ some inner)
      × (member (text "code") inner ≡ some (string error.code))
      × (member (text "message") inner ≡ some (string error.message))

  pub error_body-Reports :
      (error : HttpError) → IsPrintable lib error → Reports (lib.print (error_body lib error)) error
  unfolding error_body lookup text_eq
  error_body-Reports error p = (
    lib.object ((text "code", string error.code) ∷ (text "message", string error.message) ∷ []),
    rw (lib.parse-print _ (error_body-printable lib error p), lib.member-object),
    rw lib.member-object,
    rw lib.member-object,
  )

  -- If a handler throws an exception that is mapped to an error with UTF-8 texts, the client gets a
  -- response: its status is that of the error, its body reports the error's code and message, and it
  -- keeps the version and the connection option of the request.
  pub answer-throws :
      (req : Request) (e : Exception)
      → IsPrintable lib (map_exception e)
      → (res : Response) × (answer lib req (throws e) ≡ returns res)
        × (res.status ≡ (map_exception e).status)
        × Reports res.body (map_exception e)
        × (res.version ≡ req.version)
        × (res.keep_alive ≡ req.keep_alive)
  unfolding answer
  answer-throws req e p = (
    error_reply lib req (map_exception e),
    error_response-error_reply lib req (map_exception e) p,
    refl,
    error_body-Reports (map_exception e) p,
    refl,
    refl,
  )

  controller_unavailable-IsPrintable : IsPrintable lib controller_unavailable
  controller_unavailable-IsPrintable = record {
    code_utf8 = lib.is_utf8-ascii _ (omega arith);
    message_utf8 = lib.is_utf8-ascii _ (omega arith);
  }

  bind_handler-gone :
      {C : Type 0} (method : HandlerPointer C) (instance_id : ℕ) (lock : ℕ → Option C)
      (ctx : RequestContext)
      → lock instance_id ≡ none
      → bind_handler lib method instance_id lock ctx
        ≡ error_response lib ctx.request controller_unavailable
  unfolding bind_handler
  bind_handler-gone method instance_id lock ctx gone = rw (gone, bind_handler)

  module _ (parse_target : Text → Option Target) {C : Type 0} (lock : ℕ → Option C)
      (trie : TrieNode (Handler C)) where
    -- The three things that can become of a request.
    pub data Routed (req : Request) (res : Outcome Response) : Type 0 where
      rejected :
          parse_target req.target ≡ none
          → res ≡ error_response lib req invalid_request_target
          → Routed req res
      unrouted :
          (parsed : Target)
          → parse_target req.target ≡ some parsed
          → find_route req.method parsed.path trie ≡ none
          → res ≡ error_response lib req route_not_found
          → Routed req res
      handled :
          (parsed : Target) (p : Pattern) (handler : Handler C) (params : GeneralParams)
          → parse_target req.target ≡ some parsed
          → handler_at p req.method trie ≡ some handler
          → Matches p (split_path parsed.path)
          → params ≡ captures p (split_path parsed.path) []
          → res
            ≡ answer lib req
                (handler lock (make_context req params (collect_query parsed.params [])))
          → Routed req res

    -- Over a well-formed trie one of these things becomes of every request.
    pub route-Routed :
        IsWellFormed trie → (req : Request) → Routed req (route lib parse_target lock trie req)
    unfolding route
    route-Routed w req = elim (Option-cases (parse_target req.target)) [
      | inl bad ↦ rw (bad, route) (rejected bad refl)
      | inr (parsed, good) ↦ elim (Option-cases (find_route req.method parsed.path trie)) [
        | inl missing ↦ rw (good, missing, route) (unrouted parsed good missing refl)
        | inr ((handler, params), found) ↦
            let (p, held, fits, same) =
              find_route-registered req.method parsed.path trie w handler params found in
            rw (good, found, route) (handled parsed p handler params good held fits same refl)
      ]
    ]

    -- A request whose target is well formed and whose path is resolved to a route of a controller that
    -- is gone is answered by 503, whatever the controller's method does.
    route-unavailable :
        (req : Request) (parsed : Target) (method : HandlerPointer C) (instance_id : ℕ)
        (params : GeneralParams)
        → parse_target req.target ≡ some parsed
        → find_route req.method parsed.path trie
          ≡ some (bind_handler lib method instance_id, params)
        → lock instance_id ≡ none
        → route lib parse_target lock trie req
          ≡ returns (error_reply lib req controller_unavailable)
    unfolding route answer dispatch
    route-unavailable req parsed method instance_id params good found gone =
        rw (good, found, route)
          (ap (answer lib req) (
            bind_handler-gone method instance_id lock
              (make_context req params (collect_query parsed.params [])) gone
            ∙ error_response-error_reply lib req controller_unavailable
                controller_unavailable-IsPrintable))
