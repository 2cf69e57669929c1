-- ===== src/Http/Router.antt =====
-- Router of common/http/include/Router.hpp and common/http/src/Router.cpp. Parameters: the JSON
-- library, and `parse_target`, which is boost::urls::parse_origin_form with the decoded path and
-- parameters of its result. `C` is the type of controllers; a weak pointer is a number, and `lock`
-- says what it points to when a request is handled.
pub mod Answers
pub mod Replies
use ecommerce_platform.Prelude.{
  ℕ, List, [], ◌∷◌, ◌++◌, map, Option, none, some, emplace, Text, Text-eq, text,
}
use ecommerce_platform.Http.Context.{RequestContext, make_context}
use ecommerce_platform.Http.Error.{HttpError, Outcome, returns, throws, Exception}
use ecommerce_platform.Http.ErrorMapping.{map_exception}
use ecommerce_platform.Http.Json.{JsonLibrary}
use ecommerce_platform.Http.Message.{Request, Response, error_response}
use ecommerce_platform.Http.Verb.{Verb}
use ecommerce_platform.Parser.Params.{GeneralParams}
use ecommerce_platform.Routing.Trie.{TrieNode, add_route, find_route}
use ecommerce_platform.Routing.Trie.Listing.{get_all_routes}

pub record Target : Type 0 where
  pub path : Text
  pub params : List (Text × Text)

-- Response (Controller::*)(const RequestContext&)
abbrev pub HandlerPointer : Type 0 → Type 0
HandlerPointer C = C → RequestContext → Outcome Response

-- What the trie holds: the closure of AddRoute, run when the weak pointers point to what `lock` says.
abbrev pub Handler : Type 0 → Type 0
Handler C = (ℕ → Option C) → RequestContext → Outcome Response

abbrev pub controller_unavailable : HttpError
controller_unavailable = record {
  status = 503;
  code = text "controller_unavailable";
  message = text "Controller is unavailable";
}

abbrev pub invalid_request_target : HttpError
invalid_request_target = record {
  status = 400;
  code = text "invalid_request_target";
  message = text "Invalid request target";
}

abbrev pub route_not_found : HttpError
route_not_found = record {
  status = 404;
  code = text "route_not_found";
  message = text "Route not found";
}

-- The loop that fills the query parameters: `emplace` keeps the first value of a key.
unfoldable pub collect_query : List (Text × Text) → GeneralParams → GeneralParams
collect_query [] query = query
collect_query ((key, value) ∷ params) query = collect_query params (emplace key value query)

module _ (lib : JsonLibrary) where
  -- The closure that Router::AddRoute stores.
  unfoldable pub bind_handler : {C : Type 0} → HandlerPointer C → ℕ → Handler C
  bind_handler handler instance_id lock ctx = elim (lock instance_id) [
    | none ↦ error_response lib ctx.request controller_unavailable
    | some locked ↦ handler locked ctx
  ]

  -- Router::AddRoute
  unfoldable pub router_add_route :
      {C : Type 0}
      → Verb
      → Text
      → HandlerPointer C
      → ℕ
      → TrieNode (Handler C)
      → TrieNode (Handler C) × Option Exception
  router_add_route method path handler instance_id trie =
      add_route method path (bind_handler handler instance_id) trie

  -- The try block around the handler.
  unfoldable pub answer : Request → Outcome Response → Outcome Response
  answer req (returns res) = returns res
  answer req (throws e) = error_response lib req (map_exception e)

  module _ (parse_target : Text → Option Target) {C : Type 0} (lock : ℕ → Option C)
      (trie : TrieNode (Handler C)) where
    unfoldable pub dispatch :
        Request → Target → Option (Handler C × GeneralParams) → Outcome Response
    dispatch req parsed none = error_response lib req route_not_found
    dispatch req parsed (some (handler, path_params)) =
        answer req (handler lock (make_context req path_params (collect_query parsed.params [])))

    -- Router::Route
    unfoldable pub route : Request → Outcome Response
    unfolding dispatch answer
    route req = elim (parse_target req.target) [
      | none ↦ error_response lib req invalid_request_target
      | some parsed ↦ dispatch req parsed (find_route req.method parsed.path trie)
    ]

-- PrintAllRoutes: the lines that it prints. `verb_text` is http::to_string.
unfoldable pub print_all_routes : {H : Type 0} → (Verb → Text) → TrieNode H → List Text
print_all_routes verb_text root =
    text "All registered routes:"
    ∷ map (λ route. text "  " ++ route) (get_all_routes verb_text root)
