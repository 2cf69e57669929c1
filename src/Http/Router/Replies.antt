-- ===== src/Http/Router/Replies.antt =====
-- The responses that Router::Route makes, and the exceptions that leave it.
use ecommerce_platform.Prelude.{ℕ, ◌≡◌, Bool, true, false, ◌&&◌, [], Option, none, some, Text, text}
use ecommerce_platform.Http.Context.{make_context}
use ecommerce_platform.Http.Error.{HttpError, Outcome, returns, throws, Exception}
use ecommerce_platform.Http.ErrorMapping.{map_exception}
use ecommerce_platform.Http.Json.{JsonLibrary}
use ecommerce_platform.Http.Message.{Request, Response}
use ecommerce_platform.Http.Router.{Target, Handler, collect_query}
use ecommerce_platform.Http.Router.Answers.{Reports}
use ecommerce_platform.Routing.Paths.{split_path}
use ecommerce_platform.Routing.Trie.{TrieNode, find_route}
use ecommerce_platform.Routing.Trie.Finding.Ways.{captures, Matches}
use ecommerce_platform.Routing.Trie.Table.{Pattern, handler_at}

module _ (lib : JsonLibrary) where
  open lib use {is_utf8, printable, string, object}

  -- A response comes back that has the error's status, and a body that reports the error.
  pub record Refuses (req : Request) (error : HttpError) (res : Outcome Response) : Type 0 where
    pub response : Response
    pub is_response : res ≡ returns response
    pub same_status : response.status ≡ error.status
    pub reports : Reports lib response.body error
    pub same_version : response.version ≡ req.version
    pub same_connection : response.keep_alive ≡ req.keep_alive

  abbrev pub is_utf8_error : HttpError → Bool
  is_utf8_error error = is_utf8 error.code && is_utf8 error.message

  module _ (parse_target : Text → Option Target) {C : Type 0} (lock : ℕ → Option C)
      (trie : TrieNode (Handler C)) where
    -- The handler is registered under the request's method and a pattern that the path matches, and
    -- with the captures of that pattern and the query it comes to this outcome.
    pub record Runs (req : Request) (outcome : Outcome Response) : Type 0 where
      pub parsed : Target
      pub pattern_of : Pattern
      pub handler : Handler C
      pub is_parsed : parse_target req.target ≡ some parsed
      pub is_registered : handler_at pattern_of req.method trie ≡ some handler
      pub fits : Matches pattern_of (split_path parsed.path)
      pub comes_to :
          handler lock (
            make_context req
              (captures pattern_of (split_path parsed.path) [])
              (collect_query parsed.params []))
          ≡ outcome

    pub data Answered (req : Request) (res : Outcome Response) : Type 0 where
      malformed :
          parse_target req.target ≡ none
          → Refuses req
              (record {
                status = 400;
                code = text "invalid_request_target";
                message = text "Invalid request target";
              })
              res
          → Answered req res
      missing :
          (parsed : Target)
          → parse_target req.target ≡ some parsed
          → find_route req.method parsed.path trie ≡ none
          → Refuses req
              (record {
                status = 404;
                code = text "route_not_found";
                message = text "Route not found";
              })
              res
          → Answered req res
      answers :
          (response : Response)
          → Runs req (returns response)
          → res ≡ returns response
          → Answered req res
      fails :
          (e : Exception)
          → Runs req (throws e)
          → is_utf8_error (map_exception e) ≡ true
          → Refuses req (map_exception e) res
          → Answered req res
      breaks :
          (e x : Exception)
          → Runs req (throws e)
          → is_utf8_error (map_exception e) ≡ false
          → res ≡ throws x
          → Answered req res
