-- ===== src/Client/Server.antt =====
-- The orders server at the other end of the client's network.
use ecommerce_platform.Prelude.{ℕ, ◌≡◌, true, [], Option, none, some, Text, text}
use ecommerce_platform.Client.{OrdersClient, Network, request}
use ecommerce_platform.Http.Error.{Outcome, returns, ◌>>=◌}
use ecommerce_platform.Http.Json.{JsonLibrary}
use ecommerce_platform.Http.Message.{Request, Response}
use ecommerce_platform.Http.Router.{Target, route}
use ecommerce_platform.Http.Verb.{Verb, get, post, put, delete_}
use ecommerce_platform.Orders.Controller.{OrdersController}
use ecommerce_platform.Orders.Routes.{orders_trie}

-- The names that the client gives methods by, as Boost.Beast reads them.
pub record KnowsMethods (string_to_verb : Text → Verb) : Type 0 where
  pub knows_get : string_to_verb (text "GET") ≡ get
  pub knows_post : string_to_verb (text "POST") ≡ post
  pub knows_put : string_to_verb (text "PUT") ≡ put
  pub knows_delete : string_to_verb (text "DELETE") ≡ delete_

module _ (lib : JsonLibrary) (parse_target : Text → Option Target)
    (lock : ℕ → Option OrdersController) where
  abbrev pub serve : Request → Outcome Response
  serve = route lib parse_target lock (orders_trie lib)

  -- Each connection reaches the server, which answers the request as it was sent.
  abbrev pub to_server : Network
  to_server = record {
    Connection = Unit {0};
    connect = λ host port. returns tt;
    exchange = λ stream sent. do
      res ← serve sent.message
      returns (res.status, res.body);
  }

  module _ (string_to_verb : Text → Verb) (self : OrdersClient) (method target : Text) where
    abbrev pub bare : Request
    bare = record {
      method = string_to_verb method;
      target = target;
      version = 11;
      keep_alive = true;
      body = [];
    }

    pub request-bare :
        (res : Response)
        → serve bare ≡ returns res
        → request lib string_to_verb to_server self method target none
          ≡ returns (record { status = res.status; body = res.body })
    unfolding request
    request-bare res h = rw h

    pub request-body :
        (body : lib.Json) (res : Response)
        → lib.printable body ≡ true
        → serve (record bare { body = lib.print body }) ≡ returns res
        → request lib string_to_verb to_server self method target (some body)
          ≡ returns (record { status = res.status; body = res.body })
    unfolding request
    request-body body res p h = rw (p, h)
