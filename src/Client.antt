-- ===== src/Client.antt =====
-- OrdersClient of services/CreateOrdersClientService: include/OrdersClient.hpp and
-- src/OrdersClient.cpp, and PrintResponse and main of main.cpp. Parameters: the JSON library, the
-- names of methods, and the network, which connects to a host and a port and exchanges one request
-- for a response.
pub mod Targets
pub mod Server
pub mod Answers
pub mod Main
use ecommerce_platform.Prelude.{
  ℕ, Bool, true, false, List, [], ◌∷◌, ◌++◌, Option, none, some, map, Text, text, ℤ, pos,
  if◌then◌else◌,
}
use ecommerce_platform.Http.Error.{Status, Outcome, returns, ◌>>=◌}
use ecommerce_platform.Http.Json.{JsonLibrary, dump}
use ecommerce_platform.Http.Message.{Request}
use ecommerce_platform.Http.Verb.{Verb}
use ecommerce_platform.Parser.Integral.{to_string}
use ecommerce_platform.Parser.Values.{is_empty}

pub record HttpResponse : Type 0 where
  pub status : Status
  pub body : Text

pub record OrdersClient : Type 0 where
  pub host : Text
  pub port : Text

-- A request with the header fields that the client sets.
pub record Sent : Type 0 where
  pub message : Request
  pub fields : List (Text × Text)
  -- prepare_payload has set the length of the body.
  pub prepared : Bool

-- The resolver and the socket: to connect, and to write a request and read the response, its status
-- and its body. Each may throw.
pub record Network : Type 1 where
  pub Connection : Type 0
  pub connect : Text → Text → Outcome Connection
  pub exchange : Connection → Sent → Outcome (Status × Text)

abbrev pub set_field : Text → Text → Sent → Sent
set_field name value sent = record sent { fields = sent.fields ++ (name, value) ∷ [] }

module _ (lib : JsonLibrary) (string_to_verb : Text → Verb) (network : Network) where
  open lib use {Json, object, string}
  open network use {connect, exchange}

  unfoldable pub new_request : OrdersClient → Text → Text → Sent
  new_request self method target = set_field (text "Accept") (text "application/json") (
      set_field (text "User-Agent") (text "CreateOrdersClientService") (
        set_field (text "Host") self.host (record {
          message = record {
            method = string_to_verb method;
            target = target;
            version = 11;
            keep_alive = true;
            body = [];
          };
          fields = [];
          prepared = false;
        })))

  abbrev pub with_payload : Text → Sent → Sent
  with_payload body sent =
      let typed = set_field (text "Content-Type") (text "application/json") sent in
      record typed { message = record (typed.message) { body = body }; prepared = true }

  -- The request as it is sent; printing its body may throw.
  unfoldable pub payload : Option Json → Sent → Outcome Sent
  unfolding dump
  payload none sent = returns sent
  payload (some body) sent = do printed ← dump lib body; returns (with_payload printed sent)

  -- OrdersClient::Request
  unfoldable pub request : OrdersClient → Text → Text → Option Json → Outcome HttpResponse
  unfolding new_request payload
  request self method target body = do
    stream ← connect self.host self.port
    req ← payload body (new_request self method target)
    res ← exchange stream req
    returns (record { status = res.0; body = res.1 })

  unfoldable pub get_orders : OrdersClient → ℤ → ℤ → Outcome HttpResponse
  get_orders self limit offset =
      request self (text "GET")
        (text "/orders?limit=" ++ (to_string limit ++ (text "&offset=" ++ to_string offset))) none

  unfoldable pub get_order_by_id : OrdersClient → ℤ → Outcome HttpResponse
  get_order_by_id self order_id =
      request self (text "GET") (text "/orders/" ++ to_string order_id) none

  unfoldable pub update_order_name : OrdersClient → ℤ → Text → Outcome HttpResponse
  update_order_name self order_id new_name =
      request self (text "PUT") (text "/orders/" ++ (to_string order_id ++ text "/name"))
        (some (object ((text "name", string new_name) ∷ [])))

  unfoldable pub delete_order : OrdersClient → ℤ → Outcome HttpResponse
  delete_order self order_id =
      request self (text "DELETE") (text "/orders/" ++ to_string order_id) none

  unfoldable pub remove_all : OrdersClient → Outcome HttpResponse
  remove_all self = request self (text "POST") (text "/orders/remove_all") none

  unfoldable pub test_method : OrdersClient → ℤ → Text → Outcome HttpResponse
  test_method self order_id random_string =
      request self (text "PUT")
        (text "/orders/" ++ (to_string order_id ++ (text "/name/" ++ random_string))) none

-- PrintResponse: the lines that it prints. `pretty` prints a parsed value with an indent of two, and
-- `discarded` says that a text was no JSON.
module _ (lib : JsonLibrary) (pretty : lib.Json → Outcome Text) (discarded : lib.Json → Bool)
    (decimal : Status → Text) where
  unfoldable pub print_response : Text → HttpResponse → Outcome (List Text)
  print_response label res =
      let head =
        text ""
        ∷ (text "== " ++ (label ++ text " =="))
        ∷ (text "status: " ++ decimal res.status)
        ∷ [] in
      if is_empty res.body
      then returns (head ++ text "body: <empty>" ∷ [])
      else let json = lib.parse res.body in
        if discarded json
        then returns (head ++ (text "body: " ++ res.body) ∷ [])
        else (do printed ← pretty json; returns (head ++ (text "body: " ++ printed) ∷ []))

module _ (lib : JsonLibrary) (pretty : lib.Json → Outcome Text) (discarded : lib.Json → Bool)
    (decimal : Status → Text) where
  -- Calls, each printed under its label before the next one is made.
  abbrev pub printed_calls : List (Text × Outcome HttpResponse) → Outcome (List Text)
  printed_calls [] = returns (text "" ∷ text "Client finished requests." ∷ [])
  printed_calls ((label, call) ∷ rest) = do
    res ← call
    lines ← print_response lib pretty discarded decimal label res
    more ← printed_calls rest
    returns (lines ++ more)

abbrev pub main_client : OrdersClient
main_client = record { host = text "127.0.0.1"; port = text "1234" }

module _ (lib : JsonLibrary) (string_to_verb : Text → Verb) (network : Network) where
  -- The calls that main makes.
  unfoldable pub main_calls : List (Text × Outcome HttpResponse)
  unfolding get_orders get_order_by_id update_order_name test_method delete_order remove_all
  main_calls =
      let client = main_client in
      let one = pos 1 in
      (text "GET /orders", get_orders lib string_to_verb network client (pos 5) (pos 0))
      ∷ (text "GET /orders/1", get_order_by_id lib string_to_verb network client one)
      ∷ (
        text "PUT /orders/1/name",
        update_order_name lib string_to_verb network client one (text "Order #1"),
      )
      ∷ (
        text "PUT /orders/1/name/random",
        test_method lib string_to_verb network client one (text "random"),
      )
      ∷ (text "DELETE /orders/1", delete_order lib string_to_verb network client one)
      ∷ (text "POST /orders/remove_all", remove_all lib string_to_verb network client)
      ∷ []
