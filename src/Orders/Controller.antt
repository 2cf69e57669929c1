-- ===== src/Orders/Controller.antt =====
-- services/CreateOrdersService/include/OrdersController.hpp and src/OrdersController.cpp. The
-- controller has no members. List converts `offset` three more times into variables that nothing
-- reads; those conversions neither throw nor change anything and are left out.
use ecommerce_platform.Prelude.{true, false, List, [], ◌∷◌, ◌++◌, Option, none, some, text, pos}
use ecommerce_platform.Http.Context.{RequestContext}
use ecommerce_platform.Http.Controller.{
  RouteDescription, get_route, post_route, put_route, del_route, with_base,
}
use ecommerce_platform.Http.Error.{HttpError, Outcome, ◌>>=◌}
use ecommerce_platform.Http.Json.{JsonLibrary}
use ecommerce_platform.Http.Message.{Response, json_response, error_response}
use ecommerce_platform.Parser.Integral.{int32, to_string}
use ecommerce_platform.Parser.Params.{try_get, required}
use ecommerce_platform.Parser.Values.{integral, boolean, string_like}

pub data OrdersController : Type 0 where
  orders_controller : OrdersController

abbrev pub value_or {ℓ} : {A : Type ℓ} → Option A → A → A
value_or none d = d
value_or (some a) d = a

abbrev pub invalid_request_body : HttpError
invalid_request_body = record {
  status = 400;
  code = text "invalid_request_body";
  message = text "field 'name' is required and must be string";
}

module _ (lib : JsonLibrary) where
  open lib use {
    Json, object, array, string, integer, boolean as bool, parse, is_object, member, as_string,
  }

  unfoldable pub list : OrdersController → RequestContext → Outcome Response
  list self ctx =
      let limit =
        value_or (try_get (integral int32) ctx.query_parameters (text "limit")) (pos 20) in
      let offset =
        value_or (try_get (integral int32) ctx.query_parameters (text "offset")) (pos 0) in
      json_response lib ctx.request 200 (
        object (
          (text "limit", integer limit)
          ∷ (text "offset", integer offset)
          ∷ (text "orders", array [])
          ∷ []))

  unfoldable pub remove_all : OrdersController → RequestContext → Outcome Response
  remove_all self ctx =
      json_response lib ctx.request 200 (object ((text "removed", bool true) ∷ []))

  unfoldable pub get_by_id : OrdersController → RequestContext → Outcome Response
  get_by_id self ctx = do
    order_id ← required string_like ctx.path_parameters (text "order_id")
    json_response lib ctx.request 200 (
        object ((text "order_id", string order_id) ∷ (text "status", string (text "pending")) ∷ []))

  unfoldable pub update : OrdersController → RequestContext → Outcome Response
  update self ctx = do
    order_id ← required (integral int32) ctx.path_parameters (text "order_id")
    json_response lib ctx.request 200
        (object ((text "updated", bool true) ∷ (text "order_id", integer order_id) ∷ []))

  unfoldable pub delete : OrdersController → RequestContext → Outcome Response
  delete self ctx = do
    order_id ← required (integral int32) ctx.path_parameters (text "order_id")
    json_response lib ctx.request 200
        (object ((text "deleted", bool true) ∷ (text "order_id", integer order_id) ∷ []))

  unfoldable pub get_order_name : OrdersController → RequestContext → Outcome Response
  get_order_name self ctx = do
    order_id ← required (integral int32) ctx.path_parameters (text "order_id")
    let random = value_or (try_get boolean ctx.query_parameters (text "random")) false
    json_response lib ctx.request 200 (
        object (
          (text "order_id", integer order_id)
          ∷ (text "name", string (text "Order #" ++ to_string order_id))
          ∷ (text "random", bool random)
          ∷ []))

  -- The test on the parsed body, and the name where it passes.
  unfoldable pub name_field : Json → Option Json
  name_field body = elim (is_object body) [
    | false ↦ none
    | true ↦ elim (member (text "name") body) [
      | none ↦ none
      | some name ↦ elim (as_string name) [ none ↦ none | some s ↦ some name ]
    ]
  ]

  unfoldable pub update_order_name : OrdersController → RequestContext → Outcome Response
  update_order_name self ctx = do
    order_id ← required (integral int32) ctx.path_parameters (text "order_id")
    elim (name_field (parse ctx.request.body)) [
      | none ↦ error_response lib ctx.request invalid_request_body
      | some name ↦ json_response lib ctx.request 200 (
          object (
            (text "updated", bool true)
            ∷ (text "order_id", integer order_id)
            ∷ (text "new_name", name)
            ∷ []))
    ]

  unfoldable pub test_method : OrdersController → RequestContext → Outcome Response
  test_method self ctx = do
    order_id ← required (integral int32) ctx.path_parameters (text "order_id")
    random_string ← required string_like ctx.path_parameters (text "random_string")
    json_response lib ctx.request 200 (
        object
          ((text "order_id", integer order_id) ∷ (text "random_string", string random_string) ∷ []))

  -- OrdersController::Routes
  unfoldable pub routes : List (RouteDescription OrdersController)
  unfolding with_base
  routes = with_base (text "/orders") (
      get_route (text "") list
      ∷ post_route (text "/remove_all") remove_all
      ∷ get_route (text "/{order_id:int}") get_by_id
      ∷ put_route (text "/{order_id:int}") update
      ∷ del_route (text "/{order_id:int}") delete
      ∷ get_route (text "/{order_id:int}/name") get_order_name
      ∷ put_route (text "/{order_id:int}/name") update_order_name
      ∷ put_route (text "/{order_id:int}/name/{random_string:string}") test_method
      ∷ [])
