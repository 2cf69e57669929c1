-- ===== src/Tests/Client.antt =====
-- The client's calls at concrete values, and the theorems of Client there.
use ecommerce_platform.Prelude.{
  ◌≡◌, refl, true, [], ◌∷◌, Option, some, if◌then◌else◌, Text, Text-eq, text, text_eq, pos, negsuc,
}
use ecommerce_platform.Client.{
  OrdersClient, get_orders, update_order_name, printed_calls, main_calls,
}
use ecommerce_platform.Client.Answers.{Delivers, update_order_name-Delivers}
use ecommerce_platform.Client.Answers.Listing.{get_orders-Delivers}
use ecommerce_platform.Client.Server.{KnowsMethods, to_server}
use ecommerce_platform.Client.Main.{
  IsDisplay, AreShown, main_answers, transcript, client_main_prints,
}
use ecommerce_platform.Http.Error.{returns, exit_code}
use ecommerce_platform.Http.Router.{Target}
use ecommerce_platform.Http.Verb.{Verb, get, post, put, delete_}
use ecommerce_platform.Orders.Controller.{OrdersController, orders_controller}
use ecommerce_platform.Parser.Integral.{fits, to_string}
use ecommerce_platform.Tests.Json.{sample_json}
use ecommerce_platform.Prelude.{ℕ, List}
use ecommerce_platform.Parser.Values.{is_empty}

abbrev verb_of : Text → Verb
verb_of name =
    if text_eq name (text "GET")
    then get
    else if text_eq name (text "POST")
    then post
    else if text_eq name (text "PUT")
    then put
    else delete_

verb_of-KnowsMethods : KnowsMethods verb_of
unfolding text_eq
verb_of-KnowsMethods = record {
  knows_get = refl;
  knows_post = refl;
  knows_put = refl;
  knows_delete = refl;
}

abbrev listing : Text
listing = text "/orders?limit=5&offset=0"

-- Enough of the reading of targets for these runs.
abbrev target_of : Text → Option Target
target_of s =
    if text_eq s listing
    then some (record {
      path = text "/orders";
      params = (text "limit", text "5") ∷ (text "offset", text "0") ∷ [];
    })
    else some (record { path = s; params = [] })

abbrev server_controller : ℕ → Option OrdersController
server_controller n = some orders_controller

abbrev client : OrdersClient
client = record { host = text "127.0.0.1"; port = text "1234" }

update_order_name-Delivers_example :
    Delivers sample_json
      (update_order_name sample_json verb_of
        (to_server sample_json target_of server_controller)
        client
        (negsuc 6)
        (text "Order #7"))
      (sample_json.object (
        (text "updated", sample_json.boolean true)
        ∷ (text "order_id", sample_json.integer (negsuc 6))
        ∷ (text "new_name", sample_json.string (text "Order #7"))
        ∷ []))
unfolding text_eq fits
update_order_name-Delivers_example =
    update_order_name-Delivers sample_json verb_of verb_of-KnowsMethods target_of server_controller
      refl client (negsuc 6) (text "Order #7") refl refl refl

get_orders-Delivers_example :
    Delivers sample_json
      (get_orders sample_json verb_of
        (to_server sample_json target_of server_controller)
        client
        (pos 5)
        (pos 0))
      (sample_json.object (
        (text "limit", sample_json.integer (pos 5))
        ∷ (text "offset", sample_json.integer (pos 0))
        ∷ (text "orders", sample_json.array [])
        ∷ []))
unfolding text_eq fits to_string
get_orders-Delivers_example =
    get_orders-Delivers sample_json verb_of verb_of-KnowsMethods target_of server_controller refl
      client (pos 5) (pos 0) refl refl refl

abbrev plain : ℕ → Text
plain n = n ∷ []

display : IsDisplay sample_json (λ j. returns j) is_empty plain
unfolding is_empty
display = record {
  no_text = refl;
  keeps_objects = λ fields. refl;
  prints_parsed = λ s h. (_, refl);
}

client_main_prints_example :
    (shown : List (Text × Text)) × AreShown sample_json
      (λ j. returns j)
      is_empty
      plain
      (main_answers sample_json (λ j. returns j) is_empty plain)
      shown
    × (printed_calls sample_json
          (λ j. returns j)
          is_empty
          plain
          (main_calls sample_json verb_of (to_server sample_json target_of server_controller))
        ≡ returns (transcript sample_json (λ j. returns j) is_empty plain shown))
    × (exit_code (
          printed_calls sample_json
            (λ j. returns j)
            is_empty
            plain
            (main_calls sample_json verb_of (to_server sample_json target_of server_controller)))
        ≡ some 0)
unfolding text_eq
client_main_prints_example =
    client_main_prints sample_json (λ j. returns j) is_empty plain display verb_of
      verb_of-KnowsMethods target_of server_controller refl refl (refl, (refl, (refl, (refl, tt))))
