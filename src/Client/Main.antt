-- ===== src/Client/Main.antt =====
-- The client's main against the orders server.
use ecommerce_platform.Prelude.{
  ℕ, ◌≡◌, refl, sym, ap, ◌∙◌, Bool, true, false, List, [], ◌∷◌, ◌++◌, Option, some, All, Text, text,
  pos, arith,
}
use ecommerce_platform.Client.{HttpResponse, print_response, printed_calls, main_calls, main_client}
use ecommerce_platform.Client.Answers.{
  IsPath, Delivers, get_order_by_id-Delivers, update_order_name-Delivers, test_method-Delivers,
  delete_order-Delivers, remove_all-Delivers,
}
use ecommerce_platform.Client.Answers.Listing.{get_orders-Delivers}
use ecommerce_platform.Client.Server.{KnowsMethods, to_server}
use ecommerce_platform.Http.Error.{Status, exit_code, Outcome, returns}
use ecommerce_platform.Http.Json.{JsonLibrary}
use ecommerce_platform.Http.Router.{Target}
use ecommerce_platform.Http.Verb.{Verb}
use ecommerce_platform.Orders.Controller.{OrdersController, orders_controller}
use ecommerce_platform.Parser.Integral.{fits, to_string}
use ecommerce_platform.Parser.Values.{is_empty}

module _ (lib : JsonLibrary) (pretty : lib.Json → Outcome Text) (discarded : lib.Json → Bool)
    (decimal : Status → Text) where
  open lib use {Json, object, parse, array, string, integer, boolean}

  -- What the client relies on of the JSON library: no text, and no object, is taken for the other. A
  -- value that was read from a text holds UTF-8 only, and so it is printed.
  pub record IsDisplay : Type 0 where
    pub no_text : discarded (parse []) ≡ true
    pub keeps_objects : (fields : List (Text × Json)) → discarded (object fields) ≡ false
    pub prints_parsed :
        (s : Text)
        → discarded (parse s) ≡ false
        → (printed : Text) × (pretty (parse s) ≡ returns printed)

  -- What stands on the screen for answers with status 200: their labels and their printed bodies.
  abbrev pub transcript : List (Text × Text) → List Text
  transcript [] = text "" ∷ text "Client finished requests." ∷ []
  transcript ((label, body) ∷ shown) =
      text ""
      ∷ (text "== " ++ (label ++ text " =="))
      ∷ (text "status: " ++ decimal 200)
      ∷ (text "body: " ++ body)
      ∷ transcript shown

  -- The bodies are the objects with these fields, printed.
  abbrev pub AreShown : List (Text × List (Text × Json)) → List (Text × Text) → Type 0
  AreShown [] [] = Unit
  AreShown ((label, fields) ∷ answers) ((label', body) ∷ shown) =
      (label ≡ label') × (pretty (object fields) ≡ returns body) × AreShown answers shown
  AreShown _ _ = ⊥

  -- What the orders server answers to the calls of main.
  abbrev pub main_answers : List (Text × List (Text × Json))
  main_answers =
      (
        text "GET /orders",
        (text "limit", integer (pos 5))
            ∷ (text "offset", integer (pos 0))
            ∷ (text "orders", array [])
            ∷ [],
      )
      ∷ (
        text "GET /orders/1",
        (text "order_id", string (text "1")) ∷ (text "status", string (text "pending")) ∷ [],
      )
      ∷ (
        text "PUT /orders/1/name",
        (text "updated", boolean true)
            ∷ (text "order_id", integer (pos 1))
            ∷ (text "new_name", string (text "Order #1"))
            ∷ [],
      )
      ∷ (
        text "PUT /orders/1/name/random",
        (text "order_id", integer (pos 1)) ∷ (text "random_string", string (text "random")) ∷ [],
      )
      ∷ (
        text "DELETE /orders/1",
        (text "deleted", boolean true) ∷ (text "order_id", integer (pos 1)) ∷ [],
      )
      ∷ (text "POST /orders/remove_all", (text "removed", boolean true) ∷ [])
      ∷ []

  -- The calls deliver the answers, in order.
  abbrev AreDelivered :
      List (Text × Outcome HttpResponse) → List (Text × List (Text × Json)) → Type 0
  AreDelivered [] [] = Unit
  AreDelivered ((label, call) ∷ calls) ((label', fields) ∷ answers) =
      (label' ≡ label) × Delivers lib call (object fields) × AreDelivered calls answers
  AreDelivered _ _ = ⊥

  module _ (display : IsDisplay) where
    not_empty :
        (s : Text) (fields : List (Text × Json)) → parse s ≡ object fields → is_empty s ≡ false
    unfolding is_empty
    not_empty [] fields e = cc (sym display.no_text ∙ ap discarded e ∙ display.keeps_objects fields)
    not_empty (c ∷ s) fields e = refl

    -- A delivered object is printed.
    printed_object :
        (label s : Text) (fields : List (Text × Json))
        → parse s ≡ object fields
        → (body : Text) × (pretty (object fields) ≡ returns body)
          × (print_response lib pretty discarded decimal label (record { status = 200; body = s })
              ≡ returns (
                  text ""
                  ∷ (text "== " ++ (label ++ text " =="))
                  ∷ (text "status: " ++ decimal 200)
                  ∷ (text "body: " ++ body)
                  ∷ []))
    unfolding print_response
    printed_object label s fields e =
        let kept = ap discarded e ∙ display.keeps_objects fields in
        let (body, p) = display.prints_parsed s kept in
        (body, ap pretty (sym e) ∙ p, rw (not_empty s fields e, kept, p) refl)

    printed_calls-transcript :
        (calls : List (Text × Outcome HttpResponse)) (answers : List (Text × List (Text × Json)))
        → AreDelivered calls answers
        → (shown : List (Text × Text)) × AreShown answers shown
          × (printed_calls lib pretty discarded decimal calls ≡ returns (transcript shown))
    printed_calls-transcript [] [] h = ([], tt, refl)
    printed_calls-transcript [] (a ∷ answers) h = absurd h
    printed_calls-transcript (c ∷ calls) [] h = absurd h
    printed_calls-transcript ((label, call) ∷ calls) ((label', fields) ∷ answers)
          (same, (s, e, parsed), h) =
        let (body, p, printed) = printed_object label s fields parsed in
        let (shown, are, rest) = printed_calls-transcript calls answers h in
        ((label, body) ∷ shown, (same, p, are), rw (e, printed, rest) refl)

    module _ (string_to_verb : Text → Verb) (names : KnowsMethods string_to_verb)
        (parse_target : Text → Option Target) (lock : ℕ → Option OrdersController)
        (alive : lock 0 ≡ some orders_controller) where
      -- While the orders controller is alive, the client's main prints, in order and with status 200,
      -- the answers of the orders server to its six calls, then that it has finished, and it ends
      -- with code 0, if its targets are parsed to their paths and to the two parameters of the first,
      -- and the JSON library tells objects from no text and prints what it has parsed.
      pub client_main_prints :
          parse_target (text "/orders?limit=5&offset=0")
            ≡ some (record {
              path = text "/orders";
              params = (text "limit", text "5") ∷ (text "offset", text "0") ∷ [];
            })
          → All (IsPath parse_target) (
              text "/orders/1"
              ∷ text "/orders/1/name"
              ∷ text "/orders/1/name/random"
              ∷ text "/orders/remove_all"
              ∷ [])
          → (shown : List (Text × Text)) × AreShown main_answers shown
            × (printed_calls lib pretty discarded decimal
                  (main_calls lib string_to_verb (to_server lib parse_target lock))
                ≡ returns (transcript shown))
            × (exit_code (
                  printed_calls lib pretty discarded decimal
                    (main_calls lib string_to_verb (to_server lib parse_target lock)))
                ≡ some 0)
      unfolding exit_code main_calls to_string fits
      client_main_prints listing (one, (renaming, (random, (removing, nothing)))) =
          let (shown, are, e) =
            printed_calls-transcript
              (main_calls lib string_to_verb (to_server lib parse_target lock)) main_answers
              (
                refl,
                get_orders-Delivers lib string_to_verb names parse_target lock alive main_client
                    (pos 5) (pos 0) refl refl listing,
                (
                  refl,
                  get_order_by_id-Delivers lib string_to_verb names parse_target lock alive
                      main_client (pos 1) refl one,
                  (
                    refl,
                    update_order_name-Delivers lib string_to_verb names parse_target lock alive
                        main_client (pos 1) (text "Order #1") refl
                        (lib.is_utf8-ascii _ (omega arith)) renaming,
                    (
                      refl,
                      test_method-Delivers lib string_to_verb names parse_target lock alive
                          main_client (pos 1) (text "random") refl ((λ e. cc), omega arith)
                          (lib.is_utf8-ascii _ (omega arith)) random,
                      (
                        refl,
                        delete_order-Delivers lib string_to_verb names parse_target lock alive
                            main_client (pos 1) refl one,
                        (
                          refl,
                          remove_all-Delivers lib string_to_verb names parse_target lock alive
                              main_client removing,
                          tt,
                        ),
                      ),
                    ),
                  ),
                ),
              ) in
          (shown, are, e, rw e refl)
