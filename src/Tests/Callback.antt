-- ===== src/Tests/Callback.antt =====
-- The payment callback of an order at the shop, and the routes.
use msa_training.Prelude.{String, ◌≡◌, refl, false, Option, none, some, ◌==◌, ◌≢◌}
use msa_training.Errors.{OrderStatus, Result, ok}
use msa_training.Async.{run}
use msa_training.Models.{OrderDoc, is_pending_order}
use msa_training.Utils.CorrelationId.{
  is_allowed_char, at_most, matches_pattern, normalize_correlation_id,
}
use msa_training.Utils.CorrelationId.Pattern.{
  IsCorrelationId, matched, normalize_correlation_id_lem,
}
use msa_training.Backend.{World}
use msa_training.Interfaces.OrderRoutes.{
  Response, message, updated, current_status, callback_route, callback_response, error_response,
}
use msa_training.Application.OrderService.{
  process_payment_callback, is_allowed, new_status, answer, explain,
}
use msa_training.Persistence.Orders.{update_status, set_status, find_by_id}
use msa_training.Operations.Routes.{Asks, callback_route_lem}
use msa_training.Operations.Same.{Same}
use msa_training.Tests.Store.{letters}
use msa_training.Tests.Shop.{shop, opening, config, after_order}

-- The routes

abbrev word : String
word = "COMPLETED"

callback_route_example :
    let (result, w') =
      run
        (callback_route shop config "secret" (some "secret") (letters 1) "COMPLETED")
        after_order in
    ((other : Option String)
      → ((k : String) → other ≡ some k → k == "secret" ≡ false)
      → run (callback_route shop config "secret" other (letters 1) "COMPLETED") after_order
        ≡ (ok (record { status = 403; body = message }), after_order))
    × (word ≢ "COMPLETED"
        → word ≢ "FAILED"
        → (result ≡ ok (record { status = 400; body = message })) × Same shop after_order w')
    × ((status : OrderStatus)
        → Asks "COMPLETED" status
        → shop.cast_id (letters 1) ≡ none
        → (result ≡ ok (record { status = 500; body = message })) × (w' ≡ after_order))
    × ((status : OrderStatus) (id : String)
        → Asks "COMPLETED" status
        → shop.cast_id (letters 1) ≡ some id
        → shop.orders.find_one id after_order.orders ≡ none
        → (result ≡ ok (record { status = 404; body = message })) × Same shop after_order w')
    × ((status : OrderStatus) (id : String) (o : OrderDoc)
        → Asks "COMPLETED" status
        → shop.cast_id (letters 1) ≡ some id
        → shop.orders.find_one id after_order.orders ≡ some o
        → is_pending_order o.status ≡ false
        → (result ≡ ok (record { status = 409; body = current_status o.status }))
          × Same shop after_order w')
    × ((status : OrderStatus) (id : String) (o : OrderDoc)
        → Asks "COMPLETED" status
        → shop.cast_id (letters 1) ≡ some id
        → shop.orders.find_one id after_order.orders ≡ some o
        → o.status ≡ OrderStatus.pending
        → (result ≡ ok (record { status = 200; body = updated status }))
          × (shop.orders.find_one id w'.orders ≡ some (record o { status = status })))
callback_route_example = callback_route_lem shop config "secret" (letters 1) "COMPLETED" after_order

-- What the shop's routes answer to a pending order, to an id that is not stored, and to a text that
-- is no id.
abbrev answer_to : String → String → Result Response
answer_to order_id payment_status =
    (run (callback_route shop config "secret" (some "secret") order_id payment_status)
      after_order).0

callback_runs :
    (answer_to (letters 1) "COMPLETED"
      ≡ ok (record { status = 200; body = updated OrderStatus.success }))
    × (answer_to (letters 9) "FAILED" ≡ ok (record { status = 404; body = message }))
    × (answer_to "no-id" "FAILED" ≡ ok (record { status = 500; body = message }))
unfolding callback_route run process_payment_callback is_allowed new_status update_status set_status
    find_by_id answer explain after_order callback_response error_response
callback_runs = (refl, refl, refl)

-- A header with a space, and a uuid in its place.
normalize_correlation_id_example :
    let w : World shop = record opening { drawn = 36 } in
    let result = normalize_correlation_id shop (some "a b") w in
    IsCorrelationId result.0
    × ((value : String) → some "a b" ≡ some value → IsCorrelationId value → result ≡ (value, w))
    × (((value : String) → some "a b" ≡ some value → ¬ IsCorrelationId value)
        → result ≡ (letters 36, record w { drawn = 37 }))
unfolding matches_pattern at_most is_allowed_char
normalize_correlation_id_example =
    normalize_correlation_id_lem shop (some "a b") (record opening { drawn = 36 })
      (matched (letters 36) refl)
