-- ===== src/Tests/Routes.antt =====
-- The order route at the shop, with the orchestrator and with the queue.
use msa_training.Prelude.{String, ◌≡◌, refl, true, false, Option, none, some, includes, ◌⊎◌, ◌==◌}
use msa_training.Prelude.Int.{pos, leb_ℤ}
use msa_training.Errors.{Error, Result, OrderStatus, ok, err, driver_error}
use msa_training.Async.{run}
use msa_training.Models.{Inventory}
use msa_training.Backend.{World}
use msa_training.Application.OrderService.{OrderMessage}
use msa_training.Utils.CorrelationId.{normalize_correlation_id}
use msa_training.Interfaces.OrderRoutes.{
  Response, orchestrated, order_queue, message, placed, order_route,
}
use msa_training.Operations.Ordering.{IsInvalid, IsTaken, order_route_lem}
use msa_training.Operations.OrderQueue.{saved, sent, queue_route_lem}
use msa_training.Tests.Store.{letters}
use msa_training.Tests.Shop.{shop, opening, config}

abbrev asked : Result Response × World shop
asked =
    run (order_route shop config orchestrated (some "ann@example.com") none "pen" (pos 2) (pos 10))
      opening

order_route_example :
    ((user : Option String)
      → (user ≡ none) ⊎ (user ≡ some "")
      → run (order_route shop config orchestrated user none "pen" (pos 2) (pos 10)) opening
        ≡ (ok (record { status = 401; body = message }), opening))
    × (IsInvalid shop config none "ann@example.com" "pen" (pos 2) (pos 10)
        → asked ≡ (
          ok (record { status = 500; body = message }),
          (normalize_correlation_id shop none opening).1,
        ))
    × ((d : Inventory)
        → leb_ℤ (pos 10) (pos 0) ≡ false
        → leb_ℤ (pos 2) (pos 0) ≡ false
        → "pen" == "" ≡ false
        → shop.inventory.find_one "pen" opening.inventory ≡ some d
        → includes (letters (normalize_correlation_id shop none opening).1.drawn) d.reserved_sagas
          ≡ false
        → (leb_ℤ (pos 2) d.available ≡ true
            → IsTaken shop config none "ann@example.com" "pen"
                (pos 2)
                (pos 10)
                opening
                refl
                OrderStatus.pending)
          × (leb_ℤ (pos 2) d.available ≡ false
              → IsTaken shop config none "ann@example.com" "pen"
                  (pos 2)
                  (pos 10)
                  opening
                  refl
                  OrderStatus.failed))
order_route_example =
    order_route_lem shop config none "ann@example.com" "pen" (pos 2) (pos 10) opening refl

-- A queue that takes nothing.
abbrev down : OrderMessage → World shop → Result (Unit {0}) × World shop
down m w = (err driver_error, w)

abbrev posted : Result Response × World shop
posted =
    run
      (order_route shop config (order_queue down) (some "ann@example.com") none "pen" (pos 2)
        (pos 10))
      opening

abbrev the_sent : Result (Unit {0}) × World shop
the_sent =
    sent shop config down (λ _ _. refl) none "ann@example.com" "pen" (pos 2) (pos 10) opening refl
      refl refl refl

abbrev the_id : String
the_id =
    (saved shop config down (λ _ _. refl) none "ann@example.com" "pen" (pos 2) (pos 10) opening refl
      refl refl refl).0

queue_route_example :
    (the_sent.0 ≡ ok tt
      → posted.0 ≡ ok (record { status = 202; body = placed the_id OrderStatus.pending }))
    × ((e : Error) → the_sent.0 ≡ err e → posted.0 ≡ ok (record { status = 500; body = message }))
    × (shop.orders.find_one the_id posted.1.orders
        ≡ some (record {
          user_email = "ann@example.com";
          item_id = "pen";
          quantity = pos 2;
          price = pos 10;
          status = OrderStatus.pending;
        }))
queue_route_example =
    queue_route_lem shop config down (λ _ _. refl) none "ann@example.com" "pen" (pos 2) (pos 10)
      opening refl refl refl refl
