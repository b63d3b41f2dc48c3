-- ===== src/Tests/Balance.antt =====
-- The guarantees of the stock at the shop, for an order that is paid and for one whose payment is
-- refused.
use msa_training.Prelude.{String, ◌≤◌, ◌≡◌, refl, true, false, some, List, [], ◌∷◌, includes, ◌⊎◌}
use msa_training.Prelude.Int.{ℤ}
use msa_training.Async.Schedule.{Pick, resume}
use msa_training.Saga.State.{started, inventory_reserved}
use msa_training.Saga.State.Path.{is_compensated}
use msa_training.Saga.Contracts.{Msg, inventory, stock}
use msa_training.Models.{StepStatus, Inventory, OrderDoc, is_pending_order}
use msa_training.Backend.{World}
use msa_training.System.Balance.{balance}
use msa_training.System.Standing.{ordered_quantity}
use msa_training.System.Listing.{Once}
use msa_training.System.Invariant.{payload_at, status_at, holds_stock}
use msa_training.System.Requests.{Request, relay_tick, serve}
use msa_training.System.Commands.{is_charge, is_earn, tally}
use msa_training.System.Guarantees.Commands.{charged_once}
use msa_training.System.Guarantees.Stock.{
  stock_balances, stock_moves-Once, completed_sagas_keep_stock, failed_sagas_undone,
}
use msa_training.Tests.Store.{letters}
use msa_training.Tests.Shop.{shop, config, relay_config, times, answered, after_order, run_shop}
use msa_training.Tests.Guarantees.{after_order-Inv, the_saga, pens_of}

-- Two consumers with the same refusal, step by step in turn.
abbrev refused : List Request
refused = answered Msg.payment_failed ∷ answered Msg.payment_failed ∷ []

abbrev in_step : List Pick
in_step = resume 0 ∷ resume 1 ∷ resume 0 ∷ resume 1 ∷ times 6 0 (times 6 1 [])

after_refused : World shop
unfolding after_order
after_refused = run_shop refused in_step after_order

stock_balances_example :
    (d' : Inventory) × (shop.inventory.find_one "pen"
        (serve shop config relay_config refused in_step after_order).inventory
      ≡ some d')
    × (balance
          (ordered_quantity shop (serve shop config relay_config refused in_step after_order).sagas)
          d'
        ≡ balance (ordered_quantity shop after_order.sagas) (pens_of after_order))
unfolding after_order run_shop
stock_balances_example =
    stock_balances shop config relay_config refused in_step after_order after_order-Inv "pen"
      (pens_of after_order) refl

stock_moves-Once_example :
    let pens = pens_of (serve shop config relay_config refused in_step after_order) in
    Once pens.reserved_sagas × Once pens.released_sagas
unfolding after_refused after_order run_shop
stock_moves-Once_example =
    stock_moves-Once shop config relay_config refused in_step after_order after_order-Inv "pen"
      (pens_of after_refused) refl

-- A tick of the relay, then the two answers that a paid order gets.
abbrev paid : List Request
paid = relay_tick ∷ answered Msg.payment_succeeded ∷ answered Msg.points_succeeded ∷ []

abbrev in_turn : List Pick
in_turn = times 6 0 (times 6 1 (times 6 2 []))

after_paid : World shop
unfolding after_order
after_paid = run_shop paid in_turn after_order

completed_sagas_keep_stock_example :
    (item_id : String) × (quantity : ℤ) × (d : Inventory) × (payload_at inventory
        (the_saga after_paid).steps
      ≡ some (stock item_id quantity))
    × (shop.inventory.find_one item_id
          (serve shop config relay_config paid in_turn after_order).inventory
        ≡ some d)
    × (includes (letters 0) d.reserved_sagas ≡ true)
    × (includes (letters 0) d.released_sagas ≡ false)
unfolding after_paid after_order run_shop holds_stock is_compensated
completed_sagas_keep_stock_example =
    completed_sagas_keep_stock shop config relay_config paid in_turn after_order after_order-Inv
      (letters 0) (the_saga after_paid) refl refl refl

failed_sagas_undone_example :
    (status_at inventory (the_saga after_refused).steps ≡ some StepStatus.failed)
    ⊎ ((status_at inventory (the_saga after_refused).steps ≡ some StepStatus.compensated)
        × ((item_id : String) × (quantity : ℤ) × (d : Inventory) × (payload_at inventory
                (the_saga after_refused).steps
              ≡ some (stock item_id quantity))
            × (shop.inventory.find_one item_id
                  (serve shop config relay_config refused in_step after_order).inventory
                ≡ some d)
            × (includes (letters 0) d.released_sagas ≡ true))
        × ((o : OrderDoc) × (shop.orders.find_one
                (letters 1)
                (serve shop config relay_config refused in_step after_order).orders
              ≡ some o)
            × (is_pending_order o.status ≡ false)))
unfolding after_refused after_order run_shop
failed_sagas_undone_example =
    failed_sagas_undone shop config relay_config refused in_step after_order after_order-Inv
      (letters 0) (the_saga after_refused) refl refl

charged_once_example :
    (tally is_charge (the_saga after_paid).outbox ≤ 1)
    × (tally is_earn (the_saga after_paid).outbox ≤ 1)
    × ((the_saga after_paid).state ≡ started
        → (tally is_charge (the_saga after_paid).outbox ≡ 0)
          × (tally is_earn (the_saga after_paid).outbox ≡ 0))
    × ((the_saga after_paid).state ≡ inventory_reserved
        → tally is_earn (the_saga after_paid).outbox ≡ 0)
unfolding after_paid after_order run_shop
charged_once_example =
    charged_once shop config relay_config paid in_turn after_order after_order-Inv (letters 0)
      (the_saga after_paid) refl
