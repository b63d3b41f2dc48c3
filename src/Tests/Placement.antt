-- ===== src/Tests/Placement.antt =====
-- New orders at the shop.
use msa_training.Prelude.{◌+◌, String, ◌≡◌, refl, some, [], ◌∷◌, ◌++◌}
use msa_training.Prelude.Int.{pos, ◌*ℤ◌, ◌-ℤ◌}
use msa_training.Errors.{OrderStatus, ok}
use msa_training.Async.{run}
use msa_training.Saga.State.{inventory_reserved}
use msa_training.Saga.Contracts.{payment}
use msa_training.Models.{Saga, OrderDoc}
use msa_training.Persistence.Sagas.{new_entries}
use msa_training.Saga.Orchestrator.{charge_command, start_order}
use msa_training.Operations.Outcome.{order_placed}
use msa_training.Tests.Store.{letters}
use msa_training.Tests.Shop.{shop, opening, config, stock_of_pens}

abbrev pub placed : OrderDoc
placed = record {
  user_email = "ann@example.com";
  item_id = "pen";
  quantity = pos 2;
  price = pos 10;
  status = OrderStatus.pending;
}

-- New orders

order_placed_example :
    let (result, w') =
      run (start_order shop config "ann@example.com" "pen" (pos 2) (pos 10) "trace") opening in
    (order_id : String) × (saga : Saga) × (result
      ≡ ok (record { order_id = order_id; saga_id = letters 0; status = OrderStatus.pending }))
    × (shop.orders.find_one order_id w'.orders ≡ some placed)
    × (shop.sagas.find_one (letters 0) w'.sagas ≡ some saga)
    × (saga.state ≡ inventory_reserved)
    × (saga.current_step ≡ payment)
    × (saga.outbox
        ≡ new_entries letters
            (opening.drawn + 1)
            (charge_command (letters 0) order_id (pos 10 *ℤ pos 2) "trace" ∷ []))
    × (shop.inventory.find_one "pen" w'.inventory
        ≡ some (record stock_of_pens {
          available = pos 5 -ℤ pos 2;
          reserved_sagas = [] ++ letters 0 ∷ [];
        }))
order_placed_example =
    order_placed shop config "ann@example.com" "pen" (pos 2) (pos 10) "trace" opening stock_of_pens
      refl refl refl refl refl refl refl
