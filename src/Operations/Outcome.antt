-- ===== src/Operations/Outcome.antt =====
-- The two outcomes of `startOrder` on a valid order, by the item's stock.
use msa_training.Prelude.{
  ◌+◌, String, ◌≡◌, refl, ap, ◌∙◌, Bool, true, false, some, ◌==◌, [], ◌∷◌, ◌++◌, includes,
}
use msa_training.Prelude.Int.{ℤ, pos, ◌*ℤ◌, ◌-ℤ◌, leb_ℤ}
use msa_training.Errors.{OrderStatus, ok}
use msa_training.Async.{run}
use msa_training.Async.Run.{run->>=, follow-ok}
use msa_training.Saga.State.{started, inventory_reserved, failed}
use msa_training.Saga.Contracts.{payment, inventory}
use msa_training.Models.{Saga, Inventory, StepStatus}
use msa_training.Backend.{Backend, World}
use msa_training.Persistence.Orders.{order_doc, insert_order}
use msa_training.Persistence.Sagas.{put, new_entries, cas, compare_and_advance}
use msa_training.Persistence.Inventory
use msa_training.Saga.Orchestrator.{
  Config, update, charge_command, new_saga, open_saga, settle_reservation, start_order,
}
use msa_training.Operations.Transition.{cas-won}
use msa_training.Operations.Reservation.{reserve_takes, reserve_refuses, reserve-elsewhere}
use msa_training.Operations.Refusal.{refusal_fails_order, refusal-inventory}
use msa_training.Operations.Placement.{valid_order, opened, the_order, opened-found}

module _ (b : Backend) (c : Config) (user_email item_id : String) (quantity price : ℤ)
    (correlation_id : String) (w : World b) (d : Inventory)
    (price_positive : leb_ℤ price (pos 0) ≡ false)
    (quantity_positive : leb_ℤ quantity (pos 0) ≡ false) (item_given : item_id == "" ≡ false)
    (user_given : user_email == "" ≡ false)
    (item : b.inventory.find_one item_id w.inventory ≡ some d)
    (new : includes (b.random_uuid w.drawn) d.reserved_sagas ≡ false) where
  abbrev g : Saga
  g = (opened b c user_email item_id quantity price correlation_id w).0

  abbrev w1 : World b
  w1 = (opened b c user_email item_id quantity price correlation_id w).1

  -- the state after `reserve`
  abbrev w2 : World b
  w2 = (run (Inventory.reserve b item_id quantity g.saga_id) w1).1

  continues :
      (reserved : Bool)
      → (run (Inventory.reserve b item_id quantity g.saga_id) w1).0 ≡ ok reserved
      → run (start_order b c user_email item_id quantity price correlation_id) w
        ≡ run (settle_reservation b c g (price *ℤ quantity) reserved) w2
  continues reserved e =
      valid_order b c user_email item_id quantity price correlation_id w price_positive
        quantity_positive item_given user_given
      ∙ run->>= (Inventory.reserve b item_id quantity g.saga_id) _ w1
      ∙ follow-ok _ reserved _ e

  item1 : b.inventory.find_one item_id w1.inventory ≡ some d
  item1 =
      let (_, _, same) = opened-found b c user_email item_id quantity price correlation_id w in
      ap (b.inventory.find_one item_id) same ∙ item

  new1 : includes g.saga_id d.reserved_sagas ≡ false
  unfolding open_saga new_saga insert_order
  new1 = new

  -- the state that `settle_reservation` leaves, when the answer was true
  abbrev w3 : World b
  w3 =
      (cas b g.saga_id started inventory_reserved (some payment)
        (update inventory StepStatus.done ∷ [])
        (charge_command g.saga_id g.order_id (price *ℤ quantity) g.correlation_id ∷ []) w2).1

  settles : run (settle_reservation b c g (price *ℤ quantity) true) w2 ≡ (
    ok (record { order_id = g.order_id; saga_id = g.saga_id; status = OrderStatus.pending }),
    w3,
  )
  unfolding settle_reservation compare_and_advance run
  settles = refl

  kept : (w3.orders ≡ w2.orders) × (w3.inventory ≡ w2.inventory)
  unfolding cas
  kept = (refl, refl)

  -- What was stored before `reserve` is there after it.
  saga2 : b.sagas.find_one g.saga_id w2.sagas ≡ some g
  saga2 =
      let (saga, _, _) = opened-found b c user_email item_id quantity price correlation_id w in
      let (sagas, _, _) = reserve-elsewhere b item_id quantity g.saga_id w1 in
      ap (b.sagas.find_one g.saga_id) sagas ∙ saga

  order2 :
      b.orders.find_one g.order_id w2.orders
      ≡ some (order_doc (the_order b c user_email item_id quantity price correlation_id w))
  unfolding open_saga new_saga
  order2 =
      let (_, order, _) = opened-found b c user_email item_id quantity price correlation_id w in
      let (_, orders, _) = reserve-elsewhere b item_id quantity g.saga_id w1 in
      ap (b.orders.find_one g.order_id) orders ∙ order

  drawn2 : w2.drawn ≡ w.drawn + 1
  unfolding open_saga insert_order put
  drawn2 = let (_, _, drawn) = reserve-elsewhere b item_id quantity g.saga_id w1 in drawn

  -- An order with a positive price and quantity, of an item that has enough left and does not list
  -- the saga's id yet, is answered with PENDING. The order is stored as PENDING; its saga is stored
  -- in INVENTORY_RESERVED, with a pending command to charge the price times the quantity as its
  -- whole outbox; and the quantity is taken off the item, which lists the saga.
  pub order_placed :
      leb_ℤ quantity d.available ≡ true
      → let (result, w') =
          run (start_order b c user_email item_id quantity price correlation_id) w in
        (order_id : String) × (saga : Saga) × (result
          ≡ ok (record {
            order_id = order_id;
            saga_id = b.random_uuid w.drawn;
            status = OrderStatus.pending;
          }))
        × (b.orders.find_one order_id w'.orders
            ≡ some (record {
              user_email = user_email;
              item_id = item_id;
              quantity = quantity;
              price = price;
              status = OrderStatus.pending;
            }))
        × (b.sagas.find_one (b.random_uuid w.drawn) w'.sagas ≡ some saga)
        × (saga.state ≡ inventory_reserved)
        × (saga.current_step ≡ payment)
        × (saga.outbox
            ≡ new_entries b.random_uuid (w.drawn + 1) (
                charge_command (b.random_uuid w.drawn) order_id (price *ℤ quantity) correlation_id
                ∷ []))
        × (b.inventory.find_one item_id w'.inventory
            ≡ some (record d {
              available = d.available -ℤ quantity;
              reserved_sagas = d.reserved_sagas ++ b.random_uuid w.drawn ∷ [];
            }))
  unfolding open_saga new_saga order_doc insert_order
  order_placed enough =
      let (answer, taken, _) = reserve_takes b item_id quantity g.saga_id w1 d item1 enough new1 in
      let result = continues true answer ∙ settles in
      let (saga, _, saved, state, step, _, outbox, _, _) =
        cas-won b g.saga_id started inventory_reserved (some payment)
          (update inventory StepStatus.done ∷ [])
          (charge_command g.saga_id g.order_id (price *ℤ quantity) g.correlation_id ∷ []) w2 g saga2
          refl in
      (
        g.order_id,
        saga,
        ap (λ r. r.0) result,
        ap (λ r. b.orders.find_one g.order_id r.1.orders) result
            ∙ ap (b.orders.find_one g.order_id) kept.0
            ∙ order2,
        ap (λ r. b.sagas.find_one g.saga_id r.1.sagas) result ∙ saved,
        state,
        step,
        outbox
            ∙ ap
                (λ n.
                  new_entries b.random_uuid n
                    (charge_command g.saga_id g.order_id (price *ℤ quantity) g.correlation_id ∷ []))
                drawn2,
        ap (λ r. b.inventory.find_one item_id r.1.inventory) result
            ∙ ap (b.inventory.find_one item_id) kept.1
            ∙ taken,
      )

  -- An order with a positive price and quantity, of an item that has too little left and does not
  -- list the saga's id, is answered with FAILED: the order and its saga are stored as FAILED, and
  -- the item stays as it was.
  pub order_refused :
      leb_ℤ quantity d.available ≡ false
      → let (result, w') =
          run (start_order b c user_email item_id quantity price correlation_id) w in
        (order_id : String) × (saga : Saga) × (result
          ≡ ok (record {
            order_id = order_id;
            saga_id = b.random_uuid w.drawn;
            status = OrderStatus.failed;
          }))
        × (b.orders.find_one order_id w'.orders
            ≡ some (record {
              user_email = user_email;
              item_id = item_id;
              quantity = quantity;
              price = price;
              status = OrderStatus.failed;
            }))
        × (b.sagas.find_one (b.random_uuid w.drawn) w'.sagas ≡ some saga)
        × (saga.state ≡ failed)
        × (b.inventory.find_one item_id w'.inventory ≡ some d)
  unfolding open_saga new_saga order_doc insert_order
  order_refused short =
      let (answer, same) = reserve_refuses b item_id quantity g.saga_id w1 d item1 short new1 in
      let result = continues false answer in
      let (failure, order, first, _) =
        refusal_fails_order b c g (price *ℤ quantity) w2 g _ saga2 order2 refl in
      let (saga, saved, state) = first refl in
      (
        g.order_id,
        saga,
        ap (λ r. r.0) result ∙ failure,
        ap (λ r. b.orders.find_one g.order_id r.1.orders) result ∙ order,
        ap (λ r. b.sagas.find_one g.saga_id r.1.sagas) result ∙ saved,
        state,
        ap (λ r. b.inventory.find_one item_id r.1.inventory) result
            ∙ ap (b.inventory.find_one item_id) (refusal-inventory b c g (price *ℤ quantity) w2)
            ∙ same.inventory item_id
            ∙ item1,
      )
