-- ===== src/Operations/Placement.antt =====
-- `startOrder`, by its input and the item's stock.
use msa_training.Prelude.{String, ◌≡◌, refl, ◌∙◌, true, false, some, ◌==◌, eq_refl}
use msa_training.Prelude.Int.{ℤ, pos, ◌*ℤ◌, leb_ℤ}
use msa_training.Errors.{
  OrderStatus, ok, err, amount_not_positive, missing_product_id, quantity_not_positive,
  missing_user_email,
}
use msa_training.Async.{run, ◌>>=◌}
use msa_training.Async.Run.{run-from_result, run-from_result_err}
use msa_training.Domain.Totals.{total_amount_lem}
use msa_training.Domain.Money
use msa_training.Domain.OrderItem
use msa_training.Domain.OrderItem.{OrderItem}
use msa_training.Domain.Order
use msa_training.Domain.Order.{Order}
use msa_training.Models.{Saga}
use msa_training.Backend.{Backend, World}
use msa_training.Persistence.Orders
use msa_training.Persistence.Orders.{order_doc}
use msa_training.Persistence.Sagas.{put}
use msa_training.Domain.Money.{Money}
use msa_training.Persistence.Inventory
use msa_training.Saga.Orchestrator.{
  Config, new_saga, open_saga, settle_reservation, reserve_and_advance, start_order, find_step,
}

module _ (b : Backend) (c : Config) (user_email item_id : String) (quantity price : ℤ)
    (correlation_id : String) (w : World b) where
  bad_price : leb_ℤ price (pos 0) ≡ true → Money.make price ≡ err amount_not_positive
  unfolding Money.make
  bad_price h = rw h refl

  pub good_price : leb_ℤ price (pos 0) ≡ false → Money.make price ≡ ok (record { amount = price })
  unfolding Money.make
  good_price h = rw h refl

  abbrev pub the_item : OrderItem
  the_item = record {
    product_id = item_id;
    unit_price = record { amount = price };
    quantity = quantity;
  }

  abbrev pub the_order : Order
  the_order = record { user_email = user_email; item = the_item; status = OrderStatus.pending }

  pub good_item :
      item_id == "" ≡ false
      → leb_ℤ quantity (pos 0) ≡ false
      → OrderItem.make item_id (record { amount = price }) quantity ≡ ok the_item
  unfolding OrderItem.make
  good_item h k = rw h (rw k refl)

  pub good_order : user_email == "" ≡ false → Order.create user_email the_item ≡ ok the_order
  unfolding Order.create
  good_order h = rw h refl

  -- the state with the order stored, and the saga with the state that stores it
  abbrev pub stored : String × World b
  stored = Orders.insert_order b the_order w

  abbrev pub opened : Saga × World b
  opened =
      open_saga b c stored.0 user_email item_id quantity (price *ℤ quantity) correlation_id stored.1

  pub valid_order :
      leb_ℤ price (pos 0) ≡ false
      → leb_ℤ quantity (pos 0) ≡ false
      → item_id == "" ≡ false
      → user_email == "" ≡ false
      → run (start_order b c user_email item_id quantity price correlation_id) w
        ≡ run
            (Inventory.reserve b item_id quantity opened.0.saga_id
              >>= settle_reservation b c opened.0 (price *ℤ quantity))
            opened.1
  unfolding start_order Orders.save reserve_and_advance open_saga new_saga find_step run
  valid_order h1 h2 h3 h4 =
      run-from_result _ _ _ w (good_price h1)
      ∙ run-from_result _ _ _ w (good_item h3 h2)
      ∙ run-from_result _ _ _ w (good_order h4)
      ∙ run-from_result _ _ _ stored.1 (
          total_amount_lem price quantity item_id user_email _ the_item the_order (good_price h1)
            (good_item h3 h2) (good_order h4))

  bad_item :
      item_id == "" ≡ true
      → (m : Money) → OrderItem.make item_id m quantity ≡ err missing_product_id
  unfolding OrderItem.make
  bad_item h m = rw h refl

  bad_quantity :
      item_id == "" ≡ false
      → leb_ℤ quantity (pos 0) ≡ true
      → (m : Money) → OrderItem.make item_id m quantity ≡ err quantity_not_positive
  unfolding OrderItem.make
  bad_quantity h k m = rw h (rw k refl)

  bad_user : user_email == "" ≡ true → Order.create user_email the_item ≡ err missing_user_email
  unfolding Order.create
  bad_user h = rw h refl

  -- With a price that is not positive, no item, a quantity that is not positive or no user,
  -- `startOrder` throws the error of the first of these, and leaves the whole state as it was.
  pub start_order_rejects :
      let result = run (start_order b c user_email item_id quantity price correlation_id) w in
      (leb_ℤ price (pos 0) ≡ true → result ≡ (err amount_not_positive, w))
      × (leb_ℤ price (pos 0) ≡ false → item_id == "" ≡ true → result ≡ (err missing_product_id, w))
      × (leb_ℤ price (pos 0) ≡ false
          → item_id == "" ≡ false
          → leb_ℤ quantity (pos 0) ≡ true
          → result ≡ (err quantity_not_positive, w))
      × (leb_ℤ price (pos 0) ≡ false
          → item_id == "" ≡ false
          → leb_ℤ quantity (pos 0) ≡ false
          → user_email == "" ≡ true
          → result ≡ (err missing_user_email, w))
  unfolding start_order
  start_order_rejects = (
    λ h. run-from_result_err _ _ _ w (bad_price h),
    λ h k.
        run-from_result _ _ _ w (good_price h)
        ∙ run-from_result_err _ _ _ w (bad_item k (record { amount = price })),
    λ h k l.
        run-from_result _ _ _ w (good_price h)
        ∙ run-from_result_err _ _ _ w (bad_quantity k l (record { amount = price })),
    λ h k l m.
        run-from_result _ _ _ w (good_price h)
        ∙ run-from_result _ _ _ w (good_item k l)
        ∙ run-from_result_err _ _ _ w (bad_user m),
  )

  pub opened-found :
      (b.sagas.find_one opened.0.saga_id opened.1.sagas ≡ some opened.0)
      × (b.orders.find_one stored.0 opened.1.orders ≡ some (order_doc the_order))
      × (opened.1.inventory ≡ w.inventory)
  unfolding open_saga put Orders.insert_order
  opened-found = (
    b.saga_upserts.find_one-upsert _ _ w.sagas _ ∙ rw (eq_refl opened.0.saga_id) refl,
    b.orders.find_one-insert _ w.orders _ ∙ rw (eq_refl stored.0) refl,
    refl,
  )
