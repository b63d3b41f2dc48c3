-- ===== src/Persistence/Orders.antt =====
-- services/order-service/src/infrastructure/persistence/MongoOrderRepository.js
pub mod Casting
use msa_training.Prelude.{String, Option, none, some}
use msa_training.Errors.{OrderStatus, cast_error}
use msa_training.Async.{Async, return, throw, call, ◌>>=◌}
use msa_training.Domain.Order.{Order}
use msa_training.Models.{OrderDoc, is_pending_order}
use msa_training.Backend.{Backend, World}

-- `new OrderModel({…})`
unfoldable pub order_doc : Order → OrderDoc
order_doc o = record {
  user_email = o.user_email;
  item_id = o.item.product_id;
  quantity = o.item.quantity;
  price = o.item.unit_price.amount;
  status = o.status;
}

module _ (b : Backend) where
  unfoldable pub insert_order : Order → World b → String × World b
  insert_order o w =
      let (id, store) = b.orders.insert (order_doc o) w.orders in (id, record w { orders = store })

  unfoldable pub save : Order → Async (World b) String
  save o = call (insert_order o)

  -- mongoose casts a filter's `_id` before it sends the query
  abbrev pub or_cast_error : Option String → Async (World b) String
  or_cast_error none = throw cast_error
  or_cast_error (some key) = return key

  abbrev pub find_order : String → World b → Option OrderDoc × World b
  find_order key w = (b.orders.find_one key w.orders, w)

  unfoldable pub find_by_id : String → Async (World b) (Option OrderDoc)
  find_by_id order_id = or_cast_error (b.cast_id order_id) >>= λ key. call (find_order key)

  -- what MongoDB does for the `findOneAndUpdate` of `updateStatus`, whose `_id` has been cast: only
  -- a pending order changes
  unfoldable pub set_status : String → OrderStatus → World b → Option OrderDoc × World b
  set_status key status w =
      let (updated, store) =
        b.orders.find_one_and_update key (λ o. is_pending_order o.status)
          (λ o. record o { status = status }) w.orders in
      (updated, record w { orders = store })

  unfoldable pub update_status : String → OrderStatus → Async (World b) (Option OrderDoc)
  update_status order_id status =
      or_cast_error (b.cast_id order_id) >>= λ key. call (set_status key status)
