-- ===== src/System/Orders.antt =====
-- Each operation of the order repository keeps the invariant, and makes the state grow.
use native.Mathlib.Nat.{le_refl}
use msa_training.Prelude.{
  String, ◌≡◌, refl, sym, ◌∙◌, true, false, eq_refl, Bool-cases, inl, inr, some, subst, arith,
}
use msa_training.Errors.{OrderStatus}
use msa_training.Mongo.Laws.{StoreGrows, update-StoreGrows, insert-StoreGrows}
use msa_training.Domain.Order.{Order}
use msa_training.Models.{OrderDoc, is_pending_order}
use msa_training.Backend.{Backend, World}
use msa_training.Persistence.Orders.{order_doc, insert_order, set_status}
use msa_training.System.Invariant.{
  SagaGrows-refl, OrderGrows, OrderGrows-refl, Grows, Inv, IsOrdered, IsSettled,
}
use msa_training.System.Documents.{rest-Inv}

set_status-OrderGrows :
    (status : OrderStatus) (o : OrderDoc)
    → is_pending_order o.status ≡ true
    → OrderGrows o (record o { status = status })
set_status-OrderGrows status o h = record { final = λ f. absurd (cc (sym h ∙ f)) }

module _ (b : Backend) where
  change_orders-Inv :
      (w : World b) (store : b.orders.Store)
      → StoreGrows b.orders OrderGrows w.orders store
      → Inv b w
      → Inv b (record w { orders = store }) × Grows b w (record w { orders = store })
  change_orders-Inv w store gr inv =
      rest-Inv b w (record w { orders = store }) refl (λ j g e. (g, e, SagaGrows-refl g)) gr
        (le_refl w.drawn) inv.sagas inv

  -- The order is stored afterwards.
  pub insert_order-IsOrdered :
      (o : Order) (w : World b) → IsOrdered b (insert_order b o w).1 (insert_order b o w).0
  unfolding insert_order
  insert_order-IsOrdered o w =
      let id : String = (insert_order b o w).0 in
      (order_doc o, b.orders.find_one-insert (order_doc o) w.orders id ∙ rw (eq_refl id) refl)

  -- An order that is stored has ended once a status other than PENDING was set.
  set_status-IsSettled :
      (order_id : String) (status : OrderStatus) (w : World b)
      → is_pending_order status ≡ false
      → IsOrdered b w order_id
      → IsSettled b (set_status b order_id status w).1 order_id
  unfolding set_status
  set_status-IsSettled order_id status w ends (o, e) =
      let law =
        b.orders.find_one-update order_id (λ x. is_pending_order x.status)
          (λ x. record x { status = status }) w.orders order_id in
      elim (Bool-cases (is_pending_order o.status)) [
        | inl pending ↦ (
          record o { status = status },
          law ∙ rw (eq_refl order_id) (rw e (rw pending refl)),
          ends,
        )
        | inr over ↦ (o, law ∙ rw (eq_refl order_id) (rw e (rw over refl)), over)
      ]

  -- So has one that is named by a text that is cast.
  pub set_status-Closes :
      (order_id key : String) (status : OrderStatus) (w : World b)
      → is_pending_order status ≡ false
      → b.cast_id order_id ≡ some key
      → IsOrdered b w order_id
      → IsSettled b (set_status b key status w).1 order_id
  set_status-Closes order_id key status w ends cast (o, e) =
      let itself = b.cast-stored order_id w.orders o e in
      let same : order_id ≡ key = ground (arith, cast, itself) in
      subst (λ k. IsSettled b (set_status b k status w).1 order_id) same
        (set_status-IsSettled order_id status w ends (o, e))

  pub insert_order-Inv :
      (o : Order) (w : World b)
      → Inv b w
      → Inv b (insert_order b o w).1 × Grows b w (insert_order b o w).1
  unfolding insert_order
  insert_order-Inv o w =
      change_orders-Inv w _
        (insert-StoreGrows b.orders OrderGrows OrderGrows-refl (order_doc o) w.orders)

  pub set_status-Inv :
      (order_id : String) (status : OrderStatus) (w : World b)
      → Inv b w
      → Inv b (set_status b order_id status w).1 × Grows b w (set_status b order_id status w).1
  unfolding set_status
  set_status-Inv order_id status w = change_orders-Inv w _ (
      update-StoreGrows b.orders OrderGrows OrderGrows-refl order_id _ _ w.orders
        (λ o _ h. set_status-OrderGrows status o h))
