-- ===== src/Domain/Totals.antt =====
-- What the order domain's checks guarantee of an order's total, and its one transition.
use msa_training.Prelude.{ℕ, zero, suc, ◌*◌, ◌≤◌, String, ◌≡◌, refl, false, arith}
use msa_training.Prelude.Int.{ℤ, pos, negsuc, ◌*ℤ◌, leb_ℤ}
use msa_training.Errors.{ok, err, OrderStatus, not_pending, complete_payment, fail_payment}
use msa_training.Domain.Money
use msa_training.Domain.Money.{Money}
use msa_training.Domain.OrderItem
use msa_training.Domain.OrderItem.{OrderItem}
use msa_training.Domain.Order
use msa_training.Domain.Order.{Order}

made_positive :
    (a : ℤ) (m : Money) → Money.make a ≡ ok m → (leb_ℤ a (pos 0) ≡ false) × (m.amount ≡ a)
unfolding Money.make
made_positive a m e = ground arith

item_positive :
    (id : String) (u : Money) (q : ℤ) (i : OrderItem)
    → OrderItem.make id u q ≡ ok i
    → (leb_ℤ q (pos 0) ≡ false) × (i.unit_price ≡ u) × (i.quantity ≡ q)
unfolding OrderItem.make
item_positive id u q i e = ground arith

one_le_mul : (m n : ℕ) → 1 ≤ m → 1 ≤ n → 1 ≤ m * n
one_le_mul zero n h k = absurd (omega arith)
one_le_mul (suc m) n h k = omega arith

positive_product :
    (a b : ℤ) → leb_ℤ a (pos 0) ≡ false → leb_ℤ b (pos 0) ≡ false → leb_ℤ (a *ℤ b) (pos 0) ≡ false
unfolding ◌*ℤ◌
positive_product (pos m) (pos n) h k =
    let low : 1 ≤ m = ground arith in
    let high : 1 ≤ n = ground arith in
    let high_product : 1 ≤ m * n = one_le_mul m n low high in ground arith
positive_product (pos m) (negsuc n) h k = absurd (ground arith)
positive_product (negsuc m) b h k = absurd (ground arith)

-- The total of an order that passed the checks of `Money`, `OrderItem` and `Order` is its price
-- times its quantity, and computing it never throws.
pub total_amount_lem :
    (price quantity : ℤ) (item_id user_email : String) (m : Money) (i : OrderItem) (o : Order)
    → Money.make price ≡ ok m
    → OrderItem.make item_id m quantity ≡ ok i
    → Order.create user_email i ≡ ok o
    → Order.total_amount o ≡ ok (record { amount = price *ℤ quantity })
unfolding Order.total_amount Order.create OrderItem.total_price Money.multiplied_by Money.make
total_amount_lem price quantity item_id user_email m i o em ei eo =
    let (price_positive, amount) = made_positive price m em in
    let (quantity_positive, unit, many) = item_positive item_id m quantity i ei in
    let item : o.item ≡ i = ground arith in
    rw item (
      rw unit (
        rw many
          (rw amount (rw (positive_product price quantity price_positive quantity_positive) refl))))

-- An order that has left PENDING takes no transition: after `completePayment` or `failPayment` has
-- succeeded, either of them throws and names the status.
ends_once :
    (o o' : Order)
    → ((Order.complete o ≡ ok o')
        → (o.status ≡ OrderStatus.pending)
          × (o'.status ≡ OrderStatus.success)
          × (Order.complete o' ≡ err (not_pending complete_payment OrderStatus.success))
          × (Order.fail o' ≡ err (not_pending fail_payment OrderStatus.success)))
      × ((Order.fail o ≡ ok o')
          → (o.status ≡ OrderStatus.pending)
            × (o'.status ≡ OrderStatus.failed)
            × (Order.complete o' ≡ err (not_pending complete_payment OrderStatus.failed))
            × (Order.fail o' ≡ err (not_pending fail_payment OrderStatus.failed)))
unfolding Order.complete Order.fail
ends_once o o' = ground arith
