-- ===== src/Tests/Domain.antt =====
-- The order domain at concrete inputs.
use msa_training.Prelude.{◌≡◌, refl}
use msa_training.Prelude.Int.{pos, ◌*ℤ◌}
use msa_training.Errors.{OrderStatus, ok}
use msa_training.Domain.Money
use msa_training.Domain.Money.{Money}
use msa_training.Domain.OrderItem
use msa_training.Domain.OrderItem.{OrderItem}
use msa_training.Domain.Order
use msa_training.Domain.Order.{Order}
use msa_training.Domain.Totals.{total_amount_lem}

-- Domain

abbrev pen_price : Money
pen_price = record { amount = pos 10 }

abbrev two_pens : OrderItem
two_pens = record { product_id = "pen"; unit_price = pen_price; quantity = pos 2 }

abbrev pen_order : Order
pen_order = record { user_email = "ann@example.com"; item = two_pens; status = OrderStatus.pending }

total_amount_example : Order.total_amount pen_order ≡ ok (record { amount = pos 10 *ℤ pos 2 })
unfolding Money.make OrderItem.make Order.create
total_amount_example =
    total_amount_lem (pos 10) (pos 2) "pen" "ann@example.com" pen_price two_pens pen_order refl refl
      refl
