-- ===== src/Domain/OrderItem.antt =====
-- services/order-service/src/domain/OrderItem.js
use msa_training.Prelude.{String, if◌then◌else◌, ◌==◌}
use msa_training.Prelude.Int.{ℤ, pos, leb_ℤ}
use msa_training.Errors.{Result, ok, err, quantity_not_positive, missing_product_id}
use msa_training.Domain.Money
use msa_training.Domain.Money.{Money}

pub record OrderItem : Type 0 where
  pub product_id : String
  pub unit_price : Money
  pub quantity : ℤ

-- `new OrderItem(productId, unitPrice, quantity)`; the falsy string is the empty one
unfoldable pub make : String → Money → ℤ → Result OrderItem
make product_id unit_price quantity =
    if product_id == ""
    then err missing_product_id
    else if leb_ℤ quantity (pos 0)
    then err quantity_not_positive
    else ok (record { product_id = product_id; unit_price = unit_price; quantity = quantity })

unfoldable pub total_price : OrderItem → Result Money
total_price i = Money.multiplied_by i.unit_price i.quantity
