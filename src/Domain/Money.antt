-- ===== src/Domain/Money.antt =====
-- services/order-service/src/domain/Money.js
use msa_training.Prelude.{Bool, if◌then◌else◌, ◌&&◌}
use msa_training.Prelude.Int.{ℤ, pos, ◌+ℤ◌, ◌*ℤ◌, leb_ℤ}
use msa_training.Errors.{Result, ok, err, amount_not_positive}

pub record Money : Type 0 where
  pub amount : ℤ

-- `new Money(amount)`
unfoldable pub make : ℤ → Result Money
make amount =
    if leb_ℤ amount (pos 0) then err amount_not_positive else ok (record { amount = amount })

unfoldable pub add : Money → Money → Result Money
unfolding make
add m other = make (m.amount +ℤ other.amount)

unfoldable pub multiplied_by : Money → ℤ → Result Money
unfolding make
multiplied_by m multiplier = make (m.amount *ℤ multiplier)

unfoldable pub equals : Money → Money → Bool
equals m other = leb_ℤ m.amount other.amount && leb_ℤ other.amount m.amount
