-- ===== src/Persistence/Inventory.antt =====
-- services/order-service/src/infrastructure/persistence/MongoInventoryRepository.js
use msa_training.Prelude.{String, Bool, true, not, ◌&&◌, Option, none, some, ◌∷◌, []}
use msa_training.Prelude.{includes, ◌++◌}
use msa_training.Prelude.Int.{ℤ, ◌+ℤ◌, ◌-ℤ◌, leb_ℤ}
use msa_training.Async.{Async, return, call, ◌>>=◌}
use msa_training.Models.{Inventory}
use msa_training.Backend.{Backend, World}

-- The filter of `reserve`: enough is left, and this saga has taken nothing yet.
unfoldable pub may_reserve : ℤ → String → Inventory → Bool
may_reserve quantity saga_id d =
    leb_ℤ quantity d.available && not (includes saga_id d.reserved_sagas)

-- `$inc` and `$push` of `reserve`
unfoldable pub take_stock : ℤ → String → Inventory → Inventory
take_stock quantity saga_id d = record d {
  available = d.available -ℤ quantity;
  reserved_sagas = d.reserved_sagas ++ saga_id ∷ [];
}

unfoldable pub may_release : String → Inventory → Bool
may_release saga_id d = not (includes saga_id d.released_sagas)

unfoldable pub return_stock : ℤ → String → Inventory → Inventory
return_stock quantity saga_id d = record d {
  available = d.available +ℤ quantity;
  released_sagas = d.released_sagas ++ saga_id ∷ [];
}

module _ (b : Backend) where
  -- the `findOneAndUpdate` of `reserve`
  unfoldable pub try_reserve : String → ℤ → String → World b → Option Inventory × World b
  try_reserve item_id quantity saga_id w =
      let (updated, store) =
        b.inventory.find_one_and_update item_id (may_reserve quantity saga_id)
          (take_stock quantity saga_id) w.inventory in
      (updated, record w { inventory = store })

  -- the `exists` of `reserve`
  unfoldable pub already_reserved : String → String → World b → Bool × World b
  already_reserved item_id saga_id w =
      (b.inventory.exists item_id (λ d. includes saga_id d.reserved_sagas) w.inventory, w)

  abbrev pub reserved_or_again : String → String → Option Inventory → Async (World b) Bool
  reserved_or_again item_id saga_id (some _) = return true
  reserved_or_again item_id saga_id none = call (already_reserved item_id saga_id)

  -- Whether the quantity has been taken for this saga, now or before.
  unfoldable pub reserve : String → ℤ → String → Async (World b) Bool
  reserve item_id quantity saga_id = do
    updated ← call (try_reserve item_id quantity saga_id)
    reserved_or_again item_id saga_id updated

  -- the one operation of `release`
  unfoldable pub give_back : String → ℤ → String → World b → Unit {0} × World b
  give_back item_id quantity saga_id w =
      let (_, store) =
        b.inventory.find_one_and_update item_id (may_release saga_id)
          (return_stock quantity saga_id) w.inventory in
      (tt, record w { inventory = store })

  unfoldable pub release : String → ℤ → String → Async (World b) (Unit {0})
  release item_id quantity saga_id = call (give_back item_id quantity saga_id)
