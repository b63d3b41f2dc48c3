-- ===== src/Tests/Stock.antt =====
-- The stock of pens at the shop.
use msa_training.Prelude.{◌≡◌, refl, some}
use msa_training.Prelude.Int.{pos}
use msa_training.Async.{run}
use msa_training.Models.{Inventory}
use msa_training.Persistence.Inventory.{reserve, release}
use msa_training.Operations.Return.{release-reserve}
use msa_training.Tests.Shop.{shop, opening, stock_of_pens}

release-reserve_example :
    let reserved = (run (reserve shop "pen" (pos 2) "saga") opening).1 in
    let released = (run (release shop "pen" (pos 2) "saga") reserved).1 in
    let again = (run (release shop "pen" (pos 2) "saga") released).1 in
    (d' : Inventory) × (shop.inventory.find_one "pen" again.inventory ≡ some d')
    × (d'.available ≡ stock_of_pens.available)
release-reserve_example =
    release-reserve shop "pen" (pos 2) "saga" opening stock_of_pens refl refl refl refl
