-- ===== src/Operations/Return.antt =====
-- A reservation that is given back.
use msa_training.Prelude.{String, ◌≡◌, ◌∙◌, true, false, some, includes}
use msa_training.Prelude.Int.{ℤ, leb_ℤ, sub_add_cancel}
use msa_training.Async.{run}
use msa_training.Models.{Inventory}
use msa_training.Backend.{Backend, World}
use msa_training.Persistence.Inventory.{reserve, release}
use msa_training.System.Listing.{includes-append_last}
use msa_training.Operations.Reservation.{reserve_takes, release_gives, release_again}

module _ (b : Backend) (item_id : String) (quantity : ℤ) (saga_id : String) (w : World b) where
  -- A saga's reservation that is given back leaves the item with what it had: after `reserve` for
  -- a saga that the item does not list, of no more than is left, `release` twice puts the available
  -- quantity back once.
  pub release-reserve :
      (d : Inventory)
      → b.inventory.find_one item_id w.inventory ≡ some d
      → leb_ℤ quantity d.available ≡ true
      → includes saga_id d.reserved_sagas ≡ false
      → includes saga_id d.released_sagas ≡ false
      → let reserved = (run (reserve b item_id quantity saga_id) w).1 in
        let released = (run (release b item_id quantity saga_id) reserved).1 in
        let again = (run (release b item_id quantity saga_id) released).1 in
        (d' : Inventory) × (b.inventory.find_one item_id again.inventory ≡ some d')
        × (d'.available ≡ d.available)
  release-reserve d e enough new kept =
      let (_, taken, _) = reserve_takes b item_id quantity saga_id w d e enough new in
      let reserved = (run (reserve b item_id quantity saga_id) w).1 in
      let (given, _) = release_gives b item_id quantity saga_id reserved _ taken kept in
      let released = (run (release b item_id quantity saga_id) reserved).1 in
      let same =
        release_again b item_id quantity saga_id released _ given
          (includes-append_last saga_id d.released_sagas) in
      (_, same.inventory item_id ∙ given, sub_add_cancel d.available quantity)
