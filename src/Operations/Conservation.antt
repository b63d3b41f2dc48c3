-- ===== src/Operations/Conservation.antt =====
-- What is available of an item and what sagas hold of it, taken together.
use msa_training.Prelude.{
  String, ◌≡◌, refl, ◌∙◌, some, List, [], ◌∷◌, includes, Bool-cases, inl, inr, All,
}
use msa_training.Prelude.Int.{ℤ, leb_ℤ}
use msa_training.Async.{run}
use msa_training.Models.{Inventory}
use msa_training.Backend.{Backend, World}
use msa_training.Persistence.Inventory.{release}
use msa_training.Operations.Reservation.{
  reserve_takes, reserve_again, reserve_refuses, release_gives, release_again,
}
use msa_training.System.Balance.{balance, taken-balance, given-balance}
use msa_training.Operations.Book.{Order, take, give, perform, perform_all}

-- `q` is the quantity of each saga's order.
module _ (q : String → ℤ) where
  -- An order that asks for its saga's quantity.
  abbrev pub IsHonest : Order → Type 0
  IsHonest (take id quantity) = quantity ≡ q id
  IsHonest (give id quantity) = quantity ≡ q id

  module _ (b : Backend) (item_id : String) where
    -- Its document is stored with this balance.
    abbrev Balances : World b → ℤ → Type 0
    Balances w n =
        (d : Inventory) × (b.inventory.find_one item_id w.inventory ≡ some d) × (balance q d ≡ n)

    perform-Balances :
        (o : Order) (w : World b) (d : Inventory)
        → IsHonest o
        → b.inventory.find_one item_id w.inventory ≡ some d
        → Balances (run (perform b item_id o) w).1 (balance q d)
    unfolding release run
    perform-Balances (take id quantity) w d honest found =
        elim (Bool-cases (includes id d.reserved_sagas)) [
          | inl listed ↦
              let (_, as_was) = reserve_again b item_id quantity id w (d, found, listed) in
              (d, as_was.inventory item_id ∙ found, refl)
          | inr new ↦ elim (Bool-cases (leb_ℤ quantity d.available)) [
            | inl enough ↦
                let (_, stored, _) = reserve_takes b item_id quantity id w d found enough new in
                (_, stored, taken-balance q d id quantity honest)
            | inr short ↦
                let (_, as_was) = reserve_refuses b item_id quantity id w d found short new in
                (d, as_was.inventory item_id ∙ found, refl)
          ]
        ]
    perform-Balances (give id quantity) w d honest found =
        elim (Bool-cases (includes id d.released_sagas)) [
          | inl listed ↦
              let as_was = release_again b item_id quantity id w d found listed in
              (d, as_was.inventory item_id ∙ found, refl)
          | inr new ↦
              let (stored, _) = release_gives b item_id quantity id w d found new in
              (_, stored, given-balance q d id quantity honest)
        ]

    -- However often and in whatever order stock is reserved and given back, one request after the
    -- other, if each saga always asks for the same quantity, then what is available of an item,
    -- together with what has been reserved and not been given back, stays the same.
    pub stock_conserved :
        (os : List Order) (w : World b) (d : Inventory)
        → All IsHonest os
        → b.inventory.find_one item_id w.inventory ≡ some d
        → (d' : Inventory) × (b.inventory.find_one item_id (perform_all b item_id os w).1.inventory
            ≡ some d')
          × (balance q d' ≡ balance q d)
    stock_conserved [] w d honest found = (d, found, refl)
    stock_conserved (o ∷ os) w d honest found =
        let (d', found', same) = perform-Balances o w d honest.0 found in
        let (d'', found'', same') =
          stock_conserved os (run (perform b item_id o) w).1 d' honest.1 found' in
        (d'', found'', same' ∙ same)
