-- ===== src/Operations/Reservation.antt =====
-- `reserve` and `release` of the inventory, by what the item's document holds.
use msa_training.Prelude.{
  String, ◌≡◌, refl, ap, subst, sym, ◌∙◌, true, false, Option, none, some, ◌∷◌, [], ◌++◌, ◌==◌,
  includes, Option-cases, inl, inr, arith,
}
use msa_training.Prelude.Int.{ℤ, ◌+ℤ◌, ◌-ℤ◌, leb_ℤ}
use msa_training.Errors.{ok}
use msa_training.Async.{run}
use msa_training.Mongo.{meets}
use msa_training.Mongo.Branches.{update-missed, update-met}
use msa_training.Models.{Inventory}
use msa_training.Backend.{Backend, World}
use msa_training.Persistence.Inventory.{
  may_reserve, take_stock, may_release, return_stock, try_reserve, already_reserved,
  reserved_or_again, reserve, give_back, release,
}
use msa_training.System.Invariant.{HasReserved}
use msa_training.Operations.Same.{Same}

module _ (b : Backend) (item_id : String) (quantity : ℤ) (saga_id : String) (w : World b) where
  try_reserve-missed :
      meets (may_reserve quantity saga_id) (b.inventory.find_one item_id w.inventory) ≡ false
      → ((try_reserve b item_id quantity saga_id w).0 ≡ none)
        × Same b w (try_reserve b item_id quantity saga_id w).1
  unfolding try_reserve
  try_reserve-missed h =
      let (nothing, as_was) =
        update-missed b.inventory item_id (may_reserve quantity saga_id)
          (take_stock quantity saga_id) w.inventory h in
      (
        nothing,
        record {
          sagas = λ _. refl;
          orders = λ _. refl;
          inventory = as_was;
          clock = refl;
          broker = refl;
          alerts = refl;
        },
      )

  runs_hit :
      (o : Option Inventory) (v : World b) (d : Inventory)
      → o ≡ some d
      → run (reserved_or_again b item_id saga_id o) v ≡ (ok true, v)
  unfolding run
  runs_hit none v d e = absurd (cc e)
  runs_hit (some _) v d e = refl

  runs_miss :
      (o : Option Inventory) (v : World b)
      → o ≡ none
      → run (reserved_or_again b item_id saga_id o) v
        ≡ (ok (b.inventory.exists item_id (λ d. includes saga_id d.reserved_sagas) v.inventory), v)
  unfolding run already_reserved
  runs_miss none v e = refl
  runs_miss (some _) v e = absurd (cc e)

  reserve_hit :
      (d : Inventory)
      → (try_reserve b item_id quantity saga_id w).0 ≡ some d
      → run (reserve b item_id quantity saga_id) w
        ≡ (ok true, (try_reserve b item_id quantity saga_id w).1)
  unfolding reserve run
  reserve_hit d e = runs_hit _ _ d e

  reserve_miss :
      (try_reserve b item_id quantity saga_id w).0 ≡ none
      → run (reserve b item_id quantity saga_id) w ≡ (
        ok (
            b.inventory.exists item_id
              (λ d. includes saga_id d.reserved_sagas)
              (try_reserve b item_id quantity saga_id w).1.inventory),
        (try_reserve b item_id quantity saga_id w).1,
      )
  unfolding reserve run
  reserve_miss e = runs_miss _ _ e

  pub reserve-elsewhere :
      ((run (reserve b item_id quantity saga_id) w).1.sagas ≡ w.sagas)
      × ((run (reserve b item_id quantity saga_id) w).1.orders ≡ w.orders)
      × ((run (reserve b item_id quantity saga_id) w).1.drawn ≡ w.drawn)
  unfolding try_reserve
  reserve-elsewhere = elim (Option-cases (try_reserve b item_id quantity saga_id w).0) [
    | inl e ↦ (
      ap (λ r. r.1.sagas) (reserve_miss e),
      ap (λ r. r.1.orders) (reserve_miss e),
      ap (λ r. r.1.drawn) (reserve_miss e),
    )
    | inr (d, e) ↦ (
      ap (λ r. r.1.sagas) (reserve_hit d e),
      ap (λ r. r.1.orders) (reserve_hit d e),
      ap (λ r. r.1.drawn) (reserve_hit d e),
    )
  ]

  -- An item that has enough left and does not list the saga: the answer is true, the quantity is
  -- taken off and the saga listed, and no other item changes.
  pub reserve_takes :
      (d : Inventory)
      → b.inventory.find_one item_id w.inventory ≡ some d
      → leb_ℤ quantity d.available ≡ true
      → includes saga_id d.reserved_sagas ≡ false
      → ((run (reserve b item_id quantity saga_id) w).0 ≡ ok true)
        × (b.inventory.find_one item_id (run (reserve b item_id quantity saga_id) w).1.inventory
            ≡ some (record d {
              available = d.available -ℤ quantity;
              reserved_sagas = d.reserved_sagas ++ saga_id ∷ [];
            }))
        × ((j : String)
            → item_id == j ≡ false
            → b.inventory.find_one j (run (reserve b item_id quantity saga_id) w).1.inventory
              ≡ b.inventory.find_one j w.inventory)
  unfolding try_reserve may_reserve take_stock
  reserve_takes d e enough new =
      let (hit, stored, others) =
        update-met b.inventory item_id (may_reserve quantity saga_id) (take_stock quantity saga_id)
          w.inventory d e (rw enough (rw new refl)) in
      let result = reserve_hit _ hit in
      (
        ap (λ r. r.0) result,
        ap (λ r. b.inventory.find_one item_id r.1.inventory) result ∙ stored,
        λ j other. ap (λ r. b.inventory.find_one j r.1.inventory) result ∙ others j other,
      )

  -- When the item has too little left, is unknown or lists the saga already, no document changes
  -- and the answer says whether it lists the saga.
  reserve_keeps :
      meets (may_reserve quantity saga_id) (b.inventory.find_one item_id w.inventory) ≡ false
      → ((run (reserve b item_id quantity saga_id) w).0
          ≡ ok (
              meets
                (λ d. includes saga_id d.reserved_sagas)
                (b.inventory.find_one item_id w.inventory)))
        × Same b w (run (reserve b item_id quantity saga_id) w).1
  reserve_keeps h =
      let (miss, as_was) = try_reserve-missed h in
      let result = reserve_miss miss in
      (
        ap (λ r. r.0) result
            ∙ ap ok (
                b.inventory.exists-meets item_id (λ d. includes saga_id d.reserved_sagas) _
                ∙ ap (meets (λ d. includes saga_id d.reserved_sagas)) (as_was.inventory item_id)),
        subst (Same b w) (ap (λ r. r.1) (sym result)) as_was,
      )

  -- Reserving again for a saga that the item lists answers true and changes no document.
  pub reserve_again :
      HasReserved b w item_id saga_id
      → ((run (reserve b item_id quantity saga_id) w).0 ≡ ok true)
        × Same b w (run (reserve b item_id quantity saga_id) w).1
  unfolding may_reserve
  reserve_again (d, e, listed) =
      let (answer, as_was) = reserve_keeps (rw e (rw listed (ground arith))) in
      (answer ∙ rw e (ap ok listed), as_was)

  -- With too little left for a saga that the item does not list, the answer is false and no
  -- document changes.
  pub reserve_refuses :
      (d : Inventory)
      → b.inventory.find_one item_id w.inventory ≡ some d
      → leb_ℤ quantity d.available ≡ false
      → includes saga_id d.reserved_sagas ≡ false
      → ((run (reserve b item_id quantity saga_id) w).0 ≡ ok false)
        × Same b w (run (reserve b item_id quantity saga_id) w).1
  unfolding may_reserve
  reserve_refuses d e short new =
      let (answer, as_was) = reserve_keeps (rw e (rw short refl)) in
      (answer ∙ rw e (ap ok new), as_was)

  -- An item that does not list the saga as given back gets the quantity, and lists it.
  pub release_gives :
      (d : Inventory)
      → b.inventory.find_one item_id w.inventory ≡ some d
      → includes saga_id d.released_sagas ≡ false
      → (b.inventory.find_one item_id (run (release b item_id quantity saga_id) w).1.inventory
          ≡ some (record d {
            available = d.available +ℤ quantity;
            released_sagas = d.released_sagas ++ saga_id ∷ [];
          }))
        × ((j : String)
            → item_id == j ≡ false
            → b.inventory.find_one j (run (release b item_id quantity saga_id) w).1.inventory
              ≡ b.inventory.find_one j w.inventory)
  unfolding release run give_back may_release return_stock
  release_gives d e new =
      let (_, stored, others) =
        update-met b.inventory item_id (may_release saga_id) (return_stock quantity saga_id)
          w.inventory d e (rw new refl) in
      (stored, others)

  -- Giving back again for a saga that the item lists as given back changes no document.
  pub release_again :
      (d : Inventory)
      → b.inventory.find_one item_id w.inventory ≡ some d
      → includes saga_id d.released_sagas ≡ true
      → Same b w (run (release b item_id quantity saga_id) w).1
  unfolding release run give_back may_release
  release_again d e listed =
      let (_, as_was) =
        update-missed b.inventory item_id (may_release saga_id) (return_stock quantity saga_id)
          w.inventory (rw e (rw listed refl)) in
      record {
        sagas = λ _. refl;
        orders = λ _. refl;
        inventory = as_was;
        clock = refl;
        broker = refl;
        alerts = refl;
      }
