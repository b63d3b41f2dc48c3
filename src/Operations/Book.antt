-- ===== src/Operations/Book.antt =====
-- The stock of one item as a book: what is available, and for which sagas it has been reserved and
-- given back, whatever the order in which the document lists them.
use msa_training.Prelude.{
  String, ◌≡◌, refl, ap, sym, ◌∙◌, Bool, true, false, ◌||◌, some, List, [], ◌∷◌, ◌++◌, ◌==◌,
  includes, map, Bool-cases, inl, inr, if◌then◌else◌, arith,
}
use msa_training.Prelude.Int.{ℤ, ◌+ℤ◌, ◌-ℤ◌, leb_ℤ}
use msa_training.Errors.{Result, ok}
use msa_training.Async.{Async, return, run, ◌>>◌}
use msa_training.Models.{Inventory}
use msa_training.Backend.{Backend, World}
use msa_training.Persistence.Inventory.{reserve, release}
use msa_training.Operations.Reservation.{
  reserve_takes, reserve_again, reserve_refuses, release_gives, release_again,
}

pub record Book : Type 0 where
  pub available : ℤ
  pub reserved : String → Bool
  pub released : String → Bool

-- What is asked of an item: `reserve` and `release`, for a saga.
pub data Order : Type 0 where
  take give : (saga_id : String) (quantity : ℤ) → Order

abbrev pub mark : String → (String → Bool) → String → Bool
mark id f j = f j || id == j

-- One request on the book, with its answer: it is reserved once for a saga, if there is enough, and
-- given back once.
abbrev pub enter : Order → Book → Bool × Book
enter (take id quantity) k =
    if k.reserved id
    then (true, k)
    else if leb_ℤ quantity k.available
    then (true, record k { available = k.available -ℤ quantity; reserved = mark id k.reserved })
    else (false, k)
enter (give id quantity) k =
    if k.released id
    then (true, k)
    else (true, record k { available = k.available +ℤ quantity; released = mark id k.released })

abbrev pub enter_all : List Order → Book → List Bool × Book
enter_all [] k = ([], k)
enter_all (o ∷ os) k =
    let (answer, k') = enter o k in let (answers, k'') = enter_all os k' in (answer ∷ answers, k'')

-- The book that a document keeps.
abbrev pub book : Inventory → Book
book d = record {
  available = d.available;
  reserved = λ id. includes id d.reserved_sagas;
  released = λ id. includes id d.released_sagas;
}

-- The same book: the same quantity, and the same answer for every saga.
pub record Agrees (k k' : Book) : Type 0 where
  pub available : k.available ≡ k'.available
  pub reserved : (id : String) → k.reserved id ≡ k'.reserved id
  pub released : (id : String) → k.released id ≡ k'.released id

includes-mark :
    (id : String) (ids : List String) (j : String)
    → includes j (ids ++ id ∷ []) ≡ mark id (λ i. includes i ids) j
includes-mark id [] j = ground arith
includes-mark id (x ∷ ids) j = ground (arith, includes-mark id ids j)

module _ (b : Backend) (item_id : String) where
  -- the same request, of the repository
  abbrev pub perform : Order → Async (World b) Bool
  perform (take id quantity) = reserve b item_id quantity id
  perform (give id quantity) = release b item_id quantity id >> return true

  abbrev pub perform_all : List Order → World b → List (Result Bool) × World b
  perform_all [] w = ([], w)
  perform_all (o ∷ os) w =
      let (answer, w') = run (perform o) w in
      let (answers, w'') = perform_all os w' in (answer ∷ answers, w'')

  -- What a request leaves: the document of the book that it leaves, and the book's answer.
  abbrev Enters : Order → World b → Inventory → Book → Type 0
  Enters o w d k =
      ((run (perform o) w).0 ≡ ok (enter o k).0)
      × ((d' : Inventory) × (b.inventory.find_one item_id (run (perform o) w).1.inventory ≡ some d')
          × Agrees (book d') (enter o k).1)

  module _ (id : String) (quantity : ℤ) (w : World b) (d : Inventory) (k : Book)
      (found : b.inventory.find_one item_id w.inventory ≡ some d) (same : Agrees (book d) k) where
    take-again : includes id d.reserved_sagas ≡ true → Enters (take id quantity) w d k
    take-again listed =
        let (answer, as_was) = reserve_again b item_id quantity id w (d, found, listed) in
        rw (sym (same.reserved id) ∙ listed) (answer, (d, as_was.inventory item_id ∙ found, same))

    take-enough :
        includes id d.reserved_sagas ≡ false
        → leb_ℤ quantity d.available ≡ true
        → Enters (take id quantity) w d k
    take-enough new enough =
        let (answer, stored, _) = reserve_takes b item_id quantity id w d found enough new in
        rw (sym (same.reserved id) ∙ new) (
          rw (ap (leb_ℤ quantity) (sym same.available) ∙ enough) (
            answer,
            (
              _,
              stored,
              record {
                available = ap (λ a. a -ℤ quantity) same.available;
                reserved = λ j.
                    includes-mark id d.reserved_sagas j ∙ ap (λ x. x || id == j) (same.reserved j);
                released = same.released;
              },
            ),
          ))

    take-short :
        includes id d.reserved_sagas ≡ false
        → leb_ℤ quantity d.available ≡ false
        → Enters (take id quantity) w d k
    take-short new short =
        let (answer, as_was) = reserve_refuses b item_id quantity id w d found short new in
        rw (sym (same.reserved id) ∙ new) (
          rw (ap (leb_ℤ quantity) (sym same.available) ∙ short)
            (answer, (d, as_was.inventory item_id ∙ found, same)))

    give-again : includes id d.released_sagas ≡ true → Enters (give id quantity) w d k
    unfolding release run
    give-again listed =
        let as_was = release_again b item_id quantity id w d found listed in
        rw (sym (same.released id) ∙ listed) (refl, (d, as_was.inventory item_id ∙ found, same))

    give-new : includes id d.released_sagas ≡ false → Enters (give id quantity) w d k
    unfolding release run
    give-new new =
        let (stored, _) = release_gives b item_id quantity id w d found new in
        rw (sym (same.released id) ∙ new) (
          refl,
          (
            _,
            stored,
            record {
              available = ap (λ a. a +ℤ quantity) same.available;
              reserved = same.reserved;
              released = λ j.
                  includes-mark id d.released_sagas j ∙ ap (λ x. x || id == j) (same.released j);
            },
          ),
        )

  perform-Enters :
      (o : Order) (w : World b) (d : Inventory) (k : Book)
      → b.inventory.find_one item_id w.inventory ≡ some d
      → Agrees (book d) k
      → Enters o w d k
  perform-Enters (take id quantity) w d k found same =
      elim (Bool-cases (includes id d.reserved_sagas)) [
        | inl listed ↦ take-again id quantity w d k found same listed
        | inr new ↦ elim (Bool-cases (leb_ℤ quantity d.available)) [
          | inl enough ↦ take-enough id quantity w d k found same new enough
          | inr short ↦ take-short id quantity w d k found same new short
        ]
      ]
  perform-Enters (give id quantity) w d k found same =
      elim (Bool-cases (includes id d.released_sagas)) [
        | inl listed ↦ give-again id quantity w d k found same listed
        | inr new ↦ give-new id quantity w d k found same new
      ]

  -- Whatever is reserved and given back, for whichever sagas and in whatever order, one request after
  -- the other, a stored item answers as the book of its document does, and its document keeps the
  -- book that these requests make.
  pub perform_refines :
      (os : List Order) (w : World b) (d : Inventory) (k : Book)
      → b.inventory.find_one item_id w.inventory ≡ some d
      → Agrees (book d) k
      → ((perform_all os w).0 ≡ map ok (enter_all os k).0)
        × ((d' : Inventory) × (b.inventory.find_one item_id (perform_all os w).1.inventory
              ≡ some d')
            × Agrees (book d') (enter_all os k).1)
  perform_refines [] w d k found same = (refl, (d, found, same))
  perform_refines (o ∷ os) w d k found same =
      let (answer, (d', found', same')) = perform-Enters o w d k found same in
      let (answers, rest) = perform_refines os _ d' _ found' same' in
      (rw (answer, answers) refl, rest)
