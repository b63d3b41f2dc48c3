-- ===== src/Mongo.antt =====
-- MongoDB and its mongoose models, which the program calls and does not implement: a collection is
-- a parameter of the model, with what the driver documents of each operation as a law. Every
-- operation is atomic on one document. The program's filters all fix a unique key (`sagaId`,
-- `itemId`, `_id`); what a filter asks of the other fields is a Boolean test, and an update document
-- (`$set`, `$inc`, `$push`, `arrayFilters`) is the function that it denotes on the document.
pub mod Branches
pub mod Laws
use msa_training.Prelude.{
  ℕ, ◌≤◌, String, ◌≡◌, ◌≢◌, Bool, true, false, Option, none, some, List, ◌==◌, if◌then◌else◌,
}
use msa_training.Prelude.{length, All}

-- The document that an update finds under its key and changes, if it meets the filter.
abbrev pub selected {ℓ} : {D : Type ℓ} → (D → Bool) → (D → D) → Option D → Option D
selected p f none = none
selected p f (some d) = if p d then some (f d) else none

-- What stands under the key afterwards.
abbrev pub amended {ℓ} : {D : Type ℓ} → (D → Bool) → (D → D) → Option D → Option D
amended p f none = none
amended p f (some d) = some (if p d then f d else d)

-- Whether a document stands under the key and meets the filter.
abbrev pub meets {ℓ} : {D : Type ℓ} → (D → Bool) → Option D → Bool
meets p none = false
meets p (some d) = p d

pub record Collection (D : Type 0) : Type 1 where
  pub Store : Type 0
  pub find_one : String → Store → Option D
  -- `new Model(doc).save()`, which picks the `_id`
  pub insert : D → Store → String × Store
  -- `findOneAndUpdate` that returns the document as it is afterwards
  pub find_one_and_update : String → (D → Bool) → (D → D) → Store → Option D × Store
  -- `updateOne`, with `modifiedCount` of its result
  pub update_one : String → (D → Bool) → (D → D) → Store → ℕ × Store
  pub exists : String → (D → Bool) → Store → Bool
  -- `find(filter).limit(n)`, each document with its key
  pub find : (D → Bool) → ℕ → Store → List (String × D)
  -- an `_id` is new
  pub insert_fresh : (d : D) (s : Store) → find_one (insert d s).0 s ≡ none
  pub find_one-insert :
      (d : D) (s : Store) (j : String)
      → find_one j (insert d s).1 ≡ (if (insert d s).0 == j then some d else find_one j s)
  pub found-update :
      (k : String) (p : D → Bool) (f : D → D) (s : Store)
      → (find_one_and_update k p f s).0 ≡ selected p f (find_one k s)
  pub find_one-update :
      (k : String) (p : D → Bool) (f : D → D) (s : Store) (j : String)
      → find_one j (find_one_and_update k p f s).1
        ≡ (if k == j then amended p f (find_one j s) else find_one j s)
  pub find_one-update_one :
      (k : String) (p : D → Bool) (f : D → D) (s : Store) (j : String)
      → find_one j (update_one k p f s).1
        ≡ (if k == j then amended p f (find_one j s) else find_one j s)
  -- nothing is counted unless a document meets the filter, and one that changes is counted
  pub unmodified :
      (k : String) (p : D → Bool) (f : D → D) (s : Store)
      → meets p (find_one k s) ≡ false
      → (update_one k p f s).0 ≡ 0
  pub modified :
      (k : String) (p : D → Bool) (f : D → D) (s : Store) (d : D)
      → find_one k s ≡ some d
      → p d ≡ true
      → f d ≢ d
      → (update_one k p f s).0 ≡ 1
  pub exists-meets : (k : String) (p : D → Bool) (s : Store) → exists k p s ≡ meets p (find_one k s)
  -- a query returns documents that are stored and meet the filter, and no more than the limit
  pub find-sound :
      (p : D → Bool) (n : ℕ) (s : Store)
      → All (λ e. (find_one e.0 s ≡ some e.1) × (p e.1 ≡ true)) (find p n s)
  pub find-limit : (p : D → Bool) (n : ℕ) (s : Store) → length (find p n s) ≤ n

-- A collection whose documents the program stores under a key of its own choice.
pub record Upserts {D : Type 0} (c : Collection D) : Type 0 where
  -- `updateOne(key, { $set: doc }, { upsert: true })` with every field given
  pub upsert : String → D → c.Store → c.Store
  pub find_one-upsert :
      (k : String) (d : D) (s : c.Store) (j : String)
      → c.find_one j (upsert k d s) ≡ (if k == j then some d else c.find_one j s)
