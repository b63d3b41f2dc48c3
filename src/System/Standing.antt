-- ===== src/System/Standing.antt =====
-- What an item's document and the stored sagas have to do with each other: who is listed has ordered
-- the item, and who has given it back is compensated.
use msa_training.Prelude.{String, ◌≡◌, refl, ◌∙◌, sym, true, Option, none, some, includes}
use msa_training.Prelude.Int.{ℤ, pos, ◌≤ℤ◌}
use msa_training.Mongo.Laws.{StoreGrows}
use msa_training.Saga.State.Path.{is_compensated, Leads-is_compensated}
use msa_training.Saga.Contracts.{inventory, Payload, stock}
use msa_training.Models.{Saga, Inventory}
use msa_training.Backend.{Backend}
use msa_training.System.Growth.{payload_at, SagaGrows}
use msa_training.System.Listing.{Once}
use msa_training.System.Balance.{balance, balance-same}

-- The quantity that the saga's first step names.
abbrev stock_quantity : Option Payload → ℤ
stock_quantity (some (stock item_id quantity)) = quantity
stock_quantity _ = pos 0

abbrev quantity_of : Option Saga → ℤ
quantity_of none = pos 0
quantity_of (some g) = stock_quantity (payload_at inventory g.steps)

module _ (b : Backend) where
  unfoldable pub ordered_quantity : b.sagas.Store → String → ℤ
  ordered_quantity s id = quantity_of (b.sagas.find_one id s)

  -- The saga is stored, and its first step names this item and this quantity.
  abbrev pub HasOrdered : b.sagas.Store → String → ℤ → String → Type 0
  HasOrdered s item_id quantity id =
      (g : Saga) × (b.sagas.find_one id s ≡ some g)
      × (payload_at inventory g.steps ≡ some (stock item_id quantity))

  -- The saga is stored, in COMPENSATING or after it.
  abbrev pub IsUndone : b.sagas.Store → String → Type 0
  IsUndone s id = (g : Saga) × (b.sagas.find_one id s ≡ some g) × (is_compensated g.state ≡ true)

  -- An item's stored document: never oversold, given back only what was taken, taken only by
  -- sagas of this item and once by each, and given back once and only by those that are compensated.
  pub record StockOk (s : b.sagas.Store) (item_id : String) (d : Inventory) : Type 0 where
    pub available_nonneg : pos 0 ≤ℤ d.available
    pub released_reserved :
        (saga_id : String)
        → includes saga_id d.released_sagas ≡ true
        → includes saga_id d.reserved_sagas ≡ true
    pub reserved_ordered :
        (saga_id : String)
        → includes saga_id d.reserved_sagas ≡ true
        → (quantity : ℤ) × HasOrdered s item_id quantity saga_id
    pub reserved_once : Once d.reserved_sagas
    pub released_once : Once d.released_sagas
    pub released_undone :
        (saga_id : String) → includes saga_id d.released_sagas ≡ true → IsUndone s saga_id

  pub ordered_quantity_lem :
      (s : b.sagas.Store) (item_id : String) (quantity : ℤ) (id : String)
      → HasOrdered s item_id quantity id
      → ordered_quantity s id ≡ quantity
  unfolding ordered_quantity
  ordered_quantity_lem s item_id quantity id (g, e, p) = rw e (rw p refl)

  -- What others do to the sagas keeps all of this.
  module _ (s t : b.sagas.Store) (gr : StoreGrows b.sagas SagaGrows s t) where
    pub HasOrdered-grows :
        (item_id : String) (quantity : ℤ) (id : String)
        → HasOrdered s item_id quantity id
        → HasOrdered t item_id quantity id
    HasOrdered-grows item_id quantity id (g, e, p) =
        let (g', e', r) = gr id g e in (g', e', r.same_payloads inventory ∙ p)

    pub IsUndone-grows : (id : String) → IsUndone s id → IsUndone t id
    IsUndone-grows id (g, e, h) =
        let (g', e', r) = gr id g e in (g', e', Leads-is_compensated r.path h)

    pub StockOk-grows :
        (item_id : String) (d : Inventory) → StockOk s item_id d → StockOk t item_id d
    StockOk-grows item_id d ok = record {
      available_nonneg = ok.available_nonneg;
      released_reserved = ok.released_reserved;
      reserved_ordered = λ id h.
          let (quantity, o) = ok.reserved_ordered id h in
          (quantity, HasOrdered-grows item_id quantity id o);
      reserved_once = ok.reserved_once;
      released_once = ok.released_once;
      released_undone = λ id h. IsUndone-grows id (ok.released_undone id h);
    }

    pub balance-grows :
        (item_id : String) (d : Inventory)
        → StockOk s item_id d
        → balance (ordered_quantity t) d ≡ balance (ordered_quantity s) d
    balance-grows item_id d ok =
        balance-same (ordered_quantity s) (ordered_quantity t) d same
          (λ id h. same id (ok.released_reserved id h))
      where
        same :
            (id : String)
            → includes id d.reserved_sagas ≡ true
            → ordered_quantity t id ≡ ordered_quantity s id
        same id h =
            let (quantity, o) = ok.reserved_ordered id h in
            ordered_quantity_lem t item_id quantity id (HasOrdered-grows item_id quantity id o)
            ∙ sym (ordered_quantity_lem s item_id quantity id o)
