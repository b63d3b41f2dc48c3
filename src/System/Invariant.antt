-- ===== src/System/Invariant.antt =====
-- What holds of the shared state between any two steps, and how it grows.
use native.Mathlib.Nat.{le_refl, le_trans}
use msa_training.Prelude.{
  ℕ, ◌≤◌, ◌<◌, String, ◌≡◌, refl, ap, ◌∙◌, true, false, Option, some, includes, ◌⊎◌,
}
use msa_training.Prelude.Int.{ℤ, pos, ◌≤ℤ◌}
use msa_training.Mongo.Laws.{StoreGrows, StoreAll}
use msa_training.Saga.State.{SagaState, completed, failed}
use msa_training.Saga.Contracts.{inventory, stock}
use msa_training.Models.{Saga, Inventory, StepStatus, OrderDoc, is_pending_order}
use msa_training.Backend.{Backend, World}
use msa_training.System.Moves.{History}
use msa_training.System.Commands.{Asked}
use msa_training.System.Balance.{balance}
use msa_training.System.Standing.{ordered_quantity, StockOk}
unfoldable pub use msa_training.System.Growth.{payload_at, status_at, holds_stock}
pub use msa_training.System.Growth.{
  SagaGrows, StockGrows, OrderGrows, SagaGrows-refl, SagaGrows-trans, StockGrows-refl,
  OrderGrows-refl,
}

module _ (b : Backend) where
  pub record Grows (w w' : World b) : Type 0 where
    pub sagas : StoreGrows b.sagas SagaGrows w.sagas w'.sagas
    pub stock : StoreGrows b.inventory StockGrows w.inventory w'.inventory
    pub orders : StoreGrows b.orders OrderGrows w.orders w'.orders
    pub drawn : w.drawn ≤ w'.drawn
    pub balanced :
        StoreGrows b.inventory
          (λ d d'.
            balance (ordered_quantity b w'.sagas) d' ≡ balance (ordered_quantity b w.sagas) d)
          w.inventory
          w'.inventory

  -- The item's document lists the saga as one that has reserved.
  abbrev pub HasReserved : World b → String → String → Type 0
  HasReserved w item_id saga_id =
      (d : Inventory) × (b.inventory.find_one item_id w.inventory ≡ some d)
      × (includes saga_id d.reserved_sagas ≡ true)

  -- The order is stored; and it has ended.
  abbrev pub IsOrdered : World b → String → Type 0
  IsOrdered w order_id = (o : OrderDoc) × (b.orders.find_one order_id w.orders ≡ some o)

  abbrev pub IsSettled : World b → String → Type 0
  IsSettled w order_id =
      (o : OrderDoc) × (b.orders.find_one order_id w.orders ≡ some o)
      × (is_pending_order o.status ≡ false)

  -- The item's document lists the saga as one that has given back.
  abbrev pub HasReleased : World b → String → String → Type 0
  HasReleased w item_id saga_id =
      (d : Inventory) × (b.inventory.find_one item_id w.inventory ≡ some d)
      × (includes saga_id d.released_sagas ≡ true)

  -- What the state of a saga, and the status of its first step, say of its stock and of its order.
  pub record Standing (w : World b) (id item_id : String) (state : SagaState) (order_id : String)
      (mark : Option StepStatus) : Type 0 where
    pub reserved : holds_stock state ≡ true → HasReserved w item_id id
    pub settled : state ≡ completed → IsSettled w order_id
    pub returned :
        mark ≡ some StepStatus.compensated → HasReleased w item_id id × IsSettled w order_id
    pub ended :
        state ≡ failed → (mark ≡ some StepStatus.failed) ⊎ (mark ≡ some StepStatus.compensated)

  -- A saga's stored document: its key, the uuid that it was drawn as, its stock, its
  -- order, and how it came about.
  pub record SagaOk (w : World b) (id : String) (g : Saga) : Type 0 where
    pub keyed : g.saga_id ≡ id
    pub index : ℕ
    pub drawn : index < w.drawn
    pub uuid : b.random_uuid index ≡ id
    pub item_id : String
    pub quantity : ℤ
    pub payload : payload_at inventory g.steps ≡ some (stock item_id quantity)
    pub quantity_nonneg : pos 0 ≤ℤ quantity
    pub ordered : IsOrdered w g.order_id
    pub history : History g
    pub asked : Asked g.state g.outbox
    pub standing : Standing w id item_id g.state g.order_id (status_at inventory g.steps)
    pub open standing use *

  pub record Inv (w : World b) : Type 0 where
    pub sagas : StoreAll b.sagas (SagaOk w) w.sagas
    pub stock : StoreAll b.inventory (StockOk b w.sagas) w.inventory

  pub Grows-refl : (w : World b) → Grows w w
  Grows-refl w = record {
    sagas = λ j d e. (d, e, SagaGrows-refl d);
    stock = λ j d e. (d, e, StockGrows-refl d);
    orders = λ j d e. (d, e, OrderGrows-refl d);
    drawn = le_refl w.drawn;
    balanced = λ j d e. (d, e, refl);
  }

  pub Grows-trans : (u v w : World b) → Grows u v → Grows v w → Grows u w
  Grows-trans u v w p q = record {
    sagas = λ j d e.
        let (d', e', r) = p.sagas j d e in
        let (d'', e'', r') = q.sagas j d' e' in (d'', e'', SagaGrows-trans d d' d'' r r');
    stock = λ j d e.
        let (d', e', r) = p.stock j d e in
        let (d'', e'', r') = q.stock j d' e' in
        (
          d'',
          e'',
          record {
            reserved = λ id h. r'.reserved id (r.reserved id h);
            released = λ id h. r'.released id (r.released id h);
          },
        );
    orders = λ j d e.
        let (d', e', r) = p.orders j d e in
        let (d'', e'', r') = q.orders j d' e' in
        (d'', e'', record { final = λ h. let same = r.final h in r'.final (rw same h) ∙ same });
    drawn = le_trans p.drawn q.drawn;
    balanced = λ j d e.
        let (d', e', r) = p.balanced j d e in
        let (d'', e'', r') = q.balanced j d' e' in (d'', e'', r' ∙ r);
  }

  -- What others do keeps a reservation.
  pub HasReserved-grows :
      (w w' : World b) (item_id saga_id : String)
      → Grows w w'
      → HasReserved w item_id saga_id
      → HasReserved w' item_id saga_id
  HasReserved-grows w w' item_id saga_id g (d, e, h) =
      let (d', e', r) = g.stock item_id d e in (d', e', r.reserved saga_id h)

  pub IsOrdered-grows :
      (w w' : World b) (order_id : String)
      → Grows w w'
      → IsOrdered w order_id
      → IsOrdered w' order_id
  IsOrdered-grows w w' order_id g (o, e) = let (o', e', _) = g.orders order_id o e in (o', e')

  pub IsSettled-grows :
      (w w' : World b) (order_id : String)
      → Grows w w'
      → IsSettled w order_id
      → IsSettled w' order_id
  IsSettled-grows w w' order_id g (o, e, h) =
      let (o', e', r) = g.orders order_id o e in
      (o', e', ap (λ s. is_pending_order s) (r.final h) ∙ h)

  pub HasReleased-grows :
      (w w' : World b) (item_id saga_id : String)
      → Grows w w'
      → HasReleased w item_id saga_id
      → HasReleased w' item_id saga_id
  HasReleased-grows w w' item_id saga_id g (d, e, h) =
      let (d', e', r) = g.stock item_id d e in (d', e', r.released saga_id h)

  pub Standing-grows :
      (w w' : World b) (id item_id : String) (state : SagaState) (order_id : String)
      (mark : Option StepStatus)
      → Grows w w'
      → Standing w id item_id state order_id mark
      → Standing w' id item_id state order_id mark
  Standing-grows w w' id item_id state order_id mark g s = record {
    reserved = λ h. HasReserved-grows w w' item_id id g (s.reserved h);
    settled = λ h. IsSettled-grows w w' order_id g (s.settled h);
    returned = λ h.
        let (back, over) = s.returned h in
        (HasReleased-grows w w' item_id id g back, IsSettled-grows w w' order_id g over);
    ended = s.ended;
  }
