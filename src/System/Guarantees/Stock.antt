-- ===== src/System/Guarantees/Stock.antt =====
-- What the service guarantees of the stock, however its computations come into one another.
use msa_training.Prelude.{
  String, ◌≡◌, ◌∙◌, ap, sym, true, false, some, List, includes, Bool-cases, ◌⊎◌, inl, inr, arith,
}
use msa_training.Prelude.Int.{ℤ}
use msa_training.Async.Schedule.{Pick}
use msa_training.Saga.State.{failed}
use msa_training.Saga.State.Path.{is_compensated}
use msa_training.Saga.Contracts.{inventory, stock}
use msa_training.Models.{Saga, StepStatus, Inventory, OrderDoc, is_pending_order}
use msa_training.Backend.{Backend, World}
use msa_training.Saga.Orchestrator.{Config}
use msa_training.Messaging.OutboxRelay.{RelayConfig}
use msa_training.System.Balance.{balance}
use msa_training.System.Standing.{ordered_quantity}
use msa_training.System.Listing.{Once}
use msa_training.System.Invariant.{payload_at, status_at, holds_stock, Inv}
use msa_training.System.Requests.{Request, serve, serve-Inv}
use msa_training.System.Guarantees.{sagas_have_stock}

module _ (b : Backend) (c : Config) (rc : RelayConfig) (rs : List Request) (ps : List Pick)
    (w : World b) (i : Inv b w) where
  -- From a state that meets the invariant `Inv`, whatever comes, an item that is stored is still
  -- stored, and what is available of it, together with the quantities of the sagas that are listed
  -- as having reserved it, less those of the sagas that are listed as having given it back, is what
  -- it was. A saga's quantity is the one that its first step names.
  pub stock_balances :
      (item_id : String) (d : Inventory)
      → b.inventory.find_one item_id w.inventory ≡ some d
      → (d' : Inventory) × (b.inventory.find_one item_id (serve b c rc rs ps w).inventory ≡ some d')
        × (balance (ordered_quantity b (serve b c rc rs ps w).sagas) d'
            ≡ balance (ordered_quantity b w.sagas) d)
  stock_balances item_id d e = (serve-Inv b c rc rs ps w i).1.balanced item_id d e

  -- From a state that meets the invariant `Inv`, whatever comes, a stored item lists no saga twice
  -- as one that has reserved, and none twice as one that has given back.
  pub stock_moves-Once :
      (item_id : String) (d : Inventory)
      → b.inventory.find_one item_id (serve b c rc rs ps w).inventory ≡ some d
      → Once d.reserved_sagas × Once d.released_sagas
  stock_moves-Once item_id d e =
      let ok = (serve-Inv b c rc rs ps w i).0.stock item_id d e in
      (ok.reserved_once, ok.released_once)

  -- From a state that meets the invariant `Inv`, whatever comes, the item of a saga that is then
  -- past STARTED and not in COMPENSATING, COMPENSATION_FAILED or FAILED lists the saga as one that has
  -- reserved, and not as one that has given back: a COMPLETED saga keeps what it has bought.
  pub completed_sagas_keep_stock :
      (id : String) (g : Saga)
      → b.sagas.find_one id (serve b c rc rs ps w).sagas ≡ some g
      → holds_stock g.state ≡ true
      → is_compensated g.state ≡ false
      → (item_id : String) × (quantity : ℤ) × (d : Inventory) × (payload_at inventory g.steps
          ≡ some (stock item_id quantity))
        × (b.inventory.find_one item_id (serve b c rc rs ps w).inventory ≡ some d)
        × (includes id d.reserved_sagas ≡ true)
        × (includes id d.released_sagas ≡ false)
  completed_sagas_keep_stock id g e h f =
      let (item_id, quantity, d, at, found, reserved) =
        sagas_have_stock b c rc rs ps w i id g e h in
      (
        item_id,
        quantity,
        d,
        at,
        found,
        reserved,
        elim (Bool-cases (includes id d.released_sagas)) [
          | inr kept ↦ kept
          | inl back ↦
              let (g', e', undone) =
                ((serve-Inv b c rc rs ps w i).0.stock item_id d found).released_undone id back in
              let same : g' ≡ g = ground arith in
              absurd (cc (sym f ∙ ap (λ x. is_compensated x.state) (sym same) ∙ undone))
        ],
      )

  -- From a state that meets the invariant `Inv`, whatever comes, a saga that is then FAILED has its
  -- first step marked FAILED, as one whose reservation was refused, or COMPENSATED; and then the
  -- item that this step names lists the saga as one that has given back, and its order is stored and
  -- is no longer PENDING.
  pub failed_sagas_undone :
      (id : String) (g : Saga)
      → b.sagas.find_one id (serve b c rc rs ps w).sagas ≡ some g
      → g.state ≡ failed
      → (status_at inventory g.steps ≡ some StepStatus.failed)
        ⊎ ((status_at inventory g.steps ≡ some StepStatus.compensated)
            × ((item_id : String) × (quantity : ℤ) × (d : Inventory) × (payload_at inventory g.steps
                  ≡ some (stock item_id quantity))
                × (b.inventory.find_one item_id (serve b c rc rs ps w).inventory ≡ some d)
                × (includes id d.released_sagas ≡ true))
            × ((o : OrderDoc) × (b.orders.find_one g.order_id (serve b c rc rs ps w).orders
                  ≡ some o)
                × (is_pending_order o.status ≡ false)))
  failed_sagas_undone id g e h =
      let ok = (serve-Inv b c rc rs ps w i).0.sagas id g e in
      elim (ok.ended h) [
        | inl refused ↦ inl refused
        | inr mark ↦
            let ((d, found, back), over) = ok.returned mark in
            inr (mark, (ok.item_id, ok.quantity, d, ok.payload, found, back), over)
      ]
