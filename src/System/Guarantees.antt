-- ===== src/System/Guarantees.antt =====
-- What the service guarantees however its computations come into one another.
pub mod Stock
pub mod Commands
use msa_training.Prelude.{
  String, ◌≡◌, ◌∙◌, ap, sym, true, false, some, List, includes, Bool-cases, inl, inr, arith,
}
use msa_training.Prelude.Int.{ℤ, pos, ◌≤ℤ◌}
use msa_training.Async.Schedule.{Pick}
use msa_training.Saga.State.{completed}
use msa_training.Saga.State.Path.{is_compensated, Leads, is_final, Leads-is_final}
use msa_training.Saga.Contracts.{StepName, inventory, stock}
use msa_training.Models.{Saga, Inventory, OrderDoc, is_pending_order}
use msa_training.Backend.{Backend, World}
use msa_training.Saga.Orchestrator.{Config}
use msa_training.Messaging.OutboxRelay.{RelayConfig}
use msa_training.System.Invariant.{payload_at, holds_stock, Inv}
use msa_training.System.Moves.{Moves}
use msa_training.System.History.{Outlives, Moves-Outlives}
use msa_training.System.History.Retries.{Untried, History-RetriesLate}
use msa_training.System.Requests.{Request, serve, serve-Inv}

module _ (b : Backend) (c : Config) (rc : RelayConfig) (rs : List Request) (ps : List Pick)
    (w : World b) (i : Inv b w) where
  -- From a state that meets the invariant `Inv`, after any requests in any order of their steps, some
  -- stopped half-way, a stored saga is still
  -- stored, for the same order, with the same payloads, and in a state to which the transition
  -- table leads from its state before.
  pub sagas_follow_table :
      (id : String) (g : Saga)
      → b.sagas.find_one id w.sagas ≡ some g
      → (g' : Saga) × (b.sagas.find_one id (serve b c rc rs ps w).sagas ≡ some g')
        × (g'.order_id ≡ g.order_id)
        × ((n : StepName) → payload_at n g'.steps ≡ payload_at n g.steps)
        × Leads g.state g'.state
  sagas_follow_table id g e =
      let (g', e', r) = (serve-Inv b c rc rs ps w i).1.sagas id g e in
      (g', e', r.same_order, r.same_payloads, r.path)

  -- From a state that meets the invariant `Inv`, a saga that is COMPLETED or FAILED stays so, whatever
  -- comes.
  pub final_sagas_stay :
      (id : String) (g : Saga)
      → b.sagas.find_one id w.sagas ≡ some g
      → is_final g.state ≡ true
      → (g' : Saga) × (b.sagas.find_one id (serve b c rc rs ps w).sagas ≡ some g')
        × (g'.state ≡ g.state)
  final_sagas_stay id g e f =
      let (g', e', r) = (serve-Inv b c rc rs ps w i).1.sagas id g e in
      (g', e', Leads-is_final r.path f)

  -- From a state that meets the invariant `Inv`, no interleaving oversells an item: what is available is never negative, and stock is given back
  -- only for sagas that have reserved it.
  pub never_oversold :
      (item_id : String) (d : Inventory)
      → b.inventory.find_one item_id (serve b c rc rs ps w).inventory ≡ some d
      → (pos 0 ≤ℤ d.available)
        × ((saga_id : String)
            → includes saga_id d.released_sagas ≡ true
            → includes saga_id d.reserved_sagas ≡ true)
  never_oversold item_id d e =
      let ok = (serve-Inv b c rc rs ps w i).0.stock item_id d e in
      (ok.available_nonneg, ok.released_reserved)

  -- From a state that meets the invariant `Inv`, whatever comes, a saga that is then past STARTED and
  -- not FAILED has its stock: the item that its first step names
  -- lists it as one that has reserved.
  pub sagas_have_stock :
      (id : String) (g : Saga)
      → b.sagas.find_one id (serve b c rc rs ps w).sagas ≡ some g
      → holds_stock g.state ≡ true
      → (item_id : String) × (quantity : ℤ) × (d : Inventory) × (payload_at inventory g.steps
          ≡ some (stock item_id quantity))
        × (b.inventory.find_one item_id (serve b c rc rs ps w).inventory ≡ some d)
        × (includes id d.reserved_sagas ≡ true)
  sagas_have_stock id g e h =
      let ok = (serve-Inv b c rc rs ps w i).0.sagas id g e in
      let (d, found, reserved) = ok.reserved h in
      (ok.item_id, ok.quantity, d, ok.payload, found, reserved)

  -- From a state that meets the invariant `Inv`, an order that is no longer PENDING keeps its status,
  -- whatever comes.
  pub ended_orders_stay :
      (order_id : String) (o : OrderDoc)
      → b.orders.find_one order_id w.orders ≡ some o
      → is_pending_order o.status ≡ false
      → (o' : OrderDoc) × (b.orders.find_one order_id (serve b c rc rs ps w).orders ≡ some o')
        × (o'.status ≡ o.status)
  ended_orders_stay order_id o e f =
      let (o', e', r) = (serve-Inv b c rc rs ps w i).1.orders order_id o e in (o', e', r.final f)

  -- From a state that meets the invariant `Inv`, whatever comes, the order of a saga that is then
  -- COMPLETED is stored and is no longer PENDING.
  pub completed_sagas_settled :
      (id : String) (g : Saga)
      → b.sagas.find_one id (serve b c rc rs ps w).sagas ≡ some g
      → g.state ≡ completed
      → (o : OrderDoc) × (b.orders.find_one g.order_id (serve b c rc rs ps w).orders ≡ some o)
        × (is_pending_order o.status ≡ false)
  completed_sagas_settled id g e h = ((serve-Inv b c rc rs ps w i).0.sagas id g e).settled h

  -- From a state that meets the invariant `Inv`, whatever requests come in whatever order of their
  -- steps, a stored saga is afterwards what the abstract specification `Moves` allows: some number of
  -- transitions of the table, retries in COMPENSATING, publications of pending commands, deadlines of
  -- the current step and counts of attempts have led to it, and nothing else.
  pub sagas_evolve :
      (id : String) (g : Saga)
      → b.sagas.find_one id w.sagas ≡ some g
      → (g' : Saga) × (b.sagas.find_one id (serve b c rc rs ps w).sagas ≡ some g') × Moves g g'
  sagas_evolve id g e =
      let (g', e', r) = (serve-Inv b c rc rs ps w i).1.sagas id g e in (g', e', r.moves)

  -- From a state that meets the invariant `Inv`, no interleaving loses a command: each entry of a
  -- saga's outbox is still at its place, for the same queue and with the same message, has been tried
  -- no less often, and is SENT if it was.
  pub commands_kept :
      (id : String) (g : Saga)
      → b.sagas.find_one id w.sagas ≡ some g
      → (g' : Saga) × (b.sagas.find_one id (serve b c rc rs ps w).sagas ≡ some g')
        × Outlives g.outbox g'.outbox
  commands_kept id g e = let (g', e', m) = sagas_evolve id g e in (g', e', Moves-Outlives g g' m)

  -- From a state that meets the invariant `Inv`, whatever comes, a saga that is then stored in a state
  -- before COMPENSATING, or COMPLETED, has had no compensation retried: every step's count is zero.
  retries_in_compensation :
      (id : String) (g : Saga)
      → b.sagas.find_one id (serve b c rc rs ps w).sagas ≡ some g
      → is_compensated g.state ≡ false
      → Untried g.steps
  retries_in_compensation id g e f =
      History-RetriesLate g ((serve-Inv b c rc rs ps w i).0.sagas id g e).history f
