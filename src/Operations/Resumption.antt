-- ===== src/Operations/Resumption.antt =====
-- The sweep's `_reserveAndAdvance` of a saga that it has read in STARTED.
use msa_training.Prelude.{
  ℕ, ◌≡◌, ◌≢◌, refl, ap, sym, subst, ◌∙◌, Bool, true, false, some, String, [], ◌∷◌, ◌++◌, includes,
  arith,
}
use msa_training.Prelude.Int.{ℤ, ◌-ℤ◌, leb_ℤ}
use msa_training.Errors.{OrderStatus, ok}
use msa_training.Async.{run, return}
use msa_training.Async.Run.{follow, follow-ok, run->>=}
use msa_training.Saga.State.{started, inventory_reserved, failed}
use msa_training.Saga.Contracts.{inventory, payment, stock, invoice}
use msa_training.Models.{Saga, SagaStep, StepStatus, Inventory, OrderDoc}
use msa_training.Backend.{Backend, World}
use msa_training.Persistence.Sagas.{cas, compare_and_advance, new_entries}
use msa_training.Persistence.Inventory
use msa_training.Saga.Orchestrator.{
  Config, Started, update, charge_command, find_step, settle_reservation, reserve_and_advance,
  handle_timeout, handle_timeout_in,
}
use msa_training.Operations.Reading.{stock_read, amount_read}
use msa_training.Operations.Transition.{cas-won, cas-lost}
use msa_training.Operations.Reservation.{
  reserve_takes, reserve_again, reserve_refuses, reserve-elsewhere,
}
use msa_training.Operations.Refusal.{refusal_fails_order, refusal-inventory}

-- The saga is in INVENTORY_RESERVED, with the command to charge pending behind those that it had.
abbrev pub IsCharged : (b : Backend) → Saga → Saga → ℤ → World b → Type 0
IsCharged b g g0 amount w' =
    (g' : Saga) × (n : ℕ) × (b.sagas.find_one g.saga_id w'.sagas ≡ some g')
    × (g'.state ≡ inventory_reserved)
    × (g'.current_step ≡ payment)
    × (g'.outbox
        ≡ g0.outbox
          ++ new_entries b.random_uuid n
              (charge_command g.saga_id g.order_id amount g.correlation_id ∷ []))

module _ (b : Backend) (c : Config) (g : Saga) (inv_step pay_step : SagaStep)
    (item_id order_id : String) (quantity amount : ℤ) (w : World b) (here : g.state ≡ started)
    (has_stock : find_step inventory g.steps ≡ some inv_step)
    (has_payment : find_step payment g.steps ≡ some pay_step)
    (names_item : inv_step.payload ≡ stock item_id quantity)
    (names_amount : pay_step.payload ≡ invoice order_id amount) where
  -- the state after `reserve`
  abbrev reserved : World b
  reserved = (run (Inventory.reserve b item_id quantity g.saga_id) w).1

  -- the state after the transition that follows the answer true
  abbrev advanced : World b
  advanced =
      (cas b g.saga_id started inventory_reserved (some payment)
        (update inventory StepStatus.done ∷ [])
        (charge_command g.saga_id g.order_id amount g.correlation_id ∷ []) reserved).1

  resumes :
      (answer : Bool)
      → (run (Inventory.reserve b item_id quantity g.saga_id) w).0 ≡ ok answer
      → run (reserve_and_advance b c g) w ≡ run (settle_reservation b c g amount answer) reserved
  unfolding reserve_and_advance
  resumes answer e =
      stock_read inv_step item_id quantity names_item (find_step inventory g.steps) _ w has_stock
      ∙ amount_read pay_step order_id amount names_amount (find_step payment g.steps) _ w
          has_payment
      ∙ run->>= (Inventory.reserve b item_id quantity g.saga_id) _ w
      ∙ follow-ok _ answer _ e

  swept : run (handle_timeout b c g) w ≡ follow (run (reserve_and_advance b c g) w) (λ _. return tt)
  unfolding handle_timeout handle_timeout_in
  swept =
      ap (λ s. run (handle_timeout_in b c s g) w) here
      ∙ run->>= (reserve_and_advance b c g) (λ _. return tt) w

  advances :
      (run (Inventory.reserve b item_id quantity g.saga_id) w).0 ≡ ok true
      → run (handle_timeout b c g) w ≡ (ok tt, advanced)
  unfolding settle_reservation compare_and_advance run
  advances e = swept ∙ ap (λ r. follow r (λ _. return tt)) (resumes true e)

  refuses :
      (answer : Started)
      → (run (Inventory.reserve b item_id quantity g.saga_id) w).0 ≡ ok false
      → (run (settle_reservation b c g amount false) reserved).0 ≡ ok answer
      → run (handle_timeout b c g) w
        ≡ (ok tt, (run (settle_reservation b c g amount false) reserved).1)
  unfolding run
  refuses answer e settles =
      swept
      ∙ ap (λ r. follow r (λ _. return tt)) (resumes false e)
      ∙ follow-ok _ answer (λ _. return tt) settles

  module _ (g0 : Saga) (saga : b.sagas.find_one g.saga_id w.sagas ≡ some g0) where
    -- `reserve` leaves the saga alone.
    saga2 : b.sagas.find_one g.saga_id reserved.sagas ≡ some g0
    saga2 =
        let (sagas, _, _) = reserve-elsewhere b item_id quantity g.saga_id w in
        ap (b.sagas.find_one g.saga_id) sagas ∙ saga

    charged : g0.state ≡ started → IsCharged b g g0 amount advanced
    charged still =
        let (g', _, stored, state, step, _, outbox, _, _) =
          cas-won b g.saga_id started inventory_reserved (some payment)
            (update inventory StepStatus.done ∷ [])
            (charge_command g.saga_id g.order_id amount g.correlation_id ∷ []) reserved g0 saga2
            still in
        (g', reserved.drawn, stored, state, step, outbox)

    same_items : advanced.inventory ≡ reserved.inventory
    unfolding cas
    same_items = refl

    item_after :
        (d : Inventory)
        → (run (Inventory.reserve b item_id quantity g.saga_id) w).0 ≡ ok true
        → b.inventory.find_one item_id reserved.inventory ≡ some d
        → b.inventory.find_one item_id (run (handle_timeout b c g) w).1.inventory ≡ some d
    item_after d answer e =
        ap (λ r. b.inventory.find_one item_id r.1.inventory) (advances answer)
        ∙ ap (b.inventory.find_one item_id) same_items
        ∙ e

    -- A saga that a crash has left in STARTED is taken up by the sweep. If the item lists the saga,
    -- because the crash came after its stock was reserved, or if enough is left, the saga is
    -- afterwards in INVENTORY_RESERVED with a pending command to charge its amount; and the quantity
    -- is taken off the item once, which is not at all if it was taken before. With too little left for
    -- a saga that the item does not list, the saga and its pending order are FAILED, and the item
    -- stays as it was. The sweep's call throws in no case.
    pub sweep_resumes :
        (d : Inventory)
        → g0.state ≡ started
        → b.inventory.find_one item_id w.inventory ≡ some d
        → let (result, w') = run (handle_timeout b c g) w in
          (includes g.saga_id d.reserved_sagas ≡ true
            → (result ≡ ok tt)
              × IsCharged b g g0 amount w'
              × (b.inventory.find_one item_id w'.inventory ≡ some d))
          × (includes g.saga_id d.reserved_sagas ≡ false
              → leb_ℤ quantity d.available ≡ true
              → (result ≡ ok tt)
                × IsCharged b g g0 amount w'
                × (b.inventory.find_one item_id w'.inventory
                    ≡ some (record d {
                      available = d.available -ℤ quantity;
                      reserved_sagas = d.reserved_sagas ++ g.saga_id ∷ [];
                    })))
          × ((o : OrderDoc)
              → includes g.saga_id d.reserved_sagas ≡ false
              → leb_ℤ quantity d.available ≡ false
              → b.orders.find_one g.order_id w.orders ≡ some o
              → o.status ≡ OrderStatus.pending
              → (result ≡ ok tt)
                × ((g' : Saga) × (b.sagas.find_one g.saga_id w'.sagas ≡ some g')
                    × (g'.state ≡ failed))
                × (b.orders.find_one g.order_id w'.orders
                    ≡ some (record o { status = OrderStatus.failed }))
                × (b.inventory.find_one item_id w'.inventory ≡ some d))
    sweep_resumes d still item = (
      λ listed.
          let (answer, same) = reserve_again b item_id quantity g.saga_id w (d, item, listed) in
          (
            ap (λ r. r.0) (advances answer),
            subst (IsCharged b g g0 amount) (sym (ap (λ r. r.1) (advances answer))) (charged still),
            item_after d answer (same.inventory item_id ∙ item),
          ),
      λ new enough.
          let (answer, taken, _) = reserve_takes b item_id quantity g.saga_id w d item enough new in
          (
            ap (λ r. r.0) (advances answer),
            subst (IsCharged b g g0 amount) (sym (ap (λ r. r.1) (advances answer))) (charged still),
            item_after _ answer taken,
          ),
      λ o new short order pending.
          let (answer, same) = reserve_refuses b item_id quantity g.saga_id w d item short new in
          let (failure, order_failed, first, _) =
            refusal_fails_order b c g amount reserved g0 o saga2 (same.orders g.order_id ∙ order)
              pending in
          let (g', stored, state) = first still in
          let after = refuses _ answer failure in
          (
            ap (λ r. r.0) after,
            (g', ap (λ r. b.sagas.find_one g.saga_id r.1.sagas) after ∙ stored, state),
            ap (λ r. b.orders.find_one g.order_id r.1.orders) after ∙ order_failed,
            ap (λ r. b.inventory.find_one item_id r.1.inventory) after
                ∙ ap (b.inventory.find_one item_id) (refusal-inventory b c g amount reserved)
                ∙ same.inventory item_id
                ∙ item,
          ),
    )

    -- The sweep reads a saga in STARTED, and another computation, whose reservation was refused, has
    -- failed the saga before the sweep's own reservation. If the item has enough
    -- left by then and does not list the saga, the sweep takes the quantity off the item, lists the
    -- saga as one that has reserved, and leaves the saga FAILED as it was.
    pub late_reservation_strands :
        (d : Inventory)
        → g0.state ≡ failed
        → b.inventory.find_one item_id w.inventory ≡ some d
        → includes g.saga_id d.reserved_sagas ≡ false
        → leb_ℤ quantity d.available ≡ true
        → let (result, w') = run (handle_timeout b c g) w in
          (result ≡ ok tt)
          × (b.sagas.find_one g.saga_id w'.sagas ≡ some g0)
          × (b.inventory.find_one item_id w'.inventory
              ≡ some (record d {
                available = d.available -ℤ quantity;
                reserved_sagas = d.reserved_sagas ++ g.saga_id ∷ [];
              }))
    late_reservation_strands d over item new enough =
        let (answer, taken, _) = reserve_takes b item_id quantity g.saga_id w d item enough new in
        let (_, same) =
          cas-lost b g.saga_id started inventory_reserved (some payment)
            (update inventory StepStatus.done ∷ [])
            (charge_command g.saga_id g.order_id amount g.correlation_id ∷ []) reserved
            (λ x e now.
              let one : g0 ≡ x = ground (arith, saga2) in
              not_started (ap (λ y. y.state) one ∙ now)) in
        (
          ap (λ r. r.0) (advances answer),
          ap (λ r. b.sagas.find_one g.saga_id r.1.sagas) (advances answer)
              ∙ same.sagas g.saga_id
              ∙ saga2,
          item_after _ answer taken,
        )
      where
        not_started : g0.state ≢ started
        not_started now = cc
