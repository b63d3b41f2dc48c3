-- ===== src/Tests/Guarantees.antt =====
-- The guarantees at the shop, where an order has reserved its stock.
use msa_training.Prelude.{
  String, ◌≡◌, refl, subst, true, false, none, some, List, [], ◌∷◌, includes, arith,
}
use msa_training.Prelude.Int.{ℤ, pos, ◌≤ℤ◌}
use msa_training.Errors.{OrderStatus}
use msa_training.Async.Schedule.{Pick, resume, stop}
use msa_training.Saga.State.Path.{Leads, is_final}
use msa_training.Saga.Contracts.{StepName, Msg, inventory, stock}
use msa_training.Models.{Saga, Inventory, OrderDoc, is_pending_order}
use msa_training.Backend.{World}
use msa_training.Saga.Orchestrator.{new_saga}
use msa_training.System.Invariant.{payload_at, holds_stock, Inv}
use msa_training.System.Standing.{StockOk}
use msa_training.System.Moves.{Moves}
use msa_training.System.History.{Outlives}
use msa_training.System.Requests.{Request, wait, sweep_tick, relay_tick, serve, serve-Inv}
use msa_training.System.Guarantees.{
  sagas_follow_table, final_sagas_stay, never_oversold, sagas_have_stock, ended_orders_stay,
  sagas_evolve, commands_kept, completed_sagas_settled,
}
use msa_training.Tests.Store.{letters, lookup}
use msa_training.Tests.Shop.{
  shop, opening, config, relay_config, stock_of_pens, times, an_order, answered, after_order,
  after_refusal, run_shop,
}

pens_StockOk :
    (j : String) (d : Inventory)
    → lookup j (("pen", stock_of_pens) ∷ []) ≡ some d
    → StockOk shop [] j d
pens_StockOk j d e =
    let same : stock_of_pens ≡ d = ground arith in
    subst (StockOk shop [] j) same (record {
      available_nonneg = omega arith;
      released_reserved = λ x h. absurd (cc h);
      reserved_ordered = λ x h. absurd (cc h);
      reserved_once = tt;
      released_once = tt;
      released_undone = λ x h. absurd (cc h);
    })

opening-Inv : Inv shop opening
opening-Inv = record { sagas = λ j g e. absurd (cc e); stock = pens_StockOk }

pub after_order-Inv : Inv shop after_order
unfolding after_order run_shop
after_order-Inv =
    (serve-Inv shop config relay_config (an_order ∷ []) (times 6 0 []) opening opening-Inv).0

after_refusal-Inv : Inv shop after_refusal
unfolding after_refusal run_shop
after_refusal-Inv =
    (serve-Inv shop config relay_config
      (answered Msg.payment_failed ∷ answered Msg.payment_failed ∷ [])
      (resume 0 ∷ resume 1 ∷ resume 0 ∷ resume 1 ∷ times 6 0 (times 6 1 [])) after_order
      after_order-Inv).0

-- The documents of the order and of its saga.
abbrev pub the_saga : World shop → Saga
the_saga w = elim (lookup (letters 0) w.sagas) [
  | none ↦ new_saga "" "" "" "" (pos 0) (pos 0) "" 0
  | some g ↦ g
]

abbrev the_order : World shop → OrderDoc
the_order w = elim (lookup (letters 1) w.orders) [
  | none ↦ record {
    user_email = "";
    item_id = "";
    quantity = pos 0;
    price = pos 0;
    status = OrderStatus.pending;
  }
  | some o ↦ o
]

-- A refusal and a late answer that come together, a relay's tick that stops half-way, and a sweep.
abbrev traffic : List Request
traffic =
    answered Msg.payment_failed
    ∷ answered Msg.payment_succeeded
    ∷ relay_tick
    ∷ wait 20000
    ∷ sweep_tick 20
    ∷ []

abbrev schedule : List Pick
schedule =
    resume 0
    ∷ resume 1
    ∷ resume 2
    ∷ stop 2
    ∷ resume 1
    ∷ resume 0
    ∷ resume 3
    ∷ times 6 0 (times 6 1 (times 6 4 []))

after_traffic : World shop
unfolding after_order
after_traffic = run_shop traffic schedule after_order

sagas_follow_table_example :
    (g' : Saga) × (shop.sagas.find_one
        (letters 0)
        (serve shop config relay_config traffic schedule after_order).sagas
      ≡ some g')
    × (g'.order_id ≡ (the_saga after_order).order_id)
    × ((n : StepName) → payload_at n g'.steps ≡ payload_at n (the_saga after_order).steps)
    × Leads (the_saga after_order).state g'.state
unfolding after_order run_shop
sagas_follow_table_example =
    sagas_follow_table shop config relay_config traffic schedule after_order after_order-Inv
      (letters 0) (the_saga after_order) refl

final_sagas_stay_example :
    (g' : Saga) × (shop.sagas.find_one
        (letters 0)
        (serve shop config relay_config traffic schedule after_refusal).sagas
      ≡ some g')
    × (g'.state ≡ (the_saga after_refusal).state)
unfolding after_refusal after_order run_shop is_final
final_sagas_stay_example =
    final_sagas_stay shop config relay_config traffic schedule after_refusal after_refusal-Inv
      (letters 0) (the_saga after_refusal) refl refl

abbrev pub pens_of : World shop → Inventory
pens_of w = elim (lookup "pen" w.inventory) [ none ↦ stock_of_pens | some d ↦ d ]

never_oversold_example :
    (pos 0 ≤ℤ (pens_of (serve shop config relay_config traffic schedule after_order)).available)
    × ((saga_id : String)
        → includes saga_id
            (pens_of (serve shop config relay_config traffic schedule after_order)).released_sagas
          ≡ true
        → includes saga_id
            (pens_of (serve shop config relay_config traffic schedule after_order)).reserved_sagas
          ≡ true)
unfolding after_order run_shop
never_oversold_example =
    never_oversold shop config relay_config traffic schedule after_order after_order-Inv "pen"
      (pens_of (run_shop traffic schedule after_order)) refl

sagas_have_stock_example :
    (item_id : String) × (quantity : ℤ) × (d : Inventory) × (payload_at inventory
        (the_saga after_order).steps
      ≡ some (stock item_id quantity))
    × (shop.inventory.find_one item_id
          (serve shop config relay_config (an_order ∷ []) (times 6 0 []) opening).inventory
        ≡ some d)
    × (includes (letters 0) d.reserved_sagas ≡ true)
unfolding after_order run_shop holds_stock
sagas_have_stock_example =
    sagas_have_stock shop config relay_config (an_order ∷ []) (times 6 0 []) opening opening-Inv
      (letters 0) (the_saga after_order) refl refl

ended_orders_stay_example :
    (o' : OrderDoc) × (shop.orders.find_one
        (letters 1)
        (serve shop config relay_config traffic schedule after_refusal).orders
      ≡ some o')
    × (o'.status ≡ (the_order after_refusal).status)
unfolding after_refusal after_order run_shop
ended_orders_stay_example =
    ended_orders_stay shop config relay_config traffic schedule after_refusal after_refusal-Inv
      (letters 1) (the_order after_refusal) refl refl

sagas_evolve_example :
    (g' : Saga) × (shop.sagas.find_one
        (letters 0)
        (serve shop config relay_config traffic schedule after_order).sagas
      ≡ some g')
    × Moves (the_saga after_order) g'
unfolding after_order run_shop
sagas_evolve_example =
    sagas_evolve shop config relay_config traffic schedule after_order after_order-Inv (letters 0)
      (the_saga after_order) refl

commands_kept_example :
    (g' : Saga) × (shop.sagas.find_one
        (letters 0)
        (serve shop config relay_config traffic schedule after_order).sagas
      ≡ some g')
    × Outlives (the_saga after_order).outbox g'.outbox
unfolding after_order run_shop
commands_kept_example =
    commands_kept shop config relay_config traffic schedule after_order after_order-Inv (letters 0)
      (the_saga after_order) refl

-- A tick of the relay, then the two answers that a paid order gets.
abbrev paid : List Request
paid = relay_tick ∷ answered Msg.payment_succeeded ∷ answered Msg.points_succeeded ∷ []

abbrev in_turn : List Pick
in_turn = times 6 0 (times 6 1 (times 6 2 []))

after_paid : World shop
unfolding after_order
after_paid = run_shop paid in_turn after_order

completed_sagas_settled_example :
    (o : OrderDoc) × (shop.orders.find_one
        (letters 1)
        (serve shop config relay_config paid in_turn after_order).orders
      ≡ some o)
    × (is_pending_order o.status ≡ false)
unfolding after_paid after_order run_shop
completed_sagas_settled_example =
    completed_sagas_settled shop config relay_config paid in_turn after_order after_order-Inv
      (letters 0) (the_saga after_paid) refl refl
