-- ===== src/System/Documents.antt =====
-- Changes of a saga's document, and what they need to keep the invariant and make the state grow.
use native.Mathlib.Nat.{le_trans, le_refl}
use msa_training.Prelude.{ℕ, ◌≤◌, String, ◌≡◌, refl, ap, ◌∙◌, sym, subst, Bool, true, some, List}
use msa_training.Mongo.Laws.{
  StoreGrows, StoreAll, update-StoreGrows, update_one-StoreGrows, update-StoreAll,
  update_one-StoreAll,
}
use msa_training.Saga.Contracts.{inventory}
use msa_training.Models.{Saga, Inventory}
use msa_training.Backend.{Backend, World, Alert}
use msa_training.System.Moves.{History-Moves}
use msa_training.System.Commands.{Asked}
use msa_training.System.Standing.{StockOk-grows, balance-grows}
use msa_training.System.Invariant.{
  status_at, SagaGrows, SagaGrows-refl, StockGrows-refl, OrderGrows, OrderGrows-refl, Grows, Inv,
  SagaOk, Standing, Standing-grows, IsOrdered, IsOrdered-grows,
}

module _ (b : Backend) where
  pub SagaOk-grows :
      (w w' : World b) (id : String) (g : Saga) → Grows b w w' → SagaOk b w id g → SagaOk b w' id g
  SagaOk-grows w w' id g gr ok = record {
    keyed = ok.keyed;
    index = ok.index;
    drawn = le_trans ok.drawn gr.drawn;
    uuid = ok.uuid;
    item_id = ok.item_id;
    quantity = ok.quantity;
    payload = ok.payload;
    quantity_nonneg = ok.quantity_nonneg;
    ordered = IsOrdered-grows b w w' g.order_id gr ok.ordered;
    history = ok.history;
    asked = ok.asked;
    standing = Standing-grows b w w' id ok.item_id g.state g.order_id _ gr ok.standing;
  }

  -- A change of the world that leaves the inventory alone.
  module _ (w w' : World b) (same : w'.inventory ≡ w.inventory)
      (sagas : StoreGrows b.sagas SagaGrows w.sagas w'.sagas)
      (orders : StoreGrows b.orders OrderGrows w.orders w'.orders)
      (drawn : w.drawn ≤ w'.drawn) where
    stored :
        (j : String) (d : Inventory)
        → b.inventory.find_one j w.inventory ≡ some d
        → b.inventory.find_one j w'.inventory ≡ some d
    stored j d e = ap (b.inventory.find_one j) same ∙ e

    rest-Grows : Inv b w → Grows b w w'
    rest-Grows inv = record {
      sagas = sagas;
      stock = λ j d e. (d, stored j d e, StockGrows-refl d);
      orders = orders;
      drawn = drawn;
      balanced =
          λ j d e. (d, stored j d e, balance-grows b w.sagas w'.sagas sagas j d (inv.stock j d e));
    }

    pub rest-Inv : StoreAll b.sagas (SagaOk b w) w'.sagas → Inv b w → Inv b w' × Grows b w w'
    rest-Inv all inv = (
      record {
        sagas = λ j g e. SagaOk-grows w w' j g (rest-Grows inv) (all j g e);
        stock = λ j d e.
            StockOk-grows b w.sagas w'.sagas sagas j d
              (inv.stock j d (ap (b.inventory.find_one j) (sym same) ∙ e));
      },
      rest-Grows inv,
    )

  -- The clock, the broker and the operators' log are nobody's invariant.
  pub change_rest-Inv :
      (w : World b) (clock : ℕ) (broker : b.Broker) (alerts : List Alert)
      → Inv b w
      → let w' = record w { clock = clock; broker = broker; alerts = alerts } in
        Inv b w' × Grows b w w'
  change_rest-Inv w clock broker alerts inv =
      rest-Inv w (record w { clock = clock; broker = broker; alerts = alerts }) refl
        (λ j g e. (g, e, SagaGrows-refl g)) (λ j o e. (o, e, OrderGrows-refl o)) (le_refl w.drawn)
        inv.sagas inv

  -- What has to be shown of the stock, of the order and of the commands, when the saga's document changes from `g`
  -- to `g'`.
  abbrev pub Backs : World b → String → Saga → Saga → Type 0
  Backs w id g g' =
      ((ok : SagaOk b w id g)
        → Standing b w id ok.item_id g'.state g.order_id (status_at inventory g'.steps))
      × (Asked g.state g.outbox → Asked g'.state g'.outbox)

  SagaOk-change :
      (w : World b) (id : String) (g g' : Saga)
      → SagaGrows g g'
      → Backs w id g g'
      → SagaOk b w id g
      → SagaOk b w id g'
  SagaOk-change w id g g' gr backs ok = record {
    keyed = gr.same_id ∙ ok.keyed;
    index = ok.index;
    drawn = ok.drawn;
    uuid = ok.uuid;
    item_id = ok.item_id;
    quantity = ok.quantity;
    payload = gr.same_payloads inventory ∙ ok.payload;
    quantity_nonneg = ok.quantity_nonneg;
    ordered = subst (IsOrdered b w) (sym gr.same_order) ok.ordered;
    history = History-Moves g g' gr.moves ok.history;
    asked = backs.1 ok.asked;
    standing =
        subst (λ o. Standing b w id ok.item_id g'.state o (status_at inventory g'.steps))
          (sym gr.same_order) (backs.0 ok);
  }

  -- A write to the saga collection, with some uuids drawn.
  abbrev pub change_sagas : World b → b.sagas.Store → ℕ → World b
  change_sagas w store drawn = record w { sagas = store; drawn = drawn }

  pub change_sagas-Inv :
      (w : World b) (store : b.sagas.Store) (drawn : ℕ)
      → w.drawn ≤ drawn
      → StoreGrows b.sagas SagaGrows w.sagas store
      → StoreAll b.sagas (SagaOk b w) store
      → Inv b w
      → Inv b (change_sagas w store drawn) × Grows b w (change_sagas w store drawn)
  change_sagas-Inv w store drawn le gr all inv =
      rest-Inv w (change_sagas w store drawn) refl gr (λ j o e. (o, e, OrderGrows-refl o)) le all
        inv

  -- An update of one saga that fits the growth of sagas, and for which the stock is there.
  module _ (w : World b) (id : String) (p : Saga → Bool) (f : Saga → Saga) (drawn : ℕ)
      (le : w.drawn ≤ drawn) (grows : (g : Saga) → p g ≡ true → SagaGrows g (f g))
      (backs : (g : Saga) → b.sagas.find_one id w.sagas ≡ some g → p g ≡ true → Backs w id g (f g))
      (inv : Inv b w) where
    pub update-Inv :
        let w' = change_sagas w (b.sagas.find_one_and_update id p f w.sagas).1 drawn in
        Inv b w' × Grows b w w'
    update-Inv =
        change_sagas-Inv w (b.sagas.find_one_and_update id p f w.sagas).1 drawn le
          (update-StoreGrows b.sagas SagaGrows SagaGrows-refl id p f w.sagas (λ g _. grows g))
          (update-StoreAll b.sagas (SagaOk b w) id p f w.sagas
            (λ g e h. SagaOk-change w id g (f g) (grows g h) (backs g e h)) inv.sagas)
          inv

    pub update_one-Inv :
        let w' = change_sagas w (b.sagas.update_one id p f w.sagas).1 drawn in
        Inv b w' × Grows b w w'
    update_one-Inv =
        change_sagas-Inv w (b.sagas.update_one id p f w.sagas).1 drawn le
          (update_one-StoreGrows b.sagas SagaGrows SagaGrows-refl id p f w.sagas (λ g _. grows g))
          (update_one-StoreAll b.sagas (SagaOk b w) id p f w.sagas
            (λ g e h. SagaOk-change w id g (f g) (grows g h) (backs g e h)) inv.sagas)
          inv
