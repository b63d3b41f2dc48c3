-- ===== src/System/Entries.antt =====
-- The entry points of the saga, begun with nothing known: an order, a reply, a sweep.
use native.Mathlib.Nat.{le_refl}
use msa_training.Prelude.{
  ℕ, ◌+◌, String, ◌≡◌, refl, ◌∙◌, true, Option, none, some, List, [], ◌∷◌, All, arith, inl, inr,
  Option-cases, eq_refl,
}
use msa_training.Prelude.Int.{ℤ, pos, ◌≤ℤ◌}
use msa_training.Errors.{Result, ok}
use msa_training.Async.Logic.{
  Triple-return, Triple-await, Triple-bind, Triple-mono, Triple-frame, Triple-throws, Triple-catch,
  from_result-Triple,
}
use msa_training.Mongo.Laws.{upsert-StoreGrows, upsert-StoreAll}
use msa_training.Domain.OrderItem
use msa_training.Domain.OrderItem.{OrderItem}
use msa_training.Domain.Money
use msa_training.Domain.Money.{Money}
use msa_training.Domain.Order
use msa_training.Saga.Contracts.{Reply}
use msa_training.Models.{Saga}
use msa_training.Backend.{Backend, World}
use msa_training.Persistence.Sagas.{put, find_by_saga_id, find_timed_out, is_timed_out}
use msa_training.Persistence.Orders.{save}
use msa_training.Saga.Orchestrator.{
  Config, new_saga, open_saga, start_order, handle_found, handle_reply,
}
use msa_training.Messaging.TimeoutSweep.{log_failure, sweep_one, sweep_all, sweep}
use msa_training.Messaging.ReplyConsumer.{on_message}
use msa_training.System.Commands.{tally}
use msa_training.System.Moves.{born, still}
use msa_training.System.Invariant.{
  payload_at, status_at, holds_stock, SagaGrows, SagaGrows-refl, Grows, Grows-refl, Grows-trans,
  Inv, SagaOk,
}
use msa_training.System.Documents.{change_sagas-Inv, change_rest-Inv}
use msa_training.System.Invariant.{IsOrdered, IsOrdered-grows}
use msa_training.System.Orders.{insert_order-IsOrdered, insert_order-Inv}
use msa_training.System.Snapshot.{Seen, Seen-grows, found-Seen}
use msa_training.System.Rules.{Keeps, Safe}
use msa_training.System.Placing.{reserve_and_advance-Safe}
use msa_training.System.Handlers.{dispatch_reply-Safe, handle_timeout-Safe}
use msa_training.System.Workers.{Sound, Sound-step}

-- An item that was made has a positive quantity.
make-pos :
    (product_id : String) (unit_price : Money) (quantity : ℤ) (i : OrderItem)
    → OrderItem.make product_id unit_price quantity ≡ ok i
    → pos 0 ≤ℤ quantity
unfolding OrderItem.make
make-pos product_id unit_price quantity i e = ground arith

module _ (b : Backend) (c : Config) where
  -- A uuid that has not been drawn is nobody's id.
  undrawn : (w : World b) → Inv b w → b.sagas.find_one (b.random_uuid w.drawn) w.sagas ≡ none
  undrawn w inv = elim (Option-cases (b.sagas.find_one (b.random_uuid w.drawn) w.sagas)) [
    | inl missing ↦ missing
    | inr (g, e) ↦
        let known = inv.sagas (b.random_uuid w.drawn) g e in
        let same = b.uuids_differ known.index w.drawn known.uuid in
        let less = known.drawn in absurd (omega (arith, same, less))
  ]

  open_saga-Inv :
      (order_id user_email item_id : String) (quantity amount : ℤ) (correlation_id : String)
      (w : World b)
      → pos 0 ≤ℤ quantity
      → IsOrdered b w order_id
      → Inv b w
      → let (g, w') = open_saga b c order_id user_email item_id quantity amount correlation_id w in
        Inv b w' × Grows b w w' × (b.sagas.find_one g.saga_id w'.sagas ≡ some g)
  unfolding open_saga put new_saga tally payload_at status_at holds_stock
  open_saga-Inv order_id user_email item_id quantity amount correlation_id w q stored inv =
      let g : Saga =
        (open_saga b c order_id user_email item_id quantity amount correlation_id w).0 in
      let w0 : World b = record w { drawn = w.drawn + 1 } in
      let (inv0, gr0) =
        change_sagas-Inv b w w.sagas (w.drawn + 1) (omega arith) (λ j d e. (d, e, SagaGrows-refl d))
          inv.sagas inv in
      let new : SagaOk b w0 g.saga_id g = record {
        keyed = refl;
        index = w.drawn;
        drawn = omega arith;
        uuid = refl;
        item_id = item_id;
        quantity = quantity;
        payload = refl;
        quantity_nonneg = q;
        ordered = stored;
        asked = omega arith;
        standing = record {
          reserved = λ h. absurd (cc h);
          settled = λ h. absurd (cc h);
          returned = λ h. absurd (cc h);
          ended = λ h. absurd (cc h);
        };
        history = record { origin = g; is_born = born _ _ _ _ _ _ _ _; since = still g };
      } in
      let (inv1, gr1) =
        change_sagas-Inv b w0 (b.saga_upserts.upsert g.saga_id g w.sagas) w0.drawn
          (le_refl w0.drawn)
          (upsert-StoreGrows b.sagas SagaGrows SagaGrows-refl b.saga_upserts g.saga_id g w.sagas
            (undrawn w inv))
          (upsert-StoreAll b.sagas (SagaOk b w0) b.saga_upserts g.saga_id g w.sagas new inv0.sagas)
          inv0 in
      (
        inv1,
        Grows-trans b w w0 _ gr0 gr1,
        b.saga_upserts.find_one-upsert g.saga_id g w.sagas g.saga_id ∙ rw (eq_refl g.saga_id),
      )

  pub start_order-Sound :
      (user_email item_id : String) (quantity price : ℤ) (correlation_id : String)
      → Sound b (start_order b c user_email item_id quantity price correlation_id)
  unfolding start_order save
  start_order-Sound user_email item_id quantity price correlation_id =
      from_result-Triple (Money.make price) _ (λ _. tt)
        λ unit_price _.
          from_result-Triple (OrderItem.make item_id unit_price quantity) _ (λ _. tt)
            λ item made.
              from_result-Triple (Order.create user_email item) _ (λ _. tt)
                λ order _.
                  Triple-await _ _ (λ order_id w. IsOrdered b w order_id)
                    (λ w i _.
                      let (i', gr) = insert_order-Inv b order w i in
                      (
                        i',
                        gr,
                        λ u gr'. IsOrdered-grows b _ u _ gr' (insert_order-IsOrdered b order w),
                      ))
                    λ order_id.
                      from_result-Triple (Order.total_amount order) _ (λ _. tt)
                        λ total _.
                          Triple-await _ _ (λ g. Seen b g)
                            (λ w i stored.
                              let (i', gr, e) =
                                open_saga-Inv order_id user_email item_id quantity total.amount
                                  correlation_id w (make-pos item_id unit_price quantity item made)
                                  stored i in
                              (i', gr, λ u gr'. Seen-grows b _ _ u (found-Seen b _ _ _ i' e) gr'))
                            (reserve_and_advance-Safe b c)

  -- What a query has returned has been seen, and is still known after others' steps.
  abbrev Found : Option Saga → World b → Type 0
  Found o w = (g : Saga) → o ≡ some g → Seen b g w

  handle_found-Keeps :
      (r : Reply) (o : Option Saga) → Keeps b (handle_found b c r o) (Found o) (λ _ _. Unit {0})
  unfolding handle_found
  handle_found-Keeps r none = Triple-return (λ _ _ _. tt)
  handle_found-Keeps r (some g) =
      Triple-mono (λ w _ h. h g refl) (λ _ _ _ h. h) (dispatch_reply-Safe b c r.type g r)

  pub handle_reply-Sound : (r : Reply) → Sound b (handle_reply b c r)
  unfolding handle_reply find_by_saga_id
  handle_reply-Sound r =
      Triple-await _ _ Found
        (λ w i _.
          (i, Grows-refl b w, λ u gr g e. Seen-grows b g w u (found-Seen b r.saga_id g w i e) gr))
        (handle_found-Keeps r)

  pub on_message-Sound : (m : Option (Result Reply)) → Sound b (on_message b c m)
  unfolding on_message
  on_message-Sound none = Triple-return (λ _ _ _. tt)
  on_message-Sound (some content) =
      Triple-catch _ _
        (from_result-Triple content _ (λ _. tt)
          λ r _.
            Triple-bind (handle_reply b c r) _ (handle_reply-Sound r)
              (λ _. Triple-return (λ _ _ _. tt)))
        (λ _. Triple-return (λ _ _ _. tt))

  AllSeen : List (String × Saga) → World b → Type 0
  AllSeen gs w = All (λ e. Seen b e.1 w) gs

  AllSeen-grows :
      (gs : List (String × Saga)) (u v : World b) → AllSeen gs u → Grows b u v → AllSeen gs v
  unfolding AllSeen
  AllSeen-grows [] u v h gr = tt
  AllSeen-grows ((_, g) ∷ gs) u v h gr = (Seen-grows b g u v h.0 gr, AllSeen-grows gs u v h.1 gr)

  found-AllSeen :
      (now : ℕ) (w : World b) (gs : List (String × Saga))
      → Inv b w
      → All (λ e. (b.sagas.find_one e.0 w.sagas ≡ some e.1) × (is_timed_out now e.1 ≡ true)) gs
      → AllSeen gs w
  unfolding AllSeen
  found-AllSeen now w [] i h = tt
  found-AllSeen now w ((id, g) ∷ gs) i h =
      (found-Seen b id g w i h.0.0, found-AllSeen now w gs i h.1)

  sweep_one-Safe : (g : Saga) → Safe b g (sweep_one b c g)
  unfolding sweep_one log_failure
  sweep_one-Safe g = Triple-catch _ _ (handle_timeout-Safe b c g) λ _.
      Sound-step b _ _ (λ w i. change_rest-Inv b w w.clock w.broker _ i)
        (λ _. Triple-return (λ _ _ _. tt))

  sweep_all-Keeps :
      (gs : List (String × Saga)) → Keeps b (sweep_all b c gs) (AllSeen gs) (λ _ _. Unit {0})
  unfolding sweep_all AllSeen
  sweep_all-Keeps [] = Triple-return (λ _ _ _. tt)
  sweep_all-Keeps ((_, g) ∷ gs) =
      Triple-bind (sweep_one b c g) _
        (Triple-mono (λ w _ h. (h.0, h.1)) (λ _ _ _ h. h.1)
          (Triple-throws (λ _. Unit {0}) (λ _ _. tt)
            (Triple-frame (AllSeen gs) (AllSeen-grows gs) (sweep_one-Safe g))))
        (λ _. sweep_all-Keeps gs)

  pub sweep-Sound : (batch : ℕ) → Sound b (sweep b c batch)
  unfolding sweep find_timed_out
  sweep-Sound batch =
      Triple-await _ _ AllSeen
        (λ w i _. (
          i,
          Grows-refl b w,
          λ u gr.
              AllSeen-grows _ w u
                (found-AllSeen w.clock w _ i
                  (b.sagas.find-sound (is_timed_out w.clock) batch w.sagas))
                gr,
        ))
        sweep_all-Keeps
