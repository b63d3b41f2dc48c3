-- ===== src/System/Attempts/Entries.antt =====
-- However the service's computations interleave, no compensation is retried as often as the maximum.
use msa_training.Prelude.{
  ℕ, ◌+◌, ◌<◌, String, ◌≡◌, refl, subst, sym, Option, none, some, List, [], ◌∷◌, All, leb, ltb,
  Bool-cases, inl, inr,
}
use msa_training.Prelude.Int.{ℤ}
use msa_training.Errors.{Result}
use msa_training.Async.{Async, return, await, call, ◌>>=◌, ◌>>◌}
use msa_training.Async.Logic.{Triple-throw, Triple-bind, Triple-catch, from_result-Triple}
use msa_training.Async.Schedule.{Pick, AllSafe, exec-Safe}
use msa_training.Mongo.Laws.{StoreAll, upsert-StoreAll}
use msa_training.Domain.Money
use msa_training.Domain.OrderItem
use msa_training.Domain.Order
use msa_training.Saga.Contracts.{Reply, StepName}
use msa_training.Models.{Saga, OutboxEntry, OrderDoc}
use msa_training.Backend.{Backend, World}
use msa_training.Persistence.Sagas.{
  put, find_by_saga_id, find_timed_out, find_with_pending_outbox, mark_outbox_sent,
}
use msa_training.Persistence.Orders.{
  save, insert_order, find_order, update_status, set_status, find_by_id,
}
use msa_training.Persistence.Orders.Casting.{cast-Triple}
use msa_training.Saga.Orchestrator.{
  Config, new_saga, open_saga, start_order, handle_found, handle_reply,
}
use msa_training.Messaging.TimeoutSweep.{sweep, sweep_all, sweep_one, log_failure}
use msa_training.Messaging.OutboxRelay.{
  RelayConfig, pending_entries, send, warn, after_send, relay_entries, relay_all, relay,
}
use msa_training.Messaging.ReplyConsumer.{on_message}
use msa_training.Application.OrderService.{
  is_allowed, new_status, explain, answer, process_payment_callback,
}
use msa_training.System.Requests.{
  Request, place, message, sweep_tick, relay_tick, callback, wait, perform, perform_all, serve,
  pass_time,
}
use msa_training.System.Attempts.{
  Below, mark_sent-Bounded, arm_deadline-Bounded, inc_outbox_attempt-Bounded,
}
use msa_training.System.Attempts.Handlers.{
  Kept, AreBounded, keeps, done, reserve_and_advance-Kept, dispatch_reply-Kept, handle_timeout-Kept,
}

module _ (b : Backend) (c : Config) (positive : 0 < c.max_compensate_attempts) where
  -- An operation that leaves the sagas alone.
  keeps_rest :
      {A B : Type 0} (op : World b → B × World b) (k : B → Async (World b) A)
      → ((w : World b) → (op w).1.sagas ≡ w.sagas)
      → ((x : B) → Kept b c (k x))
      → Kept b c (await op k)
  keeps_rest op k same t =
      keeps b c op k
        (λ w i. record {
          sagas =
              subst (λ s. StoreAll b.sagas (λ _ g. Below c.max_compensate_attempts g.steps) s)
                (sym (same w)) i.sagas;
        })
        t

  open_saga-Bounded :
      (order_id user_email item_id : String) (quantity amount : ℤ) (correlation_id : String)
      (w : World b)
      → AreBounded b c w
      → AreBounded b c
          (open_saga b c order_id user_email item_id quantity amount correlation_id w).1
  unfolding open_saga put new_saga
  open_saga-Bounded order_id user_email item_id quantity amount correlation_id w i = record {
    sagas =
        upsert-StoreAll b.sagas (λ _ g. Below c.max_compensate_attempts g.steps) b.saga_upserts _ _
          w.sagas (positive, (positive, (positive, tt))) i.sagas;
  }

  start_order-Kept :
      (user_email item_id : String) (quantity price : ℤ) (correlation_id : String)
      → Kept b c (start_order b c user_email item_id quantity price correlation_id)
  unfolding start_order save insert_order
  start_order-Kept user_email item_id quantity price correlation_id =
      from_result-Triple (Money.make price) _ (λ _. tt)
        λ unit_price _.
          from_result-Triple (OrderItem.make item_id unit_price quantity) _ (λ _. tt)
            λ item _.
              from_result-Triple (Order.create user_email item) _ (λ _. tt)
                λ order _.
                  keeps_rest _ _ (λ _. refl)
                    λ order_id.
                      from_result-Triple (Order.total_amount order) _ (λ _. tt)
                        λ total _.
                          keeps b c _ _
                            (open_saga-Bounded order_id user_email item_id quantity total.amount
                              correlation_id)
                            (reserve_and_advance-Kept b c)

  handle_found-Kept : (r : Reply) (o : Option Saga) → Kept b c (handle_found b c r o)
  unfolding handle_found
  handle_found-Kept r none = done b c
  handle_found-Kept r (some g) = dispatch_reply-Kept b c r.type g r

  on_message-Kept : (m : Option (Result Reply)) → Kept b c (on_message b c m)
  unfolding on_message handle_reply find_by_saga_id
  on_message-Kept none = done b c
  on_message-Kept (some content) =
      Triple-catch _ _
        (from_result-Triple content _ (λ _. tt)
          λ r _.
            Triple-bind (handle_reply b c r) _ (keeps_rest _ _ (λ _. refl) (handle_found-Kept r))
              (λ _. done b c))
        (λ _. done b c)

  sweep_all-Kept : (gs : List (String × Saga)) → Kept b c (sweep_all b c gs)
  unfolding sweep_all sweep_one log_failure
  sweep_all-Kept [] = done b c
  sweep_all-Kept ((_, g) ∷ gs) =
      Triple-bind (sweep_one b c g) _
        (Triple-catch _ _ (handle_timeout-Kept b c g)
          (λ _. keeps_rest _ _ (λ _. refl) (λ _. done b c)))
        (λ _. sweep_all-Kept gs)

  explain-Kept : (o : Option OrderDoc) → Kept b c (explain b o)
  unfolding explain
  explain-Kept none = Triple-throw (λ _ _ _. tt)
  explain-Kept (some _) = Triple-throw (λ _ _ _. tt)

  answer-Kept : (order_id : String) (o : Option OrderDoc) → Kept b c (answer b order_id o)
  unfolding answer find_by_id
  answer-Kept order_id (some _) = done b c
  answer-Kept order_id none =
      cast-Triple b (find_order b) (explain b) (b.cast_id order_id) (λ _ _. tt)
        (λ key _. keeps_rest _ _ (λ _. refl) explain-Kept)

  process_payment_callback-Kept :
      (order_id payment_status : String)
      → Kept b c (process_payment_callback b order_id payment_status)
  unfolding process_payment_callback update_status set_status
  process_payment_callback-Kept order_id payment_status =
      elim (Bool-cases (is_allowed payment_status)) [
        | inl allowed ↦ rw allowed (
            cast-Triple b (λ key. set_status b key (new_status payment_status)) (answer b order_id)
              (b.cast_id order_id) (λ _ _. tt)
              (λ key _. keeps_rest _ _ (λ _. refl) (answer-Kept order_id)))
        | inr other ↦ rw other (Triple-throw (λ _ _ _. tt))
      ]

  module _ (rc : RelayConfig) where
    warn-sagas : (g : Saga) (e : OutboxEntry) (w : World b) → (warn b rc g e w).1.sagas ≡ w.sagas
    unfolding warn
    warn-sagas g e w = elim (Bool-cases (leb rc.max_outbox_attempts (e.attempts + 1))) [
      | inl many ↦ rw many refl
      | inr few ↦ rw few refl
    ]

    mark_outbox_sent-Kept :
        (id entry_id : String) (now deadline : ℕ) (step : StepName)
        → Kept b c (mark_outbox_sent b id entry_id now deadline step)
    unfolding mark_outbox_sent
    mark_outbox_sent-Kept id entry_id now deadline step =
        keeps b c _ _ (mark_sent-Bounded c.max_compensate_attempts b id entry_id now) λ modified.
          elim (Bool-cases (ltb 0 modified)) [
            | inl won ↦ rw won (
                keeps b c _ _ (arm_deadline-Bounded c.max_compensate_attempts b id step deadline)
                  (λ _. done b c))
            | inr lost ↦ rw lost (done b c)
          ]

    after_send-Kept :
        (g : Saga) (e : OutboxEntry) (r : ℕ × Result (Unit {0})) → Kept b c (after_send b rc g e r)
    unfolding after_send
    after_send-Kept g e (now, sent) =
        Triple-catch _ _
          (from_result-Triple sent _ (λ _. tt)
            (λ _ _.
              mark_outbox_sent-Kept g.saga_id e.id now (now + rc.step_timeout_ms)
                e.message.step_name))
          (λ _.
            keeps b c _ _
              (inc_outbox_attempt-Bounded c.max_compensate_attempts b g.saga_id e.id now)
              (λ _. keeps_rest _ _ (warn-sagas g e) (λ _. done b c)))

    relay_entries-Kept : (g : Saga) (es : List OutboxEntry) → Kept b c (relay_entries b rc g es)
    unfolding relay_entries send
    relay_entries-Kept g [] = done b c
    relay_entries-Kept g (e ∷ es) =
        Triple-bind (call (send b rc e) >>= after_send b rc g e) _
          (keeps_rest _ _ (λ _. refl) (after_send-Kept g e)) (λ _. relay_entries-Kept g es)

    relay_all-Kept : (gs : List (String × Saga)) → Kept b c (relay_all b rc gs)
    unfolding relay_all
    relay_all-Kept [] = done b c
    relay_all-Kept ((_, g) ∷ gs) =
        Triple-bind (relay_entries b rc g (pending_entries g.outbox)) _
          (relay_entries-Kept g (pending_entries g.outbox)) (λ _. relay_all-Kept gs)

    end : {A : Type 0} (m : Async (World b) A) → Kept b c m → Kept b c (m >> return tt)
    end m h = Triple-bind m _ h (λ _. done b c)

    perform-Kept : (r : Request) → Kept b c (perform b c rc r)
    unfolding perform pass_time sweep relay find_timed_out find_with_pending_outbox
    perform-Kept (place user_email item_id quantity price correlation_id) =
        end _ (start_order-Kept user_email item_id quantity price correlation_id)
    perform-Kept (message m) = end _ (on_message-Kept m)
    perform-Kept (sweep_tick batch) = keeps_rest _ _ (λ _. refl) sweep_all-Kept
    perform-Kept relay_tick = keeps_rest _ _ (λ _. refl) relay_all-Kept
    perform-Kept (callback order_id payment_status) =
        end _ (process_payment_callback-Kept order_id payment_status)
    perform-Kept (wait n) = keeps_rest _ _ (λ _. refl) (λ _. done b c)

    all-Safe :
        (rs : List Request)
        → AllSafe
            (AreBounded b c)
            (λ _ _. Unit {0})
            (λ _. tt)
            (λ _ _ _ _ _. tt)
            (perform_all b c rc rs)
    unfolding perform_all
    all-Safe [] = tt
    all-Safe (r ∷ rs) = (perform-Kept r, all-Safe rs)

    -- With a positive maximum, and from a state in which no stored saga's step has been retried so
    -- often, whatever requests come in whatever order of their steps, some stopped half-way, every
    -- step of every stored saga has been retried fewer times than the maximum.
    pub attempts_bounded :
        (rs : List Request) (ps : List Pick) (w : World b) (id : String) (g : Saga)
        → ((j : String) (h : Saga)
            → b.sagas.find_one j w.sagas ≡ some h
            → Below c.max_compensate_attempts h.steps)
        → b.sagas.find_one id (serve b c rc rs ps w).sagas ≡ some g
        → All (λ s. s.compensate_attempts < c.max_compensate_attempts) g.steps
    unfolding serve
    attempts_bounded rs ps w id g below found =
        (exec-Safe (AreBounded b c) (λ _ _. Unit {0}) (λ _. tt) (λ _ _ _ _ _. tt) ps
            (perform_all b c rc rs) w (record { sagas = below }) (all-Safe rs)).0.sagas
          id g found
