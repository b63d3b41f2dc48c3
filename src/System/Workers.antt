-- ===== src/System/Workers.antt =====
-- The entry points, begun with nothing known: the order route's call, the consumer of replies, the
-- two workers and the payment callback.
use msa_training.Prelude.{
  ℕ, ◌+◌, String, Option, none, some, List, [], ◌∷◌, leb, ltb, inl, inr, Bool-cases,
}
use msa_training.Errors.{Result}
use msa_training.Async.{Async, await, call, ◌>>=◌}
use msa_training.Async.Logic.{
  Triple-return, Triple-throw, Triple-step, Triple-bind, Triple-catch, from_result-Triple,
}
use msa_training.Saga.Contracts.{StepName}
use msa_training.Models.{Saga, OutboxEntry, OrderDoc}
use msa_training.Backend.{Backend, World}
use msa_training.Persistence.Sagas.{find_with_pending_outbox, mark_outbox_sent}
use msa_training.Persistence.Orders.{find_order, set_status, update_status, find_by_id}
use msa_training.Persistence.Orders.Casting.{cast-Triple}
use msa_training.Messaging.OutboxRelay.{
  RelayConfig, pending_entries, send, warn, after_send, relay_entries, relay_all, relay,
}
use msa_training.Application.OrderService.{
  is_allowed, new_status, explain, answer, process_payment_callback,
}
use msa_training.System.Invariant.{Grows, Grows-refl, Inv}
use msa_training.System.Documents.{change_rest-Inv}
use msa_training.System.Sagas.{mark_sent-Inv, arm_deadline-Inv, inc_outbox_attempt-Inv}
use msa_training.System.Orders.{set_status-Inv}
use msa_training.System.Rules.{Keeps}

module _ (b : Backend) where
  abbrev pub Nothing : World b → Type 0
  Nothing _ = Unit {0}

  -- From nothing known.
  abbrev pub Sound : {A : Type 0} → Async (World b) A → Type 0
  Sound m = Keeps b m Nothing (λ _ _. Unit {0})

  pub Sound-step :
      {A B : Type 0} (op : World b → B × World b) (k : B → Async (World b) A)
      → ((w : World b) → Inv b w → Inv b (op w).1 × Grows b w (op w).1)
      → ((x : B) → Sound (k x))
      → Sound (await op k)
  Sound-step op k h t = Triple-step op k (λ _ _ _ _. tt) (λ w i _. h w i) t

  pub Sound-read :
      {A B : Type 0} (op : World b → B) (k : B → Async (World b) A)
      → ((x : B) → Sound (k x))
      → Sound (await (λ w. (op w, w)) k)
  Sound-read op k t = Sound-step _ k (λ w i. (i, Grows-refl b w)) t

  explain-Sound : (o : Option OrderDoc) → Sound (explain b o)
  unfolding explain
  explain-Sound none = Triple-throw (λ _ _ _. tt)
  explain-Sound (some _) = Triple-throw (λ _ _ _. tt)

  answer-Sound : (order_id : String) (o : Option OrderDoc) → Sound (answer b order_id o)
  unfolding answer find_by_id
  answer-Sound order_id (some _) = Triple-return (λ _ _ _. tt)
  answer-Sound order_id none =
      cast-Triple b (find_order b) (explain b) (b.cast_id order_id) (λ _ _. tt)
        (λ key _. Sound-read _ _ explain-Sound)

  pub process_payment_callback-Sound :
      (order_id payment_status : String)
      → Sound (process_payment_callback b order_id payment_status)
  unfolding process_payment_callback update_status
  process_payment_callback-Sound order_id payment_status =
      elim (Bool-cases (is_allowed payment_status)) [
        | inl allowed ↦ rw allowed (
            cast-Triple b (λ key. set_status b key (new_status payment_status)) (answer b order_id)
              (b.cast_id order_id) (λ _ _. tt)
              (λ key _.
                Sound-step _ _ (set_status-Inv b key (new_status payment_status))
                  (answer-Sound order_id)))
        | inr other ↦ rw other (Triple-throw (λ _ _ _. tt))
      ]

  module _ (c : RelayConfig) where
    warn-Inv :
        (g : Saga) (e : OutboxEntry) (w : World b)
        → Inv b w
        → Inv b (warn b c g e w).1 × Grows b w (warn b c g e w).1
    unfolding warn
    warn-Inv g e w i = elim (Bool-cases (leb c.max_outbox_attempts (e.attempts + 1))) [
      | inl many ↦ rw many (change_rest-Inv b w w.clock w.broker _ i)
      | inr few ↦ rw few (i, Grows-refl b w)
    ]

    mark_outbox_sent-Sound :
        (id entry_id : String) (now deadline : ℕ) (step : StepName)
        → Sound (mark_outbox_sent b id entry_id now deadline step)
    unfolding mark_outbox_sent
    mark_outbox_sent-Sound id entry_id now deadline step =
        Sound-step _ _ (mark_sent-Inv b id entry_id now) λ modified.
          elim (Bool-cases (ltb 0 modified)) [
            | inl won ↦ rw won (
                Sound-step _ _ (arm_deadline-Inv b id step deadline)
                  (λ _. Triple-return (λ _ _ _. tt)))
            | inr lost ↦ rw lost (Triple-return (λ _ _ _. tt))
          ]

    after_send-Sound :
        (g : Saga) (e : OutboxEntry) (r : ℕ × Result (Unit {0})) → Sound (after_send b c g e r)
    unfolding after_send
    after_send-Sound g e (now, sent) =
        Triple-catch _ _
          (from_result-Triple sent _ (λ _. tt)
            (λ _ _.
              mark_outbox_sent-Sound g.saga_id e.id now (now + c.step_timeout_ms)
                e.message.step_name))
          (λ _.
            Sound-step _ _ (inc_outbox_attempt-Inv b g.saga_id e.id now)
              (λ _. Sound-step _ _ (warn-Inv g e) (λ _. Triple-return (λ _ _ _. tt))))

    send-Inv :
        (e : OutboxEntry) (w : World b)
        → Inv b w
        → Inv b (send b c e w).1 × Grows b w (send b c e w).1
    unfolding send
    send-Inv e w i = change_rest-Inv b w w.clock (b.publish e.queue e.message w.broker).1 w.alerts i

    relay_entries-Sound : (g : Saga) (es : List OutboxEntry) → Sound (relay_entries b c g es)
    unfolding relay_entries
    relay_entries-Sound g [] = Triple-return (λ _ _ _. tt)
    relay_entries-Sound g (e ∷ es) =
        Triple-bind (call (send b c e) >>= after_send b c g e) _
          (Sound-step _ _ (send-Inv e) (after_send-Sound g e)) (λ _. relay_entries-Sound g es)

    relay_all-Sound : (gs : List (String × Saga)) → Sound (relay_all b c gs)
    unfolding relay_all
    relay_all-Sound [] = Triple-return (λ _ _ _. tt)
    relay_all-Sound ((_, g) ∷ gs) =
        Triple-bind (relay_entries b c g (pending_entries g.outbox)) _
          (relay_entries-Sound g (pending_entries g.outbox)) (λ _. relay_all-Sound gs)

    pub relay-Sound : Sound (relay b c)
    unfolding relay find_with_pending_outbox
    relay-Sound = Sound-read _ _ relay_all-Sound
