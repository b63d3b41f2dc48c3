-- ===== src/Messaging/OutboxRelay.antt =====
-- services/order-service/src/infrastructure/messaging/OutboxRelayWorker.js
use msa_training.Prelude.{ℕ, ◌+◌, String, List, [], ◌∷◌, leb, if◌then◌else◌}
use msa_training.Errors.{Result}
use msa_training.Async.{Async, return, call, catch, from_result, ◌>>=◌, ◌>>◌}
use msa_training.Models.{Saga, OutboxEntry, is_pending}
use msa_training.Backend.{Backend, World, outbox_stuck}
use msa_training.Persistence.Sagas.{find_with_pending_outbox, mark_outbox_sent, inc_outbox_attempt}

pub record RelayConfig : Type 0 where
  pub batch_size : ℕ
  pub step_timeout_ms : ℕ
  pub max_outbox_attempts : ℕ

unfoldable pub pending_entries : List OutboxEntry → List OutboxEntry
pending_entries [] = []
pending_entries (e ∷ es) =
    if is_pending e.status then e ∷ pending_entries es else pending_entries es

module _ (b : Backend) (c : RelayConfig) where
  -- the reading of the clock and the publication of one command
  unfoldable pub send : OutboxEntry → World b → (ℕ × Result (Unit {0})) × World b
  send e w =
      let (sent, broker) = b.publish e.queue e.message w.broker in
      ((w.clock, sent), record w { broker = broker })

  -- the warning, once the attempts reach the limit
  unfoldable pub warn : Saga → OutboxEntry → World b → Unit {0} × World b
  warn g e w =
      if leb c.max_outbox_attempts (e.attempts + 1)
      then (tt, record w { alerts = outbox_stuck g.saga_id e.id ∷ w.alerts })
      else (tt, w)

  unfoldable pub after_send :
      Saga → OutboxEntry → ℕ × Result (Unit {0}) → Async (World b) (Unit {0})
  after_send g e (now, sent) =
      catch
        (from_result sent
          >> mark_outbox_sent b g.saga_id e.id now (now + c.step_timeout_ms) e.message.step_name)
        (λ _. call (inc_outbox_attempt b g.saga_id e.id now) >> call (warn g e))

  unfoldable pub relay_entries : Saga → List OutboxEntry → Async (World b) (Unit {0})
  unfolding after_send
  relay_entries g [] = return tt
  relay_entries g (e ∷ es) = (call (send e) >>= after_send g e) >> relay_entries g es

  unfoldable pub relay_all : List (String × Saga) → Async (World b) (Unit {0})
  unfolding relay_entries
  relay_all [] = return tt
  relay_all ((_, g) ∷ gs) = relay_entries g (pending_entries g.outbox) >> relay_all gs

  -- `tick`
  unfoldable pub relay : Async (World b) (Unit {0})
  unfolding relay_all
  relay = do sagas ← call (find_with_pending_outbox b c.batch_size); relay_all sagas
