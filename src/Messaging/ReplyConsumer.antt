-- ===== src/Messaging/ReplyConsumer.antt =====
-- services/order-service/src/infrastructure/messaging/SagaReplyConsumer.js, the callback of
-- `consume`. What `JSON.parse` makes of a message's content is given.
pub mod Restart
use msa_training.Prelude.{Option, none, some}
use msa_training.Errors.{Result}
use msa_training.Async.{Async, return, catch, from_result, ◌>>=◌, ◌>>◌}
use msa_training.Backend.{Backend, World}
use msa_training.Saga.Contracts.{Reply}
use msa_training.Saga.Orchestrator.{Config, handle_reply}

-- What the channel is told: nothing, `ack`, or `nack` without requeueing.
pub data Decision : Type 0 where
  ignored acked nacked : Decision

module _ (b : Backend) (c : Config) where
  unfoldable pub on_message : Option (Result Reply) → Async (World b) Decision
  on_message none = return ignored
  on_message (some content) =
      catch (do reply ← from_result content; handle_reply b c reply; return acked)
        (λ _. return nacked)
