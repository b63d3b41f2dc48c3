-- ===== src/Operations/Timeouts.antt =====
-- `handleTimeout` next to `handleReply`: what the sweep does about a step that got no reply.
use msa_training.Prelude.{◌≡◌, refl, ap, sym, ◌∙◌, true, some, ◌||◌}
use msa_training.Errors.{ok}
use msa_training.Async.{run}
use msa_training.Saga.State.{
  SagaState, started, inventory_reserved, payment_charged, points_earned, completed, compensating,
  failed, compensation_failed, same_state,
}
use msa_training.Saga.Contracts.{Msg, Reply}
use msa_training.Models.{Saga}
use msa_training.Backend.{Backend, World}
use msa_training.Saga.Orchestrator.{
  Config, on_refund_failed, retry_or_escalate, retry_or_escalate_in, dispatch_reply,
  handle_timeout_in, handle_timeout, handle_reply,
}
use msa_training.Operations.Replies.{is_quiet}
use msa_training.Operations.Reading.{reply_read}

module _ (b : Backend) (c : Config) (g : Saga) (w : World b) where
  -- the state that the sweep read decides
  read_in :
      (s : SagaState)
      → g.state ≡ s
      → run (handle_timeout b c g) w ≡ run (handle_timeout_in b c s g) w
  unfolding handle_timeout
  read_in s e = ap (λ x. run (handle_timeout_in b c x g) w) e

  nothing :
      (s : SagaState)
      → is_quiet s || same_state s compensation_failed ≡ true
      → run (handle_timeout_in b c s g) w ≡ (ok tt, w)
  unfolding is_quiet same_state handle_timeout_in run
  nothing started over = cc
  nothing inventory_reserved over = cc
  nothing payment_charged over = cc
  nothing points_earned over = refl
  nothing completed over = refl
  nothing compensating over = cc
  nothing failed over = refl
  nothing compensation_failed over = refl

  module _ (r : Reply) (stored : b.sagas.find_one r.saga_id w.sagas ≡ some g) where
    dispatched :
        (m : Msg) → r.type ≡ m → run (handle_reply b c r) w ≡ run (dispatch_reply b c m g r) w
    dispatched m e = reply_read b c r g w stored ∙ ap (λ x. run (dispatch_reply b c x g r) w) e

    -- A time-out of a stored saga that is past its reservation and not over is handled as the reply
    -- that refuses what the saga waits for: in INVENTORY_RESERVED as PAYMENT_FAILED, in
    -- PAYMENT_CHARGED as POINTS_FAILED and in COMPENSATING as REFUND_FAILED, with the same result and
    -- the same state of everything. In POINTS_EARNED, COMPLETED, FAILED and COMPENSATION_FAILED it
    -- changes nothing.
    pub timeout_is_refusal :
        (g.state ≡ inventory_reserved
          → r.type ≡ Msg.payment_failed
          → run (handle_timeout b c g) w ≡ run (handle_reply b c r) w)
        × (g.state ≡ payment_charged
            → r.type ≡ Msg.points_failed
            → run (handle_timeout b c g) w ≡ run (handle_reply b c r) w)
        × (g.state ≡ compensating
            → r.type ≡ Msg.refund_failed
            → run (handle_timeout b c g) w ≡ run (handle_reply b c r) w)
        × ((s : SagaState)
            → g.state ≡ s
            → is_quiet s || same_state s compensation_failed ≡ true
            → run (handle_timeout b c g) w ≡ (ok tt, w))
    unfolding dispatch_reply on_refund_failed retry_or_escalate retry_or_escalate_in
        handle_timeout_in
    timeout_is_refusal = (
      λ here refused. read_in _ here ∙ sym (dispatched _ refused),
      λ here refused. read_in _ here ∙ sym (dispatched _ refused),
      λ here refused. read_in _ here ∙ sym (dispatched _ refused),
      λ s here over. read_in s here ∙ nothing s over,
    )
