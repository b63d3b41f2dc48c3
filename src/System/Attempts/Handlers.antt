-- ===== src/System/Attempts/Handlers.antt =====
-- The handlers of the orchestrator keep the counts of the retries below the maximum.
use msa_training.Prelude.{
  ℕ, ◌+◌, String, Bool, true, false, Option, none, some, List, leb, Bool-cases, inl, inr,
}
use msa_training.Prelude.Int.{ℤ}
use msa_training.Errors.{OrderStatus}
use msa_training.Async.{Async, return, await, ◌>>=◌, ◌>>◌}
use msa_training.Async.Logic.{Triple-bind}
use msa_training.Saga.State.{
  SagaState, started, inventory_reserved, payment_charged, compensating, compensation_failed,
}
use msa_training.Saga.Contracts.{StepName, Reply, ReplyData, Msg, inventory, payment, points}
use msa_training.Models.{Saga, SagaStep, Inventory}
use msa_training.Backend.{Backend, World}
use msa_training.Persistence.Sagas.{
  StepUpdate, Command, cas, compare_and_advance, retry_compensation,
}
use msa_training.Persistence.Orders.{update_status, set_status}
use msa_training.Persistence.Orders.Casting.{cast-Triple}
use msa_training.Persistence.Inventory.{
  reserve, release, try_reserve, already_reserved, reserved_or_again, give_back,
}
use msa_training.Saga.Orchestrator.{
  Config, settle_reservation, reserve_and_advance, complete_unless_lost, on_payment_succeeded_with,
  on_points_succeeded, compensate_stock, on_payment_failed, on_points_failed, heal_unless_advanced,
  refund_stock, on_refund_succeeded_in, report, retry_or_escalate_step, retry_or_escalate_in,
  dispatch_reply, handle_timeout_in, handle_timeout, step_of, stock_of,
}
use msa_training.System.Snapshot.{step_of-Triple, stock_of-Triple, amount_of-Triple}
use msa_training.System.Attempts.{
  Bounded, Free, Free-return, Free-step, cas-Bounded, retry_cas-Bounded,
}

module _ (b : Backend) (c : Config) where
  abbrev pub Kept : {A : Type 0} → Async (World b) A → Type 0
  Kept m = Free c.max_compensate_attempts b m

  abbrev pub AreBounded : World b → Type 0
  AreBounded w = Bounded c.max_compensate_attempts b w

  pub keeps :
      {A B : Type 0} (op : World b → B × World b) (k : B → Async (World b) A)
      → ((w : World b) → AreBounded w → AreBounded (op w).1)
      → ((x : B) → Kept (k x))
      → Kept (await op k)
  keeps op k h t = Free-step c.max_compensate_attempts b op k h t

  pub done : {A : Type 0} {a : A} → Kept (return a)
  done = Free-return c.max_compensate_attempts b

  status-Kept :
      {A : Type 0} (id : String) (status : OrderStatus) (k : Async (World b) A)
      → Kept k
      → Kept (update_status b id status >> k)
  unfolding update_status set_status
  status-Kept id status k t =
      cast-Triple b (λ key. set_status b key status) (λ _. k) (b.cast_id id) (λ _ _. tt)
        (λ key _. keeps _ _ (λ w i. record { sagas = i.sagas }) (λ _. t))

  cas-Kept :
      {A : Type 0} (id : String) (from to : SagaState) (step : Option StepName)
      (us : List StepUpdate) (cs : List Command) (k : Option Saga → Async (World b) A)
      → ((o : Option Saga) → Kept (k o))
      → Kept (await (cas b id from to step us cs) k)
  cas-Kept id from to step us cs k t =
      keeps _ _ (cas-Bounded c.max_compensate_attempts b id from to step us cs) t

  again-Kept :
      (item_id id : String) (o : Option Inventory) → Kept (reserved_or_again b item_id id o)
  unfolding already_reserved
  again-Kept item_id id (some _) = done
  again-Kept item_id id none = keeps _ _ (λ w i. i) (λ _. done)

  reserve-Kept :
      (item_id : String) (quantity : ℤ) (id : String) → Kept (reserve b item_id quantity id)
  unfolding reserve try_reserve
  reserve-Kept item_id quantity id =
      keeps _ _ (λ w i. record { sagas = i.sagas }) (again-Kept item_id id)

  release-Kept :
      {A : Type 0} (g : Saga) (k : Async (World b) A)
      → Kept k
      → Kept (
          step_of inventory g >>= λ s. stock_of s.payload >>= λ p. release b p.0 p.1 g.saga_id >> k)
  unfolding release give_back
  release-Kept g k t =
      step_of-Triple (λ _. tt) inventory g _
        λ s _.
          stock_of-Triple (λ _. tt) s.payload _
            (λ item_id quantity _. keeps _ _ (λ w i. record { sagas = i.sagas }) (λ _. t))

  settle_reservation-Kept :
      (g : Saga) (amount : ℤ) (r : Bool) → Kept (settle_reservation b c g amount r)
  unfolding settle_reservation compare_and_advance
  settle_reservation-Kept g amount false =
      cas-Kept _ _ _ _ _ _ _ (λ _. status-Kept g.order_id OrderStatus.failed _ done)
  settle_reservation-Kept g amount true = cas-Kept _ _ _ _ _ _ _ (λ _. done)

  pub reserve_and_advance-Kept : (g : Saga) → Kept (reserve_and_advance b c g)
  unfolding reserve_and_advance
  reserve_and_advance-Kept g =
      step_of-Triple (λ _. tt) inventory g _
        λ s _.
          stock_of-Triple (λ _. tt) s.payload _
            λ item_id quantity _.
              step_of-Triple (λ _. tt) payment g _
                λ pay _.
                  amount_of-Triple (λ _. tt) pay.payload _
                    λ amount.
                      Triple-bind _ _ (reserve-Kept item_id quantity g.saga_id)
                        (settle_reservation-Kept g amount)

  complete_unless_lost-Kept :
      (g : Saga) (from : SagaState) (o : Option Saga) → Kept (complete_unless_lost b c g from o)
  unfolding complete_unless_lost compare_and_advance
  complete_unless_lost-Kept g from none = done
  complete_unless_lost-Kept g from (some _) =
      status-Kept g.order_id OrderStatus.success _ (cas-Kept _ _ _ _ _ _ _ (λ _. done))

  on_payment_succeeded_with-Kept :
      (enabled : Bool) (g : Saga) (r : Option ReplyData)
      → Kept (on_payment_succeeded_with b c enabled g r)
  unfolding on_payment_succeeded_with compare_and_advance
  on_payment_succeeded_with-Kept true g r =
      step_of-Triple (λ _. tt) points g _ λ s _. cas-Kept _ _ _ _ _ _ _ (λ _. done)
  on_payment_succeeded_with-Kept false g r =
      cas-Kept _ _ _ _ _ _ _ (complete_unless_lost-Kept g payment_charged)

  on_points_succeeded-Kept : (g : Saga) → Kept (on_points_succeeded b c g)
  unfolding on_points_succeeded compare_and_advance
  on_points_succeeded-Kept g = cas-Kept _ _ _ _ _ _ _ (complete_unless_lost-Kept g _)

  compensate_stock-Kept : (g : Saga) (o : Option Saga) → Kept (compensate_stock b c g o)
  unfolding compensate_stock compare_and_advance
  compensate_stock-Kept g none = done
  compensate_stock-Kept g (some _) =
      release-Kept g _
        (status-Kept g.order_id OrderStatus.failed _ (cas-Kept _ _ _ _ _ _ _ (λ _. done)))

  on_payment_failed-Kept : (g : Saga) → Kept (on_payment_failed b c g)
  unfolding on_payment_failed compare_and_advance
  on_payment_failed-Kept g = cas-Kept _ _ _ _ _ _ _ (compensate_stock-Kept g)

  on_points_failed-Kept : (g : Saga) → Kept (on_points_failed b c g)
  unfolding on_points_failed compare_and_advance
  on_points_failed-Kept g =
      step_of-Triple (λ _. tt) payment g _ λ s _. cas-Kept _ _ _ _ _ _ _ (λ _. done)

  heal_unless_advanced-Kept : (g : Saga) (o : Option Saga) → Kept (heal_unless_advanced b c g o)
  unfolding heal_unless_advanced compare_and_advance
  heal_unless_advanced-Kept g (some _) = done
  heal_unless_advanced-Kept g none = cas-Kept _ _ _ _ _ _ _ (λ _. done)

  refund_stock-Kept : (g : Saga) → Kept (refund_stock b c g)
  unfolding refund_stock compare_and_advance
  refund_stock-Kept g = release-Kept g _ (
      status-Kept g.order_id OrderStatus.failed _
        (cas-Kept _ _ _ _ _ _ _ (heal_unless_advanced-Kept g)))

  on_refund_succeeded_in-Kept : (s : SagaState) (g : Saga) → Kept (on_refund_succeeded_in b c s g)
  unfolding on_refund_succeeded_in
  on_refund_succeeded_in-Kept compensating g = refund_stock-Kept g
  on_refund_succeeded_in-Kept compensation_failed g = refund_stock-Kept g
  on_refund_succeeded_in-Kept _ g = done

  report-Bounded :
      (g : Saga) (n : ℕ) (o : Option Saga) (w : World b)
      → AreBounded w
      → AreBounded (report b c g n o w).1
  unfolding report
  report-Bounded g n none w i = i
  report-Bounded g n (some _) w i = record { sagas = i.sagas }

  retry_or_escalate_step-Kept : (g : Saga) (s : SagaStep) → Kept (retry_or_escalate_step b c g s)
  unfolding retry_or_escalate_step compare_and_advance retry_compensation
  retry_or_escalate_step-Kept g s =
      elim (Bool-cases (leb c.max_compensate_attempts (s.compensate_attempts + 1))) [
        | inl enough ↦ rw enough (
            cas-Kept _ _ _ _ _ _ _
              (λ o. keeps _ _ (report-Bounded g (s.compensate_attempts + 1) o) (λ _. done)))
        | inr again ↦ rw again (
            keeps _ _
              (λ w i.
                retry_cas-Bounded c.max_compensate_attempts b g.saga_id payment
                  s.compensate_attempts _ w again i)
              (λ _. done))
      ]

  retry_or_escalate_in-Kept : (s : SagaState) (g : Saga) → Kept (retry_or_escalate_in b c s g)
  unfolding retry_or_escalate_in
  retry_or_escalate_in-Kept compensating g =
      step_of-Triple (λ _. tt) payment g _ λ s _. retry_or_escalate_step-Kept g s
  retry_or_escalate_in-Kept _ g = done

  pub dispatch_reply-Kept : (m : Msg) (g : Saga) (r : Reply) → Kept (dispatch_reply b c m g r)
  unfolding dispatch_reply
  dispatch_reply-Kept Msg.payment_succeeded g r =
      on_payment_succeeded_with-Kept c.points_enabled g r.payload
  dispatch_reply-Kept Msg.points_succeeded g r = on_points_succeeded-Kept g
  dispatch_reply-Kept Msg.payment_failed g r = on_payment_failed-Kept g
  dispatch_reply-Kept Msg.points_failed g r = on_points_failed-Kept g
  dispatch_reply-Kept Msg.refund_succeeded g r = on_refund_succeeded_in-Kept g.state g
  dispatch_reply-Kept Msg.refund_failed g r = retry_or_escalate_in-Kept g.state g
  dispatch_reply-Kept _ g r = done

  handle_timeout_in-Kept : (s : SagaState) (g : Saga) → Kept (handle_timeout_in b c s g)
  unfolding handle_timeout_in
  handle_timeout_in-Kept started g =
      Triple-bind (reserve_and_advance b c g) _ (reserve_and_advance-Kept g) (λ _. done)
  handle_timeout_in-Kept inventory_reserved g = on_payment_failed-Kept g
  handle_timeout_in-Kept payment_charged g = on_points_failed-Kept g
  handle_timeout_in-Kept compensating g = retry_or_escalate_in-Kept g.state g
  handle_timeout_in-Kept _ g = done

  pub handle_timeout-Kept : (g : Saga) → Kept (handle_timeout b c g)
  unfolding handle_timeout
  handle_timeout-Kept g = handle_timeout_in-Kept g.state g
