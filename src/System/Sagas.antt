-- ===== src/System/Sagas.antt =====
-- The other updates of the saga repository keep the invariant, and make the state grow.
use native.Mathlib.Nat.{le_refl}
use msa_training.Prelude.{ℕ, ◌+◌, String, ◌≡◌, refl, sym, subst, true, some, List, length, arith}
use msa_training.Saga.State.Path.{here}
use msa_training.Saga.Contracts.{StepName, inventory, same_step}
use msa_training.Models.{Saga}
use msa_training.Backend.{Backend, World}
use msa_training.Persistence.Sagas.{
  Command, new_entries, retry_saga, may_retry, retry_cas, mark_sent, has_entry, set_sent,
  arm_deadline, count_publish, inc_outbox_attempt,
}
use msa_training.System.Commands.{
  is_charge, is_earn, tally_commands, tally-set_sent, tally-count_publish, more-Asked,
}
use msa_training.System.Moves.{one_move, published, armed, counted}
use msa_training.System.Invariant.{Standing, SagaGrows, Grows, Inv}
use msa_training.System.Steps.{retry_saga-SagaGrows, status_at-count_attempt}
use msa_training.System.Documents.{update-Inv, update_one-Inv}

module _ (b : Backend) where
  pub retry_cas-Inv :
      (id : String) (step : StepName) (attempts : ℕ) (cs : List Command) (w : World b)
      → (tally_commands is_charge cs ≡ 0) × (tally_commands is_earn cs ≡ 0)
      → Inv b w
      → Inv b (retry_cas b id step attempts cs w).1
        × Grows b w (retry_cas b id step attempts cs w).1
  unfolding retry_cas retry_saga
  retry_cas-Inv id step attempts cs w none_asked inv =
      let es = new_entries b.random_uuid w.drawn cs in
      update-Inv b w id (may_retry step attempts) (retry_saga step attempts es)
        (w.drawn + length cs) (omega arith) (λ g may. retry_saga-SagaGrows step attempts es g may)
        (λ g _ _. (
          λ ok.
              subst (Standing b w id ok.item_id g.state g.order_id)
                (sym (status_at-count_attempt step attempts inventory g.steps)) ok.standing,
          more-Asked g.state g.state b.random_uuid w.drawn g.outbox cs (omega arith),
        ))
        inv

  pub mark_sent-Inv :
      (id entry_id : String) (now : ℕ) (w : World b)
      → Inv b w
      → Inv b (mark_sent b id entry_id now w).1 × Grows b w (mark_sent b id entry_id now w).1
  unfolding mark_sent
  mark_sent-Inv id entry_id now w inv =
      update_one-Inv b w id _ _ w.drawn (le_refl w.drawn) sent
        (λ g _ _. (
          λ ok. ok.standing,
          λ h. (
            omega (arith, tally-set_sent is_charge entry_id now g.outbox),
            omega (arith, tally-set_sent is_earn entry_id now g.outbox),
          ),
        ))
        inv
    where
      sent :
          (g : Saga)
          → has_entry entry_id g.outbox ≡ true
          → SagaGrows g (record g { outbox = set_sent entry_id now g.outbox })
      sent g h = record {
        same_id = refl;
        same_order = refl;
        path = here;
        same_payloads = λ _. refl;
        moves = one_move g _ (published g entry_id now h);
      }

  pub arm_deadline-Inv :
      (id : String) (step : StepName) (deadline : ℕ) (w : World b)
      → Inv b w
      → Inv b (arm_deadline b id step deadline w).1
        × Grows b w (arm_deadline b id step deadline w).1
  unfolding arm_deadline
  arm_deadline-Inv id step deadline w inv =
      update_one-Inv b w id _ _ w.drawn (le_refl w.drawn) waits
        (λ g _ _. (λ ok. ok.standing, λ h. h)) inv
    where
      waits :
          (g : Saga)
          → same_step g.current_step step ≡ true
          → SagaGrows g (record g { deadline = some deadline })
      waits g h = record {
        same_id = refl;
        same_order = refl;
        path = here;
        same_payloads = λ _. refl;
        moves = one_move g _ (armed g step deadline h);
      }

  pub inc_outbox_attempt-Inv :
      (id entry_id : String) (now : ℕ) (w : World b)
      → Inv b w
      → Inv b (inc_outbox_attempt b id entry_id now w).1
        × Grows b w (inc_outbox_attempt b id entry_id now w).1
  unfolding inc_outbox_attempt
  inc_outbox_attempt-Inv id entry_id now w inv =
      update_one-Inv b w id _ _ w.drawn (le_refl w.drawn) (λ g _. tried g)
        (λ g _ _. (
          λ ok. ok.standing,
          λ h. (
            omega (arith, tally-count_publish is_charge entry_id now g.outbox),
            omega (arith, tally-count_publish is_earn entry_id now g.outbox),
          ),
        ))
        inv
    where
      tried : (g : Saga) → SagaGrows g (record g { outbox = count_publish entry_id now g.outbox })
      tried g = record {
        same_id = refl;
        same_order = refl;
        path = here;
        same_payloads = λ _. refl;
        moves = one_move g _ (counted g entry_id now);
      }
