-- ===== src/Tests/Transitions.antt =====
-- The transitions of the saga of an order at the shop.
use msa_training.Prelude.{arith, ℕ, ◌≡◌, refl, false, Option, none, some, [], ◌∷◌, ◌++◌}
use msa_training.Prelude.Int.{pos}
use msa_training.Saga.State.{
  inventory_reserved, payment_charged, compensating, same_state, can_transition, transitions,
}
use msa_training.Saga.Contracts.{payment, points}
use msa_training.Models.{Saga, StepStatus}
use msa_training.Backend.{World}
use msa_training.Persistence.Sagas.{
  cas, new_entries, is_timed_out, advance_saga, retry_cas, is_attempt,
}
use msa_training.Saga.Orchestrator.{new_saga, update, refund_command}
use msa_training.Saga.State.Path.{is_final}
use msa_training.System.Requests.{serve}
use msa_training.System.Invariant.{Inv, holds_stock}
use msa_training.System.Advance.{cas_held-Inv, other-Unmarking}
use msa_training.Tests.Guarantees.{after_order-Inv}
use msa_training.Operations.Same.{Same}
use msa_training.Operations.Transition.{transition_won_once}
use msa_training.Operations.Retry.{retry_once}
use msa_training.Tests.Store.{letters, lookup}
use msa_training.Tests.Shop.{
  shop, opening, config, relay_config, times, an_order, after_order, run_shop,
}

unfoldable pub the_saga : Saga
unfolding after_order run_shop
the_saga = elim (lookup (letters 0) after_order.sagas) [
  | none ↦ new_saga "" "" "" "" (pos 0) (pos 0) "" 0
  | some g ↦ g
]

-- The charge and the refusal of the same payment

abbrev charged : Option Saga × World shop
charged =
    cas shop (letters 0) inventory_reserved payment_charged (some points)
      (update payment StepStatus.done ∷ []) [] after_order

abbrev charged_saga : Saga
unfolding the_saga after_order run_shop
charged_saga =
    advance_saga payment_charged (some points) (update payment StepStatus.done ∷ []) [] the_saga

charged-Inv : Inv shop charged.1
unfolding can_transition transitions same_state holds_stock is_final
charged-Inv =
    (cas_held-Inv shop (letters 0) inventory_reserved payment_charged (some points)
      (update payment StepStatus.done ∷ []) [] after_order refl (omega arith) refl refl
      (other-Unmarking _ refl) after_order-Inv).0

transition_won_once_example :
    let later = serve shop config relay_config (an_order ∷ []) (times 6 0 []) charged.1 in
    ((cas shop
        (letters 0)
        inventory_reserved
        compensating
        none
        (update payment StepStatus.failed ∷ [])
        []
        later).0
      ≡ none)
    × Same shop later
        (cas shop
          (letters 0)
          inventory_reserved
          compensating
          none
          (update payment StepStatus.failed ∷ [])
          []
          later).1
unfolding charged_saga the_saga after_order run_shop can_transition transitions
transition_won_once_example =
    transition_won_once shop config relay_config (an_order ∷ []) (times 6 0 []) (letters 0)
      inventory_reserved payment_charged compensating (some points) none
      (update payment StepStatus.done ∷ []) (update payment StepStatus.failed ∷ []) [] []
      after_order charged_saga refl refl charged-Inv

-- A refund that is retried

abbrev refunding : Saga
unfolding new_saga
refunding =
    record (new_saga (letters 0) (letters 1) "ann@example.com" "pen" (pos 2) (pos 20) "trace" 0) {
      state = compensating;
    }

abbrev in_refund : World shop
in_refund = record opening { sagas = (letters 0, refunding) ∷ [] }

retry_once_example :
    let (first, w') =
      retry_cas shop (letters 0) payment 0 (refund_command refunding none ∷ []) in_refund in
    let (second, w'') =
      retry_cas shop (letters 0) payment 0 (refund_command refunding none ∷ []) w' in
    (g' : Saga) × (first ≡ some g')
    × (shop.sagas.find_one (letters 0) w'.sagas ≡ some g')
    × (g'.state ≡ compensating)
    × (g'.outbox ≡ refunding.outbox ++ new_entries letters 0 (refund_command refunding none ∷ []))
    × ((now : ℕ) → is_timed_out now g' ≡ false)
    × (second ≡ none)
    × Same shop w' w''
unfolding refunding new_saga is_attempt
retry_once_example =
    retry_once shop (letters 0) payment 0 (refund_command refunding none ∷ [])
      (refund_command refunding none ∷ []) in_refund refunding refl refl refl
