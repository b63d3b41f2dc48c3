-- ===== src/Saga/State.antt =====
-- services/order-service/src/saga/SagaState.js: the states and the table of allowed transitions.
pub mod Path
use Prim.Native.Nat.{compare, Ordering}
use msa_training.Prelude.{ℕ, Bool, true, false, ◌||◌, List, [], ◌∷◌, ◌≡◌, ◌↔◌, if◌then◌else◌, arith}
use msa_training.Errors.{Result, ok, err, invalid_transition}

pub data SagaState : Type 0 where
  started inventory_reserved payment_charged points_earned : SagaState
  completed compensating failed compensation_failed : SagaState

-- The source compares the states' names, which differ; here the states' numbers.
abbrev index : SagaState → ℕ
index started = 0
index inventory_reserved = 1
index payment_charged = 2
index points_earned = 3
index completed = 4
index compensating = 5
index failed = 6
index compensation_failed = 7

unfoldable pub same_state : SagaState → SagaState → Bool
same_state s t = elim (compare (index s) (index t)) [ Ordering.eq ↦ true | _ ↦ false ]

abbrev contains : SagaState → List SagaState → Bool
contains t [] = false
contains t (s ∷ ss) = same_state s t || contains t ss

-- `TRANSITIONS`
unfoldable pub transitions : SagaState → List SagaState
transitions started = inventory_reserved ∷ failed ∷ []
transitions inventory_reserved = payment_charged ∷ compensating ∷ []
transitions payment_charged = points_earned ∷ compensating ∷ completed ∷ []
transitions points_earned = completed ∷ []
transitions compensating = failed ∷ compensation_failed ∷ []
transitions completed = []
transitions failed = []
transitions compensation_failed = failed ∷ []

unfoldable pub can_transition : SagaState → SagaState → Bool
unfolding transitions same_state
can_transition from to = contains to (transitions from)

unfoldable pub assert_transition : SagaState → SagaState → Result (Unit {0})
unfolding can_transition
assert_transition from to = if can_transition from to then ok tt else err invalid_transition

pub same_state_iff : (s t : SagaState) → (same_state s t ≡ true) ↔ (s ≡ t)
unfolding same_state
same_state_iff s t = ground arith
