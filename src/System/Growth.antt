-- ===== src/System/Growth.antt =====
-- How the stored documents grow: what every step of every computation keeps of them.
use msa_training.Prelude.{
  String, ◌≡◌, refl, ◌∙◌, Bool, true, false, Option, none, some, List, [], ◌∷◌, if◌then◌else◌,
  includes,
}
use msa_training.Saga.State.{SagaState, started, failed}
use msa_training.Saga.State.Path.{Leads, here, Leads-trans}
use msa_training.Saga.Contracts.{StepName, same_step, Payload}
use msa_training.Models.{Saga, SagaStep, StepStatus, Inventory, OrderDoc, is_pending_order}
use msa_training.System.Moves.{Moves, still, Moves-trans}

-- The payload of the first step of that name.
unfoldable pub payload_at : StepName → List SagaStep → Option Payload
payload_at name [] = none
payload_at name (s ∷ ss) = if same_step s.name name then some s.payload else payload_at name ss

-- The status of the first step of that name.
unfoldable pub status_at : StepName → List SagaStep → Option StepStatus
status_at name [] = none
status_at name (s ∷ ss) = if same_step s.name name then some s.status else status_at name ss

-- The states of a saga that has taken stock and not ended.
unfoldable pub holds_stock : SagaState → Bool
holds_stock started = false
holds_stock failed = false
holds_stock _ = true

pub record SagaGrows (g g' : Saga) : Type 0 where
  pub same_id : g'.saga_id ≡ g.saga_id
  pub same_order : g'.order_id ≡ g.order_id
  pub path : Leads g.state g'.state
  pub same_payloads : (n : StepName) → payload_at n g'.steps ≡ payload_at n g.steps
  pub moves : Moves g g'

pub record StockGrows (d d' : Inventory) : Type 0 where
  pub reserved :
      (id : String) → includes id d.reserved_sagas ≡ true → includes id d'.reserved_sagas ≡ true
  pub released :
      (id : String) → includes id d.released_sagas ≡ true → includes id d'.released_sagas ≡ true

-- An order that has ended stays as it ended.
pub record OrderGrows (o o' : OrderDoc) : Type 0 where
  pub final : is_pending_order o.status ≡ false → o'.status ≡ o.status

pub SagaGrows-refl : (g : Saga) → SagaGrows g g
SagaGrows-refl g = record {
  same_id = refl;
  same_order = refl;
  path = here;
  same_payloads = λ _. refl;
  moves = still g;
}

pub SagaGrows-trans : (f g h : Saga) → SagaGrows f g → SagaGrows g h → SagaGrows f h
SagaGrows-trans f g h p q = record {
  same_id = q.same_id ∙ p.same_id;
  same_order = q.same_order ∙ p.same_order;
  path = Leads-trans p.path q.path;
  same_payloads = λ n. q.same_payloads n ∙ p.same_payloads n;
  moves = Moves-trans f g h p.moves q.moves;
}

pub StockGrows-refl : (d : Inventory) → StockGrows d d
StockGrows-refl d = record { reserved = λ _ h. h; released = λ _ h. h }

pub OrderGrows-refl : (o : OrderDoc) → OrderGrows o o
OrderGrows-refl o = record { final = λ _. refl }
