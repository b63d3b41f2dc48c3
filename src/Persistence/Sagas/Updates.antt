-- ===== src/Persistence/Sagas/Updates.antt =====
-- services/order-service/src/infrastructure/persistence/MongoSagaRepository.js: the filters and the
-- update documents, as the functions that they denote.
use msa_training.Prelude.{
  ℕ, suc, ◌+◌, String, Bool, true, false, ◌&&◌, ◌||◌, Option, none, some, List, [], ◌∷◌, ◌++◌, map,
  ◌==◌, ltb, nat_eq, if◌then◌else◌,
}
use msa_training.Saga.State.{
  SagaState, same_state, started, inventory_reserved, payment_charged, compensating,
}
use msa_training.Saga.Contracts.{Queue, StepName, same_step, Message, ReplyData}
use msa_training.Models.{Saga, SagaStep, StepStatus, OutboxEntry, OutboxStatus, is_pending}

-- The options `steps` and `outbox` of a transition. No caller gives a step a deadline.
pub record StepUpdate : Type 0 where
  pub name : StepName
  pub status : StepStatus
  pub reply_data : Option ReplyData

pub record Command : Type 0 where
  pub queue : Queue
  pub message : Message

-- `x || old`, where `x` may be left out
abbrev pub or_else {ℓ} : {A : Type ℓ} → Option A → A → A
or_else none old = old
or_else (some a) old = a

abbrev pub or_else_opt {ℓ} : {A : Type ℓ} → Option A → Option A → Option A
or_else_opt none old = old
or_else_opt (some a) old = some a

-- What one entry of `steps` sets on a step that its array filter names.
unfoldable pub update_step : StepUpdate → SagaStep → SagaStep
update_step u s =
    if same_step s.name u.name
    then record s { status = u.status; reply_data = or_else_opt u.reply_data s.reply_data }
    else s

unfoldable pub update_steps : List StepUpdate → List SagaStep → List SagaStep
unfolding update_step
update_steps [] steps = steps
update_steps (u ∷ us) steps = update_steps us (map (update_step u) steps)

-- The entries of `$each`, their ids drawn from the `n`th uuid on.
unfoldable pub new_entries : (ℕ → String) → ℕ → List Command → List OutboxEntry
new_entries uuid n [] = []
new_entries uuid n (c ∷ cs) =
    record {
      id = uuid n;
      queue = c.queue;
      message = c.message;
      status = OutboxStatus.pending;
      attempts = 0;
      last_attempt_at = none;
    }
    ∷ new_entries uuid (suc n) cs

-- The update document of `compareAndAdvance`.
unfoldable pub advance_saga :
    SagaState → Option StepName → List StepUpdate → List OutboxEntry → Saga → Saga
unfolding update_steps
advance_saga to step updates entries g = record g {
  state = to;
  deadline = none;
  current_step = or_else step g.current_step;
  steps = update_steps updates g.steps;
  outbox = g.outbox ++ entries;
}

-- `{ name, compensateAttempts }`, as the element match and as the array filter
unfoldable pub is_attempt : StepName → ℕ → SagaStep → Bool
is_attempt step attempts s = same_step s.name step && nat_eq s.compensate_attempts attempts

abbrev pub any_attempt : StepName → ℕ → List SagaStep → Bool
any_attempt step attempts [] = false
any_attempt step attempts (s ∷ ss) = is_attempt step attempts s || any_attempt step attempts ss

unfoldable pub may_retry : StepName → ℕ → Saga → Bool
unfolding same_state is_attempt
may_retry step attempts g = same_state g.state compensating && any_attempt step attempts g.steps

unfoldable pub count_attempt : StepName → ℕ → SagaStep → SagaStep
count_attempt step attempts s =
    if is_attempt step attempts s
    then record s { compensate_attempts = s.compensate_attempts + 1 }
    else s

-- The update document of `retryCompensation`.
unfoldable pub retry_saga : StepName → ℕ → List OutboxEntry → Saga → Saga
unfolding count_attempt
retry_saga step attempts entries g = record g {
  deadline = none;
  steps = map (count_attempt step attempts) g.steps;
  outbox = g.outbox ++ entries;
}

-- `'outbox.status': 'PENDING'`
unfoldable pub has_pending : List OutboxEntry → Bool
has_pending [] = false
has_pending (e ∷ es) = is_pending e.status || has_pending es

-- `ACTIVE_STATES`
unfoldable pub is_active : SagaState → Bool
is_active started = true
is_active inventory_reserved = true
is_active payment_charged = true
is_active compensating = true
is_active _ = false

-- `{ deadline: { $lt: now } }` matches no null
abbrev is_past : ℕ → Option ℕ → Bool
is_past now none = false
is_past now (some t) = ltb t now

unfoldable pub is_timed_out : ℕ → Saga → Bool
unfolding is_active
is_timed_out now g = is_active g.state && is_past now g.deadline

abbrev is_entry : String → OutboxEntry → Bool
is_entry entry_id e = e.id == entry_id && is_pending e.status

unfoldable pub has_entry : String → List OutboxEntry → Bool
has_entry entry_id [] = false
has_entry entry_id (e ∷ es) = is_entry entry_id e || has_entry entry_id es

-- `outbox.$`, the first entry that the filter matched
unfoldable pub set_sent : String → ℕ → List OutboxEntry → List OutboxEntry
set_sent entry_id now [] = []
set_sent entry_id now (e ∷ es) =
    if is_entry entry_id e
    then record e { status = OutboxStatus.sent; last_attempt_at = some now } ∷ es
    else e ∷ set_sent entry_id now es

abbrev pub has_id : String → List OutboxEntry → Bool
has_id entry_id [] = false
has_id entry_id (e ∷ es) = e.id == entry_id || has_id entry_id es

unfoldable pub count_publish : String → ℕ → List OutboxEntry → List OutboxEntry
count_publish entry_id now [] = []
count_publish entry_id now (e ∷ es) =
    if e.id == entry_id
    then record e { attempts = e.attempts + 1; last_attempt_at = some now } ∷ es
    else e ∷ count_publish entry_id now es
