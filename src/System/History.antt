-- ===== src/System/History.antt =====
-- What the moves of a saga's document do to its commands.
pub mod Retries
use native.Mathlib.Nat.{le_refl, le_trans}
use msa_training.Prelude.{
  ℕ, ◌+◌, ◌≤◌, String, ◌≡◌, refl, sym, ap, ◌∙◌, Bool, true, false, ◌||◌, ◌&&◌, List, [], ◌∷◌, ◌++◌,
  map, some, none, Option, ◌==◌, Bool-cases, inl, inr, arith,
}
use msa_training.Saga.State.{
  SagaState, started, inventory_reserved, payment_charged, points_earned, completed, compensating,
  failed, compensation_failed, can_transition, same_state_iff,
}
use msa_training.Saga.Contracts.{StepName, Message, Queue}
use msa_training.Models.{Saga, SagaStep, OutboxEntry, OutboxStatus, is_pending}
use msa_training.Persistence.Sagas.{
  advance_saga, retry_saga, may_retry, set_sent, count_publish, StepUpdate, update_step,
  update_steps, count_attempt,
}
use msa_training.System.Moves.{
  Move, Moves, transition, retried, published, armed, counted, still, then_move, Born, born,
  History,
}

-- A command as it was, published or tried again perhaps: what was SENT stays SENT.
pub record Succeeds (e e' : OutboxEntry) : Type 0 where
  pub same_id : e'.id ≡ e.id
  pub same_queue : e'.queue ≡ e.queue
  pub same_message : e'.message ≡ e.message
  pub sent : is_pending e.status ≡ false → is_pending e'.status ≡ false
  pub tried : e.attempts ≤ e'.attempts

-- Every command of the first outbox stands at its place in the second one.
abbrev pub Outlives : List OutboxEntry → List OutboxEntry → Type 0
Outlives [] _ = Unit {0}
Outlives (e ∷ es) [] = ⊥
Outlives (e ∷ es) (e' ∷ es') = Succeeds e e' × Outlives es es'

Succeeds-refl : (e : OutboxEntry) → Succeeds e e
Succeeds-refl e = record {
  same_id = refl;
  same_queue = refl;
  same_message = refl;
  sent = λ h. h;
  tried = le_refl e.attempts;
}

Succeeds-trans : (d e f : OutboxEntry) → Succeeds d e → Succeeds e f → Succeeds d f
Succeeds-trans d e f p q = record {
  same_id = q.same_id ∙ p.same_id;
  same_queue = q.same_queue ∙ p.same_queue;
  same_message = q.same_message ∙ p.same_message;
  sent = λ h. q.sent (p.sent h);
  tried = le_trans p.tried q.tried;
}

Outlives-refl : (es : List OutboxEntry) → Outlives es es
Outlives-refl [] = tt
Outlives-refl (e ∷ es) = (Succeeds-refl e, Outlives-refl es)

Outlives-trans : (ds es fs : List OutboxEntry) → Outlives ds es → Outlives es fs → Outlives ds fs
Outlives-trans [] es fs p q = tt
Outlives-trans (d ∷ ds) (e ∷ es) (f ∷ fs) p q =
    (Succeeds-trans d e f p.0 q.0, Outlives-trans ds es fs p.1 q.1)
Outlives-trans (d ∷ ds) [] fs p q = absurd p
Outlives-trans (d ∷ ds) (e ∷ es) [] p q = absurd q

Outlives-append : (es new : List OutboxEntry) → Outlives es (es ++ new)
Outlives-append [] new = tt
Outlives-append (e ∷ es) new = (Succeeds-refl e, Outlives-append es new)

-- The two changes that a relay makes to a command.
published-Succeeds :
    (e : OutboxEntry) (now : ℕ)
    → Succeeds e (record e { status = OutboxStatus.sent; last_attempt_at = some now })
published-Succeeds e now = record {
  same_id = refl;
  same_queue = refl;
  same_message = refl;
  sent = λ _. refl;
  tried = le_refl e.attempts;
}

counted-Succeeds :
    (e : OutboxEntry) (now : ℕ)
    → Succeeds e (record e { attempts = e.attempts + 1; last_attempt_at = some now })
counted-Succeeds e now = record {
  same_id = refl;
  same_queue = refl;
  same_message = refl;
  sent = λ h. h;
  tried = omega arith;
}

set_sent-Outlives :
    (id : String) (now : ℕ) (es : List OutboxEntry) → Outlives es (set_sent id now es)
unfolding set_sent
set_sent-Outlives id now [] = tt
set_sent-Outlives id now (e ∷ es) = elim (Bool-cases (e.id == id && is_pending e.status)) [
  | inl hit ↦ rw hit (published-Succeeds e now, Outlives-refl es)
  | inr miss ↦ rw miss (Succeeds-refl e, set_sent-Outlives id now es)
]

count_publish-Outlives :
    (id : String) (now : ℕ) (es : List OutboxEntry) → Outlives es (count_publish id now es)
unfolding count_publish
count_publish-Outlives id now [] = tt
count_publish-Outlives id now (e ∷ es) = elim (Bool-cases (e.id == id)) [
  | inl hit ↦ rw hit (counted-Succeeds e now, Outlives-refl es)
  | inr miss ↦ rw miss (Succeeds-refl e, count_publish-Outlives id now es)
]

Move-Outlives : (g h : Saga) → Move g h → Outlives g.outbox h.outbox
unfolding advance_saga retry_saga
Move-Outlives g _ (transition _ to step us entries t) = Outlives-append g.outbox entries
Move-Outlives g _ (retried _ step n entries t) = Outlives-append g.outbox entries
Move-Outlives g _ (published _ id now t) = set_sent-Outlives id now g.outbox
Move-Outlives g _ (armed _ step deadline t) = Outlives-refl g.outbox
Move-Outlives g _ (counted _ id now) = count_publish-Outlives id now g.outbox

pub Moves-Outlives : (g h : Saga) → Moves g h → Outlives g.outbox h.outbox
Moves-Outlives g _ (still _) = Outlives-refl g.outbox
Moves-Outlives f _ (then_move _ g h p m) =
    Outlives-trans f.outbox g.outbox h.outbox (Moves-Outlives f g p) (Move-Outlives g h m)
