-- ===== src/System/Commands.antt =====
-- How often a saga's outbox asks for its payment, and for its points.
use msa_training.Prelude.{
  ℕ, suc, ◌+◌, ◌≤◌, String, ◌≡◌, refl, ap, ◌∙◌, Bool, true, false, List, [], ◌∷◌, ◌++◌, arith,
  if◌then◌else◌,
}
use msa_training.Saga.State.{
  SagaState, started, inventory_reserved, can_transition, transitions, same_state,
}
use msa_training.Saga.Contracts.{Msg}
use msa_training.Models.{OutboxEntry}
use msa_training.Persistence.Sagas.{Command, new_entries, set_sent, count_publish}

abbrev pub is_charge : Msg → Bool
is_charge Msg.charge = true
is_charge _ = false

abbrev pub is_earn : Msg → Bool
is_earn Msg.earn = true
is_earn _ = false

module _ (p : Msg → Bool) where
  -- The entries of an outbox, and the commands of a transition, that are of a type.
  unfoldable pub tally : List OutboxEntry → ℕ
  tally [] = 0
  tally (e ∷ es) = if p e.message.type then suc (tally es) else tally es

  abbrev pub tally_commands : List Command → ℕ
  tally_commands [] = 0
  tally_commands (c ∷ cs) = if p c.message.type then suc (tally_commands cs) else tally_commands cs

  tally-append : (xs ys : List OutboxEntry) → tally (xs ++ ys) ≡ tally xs + tally ys
  unfolding tally
  tally-append [] ys = omega arith
  tally-append (x ∷ xs) ys = ground (arith, tally-append xs ys)

  tally-new_entries :
      (uuid : ℕ → String) (n : ℕ) (cs : List Command)
      → tally (new_entries uuid n cs) ≡ tally_commands cs
  unfolding tally new_entries
  tally-new_entries uuid n [] = refl
  tally-new_entries uuid n (c ∷ cs) = ground (arith, tally-new_entries uuid (suc n) cs)

  pub tally-set_sent :
      (entry_id : String) (now : ℕ) (es : List OutboxEntry)
      → tally (set_sent entry_id now es) ≡ tally es
  unfolding tally set_sent
  tally-set_sent entry_id now [] = refl
  tally-set_sent entry_id now (e ∷ es) = ground (arith, tally-set_sent entry_id now es)

  pub tally-count_publish :
      (entry_id : String) (now : ℕ) (es : List OutboxEntry)
      → tally (count_publish entry_id now es) ≡ tally es
  unfolding tally count_publish
  tally-count_publish entry_id now [] = refl
  tally-count_publish entry_id now (e ∷ es) = ground (arith, tally-count_publish entry_id now es)

  tally-more :
      (uuid : ℕ → String) (n : ℕ) (es : List OutboxEntry) (cs : List Command)
      → tally (es ++ new_entries uuid n cs) ≡ tally es + tally_commands cs
  tally-more uuid n es cs =
      tally-append es (new_entries uuid n cs) ∙ ap (λ k. tally es + k) (tally-new_entries uuid n cs)

-- How often a saga may have asked for its payment by this state, and for its points.
abbrev pub charge_limit : SagaState → ℕ
charge_limit started = 0
charge_limit _ = 1

abbrev pub earn_limit : SagaState → ℕ
earn_limit started = 0
earn_limit inventory_reserved = 0
earn_limit _ = 1

abbrev pub Asked : SagaState → List OutboxEntry → Type 0
Asked s es = (tally is_charge es ≤ charge_limit s) × (tally is_earn es ≤ earn_limit s)

-- What a transition with these commands may add.
abbrev pub Affords : SagaState → SagaState → List Command → Type 0
Affords from to cs =
    (charge_limit from + tally_commands is_charge cs ≤ charge_limit to)
    × (earn_limit from + tally_commands is_earn cs ≤ earn_limit to)

pub more-Asked :
    (from to : SagaState) (uuid : ℕ → String) (n : ℕ) (es : List OutboxEntry) (cs : List Command)
    → Affords from to cs
    → Asked from es
    → Asked to (es ++ new_entries uuid n cs)
more-Asked from to uuid n es cs a h = (
  omega (arith, tally-more is_charge uuid n es cs),
  omega (arith, tally-more is_earn uuid n es cs),
)

-- A transition of the table without commands asks for nothing.
pub none-Affords : (from to : SagaState) → can_transition from to ≡ true → Affords from to []
unfolding can_transition transitions same_state
none-Affords from to t = ground arith
