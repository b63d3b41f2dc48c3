-- ===== src/Saga/State/Path.antt =====
-- Paths through the transition table of SagaState.js.
use msa_training.Prelude.{ℕ, suc, ◌+◌, ◌≤◌, ◌<◌, Bool, true, false, ◌≡◌, refl, arith}
use msa_training.Saga.State.{
  SagaState, started, inventory_reserved, payment_charged, points_earned, completed, compensating,
  failed, compensation_failed, transitions, can_transition, same_state,
}

-- `Leads s t`: the table has a way from `s` to `t`, of any number of transitions.
pub data Leads (s : SagaState) : SagaState → Type 0 where
  here : Leads s s
  next : {t u : SagaState} → Leads s t → can_transition t u ≡ true → Leads s u

pub Leads-trans : {s t u : SagaState} → Leads s t → Leads t u → Leads s u
Leads-trans p here = p
Leads-trans p (next q e) = next (Leads-trans p q) e

-- The saga ends here.
unfoldable pub is_final : SagaState → Bool
is_final completed = true
is_final failed = true
is_final _ = false

can_transition-is_final : (s t : SagaState) → is_final s ≡ true → can_transition s t ≡ true → s ≡ t
unfolding is_final can_transition
can_transition-is_final s t f e = ground arith

pub Leads-is_final : {s t : SagaState} → Leads s t → is_final s ≡ true → t ≡ s
Leads-is_final here f = refl
Leads-is_final {s} (next {t} {u} p e) f =
    let back : t ≡ s = Leads-is_final p f in ground (arith, can_transition-is_final s u f)

-- The states from COMPENSATING on.
unfoldable pub is_compensated : SagaState → Bool
is_compensated compensating = true
is_compensated failed = true
is_compensated compensation_failed = true
is_compensated _ = false

can_transition-is_compensated :
    (s t : SagaState)
    → is_compensated s ≡ true
    → can_transition s t ≡ true
    → is_compensated t ≡ true
unfolding is_compensated can_transition transitions same_state
can_transition-is_compensated s t f e = ground arith

-- There is no way back.
pub Leads-is_compensated :
    {s t : SagaState} → Leads s t → is_compensated s ≡ true → is_compensated t ≡ true
Leads-is_compensated here f = f
Leads-is_compensated (next {t} {u} p e) f =
    can_transition-is_compensated t u (Leads-is_compensated p f) e

-- How far along the table a state stands.
unfoldable pub rank : SagaState → ℕ
rank started = 0
rank inventory_reserved = 1
rank payment_charged = 2
rank points_earned = 3
rank compensating = 3
rank compensation_failed = 4
rank completed = 5
rank failed = 5

pub can_transition-rank : (s t : SagaState) → can_transition s t ≡ true → rank s < rank t
unfolding rank can_transition transitions same_state
can_transition-rank s t e = ground arith

-- The number of transitions of a path.
abbrev pub steps : {s t : SagaState} → Leads s t → ℕ
steps here = 0
steps (next p e) = suc (steps p)

pub Leads-rank : {s t : SagaState} (p : Leads s t) → steps p + rank s ≤ rank t
Leads-rank here = omega arith
Leads-rank (next {t} {u} p e) = omega (arith, Leads-rank p, can_transition-rank t u e)

rank-bound : (s : SagaState) → rank s ≤ 5
unfolding rank
rank-bound s = ground arith

-- A saga ends: no path through the table has more than five transitions.
sagas_end : {s t : SagaState} (p : Leads s t) → steps p ≤ 5
sagas_end {s} {t} p = omega (arith, Leads-rank p, rank-bound t)
