-- ===== src/System/Rules.antt =====
-- The operations of the repositories as the handlers use them: what must be known before, and what
-- is known afterwards whatever others do.
use msa_training.Prelude.{
  String, ◌≡◌, refl, subst, Bool, true, false, Option, none, some, List, arith,
}
use msa_training.Prelude.Int.{ℤ, pos, ◌≤ℤ◌}
use msa_training.Errors.{OrderStatus}
use msa_training.Async.{Async, return, await, ◌>>◌}
use msa_training.Async.Logic.{Triple, Triple-return, Triple-step, Triple-await}
use msa_training.Saga.State.{SagaState, can_transition}
use msa_training.Saga.Contracts.{StepName, inventory, stock}
use msa_training.Models.{Saga, Inventory}
use msa_training.Backend.{Backend, World}
use msa_training.Persistence.Sagas.{StepUpdate, Command, cas}
use msa_training.Persistence.Orders.{set_status, update_status}
use msa_training.Persistence.Orders.Casting.{cast-Triple}
use msa_training.Persistence.Inventory.{reserve, try_reserve, already_reserved, reserved_or_again}
use msa_training.System.Invariant.{
  payload_at, holds_stock, Grows, Grows-refl, Inv, HasReserved, HasReserved-grows,
}
use msa_training.Saga.State.Path.{is_final}
use msa_training.System.Commands.{Affords}
use msa_training.System.Advance.{Unmarking, cas_held-Inv}
use msa_training.System.Stock.{
  try_reserve-Inv, try_reserve-HasReserved, already_reserved-HasReserved,
}
use msa_training.System.Orders.{set_status-Inv}
use msa_training.System.Standing.{HasOrdered}
use msa_training.System.Snapshot.{Seen, Seen-grows}

module _ (b : Backend) where
  abbrev pub Keeps :
      {A : Type 0} → Async (World b) A → (World b → Type 0) → (A → World b → Type 0) → Type 0
  Keeps m P Q = Triple (Inv b) (Grows b) m P Q (λ _. Unit {0})

  -- Begun at a saga that was read.
  abbrev pub Safe : {A : Type 0} → Saga → Async (World b) A → Type 0
  Safe g m = Keeps m (Seen b g) (λ _ _. Unit {0})

  pub done : {P : World b → Type 0} → Keeps (return tt) P (λ _ _. Unit {0})
  done = Triple-return (λ _ _ _. tt)

  module _ (item_id : String) (quantity : ℤ) (id : String) {P : World b → Type 0}
      (keep : (u v : World b) → P u → Grows b u v → P v)
      (ordered : (w : World b) → P w → HasOrdered b w.sagas item_id quantity id) where
    -- What is known after `reserve` has answered.
    abbrev pub Answered : Bool → World b → Type 0
    Answered r w = P w × (r ≡ true → HasReserved b w item_id id)

    AfterTry : Option Inventory → World b → Type 0
    AfterTry o w = P w × ((d : Inventory) → o ≡ some d → HasReserved b w item_id id)

    again : (o : Option Inventory) → Keeps (reserved_or_again b item_id id o) (AfterTry o) Answered
    unfolding AfterTry already_reserved
    again (some d) = Triple-return (λ w _ p. (p.0, λ _. p.1 d refl))
    again none =
        Triple-await (already_reserved b item_id id) return Answered
          (λ w i p. (
            i,
            Grows-refl b w,
            λ u g. (
              keep w u p.0 g,
              λ e.
                  HasReserved-grows b w u item_id id g
                    (already_reserved-HasReserved b item_id id w e),
            ),
          ))
          (λ r. Triple-return (λ _ _ h. h))

    pub reserve-Keeps : Keeps (reserve b item_id quantity id) P Answered
    unfolding reserve AfterTry already_reserved
    reserve-Keeps =
        Triple-await (try_reserve b item_id quantity id) _ AfterTry
          (λ w i p.
            let (i', gr) = try_reserve-Inv b item_id quantity id w (ordered w p) i in
            (
              i',
              gr,
              λ u g. (
                keep _ u (keep w _ p gr) g,
                λ d e.
                    HasReserved-grows b _ u item_id id g
                      (try_reserve-HasReserved b item_id quantity id w d e),
              ),
            ))
          again

  pub cas_held-Safe :
      {A : Type 0} (g : Saga) (from to : SagaState) (step : Option StepName) (us : List StepUpdate)
      (cs : List Command) (k : Option Saga → Async (World b) A)
      → can_transition from to ≡ true
      → Affords from to cs
      → holds_stock from ≡ true
      → is_final to ≡ false
      → Unmarking us
      → ((o : Option Saga) → Safe g (k o))
      → Safe g (await (cas b g.saga_id from to step us cs) k)
  cas_held-Safe g from to step us cs k t affords held goes_on unmarking =
      Triple-step _ k (Seen-grows b g)
        (λ w i _. cas_held-Inv b g.saga_id from to step us cs w t affords held goes_on unmarking i)

  pub set_status-Safe :
      {A : Type 0} (g : Saga) (status : OrderStatus) (k : Async (World b) A)
      → Safe g k
      → Safe g (update_status b g.order_id status >> k)
  unfolding update_status
  set_status-Safe g status k t =
      cast-Triple b (λ key. set_status b key status) (λ _. k) (b.cast_id g.order_id) (λ _ _. tt)
        (λ key _.
          Triple-step _ _ (Seen-grows b g) (λ w i _. set_status-Inv b key status w i) (λ _. t))

  -- The item that the saga's first step names lists the saga as one that has reserved.
  abbrev pub HoldsStock : Saga → World b → Type 0
  HoldsStock g w =
      (item_id : String) (quantity : ℤ)
      → payload_at inventory g.steps ≡ some (stock item_id quantity)
      → HasReserved b w item_id g.saga_id

  pub HoldsStock-grows : (g : Saga) (u v : World b) → Grows b u v → HoldsStock g u → HoldsStock g v
  HoldsStock-grows g u v gr h =
      λ item_id quantity e. HasReserved-grows b u v item_id g.saga_id gr (h item_id quantity e)

  pub Seen-HoldsStock :
      (g : Saga) (w : World b) (s : Seen b g w)
      → HasReserved b w s.item_id g.saga_id
      → HoldsStock g w
  Seen-HoldsStock g w s h = λ item_id quantity e.
      let same : s.item_id ≡ item_id = ground (arith, s.payload) in
      subst (λ i. HasReserved b w i g.saga_id) same h

  pub Seen-nonneg :
      (g : Saga) (w : World b) (item_id : String) (quantity : ℤ)
      → Seen b g w
      → payload_at inventory g.steps ≡ some (stock item_id quantity)
      → pos 0 ≤ℤ quantity
  Seen-nonneg g w item_id quantity s e =
      let same : s.quantity ≡ quantity = ground (arith, s.payload) in
      subst (λ q. pos 0 ≤ℤ q) same s.quantity_nonneg
