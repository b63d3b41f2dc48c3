-- ===== src/System/Undoing.antt =====
-- The compensation of a saga as the handlers make it: its stock is given back, its order ends, and
-- only then is it marked and failed.
use msa_training.Prelude.{String, ◌≡◌, refl, ◌∙◌, ap, sym, subst, true, Option, some, List, arith}
use msa_training.Prelude.Int.{ℤ}
use msa_training.Errors.{OrderStatus}
use msa_training.Async.{Async, await, ◌>>=◌, ◌>>◌}
use msa_training.Async.Logic.{Triple-step, Triple-await}
use msa_training.Saga.State.{SagaState, failed, can_transition}
use msa_training.Saga.Contracts.{StepName, inventory, stock}
use msa_training.Models.{Saga, StepStatus}
use msa_training.Backend.{Backend, World}
use msa_training.Persistence.Sagas.{StepUpdate, Command, cas}
use msa_training.Persistence.Orders.{set_status, update_status}
use msa_training.Persistence.Orders.Casting.{cast-Triple}
use msa_training.Persistence.Inventory.{release, give_back}
use msa_training.Saga.Orchestrator.{step_of, stock_of}
use msa_training.System.Invariant.{
  payload_at, Grows, HasReleased, HasReleased-grows, IsSettled, IsSettled-grows,
}
use msa_training.System.Standing.{IsUndone, IsUndone-grows}
use msa_training.System.Steps.{status_after}
use msa_training.System.Commands.{Affords}
use msa_training.System.Advance.{cas_undoes-Inv}
use msa_training.System.Stock.{give_back-Inv, give_back-HasReleased}
use msa_training.System.Orders.{set_status-Inv, set_status-Closes}
use msa_training.System.Snapshot.{
  Seen, Seen-grows, Seen-HasOrdered, step_of-Triple, stock_of-Triple,
}
use msa_training.System.Rules.{Keeps, HoldsStock, HoldsStock-grows, Seen-nonneg}

module _ (b : Backend) where
  -- What has to be known before the saga's stock is given back: it was reserved, and the saga is
  -- compensated.
  abbrev pub MayGive : Saga → World b → Type 0
  MayGive g w = HoldsStock b g w × IsUndone b w.sagas g.saga_id

  pub MayGive-grows : (g : Saga) (u v : World b) → Grows b u v → MayGive g u → MayGive g v
  MayGive-grows g u v gr (h, n) =
      (HoldsStock-grows b g u v gr h, IsUndone-grows b u.sagas v.sagas gr.sagas g.saga_id n)

  -- What the answer to a transition out of a state with stock lets one know.
  abbrev pub Won : Saga → Option Saga → World b → Type 0
  Won g o w = Seen b g w × ((g' : Saga) → o ≡ some g' → MayGive g w)

  -- The item that the saga's first step names lists the saga as one that has given back.
  abbrev GaveBack : Saga → World b → Type 0
  GaveBack g w =
      (item_id : String) (quantity : ℤ)
      → payload_at inventory g.steps ≡ some (stock item_id quantity)
      → HasReleased b w item_id g.saga_id

  abbrev pub Returned : Saga → World b → Type 0
  Returned g w = Seen b g w × GaveBack g w

  Returned-grows : (g : Saga) (u v : World b) → Returned g u → Grows b u v → Returned g v
  Returned-grows g u v (s, h) gr = (
    Seen-grows b g u v s gr,
    λ item_id quantity e. HasReleased-grows b u v item_id g.saga_id gr (h item_id quantity e),
  )

  -- And its order has ended.
  abbrev pub Closed : Saga → World b → Type 0
  Closed g w = Returned g w × IsSettled b w g.order_id

  Closed-grows : (g : Saga) (u v : World b) → Closed g u → Grows b u v → Closed g v
  Closed-grows g u v (h, e) gr = (Returned-grows g u v h gr, IsSettled-grows b u v g.order_id gr e)

  pub release-Safe :
      {A : Type 0} (g : Saga) (f : Async (World b) A)
      → Keeps b f (Returned g) (λ _ _. Unit {0})
      → Keeps b
          (step_of inventory g >>= λ s.
            stock_of s.payload >>= λ p. release b p.0 p.1 g.saga_id >> f)
          (λ w. Seen b g w × MayGive g w)
          (λ _ _. Unit {0})
  unfolding release
  release-Safe g f t =
      step_of-Triple (λ _. tt) inventory g _
        λ s e.
          stock_of-Triple (λ _. tt) s.payload _
            λ item_id quantity p.
              let at : payload_at inventory g.steps ≡ some (stock item_id quantity) =
                e ∙ ap some p in
              Triple-await _ _ (λ _. Returned g)
                (λ w i h.
                  let (i', gr) =
                    give_back-Inv b item_id quantity g.saga_id w
                      (Seen-nonneg b g w item_id quantity h.0 at) (h.1.0 item_id quantity at)
                      (Seen-HasOrdered b g w item_id quantity h.0 at) h.1.1 i in
                  let back =
                    give_back-HasReleased b item_id quantity g.saga_id w
                      (h.1.0 item_id quantity at) in
                  (
                    i',
                    gr,
                    λ u gr'.
                        Returned-grows g _ u
                          (
                            Seen-grows b g w _ h.0 gr,
                            λ item quantity' at'.
                                let same : item_id ≡ item = ground (arith, at) in
                                subst
                                  (λ j.
                                    HasReleased b (give_back b item_id quantity g.saga_id w).1 j
                                      g.saga_id)
                                  same back,
                          )
                          gr',
                  ))
                (λ _. t)

  -- Ending the order.
  pub close-Safe :
      {A : Type 0} (g : Saga) (k : Async (World b) A)
      → Keeps b k (Closed g) (λ _ _. Unit {0})
      → Keeps b (update_status b g.order_id OrderStatus.failed >> k) (Returned g) (λ _ _. Unit {0})
  unfolding update_status
  close-Safe g k t =
      cast-Triple b (λ key. set_status b key OrderStatus.failed) (λ _. k) (b.cast_id g.order_id)
        (λ _ _. tt)
        (λ key cast.
          Triple-await _ _ (λ _. Closed g)
            (λ w i h.
              let (i', gr) = set_status-Inv b key OrderStatus.failed w i in
              (
                i',
                gr,
                λ u gr'.
                    Closed-grows g _ u
                      (
                        Returned-grows g w _ h gr,
                        set_status-Closes b g.order_id key OrderStatus.failed w refl cast
                            h.0.ordered,
                      )
                      gr',
              ))
            (λ _. t))

  -- Failing the saga.
  pub cas_undoes-Safe :
      {A : Type 0} (g : Saga) (from : SagaState) (step : Option StepName) (us : List StepUpdate)
      (cs : List Command) (k : Option Saga → Async (World b) A)
      → can_transition from failed ≡ true
      → Affords from failed cs
      → ((status : StepStatus)
          → status_after inventory us (some status) ≡ some StepStatus.compensated)
      → ((o : Option Saga) → Keeps b (k o) (Closed g) (λ _ _. Unit {0}))
      → Keeps b (await (cas b g.saga_id from failed step us cs) k) (Closed g) (λ _ _. Unit {0})
  cas_undoes-Safe g from step us cs k t affords marking =
      Triple-step _ k (Closed-grows g) (λ w i ((s, back), over).
        cas_undoes-Inv b g.saga_id from step us cs w t affords marking
          (λ g' item_id quantity e at.
            let same : s.stored ≡ g' = ground (arith, s.found) in
            (
              back item_id quantity (
                  sym (s.grown.same_payloads inventory)
                  ∙ subst (λ x. payload_at inventory x.steps ≡ some (stock item_id quantity))
                      (sym same) at),
              subst (IsSettled b w) (sym s.grown.same_order ∙ ap (λ x. x.order_id) same) over,
            ))
          i)
