-- ===== src/System/Snapshot.antt =====
-- What a handler knows of the saga that it has read, while others go on.
use msa_training.Prelude.{
  String, ◌≡◌, refl, ◌∙◌, sym, subst, true, Option, none, some, List, [], ◌∷◌, arith,
}
use msa_training.Prelude.Int.{ℤ, pos, ◌≤ℤ◌}
use msa_training.Async.{Async, ◌>>=◌}
use msa_training.Async.Logic.{Triple, Triple-throw}
use msa_training.Mongo.Laws.{updated-found}
use msa_training.Saga.State.{SagaState, same_state, same_state_iff}
use msa_training.Saga.Contracts.{StepName, inventory, Payload, stock, invoice, award, repayment}
use msa_training.Models.{Saga, SagaStep}
use msa_training.Backend.{Backend, World}
use msa_training.Persistence.Sagas.{StepUpdate, Command, advance_saga, new_entries, cas}
use msa_training.Saga.Orchestrator.{find_step, or_type_error, step_of, stock_of, amount_of}
use msa_training.Saga.State.Path.{is_compensated, Leads-is_compensated}
use msa_training.System.Standing.{HasOrdered, IsUndone}
use msa_training.System.Invariant.{
  payload_at, holds_stock, SagaGrows, SagaGrows-refl, SagaGrows-trans, Grows, Inv, HasReserved,
  HasReserved-grows, IsOrdered, IsOrdered-grows,
}

find_step-payload_at :
    (n : StepName) (ss : List SagaStep) (s : SagaStep)
    → find_step n ss ≡ some s
    → payload_at n ss ≡ some s.payload
unfolding find_step payload_at
find_step-payload_at n [] s e = absurd (cc e)
find_step-payload_at n (x ∷ ss) s e = ground (arith, find_step-payload_at n ss s)

module _ (b : Backend) where
  -- The saga `g` was stored in some earlier state; it is there still, grown.
  pub record Seen (g : Saga) (w : World b) : Type 0 where
    pub stored : Saga
    pub found : b.sagas.find_one g.saga_id w.sagas ≡ some stored
    pub grown : SagaGrows g stored
    pub item_id : String
    pub quantity : ℤ
    pub payload : payload_at inventory g.steps ≡ some (stock item_id quantity)
    pub quantity_nonneg : pos 0 ≤ℤ quantity
    pub reserved : holds_stock g.state ≡ true → HasReserved b w item_id g.saga_id
    pub ordered : IsOrdered b w g.order_id

  pub Seen-grows : (g : Saga) (u v : World b) → Seen g u → Grows b u v → Seen g v
  Seen-grows g u v s gr =
      let (g', e, r) = gr.sagas g.saga_id s.stored s.found in
      record {
        stored = g';
        found = e;
        grown = SagaGrows-trans g s.stored g' s.grown r;
        item_id = s.item_id;
        quantity = s.quantity;
        payload = s.payload;
        quantity_nonneg = s.quantity_nonneg;
        reserved = λ h. HasReserved-grows b u v s.item_id g.saga_id gr (s.reserved h);
        ordered = IsOrdered-grows b u v g.order_id gr s.ordered;
      }

  -- What a query has returned has been seen.
  pub found-Seen :
      (id : String) (g : Saga) (w : World b)
      → Inv b w
      → b.sagas.find_one id w.sagas ≡ some g
      → Seen g w
  found-Seen id g w inv e =
      let ok = inv.sagas id g e in
      record {
        stored = g;
        found = subst (λ j. b.sagas.find_one j w.sagas ≡ some g) (sym ok.keyed) e;
        grown = SagaGrows-refl g;
        item_id = ok.item_id;
        quantity = ok.quantity;
        payload = ok.payload;
        quantity_nonneg = ok.quantity_nonneg;
        reserved = λ h. subst (HasReserved b w ok.item_id) (sym ok.keyed) (ok.reserved h);
        ordered = ok.ordered;
      }

  -- It is known by what its first step names, and by how far it was.
  pub Seen-HasOrdered :
      (g : Saga) (w : World b) (item_id : String) (quantity : ℤ)
      → Seen g w
      → payload_at inventory g.steps ≡ some (stock item_id quantity)
      → HasOrdered b w.sagas item_id quantity g.saga_id
  Seen-HasOrdered g w item_id quantity s e =
      (s.stored, s.found, s.grown.same_payloads inventory ∙ e)

  pub Seen-IsUndone :
      (g : Saga) (w : World b)
      → Seen g w
      → is_compensated g.state ≡ true
      → IsUndone b w.sagas g.saga_id
  Seen-IsUndone g w s h = (s.stored, s.found, Leads-is_compensated s.grown.path h)

  -- Whoever has made a transition has seen the saga in its new state.
  pub cas-IsUndone :
      (id : String) (from to : SagaState) (step : Option StepName) (us : List StepUpdate)
      (cs : List Command) (w : World b) (g' : Saga)
      → is_compensated to ≡ true
      → (cas b id from to step us cs w).0 ≡ some g'
      → IsUndone b (cas b id from to step us cs w).1.sagas id
  unfolding cas advance_saga
  cas-IsUndone id from to step us cs w g' h e =
      let (d, _, _, value, after) =
        updated-found b.sagas id (λ x. same_state x.state from)
          (advance_saga to step us (new_entries b.random_uuid w.drawn cs)) w.sagas g' e in
      (g', after, subst (λ x. is_compensated x.state ≡ true) value h)

  -- Whoever has made a transition out of a state with stock knows that the stock is reserved.
  pub cas-HasReserved :
      (g : Saga) (from to : SagaState) (step : Option StepName) (us : List StepUpdate)
      (cs : List Command) (w : World b) (g' : Saga) (s : Seen g w)
      → holds_stock from ≡ true
      → Inv b w
      → (cas b g.saga_id from to step us cs w).0 ≡ some g'
      → HasReserved b w s.item_id g.saga_id
  unfolding cas
  cas-HasReserved g from to step us cs w g' s held inv e =
      let (d, here, hit, _, _) =
        updated-found b.sagas g.saga_id (λ x. same_state x.state from)
          (advance_saga to step us (new_entries b.random_uuid w.drawn cs)) w.sagas g' e in
      let ok = inv.sagas g.saga_id d here in
      let same : d ≡ s.stored = ground (arith, s.found) in
      let payload : payload_at inventory d.steps ≡ some (stock s.item_id s.quantity) =
        subst (λ x. payload_at inventory x.steps ≡ some (stock s.item_id s.quantity)) (sym same)
          (s.grown.same_payloads inventory ∙ s.payload) in
      let item : ok.item_id ≡ s.item_id = ground (arith, ok.payload) in
      subst (λ i. HasReserved b w i g.saga_id) item
        (ok.reserved
          (subst (λ x. holds_stock x ≡ true) (sym ((same_state_iff d.state from).0 hit)) held))

module _ {S : Type 0} {Inv : S → Type 0} {Grows : S → S → Type 0} {T : S → Type 0}
    (t : (s : S) → T s) {A : Type 0} {P : S → Type 0} {U : A → S → Type 0} where
  or_type_error-Triple :
      (o : Option SagaStep) (f : SagaStep → Async S A)
      → ((s : SagaStep) → o ≡ some s → Triple Inv Grows (f s) P U T)
      → Triple Inv Grows (or_type_error o >>= f) P U T
  or_type_error-Triple none f h = Triple-throw (λ s _ _. t s)
  or_type_error-Triple (some s) f h = h s refl

  pub step_of-Triple :
      (n : StepName) (g : Saga) (f : SagaStep → Async S A)
      → ((s : SagaStep) → payload_at n g.steps ≡ some s.payload → Triple Inv Grows (f s) P U T)
      → Triple Inv Grows (step_of n g >>= f) P U T
  step_of-Triple n g f h =
      or_type_error-Triple (find_step n g.steps) f (λ s e. h s (find_step-payload_at n g.steps s e))

  pub stock_of-Triple :
      (p : Payload) (f : String × ℤ → Async S A)
      → ((item_id : String) (quantity : ℤ)
          → p ≡ stock item_id quantity
          → Triple Inv Grows (f (item_id, quantity)) P U T)
      → Triple Inv Grows (stock_of p >>= f) P U T
  stock_of-Triple (stock item_id quantity) f h = h item_id quantity refl
  stock_of-Triple (invoice _ _) f h = Triple-throw (λ s _ _. t s)
  stock_of-Triple (award _ _) f h = Triple-throw (λ s _ _. t s)
  stock_of-Triple (repayment _ _) f h = Triple-throw (λ s _ _. t s)

  pub amount_of-Triple :
      (p : Payload) (f : ℤ → Async S A)
      → ((amount : ℤ) → Triple Inv Grows (f amount) P U T)
      → Triple Inv Grows (amount_of p >>= f) P U T
  amount_of-Triple (invoice _ amount) f h = h amount
  amount_of-Triple (stock _ _) f h = Triple-throw (λ s _ _. t s)
  amount_of-Triple (award _ _) f h = Triple-throw (λ s _ _. t s)
  amount_of-Triple (repayment _ _) f h = Triple-throw (λ s _ _. t s)
