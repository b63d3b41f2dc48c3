-- ===== src/Operations/Ordering.antt =====
-- The HTTP statuses of `POST /api/order`.
use msa_training.Prelude.{
  arith, String, ◌≡◌, refl, ap, ◌∙◌, true, false, Option, none, some, ◌==◌, includes, ◌⊎◌, inl, inr,
  Bool-cases,
}
use msa_training.Prelude.Int.{ℤ, pos, leb_ℤ}
use msa_training.Errors.{Error, Result, OrderStatus, ok, err}
use msa_training.Async.{attempt, return, run}
use msa_training.Async.Run.{follow, follow-ok, run->>=, run-attempt}
use msa_training.Models.{Inventory, OrderDoc}
use msa_training.Backend.{Backend, World}
use msa_training.Saga.Orchestrator.{Config, Started, start_order}
use msa_training.Utils.CorrelationId.{normalize_correlation_id}
use msa_training.Interfaces.OrderRoutes.{
  Flow, Response, orchestrated, message, started, order_response, take_order, order_route,
}
use msa_training.Operations.Placement.{start_order_rejects}
use msa_training.Operations.Outcome.{order_placed, order_refused}

module _ (b : Backend) (c : Config) (flow : Flow b) (header : Option String) (item_id : String)
    (quantity price : ℤ) (w : World b) where
  -- Without the header that the gateway sets, or with an empty one, nothing is done.
  anonymous :
      (user : Option String)
      → (user ≡ none) ⊎ (user ≡ some "")
      → run (order_route b c flow user header item_id quantity price) w
        ≡ (ok (record { status = 401; body = message }), w)
  unfolding order_route run
  anonymous none h = refl
  anonymous (some user) (inl e) = absurd (cc e)
  anonymous (some user) (inr e) = let empty : "" ≡ user = ground arith in rw (← empty) refl

  module _ (user_email : String) (user_given : user_email == "" ≡ false) where
    abbrev pub correlated : String × World b
    correlated = normalize_correlation_id b header w

    -- what a request of a user gets
    pub answered : run (order_route b c flow (some user_email) header item_id quantity price) w ≡ (
      ok (
          order_response
            (run
              (take_order b c flow user_email item_id quantity price correlated.0)
              correlated.1).0),
      (run (take_order b c flow user_email item_id quantity price correlated.0) correlated.1).1,
    )
    unfolding order_route run
    answered = rw user_given (
        run->>= (attempt (take_order b c flow user_email item_id quantity price correlated.0)) _
          correlated.1
        ∙ ap (λ x. follow x (λ r. return (order_response r)))
            (run-attempt (take_order b c flow user_email item_id quantity price correlated.0)
              correlated.1))

module _ (b : Backend) (c : Config) (header : Option String) (user_email item_id : String)
    (quantity price : ℤ) where
  -- One of the checks of the domain fails.
  abbrev pub IsInvalid : Type 0
  IsInvalid =
      (leb_ℤ price (pos 0) ≡ true) ⊎ ((item_id == "" ≡ true) ⊎ (leb_ℤ quantity (pos 0) ≡ true))

  rejects :
      (correlation_id : String) (w : World b)
      → IsInvalid
      → (e : Error) × (run (start_order b c user_email item_id quantity price correlation_id) w
          ≡ (err e, w))
  rejects correlation_id w bad =
      let (price_bad, item_bad, quantity_bad, _) =
        start_order_rejects b c user_email item_id quantity price correlation_id w in
      elim (Bool-cases (leb_ℤ price (pos 0))) [
        | inl p ↦ (_, price_bad p)
        | inr p ↦ elim (Bool-cases (item_id == "")) [
          | inl i ↦ (_, item_bad p i)
          | inr i ↦ elim (Bool-cases (leb_ℤ quantity (pos 0))) [
            | inl q ↦ (_, quantity_bad p i q)
            | inr q ↦ absurd (elim bad [ inl x ↦ cc | inr y ↦ elim y [ inl x ↦ cc | inr x ↦ cc ] ])
          ]
        ]
      ]

  module _ (w : World b) (user_given : user_email == "" ≡ false) where
    -- the id that the request goes on with, and the state in which the order is taken
    abbrev pub trace : String
    trace = (normalize_correlation_id b header w).0

    abbrev pub w0 : World b
    w0 = (normalize_correlation_id b header w).1

    abbrev pub taken : Result Response × World b
    taken = run (order_route b c orchestrated (some user_email) header item_id quantity price) w

    same_items : w0.inventory ≡ w.inventory
    unfolding normalize_correlation_id
    same_items = ground arith

    refused_with :
        (e : Error)
        → run (start_order b c user_email item_id quantity price trace) w0 ≡ (err e, w0)
        → taken ≡ (ok (record { status = 500; body = message }), w0)
    unfolding take_order order_response
    refused_with e h =
        let r : run (take_order b c orchestrated user_email item_id quantity price trace) w0
            ≡ (err e, w0) =
          run->>= (start_order b c user_email item_id quantity price trace) _ w0
          ∙ ap (λ x. follow x (λ s. return (started s))) h in
        answered b c orchestrated header item_id quantity price w user_email user_given
        ∙ ap (λ x. (ok (order_response x.0), x.1)) r

    accepted_with :
        (s : Started)
        → (run (start_order b c user_email item_id quantity price trace) w0).0 ≡ ok s
        → taken ≡ (
          ok (record { status = 202; body = started s }),
          (run (start_order b c user_email item_id quantity price trace) w0).1,
        )
    unfolding take_order order_response run
    accepted_with s h =
        let r : run (take_order b c orchestrated user_email item_id quantity price trace) w0 ≡ (
          ok (started s),
          (run (start_order b c user_email item_id quantity price trace) w0).1,
        ) =
          run->>= (start_order b c user_email item_id quantity price trace) _ w0
          ∙ follow-ok _ s _ h in
        answered b c orchestrated header item_id quantity price w user_email user_given
        ∙ ap (λ x. (ok (order_response x.0), x.1)) r

    abbrev pub the_doc : OrderStatus → OrderDoc
    the_doc status = record {
      user_email = user_email;
      item_id = item_id;
      quantity = quantity;
      price = price;
      status = status;
    }

    -- The answer 202, with this status, and the order stored with it.
    abbrev pub IsTaken : OrderStatus → Type 0
    IsTaken status =
        (order_id : String) × (taken.0
          ≡ ok (record {
            status = 202;
            body =
                started (record {
                  order_id = order_id;
                  saga_id = b.random_uuid w0.drawn;
                  status = status;
                });
          }))
        × (b.orders.find_one order_id taken.1.orders ≡ some (the_doc status))

    -- The order route with the orchestrator: 401 without a user, or with an empty one, and the whole
    -- state stays as it was. For a request with a user: 500 for a price that is not
    -- positive, no item or a quantity that is not positive, and the state is as the correlation id
    -- left it, which draws a uuid at most; 202 with PENDING for a valid order of an item that has
    -- enough left and does not list the saga's id, and 202 also for one of an item that has too
    -- little left, but with FAILED; the order is stored with the status of the answer.
    pub order_route_lem :
        ((user : Option String)
          → (user ≡ none) ⊎ (user ≡ some "")
          → run (order_route b c orchestrated user header item_id quantity price) w
            ≡ (ok (record { status = 401; body = message }), w))
        × (IsInvalid → taken ≡ (ok (record { status = 500; body = message }), w0))
        × ((d : Inventory)
            → leb_ℤ price (pos 0) ≡ false
            → leb_ℤ quantity (pos 0) ≡ false
            → item_id == "" ≡ false
            → b.inventory.find_one item_id w.inventory ≡ some d
            → includes (b.random_uuid w0.drawn) d.reserved_sagas ≡ false
            → (leb_ℤ quantity d.available ≡ true → IsTaken OrderStatus.pending)
              × (leb_ℤ quantity d.available ≡ false → IsTaken OrderStatus.failed))
    order_route_lem = (
      anonymous b c orchestrated header item_id quantity price w,
      λ bad. let (e, h) = rejects trace w0 bad in refused_with e h,
      λ d price_good quantity_good item_given item new.
          let item0 = ap (b.inventory.find_one item_id) same_items ∙ item in
          (
            λ enough.
                let (order_id, _, answer, order, _, _, _, _, _) =
                  order_placed b c user_email item_id quantity price trace w0 d price_good
                    quantity_good item_given user_given item0 new enough in
                let result = accepted_with _ answer in
                (
                  order_id,
                  ap (λ r. r.0) result,
                  ap (λ r. b.orders.find_one order_id r.1.orders) result ∙ order,
                ),
            λ short.
                let (order_id, _, answer, order, _, _, _) =
                  order_refused b c user_email item_id quantity price trace w0 d price_good
                    quantity_good item_given user_given item0 new short in
                let result = accepted_with _ answer in
                (
                  order_id,
                  ap (λ r. r.0) result,
                  ap (λ r. b.orders.find_one order_id r.1.orders) result ∙ order,
                ),
          ),
    )
