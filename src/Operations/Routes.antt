-- ===== src/Operations/Routes.antt =====
-- The HTTP statuses of `POST /api/order/callback` and `POST /api/order`.
use msa_training.Prelude.{
  String, ◌≡◌, refl, ap, subst, sym, ◌∙◌, true, false, Option, none, some, ◌==◌, eq_refl, eq_iff,
  ◌≢◌, ◌⊎◌, inl, inr, arith,
}
use msa_training.Errors.{OrderStatus, ok}
use msa_training.Async.{attempt, return, run}
use msa_training.Async.Run.{follow, run->>=, run-attempt}
use msa_training.Models.{OrderDoc, is_pending_order}
use msa_training.Backend.{Backend, World}
use msa_training.Saga.Orchestrator.{Config}
use msa_training.Application.OrderService.{is_allowed, new_status, process_payment_callback}
use msa_training.Interfaces.OrderRoutes.{
  Response, message, updated, current_status, error_response, callback_response, callback_route,
}
use msa_training.Operations.Same.{Same, Same-refl}
use msa_training.Operations.Callback.{
  callback_won, callback_refuses, callback_denied, callback_uncast,
}

-- The payment service's two words, and the order's status that each asks for.
abbrev pub Asks : String → OrderStatus → Type 0
Asks payment_status status =
    ((payment_status ≡ "COMPLETED") × (status ≡ OrderStatus.success))
    ⊎ ((payment_status ≡ "FAILED") × (status ≡ OrderStatus.failed))

abbrev respond_updated : OrderStatus → Response
respond_updated status = record { status = 200; body = updated status }

module _ (b : Backend) (c : Config) (key order_id payment_status : String) (w : World b) where
  -- what a request with the right key gets
  answered : run (callback_route b c key (some key) order_id payment_status) w ≡ (
    ok (callback_response (run (process_payment_callback b order_id payment_status) w).0),
    (run (process_payment_callback b order_id payment_status) w).1,
  )
  unfolding callback_route run
  answered = rw (eq_refl key) (
      run->>= (attempt (process_payment_callback b order_id payment_status)) _ w
      ∙ ap (λ x. follow x (λ r. return (callback_response r)))
          (run-attempt (process_payment_callback b order_id payment_status) w))

  keyless :
      (other : Option String)
      → ((k : String) → other ≡ some k → k == key ≡ false)
      → run (callback_route b c key other order_id payment_status) w
        ≡ (ok (record { status = 403; body = message }), w)
  unfolding callback_route run
  keyless none h = refl
  keyless (some k) h = rw (h k refl) refl

  allowed_of :
      (status : OrderStatus) → Asks payment_status status → is_allowed payment_status ≡ true
  unfolding is_allowed
  allowed_of status (inl (e, _)) = rw e refl
  allowed_of status (inr (e, _)) = rw e refl

  new_status_of :
      (status : OrderStatus) → Asks payment_status status → new_status payment_status ≡ status
  unfolding new_status
  new_status_of status (inl (e, s)) = rw e (sym s)
  new_status_of status (inr (e, s)) = rw e (sym s)

  denied_of :
      payment_status ≢ "COMPLETED" → payment_status ≢ "FAILED" → is_allowed payment_status ≡ false
  unfolding is_allowed
  denied_of not_completed not_failed =
      ground (arith, eq_iff payment_status "COMPLETED", eq_iff payment_status "FAILED")

  -- The callback's statuses: without the internal key, or with another one, 403, and the whole state
  -- stays as it was. With it, 400 for a payment status that is neither COMPLETED nor FAILED; and for
  -- one of the two, 500 for an order id that mongoose cannot cast, with the whole state as it was,
  -- 404 for one that is cast to an id that is not stored, 409 with the order's status for an order
  -- that is no longer PENDING, and 200 for a pending order, which then has the status SUCCESS or
  -- FAILED that the answer names. 400, 404 and 409 change no document.
  pub callback_route_lem :
      let (result, w') = run (callback_route b c key (some key) order_id payment_status) w in
      ((other : Option String)
        → ((k : String) → other ≡ some k → k == key ≡ false)
        → run (callback_route b c key other order_id payment_status) w
          ≡ (ok (record { status = 403; body = message }), w))
      × (payment_status ≢ "COMPLETED"
          → payment_status ≢ "FAILED"
          → (result ≡ ok (record { status = 400; body = message })) × Same b w w')
      × ((status : OrderStatus)
          → Asks payment_status status
          → b.cast_id order_id ≡ none
          → (result ≡ ok (record { status = 500; body = message })) × (w' ≡ w))
      × ((status : OrderStatus) (id : String)
          → Asks payment_status status
          → b.cast_id order_id ≡ some id
          → b.orders.find_one id w.orders ≡ none
          → (result ≡ ok (record { status = 404; body = message })) × Same b w w')
      × ((status : OrderStatus) (id : String) (o : OrderDoc)
          → Asks payment_status status
          → b.cast_id order_id ≡ some id
          → b.orders.find_one id w.orders ≡ some o
          → is_pending_order o.status ≡ false
          → (result ≡ ok (record { status = 409; body = current_status o.status })) × Same b w w')
      × ((status : OrderStatus) (id : String) (o : OrderDoc)
          → Asks payment_status status
          → b.cast_id order_id ≡ some id
          → b.orders.find_one id w.orders ≡ some o
          → o.status ≡ OrderStatus.pending
          → (result ≡ ok (record { status = 200; body = updated status }))
            × (b.orders.find_one id w'.orders ≡ some (record o { status = status })))
  unfolding callback_response error_response
  callback_route_lem =
      let answer = ap (λ r. r.0) answered in
      let after = ap (λ r. r.1) answered in
      (
        keyless,
        λ n m.
            let e = callback_denied b payment_status order_id w (denied_of n m) in
            (
              answer ∙ ap (λ r. ok (callback_response r.0)) e,
              subst (Same b w) (sym (after ∙ ap (λ r. r.1) e)) (Same-refl b w),
            ),
        λ s asks h.
            let e = callback_uncast b order_id payment_status w (allowed_of s asks) h in
            (answer ∙ ap (λ r. ok (callback_response r.0)) e, after ∙ ap (λ r. r.1) e),
        λ s id asks cast f.
            let (unknown, _) = callback_refuses b order_id id cast payment_status w in
            let (e, same) = unknown (allowed_of s asks) f in
            (answer ∙ ap (λ r. ok (callback_response r)) e, subst (Same b w) (sym after) same),
        λ s id o asks cast f p.
            let (_, settled) = callback_refuses b order_id id cast payment_status w in
            let (e, same) = settled o (allowed_of s asks) f p in
            (answer ∙ ap (λ r. ok (callback_response r)) e, subst (Same b w) (sym after) same),
        λ s id o asks cast f p.
            let (e, stored) =
              callback_won b order_id id cast payment_status w o (allowed_of s asks) f p in
            let new = new_status_of s asks in
            (
              answer ∙ ap (λ r. ok (callback_response r)) e ∙ ap (λ x. ok (respond_updated x)) new,
              ap (λ x. b.orders.find_one id x.orders) after
                  ∙ stored
                  ∙ ap (λ x. some (record o { status = x })) new,
            ),
      )
