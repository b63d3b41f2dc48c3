-- ===== src/Operations/Callback.antt =====
-- `updateStatus` and `processPaymentCallback`, by the order that is stored.
use msa_training.Prelude.{
  String, ◌≡◌, refl, ap, subst, sym, ◌∙◌, true, false, Option, none, some, ◌==◌, Bool-cases, inl,
  inr, if◌then◌else◌, arith,
}
use msa_training.Errors.{
  OrderStatus, Error, ok, err, invalid_payment_status, order_not_found, order_already_processed,
  cast_error,
}
use msa_training.Async.{run}
use msa_training.Mongo.{meets}
use msa_training.Mongo.Branches.{update-missed, update-met}
use msa_training.Models.{OrderDoc, is_pending_order}
use msa_training.Backend.{Backend, World}
use msa_training.Persistence.Orders.{find_order, set_status, update_status, find_by_id}
use msa_training.Persistence.Orders.Casting.{run-cast, run-uncast}
use msa_training.Application.OrderService.{
  is_allowed, new_status, explain, answer, process_payment_callback,
}
use msa_training.Operations.Same.{Same}

module _ (b : Backend) where
  pub set_status-lost :
      (order_id : String) (status : OrderStatus) (w : World b)
      → meets (λ o. is_pending_order o.status) (b.orders.find_one order_id w.orders) ≡ false
      → ((set_status b order_id status w).0 ≡ none) × Same b w (set_status b order_id status w).1
  unfolding set_status
  set_status-lost order_id status w h =
      let (nothing, as_was) =
        update-missed b.orders order_id (λ o. is_pending_order o.status)
          (λ o. record o { status = status }) w.orders h in
      (
        nothing,
        record {
          sagas = λ _. refl;
          orders = as_was;
          inventory = λ _. refl;
          clock = refl;
          broker = refl;
          alerts = refl;
        },
      )

  pub callback_denied :
      (payment_status order_id : String) (w : World b)
      → is_allowed payment_status ≡ false
      → run (process_payment_callback b order_id payment_status) w ≡ (err invalid_payment_status, w)
  unfolding process_payment_callback run
  callback_denied payment_status order_id w denied = rw denied refl

  -- A text that is no ObjectId makes the first query throw.
  pub callback_uncast :
      (order_id payment_status : String) (w : World b)
      → is_allowed payment_status ≡ true
      → b.cast_id order_id ≡ none
      → run (process_payment_callback b order_id payment_status) w ≡ (err cast_error, w)
  unfolding process_payment_callback update_status
  callback_uncast order_id payment_status w allowed none_such = rw allowed (
      run-uncast b (λ k. set_status b k (new_status payment_status)) (answer b order_id)
        (b.cast_id order_id) w none_such)

  module _ (order_id key : String) (cast : b.cast_id order_id ≡ some key) where
    abbrev why : Option OrderDoc → Error
    why none = order_not_found
    why (some o) = order_already_processed o.status

    runs_explain :
        (found : Option OrderDoc) (v : World b) → run (explain b found) v ≡ (err (why found), v)
    unfolding explain run
    runs_explain none v = refl
    runs_explain (some o) v = refl

    runs_answer :
        (updated : Option OrderDoc) (v : World b)
        → updated ≡ none
        → run (answer b order_id updated) v ≡ (err (why (b.orders.find_one key v.orders)), v)
    unfolding answer find_by_id run
    runs_answer none v e =
        run-cast b (find_order b) (explain b) (b.cast_id order_id) key v cast
        ∙ runs_explain (b.orders.find_one key v.orders) v
    runs_answer (some o) v e = absurd (cc e)

    answers_status :
        (updated : Option OrderDoc) (v : World b) (o : OrderDoc)
        → updated ≡ some o
        → run (answer b order_id updated) v ≡ (ok o.status, v)
    unfolding answer run
    answers_status none v o e = absurd (cc e)
    answers_status (some o') v o e = let same : o' ≡ o = ground arith in rw same refl

    runs_callback :
        (payment_status : String) (w : World b)
        → is_allowed payment_status ≡ true
        → let step = set_status b key (new_status payment_status) w in
          run (process_payment_callback b order_id payment_status) w
          ≡ run (answer b order_id step.0) step.1
    unfolding process_payment_callback update_status
    runs_callback payment_status w h = rw h (
        run-cast b (λ k. set_status b k (new_status payment_status)) (answer b order_id)
          (b.cast_id order_id) key w cast)

    callback_lost :
        (payment_status : String) (w : World b)
        → is_allowed payment_status ≡ true
        → meets (λ o. is_pending_order o.status) (b.orders.find_one key w.orders) ≡ false
        → let (result, w') = run (process_payment_callback b order_id payment_status) w in
          (result ≡ err (why (b.orders.find_one key w.orders))) × Same b w w'
    callback_lost payment_status w allowed h =
        let (nothing, as_was) = set_status-lost key (new_status payment_status) w h in
        let result = runs_callback payment_status w allowed ∙ runs_answer _ _ nothing in
        (
          ap (λ r. r.0) result ∙ ap (λ x. err (why x)) (as_was.orders key),
          subst (Same b w) (ap (λ r. r.1) (sym result)) as_was,
        )

    pub callback_won :
        (payment_status : String) (w : World b) (o : OrderDoc)
        → is_allowed payment_status ≡ true
        → b.orders.find_one key w.orders ≡ some o
        → o.status ≡ OrderStatus.pending
        → let (result, w') = run (process_payment_callback b order_id payment_status) w in
          (result ≡ ok (new_status payment_status))
          × (b.orders.find_one key w'.orders
              ≡ some (record o { status = new_status payment_status }))
    unfolding set_status
    callback_won payment_status w o allowed e pending =
        let (hit, stored, _) =
          update-met b.orders key (λ x. is_pending_order x.status)
            (λ x. record x { status = new_status payment_status }) w.orders o e (rw pending refl) in
        let result = runs_callback payment_status w allowed ∙ answers_status _ _ _ hit in
        (ap (λ r. r.0) result, ap (λ r. b.orders.find_one key r.1.orders) result ∙ stored)

    new_status-ended :
        (payment_status : String) → is_pending_order (new_status payment_status) ≡ false
    unfolding new_status
    new_status-ended payment_status = elim (Bool-cases (payment_status == "COMPLETED")) [
      | inl e ↦ rw e refl
      | inr e ↦ rw e refl
    ]

    -- The callback settles a pending order: with a status that is COMPLETED or FAILED it answers
    -- SUCCESS or FAILED, the order has that status afterwards, and a second callback of any allowed
    -- status is refused with it and changes no document.
    callback_once :
        (payment_status again : String) (w : World b) (o : OrderDoc)
        → is_allowed payment_status ≡ true
        → is_allowed again ≡ true
        → b.orders.find_one key w.orders ≡ some o
        → o.status ≡ OrderStatus.pending
        → let settled =
            if payment_status == "COMPLETED" then OrderStatus.success else OrderStatus.failed in
          let (result, w') = run (process_payment_callback b order_id payment_status) w in
          let (result', w'') = run (process_payment_callback b order_id again) w' in
          (result ≡ ok settled)
          × (b.orders.find_one key w'.orders ≡ some (record o { status = settled }))
          × (result' ≡ err (order_already_processed settled))
          × Same b w' w''
    unfolding new_status
    callback_once payment_status again w o allowed allowed' e pending =
        let (result, stored) = callback_won payment_status w o allowed e pending in
        let w' = (run (process_payment_callback b order_id payment_status) w).1 in
        let (refused, as_was) =
          callback_lost again w' allowed' (rw stored (new_status-ended payment_status)) in
        (result, stored, refused ∙ ap (λ x. err (why x)) stored, as_was)

    -- The callback's refusals, each of which changes no document: an order that is not stored, and one
    -- that is no longer PENDING.
    pub callback_refuses :
        (payment_status : String) (w : World b)
        → let found = b.orders.find_one key w.orders in
          let (result, w') = run (process_payment_callback b order_id payment_status) w in
          (is_allowed payment_status ≡ true
            → found ≡ none
            → (result ≡ err order_not_found) × Same b w w')
          × ((o : OrderDoc)
              → is_allowed payment_status ≡ true
              → found ≡ some o
              → is_pending_order o.status ≡ false
              → (result ≡ err (order_already_processed o.status)) × Same b w w')
    callback_refuses payment_status w = (
      λ allowed e.
          let (result, as_was) = callback_lost payment_status w allowed (rw e refl) in
          (result ∙ ap (λ x. err (why x)) e, as_was),
      λ o allowed e ended.
          let (result, as_was) = callback_lost payment_status w allowed (rw e ended) in
          (result ∙ ap (λ x. err (why x)) e, as_was),
    )
