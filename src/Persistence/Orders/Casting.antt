-- ===== src/Persistence/Orders/Casting.antt =====
-- The queries of src/infrastructure/persistence/MongoOrderRepository.js, by what mongoose casts the
-- `_id` of their filters to.
use msa_training.Prelude.{String, ◌≡◌, refl, ap, Option, none, some, arith}
use msa_training.Errors.{OrderStatus, err, cast_error}
use msa_training.Async.{Async, await, call, run, ◌>>=◌}
use msa_training.Async.Logic.{Triple, Triple-throw}
use msa_training.Models.{OrderDoc}
use msa_training.Backend.{Backend, World}
use msa_training.Persistence.Orders.{or_cast_error, set_status, update_status}

module _ (b : Backend) where
  module _ {A B : Type 0} (op : String → World b → B × World b) (f : B → Async (World b) A) where
    -- A query whose `_id` is cast is the operation on what it is cast to.
    pub run-cast :
        (o : Option String) (key : String) (w : World b)
        → o ≡ some key
        → run (or_cast_error b o >>= (λ k. call (op k)) >>= f) w ≡ run (f (op key w).0) (op key w).1
    unfolding run
    run-cast none key w e = absurd (cc e)
    run-cast (some k) key w e =
        let same : k ≡ key = ground arith in ap (λ x. run (f (op x w).0) (op x w).1) same

    -- Any other throws, before anything has changed.
    pub run-uncast :
        (o : Option String) (w : World b)
        → o ≡ none
        → run (or_cast_error b o >>= (λ k. call (op k)) >>= f) w ≡ (err cast_error, w)
    unfolding run
    run-uncast none w e = refl
    run-uncast (some k) w e = absurd (cc e)

    pub cast-Triple :
        {Inv : World b → Type 0} {Grows : World b → World b → Type 0} {P T : World b → Type 0}
        {Q : A → World b → Type 0} (o : Option String)
        → ((w : World b) → P w → T w)
        → ((key : String) → o ≡ some key → Triple Inv Grows (await (op key) f) P Q T)
        → Triple Inv Grows (or_cast_error b o >>= (λ k. call (op k)) >>= f) P Q T
    cast-Triple none h t = Triple-throw (λ w _ p. h w p)
    cast-Triple (some key) h t = t key refl

  -- `updateStatus` of an order that is stored.
  pub run-update_status :
      {A : Type 0} (order_id : String) (status : OrderStatus)
      (f : Option OrderDoc → Async (World b) A) (w : World b) (s : b.orders.Store) (o : OrderDoc)
      → b.orders.find_one order_id s ≡ some o
      → run (update_status b order_id status >>= f) w
        ≡ run (f (set_status b order_id status w).0) (set_status b order_id status w).1
  unfolding update_status
  run-update_status order_id status f w s o e =
      run-cast (λ key. set_status b key status) f (b.cast_id order_id) order_id w
        (b.cast-stored order_id s o e)
