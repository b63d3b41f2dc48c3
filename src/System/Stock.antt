-- ===== src/System/Stock.antt =====
-- Each operation of the inventory repository keeps the invariant, and makes the state grow.
use native.Mathlib.Nat.{le_refl}
use msa_training.Prelude.{
  String, ◌≡◌, refl, ◌∙◌, Bool, sym, subst, true, some, [], ◌∷◌, eq_refl, arith, includes,
  Bool-cases, inl, inr,
}
use msa_training.Prelude.Int.{ℤ, pos, ◌≤ℤ◌, int_laws}
use msa_training.Mongo.Laws.{update-StoreGrows, update-StoreAll, updated-found, meets-found}
use msa_training.Models.{Inventory}
use msa_training.Backend.{Backend, World}
use msa_training.Persistence.Inventory.{
  may_reserve, may_release, take_stock, return_stock, try_reserve, already_reserved, give_back,
}
use msa_training.System.Listing.{
  includes-append, includes-append_last, includes-append_inv, append-Once,
}
use msa_training.System.Balance.{balance, taken-balance, given-balance}
use msa_training.System.Standing.{
  ordered_quantity, ordered_quantity_lem, HasOrdered, IsUndone, StockOk,
}
use msa_training.System.Invariant.{
  StockGrows, StockGrows-refl, SagaGrows-refl, OrderGrows-refl, Grows, Inv, HasReserved,
  HasReleased,
}
use msa_training.System.Documents.{SagaOk-grows}

take_stock-StockGrows :
    (quantity : ℤ) (id : String) (d : Inventory) → StockGrows d (take_stock quantity id d)
unfolding take_stock
take_stock-StockGrows quantity id d = record {
  reserved = λ x h. includes-append x d.reserved_sagas (id ∷ []) h;
  released = λ x h. h;
}

return_stock-StockGrows :
    (quantity : ℤ) (id : String) (d : Inventory) → StockGrows d (return_stock quantity id d)
unfolding return_stock
return_stock-StockGrows quantity id d = record {
  reserved = λ x h. h;
  released = λ x h. includes-append x d.released_sagas (id ∷ []) h;
}

module _ (b : Backend) where
  take_stock-StockOk :
      (s : b.sagas.Store) (item_id : String) (quantity : ℤ) (id : String) (d : Inventory)
      → may_reserve quantity id d ≡ true
      → HasOrdered b s item_id quantity id
      → StockOk b s item_id d
      → StockOk b s item_id (take_stock quantity id d)
  unfolding take_stock may_reserve
  take_stock-StockOk s item_id quantity id d h o ok =
      let enough : quantity ≤ℤ d.available = ground arith in
      record {
        available_nonneg = omega (int_laws, ok.available_nonneg);
        released_reserved =
            λ x r. includes-append x d.reserved_sagas (id ∷ []) (ok.released_reserved x r);
        reserved_ordered = λ x r. elim (Bool-cases (includes x d.reserved_sagas)) [
          | inl before ↦ ok.reserved_ordered x before
          | inr now ↦
              subst (λ y. (q : ℤ) × HasOrdered b s item_id q y)
                (includes-append_inv x id d.reserved_sagas r now) (quantity, o)
        ];
        reserved_once = append-Once id d.reserved_sagas (ground arith) ok.reserved_once;
        released_once = ok.released_once;
        released_undone = ok.released_undone;
      }

  return_stock-StockOk :
      (s : b.sagas.Store) (item_id : String) (quantity : ℤ) (id : String) (d : Inventory)
      → pos 0 ≤ℤ quantity
      → includes id d.reserved_sagas ≡ true
      → IsUndone b s id
      → may_release id d ≡ true
      → StockOk b s item_id d
      → StockOk b s item_id (return_stock quantity id d)
  unfolding return_stock may_release
  return_stock-StockOk s item_id quantity id d q held undone may ok = record {
    available_nonneg = omega (int_laws, ok.available_nonneg);
    released_reserved = λ x r. elim (Bool-cases (includes x d.released_sagas)) [
      | inl before ↦ ok.released_reserved x before
      | inr now ↦
          subst (λ y. includes y d.reserved_sagas ≡ true)
            (includes-append_inv x id d.released_sagas r now) held
    ];
    reserved_ordered = ok.reserved_ordered;
    reserved_once = ok.reserved_once;
    released_once = append-Once id d.released_sagas (ground arith) ok.released_once;
    released_undone = λ x r. elim (Bool-cases (includes x d.released_sagas)) [
      | inl before ↦ ok.released_undone x before
      | inr now ↦ subst (IsUndone b s) (includes-append_inv x id d.released_sagas r now) undone
    ];
  }

  -- An update of one item that fits the growth of stock, and leaves its balance.
  change_stock-Inv :
      (w : World b) (item_id : String) (p : Inventory → Bool) (f : Inventory → Inventory)
      → ((d : Inventory) → StockGrows d (f d))
      → ((d : Inventory)
          → balance (ordered_quantity b w.sagas) (f d) ≡ balance (ordered_quantity b w.sagas) d)
      → ((d : Inventory)
          → b.inventory.find_one item_id w.inventory ≡ some d
          → p d ≡ true
          → StockOk b w.sagas item_id d
          → StockOk b w.sagas item_id (f d))
      → Inv b w
      → let w' = record w {
        inventory = (b.inventory.find_one_and_update item_id p f w.inventory).1;
      } in
        Inv b w' × Grows b w w'
  change_stock-Inv w item_id p f gr bal ok inv = (
    record {
      sagas = λ j g e. SagaOk-grows b w later j g grown (inv.sagas j g e);
      stock = update-StoreAll b.inventory (StockOk b w.sagas) item_id p f w.inventory ok inv.stock;
    },
    grown,
  )
    where
      later : World b
      later = record w { inventory = (b.inventory.find_one_and_update item_id p f w.inventory).1 }

      grown : Grows b w later
      grown = record {
        sagas = λ j d e. (d, e, SagaGrows-refl d);
        stock =
            update-StoreGrows b.inventory StockGrows StockGrows-refl item_id p f w.inventory
              (λ d _ _. gr d);
        orders = λ j d e. (d, e, OrderGrows-refl d);
        drawn = le_refl w.drawn;
        balanced =
            update-StoreGrows b.inventory
              (λ d d'.
                balance (ordered_quantity b w.sagas) d' ≡ balance (ordered_quantity b w.sagas) d)
              (λ _. refl) item_id p f w.inventory (λ d _ _. bal d);
      }

  -- Only a saga of this item may take of it, as much as it has ordered.
  pub try_reserve-Inv :
      (item_id : String) (quantity : ℤ) (id : String) (w : World b)
      → HasOrdered b w.sagas item_id quantity id
      → Inv b w
      → Inv b (try_reserve b item_id quantity id w).1
        × Grows b w (try_reserve b item_id quantity id w).1
  unfolding try_reserve take_stock
  try_reserve-Inv item_id quantity id w o inv =
      change_stock-Inv w item_id (may_reserve quantity id) (take_stock quantity id)
        (take_stock-StockGrows quantity id)
        (λ d.
          taken-balance (ordered_quantity b w.sagas) d id quantity
            (sym (ordered_quantity_lem b w.sagas item_id quantity id o)))
        (λ d _ h. take_stock-StockOk w.sagas item_id quantity id d h o) inv

  -- A hit has reserved.
  pub try_reserve-HasReserved :
      (item_id : String) (quantity : ℤ) (id : String) (w : World b) (d : Inventory)
      → (try_reserve b item_id quantity id w).0 ≡ some d
      → HasReserved b (try_reserve b item_id quantity id w).1 item_id id
  unfolding try_reserve take_stock
  try_reserve-HasReserved item_id quantity id w d e =
      let (d0, here, hit, value, after) =
        updated-found b.inventory item_id (may_reserve quantity id) (take_stock quantity id)
          w.inventory d e in
      (
        d,
        after,
        subst (λ x. includes id x.reserved_sagas ≡ true) value
            (includes-append_last id d0.reserved_sagas),
      )

  pub already_reserved-HasReserved :
      (item_id id : String) (w : World b)
      → (already_reserved b item_id id w).0 ≡ true
      → HasReserved b w item_id id
  unfolding already_reserved
  already_reserved-HasReserved item_id id w e =
      meets-found (λ d. includes id d.reserved_sagas) (b.inventory.find_one item_id w.inventory)
        (sym (b.inventory.exists-meets item_id (λ d. includes id d.reserved_sagas) w.inventory) ∙ e)

  -- Only what the saga has reserved may be given back, and only once it is compensated.
  pub give_back-Inv :
      (item_id : String) (quantity : ℤ) (id : String) (w : World b)
      → pos 0 ≤ℤ quantity
      → HasReserved b w item_id id
      → HasOrdered b w.sagas item_id quantity id
      → IsUndone b w.sagas id
      → Inv b w
      → Inv b (give_back b item_id quantity id w).1
        × Grows b w (give_back b item_id quantity id w).1
  unfolding give_back return_stock
  give_back-Inv item_id quantity id w q (d0, here, held) o undone inv =
      change_stock-Inv w item_id (may_release id) (return_stock quantity id)
        (return_stock-StockGrows quantity id)
        (λ d.
          given-balance (ordered_quantity b w.sagas) d id quantity
            (sym (ordered_quantity_lem b w.sagas item_id quantity id o)))
        (λ d e h.
          let same : d0 ≡ d = ground arith in
          return_stock-StockOk w.sagas item_id quantity id d q
            (subst (λ x. includes id x.reserved_sagas ≡ true) same held) undone h)
        inv

  -- It has been given back afterwards, now or before.
  pub give_back-HasReleased :
      (item_id : String) (quantity : ℤ) (id : String) (w : World b)
      → HasReserved b w item_id id
      → HasReleased b (give_back b item_id quantity id w).1 item_id id
  unfolding give_back may_release return_stock
  give_back-HasReleased item_id quantity id w (d, here, _) =
      let law =
        b.inventory.find_one-update item_id (may_release id) (return_stock quantity id) w.inventory
          item_id in
      elim (Bool-cases (includes id d.released_sagas)) [
        | inl before ↦ (d, law ∙ rw (eq_refl item_id) (rw here (rw before refl)), before)
        | inr new ↦ (
          return_stock quantity id d,
          law ∙ rw (eq_refl item_id) (rw here (rw new refl)),
          includes-append_last id d.released_sagas,
        )
      ]
