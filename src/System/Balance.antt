-- ===== src/System/Balance.antt =====
-- What is available of an item, taken together with what sagas have taken of it and not given back.
use msa_training.Prelude.{String, ◌≡◌, refl, true, List, [], ◌∷◌, ◌++◌, includes, eq_refl, arith}
use msa_training.Prelude.Int.{ℤ, pos, ◌+ℤ◌, ◌-ℤ◌, int_laws, eq_of_parts}
use msa_training.Models.{Inventory}

-- `q` is the quantity of each saga's order.
module _ (q : String → ℤ) where
  abbrev pub total : List String → ℤ
  total [] = pos 0
  total (id ∷ ids) = q id +ℤ total ids

  -- What is available, with what has been reserved and not been given back.
  abbrev pub balance : Inventory → ℤ
  balance d = (d.available +ℤ total d.reserved_sagas) -ℤ total d.released_sagas

  total-append : (ids : List String) (id : String) → total (ids ++ id ∷ []) ≡ total ids +ℤ q id
  total-append [] id = eq_of_parts _ _ (omega int_laws)
  total-append (x ∷ ids) id = rw (total-append ids id) (eq_of_parts _ _ (omega int_laws))

  pub taken-balance :
      (d : Inventory) (id : String) (quantity : ℤ)
      → quantity ≡ q id
      → balance (record d {
        available = d.available -ℤ quantity;
        reserved_sagas = d.reserved_sagas ++ id ∷ [];
      })
        ≡ balance d
  taken-balance d id quantity e =
      rw (e, total-append d.reserved_sagas id) (eq_of_parts _ _ (omega int_laws))

  pub given-balance :
      (d : Inventory) (id : String) (quantity : ℤ)
      → quantity ≡ q id
      → balance (record d {
        available = d.available +ℤ quantity;
        released_sagas = d.released_sagas ++ id ∷ [];
      })
        ≡ balance d
  given-balance d id quantity e =
      rw (e, total-append d.released_sagas id) (eq_of_parts _ _ (omega int_laws))

module _ (q q' : String → ℤ) where
  total-same :
      (ids : List String)
      → ((id : String) → includes id ids ≡ true → q' id ≡ q id)
      → total q' ids ≡ total q ids
  total-same [] h = refl
  total-same (x ∷ ids) h =
      rw (h x (rw (eq_refl x) refl), total-same ids (λ id e. h id (ground arith))) refl

  -- It is a matter of the listed sagas' quantities.
  pub balance-same :
      (d : Inventory)
      → ((id : String) → includes id d.reserved_sagas ≡ true → q' id ≡ q id)
      → ((id : String) → includes id d.released_sagas ≡ true → q' id ≡ q id)
      → balance q' d ≡ balance q d
  balance-same d h k = rw (total-same d.reserved_sagas h, total-same d.released_sagas k) refl
