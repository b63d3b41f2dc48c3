-- ===== src/System/Listing.antt =====
-- Lists of sagas' ids, as an item's document holds them.
use msa_training.Prelude.{
  String, ◌≡◌, refl, true, false, List, [], ◌∷◌, ◌++◌, eq_iff, eq_refl, arith, includes, Bool-cases,
  inl, inr,
}

-- Nobody is listed twice.
abbrev pub Once : List String → Type 0
Once [] = Unit {0}
Once (x ∷ xs) = (includes x xs ≡ false) × Once xs

pub includes-append :
    (x : String) (xs ys : List String) → includes x xs ≡ true → includes x (xs ++ ys) ≡ true
includes-append x [] ys h = absurd (cc h)
includes-append x (z ∷ xs) ys h = ground (arith, includes-append x xs ys)

pub includes-append_last : (x : String) (xs : List String) → includes x (xs ++ x ∷ []) ≡ true
includes-append_last x [] = rw (eq_refl x)
includes-append_last x (z ∷ xs) = ground (arith, includes-append_last x xs)

-- Who is in a list with one more is in the list or is that one.
pub includes-append_inv :
    (x y : String) (xs : List String)
    → includes x (xs ++ y ∷ []) ≡ true
    → includes x xs ≡ false
    → y ≡ x
includes-append_inv x y [] h n = ground (arith, eq_iff y x)
includes-append_inv x y (z ∷ xs) h n = ground (arith, includes-append_inv x y xs)

-- One more who was not in it is not in it twice.
pub append-Once :
    (x : String) (xs : List String) → includes x xs ≡ false → Once xs → Once (xs ++ x ∷ [])
append-Once x [] new h = (refl, tt)
append-Once x (z ∷ xs) new (out, h) = (
  elim (Bool-cases (includes z (xs ++ x ∷ []))) [
    | inr absent ↦ absent
    | inl found ↦
        let same : x ≡ z = includes-append_inv z x xs found out in ground (arith, eq_refl z)
  ],
  append-Once x xs (ground arith) h,
)
