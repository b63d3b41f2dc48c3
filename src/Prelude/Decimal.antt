-- ===== src/Prelude/Decimal.antt =====
-- A number as JavaScript's template literals print it.
use Prim.Native.String.{◌++◌}
use msa_training.Prelude.{ℕ, zero, suc, String, List, [], ◌∷◌, nat_eq, if◌then◌else◌}

abbrev digit : ℕ → String
digit zero = "0"
digit (suc zero) = "1"
digit (suc (suc zero)) = "2"
digit (suc (suc (suc zero))) = "3"
digit (suc (suc (suc (suc zero)))) = "4"
digit (suc (suc (suc (suc (suc zero))))) = "5"
digit (suc (suc (suc (suc (suc (suc zero)))))) = "6"
digit (suc (suc (suc (suc (suc (suc (suc zero))))))) = "7"
digit (suc (suc (suc (suc (suc (suc (suc (suc zero)))))))) = "8"
digit _ = "9"

-- the digits of the next number, the last digit first
bump : List ℕ → List ℕ
bump [] = 1 ∷ []
bump (d ∷ ds) = if nat_eq d 9 then 0 ∷ bump ds else suc d ∷ ds

digits : ℕ → List ℕ
unfolding bump
digits zero = 0 ∷ []
digits (suc n) = bump (digits n)

render : List ℕ → String
render [] = ""
render (d ∷ ds) = render ds ++ digit d

unfoldable pub decimal : ℕ → String
unfolding digits render
decimal n = render (digits n)
