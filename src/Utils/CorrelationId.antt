-- ===== src/Utils/CorrelationId.antt =====
-- services/order-service/src/utils/correlationId.js, less its warning. A header is a text or missing.
pub mod Pattern
use Prim.Native.Char.{Char, code}
use msa_training.Prelude.{
  ℕ, suc, zero, ◌+◌, String, ◌≡◌, refl, Bool, true, false, ◌&&◌, ◌||◌, Option, none, some, leb,
  nat_eq, if◌then◌else◌, Bool-cases, inl, inr, subst, sym, ◌∙◌, arith,
}
use msa_training.Backend.{Backend, World}

abbrev between : ℕ → ℕ → ℕ → Bool
between low high n = leb low n && leb n high

-- `[A-Za-z0-9_-]`
unfoldable pub is_allowed_char : Char → Bool
is_allowed_char c =
    between 65 90 (code c)
    || between 97 122 (code c)
    || between 48 57 (code c)
    || nat_eq (code c) 95
    || nat_eq (code c) 45

-- at most `n` characters, all of them allowed
unfoldable pub at_most : ℕ → String → Bool
unfolding is_allowed_char
at_most n String.[] = true
at_most zero (String.◌∷◌ c s) = false
at_most (suc n) (String.◌∷◌ c s) = is_allowed_char c && at_most n s

-- `CORRELATION_ID_PATTERN.test`
unfoldable pub matches_pattern : String → Bool
unfolding at_most
matches_pattern String.[] = false
matches_pattern (String.◌∷◌ c s) = at_most 64 (String.◌∷◌ c s)

module _ (b : Backend) where
  abbrev replace : World b → String × World b
  replace w = (b.random_uuid w.drawn, record w { drawn = w.drawn + 1 })

  unfoldable pub normalize_correlation_id : Option String → World b → String × World b
  normalize_correlation_id none w = replace w
  normalize_correlation_id (some value) w = if matches_pattern value then (value, w) else replace w
