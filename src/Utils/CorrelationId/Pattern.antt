-- ===== src/Utils/CorrelationId/Pattern.antt =====
-- What `CORRELATION_ID_PATTERN` of src/utils/correlationId.js matches, and what the header becomes.
use Prim.Native.Char.{Char, code}
use msa_training.Prelude.{
  ℕ, suc, zero, ◌+◌, ◌≤◌, String, ◌≡◌, refl, ap, true, Option, none, some, ◌⊎◌, Bool-cases, inl,
  inr, subst, sym, ◌∙◌, arith,
}
use msa_training.Backend.{Backend, World}
use msa_training.Utils.CorrelationId.{
  is_allowed_char, at_most, matches_pattern, normalize_correlation_id,
}

-- A Latin letter, a digit, an underscore or a hyphen.
abbrev IsWordChar : Char → Type 0
IsWordChar c =
    ((b'A' ≤ code c) × (code c ≤ b'Z'))
    ⊎ ((b'a' ≤ code c) × (code c ≤ b'z'))
    ⊎ ((b'0' ≤ code c) × (code c ≤ b'9'))
    ⊎ (code c ≡ b'_')
    ⊎ (code c ≡ b'-')

abbrev AreWordChars : String → Type 0
AreWordChars String.[] = Unit {0}
AreWordChars (String.◌∷◌ c s) = IsWordChar c × AreWordChars s

abbrev size : String → ℕ
size String.[] = 0
size (String.◌∷◌ c s) = suc (size s)

-- From 1 to 64 such characters.
unfoldable pub IsCorrelationId : String → Type 0
IsCorrelationId s = (1 ≤ size s) × (size s ≤ 64) × AreWordChars s

allowed : (c : Char) → is_allowed_char c ≡ true → IsWordChar c
unfolding is_allowed_char
allowed c h = ground arith

word_char : (c : Char) → IsWordChar c → is_allowed_char c ≡ true
unfolding is_allowed_char
word_char c h = ground arith

short : (n : ℕ) (s : String) → at_most n s ≡ true → (size s ≤ n) × AreWordChars s
unfolding at_most
short n String.[] h = (omega arith, tt)
short zero (String.◌∷◌ c s) h = absurd (cc h)
short (suc n) (String.◌∷◌ c s) h =
    let (one, rest) : (is_allowed_char c ≡ true) × (at_most n s ≡ true) = ground arith in
    let (few, all) = short n s rest in (omega (arith, few), (allowed c one, all))

within : (n : ℕ) (s : String) → size s ≤ n → AreWordChars s → at_most n s ≡ true
unfolding at_most
within n String.[] few all = refl
within zero (String.◌∷◌ c s) few all = absurd (omega (arith, few))
within (suc n) (String.◌∷◌ c s) few (one, all) =
    rw (word_char c one) (within n s (omega (arith, few)) all)

-- The pattern matches these texts, and no others.
pub matched : (s : String) → matches_pattern s ≡ true → IsCorrelationId s
unfolding matches_pattern IsCorrelationId
matched String.[] h = absurd (cc h)
matched (String.◌∷◌ c s) h = let (few, all) = short 64 (String.◌∷◌ c s) h in (omega arith, few, all)

matches : (s : String) → IsCorrelationId s → matches_pattern s ≡ true
unfolding matches_pattern IsCorrelationId
matches String.[] (some_char, _, _) = absurd (omega (arith, some_char))
matches (String.◌∷◌ c s) (_, few, all) = within 64 (String.◌∷◌ c s) few all

-- Whatever the header holds, the id that the program goes on with has from 1 to 64 characters, each
-- a Latin letter, a digit, an underscore or a hyphen, if the next uuid has. A header with such a text
-- is taken as it is and draws no uuid; one with another text, or none, is replaced by the next uuid.
pub normalize_correlation_id_lem :
    (b : Backend) (header : Option String) (w : World b)
    → IsCorrelationId (b.random_uuid w.drawn)
    → let result = normalize_correlation_id b header w in
      IsCorrelationId result.0
      × ((value : String) → header ≡ some value → IsCorrelationId value → result ≡ (value, w))
      × (((value : String) → header ≡ some value → ¬ IsCorrelationId value)
          → result ≡ (b.random_uuid w.drawn, record w { drawn = w.drawn + 1 }))
unfolding normalize_correlation_id
normalize_correlation_id_lem b none w uuid = (uuid, λ v e. absurd (cc e), λ _. refl)
normalize_correlation_id_lem b (some value) w uuid = elim (Bool-cases (matches_pattern value)) [
  | inl good ↦ (
    rw good (matched value good),
    λ v e _. let same : value ≡ v = ground arith in rw good (ap (λ x. (x, w)) same),
    λ h. absurd (h value refl (matched value good)),
  )
  | inr bad ↦ (
    rw bad uuid,
    λ v e m.
        let same : value ≡ v = ground arith in
        let hit = matches value (subst IsCorrelationId (sym same) m) in absurd (cc (sym bad ∙ hit)),
    λ _. rw bad refl,
  )
]
