-- ===== src/Tests/Store.antt =====
-- A collection as a list of keyed documents, newest first, that meets the laws of `Mongo`.
pub mod Identified
use msa_training.Prelude.{
  ℕ, zero, suc, ◌+◌, ◌≤◌, ◌<◌, String, ◌≡◌, refl, sym, ◌∙◌, ap, Bool, true, false, Option, none,
  some, List, [], ◌∷◌, length, All, ◌==◌, eq_iff, if◌then◌else◌, Bool-cases, inl, inr, arith,
}
use msa_training.Mongo.{Collection, selected, amended, meets}

-- A text of `n` letters, and the number of letters of a text.
abbrev pub letters : ℕ → String
letters zero = String.[]
letters (suc n) = String.◌∷◌ "x" (letters n)

abbrev pub size : String → ℕ
size String.[] = 0
size (String.◌∷◌ c s) = suc (size s)

pub size-letters : (n : ℕ) → size (letters n) ≡ n
size-letters zero = refl
size-letters (suc n) = ap suc (size-letters n)

pub letters-injective : (m n : ℕ) → letters m ≡ letters n → m ≡ n
letters-injective m n e = sym (size-letters m) ∙ ap size e ∙ size-letters n

module _ {D : Type 0} where
  abbrev pub lookup : String → List (String × D) → Option D
  lookup j [] = none
  lookup j ((k, d) ∷ s) = if k == j then some d else lookup j s

  abbrev pub total : List (String × D) → ℕ
  total [] = 0
  total ((k, d) ∷ s) = size k + total s

  -- longer than every key
  abbrev pub fresh : List (String × D) → String
  fresh s = letters (total s + 1)

  lookup_long : (j : String) (s : List (String × D)) → total s < size j → lookup j s ≡ none
  lookup_long j [] h = refl
  lookup_long j ((k, d) ∷ s) h = elim (Bool-cases (k == j)) [
    | inl same ↦ let e : size k ≡ size j = ap size ((eq_iff k j).0 same) in absurd (omega arith)
    | inr other ↦ rw other (lookup_long j s (omega arith))
  ]

  pub lookup-fresh : (d : D) (s : List (String × D)) → lookup (fresh s) s ≡ none
  lookup-fresh d s = lookup_long (fresh s) s (omega (arith, size-letters (total s + 1)))

  abbrev pub write :
      Option D → String → (D → Bool) → (D → D) → List (String × D) → List (String × D)
  write none k p f s = s
  write (some d) k p f s = if p d then (k, f d) ∷ s else s

  abbrev pub changed : (D → Bool) → Option D → ℕ
  changed p none = 0
  changed p (some d) = if p d then 1 else 0

  abbrev pub update : String → (D → Bool) → (D → D) → List (String × D) → List (String × D)
  update k p f s = write (lookup k s) k p f s

  pub lookup-write :
      (o : Option D) (k : String) (p : D → Bool) (f : D → D) (s : List (String × D)) (j : String)
      → lookup k s ≡ o
      → lookup j (write o k p f s) ≡ (if k == j then amended p f (lookup j s) else lookup j s)
  lookup-write none k p f s j e = ground (arith, eq_iff k j)
  lookup-write (some d) k p f s j e = ground (arith, eq_iff k j)

  abbrev pub keep : Option D → String → (D → Bool) → List (String × D) → List (String × D)
  keep none k p rest = rest
  keep (some d) k p rest = if p d then (k, d) ∷ rest else rest

  -- every key's document, if it meets the filter
  abbrev pub collect : (D → Bool) → List (String × D) → List (String × D) → List (String × D)
  collect p s [] = []
  collect p s ((k, _) ∷ es) = keep (lookup k s) k p (collect p s es)

  abbrev pub take : ℕ → List (String × D) → List (String × D)
  take zero es = []
  take (suc n) [] = []
  take (suc n) (e ∷ es) = e ∷ take n es

  pub length-take : (n : ℕ) (es : List (String × D)) → length (take n es) ≤ n
  length-take zero es = omega arith
  length-take (suc n) [] = omega arith
  length-take (suc n) (e ∷ es) = omega (arith, length-take n es)

  abbrev pub IsFound : (D → Bool) → List (String × D) → String × D → Type 0
  IsFound p s e = (lookup e.0 s ≡ some e.1) × (p e.1 ≡ true)

  pub All-take :
      (p : D → Bool) (s : List (String × D)) (n : ℕ) (es : List (String × D))
      → All (IsFound p s) es
      → All (IsFound p s) (take n es)
  All-take p s zero es h = tt
  All-take p s (suc n) [] h = tt
  All-take p s (suc n) (e ∷ es) h = (h.0, All-take p s n es h.1)

  All-keep :
      (p : D → Bool) (s : List (String × D)) (o : Option D) (k : String) (rest : List (String × D))
      → lookup k s ≡ o
      → All (IsFound p s) rest
      → All (IsFound p s) (keep o k p rest)
  All-keep p s none k rest e h = h
  All-keep p s (some d) k rest e h = elim (Bool-cases (p d)) [
    | inl hit ↦ rw hit ((e, hit), h)
    | inr miss ↦ rw miss h
  ]

  pub All-collect : (p : D → Bool) (s es : List (String × D)) → All (IsFound p s) (collect p s es)
  All-collect p s [] = tt
  All-collect p s ((k, _) ∷ es) =
      All-keep p s (lookup k s) k (collect p s es) refl (All-collect p s es)

  pub selected-write : (p : D → Bool) (o : Option D) → meets p o ≡ false → changed p o ≡ 0
  selected-write p none h = refl
  selected-write p (some d) h = rw h

  pub changed-some :
      (p : D → Bool) (o : Option D) (d : D) → o ≡ some d → p d ≡ true → changed p o ≡ 1
  changed-some p none d e h = absurd (cc e)
  changed-some p (some x) d e h = ground arith

abbrev pub lists : (D : Type 0) → Collection D
lists D = record {
  Store = List (String × D);
  find_one = lookup;
  insert = λ d s. (fresh s, (fresh s, d) ∷ s);
  find_one_and_update = λ k p f s. (selected p f (lookup k s), update k p f s);
  update_one = λ k p f s. (changed p (lookup k s), update k p f s);
  exists = λ k p s. meets p (lookup k s);
  find = λ p n s. take n (collect p s s);
  insert_fresh = lookup-fresh;
  find_one-insert = λ d s j. refl;
  found-update = λ k p f s. refl;
  find_one-update = λ k p f s j. lookup-write (lookup k s) k p f s j refl;
  find_one-update_one = λ k p f s j. lookup-write (lookup k s) k p f s j refl;
  unmodified = λ k p f s h. selected-write p (lookup k s) h;
  modified = λ k p f s d e h _. changed-some p (lookup k s) d e h;
  exists-meets = λ k p s. refl;
  find-sound = λ p n s. All-take p s n (collect p s s) (All-collect p s s);
  find-limit = λ p n s. length-take n (collect p s s);
}
