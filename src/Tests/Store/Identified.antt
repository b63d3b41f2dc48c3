-- ===== src/Tests/Store/Identified.antt =====
-- A collection whose keys are the texts that stand for an `_id`: here, the texts of `letters`.
use msa_training.Prelude.{
  ℕ, ◌≤◌, String, ◌≡◌, refl, sym, subst, ◌∙◌, Bool, true, false, Option, none, some, List, ◌≢◌, [],
  ◌∷◌, length, All, ◌==◌, eq_iff, eq_refl, if◌then◌else◌, Bool-cases, inl, inr, arith,
}
use msa_training.Mongo.{Collection, selected, amended, meets}
use msa_training.Tests.Store.{letters, size, size-letters, fresh}

abbrev pub is_id : String → Bool
is_id id = id == letters (size id)

letters-is_id : (n : ℕ) → is_id (letters n) ≡ true
letters-is_id n = rw (size-letters n) (eq_refl (letters n))

abbrev pub as_id : String → Option String
as_id id = if is_id id then some id else none

unlike : (k j : String) → is_id k ≡ true → is_id j ≡ false → k == j ≡ false
unlike k j h bad = elim (Bool-cases (k == j)) [
  | inl e ↦ absurd (cc (sym (subst (λ i. is_id i ≡ true) ((eq_iff k j).0 e) h) ∙ bad))
  | inr e ↦ e
]

other : (k j : String) → is_id k ≡ false → is_id j ≡ true → k == j ≡ false
other k j bad h = elim (Bool-cases (k == j)) [
  | inl e ↦ absurd (cc (sym h ∙ subst (λ i. is_id i ≡ false) ((eq_iff k j).0 e) bad))
  | inr e ↦ e
]

module _ {D : Type 0} (c : Collection D)
    (named : (d : D) (s : c.Store) → is_id (c.insert d s).0 ≡ true) where
  abbrev pub looked : String → c.Store → Option D
  looked j s = if is_id j then c.find_one j s else none

  abbrev pub kept : List (String × D) → List (String × D)
  kept [] = []
  kept (e ∷ es) = if is_id e.0 then e ∷ kept es else kept es

  pub length-kept : (es : List (String × D)) → length (kept es) ≤ length es
  length-kept [] = omega arith
  length-kept (e ∷ es) = elim (Bool-cases (is_id e.0)) [
    | inl h ↦ rw h (omega (arith, length-kept es))
    | inr h ↦ rw h (omega (arith, length-kept es))
  ]

  pub All-kept :
      (p : D → Bool) (s : c.Store) (es : List (String × D))
      → All (λ e. (c.find_one e.0 s ≡ some e.1) × (p e.1 ≡ true)) es
      → All (λ e. (looked e.0 s ≡ some e.1) × (p e.1 ≡ true)) (kept es)
  All-kept p s [] h = tt
  All-kept p s (e ∷ es) ((found, met), rest) = elim (Bool-cases (is_id e.0)) [
    | inl h ↦ rw h ((rw h found, met), All-kept p s es rest)
    | inr h ↦ rw h (All-kept p s es rest)
  ]

  pub changes :
      (k : String) (p : D → Bool) (f : D → D) (s s' : c.Store) (j : String)
      → ((i : String)
          → c.find_one i s' ≡ (if k == i then amended p f (c.find_one i s) else c.find_one i s))
      → looked j (if is_id k then s' else s)
        ≡ (if k == j then amended p f (looked j s) else looked j s)
  changes k p f s s' j law = elim (Bool-cases (is_id j)) [
    | inl here ↦ elim (Bool-cases (is_id k)) [
      | inl h ↦ rw here (rw h (law j))
      | inr h ↦ rw here (rw h (rw (other k j h here) refl))
    ]
    | inr bad ↦ elim (Bool-cases (k == j)) [
      | inl e ↦ rw bad (rw e refl)
      | inr e ↦ rw bad (rw e refl)
    ]
  ]

  pub inserted :
      (d : D) (s : c.Store) (j : String)
      → looked j (c.insert d s).1 ≡ (if (c.insert d s).0 == j then some d else looked j s)
  inserted d s j = elim (Bool-cases (is_id j)) [
    | inl here ↦ rw here (c.find_one-insert d s j)
    | inr bad ↦ rw bad (rw (unlike (c.insert d s).0 j (named d s) bad) refl)
  ]

  pub absent : (d : D) (s : c.Store) → looked (c.insert d s).0 s ≡ none
  absent d s = rw (named d s) (c.insert_fresh d s)

  -- `modifiedCount` of an update
  abbrev pub count : String → (D → Bool) → (D → D) → c.Store → ℕ
  count k p f s = if is_id k then (c.update_one k p f s).0 else 0

  pub uncounted :
      (k : String) (p : D → Bool) (f : D → D) (s : c.Store)
      → meets p (looked k s) ≡ false
      → count k p f s ≡ 0
  uncounted k p f s h = elim (Bool-cases (is_id k)) [
    | inl here ↦ rw here (
        c.unmodified k p f s
          (subst (λ t. meets p (if t then c.find_one k s else none) ≡ false) here h))
    | inr bad ↦ rw bad refl
  ]

  pub counted :
      (k : String) (p : D → Bool) (f : D → D) (s : c.Store) (d : D)
      → looked k s ≡ some d
      → p d ≡ true
      → f d ≢ d
      → count k p f s ≡ 1
  counted k p f s d e h n = elim (Bool-cases (is_id k)) [
    | inl here ↦ rw here (
        c.modified k p f s d (subst (λ t. (if t then c.find_one k s else none) ≡ some d) here e) h
          n)
    | inr bad ↦ absurd (cc (subst (λ t. (if t then c.find_one k s else none) ≡ some d) bad e))
  ]

  abbrev pub identified : Collection D
  identified = record {
    Store = c.Store;
    find_one = looked;
    insert = c.insert;
    find_one_and_update = λ k p f s.
        (selected p f (looked k s), if is_id k then (c.find_one_and_update k p f s).1 else s);
    update_one = λ k p f s. (count k p f s, if is_id k then (c.update_one k p f s).1 else s);
    exists = λ k p s. meets p (looked k s);
    find = λ p n s. kept (c.find p n s);
    insert_fresh = absent;
    find_one-insert = inserted;
    found-update = λ k p f s. refl;
    find_one-update = λ k p f s j.
        changes k p f s (c.find_one_and_update k p f s).1 j (c.find_one-update k p f s);
    find_one-update_one =
        λ k p f s j. changes k p f s (c.update_one k p f s).1 j (c.find_one-update_one k p f s);
    unmodified = uncounted;
    modified = counted;
    exists-meets = λ k p s. refl;
    find-sound = λ p n s. All-kept p s (c.find p n s) (c.find-sound p n s);
    find-limit = λ p n s. omega (arith, length-kept (c.find p n s), c.find-limit p n s);
  }

pub as_id-looked :
    {D : Type 0} (id : String) (o : Option D) (d : D)
    → (if is_id id then o else none) ≡ some d
    → as_id id ≡ some id
as_id-looked id o d e = elim (Bool-cases (is_id id)) [
  | inl h ↦ rw h refl
  | inr h ↦ absurd (cc (subst (λ t. (if t then o else none) ≡ some d) h e))
]

pub fresh-named : {D : Type 0} (d : D) (s : List (String × D)) → is_id (fresh s) ≡ true
fresh-named d s = letters-is_id _
