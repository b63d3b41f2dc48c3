-- ===== src/Mongo/Laws.antt =====
-- How a whole collection changes under one operation, for relations between the document under a
-- key before and after, and for predicates on each document with its key.
use msa_training.Prelude.{
  String, ◌≡◌, refl, sym, ◌∙◌, ap, subst, inl, inr, Bool, true, Option, none, some, ◌==◌, eq_iff,
  eq_refl, if◌then◌else◌, Bool-cases, arith,
}
use msa_training.Mongo.{Collection, Upserts, amended, selected, meets}

none≢some {ℓ} : {A : Type ℓ} {a : A} → ¬ (none ≡ some a)
none≢some e = cc

module _ {D : Type 0} (c : Collection D) where
  -- Every document is still there, related to what it was.
  abbrev pub StoreGrows : (D → D → Type 0) → c.Store → c.Store → Type 0
  StoreGrows R s t =
      (j : String) (d : D)
      → c.find_one j s ≡ some d
      → (d' : D) × (c.find_one j t ≡ some d') × R d d'

  abbrev pub StoreAll : (String → D → Type 0) → c.Store → Type 0
  StoreAll I s = (j : String) (d : D) → c.find_one j s ≡ some d → I j d

  -- One key's document is amended, the others are as they were.
  abbrev Amends : String → (D → Bool) → (D → D) → c.Store → c.Store → Type 0
  Amends k p f s t =
      (j : String)
      → c.find_one j t ≡ (if k == j then amended p f (c.find_one j s) else c.find_one j s)

  -- One key's document is written, the others are as they were.
  abbrev Writes : String → D → c.Store → c.Store → Type 0
  Writes k d s t = (j : String) → c.find_one j t ≡ (if k == j then some d else c.find_one j s)

  module _ (R : D → D → Type 0) (R_refl : (d : D) → R d d) where
    Amends-StoreGrows :
        (k : String) (p : D → Bool) (f : D → D) (s t : c.Store)
        → Amends k p f s t
        → ((d : D) → c.find_one k s ≡ some d → p d ≡ true → R d (f d))
        → StoreGrows R s t
    Amends-StoreGrows k p f s t law h j d e = elim (Bool-cases (k == j)) [
      | inr other ↦ (d, law j ∙ rw other e, R_refl d)
      | inl same ↦ elim (Bool-cases (p d)) [
        | inl hit ↦ (f d, law j ∙ rw (same, e, amended, hit), h d (rw ((eq_iff k j).0 same) e) hit)
        | inr miss ↦ (d, law j ∙ rw (same, e, amended, miss), R_refl d)
      ]
    ]

    Writes-StoreGrows :
        (k : String) (d : D) (s t : c.Store)
        → Writes k d s t
        → c.find_one k s ≡ none
        → StoreGrows R s t
    Writes-StoreGrows k d s t law new j e found = elim (Bool-cases (k == j)) [
      | inr other ↦ (e, law j ∙ rw other found, R_refl e)
      | inl same ↦ absurd (none≢some {a = e} (sym new ∙ rw ((eq_iff k j).0 same) found))
    ]

  module _ (I : String → D → Type 0) where
    amended-keeps :
        (k : String) (p : D → Bool) (f : D → D) (o : Option D)
        → ((d : D) → o ≡ some d → I k d)
        → ((d : D) → o ≡ some d → p d ≡ true → I k d → I k (f d))
        → (d : D) → amended p f o ≡ some d
        → I k d
    amended-keeps k p f none all h d e = absurd (none≢some e)
    amended-keeps k p f (some x) all h d e = elim (Bool-cases (p x)) [
      | inl hit ↦ let same : f x ≡ d = ground arith in subst (I k) same (h x refl hit (all x refl))
      | inr miss ↦ let same : x ≡ d = ground arith in subst (I k) same (all x refl)
    ]

    Amends-StoreAll :
        (k : String) (p : D → Bool) (f : D → D) (s t : c.Store)
        → Amends k p f s t
        → ((d : D) → c.find_one k s ≡ some d → p d ≡ true → I k d → I k (f d))
        → StoreAll I s
        → StoreAll I t
    Amends-StoreAll k p f s t law h all j d e = elim (Bool-cases (k == j)) [
      | inr other ↦ all j d (sym (law j ∙ rw other) ∙ e)
      | inl same ↦
          let key : k ≡ j = (eq_iff k j).0 same in
          subst (λ i. I i d) key
            (amended-keeps k p f (c.find_one k s) (all k) h d
              (rw (eq_refl k) at (sym (law k) ∙ ap (λ i. c.find_one i t) key ∙ e)))
    ]

    Writes-StoreAll :
        (k : String) (d : D) (s t : c.Store) → Writes k d s t → I k d → StoreAll I s → StoreAll I t
    Writes-StoreAll k d s t law h all j e found = elim (Bool-cases (k == j)) [
      | inr other ↦ all j e (sym (law j ∙ rw other) ∙ found)
      | inl same ↦
          let written : d ≡ e = ground (arith, law j) in
          subst (I j) written (subst (λ i. I i d) ((eq_iff k j).0 same) h)
    ]

module _ {D : Type 0} (c : Collection D) (R : D → D → Type 0) (R_refl : (d : D) → R d d) where
  pub update-StoreGrows :
      (k : String) (p : D → Bool) (f : D → D) (s : c.Store)
      → ((d : D) → c.find_one k s ≡ some d → p d ≡ true → R d (f d))
      → StoreGrows c R s (c.find_one_and_update k p f s).1
  update-StoreGrows k p f s = Amends-StoreGrows c R R_refl k p f s _ (c.find_one-update k p f s)

  pub update_one-StoreGrows :
      (k : String) (p : D → Bool) (f : D → D) (s : c.Store)
      → ((d : D) → c.find_one k s ≡ some d → p d ≡ true → R d (f d))
      → StoreGrows c R s (c.update_one k p f s).1
  update_one-StoreGrows k p f s =
      Amends-StoreGrows c R R_refl k p f s _ (c.find_one-update_one k p f s)

  pub insert-StoreGrows : (d : D) (s : c.Store) → StoreGrows c R s (c.insert d s).1
  insert-StoreGrows d s =
      Writes-StoreGrows c R R_refl (c.insert d s).0 d s _ (c.find_one-insert d s)
        (c.insert_fresh d s)

  pub upsert-StoreGrows :
      (u : Upserts c) (k : String) (d : D) (s : c.Store)
      → c.find_one k s ≡ none
      → StoreGrows c R s (u.upsert k d s)
  upsert-StoreGrows u k d s = Writes-StoreGrows c R R_refl k d s _ (u.find_one-upsert k d s)

module _ {D : Type 0} (c : Collection D) (I : String → D → Type 0) where
  pub update-StoreAll :
      (k : String) (p : D → Bool) (f : D → D) (s : c.Store)
      → ((d : D) → c.find_one k s ≡ some d → p d ≡ true → I k d → I k (f d))
      → StoreAll c I s
      → StoreAll c I (c.find_one_and_update k p f s).1
  update-StoreAll k p f s = Amends-StoreAll c I k p f s _ (c.find_one-update k p f s)

  pub update_one-StoreAll :
      (k : String) (p : D → Bool) (f : D → D) (s : c.Store)
      → ((d : D) → c.find_one k s ≡ some d → p d ≡ true → I k d → I k (f d))
      → StoreAll c I s
      → StoreAll c I (c.update_one k p f s).1
  update_one-StoreAll k p f s = Amends-StoreAll c I k p f s _ (c.find_one-update_one k p f s)

  pub upsert-StoreAll :
      (u : Upserts c) (k : String) (d : D) (s : c.Store)
      → I k d
      → StoreAll c I s
      → StoreAll c I (u.upsert k d s)
  upsert-StoreAll u k d s = Writes-StoreAll c I k d s _ (u.find_one-upsert k d s)

module _ {D : Type 0} (p : D → Bool) where
  pub meets-found : (o : Option D) → meets p o ≡ true → (d : D) × (o ≡ some d) × (p d ≡ true)
  meets-found none h = absurd (cc h)
  meets-found (some d) h = (d, refl, h)

  selected-amended :
      (f : D → D) (o : Option D) (d' : D)
      → selected p f o ≡ some d'
      → (d : D) × (o ≡ some d) × (p d ≡ true) × (f d ≡ d') × (amended p f o ≡ some d')
  selected-amended f none d' h = absurd (none≢some h)
  selected-amended f (some d) d' h = elim (Bool-cases (p d)) [
    | inl hit ↦ (d, refl, hit, ground arith, ground arith)
    | inr miss ↦ absurd (none≢some {a = d'} (ground arith))
  ]

-- What a successful `findOneAndUpdate` says of the document before and after.
pub updated-found :
    {D : Type 0} (c : Collection D) (k : String) (p : D → Bool) (f : D → D) (s : c.Store) (d' : D)
    → (c.find_one_and_update k p f s).0 ≡ some d'
    → (d : D) × (c.find_one k s ≡ some d)
      × (p d ≡ true)
      × (f d ≡ d')
      × (c.find_one k (c.find_one_and_update k p f s).1 ≡ some d')
updated-found c k p f s d' h =
    let (d, e, hit, value, after) =
      selected-amended p f (c.find_one k s) d' (sym (c.found-update k p f s) ∙ h) in
    (d, e, hit, value, c.find_one-update k p f s k ∙ rw (eq_refl k) after)
