-- ===== src/Mongo/Branches.antt =====
-- The two outcomes of an update of one document.
use msa_training.Prelude.{
  String, ◌≡◌, refl, subst, ◌∙◌, Bool, true, false, Option, none, some, ◌==◌, eq_iff, eq_refl,
  if◌then◌else◌,
}
use msa_training.Mongo.{Collection, selected, amended, meets}

module _ {D : Type 0} where
  selected-missed :
      (p : D → Bool) (f : D → D) (o : Option D)
      → meets p o ≡ false
      → (selected p f o ≡ none) × (amended p f o ≡ o)
  selected-missed p f none h = (refl, refl)
  selected-missed p f (some d) h = (rw h refl, rw h refl)

  -- `if same then x else y` where `same` implies that `x` is `y`
  same_branches :
      (same : Bool) (x y : Option D) → (same ≡ true → x ≡ y) → (if same then x else y) ≡ y
  same_branches true x y h = h refl
  same_branches false x y h = refl

module _ {D : Type 0} (c : Collection D) (k : String) (p : D → Bool) (f : D → D) (s : c.Store) where
  -- No document is returned and none is changed.
  pub update-missed :
      meets p (c.find_one k s) ≡ false
      → ((c.find_one_and_update k p f s).0 ≡ none)
        × ((j : String) → c.find_one j (c.find_one_and_update k p f s).1 ≡ c.find_one j s)
  update-missed h =
      let (nothing, as_was) = selected-missed p f (c.find_one k s) h in
      (
        c.found-update k p f s ∙ nothing,
        λ j.
            c.find_one-update k p f s j
            ∙ same_branches (k == j) _ _ (λ e.
              subst (λ i. amended p f (c.find_one i s) ≡ c.find_one i s) ((eq_iff k j).0 e) as_was),
      )

  -- The document is returned as it is afterwards, and no other one is changed.
  pub update-met :
      (d : D)
      → c.find_one k s ≡ some d
      → p d ≡ true
      → ((c.find_one_and_update k p f s).0 ≡ some (f d))
        × (c.find_one k (c.find_one_and_update k p f s).1 ≡ some (f d))
        × ((j : String)
            → k == j ≡ false
            → c.find_one j (c.find_one_and_update k p f s).1 ≡ c.find_one j s)
  update-met d e h = (
    c.found-update k p f s ∙ rw e (rw h refl),
    c.find_one-update k p f s k ∙ rw (eq_refl k) (rw e (rw h refl)),
    λ j other. c.find_one-update k p f s j ∙ rw other refl,
  )
