-- ===== src/Prelude/Sort.antt =====
-- `xs.sort(...)`, which keeps the order of equals, over any test of what goes before what.
use sovr_protocol.Prelude.{
  ◌≡◌, subst, refl, Bool, ◌||◌, any, List, [], ◌∷◌, All, Bool-cases, inl, inr, if◌then◌else◌, arith,
}

module _ {ℓ} {A : Type ℓ} (before : A → A → Bool) where
  unfoldable pub insert_sorted : A → List A → List A
  insert_sorted x [] = x ∷ []
  insert_sorted x (y ∷ ys) =
      let rest = insert_sorted x ys in if before y x then y ∷ rest else x ∷ y ∷ ys

  -- From the last to the first: an element goes in front of its equals.
  unfoldable pub sort : List A → List A
  sort [] = []
  sort (x ∷ xs) = insert_sorted x (sort xs)

  module _ {κ} (P : A → Type κ) where
    All-insert_sorted : (x : A) (xs : List A) → P x → All P xs → All P (insert_sorted x xs)
    unfolding insert_sorted
    All-insert_sorted x [] p h = (p, tt)
    All-insert_sorted x (y ∷ ys) p h = elim (Bool-cases (before y x)) [
      | inl e ↦ rw e (h.0, All-insert_sorted x ys p h.1)
      | inr e ↦ rw e (p, h)
    ]

    All-unsorted : (x : A) (xs : List A) → All P (insert_sorted x xs) → P x × All P xs
    unfolding insert_sorted
    All-unsorted x [] h = (h.0, tt)
    All-unsorted x (y ∷ ys) h = elim (Bool-cases (before y x)) [
      | inl e ↦
          let k = subst (λ b. All P (if b then y ∷ insert_sorted x ys else x ∷ y ∷ ys)) e h in
          let (p, rest) = All-unsorted x ys k.1 in (p, (k.0, rest))
      | inr e ↦ subst (λ b. All P (if b then y ∷ insert_sorted x ys else x ∷ y ∷ ys)) e h
    ]

    pub All-sort : (xs : List A) → All P xs → All P (sort xs)
    unfolding sort
    All-sort [] h = tt
    All-sort (x ∷ xs) h = All-insert_sorted x (sort xs) h.0 (All-sort xs h.1)

    pub All-of_sort : (xs : List A) → All P (sort xs) → All P xs
    unfolding sort
    All-of_sort [] h = tt
    All-of_sort (x ∷ xs) h = let (p, rest) = All-unsorted x (sort xs) h in (p, All-of_sort xs rest)

  module _ (p : A → Bool) where
    any-insert_sorted : (x : A) (xs : List A) → any p (insert_sorted x xs) ≡ (p x || any p xs)
    unfolding insert_sorted any
    any-insert_sorted x [] = refl
    any-insert_sorted x (y ∷ ys) = ground (arith, any-insert_sorted x ys)

    pub any-sort : (xs : List A) → any p (sort xs) ≡ any p xs
    unfolding sort any
    any-sort [] = refl
    any-sort (x ∷ xs) = ground (arith, any-insert_sorted x (sort xs), any-sort xs)
