-- ===== src/Retrieval/Sorting.antt =====
-- The sort keeps its items and orders them.
use oscillink_agent.Base.{
  ℕ, suc, ◌+◌, ◌≡◌, inl, inr, refl, String, Bool, true, false, List, [], ◌∷◌, ◌++◌, arith, All,
  Bool-cases, Occurs, length, ◌==◌, string_eq, if◌then◌else◌,
}
use oscillink_agent.Retrieval.{insert, sort}

-- How many items have this identity.
unfoldable pub occurrences : {A : Type 0} → (A → String) → String → List A → ℕ
occurrences f id [] = 0
occurrences f id (x ∷ xs) = (if f x == id then 1 else 0) + occurrences f id xs

pub occurrences-append :
    {A : Type 0} (f : A → String) (id : String) (xs ys : List A)
    → occurrences f id (xs ++ ys) ≡ occurrences f id xs + occurrences f id ys
unfolding occurrences
occurrences-append f id [] ys = omega arith
occurrences-append f id (x ∷ xs) ys = omega (arith, occurrences-append f id xs ys)

module _ {A : Type 0} (le : A → A → Bool) where
  -- No item stands before one that comes strictly before it.
  abbrev pub IsOrdered : List A → Type 0
  IsOrdered [] = Unit
  IsOrdered (x ∷ []) = Unit
  IsOrdered (x ∷ y ∷ ys) = (le x y ≡ true) × IsOrdered (y ∷ ys)

  length-insert : (x : A) (xs : List A) → length (insert le x xs) ≡ suc (length xs)
  unfolding insert
  length-insert x [] = refl
  length-insert x (y ∷ ys) = ground (arith, length-insert x ys)

  pub length-sort : (xs : List A) → length (sort le xs) ≡ length xs
  unfolding sort
  length-sort [] = refl
  length-sort (x ∷ xs) = omega (arith, length-insert x (sort le xs), length-sort xs)

  occurrences-insert :
      (f : A → String) (id : String) (x : A) (xs : List A)
      → occurrences f id (insert le x xs) ≡ occurrences f id (x ∷ xs)
  unfolding insert occurrences
  occurrences-insert f id x [] = refl
  occurrences-insert f id x (y ∷ ys) = ground (arith, occurrences-insert f id x ys)

  pub occurrences-sort :
      (f : A → String) (id : String) (xs : List A)
      → occurrences f id (sort le xs) ≡ occurrences f id xs
  unfolding sort occurrences
  occurrences-sort f id [] = refl
  occurrences-sort f id (x ∷ xs) =
      ground (arith, occurrences-insert f id x (sort le xs), occurrences-sort f id xs)

  module _ {κ} (P : A → Type κ) where
    All-insert : (x : A) (xs : List A) → P x → All P xs → All P (insert le x xs)
    unfolding insert
    All-insert x [] p h = (p, tt)
    All-insert x (y ∷ ys) p h = elim (Bool-cases (le x y)) [
      | inl e ↦ rw e (p, h)
      | inr e ↦ rw e (h.0, All-insert x ys p h.1)
    ]

    pub All-sort : (xs : List A) → All P xs → All P (sort le xs)
    unfolding sort
    All-sort [] h = tt
    All-sort (x ∷ xs) h = All-insert x (sort le xs) h.0 (All-sort xs h.1)

  Occurs-insert : (a x : A) (xs : List A) → Occurs a (x ∷ xs) → Occurs a (insert le x xs)
  unfolding insert
  Occurs-insert a x [] o = o
  Occurs-insert a x (y ∷ ys) o = ground (arith, Occurs-insert a x ys)

  pub Occurs-sort : (a : A) (xs : List A) → Occurs a xs → Occurs a (sort le xs)
  unfolding sort
  Occurs-sort a [] o = o
  Occurs-sort a (x ∷ xs) (inl e) = Occurs-insert a x (sort le xs) (inl e)
  Occurs-sort a (x ∷ xs) (inr o) = Occurs-insert a x (sort le xs) (inr (Occurs-sort a xs o))

  module _ (total : (x y : A) → le x y ≡ false → le y x ≡ true) where
    insert-IsOrdered : (x : A) (xs : List A) → IsOrdered xs → IsOrdered (insert le x xs)
    unfolding insert
    insert-IsOrdered x [] h = tt
    insert-IsOrdered x (y ∷ []) h = ground (arith, total x y)
    insert-IsOrdered x (y ∷ z ∷ zs) h =
        ground (arith, total x y, total x z, insert-IsOrdered x (z ∷ zs) h.1)

    -- With a total order the sort puts its items in order.
    pub sort-IsOrdered : (xs : List A) → IsOrdered (sort le xs)
    unfolding sort
    sort-IsOrdered [] = tt
    sort-IsOrdered (x ∷ xs) = insert-IsOrdered x (sort le xs) (sort-IsOrdered xs)
