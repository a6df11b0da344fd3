-- ===== src/Context/Validity/Uniqueness.antt =====
-- Tests on identities, from how often each occurs.
use oscillink_agent.Base.{
  ◌+◌, ◌≤◌, ◌≡◌, refl, String, Bool, true, false, not, List, [], ◌∷◌, arith, All, map, DecEq,
  string_eq, holds, is_unique, Bool-cases, inl, inr,
}
use oscillink_agent.Retrieval.Sorting.{occurrences}
use oscillink_agent.Context.{all_rows}

pub all_rows_of_All :
    {A : Type 0} (p : A → Bool) (xs : List A) → All (λ x. p x ≡ true) xs → all_rows p xs ≡ true
unfolding all_rows
all_rows_of_All p [] h = refl
all_rows_of_All p (x ∷ xs) h = rw h.0 (all_rows_of_All p xs h.1)

pub occurrences-map :
    {A B : Type 0} (g : A → B) (f : B → String) (id : String) (xs : List A)
    → occurrences f id (map g xs) ≡ occurrences (λ x. f (g x)) id xs
unfolding occurrences
occurrences-map g f id [] = refl
occurrences-map g f id (x ∷ xs) = omega (arith, occurrences-map g f id xs)

module _ {A : Type 0} ⦃e : DecEq A⦄ (f : A → String) where
  -- A value that is held occurs under its identity.
  held_occurs : (a : A) (xs : List A) → holds xs a ≡ true → 1 ≤ occurrences f (f a) xs
  unfolding holds occurrences
  held_occurs a [] h = ground arith
  held_occurs a (x ∷ xs) h = ground (arith, held_occurs a xs)

  pub not_held : (a : A) (xs : List A) → occurrences f (f a) xs ≡ 0 → holds xs a ≡ false
  not_held a xs h = elim (Bool-cases (holds xs a)) [
    | inl t ↦ absurd (omega (arith, held_occurs a xs t))
    | inr n ↦ n
  ]

  occurs_once :
      (x : A) (xs : List A) → occurrences f (f x) (x ∷ xs) ≤ 1 → occurrences f (f x) xs ≡ 0
  unfolding occurrences
  occurs_once x xs h = ground arith

  occurs_less :
      (id : String) (x : A) (xs : List A) → occurrences f id (x ∷ xs) ≤ 1 → occurrences f id xs ≤ 1
  unfolding occurrences
  occurs_less id x xs h = ground arith

  -- A list is without repetition if no identity occurs twice.
  pub is_unique_of_occurrences :
      (xs : List A) → ((id : String) → occurrences f id xs ≤ 1) → is_unique xs ≡ true
  unfolding is_unique
  is_unique_of_occurrences [] h = refl
  is_unique_of_occurrences (x ∷ xs) h =
      rw (not_held x xs (occurs_once x xs (h (f x))), is_unique)
        (is_unique_of_occurrences xs (λ id. occurs_less id x xs (h id)))

-- No item of one list shares its identity with the other list.
module _ {A : Type 0} (f : A → String) (ids : List String) where
  occurs_self : (x : A) (xs : List A) → 1 ≤ occurrences f (f x) (x ∷ xs)
  unfolding occurrences
  occurs_self x xs = ground arith

  occurs_more :
      (id : String) (x : A) (xs : List A) → occurrences f id xs ≤ occurrences f id (x ∷ xs)
  unfolding occurrences
  occurs_more id x xs = ground arith

  pub all_rows_disjoint :
      (xs : List A)
      → ((id : String) → occurrences f id xs + occurrences (λ s. s) id ids ≤ 1)
      → all_rows (λ id. not (holds ids id)) (map f xs) ≡ true
  unfolding all_rows
  all_rows_disjoint [] h = refl
  all_rows_disjoint (x ∷ xs) h =
      let apart = not_held (λ s. s) (f x) ids (omega (arith, h (f x), occurs_self x xs)) in
      rw apart (all_rows_disjoint xs (λ id. omega (arith, h id, occurs_more id x xs)))
