-- ===== src/Base/Lists.antt =====
-- Rows of a table in insertion order: the queries that the stores make of them, and list facts.
use Prim.Native.Nat.{ℕ, suc, ◌+◌}
use mathlib.Core.Path.{◌≡◌, refl, ap}
use mathlib.Core.Logic.{◌⊎◌, inl, inr}
use mathlib.Core.Bool.{Bool, true, false}
use mathlib.Core.Option.{Option, none, some}
use mathlib.Core.List.{List, [], ◌∷◌, ◌++◌}
use native.Mathlib.Omega.{arith}
use oscillink_agent.Base.Tests.{if◌then◌else◌}

module _ {ℓ} {A : Type ℓ} where
  abbrev pub length : List A → ℕ
  length [] = 0
  length (x ∷ xs) = suc (length xs)

  -- `SELECT … WHERE p`
  unfoldable pub select : (A → Bool) → List A → List A
  select p [] = []
  select p (x ∷ xs) = if p x then x ∷ select p xs else select p xs

  -- `SELECT … WHERE p` and `fetchone()`
  unfoldable pub select_one : (A → Bool) → List A → Option A
  select_one p [] = none
  select_one p (x ∷ xs) = if p x then some x else select_one p xs

  -- `SELECT … WHERE p ORDER BY sequence DESC LIMIT 1`
  unfoldable pub select_latest : (A → Bool) → List A → Option A
  select_latest p [] = none
  select_latest p (x ∷ xs) = elim (select_latest p xs) [
    | some y ↦ some y
    | none ↦ if p x then some x else none
  ]

  unfoldable pub exists_row : (A → Bool) → List A → Bool
  exists_row p [] = false
  exists_row p (x ∷ xs) = if p x then true else exists_row p xs

  -- Every row has the property.
  abbrev pub All {κ} : (A → Type κ) → List A → Type κ
  All P [] = Unit
  All P (x ∷ xs) = P x × All P xs

-- The row stands in the table.
abbrev pub Occurs : {A : Type 0} → A → List A → Type 0
Occurs x [] = ⊥
Occurs x (y ∷ ys) = (x ≡ y) ⊎ Occurs x ys

module _ {ℓ} {A : Type ℓ} where
  pub length-append : (xs ys : List A) → length (xs ++ ys) ≡ length xs + length ys
  length-append [] ys = omega arith
  length-append (x ∷ xs) ys = omega (arith, length-append xs ys)

  pub All-append {κ} : (P : A → Type κ) (xs ys : List A) → All P xs → All P ys → All P (xs ++ ys)
  All-append P [] ys hx hy = hy
  All-append P (x ∷ xs) ys hx hy = (hx.0, All-append P xs ys hx.1 hy)

  pub All-map {κ ι} :
      (P : A → Type κ) (Q : A → Type ι) (xs : List A) → ((x : A) → P x → Q x) → All P xs → All Q xs
  All-map P Q [] f h = tt
  All-map P Q (x ∷ xs) f h = (f x h.0, All-map P Q xs f h.1)

  -- A new row is found where no earlier one is.
  pub select_one-append :
      (p : A → Bool) (xs : List A) (x : A)
      → select_one p xs ≡ none
      → select_one p (xs ++ x ∷ []) ≡ (if p x then some x else none)
  unfolding select_one
  select_one-append p [] x h = refl
  select_one-append p (y ∷ ys) x h = ground (arith, select_one-append p ys x)

  -- One more row is the latest if it meets the condition.
  pub select_latest-append :
      (p : A → Bool) (xs : List A) (x : A)
      → select_latest p (xs ++ x ∷ []) ≡ (if p x then some x else select_latest p xs)
  unfolding select_latest
  select_latest-append p [] x = refl
  select_latest-append p (y ∷ ys) x = ground (arith, select_latest-append p ys x)

module _ {A : Type 0} where
  pub All-at {κ} : (P : A → Type κ) (xs : List A) (x : A) → All P xs → Occurs x xs → P x
  All-at P [] x h o = absurd o
  All-at P (y ∷ ys) x h (inl e) = rw e h.0
  All-at P (y ∷ ys) x h (inr o) = All-at P ys x h.1 o

  pub Occurs-append_left : (x : A) (xs ys : List A) → Occurs x xs → Occurs x (xs ++ ys)
  Occurs-append_left x [] ys o = absurd o
  Occurs-append_left x (y ∷ xs) ys (inl e) = inl e
  Occurs-append_left x (y ∷ xs) ys (inr o) = inr (Occurs-append_left x xs ys o)

  pub Occurs-append_last : (x : A) (xs : List A) → Occurs x (xs ++ x ∷ [])
  Occurs-append_last x [] = inl refl
  Occurs-append_last x (y ∷ xs) = inr (Occurs-append_last x xs)

  -- The row that a query returns is in the table and meets the condition.
  pub select_one-Occurs :
      (p : A → Bool) (xs : List A) (x : A) → select_one p xs ≡ some x → Occurs x xs × (p x ≡ true)
  unfolding select_one
  select_one-Occurs p [] x h = cc
  select_one-Occurs p (y ∷ ys) x h = ground (arith, select_one-Occurs p ys x)

  pub select_latest-Occurs :
      (p : A → Bool) (xs : List A) (x : A)
      → select_latest p xs ≡ some x
      → Occurs x xs × (p x ≡ true)
  unfolding select_latest
  select_latest-Occurs p [] x h = cc
  select_latest-Occurs p (y ∷ ys) x h = ground (arith, select_latest-Occurs p ys x)

-- What queries say of a table that has grown, and of each other.
module _ {A : Type 0} (p : A → Bool) where
  pub select_one-append_found :
      (xs ys : List A) (x : A) → select_one p xs ≡ some x → select_one p (xs ++ ys) ≡ some x
  unfolding select_one
  select_one-append_found [] ys x h = cc
  select_one-append_found (y ∷ xs) ys x h = ground (arith, select_one-append_found xs ys x)

  pub exists_row-append_left :
      (xs ys : List A) → exists_row p xs ≡ true → exists_row p (xs ++ ys) ≡ true
  unfolding exists_row
  exists_row-append_left [] ys h = cc
  exists_row-append_left (y ∷ xs) ys h = ground (arith, exists_row-append_left xs ys)

  pub select_one-exists_row : (xs : List A) → exists_row p xs ≡ false → select_one p xs ≡ none
  unfolding exists_row select_one
  select_one-exists_row [] h = refl
  select_one-exists_row (y ∷ xs) h = ground (arith, select_one-exists_row xs)

  -- A row that one query finds answers every condition that it meets.
  pub exists_row-select_one :
      (q : A → Bool) (xs : List A) (x : A)
      → select_one q xs ≡ some x
      → p x ≡ true
      → exists_row p xs ≡ true
  unfolding exists_row select_one
  exists_row-select_one q [] x h e = cc
  exists_row-select_one q (y ∷ xs) x h e = ground (arith, exists_row-select_one q xs x)

pub append-nil : {A : Type 0} (xs : List A) → xs ++ [] ≡ xs
append-nil [] = refl
append-nil (x ∷ xs) = ap (λ r. x ∷ r) (append-nil xs)

pub append_assoc : {A : Type 0} (xs ys zs : List A) → (xs ++ ys) ++ zs ≡ xs ++ (ys ++ zs)
append_assoc [] ys zs = refl
append_assoc (x ∷ xs) ys zs = ap (λ r. x ∷ r) (append_assoc xs ys zs)
