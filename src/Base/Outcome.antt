-- ===== src/Base/Outcome.antt =====
-- Python code that mutates an object and may raise. What was written before a raise stays written,
-- so the state comes back beside the error too; a transaction restores it.
use mathlib.Core.Bool.{Bool, true, false}
use mathlib.Core.Option.{Option, none, some}
use mathlib.Core.Path.{◌≡◌, refl}
use mathlib.Core.Logic.{◌⊎◌, inl, inr}
use native.Mathlib.Omega.{arith}

pub data Result (E A : Type 0) : Type 0 where
  ok : A → Result E A
  err : E → Result E A

abbrev pub Action : Type 0 → Type 0 → Type 0 → Type 0
Action S E A = S → Result E A × S

module _ {S E A : Type 0} where
  abbrev pub pure : A → Action S E A
  pure a s = (ok a, s)

  abbrev pub raise : E → Action S E A
  raise e s = (err e, s)

  abbrev pub gets : (S → A) → Action S E A
  gets f s = (ok (f s), s)

  abbrev pub or_raise : Option A → E → Action S E A
  or_raise none e = raise e
  or_raise (some a) e = pure a

  -- `BEGIN IMMEDIATE`, with `commit()` after the body and `rollback()` when it raises
  abbrev pub transaction : Action S E A → Action S E A
  transaction m s = elim (m s).0 [ ok a ↦ (ok a, (m s).1) | err e ↦ (err e, s) ]

module _ {S E : Type 0} where
  abbrev pub raise_if : Bool → E → Action S E (Unit {0})
  raise_if true e = raise e
  raise_if false e = pure tt

  abbrev pub modify : (S → S) → Action S E (Unit {0})
  modify f s = (ok tt, f s)

infixl 5 ◌>>=◌ ◌>>◌
abbrev pub ◌>>=◌ : {S E A B : Type 0} → Action S E A → (A → Action S E B) → Action S E B
◌>>=◌ m f s = elim (m s).0 [ ok a ↦ f a (m s).1 | err e ↦ (err e, (m s).1) ]

abbrev pub ◌>>◌ : {S E A B : Type 0} → Action S E A → Action S E B → Action S E B
m >> k = m >>= λ _. k

module _ {S E A : Type 0} where
  -- A transaction that raises leaves the state as it was.
  pub transaction-err :
      (m : Action S E A) (s : S) (e : E) {s' : S} → transaction m s ≡ (err e, s') → s' ≡ s
  transaction-err m s e h = ground arith

  -- A transaction that returns is its body.
  pub transaction-ok :
      (m : Action S E A) (s : S) (a : A) {s' : S} → transaction m s ≡ (ok a, s') → m s ≡ (ok a, s')
  transaction-ok m s a h = ground arith

module _ {S E A B : Type 0} where
  bind_step :
      (r : Result E A) (s₁ : S) (f : A → Action S E B) (b : B) (s' : S)
      → elim r [ ok a ↦ f a s₁ | err e ↦ (err e, s₁) ] ≡ (ok b, s')
      → (a : A) × (r ≡ ok a) × (f a s₁ ≡ (ok b, s'))
  bind_step (ok a) s₁ f b s' h = (a, refl, h)
  bind_step (err e) s₁ f b s' h = absurd (ground arith)

  -- Both parts of a sequence that returns have returned.
  pub bind-ok :
      (m : Action S E A) (f : A → Action S E B) (s : S) (b : B) (s' : S)
      → (m >>= f) s ≡ (ok b, s')
      → (a : A) × ((m s).0 ≡ ok a) × (f a (m s).1 ≡ (ok b, s'))
  bind-ok m f s b s' h = bind_step (m s).0 (m s).1 f b s' h

-- A call returns or raises.
pub outcome-cases :
    {S E A : Type 0} (x : Result E A × S)
    → ((a : A) × (x ≡ (ok a, x.1))) ⊎ ((e : E) × (x ≡ (err e, x.1)))
outcome-cases (ok a, s) = inl (a, refl)
outcome-cases (err e, s) = inr (e, refl)
