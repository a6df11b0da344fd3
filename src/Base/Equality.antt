-- ===== src/Base/Equality.antt =====
-- Python's `==` on values: an instance of `DecEq` decides equality, so a test hands the proof to
-- the branch that it guards.
use Prim.Native.Nat.{ℕ}
use Prim.Native.String.{String}
use mathlib.Core.Path.{◌≡◌, refl}
use mathlib.Core.Bool.{Bool, true, false}
use mathlib.Core.Option.{Option}
use mathlib.Core.List.{List, [], ◌∷◌}
use native.Mathlib.Decide.{ℕ_discrete}
use text.Mathlib.Text.{◌==◌ as str_eq}
use text.Mathlib.TextEquality.{eq_iff}

pub record DecEq {ℓ} (A : Type ℓ) : Type ℓ where
  pub dec : Discrete A

infix 50 ◌==◌
abbrev pub ◌==◌ {ℓ} : {A : Type ℓ} ⦃e : DecEq A⦄ → A → A → Bool
◌==◌ ⦃e⦄ a b = elim (e.dec a b) [ yes _ ↦ true | no _ ↦ false ]

decide_text : (s t : String) (b : Bool) → (b ≡ true → s ≡ t) → (s ≡ t → b ≡ true) → Dec (s ≡ t)
decide_text s t true f g = yes (f refl)
decide_text s t false f g = no (λ e. cc (g e))

unfoldable pub string_discrete : Discrete String
unfolding decide_text
string_discrete s t = decide_text s t (str_eq s t) (eq_iff s t).0 (eq_iff s t).1

instance abbrev pub string_eq : DecEq String
string_eq = record { dec = string_discrete }

instance abbrev pub nat_eq : DecEq ℕ
nat_eq = record { dec = ℕ_discrete }

unfoldable pub option_discrete {ℓ} : {A : Type ℓ} ⦃e : DecEq A⦄ → Discrete (Option A)
option_discrete ⦃e⦄ = hlevel e.dec

unfoldable pub list_discrete {ℓ} : {A : Type ℓ} ⦃e : DecEq A⦄ → Discrete (List A)
list_discrete ⦃e⦄ = hlevel e.dec

instance abbrev pub option_eq {ℓ} : {A : Type ℓ} ⦃e : DecEq A⦄ → DecEq (Option A)
option_eq = record { dec = option_discrete }

instance abbrev pub list_eq {ℓ} : {A : Type ℓ} ⦃e : DecEq A⦄ → DecEq (List A)
list_eq = record { dec = list_discrete }

-- `len(value) == len(set(value))`
module _ {A : Type 0} ⦃e : DecEq A⦄ where
  unfoldable pub holds : List A → A → Bool
  holds [] a = false
  holds (x ∷ xs) a = elim (e.dec x a) [ yes _ ↦ true | no _ ↦ holds xs a ]

  unfoldable pub is_unique : List A → Bool
  unfolding holds
  is_unique [] = true
  is_unique (x ∷ xs) = elim (holds xs x) [ true ↦ false | false ↦ is_unique xs ]
