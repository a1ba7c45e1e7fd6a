-- ===== src/Prelude/Tests.antt =====
-- Boolean tests on numbers, the conditional, and case lemmas that keep the equation.
use Prim.Native.Nat.{ℕ, compare, Ordering}
use mathlib.Core.Path.{◌≡◌, refl}
use mathlib.Core.Logic.{◌⊎◌, inl, inr}
use mathlib.Core.Bool.{Bool, true, false}
use mathlib.Core.Option.{Option, none, some}
use native.Mathlib.Omega.{arith}

abbrev pub ltb : ℕ → ℕ → Bool
ltb a b = elim (compare a b) [ Ordering.lt ↦ true | _ ↦ false ]

abbrev pub leb : ℕ → ℕ → Bool
leb a b = elim (compare a b) [ Ordering.gt ↦ false | _ ↦ true ]

infix 50 ◌==◌
abbrev pub ◌==◌ : ℕ → ℕ → Bool
a == b = elim (compare a b) [ Ordering.eq ↦ true | _ ↦ false ]

infix 1 if◌then◌else◌
abbrev pub if◌then◌else◌ {ℓ} : {A : Type ℓ} → Bool → A → A → A
if true then x else y = x
if false then x else y = y

-- The truth of a decision.
abbrev pub holds {ℓ} : {A : Type ℓ} → Dec A → Bool
holds (yes p) = true
holds (no p) = false

pub holds-true {ℓ} : {A : Type ℓ} (d : Dec A) → A → holds d ≡ true
holds-true (yes p) a = refl
holds-true (no p) a = absurd (p a)

pub holds-false {ℓ} : {A : Type ℓ} (d : Dec A) → ¬ A → holds d ≡ false
holds-false (yes p) h = absurd (h p)
holds-false (no p) h = refl

pub of_holds {ℓ} : {A : Type ℓ} (d : Dec A) → holds d ≡ true → A
of_holds (yes p) h = p
of_holds (no p) h = absurd (ground arith)

pub Bool-cases : (b : Bool) → (b ≡ true) ⊎ (b ≡ false)
Bool-cases true = inl refl
Bool-cases false = inr refl

pub Option-cases {ℓ} : {A : Type ℓ} (o : Option A) → (o ≡ none) ⊎ ((a : A) × (o ≡ some a))
Option-cases none = inl refl
Option-cases (some a) = inr (a, refl)
