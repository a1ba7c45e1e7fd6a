-- ===== src/Prelude/Lists.antt =====
-- Lists measured and indexed by native numbers, under the library's names.
use Prim.Native.Nat.{ℕ, zero, suc, ◌+◌}
use mathlib.Core.Path.{◌≡◌, refl, ap, sym, ◌∙◌}
use mathlib.Core.List.{List, [], ◌∷◌, ◌++◌}
use mathlib.Core.Option.{Option, none, some}
use native.Mathlib.Omega.{arith}

module _ {ℓ} {A : Type ℓ} where
  abbrev pub length : List A → ℕ
  length [] = 0
  length (x ∷ xs) = suc (length xs)

  abbrev pub take : ℕ → List A → List A
  take zero xs = []
  take (suc n) [] = []
  take (suc n) (x ∷ xs) = x ∷ take n xs

  abbrev pub drop : ℕ → List A → List A
  drop zero xs = xs
  drop (suc n) [] = []
  drop (suc n) (x ∷ xs) = drop n xs

  abbrev pub get_elem? : List A → ℕ → Option A
  get_elem? [] i = none
  get_elem? (x ∷ xs) zero = some x
  get_elem? (x ∷ xs) (suc i) = get_elem? xs i

  -- The last element, and the list without it.
  abbrev pub split_last : List A → Option (List A × A)
  split_last [] = none
  split_last (x ∷ xs) = elim (split_last xs) [
    | none ↦ some ([], x)
    | some (ys, y) ↦ some (x ∷ ys, y)
  ]

  pub length-append : (xs ys : List A) → length (xs ++ ys) ≡ length xs + length ys
  length-append [] ys = omega arith
  length-append (x ∷ xs) ys = omega (arith, length-append xs ys)

  -- The list with its last element.
  abbrev joined : Option (List A × A) → List A
  joined none = []
  joined (some (xs, x)) = xs ++ x ∷ []

  joined_step :
      (x : A) (xs : List A) (o : Option (List A × A))
      → joined o ≡ xs
      → joined (elim o [ none ↦ some ([], x) | some (ys, y) ↦ some (x ∷ ys, y) ]) ≡ x ∷ xs
  joined_step x xs none e = ap (λ t. x ∷ t) e
  joined_step x xs (some (ys, y)) e = ap (λ t. x ∷ t) e

  joined-split_last : (xs : List A) → joined (split_last xs) ≡ xs
  joined-split_last [] = refl
  joined-split_last (x ∷ xs) = joined_step x xs (split_last xs) (joined-split_last xs)

  pub of_split_last : (l : List A) {x : List A × A} → split_last l ≡ some x → l ≡ x.0 ++ x.1 ∷ []
  of_split_last l h = sym (joined-split_last l) ∙ ap joined h

  pub split_last-append : (xs : List A) (v : A) → split_last (xs ++ v ∷ []) ≡ some (xs, v)
  split_last-append [] v = refl
  split_last-append (x ∷ xs) v = rw (split_last-append xs v) refl
