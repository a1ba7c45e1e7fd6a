-- ===== src/Prelude/Texts.antt =====
-- Texts as lists of code points.
use Prim.Native.Char.{code}
use Prim.Native.String.{String}
use Prim.Native.Nat.{ℕ}
use mathlib.Core.Path.{◌≡◌, refl}
use mathlib.Core.Logic.{◌≢◌}
use mathlib.Core.Bool.{Bool, true, false}
use mathlib.Core.List.{List, [], ◌∷◌}
unfoldable use native.Mathlib.Decide.{ℕ_discrete}
use redis_smq.Prelude.Tests.{holds, holds-true, holds-false, of_holds}

abbrev pub Text : Type 0
Text = List ℕ

abbrev pub codes : String → Text
codes String.[] = []
codes (String.◌∷◌ c s) = code c ∷ codes s

unfoldable pub Text-discrete : Discrete Text
Text-discrete = hlevel ℕ_discrete

unfoldable pub text_eq : Text → Text → Bool
unfolding Text-discrete ℕ_discrete
text_eq a b = holds (Text-discrete a b)

pub text_eq_refl : (a : Text) → text_eq a a ≡ true
unfolding text_eq
text_eq_refl a = holds-true (Text-discrete a a) refl

pub text_eq_ne : (a b : Text) → a ≢ b → text_eq a b ≡ false
unfolding text_eq
text_eq_ne a b h = holds-false (Text-discrete a b) h

pub of_text_eq : (a b : Text) → text_eq a b ≡ true → a ≡ b
unfolding text_eq
of_text_eq a b h = of_holds (Text-discrete a b) h

text_eq_runs : text_eq (codes "ab") (codes "ab") ≡ true
unfolding text_eq
text_eq_runs = refl
