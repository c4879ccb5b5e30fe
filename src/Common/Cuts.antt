-- ===== src/Common/Cuts.antt =====
-- Text cut at a character: what `before` and `after?` make of a concatenation.
use Prim.Native.Nat.{ℕ}
use mathlib.Core.Path.{◌≡◌, refl}
use mathlib.Core.Bool.{false, ◌||◌}
use mathlib.Core.List.{[], ◌∷◌, ◌++◌}
use native.Mathlib.Omega.{arith}
use purr.Common.Strings.{Text, has_char, before, after?}

pub before-append :
    (c : ℕ) (s t : Text) → has_char c s ≡ false → before c (s ++ t) ≡ s ++ before c t
unfolding has_char before
before-append c [] t h = refl
before-append c (d ∷ s) t h = ground (arith, before-append c s t)

pub after-append : (c : ℕ) (s t : Text) → has_char c s ≡ false → after? c (s ++ t) ≡ after? c t
unfolding has_char after?
after-append c [] t h = refl
after-append c (d ∷ s) t h = ground (arith, after-append c s t)

pub has_char-before : (c : ℕ) (s : Text) → has_char c (before c s) ≡ false
unfolding has_char before
has_char-before c [] = refl
has_char-before c (d ∷ s) = ground (arith, has_char-before c s)

pub has_char-before_other :
    (c d : ℕ) (s : Text) → has_char d s ≡ false → has_char d (before c s) ≡ false
unfolding has_char before
has_char-before_other c d [] h = refl
has_char-before_other c d (e ∷ s) h = ground (arith, has_char-before_other c d s)

pub has_char-append : (c : ℕ) (s t : Text) → has_char c (s ++ t) ≡ (has_char c s || has_char c t)
unfolding has_char
has_char-append c [] t = refl
has_char-append c (d ∷ s) t = ground (arith, has_char-append c s t)

pub before_of_absent : (c : ℕ) (s : Text) → has_char c s ≡ false → before c s ≡ s
unfolding has_char before
before_of_absent c [] h = refl
before_of_absent c (d ∷ s) h = ground (arith, before_of_absent c s)
