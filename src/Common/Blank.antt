-- ===== src/Common/Blank.antt =====
-- Blank text, and what `trim` makes of it.
use Prim.Native.Nat.{ℕ}
use mathlib.Core.Path.{◌≡◌, refl, sym, ap, ◌∙◌}
use mathlib.Core.Logic.{inl, inr}
use mathlib.Core.Bool.{true, false}
use mathlib.Core.List.{[], ◌∷◌, reverse, reverse-cons, reverse-reverse}
use native.Mathlib.Omega.{arith}
use purr.Common.Tests.{Bool-cases}
use purr.Common.Lists.{All, All-append}
use purr.Common.Strings.{Text, is_space, trim_start, trim}

abbrev pub IsBlank : Text → Type 0
IsBlank s = All (λ c. is_space c ≡ true) s

trim_start-IsBlank : (s : Text) → IsBlank s → trim_start s ≡ []
unfolding trim_start
trim_start-IsBlank [] h = refl
trim_start-IsBlank (c ∷ s) (h, hs) = rw (h, trim_start) (trim_start-IsBlank s hs)

pub trim-IsBlank : (s : Text) → IsBlank s → trim s ≡ []
unfolding trim
trim-IsBlank s h = rw (trim_start-IsBlank s h) refl

IsBlank_of_trim_start : (s : Text) → trim_start s ≡ [] → IsBlank s
unfolding trim_start
IsBlank_of_trim_start [] e = tt
IsBlank_of_trim_start (c ∷ s) e = elim (Bool-cases (is_space c)) [
  | inl space ↦ (space, IsBlank_of_trim_start s (ground arith))
  | inr other ↦ absurd (ground arith)
]

trim_start-head : (s : Text) (c : ℕ) (r : Text) → trim_start s ≡ c ∷ r → is_space c ≡ false
unfolding trim_start
trim_start-head [] c r e = absurd (cc)
trim_start-head (d ∷ s) c r e = elim (Bool-cases (is_space d)) [
  | inl space ↦ trim_start-head s c r (ground arith)
  | inr other ↦ ground arith
]

IsBlank-reverse : (s : Text) → IsBlank s → IsBlank (reverse s)
IsBlank-reverse [] h = tt
IsBlank-reverse (c ∷ s) (h, hs) =
    rw reverse-cons
      (All-append (λ d. is_space d ≡ true) (reverse s) (c ∷ []) (IsBlank-reverse s hs) (h, tt))

pub IsBlank_of_trim : (s : Text) → trim s ≡ [] → IsBlank s
unfolding trim
IsBlank_of_trim s e = IsBlank_of_trim_start s (go (trim_start s) refl)
  where
    last : trim_start (reverse (trim_start s)) ≡ []
    last = sym (reverse-reverse _) ∙ ap reverse e

    blank : IsBlank (trim_start s)
    blank = rw (reverse-reverse (trim_start s)) at (
        IsBlank-reverse (reverse (trim_start s))
          (IsBlank_of_trim_start (reverse (trim_start s)) last))

    go : (r : Text) → trim_start s ≡ r → r ≡ []
    go [] p = refl
    go (c ∷ r) p =
        let h : IsBlank (c ∷ r) = rw p at blank in absurd (cc (trim_start-head s c r p, h.0))
