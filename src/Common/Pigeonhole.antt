-- ===== src/Common/Pigeonhole.antt =====
-- A list without repetitions whose entries stand in another list is not longer than it.
use Prim.Native.Nat.{suc, ◌≤◌}
use mathlib.Core.Path.{◌≡◌}
use mathlib.Core.Bool.{Bool, true, false}
use mathlib.Core.List.{List, [], ◌∷◌}
use native.Mathlib.Omega.{arith}
use purr.Common.Tests.{if◌then◌else◌}
use purr.Common.Lists.{length, any}

module _ {ℓ} {A : Type ℓ} (eq : A → A → Bool) where
  -- No entry equals a later one.
  abbrev pub Different : List A → Type 0
  Different [] = Unit
  Different (x ∷ xs) = (any (eq x) xs ≡ false) × Different xs

  -- Every entry stands in `all_of`.
  abbrev pub Within : List A → List A → Type 0
  Within all_of [] = Unit
  Within all_of (x ∷ xs) = (any (eq x) all_of ≡ true) × Within all_of xs

  remove : A → List A → List A
  remove x [] = []
  remove x (y ∷ ys) = if eq x y then remove x ys else y ∷ remove x ys

  length-remove_le : (x : A) (ys : List A) → length (remove x ys) ≤ length ys
  unfolding remove
  length-remove_le x [] = omega arith
  length-remove_le x (y ∷ ys) = ground (arith, length-remove_le x ys)

  length-remove :
      (x : A) (ys : List A) → any (eq x) ys ≡ true → suc (length (remove x ys)) ≤ length ys
  unfolding remove
  length-remove x [] h = absurd (cc)
  length-remove x (y ∷ ys) h = ground (arith, length-remove_le x ys, length-remove x ys)

  module _ (sound : (a b : A) → eq a b ≡ true → a ≡ b) where
    any-remove :
        (x a : A) (ys : List A)
        → eq x a ≡ false
        → any (eq a) ys ≡ true
        → any (eq a) (remove x ys) ≡ true
    unfolding remove
    any-remove x a [] n h = h
    any-remove x a (y ∷ ys) n h = ground (arith, any-remove x a ys n, sound a y, sound x y)

    Within-remove :
        (x : A) (ys xs : List A) → any (eq x) xs ≡ false → Within ys xs → Within (remove x ys) xs
    Within-remove x ys [] n h = tt
    Within-remove x ys (a ∷ xs) n h =
        (any-remove x a ys (ground arith) h.0, Within-remove x ys xs (ground arith) h.1)

    pub length-Within : (ys xs : List A) → Different xs → Within ys xs → length xs ≤ length ys
    length-Within ys [] d h = omega arith
    length-Within ys (x ∷ xs) d h = omega (
      arith,
      length-remove x ys h.0,
      length-Within (remove x ys) xs d.1 (Within-remove x ys xs d.0 h.1),
    )
