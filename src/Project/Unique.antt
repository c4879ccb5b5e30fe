-- ===== src/Project/Unique.antt =====
-- src/domain/project.ts: `new Set(xs).size !== xs.length`, the test for repeated entries.
use purr.Common.{
  Different, ◌≤◌, ◌≡◌, ◌↔◌, refl, Bool, false, not, List, [], ◌∷◌, arith, any, length, nat_eq,
  if◌then◌else◌,
}

-- `new Set(xs)`, as the list of its elements, by an equality test.
module _ {ℓ} {A : Type ℓ} (eq : A → A → Bool) where
  pub to_set : List A → List A
  to_set [] = []
  to_set (x ∷ xs) = if any (eq x) xs then to_set xs else x ∷ to_set xs

-- `new Set(xs).size !== xs.length`
unfoldable pub repeats {ℓ} : {A : Type ℓ} → (A → A → Bool) → List A → Bool
unfolding to_set
repeats eq xs = not (nat_eq (length (to_set eq xs)) (length xs))

module _ {ℓ} {A : Type ℓ} (eq : A → A → Bool) where
  length-to_set : (xs : List A) → length (to_set eq xs) ≤ length xs
  unfolding to_set
  length-to_set [] = omega arith
  length-to_set (x ∷ xs) = ground (arith, length-to_set xs)

  pub Different_of_size : (xs : List A) → length (to_set eq xs) ≡ length xs → Different eq xs
  unfolding to_set
  Different_of_size [] h = tt
  Different_of_size (x ∷ xs) h = ground (arith, length-to_set xs, Different_of_size xs)

  pub size_of_Different : (xs : List A) → Different eq xs → length (to_set eq xs) ≡ length xs
  unfolding to_set
  size_of_Different [] h = refl
  size_of_Different (x ∷ xs) h = ground (arith, size_of_Different xs h.1)

-- The test for repeated entries fails exactly where no entry equals a later one.
pub repeats_iff {ℓ} :
    {A : Type ℓ} (eq : A → A → Bool) (xs : List A) → (repeats eq xs ≡ false) ↔ Different eq xs
unfolding repeats
repeats_iff eq xs =
    (λ h. Different_of_size eq xs (ground arith), λ d. ground (arith, size_of_Different eq xs d))
