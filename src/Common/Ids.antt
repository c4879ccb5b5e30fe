-- ===== src/Common/Ids.antt =====
-- Lists of identifiers: membership, distinctness, and the edits that the program makes on them.

use Prim.Native.String.{String}
use Prim.Native.Nat.{ℕ, zero, suc}
use mathlib.Core.Path.{◌≡◌, refl}
use mathlib.Core.Bool.{Bool, false, ◌&&◌, ◌||◌, not}
use mathlib.Core.Option.{Option, none, some}
use mathlib.Core.List.{List, [], ◌∷◌, ◌++◌}
use native.Mathlib.Omega.{arith}
use text.Mathlib.TextEquality.{eq_iff}
use text.Mathlib.Text.{◌==◌}
use purr.Common.Tests.{if◌then◌else◌}

-- `===` on strings.
infix 50 ◌===◌
abbrev pub ◌===◌ : String → String → Bool
a === b = a == b

-- `=== id` on a string that may be null or undefined.
abbrev pub is_id : Option String → String → Bool
is_id none id = false
is_id (some a) id = a === id

-- `ids.includes(id)`
unfoldable pub includes : List String → String → Bool
includes [] id = false
includes (x ∷ xs) id = x === id || includes xs id

-- `ids.filter((value) => value !== id)`
unfoldable pub without : String → List String → List String
without id [] = []
without id (x ∷ xs) = if x === id then without id xs else x ∷ without id xs

-- `ids.map((value) => value === from ? to : value)`
unfoldable pub swap_id : String → String → List String → List String
swap_id from to [] = []
swap_id from to (x ∷ xs) = (if x === from then to else x) ∷ swap_id from to xs

-- `ids.indexOf(id)`
unfoldable pub index_of : List String → String → Option ℕ
index_of [] id = none
index_of (x ∷ xs) id =
    if x === id then some 0 else elim (index_of xs id) [ none ↦ none | some i ↦ some (suc i) ]

-- `ids.splice(index, 1)` and `ids.splice(index, 0, id)`
abbrev pub splice_out : ℕ → List String → List String
splice_out i [] = []
splice_out zero (x ∷ xs) = xs
splice_out (suc i) (x ∷ xs) = x ∷ splice_out i xs

abbrev pub splice_in : ℕ → String → List String → List String
splice_in zero id xs = id ∷ xs
splice_in (suc i) id [] = id ∷ []
splice_in (suc i) id (x ∷ xs) = x ∷ splice_in i id xs

abbrev pub Distinct : List String → Type 0
Distinct [] = Unit
Distinct (x ∷ xs) = (includes xs x ≡ false) × Distinct xs

pub includes-append :
    (xs ys : List String) (a : String) → includes (xs ++ ys) a ≡ (includes xs a || includes ys a)
unfolding includes
includes-append [] ys a = refl
includes-append (x ∷ xs) ys a = ground (arith, includes-append xs ys a)

pub includes-one : (x a : String) → includes (x ∷ []) a ≡ (x === a)
unfolding includes
includes-one x a = ground arith

pub includes-without :
    (id : String) (xs : List String) (a : String)
    → includes (without id xs) a ≡ (if id === a then false else includes xs a)
unfolding includes without
includes-without id [] a = ground arith
includes-without id (x ∷ xs) a =
    ground (arith, includes-without id xs a, eq_iff x id, eq_iff x a, eq_iff id a)

pub includes-swap_id :
    (from to : String) (xs : List String) (a : String)
    → includes (swap_id from to xs) a
      ≡ ((includes xs from && (to === a)) || (not (from === a) && includes xs a))
unfolding includes swap_id
includes-swap_id from to [] a = ground arith
includes-swap_id from to (x ∷ xs) a =
    ground (arith, includes-swap_id from to xs a, eq_iff x from, eq_iff x a, eq_iff from a)
