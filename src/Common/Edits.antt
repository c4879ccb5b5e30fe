-- ===== src/Common/Edits.antt =====
-- Edits of a list of identifiers keep it free of repetitions.
use Prim.Native.Nat.{ℕ, zero, suc, ◌+◌, ◌≤◌, ◌<◌}
use Prim.Native.String.{String}
use mathlib.Core.Path.{◌≡◌, refl}
use mathlib.Core.Bool.{true, false, ◌||◌}
use mathlib.Core.Option.{some}
use mathlib.Core.List.{List, [], ◌∷◌, ◌++◌}
use native.Mathlib.Omega.{arith}
use text.Mathlib.TextEquality.{eq_iff}
use text.Mathlib.TextPositions.{eq_refl}
use purr.Common.Lists.{get_elem?, length}
use purr.Common.Ids.{
  ◌===◌, includes, without, swap_id, index_of, splice_in, splice_out, Distinct, includes-append,
  includes-one, includes-without, includes-swap_id,
}

pub Distinct-append_one :
    (xs : List String) (a : String)
    → Distinct xs
    → includes xs a ≡ false
    → Distinct (xs ++ (a ∷ []))
unfolding includes
Distinct-append_one [] a d h = (refl, tt)
Distinct-append_one (x ∷ xs) a (n, d) h = (
  ground (arith, includes-append xs (a ∷ []) x, includes-one a x, eq_iff x a, eq_iff a x),
  Distinct-append_one xs a d (ground arith),
)

pub Distinct-without : (id : String) (xs : List String) → Distinct xs → Distinct (without id xs)
unfolding without
Distinct-without id [] d = tt
Distinct-without id (x ∷ xs) (n, d) =
    ground (arith, Distinct-without id xs d, includes-without id xs x)

pub Distinct-swap_id :
    (from to : String) (xs : List String)
    → Distinct xs
    → includes xs to ≡ false
    → Distinct (swap_id from to xs)
unfolding swap_id includes
Distinct-swap_id from to [] d h = tt
Distinct-swap_id from to (x ∷ xs) (n, d) h = ground (
  arith,
  Distinct-swap_id from to xs d,
  includes-swap_id from to xs x,
  includes-swap_id from to xs to,
  eq_iff x from,
  eq_iff from x,
  eq_iff to x,
  eq_iff x to,
  eq_iff from to,
)

pub includes-get_elem? :
    (xs : List String) (i : ℕ) (a : String) → get_elem? xs i ≡ some a → includes xs a ≡ true
unfolding includes
includes-get_elem? [] i a h = absurd (cc)
includes-get_elem? (x ∷ xs) zero a h = ground (arith, eq_iff x a)
includes-get_elem? (x ∷ xs) (suc i) a h = ground (arith, includes-get_elem? xs i a)

pub includes-splice_in :
    (i : ℕ) (id : String) (xs : List String) (a : String)
    → includes (splice_in i id xs) a ≡ (id === a || includes xs a)
unfolding includes
includes-splice_in zero id xs a = refl
includes-splice_in (suc i) id [] a = refl
includes-splice_in (suc i) id (x ∷ xs) a = ground (arith, includes-splice_in i id xs a)

pub Distinct-splice_in :
    (i : ℕ) (id : String) (xs : List String)
    → Distinct xs
    → includes xs id ≡ false
    → Distinct (splice_in i id xs)
unfolding includes
Distinct-splice_in zero id xs d h = (h, d)
Distinct-splice_in (suc i) id [] d h = (refl, tt)
Distinct-splice_in (suc i) id (x ∷ xs) (n, d) h = (
  ground (arith, includes-splice_in i id xs x, eq_iff id x, eq_iff x id),
  Distinct-splice_in i id xs d (ground arith),
)

pub without_of_absent :
    (id : String) (xs : List String) → includes xs id ≡ false → without id xs ≡ xs
unfolding includes without
without_of_absent id [] h = refl
without_of_absent id (x ∷ xs) h = ground (arith, without_of_absent id xs)

-- In a list without repetitions, taking out the index of an identifier takes out the identifier.
pub splice_out-index_of :
    (xs : List String) (id : String) (i : ℕ)
    → Distinct xs
    → index_of xs id ≡ some i
    → splice_out i xs ≡ without id xs
unfolding index_of without
splice_out-index_of [] id i d h = absurd (cc)
splice_out-index_of (x ∷ xs) id zero (n, d) h = ground (arith, eq_iff x id, without_of_absent id xs)
splice_out-index_of (x ∷ xs) id (suc i) (n, d) h = ground (arith, splice_out-index_of xs id i d)

pub index_of-lt : (xs : List String) (id : String) (i : ℕ) → index_of xs id ≡ some i → i < length xs
unfolding index_of
index_of-lt [] id i h = absurd (cc)
index_of-lt (x ∷ xs) id zero h = omega arith
index_of-lt (x ∷ xs) id (suc i) h = ground (arith, index_of-lt xs id i)

pub index_of-includes :
    (xs : List String) (id : String) (i : ℕ) → index_of xs id ≡ some i → includes xs id ≡ true
unfolding index_of includes
index_of-includes [] id i h = absurd (cc)
index_of-includes (x ∷ xs) id zero h = ground arith
index_of-includes (x ∷ xs) id (suc i) h = ground (arith, index_of-includes xs id i)

pub length-splice_out :
    (xs : List String) (i : ℕ) → i < length xs → length (splice_out i xs) + 1 ≡ length xs
length-splice_out [] i h = absurd (omega arith)
length-splice_out (x ∷ xs) zero h = omega arith
length-splice_out (x ∷ xs) (suc i) h = omega (arith, length-splice_out xs i)

pub index_of-splice_in :
    (i : ℕ) (id : String) (xs : List String)
    → includes xs id ≡ false
    → i ≤ length xs
    → index_of (splice_in i id xs) id ≡ some i
unfolding index_of includes
index_of-splice_in zero id xs h le = ground (arith, eq_refl id)
index_of-splice_in (suc i) id [] h le = absurd (omega arith)
index_of-splice_in (suc i) id (x ∷ xs) h le = ground (arith, index_of-splice_in i id xs)

pub without-splice_in :
    (i : ℕ) (id : String) (xs : List String) → without id (splice_in i id xs) ≡ without id xs
unfolding without
without-splice_in zero id xs = ground (arith, eq_refl id)
without-splice_in (suc i) id [] = ground (arith, eq_refl id)
without-splice_in (suc i) id (x ∷ xs) = ground (arith, without-splice_in i id xs)
