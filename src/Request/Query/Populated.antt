-- ===== src/Request/Query/Populated.antt =====
-- The ids of a list of parameters, of its populated ones and of its first blank one.
use purr.Common.{
  ◌≡◌, refl, ap, Bool, true, false, not, some, List, [], ◌∷◌, ◌++◌, arith, String, includes,
  Distinct, eq_iff, keep, find, Bool-cases, inl, inr,
}
use purr.Request.{Param}
use purr.Request.Query.{is_populated}

abbrev pub ids : List Param → List String
ids [] = []
ids (p ∷ ps) = p.id ∷ ids ps

pub ids-append : (ps qs : List Param) → ids (ps ++ qs) ≡ ids ps ++ ids qs
ids-append [] qs = refl
ids-append (p ∷ ps) qs = ap (λ xs. p.id ∷ xs) (ids-append ps qs)

pub includes-keep :
    (q : Param → Bool) (ps : List Param) (id : String)
    → includes (ids ps) id ≡ false
    → includes (ids (keep q ps)) id ≡ false
unfolding includes
includes-keep q [] id h = refl
includes-keep q (p ∷ ps) id h = ground (arith, includes-keep q ps id)

pub Distinct-keep :
    (q : Param → Bool) (ps : List Param) → Distinct (ids ps) → Distinct (ids (keep q ps))
Distinct-keep q [] d = tt
Distinct-keep q (p ∷ ps) (n, d) = ground (arith, Distinct-keep q ps d, includes-keep q ps p.id n)

-- The spare is none of the populated ones, and has a number below the bound.
pub spare-unpopulated :
    (ps : List Param) (s : Param)
    → Distinct (ids ps)
    → find (λ p. not (is_populated p)) ps ≡ some s
    → includes (ids (keep is_populated ps)) s.id ≡ false
unfolding includes
spare-unpopulated [] s d h = absurd (cc)
spare-unpopulated (p ∷ ps) s (n, d) h = elim (Bool-cases (is_populated p)) [
  | inl full ↦
      rw full
        (ground (arith, full, h, spare-unpopulated ps s d, find-includes ps s, eq_iff p.id s.id))
  | inr blank ↦ rw blank (ground (arith, blank, h, includes-keep is_populated ps p.id n))
]
  where
    find-includes :
        (ps : List Param) (s : Param)
        → find (λ p. not (is_populated p)) ps ≡ some s
        → includes (ids ps) s.id ≡ true
    find-includes [] s h = absurd (cc)
    find-includes (p ∷ ps) s h = ground (arith, find-includes ps s, eq_iff p.id p.id)
