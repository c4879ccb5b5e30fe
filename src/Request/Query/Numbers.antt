-- ===== src/Request/Query/Numbers.antt =====
-- The numbers of the ids of query parameters: the highest of them, and the ids whose number is below a bound.
use purr.Common.{ℕ, ◌≤◌, ◌<◌, ◌≡◌, some, List, [], ◌∷◌, arith, String, All, Option-cases, inl, inr}
use purr.Request.{Param}
use purr.Request.Query.{Web, max, higher, highest_from}

-- `Number.MAX_SAFE_INTEGER`
abbrev pub max_safe_integer : ℕ
max_safe_integer = 9007199254740991

module _ (web : Web) where
  -- The number of an id is below a bound.
  abbrev pub Below : ℕ → String → Type 0
  Below n id = (m : ℕ) → web.id_number id ≡ some m → m < n

  pub highest_from-ge : (n : ℕ) (ps : List Param) → n ≤ highest_from web n ps
  unfolding highest_from
  highest_from-ge n [] = omega arith
  highest_from-ge n (p ∷ ps) = elim (Option-cases (web.id_number p.id)) [
    | inl unnumbered ↦ rw unnumbered (highest_from-ge n ps)
    | inr (m, numbered) ↦ rw numbered (ground (arith, highest_from-ge (max n m) ps))
  ]

  pub All-highest_from :
      (n k : ℕ) (ps : List Param) → highest_from web n ps < k → All (λ p. Below k (Param.id p)) ps
  unfolding highest_from
  All-highest_from n k [] h = tt
  All-highest_from n k (p ∷ ps) h = (
    λ m e. omega (arith, bound m e, h, highest_from-ge (higher n (web.id_number p.id)) ps),
    All-highest_from (higher n (web.id_number p.id)) k ps h,
  )
    where
      bound : (m : ℕ) → web.id_number p.id ≡ some m → m ≤ higher n (web.id_number p.id)
      bound m e = rw e (ground arith)

  pub highest_from-lt :
      (n k : ℕ) (ps : List Param)
      → n < k
      → All (λ p. Below k (Param.id p)) ps
      → highest_from web n ps < k
  unfolding highest_from
  highest_from-lt n k [] h bs = h
  highest_from-lt n k (p ∷ ps) h (b, bs) = elim (Option-cases (web.id_number p.id)) [
    | inl unnumbered ↦ rw unnumbered (highest_from-lt n k ps h bs)
    | inr (m, numbered) ↦
        rw numbered (highest_from-lt (max n m) k ps (ground (arith, h, b m numbered)) bs)
  ]

  pub All-Below :
      (n k : ℕ) (ps : List Param)
      → n ≤ k
      → All (λ p. Below n (Param.id p)) ps
      → All (λ p. Below k (Param.id p)) ps
  All-Below n k [] le bs = tt
  All-Below n k (p ∷ ps) le (b, bs) = ((λ m q. omega (arith, b m q, le)), All-Below n k ps le bs)
