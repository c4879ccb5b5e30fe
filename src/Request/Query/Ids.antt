-- ===== src/Request/Query/Ids.antt =====
-- The ids of query parameters: a new one is not in use, and reading a URL keeps them apart.
use purr.Common.{
  ℕ, suc, ◌+◌, ◌≤◌, ◌<◌, ◌≡◌, refl, ap, ◌∙◌, false, not, Option, none, some, List, [], ◌∷◌, ◌++◌,
  arith, String, Text, ◌===◌, includes, includes-append, Distinct, Distinct-append_one, eq_iff,
  keep, find, All, All-append, length, All-keep, Bool-cases, inl, inr,
}
use purr.Request.{Param}
use purr.Request.Query.{
  Web, is_populated, highest_from, get_highest_query_param_id, create_empty_request_query_param,
  params_from, new_id, spare_or, query_params, get_request_query_params_from_url, query_of,
}
use purr.Request.Query.Populated.{ids, ids-append, Distinct-keep, spare-unpopulated}
use purr.Request.Query.Numbers.{
  max_safe_integer, Below, All-highest_from, highest_from-lt, All-Below,
}

module _ (web : Web) where
  -- Ids are read back and numbers added exactly as far as doubles go.
  module _ (written : (n : ℕ) → n ≤ max_safe_integer → web.id_number (web.numbered_id n) ≡ some n)
      (exact : (a b : ℕ) → a + b ≤ max_safe_integer → web.plus a b ≡ a + b) where
    new_id-number :
        (h i : ℕ) → h + i + 1 ≤ max_safe_integer → web.id_number (new_id web h i) ≡ some (h + i + 1)
    unfolding new_id
    new_id-number h i fits =
        ap (λ n. web.id_number (web.numbered_id n))
          (ap (λ n. web.plus n 1) (exact h i (omega (arith, fits))) ∙ exact (h + i) 1 fits)
        ∙ written (h + i + 1) fits

    new_id-Below :
        (h i k : ℕ) → h + i + 1 ≤ max_safe_integer → h + i + 1 < k → Below web k (new_id web h i)
    new_id-Below h i k fits less m e = ground (arith, less, e, new_id-number h i fits)

    new_id-ne :
        (h i : ℕ) (id : String)
        → h + i + 1 ≤ max_safe_integer
        → Below web (h + i + 1) id
        → (new_id web h i === id) ≡ false
    new_id-ne h i id fits b =
        ground (arith, eq_iff (new_id web h i) id, new_id-number h i fits, b (h + i + 1))

    numbered-new :
        (n : ℕ) (id : String) (ps : List Param)
        → web.id_number id ≡ some n
        → All (λ p. Below web n (Param.id p)) ps
        → includes (ids ps) id ≡ false
    unfolding includes
    numbered-new n id [] e b = refl
    numbered-new n id (p ∷ ps) e (b, bs) =
        ground (arith, numbered-new n id ps e bs, eq_iff p.id id, e, b n)

    -- An id below the bound that no populated parameter has is not among the new ones.
    params_from-new :
        (h i : ℕ) (populated : List Param) (entries : List (Text × Text)) (id : String)
        → h + i + length entries ≤ max_safe_integer
        → Below web (h + i + 1) id
        → includes (ids populated) id ≡ false
        → includes (ids (params_from web h i populated entries)) id ≡ false
    unfolding params_from includes
    params_from-new h i populated [] id fits b free = refl
    params_from-new h i [] (e ∷ entries) id fits b free = ground (
      arith,
      new_id-ne h i id (omega (arith, fits)) b,
      params_from-new h (suc i) [] entries id (omega (arith, fits)) (λ m q. omega (arith, b m q)),
    )
    params_from-new h i (p ∷ populated) (e ∷ entries) id fits b free = ground (
      arith,
      free,
      params_from-new h (suc i) populated entries id (omega (arith, fits))
          (λ m q. omega (arith, b m q)),
    )

    params_from-Distinct :
        (h i : ℕ) (populated : List Param) (entries : List (Text × Text))
        → h + i + length entries ≤ max_safe_integer
        → Distinct (ids populated)
        → All (λ p. Below web (h + i + 1) (Param.id p)) populated
        → Distinct (ids (params_from web h i populated entries))
    unfolding params_from includes
    params_from-Distinct h i populated [] fits d b = tt
    params_from-Distinct h i [] (e ∷ entries) fits d b = (
      params_from-new h (suc i) [] entries (new_id web h i) (omega (arith, fits))
          (new_id-Below h i (h + suc i + 1) (omega (arith, fits)) (omega arith)) refl,
      params_from-Distinct h (suc i) [] entries (omega (arith, fits)) tt tt,
    )
    params_from-Distinct h i (p ∷ populated) (e ∷ entries) fits (n, d) (b, bs) = (
      params_from-new h (suc i) populated entries p.id (omega (arith, fits))
          (λ m q. omega (arith, b m q)) n,
      params_from-Distinct h (suc i) populated entries (omega (arith, fits)) d
          (All-Below web (h + i + 1) (h + suc i + 1) populated (omega arith) bs),
    )

    -- The numbers of what is read are at most the highest of the current ones and the entries together.
    params_from-Below :
        (h i k : ℕ) (populated : List Param) (entries : List (Text × Text))
        → h + i + length entries ≤ max_safe_integer
        → h + i + length entries < k
        → All (λ p. Below web k (Param.id p)) populated
        → All (λ p. Below web k (Param.id p)) (params_from web h i populated entries)
    unfolding params_from
    params_from-Below h i k populated [] fits less b = tt
    params_from-Below h i k [] (e ∷ entries) fits less b = (
      new_id-Below h i k (omega (arith, fits)) (omega (arith, less)),
      params_from-Below h (suc i) k [] entries (omega (arith, fits)) (omega (arith, less)) tt,
    )
    params_from-Below h i k (p ∷ populated) (e ∷ entries) fits less (b, bs) = (
      b,
      params_from-Below h (suc i) k populated entries (omega (arith, fits)) (omega (arith, less))
          bs,
    )

    -- A new parameter has an id that no parameter of the list has.
    create_empty_request_query_param_unused :
        (params : List Param)
        → get_highest_query_param_id web params + 1 ≤ max_safe_integer
        → includes (ids params) (create_empty_request_query_param web params).id ≡ false
    unfolding create_empty_request_query_param get_highest_query_param_id
    create_empty_request_query_param_unused params fits =
        numbered-new (highest_from web 0 params + 1) _ params
          (rw (exact (highest_from web 0 params) 1 fits)
            (written (highest_from web 0 params + 1) fits))
          (All-highest_from web 0 (highest_from web 0 params + 1) params (omega arith))

    find-Below :
        (n : ℕ) (ps : List Param) (s : Param)
        → All (λ p. Below web n (Param.id p)) ps
        → find (λ p. not (is_populated p)) ps ≡ some s
        → Below web n s.id
    find-Below n [] s bs h = absurd (cc)
    find-Below n (p ∷ ps) s (b, bs) h = elim (Bool-cases (is_populated p)) [
      | inl full ↦ find-Below n ps s bs (ground (arith, full, h))
      | inr blank ↦ λ m e. b m (ground (arith, blank, h, e))
    ]

    module _ (current : List Param) (entries : List (Text × Text))
        (fits : get_highest_query_param_id web current + length entries + 1 ≤ max_safe_integer)
        (d : Distinct (ids current)) where
      abbrev highest : ℕ
      highest = get_highest_query_param_id web current

      abbrev read : List Param
      read = params_from web highest 0 (keep is_populated current) entries

      below : All (λ p. Below web (highest + 1) (Param.id p)) current
      unfolding get_highest_query_param_id
      below = All-highest_from web 0 (highest + 1) current (omega arith)

      room : get_highest_query_param_id web (current ++ read) + 1 ≤ max_safe_integer
      unfolding get_highest_query_param_id
      room = omega (
        arith,
        fits,
        highest_from-lt web 0 (highest + length entries + 1) (current ++ read) (omega arith) (
            All-append _ current read
              (All-Below web (highest + 1) (highest + length entries + 1) current (omega arith)
                below)
              (params_from-Below highest 0 (highest + length entries + 1)
                (keep is_populated current) entries (omega (arith, fits)) (omega arith)
                (All-keep _ is_populated current (
                  All-Below web (highest + 1) (highest + length entries + 1) current (omega arith)
                    below)))),
      )

      spare-new :
          (o : Option Param)
          → find (λ p. not (is_populated p)) current ≡ o
          → includes
              (ids read)
              (spare_or o (create_empty_request_query_param web (current ++ read))).id
            ≡ false
      spare-new none h = ground (
        arith,
        create_empty_request_query_param_unused (current ++ read) room,
        ids-append current read,
        includes-append (ids current) (ids read)
            (create_empty_request_query_param web (current ++ read)).id,
      )
      spare-new (some s) h =
          params_from-new highest 0 (keep is_populated current) entries s.id (omega (arith, fits))
            (λ m q. omega (arith, find-Below (highest + 1) current s below h m q))
            (spare-unpopulated current s d h)

      read-Distinct : Distinct (ids read)
      read-Distinct =
          params_from-Distinct highest 0 (keep is_populated current) entries (omega (arith, fits))
            (Distinct-keep is_populated current d)
            (All-Below web (highest + 1) (highest + 0 + 1) (keep is_populated current) (omega arith)
              (All-keep _ is_populated current below))

    -- Reading the parameters of a URL keeps their ids apart: when no two of the current parameters share
    -- an id, no two of those that are read do, with the empty one at the end; as long as the highest
    -- number of an id, the number of the URL's entries and one make at most 2^53 - 1, up to which ids
    -- are read back and numbers added exactly.
    pub get_request_query_params-Distinct :
        (url : Text) (current : List Param)
        → get_highest_query_param_id web current + length (web.parse_query (query_of url)) + 1
          ≤ max_safe_integer
        → Distinct (ids current)
        → Distinct (ids (get_request_query_params_from_url web url current))
    unfolding get_request_query_params_from_url query_params
    get_request_query_params-Distinct url current fits d =
        rw (ids-append (query_params web url current) (_ ∷ [])) (
          Distinct-append_one _ _ (read-Distinct current (web.parse_query (query_of url)) fits d) (
            spare-new current (web.parse_query (query_of url)) fits d
              (find (λ p. not (is_populated p)) current) refl))
