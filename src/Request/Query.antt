-- ===== src/Request/Query.antt =====
-- src/features/request-workbench/model/request.ts: the query parameters of a request and its URL.
pub mod Trip
pub mod Ids
pub mod Numbers
pub mod Populated
mod Tests
use purr.Common.{
  ℕ, zero, suc, ◌+◌, Bool, true, false, ◌&&◌, ◌||◌, not, Option, none, some, List, [], ◌∷◌, ◌++◌,
  String, Text, codes, before, after?, drop_text, trim, truthy, keep, map, length, find,
  if◌then◌else◌, has_char, leb,
}
use purr.Request.{Param, empty_param}

-- What `Number(id.replace("param-", ""))` reads, where it reads a natural number, the template literal
-- that writes an id, and the addition of two such numbers, which are doubles and lose digits from 2^53 on.
-- `URLSearchParams` reads a query and writes one.
pub record Web : Type 0 where
  pub id_number : String → Option ℕ
  pub numbered_id : ℕ → String
  pub plus : ℕ → ℕ → ℕ
  pub parse_query : Text → List (Text × Text)
  pub format_query : List (Text × Text) → Text

abbrev pub max : ℕ → ℕ → ℕ
max a b = if leb a b then b else a

-- `url.slice(0, hashIndex)` and `url.slice(hashIndex)`, and with `?` likewise.
abbrev pub without_hash : Text → Text
without_hash url = before b'#' url

abbrev pub hash_text : Option Text → Text
hash_text none = []
hash_text (some rest) = b'#' ∷ rest

abbrev pub hash_of : Text → Text
hash_of url = hash_text (after? b'#' url)

abbrev pub text_or_empty : Option Text → Text
text_or_empty none = []
text_or_empty (some s) = s

abbrev pub query_of : Text → Text
query_of url = text_or_empty (after? b'?' (without_hash url))

abbrev pub base_of : Text → Text
base_of url = before b'?' (without_hash url)

-- `param.enabled && param.key.trim().length > 0`
unfoldable pub counts : Param → Bool
unfolding trim
counts p = p.enabled && truthy (trim p.key)

unfoldable pub get_enabled_request_query_param_count : List Param → ℕ
unfolding counts
get_enabled_request_query_param_count params = length (keep counts params)

abbrev pub is_populated : Param → Bool
is_populated p = truthy p.key || truthy p.value

abbrev pub pair_of : Param → Text × Text
pair_of p = (p.key, p.value)

abbrev pub question : Text → Text
question [] = []
question (c ∷ query) = b'?' ∷ c ∷ query

abbrev pub higher : ℕ → Option ℕ → ℕ
higher highest none = highest
higher highest (some id) = max highest id

abbrev pub enabled_param : String → Text × Text → Param
enabled_param id (key, value) = record (empty_param id) { key = key; value = value; enabled = true }

abbrev pub spare_or : Option Param → Param → Param
spare_or none created = created
spare_or (some p) created = record p { enabled = false }

module _ (web : Web) where
  -- `params.reduce(…, 0)`, from a number on.
  unfoldable pub highest_from : ℕ → List Param → ℕ
  highest_from highest [] = highest
  highest_from highest (p ∷ params) = highest_from (higher highest (web.id_number p.id)) params

  unfoldable pub get_highest_query_param_id : List Param → ℕ
  unfolding highest_from
  get_highest_query_param_id params = highest_from 0 params

  unfoldable pub create_empty_request_query_param : List Param → Param
  unfolding get_highest_query_param_id
  create_empty_request_query_param params =
      empty_param (web.numbered_id (web.plus (get_highest_query_param_id params) 1))

  -- `param-${nextId + index + 1}`
  unfoldable pub new_id : ℕ → ℕ → String
  new_id highest index = web.numbered_id (web.plus (web.plus highest index) 1)

  -- The `map` over the entries, from an index on; the populated parameters run along.
  unfoldable pub params_from : ℕ → ℕ → List Param → List (Text × Text) → List Param
  unfolding new_id
  params_from highest index populated [] = []
  params_from highest index [] (e ∷ entries) =
      enabled_param (new_id highest index) e ∷ params_from highest (suc index) [] entries
  params_from highest index (p ∷ populated) (e ∷ entries) =
      enabled_param p.id e ∷ params_from highest (suc index) populated entries

  unfoldable pub query_params : Text → List Param → List Param
  unfolding params_from get_highest_query_param_id
  query_params url current =
      params_from (get_highest_query_param_id current) 0 (keep is_populated current)
        (web.parse_query (query_of url))

  unfoldable pub get_request_query_params_from_url : Text → List Param → List Param
  unfolding query_params create_empty_request_query_param
  get_request_query_params_from_url url current =
      let params = query_params url current in
      params
      ++ (spare_or (find (λ p. not (is_populated p)) current)
            (create_empty_request_query_param (current ++ params))
          ∷ [])

  unfoldable pub apply_request_query_params_to_url : Text → List Param → Text
  unfolding counts before after?
  apply_request_query_params_to_url url params =
      base_of url ++ (question (web.format_query (map pair_of (keep counts params))) ++ hash_of url)
