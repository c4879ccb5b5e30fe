-- ===== src/Request/Paths.antt =====
-- src/features/request-workbench/model/request.ts: the parameters in the path of a URL. The regular
-- expression of the source, with a slash or an end on both sides of `:name`, matches whole segments.
pub mod Names
pub mod Apply
mod Tests
use purr.Common.{
  ℕ, zero, suc, ◌+◌, Bool, true, false, ◌&&◌, ◌||◌, not, Option, none, some, List, [], ◌∷◌, ◌++◌,
  String, Text, codes, text_eq, all, trim, truthy, keep, length, leb, nat_eq, if◌then◌else◌,
}
use purr.Request.{PathParam}
use purr.Request.Query.{higher}

-- What `Number(id.replace("path-param-", ""))` reads, where it reads a natural number, the template literal
-- that writes an id, and `encodeURIComponent`, which fails on a lone surrogate.
pub record Web : Type 0 where
  pub id_number : String → Option ℕ
  pub numbered_id : ℕ → String
  pub encode_uri_component : Text → Option Text

abbrev pub ends_path : ℕ → Bool
ends_path c = nat_eq c b'?' || nat_eq c b'#'

-- `url.split(/[?#]/, 1)[0]`, and the rest.
unfoldable pub path_of : Text → Text
path_of [] = []
path_of (c ∷ s) = if ends_path c then [] else c ∷ path_of s

unfoldable pub suffix_of : Text → Text
suffix_of [] = []
suffix_of (c ∷ s) = if ends_path c then c ∷ s else suffix_of s

abbrev pub push : ℕ → List Text → List Text
push c [] = (c ∷ []) ∷ []
push c (s ∷ ss) = (c ∷ s) ∷ ss

-- The segments between slashes.
unfoldable pub split : Text → List Text
split [] = [] ∷ []
split (c ∷ s) = if nat_eq c b'/' then [] ∷ split s else push c (split s)

unfoldable pub join : List Text → Text
join [] = []
join (s ∷ []) = s
join (s ∷ t ∷ ss) = s ++ (b'/' ∷ join (t ∷ ss))

abbrev is_letter : ℕ → Bool
is_letter c = (leb b'A' c && leb c b'Z') || (leb b'a' c && leb c b'z') || nat_eq c b'_'

abbrev is_name_char : ℕ → Bool
is_name_char c = is_letter c || (leb b'0' c && leb c b'9') || nat_eq c b'-'

-- `[A-Za-z_][A-Za-z0-9_-]*`
abbrev is_name : Text → Bool
is_name [] = false
is_name (c ∷ s) = is_letter c && all is_name_char s

unfoldable pub name_of : Text → Option Text
name_of [] = none
name_of (c ∷ s) = if nat_eq c b':' && is_name s then some s else none

abbrev pub and_name : Option Text → List Text → List Text
and_name none names = names
and_name (some name) names = name ∷ names

unfoldable pub names : List Text → List Text
unfolding name_of
names [] = []
names (s ∷ ss) = and_name (name_of s) (names ss)

unfoldable pub path_names : Text → List Text
unfolding names split path_of
path_names url = names (split (path_of url))

-- `param.enabled && param.key.trim().length > 0`
abbrev path_counts : PathParam → Bool
path_counts p = p.enabled && truthy (trim p.key)

unfoldable pub get_enabled_request_path_param_count : List PathParam → ℕ
unfolding trim
get_enabled_request_path_param_count params = length (keep path_counts params)

abbrev and_skip :
    PathParam → Option (PathParam × List PathParam) → Option (PathParam × List PathParam)
and_skip p none = none
and_skip p (some (q, rest)) = some (q, p ∷ rest)

-- The first parameter of a name, and the others: `findIndex` and `splice`.
unfoldable pub take_named : Text → List PathParam → Option (PathParam × List PathParam)
take_named key [] = none
take_named key (p ∷ params) =
    if text_eq p.key key then some (p, params) else and_skip p (take_named key params)

abbrev pub new_path_param : String → Text → PathParam
new_path_param id key = record { id = id; key = key; value = []; enabled = true }

abbrev pub is_set : PathParam → Bool
is_set p = p.enabled && truthy p.key && truthy p.value

-- `new Map(…).get(key)`: the last of a name counts.
unfoldable pub value_of : List PathParam → Text → Option Text
value_of [] key = none
value_of (p ∷ params) key =
    let later = value_of params key in
    elim later [
      | some v ↦ some v
      | none ↦ if is_set p && text_eq p.key key then some p.value else none
    ]

infixl 5 ◌>>=◌
abbrev pub ◌>>=◌ {ℓ κ} : {A : Type ℓ} {B : Type κ} → Option A → (A → Option B) → Option B
none >>= k = none
some a >>= k = k a

module _ (web : Web) where
  unfoldable pub highest_from : ℕ → List PathParam → ℕ
  highest_from highest [] = highest
  highest_from highest (p ∷ params) = highest_from (higher highest (web.id_number p.id)) params

  -- The `map` over the names, from an id on; what remains of the current parameters runs along.
  abbrev or_new :
      (List PathParam → List PathParam)
      → ℕ
      → Text
      → List PathParam
      → Option (PathParam × List PathParam)
      → List PathParam
  or_new go next key remaining none = new_path_param (web.numbered_id next) key ∷ go remaining
  or_new go next key remaining (some (p, rest)) = p ∷ go rest

  unfoldable pub params_of_names : ℕ → List Text → List PathParam → List PathParam
  unfolding take_named
  params_of_names next [] remaining = []
  params_of_names next (key ∷ keys) remaining =
      or_new (params_of_names (suc next) keys) next key remaining (take_named key remaining)

  unfoldable pub get_request_path_params_from_url : Text → List PathParam → List PathParam
  unfolding params_of_names highest_from path_names
  get_request_path_params_from_url url current =
      params_of_names (highest_from 0 current + 1) (path_names url) current

  abbrev pub value_or_same : Text → Option Text → Option Text
  value_or_same segment none = some segment
  value_or_same segment (some value) = web.encode_uri_component value

  abbrev pub substitute_name : List PathParam → Text → Option Text → Option Text
  substitute_name params segment none = some segment
  substitute_name params segment (some key) = value_or_same segment (value_of params key)

  -- The `replace` over the segments.
  unfoldable pub substitute : List PathParam → List Text → Option (List Text)
  unfolding name_of value_of
  substitute params [] = some []
  substitute params (s ∷ ss) =
      let rest = substitute params ss in
      substitute_name params s (name_of s) >>= λ t. rest >>= λ ts. some (t ∷ ts)

  unfoldable pub apply_request_path_params_to_url : Text → List PathParam → Option Text
  unfolding path_of suffix_of split join substitute
  apply_request_path_params_to_url url params =
      substitute params (split (path_of url)) >>= λ segments. some (join segments ++ suffix_of url)
