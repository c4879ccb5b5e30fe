-- ===== src/Request/Paths/Tests.antt =====
-- src/features/request-workbench/model/request.ts: path parameters at concrete inputs.
use purr.Common.{ℕ, ◌+◌, ◌≡◌, refl, none, some, [], ◌∷◌, ◌++◌, arith, Text, codes, map, keep}
use purr.Request.{PathParam}
use purr.Request.Paths.{
  Web, name_of, path_names, suffix_of, new_path_param, get_request_path_params_from_url,
  apply_request_path_params_to_url,
}
use purr.Request.Paths.Names.{keys, get_request_path_params-keys}
use purr.Request.Paths.Apply.{IsSegment, is_unset, apply_request_path_params-names}

abbrev shift : ℕ → ℕ
shift c = c + 100

abbrev web : Web
web = record {
  id_number = λ s. none;
  numbered_id = λ n. "path-param-1";
  encode_uri_component = λ s. some (map shift s);
}

shift-IsSegment : (s : Text) → IsSegment (map shift s)
shift-IsSegment [] = refl
shift-IsSegment (c ∷ s) = ground (arith, shift-IsSegment s)

shift-nameless : (s : Text) → name_of (map shift s) ≡ none
unfolding name_of
shift-nameless [] = refl
shift-nameless (c ∷ s) = ground arith

encoded_free : (s t : Text) → web.encode_uri_component s ≡ some t → IsSegment t
encoded_free s t h = ground (arith, h, shift-IsSegment s)

encoded_nameless : (s t : Text) → web.encode_uri_component s ≡ some t → name_of t ≡ none
encoded_nameless s t h = ground (arith, h, shift-nameless s)

abbrev url : Text
url = codes "/a/:id/b/:name?x"

abbrev set : PathParam
set = record (new_path_param "p" (codes "id")) { value = b'a' ∷ [] }

abbrev result : Text
result = codes "/a/" ++ ((197 ∷ []) ++ codes "/b/:name?x")

applied : apply_request_path_params_to_url web url (set ∷ []) ≡ some result
unfolding apply_request_path_params_to_url
applied = refl

get_request_path_params-keys_example :
    keys (get_request_path_params_from_url web url (set ∷ [])) ≡ codes "id" ∷ codes "name" ∷ []
unfolding path_names
get_request_path_params-keys_example = get_request_path_params-keys web url (set ∷ [])

apply_request_path_params-names_example :
    (path_names result ≡ keep (is_unset (set ∷ [])) (path_names url))
    × (suffix_of result ≡ suffix_of url)
apply_request_path_params-names_example =
    apply_request_path_params-names web encoded_free encoded_nameless url result (set ∷ []) applied
