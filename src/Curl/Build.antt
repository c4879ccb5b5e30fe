-- ===== src/Curl/Build.antt =====
-- src/features/request-workbench/model/curl-import.ts: what `importCurl` makes of the options.
use purr.Common.{
  ℕ, suc, ◌+◌, Bool, true, false, ◌&&◌, ◌||◌, not, Option, none, some, List, [], ◌∷◌, ◌++◌, String,
  Text, codes, text_eq, lower, starts_with, drop_text, before, after?, has_char, trim, trim_start,
  truthy, is_space, any, map, keep, nat_eq, find, is_some, if◌then◌else◌,
}
use purr.Request.{
  RequestDraft, RequestAuth, create_request_auth, bearer, basic, Header, Body, BodyField,
  create_request_body, empty_field, json, text, url_encoded,
}
use purr.Request.Query.{get_request_query_params_from_url, higher}
use purr.Authentication.Binding.{http_token}
use purr.Curl.Shell.{tokenize_shell}
use purr.Curl.Import.{
  Web, Result, ok, err, ◌>>=◌, unterminated_quote, not_curl, no_url, Parsed, nothing_parsed,
  text_or, or_else, fold_ascii, is_sensitive, parse_tokens,
}

abbrev basic_of : Text → Option Text → Option RequestAuth
basic_of value none = none
basic_of value (some password) = some (record create_request_auth {
  type = basic;
  basic = record { username = before b':' value; password = password };
})

-- `basicAuth`
unfoldable pub basic_auth : Text → Option RequestAuth
unfolding before after?
basic_auth value = basic_of value (after? b':' value)

-- The characters that `.` does not match.
abbrev is_line_end : ℕ → Bool
is_line_end c = nat_eq c 10 || nat_eq c 13 || nat_eq c 0x2028 || nat_eq c 0x2029

abbrev captured : Text → Option Text
captured [] = none
captured (c ∷ s) = if any is_line_end (c ∷ s) then none else some (c ∷ s)

abbrev after_word : Text → Text → Option Text
after_word word [] = none
after_word word (c ∷ rest) = if is_space c then captured (trim_start rest) else none

-- `/^Basic\s+(.+)$/i`, of a value without spaces at its end.
unfoldable pub basic_match : Text → Option Text
unfolding is_space trim_start
basic_match value =
    if starts_with (codes "basic") (map fold_ascii value)
    then after_word (codes "basic") (drop_text 5 value)
    else none

-- `/^([!#$…]+)\s+(\S+)$/`: the text before the first space, and the text behind the spaces.
unfoldable pub before_space : Text → Text
unfolding is_space
before_space [] = []
before_space (c ∷ s) = if is_space c then [] else c ∷ before_space s

unfoldable pub from_space : Text → Text
unfolding is_space
from_space [] = []
from_space (c ∷ s) = if is_space c then c ∷ s else from_space s

abbrev bearer_auth : Text → Text → RequestAuth
bearer_auth prefix token = record create_request_auth {
  type = bearer;
  bearer = record { prefix = prefix; token = token };
}

unfoldable pub scheme_match : Text → Option RequestAuth
unfolding before_space from_space trim_start is_space http_token
scheme_match value =
    let token = trim_start (from_space value) in
    if http_token (before_space value)
      && truthy (from_space value)
      && truthy token
      && not (any is_space token)
    then some (bearer_auth (before_space value) token)
    else none

-- `[first, ...].join("&")`
abbrev join_data : List Text → Text
join_data [] = []
join_data (d ∷ []) = d
join_data (d ∷ e ∷ ds) = d ++ (b'&' ∷ join_data (e ∷ ds))

-- `s.includes(part)`
unfoldable pub includes_text : Text → Text → Bool
includes_text part [] = starts_with part []
includes_text part (c ∷ s) = starts_with part (c ∷ s) || includes_text part s

abbrev pub is_named : Text → Header → Bool
is_named name h = text_eq (map lower h.name) name

abbrev value_of_header : Option Header → Text
value_of_header none = []
value_of_header (some h) = map lower h.value

-- The list without the first header of a name.
unfoldable pub without_named : Text → List Header → List Header
without_named name [] = []
without_named name (h ∷ headers) =
    if is_named name h then headers else h ∷ without_named name headers

pub record Secret : Type 0 where
  pub header_id : String
  pub header_name : Text
  pub value : Text

abbrev secret_of : Header → Secret
secret_of h = record { header_id = h.id; header_name = h.name; value = h.value }

unfoldable pub is_secret : Header → Bool
unfolding is_sensitive
is_secret h = h.enabled && truthy h.value && is_sensitive h.name

pub record CurlImport : Type 0 where
  pub request : RequestDraft
  pub secrets : List Secret

abbrev auth_or : Option RequestAuth → RequestAuth
auth_or none = create_request_auth
auth_or (some a) = a

abbrev method_or : Option Text → Bool → Bool → Text
method_or (some m) use_head posts = m
method_or none true posts = codes "HEAD"
method_or none false true = codes "POST"
method_or none false false = codes "GET"

module _ (web : Web) where
  -- `authorizationAuth`
  unfoldable pub authorization_auth : Text → Option RequestAuth
  unfolding basic_match basic_auth scheme_match trim
  authorization_auth value = elim (basic_match value) [
    | some credentials ↦ basic_auth (text_or (web.decode_base64 (trim credentials)))
    | none ↦ scheme_match value
  ]

  abbrev highest_field : ℕ → List BodyField → ℕ
  highest_field highest [] = highest
  highest_field highest (f ∷ fields) = highest_field (higher highest (web.field_number f.id)) fields

  abbrev fields_from : ℕ → List (Text × Text) → List BodyField
  fields_from n [] = []
  fields_from n ((key, value) ∷ entries) =
      record (empty_field (web.numbered_field n)) { key = key; value = value; enabled = true }
      ∷ fields_from (suc n) entries

  -- `createEmptyRequestBodyField("url-encoded", fields)`
  abbrev spare_field : List BodyField → BodyField
  spare_field fields = empty_field (web.numbered_field (highest_field 0 fields + 1))

  -- The body of a content, by its type in lower case.
  unfoldable pub body_of_content : Text → Text → Body
  unfolding includes_text
  body_of_content content content_type =
      let fields = fields_from 1 (web.query.parse_query content) in
      if includes_text (codes "json") content_type
      then record (create_request_body web.boundary) { type = json; json = content }
      else if not (truthy content_type)
          || includes_text (codes "x-www-form-urlencoded") content_type
      then record (create_request_body web.boundary) {
        type = url_encoded;
        url_encoded = fields ++ (spare_field fields ∷ []);
      }
      else record (create_request_body web.boundary) { type = text; text = content }

  abbrev authorization_of : Option Header → Option RequestAuth
  authorization_of none = none
  authorization_of (some h) = authorization_auth h.value

  abbrev oauth_of : Text → Option RequestAuth
  oauth_of [] = none
  oauth_of (c ∷ token) = some (bearer_auth (codes "Bearer") (c ∷ token))

  -- `url` with the data in its query.
  abbrev url_with : Parsed → Text → Text
  url_with p content =
      if p.use_get && truthy content
      then p.url ++ ((if has_char b'?' p.url then b'&' ∷ [] else b'?' ∷ []) ++ content)
      else p.url

  -- The request and the secrets, where there is a URL.
  unfoldable pub built : RequestDraft → Parsed → CurlImport
  unfolding authorization_auth body_of_content without_named is_secret has_char
      get_request_query_params_from_url basic_auth
  built base p =
      let content = join_data p.data_parts in
      let posts = truthy content && not p.use_get in
      let url = url_with p content in
      let authorization = authorization_of (find (is_named (codes "authorization")) p.headers) in
      let headers =
        (if is_some authorization
          then without_named (codes "authorization") p.headers
          else p.headers) in
      record {
        request = record base {
          method = method_or p.method p.use_head posts;
          url = url;
          params = get_request_query_params_from_url web.query url base.params;
          headers = headers;
          body =
              if posts
              then body_of_content content
                  (value_of_header (find (is_named (codes "content-type")) p.headers))
              else create_request_body web.boundary;
          auth = auth_or (
              or_else authorization
                (or_else (oauth_of p.oauth_bearer) (basic_auth p.user_credentials)));
        };
        secrets = map secret_of (keep is_secret headers);
      }

  -- The part of `importCurl` behind the loop.
  abbrev pub build : RequestDraft → Parsed → Result CurlImport
  build base p = if truthy p.url then ok (built base p) else err no_url

  abbrev is_curl : Text → Bool
  is_curl word =
      text_eq (map lower word) (codes "curl") || text_eq (map lower word) (codes "curl.exe")

  abbrev on_words : RequestDraft → List Text → Result CurlImport
  on_words base [] = err not_curl
  on_words base (word ∷ tokens) =
      if is_curl word then parse_tokens web 0 tokens nothing_parsed >>= build base else err not_curl

  -- `if (tokens[0] === "$") tokens.shift()`
  abbrev without_prompt : List Text → List Text
  without_prompt [] = []
  without_prompt (word ∷ words) = if text_eq word (codes "$") then words else word ∷ words

  abbrev pub from_words : RequestDraft → Option (List Text) → Result CurlImport
  from_words base none = err unterminated_quote
  from_words base (some words) = on_words base (without_prompt words)

  unfoldable pub import_curl : Text → RequestDraft → Result CurlImport
  unfolding tokenize_shell parse_tokens built
  import_curl command base = from_words base (tokenize_shell command)
