-- ===== src/Authentication/Binding.antt =====
-- src/features/request-workbench/model/request-auth.ts: `getAuthBinding`. Where the source throws, `err`
-- stands for what the catch block reports.
use purr.Common.{
  ℕ, Bool, true, false, ◌&&◌, ◌||◌, not, Option, none, some, List, [], ◌∷◌, ◌++◌, String, Text,
  codes, text_eq, lower, map, any, all, is_space, trim, trim_start, truthy, has_char, leb, nat_eq,
  ◌===◌, if◌then◌else◌,
}
use purr.Request.{
  AuthType, no_auth, bearer, basic, api_key, oauth2, inherit, Placement, header, query, cookie,
  RequestAuth, OauthToken, SecretFieldState,
}
use purr.Authentication.{
  Shared, AuthContext, AuthError, Outcome, ok, err, ◌>>=◌, ◌>>◌, refuse_if, empty_token,
  token_whitespace, bad_prefix, no_credentials, colon_in_username, no_api_key, bad_api_key_name,
  forbidden_header, no_access_token, token_expired, control_character, uri_error,
}
use purr.Authentication.Inherit.{Resolved, resolve_auth}
use purr.Authentication.Values.{require_optional, resolve_auth_value}

pub record AuthBinding : Type 0 where
  pub target : Placement
  pub name : Text
  pub value : Text

pub record Bound : Type 0 where
  pub binding : Option AuthBinding
  pub error : Option AuthError

-- `btoa` of the UTF-8 bytes of a text, `encodeURIComponent`, which fails on a lone surrogate, and `Date.now()`.
pub record Platform : Type 0 where
  pub base64_utf8 : Text → Text
  pub encode_uri_component : Text → Option Text
  pub now : ℕ

-- `/^Bearer\s+/i`
abbrev after_bearer : Text → Text → Text
after_bearer whole (b ∷ e ∷ a ∷ r ∷ e2 ∷ r2 ∷ c ∷ rest) =
    if text_eq (map lower (b ∷ e ∷ a ∷ r ∷ e2 ∷ r2 ∷ [])) (codes "bearer") && is_space c
    then trim_start rest
    else whole
after_bearer whole _ = whole

unfoldable pub strip_bearer : Text → Text
unfolding is_space trim_start
strip_bearer s = after_bearer s s

unfoldable pub get_bearer_token : RequestAuth → AuthContext → Outcome Text
unfolding resolve_auth_value strip_bearer
get_bearer_token auth context =
    resolve_auth_value auth.bearer.token context >>= λ token. ok (strip_bearer (trim token))

abbrev is_token_char : ℕ → Bool
is_token_char c =
    (leb b'0' c && leb c b'9')
    || (leb b'A' c && leb c b'Z')
    || (leb b'a' c && leb c b'z')
    || any (nat_eq c) (codes "!#$%&'*+-.^_`|~")

-- `httpToken.test(s)`
unfoldable pub http_token : Text → Bool
http_token s = truthy s && all is_token_char s

abbrev forbidden : List Text
forbidden =
    codes "host"
    ∷ codes "content-length"
    ∷ codes "cookie"
    ∷ codes "content-type"
    ∷ codes "connection"
    ∷ codes "transfer-encoding"
    ∷ []

unfoldable pub is_forbidden : Text → Bool
is_forbidden name = any (text_eq (map lower name)) forbidden

-- `/[\r\n\0]/`
abbrev pub breaks : ℕ → Bool
breaks c = nat_eq c 13 || nat_eq c 10 || nat_eq c 0

abbrev join_prefix : Text → Text → Text
join_prefix [] token = token
join_prefix (c ∷ prefix) token = (c ∷ prefix) ++ (b' ' ∷ token)

abbrev pub is_query : Placement → Bool
is_query query = true
is_query _ = false

abbrev pub is_header : Placement → Bool
is_header header = true
is_header _ = false

abbrev pub authorization : Text → Option AuthBinding
authorization value = some (record { target = header; name = codes "Authorization"; value = value })

-- The name of the slot that holds the credential of a type.
abbrev pub credential_slot : AuthType → Option String
credential_slot no_auth = none
credential_slot bearer = some "bearer"
credential_slot basic = some "password"
credential_slot api_key = some "api-key"
credential_slot oauth2 = some "oauth-access-token"
credential_slot inherit = none

abbrev state_of_entries : List (String × SecretFieldState) → String → Option SecretFieldState
state_of_entries [] slot = none
state_of_entries ((key, state) ∷ states) slot =
    if key === slot then some state else state_of_entries states slot

abbrev pub slot_state : RequestAuth → Option String → Option SecretFieldState
slot_state auth none = none
slot_state auth (some slot) = state_of_entries auth.credential_states slot

unfoldable pub bearer_binding : RequestAuth → AuthContext → Outcome (Option AuthBinding)
unfolding get_bearer_token is_space trim resolve_auth_value http_token
bearer_binding auth context = get_bearer_token auth context >>= λ token.
    refuse_if (not (truthy token)) empty_token
    >> (refuse_if (any is_space token) token_whitespace
        >> (resolve_auth_value auth.bearer.prefix context >>= λ prefix.
            refuse_if (truthy (trim prefix) && not (http_token (trim prefix))) bad_prefix
            >> ok (authorization (join_prefix (trim prefix) token))))

module _ (platform : Platform) where
  abbrev pub encode_basic_auth : Text → Text → Text
  encode_basic_auth username password = platform.base64_utf8 (username ++ (b':' ∷ password))

  unfoldable pub basic_binding : RequestAuth → AuthContext → Outcome (Option AuthBinding)
  unfolding resolve_auth_value has_char
  basic_binding auth context = resolve_auth_value auth.basic.username context >>= λ username.
      refuse_if (not (truthy username) && not (truthy auth.basic.password)) no_credentials
      >> (refuse_if (has_char b':' username) colon_in_username
          >> (resolve_auth_value auth.basic.password context >>= λ password.
              ok (authorization (codes "Basic " ++ encode_basic_auth username password))))

  abbrev pub encode_for : Placement → Text → Outcome Text
  encode_for cookie value = elim (platform.encode_uri_component value) [
    | none ↦ err uri_error
    | some v ↦ ok v
  ]
  encode_for _ value = ok value

  unfoldable pub api_key_binding : RequestAuth → AuthContext → Outcome (Option AuthBinding)
  unfolding resolve_auth_value trim http_token is_forbidden
  api_key_binding auth context =
      let placement = auth.api_key.placement in
      resolve_auth_value auth.api_key.name context >>= λ spaced.
      (let name = trim spaced in
        resolve_auth_value auth.api_key.value context >>= λ value.
        refuse_if (not (truthy name) || not (truthy value)) no_api_key
        >> (refuse_if (not (is_query placement) && not (http_token name)) bad_api_key_name
            >> (refuse_if (is_header placement && is_forbidden name) forbidden_header
                >> (encode_for placement value >>= λ encoded.
                    ok (some (record { target = placement; name = name; value = encoded }))))))

  abbrev pub oauth_binding : Option OauthToken → Outcome (Option AuthBinding)
  oauth_binding none = err no_access_token
  oauth_binding (some token) =
      if truthy token.access_token
      then ok (authorization (codes "Bearer " ++ token.access_token))
      else err no_access_token

  -- The `switch`.
  abbrev pub binding_of_type : AuthType → RequestAuth → AuthContext → Outcome (Option AuthBinding)
  binding_of_type no_auth auth context = ok none
  binding_of_type bearer auth context = bearer_binding auth context
  binding_of_type basic auth context = basic_binding auth context
  binding_of_type api_key auth context = api_key_binding auth context
  binding_of_type oauth2 auth context = oauth_binding auth.oauth2.token
  binding_of_type inherit auth context = ok none

  abbrev pub is_oauth2 : AuthType → Bool
  is_oauth2 oauth2 = true
  is_oauth2 _ = false

  abbrev pub has_expired : Option OauthToken → Bool
  has_expired none = false
  has_expired (some token) = elim token.expires_at [ none ↦ false | some t ↦ leb t platform.now ]

  abbrev pub expiry_error : RequestAuth → Option AuthError
  expiry_error auth =
      if is_oauth2 auth.type && has_expired auth.oauth2.token then some token_expired else none

  abbrev pub unless_breaks : RequestAuth → Option AuthBinding → Bound
  unless_breaks auth none = record { binding = none; error = expiry_error auth }
  unless_breaks auth (some b) =
      if any breaks (b.name ++ b.value)
      then record { binding = none; error = some control_character }
      else record { binding = some b; error = expiry_error auth }

  abbrev pub caught : RequestAuth → Outcome (Option AuthBinding) → Bound
  caught auth (ok b) = unless_breaks auth b
  caught auth (err e) = record { binding = none; error = some e }

  unfoldable pub bind_current : RequestAuth → AuthContext → Bound
  unfolding bearer_binding basic_binding api_key_binding
  bind_current auth context = caught auth (
      require_optional (slot_state auth (credential_slot auth.type))
      >> binding_of_type auth.type auth context)

  abbrev pub bind_resolved : Resolved → AuthContext → Bound
  bind_resolved resolved context = elim resolved.error [
    | some e ↦ record { binding = none; error = some e }
    | none ↦ bind_current resolved.auth.auth context
  ]

  unfoldable pub get_auth_binding : Shared → AuthContext → Bound
  unfolding bind_current resolve_auth
  get_auth_binding auth context = bind_resolved (resolve_auth auth context) context
