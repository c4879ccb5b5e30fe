-- ===== src/Project/Protected.antt =====
-- What a version 2 definition that passes its checks holds: an independent list of its protected
-- credentials, none of which is a value in the clear.
use purr.Common.{
  Bool, true, false, ◌&&◌, ◌||◌, not, Option, none, some, List, [], ◌∷◌, ◌++◌, ◌≡◌, refl, arith,
  Text, map, all, is_some, if◌then◌else◌,
}
use purr.Project.{
  Credential, plain, HeaderDefinition, AuthDefinition, bearer_token, basic_auth, api_key_auth,
  oauth2_auth, SchemaSource, registry, ResourceKind, request, schema, api_schema, environment,
  folder, integration, extension, ProjectResource, ProjectError, ◌or_else◌, each, each_some,
}
use purr.Project.Credentials.{
  is_cookie_header, is_secret, validate_protected_credential, validate_v2_auth, validate_v2_header,
  validate_v2_headers, validate_v2_source, validate_v2_kind, validate_v2_resource_definition,
}

abbrev pub is_reference : Credential → Bool
is_reference (plain value) = false
is_reference _ = true

abbrev pub auth_credentials : AuthDefinition → List Credential
auth_credentials (bearer_token token prefix) = token ∷ []
auth_credentials (basic_auth username password) = password ∷ []
auth_credentials (api_key_auth name placement value) = value ∷ []
auth_credentials (oauth2_auth o) = o.client_secret ∷ []
auth_credentials _ = []

abbrev pub source_credentials : SchemaSource → List Credential
source_credentials (registry provider resource (some credential)) = credential ∷ []
source_credentials _ = []

abbrev pub sensitive_values : List HeaderDefinition → List Credential
sensitive_values [] = []
sensitive_values (h ∷ hs) =
    let rest = sensitive_values hs in if h.sensitive then h.value ∷ rest else rest

abbrev pub optional_auth_credentials : Option AuthDefinition → List Credential
optional_auth_credentials none = []
optional_auth_credentials (some a) = auth_credentials a

abbrev pub headers_of : ResourceKind → List HeaderDefinition
headers_of (request r) = r.headers
headers_of (schema s) = s.introspection_headers
headers_of _ = []

abbrev pub own_credentials : ResourceKind → List Credential
own_credentials (request r) = auth_credentials r.auth
own_credentials (schema s) = optional_auth_credentials s.auth ++ source_credentials s.source
own_credentials (integration i) = map (λ c. c.1) i.credentials
own_credentials _ = []

-- A header that carries cookies or a secret is marked sensitive.
abbrev pub is_marked : HeaderDefinition → Bool
is_marked h = h.sensitive || not (is_cookie_header h.name || is_secret h.value)

pub all-append {ℓ} :
    {A : Type ℓ} (p : A → Bool) (xs ys : List A) → all p (xs ++ ys) ≡ (all p xs && all p ys)
all-append p [] ys = refl
all-append p (x ∷ xs) ys = ground (arith, all-append p xs ys)

validate_v2_auth-is_some :
    (a : AuthDefinition)
    → is_some (validate_v2_auth a) ≡ not (all is_reference (auth_credentials a))
validate_v2_auth-is_some a = ground arith

validate_v2_headers-is_some :
    (hs : List HeaderDefinition)
    → is_some (validate_v2_headers hs)
      ≡ not (all is_reference (sensitive_values hs) && all is_marked hs)
unfolding validate_v2_headers validate_v2_header each
validate_v2_headers-is_some [] = refl
validate_v2_headers-is_some (h ∷ hs) = ground (arith, validate_v2_headers-is_some hs)

credentials-is_some :
    (cs : List (Text × Credential))
    → is_some (each (λ c. validate_protected_credential c.1) cs)
      ≡ not (all is_reference (map (λ c. c.1) cs))
unfolding each
credentials-is_some [] = refl
credentials-is_some (c ∷ cs) = ground (arith, credentials-is_some cs)

pub or_else-is_some : (a b : Option ProjectError) → is_some (a or_else b) ≡ (is_some a || is_some b)
or_else-is_some none b = refl
or_else-is_some (some e) b = refl

schema-is_some :
    (a : Option AuthDefinition) (s : SchemaSource)
    → is_some (each_some validate_v2_auth a or_else validate_v2_source s)
      ≡ not (all is_reference (optional_auth_credentials a ++ source_credentials s))
schema-is_some a s = ground arith

validate_v2_kind-is_some :
    (k : ResourceKind)
    → is_some (validate_v2_kind k)
      ≡ not (
          all is_reference (sensitive_values (headers_of k) ++ own_credentials k)
          && all is_marked (headers_of k))
validate_v2_kind-is_some (request r) = ground (
  arith,
  validate_v2_headers-is_some r.headers,
  validate_v2_auth-is_some r.auth,
  all-append is_reference (sensitive_values r.headers) (auth_credentials r.auth),
)
validate_v2_kind-is_some (schema s) = ground (
  arith,
  validate_v2_headers-is_some s.introspection_headers,
  or_else-is_some (validate_v2_headers s.introspection_headers)
      (each_some validate_v2_auth s.auth or_else validate_v2_source s.source),
  schema-is_some s.auth s.source,
  all-append is_reference (sensitive_values s.introspection_headers)
      (optional_auth_credentials s.auth ++ source_credentials s.source),
)
validate_v2_kind-is_some (api_schema source location document) = refl
validate_v2_kind-is_some (environment variables) = refl
validate_v2_kind-is_some folder = refl
validate_v2_kind-is_some (integration i) = ground (arith, credentials-is_some i.credentials)
validate_v2_kind-is_some (extension extension_type config_version) = refl

-- The version 2 check of a resource throws exactly where one of its protected credentials (those of its
-- authentication, of its sensitive headers, of a schema registry, of an integration) is a value in the
-- clear, or where one of its headers that carries cookies or a secret is not marked sensitive.
pub validate_v2_resource_definition-is_some :
    (r : ProjectResource)
    → is_some (validate_v2_resource_definition r)
      ≡ not (
          all is_reference (sensitive_values (headers_of r.kind) ++ own_credentials r.kind)
          && all is_marked (headers_of r.kind))
unfolding validate_v2_resource_definition
validate_v2_resource_definition-is_some r = validate_v2_kind-is_some r.kind
