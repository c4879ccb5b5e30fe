-- ===== src/Project/Credentials.antt =====
-- src/domain/project.ts: the checks at every border of the version 2 files, where a protected credential is
-- a reference or a template and never the value itself.
use purr.Common.{
  lower, Bool, true, false, ◌&&◌, ◌||◌, not, Option, none, some, List, Text, codes, trim, text_eq,
  map, if◌then◌else◌,
}
use purr.Project.{
  Credential, plain, template, secret, HeaderDefinition, AuthDefinition, no_auth, inherits,
  bearer_token, basic_auth, api_key_auth, oauth2_auth, SchemaSource, registry, ResourceKind,
  request, schema, integration, ProjectResource, SharedHeader, AuthProfile, WorkspaceDefinition,
  ProjectError, plain_credential, cookie_not_sensitive, secret_not_sensitive, ◌or_else◌, throw_if,
  each, each_some,
}

-- `["cookie", "set-cookie"].includes(name.trim().toLowerCase())`
unfoldable pub is_cookie_header : Text → Bool
is_cookie_header name =
    text_eq (map lower (trim name)) (codes "cookie")
    || text_eq (map lower (trim name)) (codes "set-cookie")

abbrev pub is_secret : Credential → Bool
is_secret (secret ref) = true
is_secret _ = false

abbrev pub validate_protected_credential : Credential → Option ProjectError
validate_protected_credential (plain value) = some plain_credential
validate_protected_credential (secret ref) = none
validate_protected_credential (template value) = none

abbrev pub validate_v2_auth : AuthDefinition → Option ProjectError
validate_v2_auth no_auth = none
validate_v2_auth (inherits source profile) = none
validate_v2_auth (bearer_token token prefix) = validate_protected_credential token
validate_v2_auth (basic_auth username password) = validate_protected_credential password
validate_v2_auth (api_key_auth name placement value) = validate_protected_credential value
validate_v2_auth (oauth2_auth o) = validate_protected_credential o.client_secret

unfoldable pub validate_v2_header : HeaderDefinition → Option ProjectError
validate_v2_header h =
    throw_if (is_cookie_header h.name && not h.sensitive) cookie_not_sensitive
    or_else (if h.sensitive then validate_protected_credential h.value else none)
    or_else throw_if (is_secret h.value && not h.sensitive) secret_not_sensitive

unfoldable pub validate_v2_headers : List HeaderDefinition → Option ProjectError
unfolding validate_v2_header
validate_v2_headers hs = each validate_v2_header hs

unfoldable pub validate_v2_workspace_definition : WorkspaceDefinition → Option ProjectError
unfolding validate_v2_headers
validate_v2_workspace_definition w =
    validate_v2_headers (map SharedHeader.header w.headers)
    or_else each (λ p. validate_v2_auth (AuthProfile.config p)) w.auth

abbrev pub validate_v2_source : SchemaSource → Option ProjectError
validate_v2_source (registry provider resource credential) =
    each_some validate_protected_credential credential
validate_v2_source _ = none

abbrev pub validate_v2_kind : ResourceKind → Option ProjectError
validate_v2_kind (request r) = validate_v2_headers r.headers or_else validate_v2_auth r.auth
validate_v2_kind (schema s) =
    validate_v2_headers s.introspection_headers
    or_else each_some validate_v2_auth s.auth
    or_else validate_v2_source s.source
validate_v2_kind (integration i) = each (λ c. validate_protected_credential c.1) i.credentials
validate_v2_kind _ = none

unfoldable pub validate_v2_resource_definition : ProjectResource → Option ProjectError
validate_v2_resource_definition r = validate_v2_kind r.kind
