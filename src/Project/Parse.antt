-- ===== src/Project/Parse.antt =====
-- src/domain/project.ts: what the schemas ask of a definition beyond its shape, and what they change in it.
use purr.Common.{
  ℕ, Bool, true, ◌&&◌, ◌||◌, not, Option, none, List, [], ◌∷◌, map, String, codes, trim, truthy,
  leb, nat_eq, any, length, includes, ◌===◌,
}
use purr.Template.{is_pure_template_reference}
use purr.Request.{Settings}
use purr.Project.{
  Credential, plain, template, secret, HeaderDefinition, VariableKind, static_variable,
  dynamic_request, external_secret, VariableDefinition, AuthDefinition, no_auth, inherits,
  bearer_token, basic_auth, api_key_auth, oauth2_auth, Attachment, BodyDefinition, no_body,
  text_body, binary_body, form_body, FormField, Tracing, Overrides, Origin, GraphqlDefinition,
  RequestDefinition, SchemaSource, introspection, schema_file, registry, IntegrationTracing,
  ResourceKind, request, schema, api_schema, environment, folder, integration, extension,
  ProjectResource, SharedHeader, AuthProfile, WorkspaceDefinition, ProjectError, invalid_definition,
  ◌or_else◌, throw_if, each, each_some,
}
use purr.Project.Patterns.{
  is_entity_id, is_secret_ref, is_trace_propagation, is_method, is_provider_id, is_credential_key,
}

abbrev pub require : Bool → Option ProjectError
require b = throw_if (not b) invalid_definition

abbrev pub parse_credential : Credential → Option ProjectError
parse_credential (plain value) = none
parse_credential (secret ref) = require (is_secret_ref (codes ref))
parse_credential (template value) = require (is_pure_template_reference value)

abbrev pub parse_id : String → Option ProjectError
parse_id id = require (is_entity_id id)

abbrev pub parse_header : HeaderDefinition → Option ProjectError
parse_header h = parse_id h.id or_else parse_credential h.value

-- `new Set(ids).size === ids.length`, of identifiers.
pub all_different : List String → Bool
all_different [] = true
all_different (id ∷ ids) = not (includes ids id) && all_different ids

abbrev pub header_ids : List HeaderDefinition → List String
header_ids [] = []
header_ids (h ∷ hs) = h.id ∷ header_ids hs

unfoldable pub parse_headers : List HeaderDefinition → Option ProjectError
unfolding all_different each
parse_headers hs = each parse_header hs or_else require (all_different (header_ids hs))

abbrev pub is_positive : ℕ → Bool
is_positive n = leb 1 n

abbrev pub parse_variable_kind : VariableKind → Option ProjectError
parse_variable_kind (static_variable value ref) =
    each_some (λ r. require (is_secret_ref (codes r))) ref
parse_variable_kind (dynamic_request d) =
    require (leb (length (codes d.document_id)) 128)
    or_else each_some (λ n. require (is_positive n)) d.cache_ttl_seconds
    or_else each_some parse_id d.environment_id
parse_variable_kind (external_secret provider key) = none

abbrev pub is_brace : ℕ → Bool
is_brace c = nat_eq c b'{' || nat_eq c b'}'

unfoldable pub parse_variable : VariableDefinition → Option ProjectError
parse_variable v =
    parse_id v.id
    or_else require (truthy (trim v.name))
    or_else require (not (any is_brace (trim v.name)))
    or_else parse_variable_kind v.kind

-- A variable's name is trimmed.
abbrev pub trim_variable : VariableDefinition → VariableDefinition
trim_variable v = record v { name = trim v.name }

unfoldable pub parse_auth : AuthDefinition → Option ProjectError
parse_auth no_auth = none
parse_auth (inherits source profile) = each_some parse_id profile
parse_auth (bearer_token token prefix) = parse_credential token
parse_auth (basic_auth username password) = parse_credential password
parse_auth (api_key_auth name placement value) = parse_credential value
parse_auth (oauth2_auth o) = parse_credential o.client_secret

abbrev pub parse_attachment : Attachment → Option ProjectError
parse_attachment a = parse_id a.id

unfoldable pub parse_body : BodyDefinition → Option ProjectError
unfolding each
parse_body no_body = none
parse_body (text_body _ content) = none
parse_body (binary_body file) = each_some parse_attachment file
parse_body (form_body _ fields) = each (λ f. each_some parse_attachment (FormField.file f)) fields

abbrev pub parse_settings : Settings → Option ProjectError
parse_settings s =
    each_some (λ n. require (leb n 50)) s.max_redirects
    or_else each_some (λ n. require (leb 1 n && leb n 3600000)) s.timeout_ms

unfoldable pub parse_request : RequestDefinition → Option ProjectError
unfolding parse_headers parse_auth parse_body each
parse_request r =
    each_some parse_settings r.settings
    or_else each_some (λ t. each_some parse_id (Tracing.integration_id t)) r.tracing
    or_else each_some (λ p. require (is_trace_propagation p)) r.trace_propagation
    or_else require (is_method r.method)
    or_else parse_headers r.headers
    or_else parse_body r.body
    or_else parse_auth r.auth
    or_else each_some parse_id r.environment_id
    or_else each_some (λ o. each parse_id (Overrides.excluded_header_ids o)) r.overrides
    or_else each_some (λ o. parse_id (Origin.schema_id o)) r.origin
    or_else each_some (λ g. each_some parse_id (GraphqlDefinition.schema_id g)) r.graphql

abbrev pub parse_source : SchemaSource → Option ProjectError
parse_source (introspection endpoint request_id) = each_some parse_id request_id
parse_source (schema_file _ location endpoint) = none
parse_source (registry provider resource credential) = each_some parse_credential credential

abbrev pub parse_integration_tracing : IntegrationTracing → Option ProjectError
parse_integration_tracing t =
    require (leb (length t.request_headers) 32) or_else require (leb (length t.response_headers) 32)

unfoldable pub parse_kind : ResourceKind → Option ProjectError
unfolding parse_request parse_headers parse_auth is_provider_id parse_variable each
parse_kind (request r) = parse_request r
parse_kind (schema s) =
    each_some parse_auth s.auth
    or_else parse_headers s.introspection_headers
    or_else parse_source s.source
parse_kind (api_schema source location document) = none
parse_kind (environment variables) = each parse_variable variables
parse_kind folder = none
parse_kind (integration i) =
    each_some parse_integration_tracing i.tracing
    or_else require (is_provider_id i.provider)
    or_else require (is_positive i.config_version)
    or_else each (λ c. require (is_credential_key c.0) or_else parse_credential c.1) i.credentials
parse_kind (extension extension_type config_version) =
    require (is_provider_id extension_type) or_else require (is_positive config_version)

abbrev pub trim_kind : ResourceKind → ResourceKind
trim_kind (environment variables) = environment (map trim_variable variables)
trim_kind k = k

-- `resourceSchema`
unfoldable pub parse_resource : ProjectResource → Option ProjectError
unfolding parse_kind
parse_resource r = parse_id r.id or_else each_some parse_id r.folder_id or_else parse_kind r.kind

abbrev pub trim_resource : ProjectResource → ProjectResource
trim_resource r = record r { kind = trim_kind r.kind }

-- `workspaceDefinitionSchema`
unfoldable pub parse_workspace : WorkspaceDefinition → Option ProjectError
unfolding parse_variable parse_auth each
parse_workspace w =
    each_some parse_id w.default_graphql_schema_id
    or_else each_some (λ p. require (is_trace_propagation p)) w.trace_propagation
    or_else parse_id w.id
    or_else require (not (w.id === "global") && not (w.id === "__global__"))
    or_else each parse_variable w.variables
    or_else each (λ h. parse_header (SharedHeader.header h)) w.headers
    or_else each (λ p. parse_id (AuthProfile.id p) or_else parse_auth (AuthProfile.config p)) w.auth

abbrev pub trim_workspace : WorkspaceDefinition → WorkspaceDefinition
trim_workspace w = record w { variables = map trim_variable w.variables }
