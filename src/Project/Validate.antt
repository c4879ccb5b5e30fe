-- ===== src/Project/Validate.antt =====
-- src/domain/project.ts: `validateProject`.
use purr.Common.{
  ℕ, Bool, true, false, ◌&&◌, ◌||◌, not, Option, none, some, List, [], ◌++◌, map, String, Text,
  trim, truthy, text_eq, ◌===◌, is_some, any, keep, concat, nat_eq,
}
use purr.Project.{
  HeaderDefinition, DynamicRequest, cached, VariableKind, static_variable, dynamic_request,
  external_secret, VariableDefinition, AuthDefinition, inherits, Scope, all_scope, http_scope,
  graphql_scope, RequestDefinition, Origin, ResourceKind, request, api_schema, environment,
  ProjectResource, SharedHeader, AuthProfile, WorkspaceDefinition, Project, ProjectError,
  duplicate_resources, duplicate_configuration, auth_inherits, duplicate_variable_names,
  duplicate_variable_ids, duplicate_environment_names, sensitive_static, plain_static,
  external_not_sensitive, missing_request, missing_environment, missing_duration, missing_profile,
  missing_schema, duplicate_environment_variable_names, environment_not_static, ◌or_else◌, throw_if,
  each,
}
use purr.Project.Parse.{parse_workspace, parse_resource, trim_workspace, trim_resource}
use purr.Project.Folders.{validate_folders}
use purr.Project.Refs.{check_workspace, check_resource}
use purr.Project.Unique.{repeats}

-- The names that are not blank.
abbrev pub names_of : List VariableDefinition → List Text
names_of vs = keep truthy (map (λ v. trim (VariableDefinition.name v)) vs)

abbrev pub variables_of : ProjectResource → List VariableDefinition
variables_of r = elim r.kind [ environment variables ↦ variables | _ ↦ [] ]

abbrev pub is_environment : ResourceKind → Bool
is_environment (environment _) = true
is_environment _ = false

abbrev pub is_request : ResourceKind → Bool
is_request (request _) = true
is_request _ = false

abbrev pub is_api_schema : ResourceKind → Bool
is_api_schema (api_schema _ _ _) = true
is_api_schema _ = false

-- `resources.some((item) => item.id === id && …)`
abbrev pub has_resource : (ResourceKind → Bool) → List ProjectResource → String → Bool
has_resource p resources id =
    any (λ item. (ProjectResource.id item === id) && p (ProjectResource.kind item)) resources

abbrev pub inherits_auth : AuthDefinition → Bool
inherits_auth (inherits _ _) = true
inherits_auth _ = false

abbrev pub is_static : VariableKind → Bool
is_static (static_variable _ _) = true
is_static _ = false

abbrev pub present_ref : Option String → Bool
present_ref none = false
present_ref (some s) = not (s === "")

abbrev pub is_cached : DynamicRequest → Bool
is_cached d = elim d.refresh [ cached ↦ true | _ ↦ false ]

abbrev pub has_duration : Option ℕ → Bool
has_duration none = false
has_duration (some n) = not (nat_eq n 0)

abbrev pub missing : (ResourceKind → Bool) → List ProjectResource → Option String → Bool
missing p resources none = false
missing p resources (some id) = not (id === "") && not (has_resource p resources id)

-- `validateDynamicVariable`
abbrev pub validate_variable_kind : List ProjectResource → Bool → VariableKind → Option ProjectError
validate_variable_kind resources sensitive (static_variable value ref) =
    throw_if (sensitive && (not (present_ref ref) || is_some value)) sensitive_static
    or_else throw_if (not sensitive && (not (is_some value) || is_some ref)) plain_static
validate_variable_kind resources sensitive (external_secret provider key) =
    throw_if (not sensitive) external_not_sensitive
validate_variable_kind resources sensitive (dynamic_request d) =
    throw_if (missing is_request resources (some d.document_id)) missing_request
    or_else throw_if (missing is_environment resources d.environment_id) missing_environment
    or_else throw_if (is_cached d && not (has_duration d.cache_ttl_seconds)) missing_duration

abbrev pub validate_variable : List ProjectResource → VariableDefinition → Option ProjectError
validate_variable resources v = validate_variable_kind resources v.sensitive v.kind

-- An inherited profile must be one of the workspace's, for requests of this kind.
abbrev pub scope_fits : Scope → RequestDefinition → Bool
scope_fits all_scope r = true
scope_fits http_scope r = not (is_some r.graphql)
scope_fits graphql_scope r = is_some r.graphql

abbrev pub has_profile : WorkspaceDefinition → RequestDefinition → Option String → Bool
has_profile w r none = true
has_profile w r (some id) =
    id === "" || any (λ p. (AuthProfile.id p === id) && scope_fits (AuthProfile.scope p) r) w.auth

abbrev pub profile_of : AuthDefinition → Option String
profile_of (inherits source profile) = profile
profile_of _ = none

abbrev pub has_schema : List ProjectResource → Option Origin → Bool
has_schema resources none = true
has_schema resources (some o) = has_resource is_api_schema resources o.schema_id

-- The body of the loop over the resources, before the folders.
unfoldable pub validate_kind :
    WorkspaceDefinition → List ProjectResource → ResourceKind → Option ProjectError
unfolding repeats each
validate_kind w resources (request r) =
    throw_if (not (has_profile w r (profile_of r.auth))) missing_profile
    or_else throw_if (not (has_schema resources r.origin)) missing_schema
validate_kind w resources (environment variables) =
    throw_if (repeats text_eq (names_of variables)) duplicate_environment_variable_names
    or_else throw_if (any (λ v. not (is_static (VariableDefinition.kind v))) variables)
        environment_not_static
    or_else each (validate_variable resources) variables
validate_kind w resources _ = none

unfoldable pub validate_resource :
    WorkspaceDefinition → List ProjectResource → ProjectResource → Option ProjectError
unfolding validate_kind validate_folders
validate_resource w resources r =
    validate_kind w resources r.kind or_else validate_folders resources r

abbrev pub profile_ids : List AuthProfile → List String
profile_ids ps = map AuthProfile.id ps

abbrev pub shared_header_ids : List SharedHeader → List String
shared_header_ids hs = map (λ h. HeaderDefinition.id (SharedHeader.header h)) hs

abbrev pub resource_ids : List ProjectResource → List String
resource_ids resources = map ProjectResource.id resources

abbrev pub variable_ids : WorkspaceDefinition → List ProjectResource → List String
variable_ids w resources =
    map VariableDefinition.id (w.variables ++ concat (map variables_of resources))

abbrev pub environment_names : List ProjectResource → List Text
environment_names resources = keep truthy (
    map (λ r. trim (ProjectResource.name r))
      (keep (λ r. is_environment (ProjectResource.kind r)) resources))

unfoldable pub validate_names : WorkspaceDefinition → List ProjectResource → Option ProjectError
unfolding repeats
validate_names w resources =
    throw_if (repeats (◌===◌) (resource_ids resources)) duplicate_resources
    or_else throw_if
        (repeats (◌===◌) (profile_ids w.auth) || repeats (◌===◌) (shared_header_ids w.headers))
        duplicate_configuration
    or_else throw_if (any (λ p. inherits_auth (AuthProfile.config p)) w.auth) auth_inherits
    or_else throw_if (repeats text_eq (names_of w.variables)) duplicate_variable_names
    or_else throw_if (repeats (◌===◌) (variable_ids w resources)) duplicate_variable_ids
    or_else throw_if (repeats text_eq (environment_names resources)) duplicate_environment_names

-- The checks of the definitions that the schemas have read.
unfoldable pub validate_parsed : WorkspaceDefinition → List ProjectResource → Option ProjectError
unfolding check_workspace check_resource validate_names validate_resource each
validate_parsed w resources =
    check_workspace w
    or_else each (check_resource w.id) resources
    or_else validate_names w resources
    or_else each (validate_resource w resources) resources
    or_else each (validate_variable resources) w.variables

pub data Validated : Type 0 where
  valid : Project → Validated
  thrown : ProjectError → Validated

abbrev pub validated : Option ProjectError → Project → Validated
validated none p = valid p
validated (some e) p = thrown e

unfoldable pub validate_project : Project → Validated
unfolding parse_workspace parse_resource validate_parsed each
validate_project p =
    let workspace = trim_workspace p.workspace in
    let resources = map trim_resource p.resources in
    validated
      (parse_workspace p.workspace
        or_else each parse_resource p.resources
        or_else validate_parsed workspace resources)
      (record { workspace = workspace; resources = resources })
