-- ===== src/Project/Tests.antt =====
-- A small project and its checks.
use purr.Common.{
  ◌≡◌, refl, true, false, ◌&&◌, not, Option, none, some, List, [], ◌∷◌, ◌++◌, ◌⊎◌, String, codes,
  all, is_some, trim, includes,
}
use purr.Project.{
  Credential, plain, secret, HeaderDefinition, VariableDefinition, static_variable, http_scope,
  inherits, bearer_token, no_body, RequestDefinition, request, environment, folder, ProjectResource,
  WorkspaceDefinition, Project, folder_cycle, missing_folder, plain_credential, each,
  foreign_secret,
}
use purr.Project.Refs.{is_runtime_ref, is_own_ref}
use purr.Project.Credentials.{
  validate_v2_headers, is_cookie_header, validate_v2_resource_definition,
}
use purr.Project.Protected.{
  is_reference, is_marked, sensitive_values, headers_of, own_credentials,
  validate_v2_resource_definition-is_some,
}
use purr.Project.Folders.{validate_folders}
use purr.Project.Rooted.{validate_folders_total}
use purr.Project.Validate.{valid, thrown, validate_project}
use purr.Project.Valid.{IsValid, validate_project-IsValid}

abbrev folder_named : String → Option String → ProjectResource
folder_named id parent = record {
  id = id;
  name = codes id;
  description = none;
  folder_id = parent;
  kind = folder;
}

abbrev cookie_header : Credential → HeaderDefinition
cookie_header value = record {
  id = "cookie";
  name = codes " Cookie ";
  enabled = true;
  sensitive = true;
  value = value;
}

abbrev ping : Credential → RequestDefinition
ping value = record {
  settings = none;
  tracing = none;
  trace_propagation = none;
  url = codes "https://{{host}}/ping";
  method = codes "GET";
  documentation = none;
  params = [];
  path_params = [];
  headers = cookie_header value ∷ [];
  body = no_body;
  auth = inherits none (some "team");
  environment_id = some "local";
  overrides = none;
  origin = none;
  graphql = none;
}

abbrev ping_resource : Credential → ProjectResource
ping_resource value = record {
  id = "ping";
  name = codes "Ping";
  description = none;
  folder_id = some "inner";
  kind = request (ping value);
}

abbrev variable : String → String → String → VariableDefinition
variable id name value = record {
  id = id;
  name = codes name;
  enabled = true;
  sensitive = false;
  kind = static_variable (some (codes value)) none;
}

abbrev local_environment : ProjectResource
local_environment = record {
  id = "local";
  name = codes "Local";
  description = none;
  folder_id = none;
  kind = environment (variable "v2" "host" "localhost" ∷ []);
}

abbrev sample_workspace : WorkspaceDefinition
sample_workspace = record {
  default_graphql_schema_id = none;
  trace_propagation = none;
  id = "demo";
  name = codes "Demo";
  description = none;
  variables = variable "v1" "host" "example.com" ∷ [];
  headers = [];
  auth =
      record {
        id = "team";
        name = codes "Team";
        scope = http_scope;
        enabled = true;
        config = bearer_token (secret "purr/demo/team") (codes "Bearer");
      }
      ∷ [];
}

abbrev sample_resources : Credential → List ProjectResource
sample_resources value =
    ping_resource value
    ∷ folder_named "inner" (some "outer")
    ∷ folder_named "outer" none
    ∷ local_environment
    ∷ []

abbrev sample : Project
sample = record {
  workspace = sample_workspace;
  resources = sample_resources (secret "purr/demo/session");
}

sample-valid : validate_project sample ≡ valid sample
unfolding validate_project trim includes is_runtime_ref is_own_ref
sample-valid = refl

foreign-thrown :
    validate_project (record sample { resources = sample_resources (secret "purr/other/session") })
    ≡ thrown foreign_secret
unfolding validate_project trim includes is_runtime_ref is_own_ref
foreign-thrown = refl

cycle-thrown :
    validate_project
      (record sample { resources = folder_named "a" (some "b") ∷ folder_named "b" (some "a") ∷ [] })
    ≡ thrown folder_cycle
unfolding validate_project trim includes is_runtime_ref is_own_ref
cycle-thrown = refl

plain-refused :
    validate_v2_resource_definition (ping_resource (plain (codes "sid=1"))) ≡ some plain_credential
unfolding validate_v2_resource_definition validate_v2_headers each is_cookie_header trim
plain-refused = refl

validate_project-IsValid_example : IsValid sample
validate_project-IsValid_example = validate_project-IsValid sample sample sample-valid

validate_folders_total_example :
    (validate_folders sample.resources (folder_named "x" (some "x")) ≡ none)
    ⊎ (validate_folders sample.resources (folder_named "x" (some "x")) ≡ some folder_cycle)
    ⊎ (validate_folders sample.resources (folder_named "x" (some "x")) ≡ some missing_folder)
validate_folders_total_example =
    validate_folders_total sample.resources (folder_named "x" (some "x"))

validate_v2_resource_definition-is_some_example :
    is_some (validate_v2_resource_definition (ping_resource (plain (codes "sid=1"))))
    ≡ not (
        all is_reference (
          sensitive_values (headers_of (request (ping (plain (codes "sid=1")))))
          ++ own_credentials (request (ping (plain (codes "sid=1")))))
        && all is_marked (headers_of (request (ping (plain (codes "sid=1"))))))
validate_v2_resource_definition-is_some_example =
    validate_v2_resource_definition-is_some (ping_resource (plain (codes "sid=1")))
