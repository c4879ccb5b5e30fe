-- ===== src/Workspace/Namespace/Tests.antt =====
-- A workspace with variables of one name at every level.
use purr.Common.{
  Different, ◌≡◌, refl, Bool, true, false, none, some, List, [], ◌∷◌, ◌++◌, String, codes, truthy,
  trim, all, text_eq,
}
use purr.Variable.{Variable, static, Environment}
use purr.Workspace.{Workspace, http, documents}
use purr.Workspace.Namespace.{
  get_effective_variable_value, get_effective_variables, get, validate_environment, repeated,
}
use purr.Workspace.Namespace.Latest.{
  latest, all_variables, optional_value, get-get_effective_variables,
  get_effective_variable_value-latest,
}
use purr.Workspace.Namespace.Checked.{is_proper, filled_names, validate_environment-proper}

abbrev static_named : String → Bool → String → String → Variable
static_named id enabled name value = record {
  id = id;
  name = codes name;
  enabled = enabled;
  sensitive = false;
  value = static (codes value) none;
}

abbrev staging : Environment
staging = record {
  id = "staging";
  name = codes "Staging";
  description = none;
  folder_id = none;
  variables =
      static_named "e1" true " host " "staging.example" ∷ static_named "e2" false "port" "1" ∷ [];
}

abbrev layered : Workspace
layered = record {
  id = "w";
  name = codes "Layers";
  default_graphql_schema_id = none;
  documents = [];
  variables =
      static_named "w1" true "host" "workspace.example" ∷ static_named "w2" true "port" "80" ∷ [];
  environments = staging ∷ [];
  active_environment_id = some "staging";
  ui = record {
    open_document_ids = [];
    active_document_id = none;
    preview_document_id = none;
    last_graphql_schema_id = none;
    last_request_kind = http;
    cookies_tab_open = false;
    cookies_tab_active = false;
    settings_tab_open = false;
    settings_tab_active = false;
    variables_tab_open = false;
    variables_tab_active = false;
    sidebar_open = true;
    sidebar_activity = documents;
  };
}

abbrev globals : List Variable
globals = static_named "g1" true "host" "global" ∷ static_named "g2" true "user" "me" ∷ []

host_value :
    get_effective_variable_value layered globals (some "staging") (codes "host")
    ≡ some (codes "staging.example")
unfolding get_effective_variable_value trim
host_value = refl

port_value :
    get_effective_variable_value layered globals (some "staging") (codes "port") ≡ some (codes "80")
unfolding get_effective_variable_value trim
port_value = refl

repeated_name :
    validate_environment (record staging { variables = layered.variables ++ layered.variables })
    ≡ some (repeated (codes "host"))
unfolding validate_environment trim
repeated_name = refl

get-get_effective_variables_example :
    get (get_effective_variables layered globals (some "staging")) (codes "host")
    ≡ latest (codes "host") (all_variables layered globals (some "staging"))
get-get_effective_variables_example =
    get-get_effective_variables layered globals (some "staging") (codes "host") refl

get_effective_variable_value-latest_example :
    get_effective_variable_value layered globals (some "staging") (codes "user")
    ≡ optional_value (latest (codes "user") (all_variables layered globals (some "staging")))
get_effective_variable_value-latest_example =
    get_effective_variable_value-latest layered globals (some "staging") (codes "user") refl

staging-accepted : validate_environment staging ≡ none
unfolding validate_environment trim
staging-accepted = refl

validate_environment-proper_example :
    (truthy (trim staging.name) ≡ true)
    × (all is_proper staging.variables ≡ true)
    × Different text_eq (filled_names staging.variables)
validate_environment-proper_example = validate_environment-proper staging staging-accepted
