-- ===== src/Request/Tests.antt =====
-- src/features/request-workbench/model: requests at concrete inputs.
use purr.Common.{
  ◌+◌, ◌≡◌, refl, true, none, some, [], ◌∷◌, Text, codes, lower, map, truthy, trim, trim_start,
  is_space, length,
}
use purr.Request.{RequestDraft, empty_draft, plain_header, create_request_auth, bearer, RequestAuth}
use purr.Request.Query.{Web}
use purr.Request.Bounds.{IsBounded, get_request_settings, get_request_settings-IsBounded}
use purr.Request.Shared.{
  http, RequestConfig, all_requests, apply_workspace_request_config, shared_headers, is_shared,
  is_own,
}
use purr.Request.Shared.Again.{untemplated, apply_workspace_request_config_again}

abbrev draft : RequestDraft
draft = record (empty_draft (codes "purr-1")) {
  settings = some (record {
    follow_redirects = none;
    max_redirects = some 51;
    timeout_ms = some 0;
    validate_tls_certificates = none;
    http_version = none;
    store_cookies = none;
  });
}

get_request_settings-IsBounded_example : IsBounded (get_request_settings draft)
get_request_settings-IsBounded_example = get_request_settings-IsBounded draft

abbrev web : Web
web = record {
  id_number = λ s. none;
  numbered_id = λ n. "param-1";
  plus = ◌+◌;
  parse_query = λ s. [];
  format_query = λ es. [];
}

abbrev lower_text : Text → Text
lower_text s = map lower s

lower_truthy : (s : Text) → truthy s ≡ true → truthy (lower_text s) ≡ true
lower_truthy [] h = h
lower_truthy (c ∷ s) h = refl

abbrev token : RequestAuth
token = record create_request_auth { type = bearer }

abbrev config : RequestConfig
config = record {
  schema_connections = [];
  integrations = none;
  trace_propagation = none;
  headers =
      record {
        header = plain_header "header-1" (codes "X-Team") (codes "purr") true;
        scope = all_requests;
      }
      ∷ [];
  auth =
      record {
        id = "auth-1";
        name = codes "Team";
        enabled = true;
        scope = all_requests;
        value = token;
      }
      ∷ [];
}

apply_workspace_request_config_again_example :
    untemplated (
      apply_workspace_request_config web lower_text
        (apply_workspace_request_config web lower_text draft http config)
        http
        config)
    ≡ untemplated (apply_workspace_request_config web lower_text draft http config)
apply_workspace_request_config_again_example =
    apply_workspace_request_config_again web lower_text lower_truthy draft http config

one_shared : length (shared_headers web lower_text draft http config) ≡ 1
unfolding shared_headers is_shared is_own trim trim_start is_space
one_shared = refl
