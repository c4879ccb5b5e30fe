-- ===== src/Request/Shared.antt =====
-- src/features/request-workbench/model/request-workspace-config.ts and request-tracing.ts: what a workspace
-- shares with its requests. `toLowerCase` is a parameter.
pub mod Settled
pub mod Again
use Prim.Native.String.{◌++◌ as append}
use purr.Common.{
  ℕ, zero, suc, Bool, true, false, ◌&&◌, ◌||◌, not, Option, none, some, List, [], ◌∷◌, ◌++◌, String,
  Text, text_eq, trim, truthy, any, keep, map, find, head?, is_some, is_id, ◌===◌, if◌then◌else◌,
  codes,
}
use purr.Request.{
  Header, RequestDraft, RequestAuth, AuthType, no_auth, inherit, InheritSource, from_auto,
  from_workspace, from_environment, from_schema, is_inherit, is_no_auth, TraceHeader,
  RequestTracing, schema_id,
}
use purr.Request.Query.{Web, get_request_query_params_from_url}

pub data RequestKind : Type 0 where
  http graphql : RequestKind

pub data RequestScope : Type 0 where
  all_requests only_http only_graphql : RequestScope

pub record SharedHeader : Type 0 where
  pub header : Header
  pub scope : RequestScope

pub record SharedAuth : Type 0 where
  pub id : String
  pub name : Text
  pub enabled : Bool
  pub scope : RequestScope
  pub value : RequestAuth

pub record SchemaConnection : Type 0 where
  pub id : String
  pub endpoint : Text

-- The fields of an integration that tracing reads.
pub record TracingHeader : Type 0 where
  pub name : Text
  pub value : Text
  pub enabled : Bool

pub data Propagation : Type 0 where
  off w3c b3 : Propagation

pub record IntegrationTracing : Type 0 where
  pub propagation : Propagation
  pub request_headers : List TracingHeader

pub record Integration : Type 0 where
  pub id : String
  pub enabled : Bool
  pub tracing : Option IntegrationTracing

pub record RequestConfig : Type 0 where
  pub schema_connections : List SchemaConnection
  pub integrations : Option (List Integration)
  pub trace_propagation : Option Text
  pub headers : List SharedHeader
  pub auth : List SharedAuth

-- `requestScopeApplies`
abbrev pub request_scope_applies : RequestScope → RequestKind → Bool
request_scope_applies all_requests kind = true
request_scope_applies only_http http = true
request_scope_applies only_graphql graphql = true
request_scope_applies _ _ = false

-- `auth.scope === kind`
abbrev is_scope : RequestScope → RequestKind → Bool
is_scope only_http http = true
is_scope only_graphql graphql = true
is_scope _ _ = false

abbrev pub get_workspace_auth_profiles : RequestConfig → RequestKind → List SharedAuth
get_workspace_auth_profiles config kind =
    keep
      (λ a.
        SharedAuth.enabled a
        && request_scope_applies (SharedAuth.scope a) kind
        && not (is_no_auth (SharedAuth.value a).type))
      config.auth

abbrev pub or_else {ℓ} : {A : Type ℓ} → Option A → Option A → Option A
or_else none b = b
or_else (some a) b = some a

abbrev pub default_profile : List SharedAuth → RequestKind → Option SharedAuth
default_profile profiles kind =
    or_else (find (λ a. is_scope (SharedAuth.scope a) kind) profiles) (head? profiles)

-- `getWorkspaceAuth(config, kind)`; a profile id is only given by other callers.
unfoldable pub get_workspace_auth : RequestConfig → RequestKind → Option String → Option SharedAuth
get_workspace_auth config kind none = default_profile (get_workspace_auth_profiles config kind) kind
get_workspace_auth config kind (some id) =
    if id === ""
    then default_profile (get_workspace_auth_profiles config kind) kind
    else find (λ a. SharedAuth.id a === id) (get_workspace_auth_profiles config kind)

abbrev pub workspace_auth_applies : RequestConfig → RequestKind → Bool
workspace_auth_applies config kind = is_some (get_workspace_auth config kind none)

abbrev pub profile_id : Option SharedAuth → Option String
profile_id none = none
profile_id (some p) = some p.id

-- The authentication of `withWorkspaceAuthDefault`, the only field that it changes.
unfoldable pub with_workspace_auth_default :
    RequestDraft → RequestKind → RequestConfig → RequestAuth
unfolding get_workspace_auth
with_workspace_auth_default request kind config =
    if not request.workspace.auth_enabled
      || not (is_no_auth request.auth.type)
      || not (workspace_auth_applies config kind)
    then request.auth
    else record request.auth {
      type = inherit;
      inherit = record {
        source = from_workspace;
        profile_id = profile_id (get_workspace_auth config kind none);
      };
    }

abbrev pub is_from_workspace : InheritSource → Bool
is_from_workspace from_workspace = true
is_from_workspace _ = false

abbrev pub own_auth : RequestDraft → RequestKind → RequestConfig → RequestAuth
own_auth request http config = with_workspace_auth_default request http config
own_auth request graphql config = request.auth

unfoldable pub effective_auth : RequestDraft → RequestKind → RequestConfig → RequestAuth
unfolding with_workspace_auth_default
effective_auth request kind config =
    if (not request.workspace.auth_enabled || not (workspace_auth_applies config kind))
      && is_inherit request.auth.type
      && is_from_workspace request.auth.inherit.source
    then record request.auth { type = no_auth }
    else own_auth request kind config

pub record Tracing : Type 0 where
  pub integration : Option Integration
  pub enabled : Bool
  pub propagation : Text

abbrev pub is_on : Option Text → Bool
is_on none = false
is_on (some p) = truthy p && not (text_eq p (codes "off"))

abbrev pub chosen : List Integration → Option String → Option Integration
chosen integrations none = find (λ i. Integration.enabled i) integrations
chosen integrations (some id) =
    if id === ""
    then find (λ i. Integration.enabled i) integrations
    else find (λ i. (Integration.id i === id) && Integration.enabled i) integrations

abbrev pub wanted_id : Option RequestTracing → Option String
wanted_id none = none
wanted_id (some t) = t.integration_id

abbrev pub is_enabled : Option RequestTracing → Option Text → Bool
is_enabled none legacy = is_on legacy
is_enabled (some t) legacy = t.enabled

abbrev pub text_or : Option Text → Text → Text
text_or none t = t
text_or (some s) t = s

abbrev pub propagation_text : Propagation → Text
propagation_text off = codes "off"
propagation_text w3c = codes "w3c"
propagation_text b3 = codes "b3"

abbrev pub propagation_of : Option IntegrationTracing → Option Text
propagation_of none = none
propagation_of (some t) = some (propagation_text t.propagation)

abbrev pub traced : Bool → Option Integration → Option Text → Tracing
traced enabled none legacy = record {
  integration = none;
  enabled = false;
  propagation = codes "off";
}
traced enabled (some i) legacy = record {
  integration = some i;
  enabled = enabled;
  propagation =
      if enabled
      then text_or (or_else (propagation_of i.tracing) legacy) (codes "w3c")
      else codes "off";
}

-- `resolveRequestTracing`
unfoldable pub resolve_request_tracing : RequestDraft → List Integration → Option Text → Tracing
resolve_request_tracing request integrations workspace_propagation =
    let legacy = or_else request.trace_propagation workspace_propagation in
    traced (is_enabled request.tracing legacy) (chosen integrations (wanted_id request.tracing))
      legacy

abbrev pub template_of : TracingHeader → TraceHeader
template_of h = record { name = h.name; value = h.value }

abbrev pub request_headers_of : Option IntegrationTracing → Option (List TracingHeader)
request_headers_of none = none
request_headers_of (some t) = some t.request_headers

unfoldable pub templates : Option (List TracingHeader) → Option (List TraceHeader)
unfolding trim
templates none = none
templates (some hs) = some (
    map template_of
      (keep (λ h. TracingHeader.enabled h && truthy (trim (TracingHeader.name h))) hs))

abbrev pub integration_tracing : Option Integration → Option IntegrationTracing
integration_tracing none = none
integration_tracing (some i) = i.tracing

abbrev pub header_templates : Tracing → Option (List TraceHeader)
header_templates t =
    if t.enabled then templates (request_headers_of (integration_tracing t.integration)) else none

abbrev pub override_of : List (String × Bool) → String → Bool
override_of [] id = true
override_of ((key, value) ∷ entries) id = if key === id then value else override_of entries id

module _ (web : Web) (to_lower : Text → Text) where
  abbrev pub plain_name : Header → Text
  plain_name h = to_lower (trim h.name)

  -- `ownNames.has(…)`
  unfoldable pub is_own : List Header → Text → Bool
  unfolding trim
  is_own headers name = any (λ h. truthy (plain_name h) && text_eq (plain_name h) name) headers

  unfoldable pub is_shared : RequestDraft → RequestKind → SharedHeader → Bool
  unfolding is_own trim
  is_shared request kind s =
      s.header.enabled
      && truthy (trim s.header.name)
      && request_scope_applies s.scope kind
      && not (is_own request.headers (plain_name s.header))

  abbrev pub share : RequestDraft → SharedHeader → Header
  share request s = record s.header {
    id = append "workspace-" s.header.id;
    workspace_header_id = some s.header.id;
    enabled =
        request.workspace.headers_enabled
        && override_of request.workspace.header_overrides s.header.id;
    read_only = true;
  }

  unfoldable pub shared_headers : RequestDraft → RequestKind → RequestConfig → List Header
  unfolding is_shared
  shared_headers request kind config =
      map (share request) (keep (is_shared request kind) config.headers)

  abbrev pub find_connection : List SchemaConnection → Option String → Option SchemaConnection
  find_connection connections none = none
  find_connection connections (some id) = find (λ c. SchemaConnection.id c === id) connections

  abbrev pub connection_of : RequestDraft → RequestKind → RequestConfig → Option SchemaConnection
  connection_of request http config = none
  connection_of request graphql config =
      find_connection config.schema_connections (schema_id request)

  abbrev pub to_connection : Option SchemaConnection → RequestDraft → RequestDraft
  to_connection none request = request
  to_connection (some c) request = record request {
    url = c.endpoint;
    params = get_request_query_params_from_url web c.endpoint [];
    path_params = [];
  }

  abbrev pub propagation : Option Tracing → RequestDraft → RequestConfig → Option Text
  propagation none request config = or_else request.trace_propagation config.trace_propagation
  propagation (some t) request config = some t.propagation

  abbrev pub templates_of : Option Tracing → Option (List TraceHeader)
  templates_of none = none
  templates_of (some t) = header_templates t

  abbrev pub tracing_of : RequestDraft → RequestConfig → Option (List Integration) → Option Tracing
  tracing_of request config none = none
  tracing_of request config (some integrations) =
      some (resolve_request_tracing request integrations config.trace_propagation)

  abbrev pub configured : RequestDraft → RequestKind → RequestConfig → RequestDraft
  configured request kind config =
      let tracing = tracing_of request config config.integrations in
      record request {
        headers = shared_headers request kind config ++ request.headers;
        trace_propagation = propagation tracing request config;
        trace_header_templates = templates_of tracing;
        auth = effective_auth request kind config;
      }

  unfoldable pub apply_workspace_request_config :
      RequestDraft → RequestKind → RequestConfig → RequestDraft
  unfolding shared_headers effective_auth resolve_request_tracing get_request_query_params_from_url
      templates
  apply_workspace_request_config request kind config =
      configured (to_connection (connection_of request kind config) request) kind config
