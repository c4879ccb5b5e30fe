-- ===== src/Request.antt =====
-- src/features/request-workbench/model: the draft of a request, with its authentication (request-auth.ts)
-- and body (request-body.ts), and the binding of a GraphQL request to a schema connection
-- (src/features/workspaces/model/workspace.ts). Left out are the reasons shown for read-only rows and what is
-- remembered of a conversion to XML.
mod Auth
pub use Auth.*
pub mod Query
pub mod Paths
pub mod Bounds
pub mod Shared
mod Tests
use purr.Common.{
  ℕ, Bool, true, false, ◌&&◌, Option, none, some, List, [], ◌∷◌, String, Text, codes, if◌then◌else◌,
}

pub record Header : Type 0 where
  pub id : String
  pub name : Text
  pub value : Text
  pub enabled : Bool
  pub read_only : Bool
  pub secret : Bool
  pub workspace_header_id : Option String
  pub secret_ref : Option String
  pub secret_state : Option SecretFieldState

pub record Param : Type 0 where
  pub id : String
  pub key : Text
  pub value : Text
  pub enabled : Bool
  pub read_only : Bool
  pub secret : Bool

pub record PathParam : Type 0 where
  pub id : String
  pub key : Text
  pub value : Text
  pub enabled : Bool

pub data HttpVersion : Type 0 where
  auto http1 http2 : HttpVersion

-- `Partial<RequestSettings>`
pub record Settings : Type 0 where
  pub follow_redirects : Option Bool
  pub max_redirects : Option ℕ
  pub timeout_ms : Option ℕ
  pub validate_tls_certificates : Option Bool
  pub http_version : Option HttpVersion
  pub store_cookies : Option Bool

pub data BodyType : Type 0 where
  no_body json xml form_data url_encoded binary text : BodyType

-- A file: its name, its media type and its content.
pub record File : Type 0 where
  pub name : Text
  pub media_type : Text
  pub content : List ℕ

-- `fieldType` is `file` or not.
pub record BodyField : Type 0 where
  pub id : String
  pub key : Text
  pub value : Text
  pub enabled : Bool
  pub is_file : Bool
  pub attachment : Option File
  pub content_type : Option Text

pub record BinaryFile : Type 0 where
  pub file : File
  pub mime_type : Text

pub record Body : Type 0 where
  pub type : BodyType
  pub auto_convert : Bool
  pub json : Text
  pub xml : Text
  pub text : Text
  pub form_data : List BodyField
  pub url_encoded : List BodyField
  pub binary : Option BinaryFile
  pub boundary : Text

pub record Graphql : Type 0 where
  pub query : Text
  pub variables : Text
  pub operation_name : Text
  pub schema_id : Option String

pub record RequestTracing : Type 0 where
  pub enabled : Bool
  pub integration_id : Option String

pub record TraceHeader : Type 0 where
  pub name : Text
  pub value : Text

pub record WorkspaceOverrides : Type 0 where
  pub headers_enabled : Bool
  pub auth_enabled : Bool
  pub header_overrides : List (String × Bool)

pub record RequestDraft : Type 0 where
  pub settings : Option Settings
  pub tracing : Option RequestTracing
  pub trace_header_templates : Option (List TraceHeader)
  pub trace_propagation : Option Text
  pub environment_id : Option String
  pub graphql : Option Graphql
  pub documentation : Text
  pub method : Text
  pub url : Text
  pub params : List Param
  pub path_params : List PathParam
  pub headers : List Header
  pub body : Body
  pub auth : RequestAuth
  pub use_cookie_jar : Bool
  pub workspace : WorkspaceOverrides

abbrev pub empty_field : String → BodyField
empty_field id = record {
  id = id;
  key = [];
  value = [];
  enabled = false;
  is_file = false;
  attachment = none;
  content_type = none;
}

-- `createRequestBody`; the boundary is drawn at random.
abbrev pub create_request_body : Text → Body
create_request_body boundary = record {
  type = no_body;
  auto_convert = false;
  json = [];
  xml = [];
  text = [];
  form_data = empty_field "form-data-1" ∷ [];
  url_encoded = empty_field "url-encoded-1" ∷ [];
  binary = none;
  boundary = boundary;
}

abbrev pub create_workspace_overrides : WorkspaceOverrides
create_workspace_overrides = record {
  headers_enabled = true;
  auth_enabled = true;
  header_overrides = [];
}

abbrev pub empty_param : String → Param
empty_param id = record {
  id = id;
  key = [];
  value = [];
  enabled = false;
  read_only = false;
  secret = false;
}

abbrev pub plain_header : String → Text → Text → Bool → Header
plain_header id name value enabled = record {
  id = id;
  name = name;
  value = value;
  enabled = enabled;
  read_only = false;
  secret = false;
  workspace_header_id = none;
  secret_ref = none;
  secret_state = none;
}

-- The draft of `createHttpDocument`.
abbrev pub empty_draft : Text → RequestDraft
empty_draft boundary = record {
  settings = none;
  tracing = none;
  trace_header_templates = none;
  trace_propagation = none;
  environment_id = none;
  graphql = none;
  documentation = [];
  method = codes "GET";
  url = [];
  params = empty_param "param-1" ∷ [];
  path_params = [];
  headers = plain_header "header-1" [] [] false ∷ [];
  body = create_request_body boundary;
  auth = create_request_auth;
  use_cookie_jar = true;
  workspace = create_workspace_overrides;
}

-- `request.graphql?.schemaId`
abbrev pub schema_id : RequestDraft → Option String
schema_id r = elim r.graphql [ none ↦ none | some g ↦ g.schema_id ]

-- `bindGraphqlSchema`, of a connection's id and endpoint.
pub bind_graphql_schema : RequestDraft → String → Text → Bool → RequestDraft
bind_graphql_schema request id endpoint inherit_auth = elim request.graphql [
  | none ↦ request
  | some g ↦ record request {
    url = endpoint;
    graphql = some (record g { schema_id = some id });
    auth =
        if inherit_auth
        then record request.auth {
          type = inherit;
          inherit = record { source = from_schema; profile_id = none };
        }
        else request.auth;
  }
]

-- A connection's endpoint and authentication.
pub record Connection : Type 0 where
  pub endpoint : Text
  pub auth : RequestAuth

abbrev or_endpoint : Option Connection → Text → Text
or_endpoint none url = url
or_endpoint (some c) url = c.endpoint

abbrev or_auth : Option Connection → RequestAuth
or_auth none = create_request_auth
or_auth (some c) = c.auth

-- `detachGraphqlSchema`
unfoldable pub detach_graphql_schema : RequestDraft → Option Connection → RequestDraft
detach_graphql_schema request connection = elim request.graphql [
  | none ↦ request
  | some g ↦ record request {
    url = or_endpoint connection request.url;
    graphql = some (record g { schema_id = none });
    auth =
        if inherits_from_schema request.auth
        then record (or_auth connection) { secret_refs = none }
        else request.auth;
  }
]
