-- ===== src/Project.antt =====
-- src/domain/project.ts: the definitions of a project, which its files hold and which both the importers and
-- the editor project into. Identifiers are strings, all other text is a list of code units.
mod Checks
unfoldable pub use Checks.*
pub mod Patterns
pub mod Parse
pub mod Credentials
pub mod Protected
pub mod Folders
pub mod Unique
pub mod Refs
pub mod Validate
pub mod Rooted
pub mod Owned
pub mod Valid
mod Tests
use purr.Common.{ℕ, Bool, true, false, Option, none, some, List, [], ◌∷◌, String, Text}
use purr.Request.{Settings, Placement, GrantType, ClientAuthentication}

pub data Credential : Type 0 where
  plain template : Text → Credential
  secret : (ref : String) → Credential

pub record HeaderDefinition : Type 0 where
  pub id : String
  pub name : Text
  pub enabled : Bool
  pub sensitive : Bool
  pub value : Credential

pub data ExpressionLanguage : Type 0 where
  jsonpath jq : ExpressionLanguage

pub data Refresh : Type 0 where
  every_time each_session cached : Refresh

-- The part of a `dynamic-request` variable; without an `environment_id` it is resolved in the current one.
pub record DynamicRequest : Type 0 where
  pub document_id : String
  pub expression : Text
  pub language : ExpressionLanguage
  pub refresh : Refresh
  pub cache_ttl_seconds : Option ℕ
  pub environment_id : Option String

pub data VariableKind : Type 0 where
  static_variable : (value : Option Text) → (secret_ref : Option String) → VariableKind
  dynamic_request : DynamicRequest → VariableKind
  external_secret : (provider : Text) → (key : Text) → VariableKind

pub record VariableDefinition : Type 0 where
  pub id : String
  pub name : Text
  pub enabled : Bool
  pub sensitive : Bool
  pub kind : VariableKind

pub record Pair : Type 0 where
  pub name : Text
  pub value : Text
  pub enabled : Bool

pub data Scope : Type 0 where
  all_scope http_scope graphql_scope : Scope

pub record OauthDefinition : Type 0 where
  pub grant_type : GrantType
  pub authorization_url : Option Text
  pub token_url : Text
  pub client_id : Text
  pub client_secret : Credential
  pub scopes : Option Text
  pub redirect_uri : Option Text
  pub client_authentication : ClientAuthentication
  pub auto_refresh : Bool

pub data AuthSource : Type 0 where
  workspace_source schema_source : AuthSource

pub data AuthDefinition : Type 0 where
  no_auth : AuthDefinition
  inherits : (source : Option AuthSource) → (profile_id : Option String) → AuthDefinition
  bearer_token : (token : Credential) → (prefix : Text) → AuthDefinition
  basic_auth : (username : Text) → (password : Credential) → AuthDefinition
  api_key_auth : (name : Text) → (placement : Placement) → (value : Credential) → AuthDefinition
  oauth2_auth : OauthDefinition → AuthDefinition

pub record Attachment : Type 0 where
  pub id : String
  pub name : Text
  pub media_type : Text

pub data TextFormat : Type 0 where
  json_data xml_data text_data : TextFormat

pub data FormFormat : Type 0 where
  form_data url_encoded : FormFormat

pub record FormField : Type 0 where
  pub pair : Pair
  pub file : Option Attachment
  pub content_type : Option Text

pub data BodyDefinition : Type 0 where
  no_body : BodyDefinition
  text_body : TextFormat → Text → BodyDefinition
  binary_body : Option Attachment → BodyDefinition
  form_body : FormFormat → List FormField → BodyDefinition

pub record Tracing : Type 0 where
  pub enabled : Bool
  pub integration_id : Option String

pub record Overrides : Type 0 where
  pub headers : Bool
  pub auth : Bool
  pub excluded_header_ids : List String
  pub cookies : Bool

pub record Origin : Type 0 where
  pub schema_id : String
  pub operation_path : Text
  pub operation_id : Option Text

pub record GraphqlDefinition : Type 0 where
  pub query : Text
  pub variables : Text
  pub operation : Option Text
  pub schema_id : Option String

-- A request of kind `graphql` is one with a `graphql` part.
pub record RequestDefinition : Type 0 where
  pub settings : Option Settings
  pub tracing : Option Tracing
  pub trace_propagation : Option Text
  pub url : Text
  pub method : Text
  pub documentation : Option Text
  pub params : List Pair
  pub path_params : List Pair
  pub headers : List HeaderDefinition
  pub body : BodyDefinition
  pub auth : AuthDefinition
  pub environment_id : Option String
  pub overrides : Option Overrides
  pub origin : Option Origin
  pub graphql : Option GraphqlDefinition

pub data FileFormat : Type 0 where
  sdl_file introspection_json : FileFormat

pub data SchemaSource : Type 0 where
  introspection : (endpoint : Option Text) → (request_id : Option String) → SchemaSource
  schema_file : FileFormat → (location endpoint : Option Text) → SchemaSource
  registry : (provider resource : Text) → (credential : Option Credential) → SchemaSource

pub record SchemaDefinition : Type 0 where
  pub endpoint : Option Text
  pub auth : Option AuthDefinition
  pub introspection_headers : List HeaderDefinition
  pub source : SchemaSource
  pub pin : Bool
  pub pinned_sdl : Option Text

pub data ApiSource : Type 0 where
  api_file api_directory api_url api_text : ApiSource

pub data Propagation : Type 0 where
  off w3c b3 : Propagation

pub record IntegrationTracing : Type 0 where
  pub propagation : Propagation
  pub request_headers : List Pair
  pub response_headers : List Pair

-- The opaque JSON of a provider's `config` is left out, here and in an extension's document.
pub record IntegrationDefinition : Type 0 where
  pub tracing : Option IntegrationTracing
  pub provider : Text
  pub enabled : Bool
  pub config_version : ℕ
  pub credentials : List (Text × Credential)

pub data ResourceKind : Type 0 where
  request : RequestDefinition → ResourceKind
  schema : SchemaDefinition → ResourceKind
  api_schema : ApiSource → (location document : Text) → ResourceKind
  environment : List VariableDefinition → ResourceKind
  folder : ResourceKind
  integration : IntegrationDefinition → ResourceKind
  extension : (extension_type : Text) → (config_version : ℕ) → ResourceKind

pub record ProjectResource : Type 0 where
  pub id : String
  pub name : Text
  pub description : Option Text
  pub folder_id : Option String
  pub kind : ResourceKind

-- A workspace's header and authentication profile, each with the requests that it is for.
pub record SharedHeader : Type 0 where
  pub header : HeaderDefinition
  pub scope : Scope

pub record AuthProfile : Type 0 where
  pub id : String
  pub name : Text
  pub scope : Scope
  pub enabled : Bool
  pub config : AuthDefinition

pub record WorkspaceDefinition : Type 0 where
  pub default_graphql_schema_id : Option String
  pub trace_propagation : Option Text
  pub id : String
  pub name : Text
  pub description : Option Text
  pub variables : List VariableDefinition
  pub headers : List SharedHeader
  pub auth : List AuthProfile

pub record Project : Type 0 where
  pub workspace : WorkspaceDefinition
  pub resources : List ProjectResource
