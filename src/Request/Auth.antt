-- ===== src/Request/Auth.antt =====
-- src/features/request-workbench/model/request-auth.ts: the data of a request's authentication.
use purr.Common.{ℕ, Bool, true, false, ◌&&◌, Option, none, List, [], String, Text, codes}

pub data AuthType : Type 0 where
  no_auth bearer basic api_key oauth2 inherit : AuthType

pub data Placement : Type 0 where
  header query cookie : Placement

pub data GrantType : Type 0 where
  client_credentials authorization_code : GrantType

pub data ClientAuthentication : Type 0 where
  in_body in_basic : ClientAuthentication

pub data InheritSource : Type 0 where
  from_auto from_workspace from_environment from_schema : InheritSource

pub record Bearer : Type 0 where
  pub token : Text
  pub prefix : Text

pub record Basic : Type 0 where
  pub username : Text
  pub password : Text

pub record ApiKey : Type 0 where
  pub name : Text
  pub value : Text
  pub placement : Placement

pub record OauthToken : Type 0 where
  pub access_token : Text
  pub refresh_token : Option Text
  pub obtained_at : ℕ
  pub expires_at : Option ℕ
  pub scope : Option Text

pub record OauthConfig : Type 0 where
  pub grant_type : GrantType
  pub authorization_url : Text
  pub token_url : Text
  pub client_id : Text
  pub client_secret : Text
  pub scopes : Text
  pub redirect_uri : Text
  pub client_authentication : ClientAuthentication
  pub auto_refresh : Bool
  pub token : Option OauthToken

pub record Inherit : Type 0 where
  pub source : InheritSource
  pub profile_id : Option String

-- `CredentialEdit` and `SecretFieldState` of application/ports/credentials.ts: what the editor knows of a
-- credential that is kept apart from the request.
pub data CredentialEdit : Type 0 where
  keep_value delete_value : CredentialEdit
  set_value : Text → CredentialEdit

pub data SecretStatus : Type 0 where
  unresolved available missing locked unavailable corrupt denied : SecretStatus

pub record SecretFieldState : Type 0 where
  pub ref : String
  pub status : SecretStatus
  pub edit : Option CredentialEdit

-- The states are those of the slots, such as `bearer`.
pub record RequestAuth : Type 0 where
  pub secret_refs : Option (List (String × String))
  pub credential_states : List (String × SecretFieldState)
  pub type : AuthType
  pub bearer : Bearer
  pub basic : Basic
  pub api_key : ApiKey
  pub oauth2 : OauthConfig
  pub inherit : Inherit

abbrev pub create_request_auth : RequestAuth
create_request_auth = record {
  secret_refs = none;
  credential_states = [];
  type = no_auth;
  bearer = record { token = []; prefix = codes "Bearer" };
  basic = record { username = []; password = [] };
  api_key = record { name = []; value = []; placement = header };
  oauth2 = record {
    grant_type = client_credentials;
    authorization_url = [];
    token_url = [];
    client_id = [];
    client_secret = [];
    scopes = [];
    redirect_uri = codes "http://127.0.0.1:8976/oauth/callback";
    client_authentication = in_body;
    auto_refresh = true;
    token = none;
  };
  inherit = record { source = from_auto; profile_id = none };
}

abbrev pub is_inherit : AuthType → Bool
is_inherit inherit = true
is_inherit _ = false

abbrev pub is_no_auth : AuthType → Bool
is_no_auth no_auth = true
is_no_auth _ = false

abbrev pub is_from_schema : InheritSource → Bool
is_from_schema from_schema = true
is_from_schema _ = false

-- `auth.type === "inherit" && auth.inherit.source === "schema"`
abbrev pub inherits_from_schema : RequestAuth → Bool
inherits_from_schema auth = is_inherit auth.type && is_from_schema auth.inherit.source
