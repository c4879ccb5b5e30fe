-- ===== src/Workspace.antt =====
-- src/features/workspaces/model/workspace.ts: the data of a workspace, what a draft is worth, and the tests
-- on documents. Values are immutable, so `cloneRequestDraft` and `structuredClone` copy nothing. An
-- extension's configuration stands for its JSON text, by which the program compares it.
pub mod Tabs
pub mod Namespace
use purr.Common.{
  ℕ, Bool, true, false, ◌&&◌, ◌||◌, not, Option, none, some, List, [], ◌∷◌, String, ◌===◌, is_id,
  Text, nat_eq, truthy, trim, any, find, map, if◌then◌else◌, is_some,
}
use purr.Variable.{Variable, Environment}
use purr.Request.{
  RequestDraft, Settings, HttpVersion, auto, RequestAuth, Header, Param, BodyType, no_body,
  AuthType, is_no_auth, is_inherit, Connection, Graphql,
}

pub data RequestKind : Type 0 where
  http graphql : RequestKind

pub record Historical : Type 0 where
  pub entry_id : String
  pub document_id : String
  pub in_place : Bool

pub data ResponseStorage : Type 0 where
  inherited plaintext encrypted : ResponseStorage

pub record RequestDocument : Type 0 where
  pub id : String
  pub kind : RequestKind
  pub name : Text
  pub description : Option Text
  pub folder_id : Option String
  pub saved : Bool
  pub response_storage : ResponseStorage
  pub historical : Option Historical
  pub request : RequestDraft
  pub saved_request : Option RequestDraft
  pub sent_at : Option Text

pub record SchemaDocument : Type 0 where
  pub id : String
  pub name : Text
  pub description : Option Text
  pub folder_id : Option String
  pub saved : Bool
  pub source_request_id : String
  pub auth : RequestAuth
  pub introspection_headers : List Header
  pub endpoint : Text
  pub sdl : Text

pub record ExtensionDocument : Type 0 where
  pub id : String
  pub name : Text
  pub folder_id : Option String
  pub saved : Bool
  pub extension_type : String
  pub config_version : ℕ
  pub config : String
  pub saved_config_version : Option ℕ
  pub saved_config : Option String

pub data WorkspaceDocument : Type 0 where
  a_request : RequestDocument → WorkspaceDocument
  a_schema : SchemaDocument → WorkspaceDocument
  an_extension : ExtensionDocument → WorkspaceDocument

abbrev pub id_of : WorkspaceDocument → String
id_of (a_request d) = d.id
id_of (a_schema d) = d.id
id_of (an_extension d) = d.id

abbrev pub is_saved : WorkspaceDocument → Bool
is_saved (a_request d) = d.saved
is_saved (a_schema d) = d.saved
is_saved (an_extension d) = d.saved

pub data SidebarActivity : Type 0 where
  documents history : SidebarActivity

-- `workspace.ui`, without the widths, the ratios and the view.
pub record Ui : Type 0 where
  pub open_document_ids : List String
  pub active_document_id : Option String
  pub preview_document_id : Option String
  pub last_graphql_schema_id : Option String
  pub last_request_kind : RequestKind
  pub cookies_tab_open : Bool
  pub cookies_tab_active : Bool
  pub settings_tab_open : Bool
  pub settings_tab_active : Bool
  pub variables_tab_open : Bool
  pub variables_tab_active : Bool
  pub sidebar_open : Bool
  pub sidebar_activity : SidebarActivity

pub record Workspace : Type 0 where
  pub id : String
  pub name : Text
  pub default_graphql_schema_id : Option String
  pub documents : List WorkspaceDocument
  pub variables : List Variable
  pub environments : List Environment
  pub active_environment_id : Option String
  pub ui : Ui

-- `workspace.documents.find((document) => document.id === id)`
abbrev pub find_document : Workspace → String → Option WorkspaceDocument
find_document w id = find (λ d. id_of d === id) w.documents

abbrev pub is_historical : WorkspaceDocument → Bool
is_historical (a_request d) = is_some d.historical
is_historical _ = false

-- A text that may be absent, in a test.
abbrev filled : Option Text → Bool
filled none = false
filled (some s) = truthy s

abbrev is_auto : HttpVersion → Bool
is_auto auto = true
is_auto _ = false

-- A setting that is there and differs from `defaultRequestSettings`.
abbrev changed {ℓ} : {A : Type ℓ} → (A → Bool) → Option A → Bool
changed is_default none = false
changed is_default (some a) = not (is_default a)

abbrev pub settings_changed : Option Settings → Bool
settings_changed none = false
settings_changed (some s) =
    changed (λ b. b) s.follow_redirects
    || changed (λ n. nat_eq n 10) s.max_redirects
    || changed (λ n. nat_eq n 60000) s.timeout_ms
    || changed (λ b. b) s.validate_tls_certificates
    || changed is_auto s.http_version
    || changed (λ b. b) s.store_cookies

abbrev graphql_filled : Option Graphql → Bool
graphql_filled none = false
graphql_filled (some g) =
    truthy (trim g.query) || truthy (trim g.variables) || truthy (trim g.operation_name)

abbrev is_no_body : BodyType → Bool
is_no_body no_body = true
is_no_body _ = false

-- The part of `isMeaningfulDraft` that reads the request.
unfoldable pub is_meaningful_request : RequestDraft → Bool
is_meaningful_request r =
    not r.use_cookie_jar
    || settings_changed r.settings
    || graphql_filled r.graphql
    || truthy (trim r.url)
    || any (λ p. truthy p.key || truthy p.value) r.params
    || any (λ h. truthy h.name || truthy h.value) r.headers
    || not (is_no_body r.body.type)
    || (not (is_no_auth r.auth.type) && not (is_inherit r.auth.type))
    || truthy (trim r.documentation)

unfoldable pub is_meaningful_draft : WorkspaceDocument → Bool
unfolding is_meaningful_request
is_meaningful_draft (an_extension d) = true
is_meaningful_draft (a_schema d) =
    truthy d.sdl || (d.source_request_id === "" && truthy (trim d.endpoint))
is_meaningful_draft (a_request d) = is_meaningful_request d.request || filled d.sent_at

abbrev is_version : Option ℕ → ℕ → Bool
is_version none n = false
is_version (some m) n = nat_eq m n

-- `same_definition a b` stands for the comparison of `JSON.stringify(comparableDefinitionState(a))`
-- with that of b.
module _ (same_definition : RequestDraft → RequestDraft → Bool) where
  unfoldable pub is_document_dirty : WorkspaceDocument → Bool
  unfolding is_meaningful_draft
  is_document_dirty (an_extension d) =
      not d.saved
      || not (is_version d.saved_config_version d.config_version)
      || not (is_id d.saved_config d.config)
  is_document_dirty (a_schema d) = false
  is_document_dirty (a_request d) =
      if is_some d.historical
      then false
      else if not d.saved
      then is_meaningful_draft (a_request d)
      else elim d.saved_request [
        | none ↦ not (same_definition d.request d.request)
        | some r ↦ not (same_definition d.request r)
      ]
