-- ===== src/Project/Refs.antt =====
-- src/domain/project.ts: the local function `checkRefs` of `validateProject`.
use purr.Common.{
  starts_with, ℕ, Bool, false, ◌&&◌, not, Option, none, some, [], ◌∷◌, ◌++◌, String, Text, codes,
  nat_eq, if◌then◌else◌,
}
use purr.Project.{
  Credential, secret, HeaderDefinition, VariableKind, static_variable, VariableDefinition,
  AuthDefinition, no_auth, inherits, bearer_token, basic_auth, api_key_auth, oauth2_auth,
  SchemaSource, registry, ResourceKind, request, schema, environment, integration, ProjectResource,
  SharedHeader, AuthProfile, WorkspaceDefinition, ProjectError, runtime_secret, foreign_secret,
  foreign_variable, ◌or_else◌, throw_if, each, each_some,
}

-- `/^purr\/[^/]+\/runtime\//`
abbrev is_slash : ℕ → Bool
is_slash c = nat_eq c b'/'

pub after_slash : Text → Option Text
after_slash [] = none
after_slash (c ∷ s) = if is_slash c then some s else after_slash s

abbrev after_scope : Text → Bool
after_scope [] = false
after_scope (c ∷ s) =
    not (is_slash c)
    && elim (after_slash s) [ none ↦ false | some t ↦ starts_with (codes "runtime/") t ]

unfoldable pub is_runtime_ref : String → Bool
unfolding after_slash
is_runtime_ref ref =
    starts_with (codes "purr/") (codes ref)
    && elim (after_slash (codes ref)) [ none ↦ false | some t ↦ after_scope t ]

-- `startsWith(`purr/${workspace.id}/`)`
unfoldable pub is_own_ref : String → String → Bool
is_own_ref workspace ref = starts_with (codes "purr/" ++ (codes workspace ++ codes "/")) (codes ref)

-- `checkRefs` visits every object of a definition. Of these it looks at those of kind `secret`, the
-- credentials, and of kind `static`, the variables.
module _ (workspace : String) where
  abbrev pub check_credential : Credential → Option ProjectError
  check_credential (secret ref) =
      throw_if (is_runtime_ref ref) runtime_secret
      or_else throw_if (not (is_own_ref workspace ref)) foreign_secret
  check_credential _ = none

  abbrev pub has_own_ref : Option String → Bool
  has_own_ref none = false
  has_own_ref (some ref) = is_own_ref workspace ref

  abbrev pub check_variable_kind : Bool → VariableKind → Option ProjectError
  check_variable_kind sensitive (static_variable value ref) =
      each_some (λ r. throw_if (is_runtime_ref r) runtime_secret) ref
      or_else throw_if (sensitive && not (has_own_ref ref)) foreign_variable
  check_variable_kind sensitive _ = none

  abbrev pub check_variable : VariableDefinition → Option ProjectError
  check_variable v = check_variable_kind v.sensitive v.kind

  abbrev pub check_auth : AuthDefinition → Option ProjectError
  check_auth no_auth = none
  check_auth (inherits source profile) = none
  check_auth (bearer_token token prefix) = check_credential token
  check_auth (basic_auth username password) = check_credential password
  check_auth (api_key_auth name placement value) = check_credential value
  check_auth (oauth2_auth o) = check_credential o.client_secret

  abbrev pub check_header : HeaderDefinition → Option ProjectError
  check_header h = check_credential h.value

  abbrev pub check_source : SchemaSource → Option ProjectError
  check_source (registry provider resource credential) = each_some check_credential credential
  check_source _ = none

  unfoldable pub check_kind : ResourceKind → Option ProjectError
  unfolding each
  check_kind (request r) = each check_header r.headers or_else check_auth r.auth
  check_kind (schema s) =
      each_some check_auth s.auth
      or_else each check_header s.introspection_headers
      or_else check_source s.source
  check_kind (environment variables) = each check_variable variables
  check_kind (integration i) = each (λ c. check_credential c.1) i.credentials
  check_kind _ = none

  unfoldable pub check_resource : ProjectResource → Option ProjectError
  unfolding check_kind
  check_resource r = check_kind r.kind

-- The workspace's own definition, in the order of its fields.
unfoldable pub check_workspace : WorkspaceDefinition → Option ProjectError
unfolding each
check_workspace w =
    each (check_variable w.id) w.variables
    or_else each (λ h. check_header w.id (SharedHeader.header h)) w.headers
    or_else each (λ p. check_auth w.id (AuthProfile.config p)) w.auth
