-- ===== src/Project/Owned.antt =====
-- Which secrets a project's definitions may name: an independent list of the credentials that `checkRefs`
-- comes to.
use purr.Common.{
  Bool, true, ◌&&◌, ◌||◌, not, Option, none, some, List, [], ◌∷◌, ◌++◌, ◌≡◌, refl, arith, String,
  Text, map, all, is_some,
}
use purr.Project.{
  Credential, secret, HeaderDefinition, AuthDefinition, VariableDefinition, VariableKind,
  static_variable, SchemaSource, ResourceKind, request, schema, api_schema, environment, folder,
  integration, extension, ProjectResource, ◌or_else◌, each, each_some,
}
use purr.Project.Refs.{
  is_runtime_ref, is_own_ref, check_credential, check_variable, check_auth, check_header,
  check_source, check_kind, check_resource,
}
use purr.Project.Protected.{
  auth_credentials, optional_auth_credentials, source_credentials, headers_of, own_credentials,
  all-append, or_else-is_some,
}

module _ (workspace : String) where
  -- A secret of the workspace's definitions, and not of this device alone.
  abbrev pub is_owned : Credential → Bool
  is_owned (secret ref) = not (is_runtime_ref ref) && is_own_ref workspace ref
  is_owned _ = true

  abbrev pub is_owned_variable_kind : Bool → VariableKind → Bool
  is_owned_variable_kind sensitive (static_variable value none) = not sensitive
  is_owned_variable_kind sensitive (static_variable value (some ref)) =
      not (is_runtime_ref ref) && (not sensitive || is_own_ref workspace ref)
  is_owned_variable_kind sensitive _ = true

  abbrev pub is_owned_variable : VariableDefinition → Bool
  is_owned_variable v = is_owned_variable_kind v.sensitive v.kind

  abbrev pub variables_in : ResourceKind → List VariableDefinition
  variables_in (environment variables) = variables
  variables_in _ = []

  check_headers-is_some :
      (hs : List HeaderDefinition)
      → is_some (each (check_header workspace) hs)
        ≡ not (all is_owned (map HeaderDefinition.value hs))
  unfolding each
  check_headers-is_some [] = refl
  check_headers-is_some (h ∷ hs) = ground (arith, check_headers-is_some hs)

  check_credentials-is_some :
      (cs : List (Text × Credential))
      → is_some (each (λ c. check_credential workspace c.1) cs)
        ≡ not (all is_owned (map (λ c. c.1) cs))
  unfolding each
  check_credentials-is_some [] = refl
  check_credentials-is_some (c ∷ cs) = ground (arith, check_credentials-is_some cs)

  check_variables-is_some :
      (vs : List VariableDefinition)
      → is_some (each (check_variable workspace) vs) ≡ not (all is_owned_variable vs)
  unfolding each
  check_variables-is_some [] = refl
  check_variables-is_some (v ∷ vs) = ground (arith, check_variables-is_some vs)

  check_auth-is_some :
      (a : AuthDefinition)
      → is_some (check_auth workspace a) ≡ not (all is_owned (auth_credentials a))
  check_auth-is_some a = ground arith

  check_optional-is_some :
      (a : Option AuthDefinition)
      → is_some (each_some (check_auth workspace) a)
        ≡ not (all is_owned (optional_auth_credentials a))
  check_optional-is_some none = refl
  check_optional-is_some (some a) = check_auth-is_some a

  check_source-is_some :
      (s : SchemaSource)
      → is_some (check_source workspace s) ≡ not (all is_owned (source_credentials s))
  check_source-is_some s = ground arith

  check_kind-is_some :
      (k : ResourceKind)
      → is_some (check_kind workspace k)
        ≡ not (
            all is_owned (map HeaderDefinition.value (headers_of k) ++ own_credentials k)
            && all is_owned_variable (variables_in k))
  unfolding check_kind
  check_kind-is_some (request r) = ground (
    arith,
    check_headers-is_some r.headers,
    check_auth-is_some r.auth,
    or_else-is_some (each (check_header workspace) r.headers) (check_auth workspace r.auth),
    all-append is_owned (map HeaderDefinition.value r.headers) (auth_credentials r.auth),
  )
  check_kind-is_some (schema s) = ground (
    arith,
    check_optional-is_some s.auth,
    check_headers-is_some s.introspection_headers,
    check_source-is_some s.source,
    or_else-is_some (each_some (check_auth workspace) s.auth) (
        each (check_header workspace) s.introspection_headers
        or_else check_source workspace s.source),
    or_else-is_some (each (check_header workspace) s.introspection_headers)
        (check_source workspace s.source),
    all-append is_owned (map HeaderDefinition.value s.introspection_headers)
        (optional_auth_credentials s.auth ++ source_credentials s.source),
    all-append is_owned (optional_auth_credentials s.auth) (source_credentials s.source),
  )
  check_kind-is_some (api_schema source location document) = refl
  check_kind-is_some (environment variables) = ground (arith, check_variables-is_some variables)
  check_kind-is_some folder = refl
  check_kind-is_some (integration i) = ground (arith, check_credentials-is_some i.credentials)
  check_kind-is_some (extension extension_type config_version) = refl

  -- The credentials and variables of a resource are its workspace's own.
  abbrev pub IsOwned : ProjectResource → Type 0
  IsOwned r =
      (all is_owned (map HeaderDefinition.value (headers_of r.kind) ++ own_credentials r.kind)
        ≡ true)
      × (all is_owned_variable (variables_in r.kind) ≡ true)

  pub check_resource-IsOwned : (r : ProjectResource) → check_resource workspace r ≡ none → IsOwned r
  unfolding check_resource
  check_resource-IsOwned r h = ground (arith, check_kind-is_some r.kind)
