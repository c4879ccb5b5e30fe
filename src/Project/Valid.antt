-- ===== src/Project/Valid.antt =====
-- What `validateProject` ensures of the project that it returns.
use purr.Common.{
  Different, suc, length, ◌≡◌, refl, Bool, true, false, ◌||◌, Option, none, some, List, [], ◌∷◌,
  arith, All, All-mono, text_eq, ◌===◌, any, not, all, ◌&&◌, is_some,
}
use purr.Project.{
  ProjectResource, WorkspaceDefinition, Project, ProjectError, AuthProfile, VariableKind,
  VariableDefinition, static_variable, external_secret, dynamic_request, ResourceKind, request,
  schema, api_schema, environment, folder, integration, extension, ◌or_else◌, throw_if, each,
}
use purr.Project.Parse.{parse_workspace, parse_resource}
use purr.Project.Folders.{validate_folders}
use purr.Project.Rooted.{Rooted, climb-Rooted}
use purr.Project.Refs.{check_workspace, check_resource}
use purr.Project.Owned.{IsOwned, variables_in, check_resource-IsOwned}
use mathlib.Core.Path.{subst}
use purr.Project.Unique.{repeats_iff}
use purr.Project.Validate.{
  validate_kind, validate_variable, validate_variable_kind, is_static, validate_resource,
  validate_names, validate_parsed, valid, validated, validate_project, resource_ids, profile_ids,
  shared_header_ids, variable_ids, environment_names, names_of, inherits_auth,
}

or_else-none : (a b : Option ProjectError) → a or_else b ≡ none → (a ≡ none) × (b ≡ none)
or_else-none none b h = (refl, h)
or_else-none (some e) b h = absurd (cc)

throw_if-none : (b : Bool) (e : ProjectError) → throw_if b e ≡ none → b ≡ false
throw_if-none true e h = absurd (cc)
throw_if-none false e h = refl

each-none {ℓ} :
    {A : Type ℓ} (f : A → Option ProjectError) (xs : List A)
    → each f xs ≡ none
    → All (λ x. f x ≡ none) xs
unfolding each
each-none f [] h = tt
each-none f (x ∷ xs) h =
    ((or_else-none (f x) (each f xs) h).0, each-none f xs (or_else-none (f x) (each f xs) h).1)

-- The identifiers of a project do not repeat, nor do its names that are not blank, and no profile of the
-- workspace inherits.
pub record IsNamed (w : WorkspaceDefinition) (rs : List ProjectResource) : Type 0 where
  pub resources : Different (◌===◌) (resource_ids rs)
  pub profiles : Different (◌===◌) (profile_ids w.auth)
  pub headers : Different (◌===◌) (shared_header_ids w.headers)
  pub configured : any (λ p. inherits_auth (AuthProfile.config p)) w.auth ≡ false
  pub names : Different text_eq (names_of w.variables)
  pub variables : Different (◌===◌) (variable_ids w rs)
  pub environments : Different text_eq (environment_names rs)

or-false : (a b : Bool) → (a || b) ≡ false → (a ≡ false) × (b ≡ false)
or-false a b h = ground arith

check-none :
    (b : Bool) (e : ProjectError) (rest : Option ProjectError)
    → throw_if b e or_else rest ≡ none
    → (b ≡ false) × (rest ≡ none)
check-none true e rest h = absurd (cc)
check-none false e rest h = (refl, h)

validate_names-IsNamed :
    (w : WorkspaceDefinition) (rs : List ProjectResource)
    → validate_names w rs ≡ none
    → IsNamed w rs
unfolding validate_names
validate_names-IsNamed w rs h =
    let first = check-none _ _ _ h in
    let second = check-none _ _ _ first.1 in
    let third = check-none _ _ _ second.1 in
    let fourth = check-none _ _ _ third.1 in
    let fifth = check-none _ _ _ fourth.1 in
    record {
      resources = (repeats_iff (◌===◌) (resource_ids rs)).0 first.0;
      profiles = (repeats_iff (◌===◌) (profile_ids w.auth)).0 (or-false _ _ second.0).0;
      headers = (repeats_iff (◌===◌) (shared_header_ids w.headers)).0 (or-false _ _ second.0).1;
      configured = third.0;
      names = (repeats_iff text_eq (names_of w.variables)).0 fourth.0;
      variables = (repeats_iff (◌===◌) (variable_ids w rs)).0 fifth.0;
      environments = (repeats_iff text_eq (environment_names rs)).0 (throw_if-none _ _ fifth.1);
    }

-- A variable of an environment is sensitive and has a secret for its value, or is plain and has a value.
abbrev pub is_stored_kind : Bool → VariableKind → Bool
is_stored_kind true (static_variable value ref) = not (is_some value) && is_some ref
is_stored_kind false (static_variable value ref) = is_some value && not (is_some ref)
is_stored_kind sensitive _ = false

abbrev pub is_stored : VariableDefinition → Bool
is_stored v = is_stored_kind v.sensitive v.kind

kind-stored :
    (rs : List ProjectResource) (sensitive : Bool) (k : VariableKind)
    → is_static k ≡ true
    → validate_variable_kind rs sensitive k ≡ none
    → is_stored_kind sensitive k ≡ true
kind-stored rs true (static_variable value ref) s h = ground (arith, h)
kind-stored rs false (static_variable value ref) s h = ground (arith, h)
kind-stored rs sensitive (external_secret provider key) s h = absurd (cc)
kind-stored rs sensitive (dynamic_request d) s h = absurd (cc)

variables-stored :
    (rs : List ProjectResource) (vs : List VariableDefinition)
    → any (λ v. not (is_static (VariableDefinition.kind v))) vs ≡ false
    → each (validate_variable rs) vs ≡ none
    → all is_stored vs ≡ true
unfolding each
variables-stored rs [] s h = refl
variables-stored rs (v ∷ vs) s h = ground (
  arith,
  s,
  kind-stored rs v.sensitive v.kind,
  or_else-none (validate_variable rs v) (each (validate_variable rs) vs) h,
  variables-stored rs vs,
)

validate_kind-stored :
    (w : WorkspaceDefinition) (rs : List ProjectResource) (k : ResourceKind)
    → validate_kind w rs k ≡ none
    → all is_stored (variables_in w.id k) ≡ true
unfolding validate_kind
validate_kind-stored w rs (environment vs) h =
    let first = check-none _ _ _ h in
    let second = check-none _ _ _ first.1 in variables-stored rs vs second.0 second.1
validate_kind-stored w rs (request r) h = refl
validate_kind-stored w rs (schema s) h = refl
validate_kind-stored w rs (api_schema source location document) h = refl
validate_kind-stored w rs folder h = refl
validate_kind-stored w rs (integration i) h = refl
validate_kind-stored w rs (extension extension_type config_version) h = refl

-- What a project that was checked promises.
pub record IsValid (p : Project) : Type 0 where
  pub named : IsNamed p.workspace p.resources
  pub rooted : All (λ r. Rooted p.resources (ProjectResource.folder_id r)) p.resources
  pub owned : All (IsOwned p.workspace.id) p.resources
  pub stored :
      All
        (λ r. all is_stored (variables_in p.workspace.id (ProjectResource.kind r)) ≡ true)
        p.resources

validate_resource-Rooted :
    (w : WorkspaceDefinition) (rs : List ProjectResource) (r : ProjectResource)
    → validate_resource w rs r ≡ none
    → Rooted rs r.folder_id
unfolding validate_resource validate_folders
validate_resource-Rooted w rs r h =
    climb-Rooted (suc (suc (length rs))) rs (r.id ∷ []) r.folder_id
      (or_else-none (validate_kind w rs r.kind) _ h).1

validate_resource-stored :
    (w : WorkspaceDefinition) (rs : List ProjectResource) (r : ProjectResource)
    → validate_resource w rs r ≡ none
    → all is_stored (variables_in w.id r.kind) ≡ true
unfolding validate_resource
validate_resource-stored w rs r h =
    validate_kind-stored w rs r.kind (or_else-none (validate_kind w rs r.kind) _ h).0

validate_parsed-IsValid :
    (w : WorkspaceDefinition) (rs : List ProjectResource)
    → validate_parsed w rs ≡ none
    → IsValid (record { workspace = w; resources = rs })
unfolding validate_parsed
validate_parsed-IsValid w rs h =
    let first = or_else-none (check_workspace w) _ h in
    let second = or_else-none (each (check_resource w.id) rs) _ first.1 in
    let third = or_else-none (validate_names w rs) _ second.1 in
    let fourth = or_else-none (each (validate_resource w rs) rs) _ third.1 in
    record {
      named = validate_names-IsNamed w rs third.0;
      rooted = All-mono _ _ (validate_resource-Rooted w rs) rs (each-none _ rs fourth.0);
      owned = All-mono _ _ (check_resource-IsOwned w.id) rs (each-none _ rs second.0);
      stored = All-mono _ _ (validate_resource-stored w rs) rs (each-none _ rs fourth.0);
    }

validated-valid :
    (e : Option ProjectError) (p q : Project) → validated e p ≡ valid q → (e ≡ none) × (p ≡ q)
validated-valid none p q h = (refl, cc)
validated-valid (some e) p q h = absurd (cc)

-- In a project that `validateProject` returns: no two resources share an identifier, nor do two
-- authentication profiles, two shared headers or two variables; no two variables of the workspace, and no
-- two environments, share a name that is not blank, the spaces around it aside (blank names may repeat);
-- no profile of the workspace inherits; each resource's chain of folders ends at the root; the secrets
-- that the header values and other credentials of a resource name are the workspace's own and not of
-- this device alone; and each variable of an environment either is sensitive, has no value and names a
-- secret, the workspace's own and not of this device alone, or is plain, has a value and names no secret.
pub validate_project-IsValid : (p q : Project) → validate_project p ≡ valid q → IsValid q
unfolding validate_project
validate_project-IsValid p q h =
    let passed = validated-valid _ _ q h in
    let parsed = or_else-none (parse_workspace p.workspace) _ passed.0 in
    subst IsValid passed.1
      (validate_parsed-IsValid _ _ (or_else-none (each parse_resource p.resources) _ parsed.1).1)
