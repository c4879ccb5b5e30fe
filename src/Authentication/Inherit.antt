-- ===== src/Authentication/Inherit.antt =====
-- src/features/request-workbench/model/request-auth.ts: `resolveAuth`, which follows inheritance.
use purr.Common.{
  ℕ, zero, suc, Bool, true, false, Option, none, some, List, [], ◌∷◌, String, any, find, nat_eq,
  head?, length, ◌===◌, if◌then◌else◌,
}
use purr.Request.{
  is_inherit, InheritSource, from_auto, from_workspace, from_environment, from_schema,
}
use purr.Authentication.{
  Shared, AuthProfile, AuthContext, AuthError, inherit_cycle, no_profile, no_authentication,
  out_of_fuel,
}

pub record Resolved : Type 0 where
  pub auth : Shared
  pub source : Option AuthProfile
  pub error : Option AuthError

abbrev pub or_else {ℓ} : {A : Type ℓ} → Option A → Option A → Option A
or_else none b = b
or_else (some a) b = some a

-- The profile of the workspace that counts: the selected one, or else the default.
abbrev pub workspace_profile : AuthContext → Option String → Option AuthProfile
workspace_profile context none = or_else context.workspace (head? context.workspace_profiles)
workspace_profile context (some id) =
    if id === ""
    then or_else context.workspace (head? context.workspace_profiles)
    else find (λ p. AuthProfile.id p === id) context.workspace_profiles

-- `===` of profiles, of which either may be undefined.
abbrev pub same_profile : Option AuthProfile → Option AuthProfile → Bool
same_profile none none = true
same_profile (some a) (some b) = nat_eq a.address b.address
same_profile _ _ = false

abbrev pub next_source :
    AuthContext → Option AuthProfile → InheritSource → Option AuthProfile → Option AuthProfile
next_source context source from_schema workspace = context.schema
next_source context source from_workspace workspace = workspace
next_source context source from_environment workspace = context.environment
next_source context source from_auto workspace =
    if same_profile source context.environment
    then workspace
    else or_else context.environment workspace

abbrev pub missing_profile : Option String → AuthError
missing_profile none = no_authentication
missing_profile (some id) = if id === "" then no_authentication else no_profile

abbrev pub follow :
    Shared → Option AuthProfile → (Shared → Option AuthProfile → Resolved) → Resolved
follow current none go = record {
  auth = current;
  source = none;
  error = some (missing_profile current.auth.inherit.profile_id);
}
follow current (some p) go = go p.auth (some p)

-- The `while` loop, on fuel; `visited` holds addresses.
unfoldable pub resolve_loop : ℕ → AuthContext → List ℕ → Shared → Option AuthProfile → Resolved
resolve_loop zero context visited current source = record {
  auth = current;
  source = none;
  error = some out_of_fuel;
}
resolve_loop (suc fuel) context visited current source =
    let next =
      follow current
        (next_source context source current.auth.inherit.source
          (workspace_profile context current.auth.inherit.profile_id))
        (resolve_loop fuel context (current.address ∷ visited)) in
    if is_inherit current.auth.type
    then if any (nat_eq current.address) visited
      then record { auth = current; source = none; error = some inherit_cycle }
      else next
    else record { auth = current; source = source; error = none }

-- The loop enters each object of the context once at most, and the first.
unfoldable pub resolve_auth : Shared → AuthContext → Resolved
unfolding resolve_loop
resolve_auth auth context =
    resolve_loop (suc (suc (suc (suc (suc (suc (length context.workspace_profiles))))))) context []
      auth none
