-- ===== src/Authentication/Safe.antt =====
-- What a request is sent with: a binding is fit for its place, and only a request without authentication
-- has neither a binding nor an error.
use purr.Common.{
  ◌≡◌, ◌≢◌, refl, Bool, true, false, ◌&&◌, ◌||◌, not, Option, none, some, [], ◌++◌, arith, any,
  trim, truthy, has_char, is_space, Bool-cases, ◌⊎◌, inl, inr, sym,
}
use purr.Request.{
  AuthType, no_auth, bearer, basic, api_key, oauth2, inherit, is_no_auth, is_inherit, RequestAuth,
  OauthToken,
}
use purr.Authentication.{Shared, AuthContext, AuthError, Outcome, ok, err, ◌>>=◌, ◌>>◌, refuse_if}
use purr.Authentication.Inherit.{Resolved, resolve_auth}
use purr.Authentication.Ends.{IsEnd, resolve_auth_total}
use purr.Authentication.Values.{require_optional, resolve_auth_value}
use purr.Authentication.Binding.{
  AuthBinding, Platform, get_bearer_token, http_token, is_forbidden, breaks, is_query, is_header,
  authorization, credential_slot, slot_state, bearer_binding, basic_binding, api_key_binding,
  encode_for, oauth_binding, binding_of_type, unless_breaks, caught, bind_current, bind_resolved,
  get_auth_binding,
}

-- A header and a cookie have a name that HTTP allows, and a header is none of those the client sets.
abbrev IsNamed : AuthBinding → Type 0
IsNamed b =
    ((is_query b.target || http_token b.name) ≡ true)
    × ((is_header b.target && is_forbidden b.name) ≡ false)

abbrev Named : Outcome (Option AuthBinding) → Type 0
Named (ok (some b)) = IsNamed b
Named (ok none) = false ≡ true
Named (err e) = Unit

bind-Named :
    {A : Type 0} (m : Outcome A) (k : A → Outcome (Option AuthBinding))
    → ((a : A) → Named (k a))
    → Named (m >>= k)
bind-Named (ok a) k h = h a
bind-Named (err e) k h = tt

refuse-Named :
    (b : Bool) (e : AuthError) (k : Outcome (Option AuthBinding))
    → (b ≡ false → Named k)
    → Named (refuse_if b e >> k)
refuse-Named true e k h = tt
refuse-Named false e k h = h refl

authorization-Named : Named (ok (authorization []))
unfolding http_token is_forbidden
authorization-Named = (refl, refl)

bearer_binding-Named :
    (auth : RequestAuth) (context : AuthContext) → Named (bearer_binding auth context)
unfolding bearer_binding
bearer_binding-Named auth context = bind-Named (get_bearer_token auth context) _ λ token.
    refuse-Named (not (truthy token)) _ _ λ _. refuse-Named (any is_space token) _ _ λ _.
      bind-Named (resolve_auth_value auth.bearer.prefix context) _ λ prefix.
        refuse-Named (truthy (trim prefix) && not (http_token (trim prefix))) _ _
          λ _. authorization-Named

module _ (platform : Platform) where
  basic_binding-Named :
      (auth : RequestAuth) (context : AuthContext) → Named (basic_binding platform auth context)
  unfolding basic_binding
  basic_binding-Named auth context =
      bind-Named (resolve_auth_value auth.basic.username context) _ λ username.
        refuse-Named (not (truthy username) && not (truthy auth.basic.password)) _ _ λ _.
          refuse-Named (has_char b':' username) _ _ λ _.
            bind-Named (resolve_auth_value auth.basic.password context) _
              λ password. authorization-Named

  api_key_binding-Named :
      (auth : RequestAuth) (context : AuthContext) → Named (api_key_binding platform auth context)
  unfolding api_key_binding
  api_key_binding-Named auth context =
      bind-Named (resolve_auth_value auth.api_key.name context) _ λ spaced.
        bind-Named (resolve_auth_value auth.api_key.value context) _ λ value.
          refuse-Named (not (truthy (trim spaced)) || not (truthy value)) _ _ λ _.
            refuse-Named (not (is_query auth.api_key.placement) && not (http_token (trim spaced))) _
              _
              λ valid.
                refuse-Named (is_header auth.api_key.placement && is_forbidden (trim spaced)) _ _
                  λ allowed.
                    bind-Named (encode_for platform auth.api_key.placement value) _
                      λ encoded. (ground (arith, valid), allowed)

  oauth_binding-Named : (token : Option OauthToken) → Named (oauth_binding platform token)
  oauth_binding-Named none = tt
  oauth_binding-Named (some token) = elim (Bool-cases (truthy token.access_token)) [
    | inl there ↦ rw there authorization-Named
    | inr gone ↦ rw gone tt
  ]

  -- A type other than none.
  binding_of_type-Named :
      (t : AuthType) (auth : RequestAuth) (context : AuthContext)
      → is_no_auth t ≡ false
      → is_inherit t ≡ false
      → Named (binding_of_type platform t auth context)
  binding_of_type-Named no_auth auth context h k = absurd (cc)
  binding_of_type-Named bearer auth context h k = bearer_binding-Named auth context
  binding_of_type-Named basic auth context h k = basic_binding-Named auth context
  binding_of_type-Named api_key auth context h k = api_key_binding-Named auth context
  binding_of_type-Named oauth2 auth context h k = oauth_binding-Named auth.oauth2.token
  binding_of_type-Named inherit auth context h k = absurd (cc)

  bare_lem :
      (t : AuthType) (auth : RequestAuth) (context : AuthContext)
      → is_no_auth t ≡ true
      → (require_optional (slot_state auth (credential_slot t))
          >> binding_of_type platform t auth context)
        ≡ ok none
  bare_lem no_auth auth context h = refl
  bare_lem bearer auth context h = absurd (cc)
  bare_lem basic auth context h = absurd (cc)
  bare_lem api_key auth context h = absurd (cc)
  bare_lem oauth2 auth context h = absurd (cc)
  bare_lem inherit auth context h = absurd (cc)

  -- The guard on the slot's state, and the binding.
  bound-Named :
      (auth : RequestAuth) (context : AuthContext)
      → is_no_auth auth.type ≡ false
      → is_inherit auth.type ≡ false
      → Named (
          require_optional (slot_state auth (credential_slot auth.type))
          >> binding_of_type platform auth.type auth context)
  bound-Named auth context h k =
      bind-Named (require_optional (slot_state auth (credential_slot auth.type))) _
        λ _. binding_of_type-Named auth.type auth context h k

  abbrev pub IsSafe : AuthBinding → Type 0
  IsSafe b = IsNamed b × (any breaks (b.name ++ b.value) ≡ false)

  unless_breaks-lem :
      (auth : RequestAuth) (a b : AuthBinding)
      → (unless_breaks platform auth (some a)).binding ≡ some b
      → (a ≡ b) × (any breaks (a.name ++ a.value) ≡ false)
  unless_breaks-lem auth a b h = (ground arith, ground arith)

  caught-IsSafe :
      (auth : RequestAuth) (m : Outcome (Option AuthBinding)) (b : AuthBinding)
      → Named m
      → (caught platform auth m).binding ≡ some b
      → IsSafe b
  caught-IsSafe auth (err e) b n h = absurd (cc)
  caught-IsSafe auth (ok none) b n h = absurd (cc)
  caught-IsSafe auth (ok (some a)) b n h =
      rw (sym (unless_breaks-lem auth a b h).0) (n, (unless_breaks-lem auth a b h).1)

  bind_current-IsSafe :
      (auth : RequestAuth) (context : AuthContext) (b : AuthBinding)
      → is_inherit auth.type ≡ false
      → (bind_current platform auth context).binding ≡ some b
      → IsSafe b
  unfolding bind_current
  bind_current-IsSafe auth context b k h = elim (Bool-cases (is_no_auth auth.type)) [
    | inl bare ↦ absurd (caught_none auth _ b (bare_lem auth.type auth context bare) h)
    | inr used ↦ caught-IsSafe auth _ b (bound-Named auth context used k) h
  ]
    where
      caught_none :
          (auth : RequestAuth) (m : Outcome (Option AuthBinding)) (b : AuthBinding)
          → m ≡ ok none
          → (caught platform auth m).binding ≢ some b
      caught_none auth m b e h = ground arith

  caught-silent :
      (auth : RequestAuth) (m : Outcome (Option AuthBinding))
      → Named m
      → (caught platform auth m).binding ≡ none
      → (caught platform auth m).error ≢ none
  caught-silent auth (err e) n h = ground arith
  caught-silent auth (ok none) n h = absurd (cc)
  caught-silent auth (ok (some a)) n h = ground arith

  bind_current-silent :
      (auth : RequestAuth) (context : AuthContext)
      → is_inherit auth.type ≡ false
      → (bind_current platform auth context).binding ≡ none
      → (bind_current platform auth context).error ≡ none
      → is_no_auth auth.type ≡ true
  unfolding bind_current
  bind_current-silent auth context k h n = elim (Bool-cases (is_no_auth auth.type)) [
    | inl bare ↦ bare
    | inr used ↦ absurd (caught-silent auth _ (bound-Named auth context used k) h n)
  ]

  -- A failure to resolve, or the binding of what was resolved.
  resolved_cases :
      (r : Resolved) (context : AuthContext)
      → IsEnd r
      → ((bind_resolved platform r context).binding ≡ none)
          × ((bind_resolved platform r context).error ≢ none)
        ⊎ (is_inherit r.auth.auth.type ≡ false)
          × (bind_resolved platform r context ≡ bind_current platform r.auth.auth context)
  resolved_cases r context (inl (none_left, own)) = inr (own, rw none_left refl)
  resolved_cases r context (inr (inl cycle)) = inl (rw cycle refl, rw cycle (ground arith))
  resolved_cases r context (inr (inr gone)) = inl (rw gone refl, rw gone (ground arith))

  -- What the request is sent with is safe: the name of a header or a cookie is one that HTTP allows, a
  -- header is none of those that the client sets itself, and neither the name nor the value has a line
  -- break or a null character.
  pub get_auth_binding-IsSafe :
      (auth : Shared) (context : AuthContext) (b : AuthBinding)
      → (get_auth_binding platform auth context).binding ≡ some b
      → IsSafe b
  unfolding get_auth_binding
  get_auth_binding-IsSafe auth context b h =
      elim (resolved_cases (resolve_auth auth context) context (resolve_auth_total auth context)) [
        | inl (unbound, _) ↦ absurd (ground (arith, unbound, h))
        | inr (own, same) ↦
            bind_current-IsSafe (resolve_auth auth context).auth.auth context b own
              (ground (arith, same, h))
      ]

  -- A request is never sent without authentication by mistake: with neither a binding nor an error, the
  -- authentication that inheritance led to is none.
  pub get_auth_binding_explicit :
      (auth : Shared) (context : AuthContext)
      → (get_auth_binding platform auth context).binding ≡ none
      → (get_auth_binding platform auth context).error ≡ none
      → is_no_auth (resolve_auth auth context).auth.auth.type ≡ true
  unfolding get_auth_binding
  get_auth_binding_explicit auth context h n =
      elim (resolved_cases (resolve_auth auth context) context (resolve_auth_total auth context)) [
        | inl (_, failed) ↦ absurd (failed n)
        | inr (own, same) ↦
            bind_current-silent (resolve_auth auth context).auth.auth context own
              (ground (arith, same, h)) (ground (arith, same, n))
      ]
