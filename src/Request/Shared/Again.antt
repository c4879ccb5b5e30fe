-- ===== src/Request/Shared/Again.antt =====
-- Applying what a workspace shares a second time changes nothing.
use mathlib.Core.Path.{subst}
use purr.Common.{
  ◌≡◌, refl, sym, ap, ◌∙◌, Bool, true, false, ◌||◌, not, Option, none, some, List, [], ◌∷◌, ◌++◌,
  arith, Text, text_eq_refl, trim, truthy, keep, map, All, All-mono, Bool-cases, inl, inr, ◌⊎◌,
}
use purr.Request.{Header, RequestDraft, RequestAuth}
use purr.Request.Query.{Web}
use purr.Request.Shared.Settled.{traced_again, assigned_again, dropped_again, or_else_again}
use purr.Request.Shared.{
  RequestKind, http, graphql, SharedHeader, RequestConfig, Integration, or_else, chosen, wanted_id,
  SchemaConnection, workspace_auth_applies, with_workspace_auth_default, effective_auth,
  resolve_request_tracing, plain_name, is_own, is_shared, share, shared_headers, connection_of,
  to_connection, configured, apply_workspace_request_config,
}

keep-none : {A : Type 0} (p : A → Bool) (xs : List A) → All (λ x. p x ≡ false) xs → keep p xs ≡ []
keep-none p [] h = refl
keep-none p (x ∷ xs) (h, hs) = rw h (keep-none p xs hs)

keep-cons :
    {A : Type 0} (p : A → Bool) (x : A) (xs : List A)
    → (keep p (x ∷ xs) ≡ x ∷ keep p xs) × (p x ≡ true)
      ⊎ (keep p (x ∷ xs) ≡ keep p xs) × (p x ≡ false)
keep-cons p x xs = elim (Bool-cases (p x)) [
  | inl there ↦ inl (rw there refl, there)
  | inr gone ↦ inr (rw gone refl, gone)
]

module _ (web : Web) (to_lower : Text → Text)
    (lower_truthy : (s : Text) → truthy s ≡ true → truthy (to_lower s) ≡ true) where
  is_own-append :
      (hs gs : List Header) (name : Text)
      → is_own web to_lower (hs ++ gs) name
        ≡ (is_own web to_lower hs name || is_own web to_lower gs name)
  unfolding is_own
  is_own-append [] gs name = refl
  is_own-append (h ∷ hs) gs name = ground (arith, is_own-append hs gs name)

  own_share :
      (request : RequestDraft) (s : SharedHeader) (hs : List Header)
      → truthy (trim s.header.name) ≡ true
      → is_own web to_lower (share web to_lower request s ∷ hs) (plain_name web to_lower s.header)
        ≡ true
  unfolding is_own
  own_share request s hs t =
      ground
        (arith, lower_truthy (trim s.header.name) t, text_eq_refl (to_lower (trim s.header.name)))

  own_cons :
      (h : Header) (hs : List Header) (name : Text)
      → is_own web to_lower hs name ≡ true
      → is_own web to_lower (h ∷ hs) name ≡ true
  unfolding is_own
  own_cons h hs name k = ground (arith, k)

  is_shared-truthy :
      (request : RequestDraft) (kind : RequestKind) (s : SharedHeader)
      → is_shared web to_lower request kind s ≡ true
      → truthy (trim s.header.name) ≡ true
  unfolding is_shared
  is_shared-truthy request kind s h = ground (arith, h)

  -- A header that is shared is among those of a list.
  abbrev Own : RequestDraft → RequestKind → List Header → SharedHeader → Type 0
  Own request kind hs s =
      is_shared web to_lower request kind s ≡ true
      → is_own web to_lower hs (plain_name web to_lower s.header) ≡ true

  shared-Own :
      (request : RequestDraft) (kind : RequestKind) (xs : List SharedHeader)
      → All
          (Own request kind
            (map (share web to_lower request) (keep (is_shared web to_lower request kind) xs)))
          xs
  shared-Own request kind [] = tt
  shared-Own request kind (s ∷ xs) = elim (keep-cons (is_shared web to_lower request kind) s xs) [
    | inl (e, there) ↦
        subst (λ l. All (Own request kind (map (share web to_lower request) l)) (s ∷ xs)) (sym e)
          (
            (λ h. own_share request s (shared xs) (is_shared-truthy request kind s there)),
            All-mono (Own request kind (shared xs))
                (Own request kind (share web to_lower request s ∷ shared xs))
                (λ t k h.
                  own_cons (share web to_lower request s) (shared xs)
                    (plain_name web to_lower (SharedHeader.header t)) (k h))
                xs (shared-Own request kind xs),
          )
    | inr (e, gone) ↦
        subst (λ l. All (Own request kind (map (share web to_lower request) l)) (s ∷ xs)) (sym e)
          ((λ h. ground (arith, h, gone)), shared-Own request kind xs)
  ]
    where
      shared : List SharedHeader → List Header
      shared xs = map (share web to_lower request) (keep (is_shared web to_lower request kind) xs)

  is_shared_again :
      (request : RequestDraft) (kind : RequestKind) (config : RequestConfig) (s : SharedHeader)
      → (is_shared web to_lower request kind s ≡ true
          → is_own web to_lower
              (shared_headers web to_lower request kind config)
              (plain_name web to_lower s.header)
            ≡ true)
      → is_shared web to_lower (configured web to_lower request kind config) kind s ≡ false
  unfolding is_shared
  is_shared_again request kind config s h = ground (
    arith,
    h,
    is_own-append (shared_headers web to_lower request kind config) request.headers
        (plain_name web to_lower s.header),
  )

  shared_headers_again :
      (request : RequestDraft) (kind : RequestKind) (config : RequestConfig)
      → shared_headers web to_lower (configured web to_lower request kind config) kind config ≡ []
  unfolding shared_headers
  shared_headers_again request kind config =
      ap (map (share web to_lower (configured web to_lower request kind config))) (
        keep-none (is_shared web to_lower (configured web to_lower request kind config) kind)
          config.headers
          (All-mono _ _ (is_shared_again request kind config) config.headers
            (shared-Own request kind config.headers)))

-- The runtime templates of tracing headers left out.
abbrev pub untemplated : RequestDraft → RequestDraft
untemplated request = record request { trace_header_templates = none }

module _ (web : Web) (to_lower : Text → Text)
    (lower_truthy : (s : Text) → truthy s ≡ true → truthy (to_lower s) ≡ true) where
  effective_auth_again :
      (request : RequestDraft) (kind : RequestKind) (config : RequestConfig)
      → effective_auth (configured web to_lower request kind config) kind config
        ≡ effective_auth request kind config
  unfolding effective_auth with_workspace_auth_default
  effective_auth_again request http config =
      assigned_again request.workspace.auth_enabled (workspace_auth_applies config http) _
        request.auth
  effective_auth_again request graphql config =
      dropped_again
        (not request.workspace.auth_enabled || not (workspace_auth_applies config graphql))
        request.auth

  propagation_again :
      (request : RequestDraft) (kind : RequestKind) (config : RequestConfig)
      → (configured web to_lower
          (configured web to_lower request kind config)
          kind
          config).trace_propagation
        ≡ (configured web to_lower request kind config).trace_propagation
  unfolding resolve_request_tracing
  propagation_again request kind config = go config.integrations refl
    where
      go :
          (integrations : Option (List Integration))
          → config.integrations ≡ integrations
          → (configured web to_lower
              (configured web to_lower request kind config)
              kind
              config).trace_propagation
            ≡ (configured web to_lower request kind config).trace_propagation
      go none e = rw e (or_else_again request.trace_propagation config.trace_propagation)
      go (some integrations) e = rw e (
          ap some (
            traced_again (chosen integrations (wanted_id request.tracing)) request.tracing
              (or_else request.trace_propagation config.trace_propagation)
              config.trace_propagation))

  configured_again :
      (request : RequestDraft) (kind : RequestKind) (config : RequestConfig)
      → untemplated
          (configured web to_lower (configured web to_lower request kind config) kind config)
        ≡ untemplated (configured web to_lower request kind config)
  configured_again request kind config =
      assemble (configured web to_lower request kind config)
        (ap (λ hs. hs ++ (configured web to_lower request kind config).headers)
          (shared_headers_again web to_lower lower_truthy request kind config))
        (propagation_again request kind config) (effective_auth_again request kind config)
    where
      assemble :
          (r : RequestDraft) {headers : List Header} {propagation : Option Text}
          {auth : RequestAuth}
          → headers ≡ r.headers
          → propagation ≡ r.trace_propagation
          → auth ≡ r.auth
          → record r {
            trace_header_templates = none;
            headers = headers;
            trace_propagation = propagation;
            auth = auth;
          }
            ≡ untemplated r
      assemble r h p a = rw (h, p, a) refl

  connection_again :
      (request : RequestDraft) (kind : RequestKind) (config : RequestConfig)
      → apply_workspace_request_config web to_lower
          (apply_workspace_request_config web to_lower request kind config)
          kind
          config
        ≡ configured web to_lower
            (apply_workspace_request_config web to_lower request kind config)
            kind
            config
  unfolding apply_workspace_request_config
  connection_again request http config = refl
  connection_again request graphql config =
      ap
        (λ c.
          configured web to_lower
            (to_connection web to_lower c
              (applied (connection_of web to_lower request graphql config)))
            graphql config)
        (same (connection_of web to_lower request graphql config))
      ∙ ap (λ r. configured web to_lower r graphql config)
          (settled (connection_of web to_lower request graphql config))
    where
      applied : Option SchemaConnection → RequestDraft
      applied c = configured web to_lower (to_connection web to_lower c request) graphql config

      same :
          (c : Option SchemaConnection)
          → connection_of web to_lower (applied c) graphql config
            ≡ connection_of web to_lower request graphql config
      same none = refl
      same (some c) = refl

      settled : (c : Option SchemaConnection) → to_connection web to_lower c (applied c) ≡ applied c
      settled none = refl
      settled (some c) = refl

  last_step :
      (request : RequestDraft) (kind : RequestKind) (config : RequestConfig)
      → untemplated (
          configured web to_lower
            (apply_workspace_request_config web to_lower request kind config)
            kind
            config)
        ≡ untemplated (apply_workspace_request_config web to_lower request kind config)
  unfolding apply_workspace_request_config
  last_step request kind config =
      configured_again
        (to_connection web to_lower (connection_of web to_lower request kind config) request) kind
        config

  -- Applying what a workspace shares is done once and for all: a second time gives the same request, the
  -- runtime templates of tracing headers aside. A shared header is then one of the request's own, and is
  -- not added again, where the lower case of a text that is not empty is not empty.
  pub apply_workspace_request_config_again :
      (request : RequestDraft) (kind : RequestKind) (config : RequestConfig)
      → untemplated (
          apply_workspace_request_config web to_lower
            (apply_workspace_request_config web to_lower request kind config)
            kind
            config)
        ≡ untemplated (apply_workspace_request_config web to_lower request kind config)
  apply_workspace_request_config_again request kind config =
      ap untemplated (connection_again request kind config) ∙ last_step request kind config
