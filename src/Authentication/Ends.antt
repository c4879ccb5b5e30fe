-- ===== src/Authentication/Ends.antt =====
-- Following inheritance always comes to an end.
use purr.Common.{
  ℕ, zero, suc, ◌+◌, ◌≤◌, ◌≡◌, refl, Bool, true, false, ◌||◌, Option, none, some, List, [], ◌∷◌,
  ◌++◌, arith, ap, String, any, find, nat_eq, head?, length, length-append, Different, Within,
  length-Within, Bool-cases, ◌⊎◌, inl, inr, ◌===◌,
}
use purr.Request.{is_inherit, InheritSource}
use purr.Authentication.{Shared, AuthProfile, AuthContext, inherit_cycle}
use purr.Authentication.Inherit.{
  Resolved, workspace_profile, next_source, missing_profile, follow, resolve_loop, resolve_auth,
}

-- The addresses of what the walk may come to.
abbrev optional : Option AuthProfile → List ℕ
optional none = []
optional (some p) = p.auth.address ∷ []

abbrev listed : List AuthProfile → List ℕ
listed [] = []
listed (p ∷ ps) = p.auth.address ∷ listed ps

abbrev reachable : AuthContext → List ℕ
reachable c =
    optional c.schema
    ++ (optional c.environment ++ (optional c.workspace ++ listed c.workspace_profiles))

has : List ℕ → ℕ → Bool
has xs a = any (nat_eq a) xs

has-append :
    (xs ys : List ℕ) (a : ℕ) → any (nat_eq a) (xs ++ ys) ≡ (any (nat_eq a) xs || any (nat_eq a) ys)
has-append [] ys a = refl
has-append (x ∷ xs) ys a = ground (arith, has-append xs ys a)

length-optional : (o : Option AuthProfile) → length (optional o) ≤ 1
length-optional none = omega arith
length-optional (some p) = omega arith

-- A profile among those of a list, or of an option.
find-listed :
    (ps : List AuthProfile) (id : String) (p : AuthProfile)
    → find (λ q. AuthProfile.id q === id) ps ≡ some p
    → any (nat_eq p.auth.address) (listed ps) ≡ true
find-listed [] id p h = absurd (cc)
find-listed (q ∷ ps) id p h = ground (arith, find-listed ps id p)

head-listed :
    (ps : List AuthProfile) (p : AuthProfile)
    → head? ps ≡ some p
    → any (nat_eq p.auth.address) (listed ps) ≡ true
head-listed [] p h = absurd (cc)
head-listed (q ∷ ps) p h = ground arith

is-optional :
    (o : Option AuthProfile) (p : AuthProfile)
    → o ≡ some p
    → any (nat_eq p.auth.address) (optional o) ≡ true
is-optional none p h = absurd (cc)
is-optional (some q) p h = ground arith

abbrev among : AuthContext → AuthProfile → Bool
among c p = any (nat_eq p.auth.address) (reachable c)

among-parts :
    (c : AuthContext) (p : AuthProfile)
    → among c p ≡ (
        any (nat_eq p.auth.address) (optional c.schema)
        || any (nat_eq p.auth.address) (optional c.environment)
        || any (nat_eq p.auth.address) (optional c.workspace)
        || any (nat_eq p.auth.address) (listed c.workspace_profiles))
among-parts c p = ground (
  arith,
  has-append (optional c.schema)
      (optional c.environment ++ (optional c.workspace ++ listed c.workspace_profiles))
      p.auth.address,
  has-append (optional c.environment) (optional c.workspace ++ listed c.workspace_profiles)
      p.auth.address,
  has-append (optional c.workspace) (listed c.workspace_profiles) p.auth.address,
)

workspace_profile-among :
    (c : AuthContext) (id : Option String) (p : AuthProfile)
    → workspace_profile c id ≡ some p
    → among c p ≡ true
workspace_profile-among c none p h =
    ground (arith, among-parts c p, is-optional c.workspace p, head-listed c.workspace_profiles p)
workspace_profile-among c (some id) p h = ground (
  arith,
  among-parts c p,
  is-optional c.workspace p,
  head-listed c.workspace_profiles p,
  find-listed c.workspace_profiles id p,
)

next_source-among :
    (c : AuthContext) (source : Option AuthProfile) (kind : InheritSource) (id : Option String)
    (p : AuthProfile)
    → next_source c source kind (workspace_profile c id) ≡ some p
    → among c p ≡ true
next_source-among c source kind id p h = ground (
  arith,
  among-parts c p,
  is-optional c.schema p,
  is-optional c.environment p,
  workspace_profile-among c id p,
)

nat_eq_sound : (a b : ℕ) → nat_eq a b ≡ true → a ≡ b
nat_eq_sound a b h = ground arith

-- How the walk may end: at an authentication of its own, or with one of its errors.
abbrev pub IsEnd : Resolved → Type 0
IsEnd r =
    ((r.error ≡ none) × (is_inherit r.auth.auth.type ≡ false))
    ⊎ (r.error ≡ some inherit_cycle)
    ⊎ (r.error ≡ some (missing_profile r.auth.auth.inherit.profile_id))

follow-rule :
    (P : Resolved → Type 0) (current : Shared) (o : Option AuthProfile)
    (go : Shared → Option AuthProfile → Resolved)
    → ((e : Option AuthProfile) → o ≡ none → P (follow current none go))
    → ((p : AuthProfile) → o ≡ some p → P (go p.auth (some p)))
    → P (follow current o go)
follow-rule P current none go n k = n none refl
follow-rule P current (some p) go n k = k p refl

module _ (context : AuthContext) (places : List ℕ)
    (known : (p : AuthProfile)
      → among context p ≡ true
      → any (nat_eq p.auth.address) places ≡ true) where
  resolve_loop-IsEnd :
      (fuel : ℕ) (visited : List ℕ) (current : Shared) (source : Option AuthProfile)
      → Different nat_eq visited
      → Within nat_eq places visited
      → any (nat_eq current.address) places ≡ true
      → suc (length places) ≤ fuel + length visited
      → IsEnd (resolve_loop fuel context visited current source)
  unfolding resolve_loop
  resolve_loop-IsEnd zero visited current source d w here h =
      absurd (omega (arith, length-Within nat_eq nat_eq_sound places visited d w))
  resolve_loop-IsEnd (suc fuel) visited current source d w here h =
      elim (Bool-cases (is_inherit current.auth.type)) [
        | inr own ↦ rw own (inl (refl, own))
        | inl inherits ↦ elim (Bool-cases (any (nat_eq current.address) visited)) [
          | inl again ↦ rw (inherits, again) (inr (inl refl))
          | inr new ↦
              rw (inherits, new)
                (follow-rule IsEnd current _ (resolve_loop fuel context (current.address ∷ visited))
                  (λ e gone. inr (inr refl))
                  λ p found.
                    resolve_loop-IsEnd fuel (current.address ∷ visited) p.auth (some p) (new, d)
                      (here, w)
                      (known p (
                        next_source-among context source current.auth.inherit.source
                          current.auth.inherit.profile_id p found))
                      (omega (arith, h)))
        ]
      ]

length-listed : (ps : List AuthProfile) → length (listed ps) ≡ length ps
length-listed [] = refl
length-listed (p ∷ ps) = ap suc (length-listed ps)

-- Following inheritance ends, whatever profiles there are and however they share their objects: with an
-- authentication that does not inherit and no error, with the error of a cycle, or with the error of a
-- profile that is missing.
pub resolve_auth_total : (auth : Shared) (context : AuthContext) → IsEnd (resolve_auth auth context)
unfolding resolve_auth
resolve_auth_total auth context =
    resolve_loop-IsEnd context (auth.address ∷ reachable context) (λ p h. ground (arith, h))
      (suc (suc (suc (suc (suc (suc (length context.workspace_profiles))))))) [] auth none tt tt
      (ground arith) (omega (arith, sizes))
  where
    sizes : length (reachable context) ≤ suc (suc (suc (length context.workspace_profiles)))
    sizes = omega (
      arith,
      length-append (optional context.schema) (
          optional context.environment
          ++ (optional context.workspace ++ listed context.workspace_profiles)),
      length-append (optional context.environment)
          (optional context.workspace ++ listed context.workspace_profiles),
      length-append (optional context.workspace) (listed context.workspace_profiles),
      length-optional context.schema,
      length-optional context.environment,
      length-optional context.workspace,
      length-listed context.workspace_profiles,
    )
