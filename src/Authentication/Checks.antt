-- ===== src/Authentication/Checks.antt =====
-- Reading a value always comes to an end.
use purr.Common.{
  ℕ, zero, suc, ◌+◌, ◌≤◌, ◌≡◌, ◌≢◌, refl, any, text_eq, none, Bool, true, false, Option, some, List,
  [], ◌∷◌, arith, Text, text_eq_refl, eq_of_text_eq, length, Bool-cases, Option-cases, ◌⊎◌, inl,
  inr, if◌then◌else◌,
}
use purr.Request.{SecretFieldState}
use purr.Template.{Token, template_tokens, scan}
use purr.Resolve
use purr.Resolve.{resolve_environment_value}
use purr.Resolve.Total.{resolve_environment_value_total}
use purr.Authentication.{
  AuthContext, entry, own_entries, Found, look_up, object_members, AuthError, secret_unavailable,
  unknown_secret, not_a_text, variable_not_defined, variable_circular, Outcome, ok, err, ◌>>=◌,
  ◌>>◌,
}
use purr.Authentication.Values.{
  require_found, found_value, seen, check_tokens, check_from, check, from_resolve,
  resolve_auth_value,
}

-- The names that were visited stay visited.
abbrev Grows : List Text → List Text → Type 0
Grows v w = (n : Text) → seen v n ≡ true → seen w n ≡ true

-- The errors that reading a value may end with.
abbrev pub is_reading_error : AuthError → Bool
is_reading_error (secret_unavailable _ _) = true
is_reading_error unknown_secret = true
is_reading_error not_a_text = true
is_reading_error (variable_not_defined _) = true
is_reading_error (variable_circular _) = true
is_reading_error _ = false

-- A run that ends with a value or with one of these.
abbrev pub IsRead {ℓ} : {A : Type ℓ} → Outcome A → Type 0
IsRead (ok a) = Unit
IsRead (err e) = is_reading_error e ≡ true

-- A run that did not end for want of fuel, and kept what was visited.
abbrev IsFine : List Text → Outcome (List Text) → Type 0
IsFine v (ok w) = Grows v w
IsFine v (err e) = is_reading_error e ≡ true

-- The entries whose names were not visited.
fresh : List (Text × Text) → List Text → ℕ
fresh [] v = 0
fresh ((key, value) ∷ es) v = if seen v key then fresh es v else suc (fresh es v)

fresh-le-length : (es : List (Text × Text)) (v : List Text) → fresh es v ≤ length es
unfolding fresh
fresh-le-length [] v = omega arith
fresh-le-length ((key, value) ∷ es) v = ground (arith, fresh-le-length es v)

fresh-Grows : (es : List (Text × Text)) (v w : List Text) → Grows v w → fresh es w ≤ fresh es v
unfolding fresh
fresh-Grows [] v w g = omega arith
fresh-Grows ((key, value) ∷ es) v w g = ground (arith, g key, fresh-Grows es v w g)

fresh-visit :
    (es : List (Text × Text)) (v : List Text) (name x : Text)
    → entry es name ≡ some x
    → seen v name ≡ false
    → suc (fresh es (name ∷ v)) ≤ fresh es v
unfolding fresh
fresh-visit [] v name x e n = absurd (cc)
fresh-visit ((key, value) ∷ es) v name x e n = ground (
  arith,
  fresh-visit es v name x,
  eq_of_text_eq key name,
  text_eq_refl name,
  fresh-Grows es v (name ∷ v) (λ (m : Text) (h : seen v m ≡ true). ground arith),
)

-- The fuel is enough for an expression.
abbrev Enough : AuthContext → ℕ → List Text → Text → Type 0
Enough c fuel v x = (fresh (own_entries c.variables) v + 2 ≤ fuel) ⊎ ((x ≡ []) × (1 ≤ fuel))

require_found-fine : (o : Found SecretFieldState) → IsRead (require_found o)
require_found-fine o = ground arith

Grows-visit : (v w : List Text) (name : Text) → Grows (name ∷ v) w → Grows v w
Grows-visit v w name g n h = ground (arith, g n)

-- One bind of the loop.
bind-IsFine :
    (v w : List Text) (m : Outcome (List Text)) (k : List Text → Outcome (List Text))
    → Grows v w
    → IsFine w m
    → ((u : List Text) → Grows w u → IsFine u (k u))
    → IsFine v (m >>= k)
bind-IsFine v w (ok u) k g h f = weaken (k u) (f u h)
  where
    weaken : (r : Outcome (List Text)) → IsFine u r → IsFine v r
    weaken (ok x) i = λ n p. i n (h n (g n p))
    weaken (err e) i = i
bind-IsFine v w (err e) k g h f = h

then-IsFine :
    (v : List Text) (m : Outcome (Unit {0})) (k : Outcome (List Text))
    → IsRead m
    → IsFine v k
    → IsFine v (m >> k)
then-IsFine v (ok t) k n h = h
then-IsFine v (err e) k n h = n

module _ (c : AuthContext) (fuel : ℕ) (expand : Text → List Text → Outcome (List Text))
    (deeper : (x : Text) (v : List Text) → Enough c fuel v x → IsFine v (expand x v)) where
  value-IsFine :
      (es : Option (List (Text × Text))) (v : List Text) (name : Text)
      → c.variables ≡ es
      → fresh (own_entries es) v + 1 ≤ fuel
      → seen v name ≡ false
      → IsFine (name ∷ v) (found_value (look_up es name) >>= λ value. expand value (name ∷ v))
  value-IsFine none v name same h n = deeper [] (name ∷ v) (inr (refl, omega (arith, h)))
  value-IsFine (some es) v name same h n = elim (Option-cases (entry es name)) [
    | inl gone ↦ rw gone (elim (Bool-cases (any (text_eq name) object_members)) [
      | inl member ↦ rw member refl
      | inr free ↦ rw free (deeper [] (name ∷ v) (inr (refl, omega (arith, h))))
    ])
    | inr (x, found) ↦
        rw found
          (deeper x (name ∷ v) (inl (rw same (omega (arith, h, fresh-visit es v name x found n)))))
  ]

  check_tokens-IsFine :
      (ts : List Token) (v : List Text)
      → fresh (own_entries c.variables) v + 1 ≤ fuel
      → IsFine v (check_tokens expand c ts v)
  unfolding check_tokens
  check_tokens-IsFine [] v h = λ n p. p
  check_tokens-IsFine (t ∷ ts) v h = elim (Bool-cases (seen v t.name)) [
    | inl old ↦ rw old (check_tokens-IsFine ts v h)
    | inr new ↦ rw new (
        then-IsFine v (require_found (look_up c.variable_states t.name)) _
          (require_found-fine (look_up c.variable_states t.name))
          (bind-IsFine v (t.name ∷ v) _ _ (λ n p. ground arith)
            (value-IsFine c.variables v t.name refl h new)
            λ u g. check_tokens-IsFine ts u (
              omega
                (arith, h, fresh-Grows (own_entries c.variables) v u (Grows-visit v u t.name g)))))
  ]

check_from-IsFine :
    (c : AuthContext) (fuel : ℕ) (x : Text) (v : List Text)
    → Enough c fuel v x
    → IsFine v (check_from fuel c x v)
unfolding check_from template_tokens scan
check_from-IsFine c zero x v e = absurd (ground (arith, e))
check_from-IsFine c (suc fuel) x v e = elim e [
  | inl room ↦
      check_tokens-IsFine c fuel (check_from fuel c) (check_from-IsFine c fuel) (template_tokens x)
        v (omega (arith, room))
  | inr (blank, _) ↦ rw blank (λ n p. p)
]

IsFine→IsRead : (v : List Text) (m : Outcome (List Text)) → IsFine v m → IsRead m
IsFine→IsRead v (ok w) h = tt
IsFine→IsRead v (err e) h = h

check-IsRead : (c : AuthContext) (x : Text) → IsRead (check c x)
unfolding check
check-IsRead c x = IsFine→IsRead [] (check c x) (
    check_from-IsFine c (suc (suc (length (own_entries c.variables)))) x []
      (inl (omega (arith, fresh-le-length (own_entries c.variables) []))))

from_resolve-IsRead :
    (r : Resolve.Result) → r ≢ Resolve.err Resolve.out_of_fuel → IsRead (from_resolve r)
from_resolve-IsRead (Resolve.ok x) n = tt
from_resolve-IsRead (Resolve.err (Resolve.not_defined x)) n = refl
from_resolve-IsRead (Resolve.err (Resolve.circular x)) n = refl
from_resolve-IsRead (Resolve.err Resolve.out_of_fuel) n = absurd (n refl)

-- Whatever the context and whatever names the value uses, those of members of `Object.prototype` included,
-- reading the value ends: with a text, or with one of these errors: a secret is not at hand, a secret is not
-- known, what is no text is read as one, a variable is not defined, or variables run in a circle.
pub resolve_auth_value_total :
    (value : Text) (context : AuthContext) → IsRead (resolve_auth_value value context)
unfolding resolve_auth_value
resolve_auth_value_total value context = on (check context value) (check-IsRead context value)
  where
    on :
        (m : Outcome (List Text))
        → IsRead m
        → IsRead (
            m >>= λ visited.
            from_resolve (resolve_environment_value value (entry (own_entries context.variables))))
    on (ok w) n =
        from_resolve-IsRead
          (resolve_environment_value value (entry (own_entries context.variables)))
          (resolve_environment_value_total value (entry (own_entries context.variables)))
    on (err e) n = n
