-- ===== src/Resolve/Cycles.antt =====
-- Names that refer to one another in a circle never resolve.
use purr.Common.{
  ℕ, zero, suc, ◌≡◌, ◌≢◌, refl, ◌⊎◌, inl, inr, some, List, [], ◌∷◌, ◌++◌, arith, Text, All, ap, sym,
}
use mathlib.Core.Path.{subst}
use purr.Template.{Token, template_tokens, slice}
use purr.Resolve.{
  Failure, out_of_fuel, Result, ok, err, ◌>>=◌, Variables, own, guard, max_depth, replace,
  resolve_from, resolve_environment_value,
}
use purr.Resolve.Total.{resolve_environment_value_total}

>>=-eq-ok :
    (m : Result) (k : Text → Result) (b : Text)
    → (m >>= k) ≡ ok b
    → (a : Text) × (m ≡ ok a) × (k a ≡ ok b)
>>=-eq-ok (ok a) k b h = (a, refl, h)
>>=-eq-ok (err e) k b h = absurd (cc)

own-eq-ok :
    (variables : Variables) (key v : Text) → own variables key ≡ ok v → variables key ≡ some v
own-eq-ok variables key v h = ground arith

guard-eq-ok : (stack : List Text) (key v w : Text) → guard stack key v ≡ ok w → v ≡ w
guard-eq-ok stack key v w h = ground arith

-- The name is defined, and its definition expands.
abbrev Expands : (Text → List Text → Result) → Variables → List Text → Text → Type 0
Expands expand variables stack name =
    (definition : Text) × (variables name ≡ some definition)
    × ((inner : Text) × (expand definition (stack ++ (name ∷ [])) ≡ ok inner))

module _ (expand : Text → List Text → Result) (variables : Variables) (value : Text)
    (stack : List Text) where
  replace-Expands :
      (cursor : ℕ) (result : Text) (ts : List Token) (out : Text)
      → replace expand variables value stack cursor result ts ≡ ok out
      → All (λ t. Expands expand variables stack t.name) ts
  unfolding replace
  replace-Expands cursor result [] out h = tt
  replace-Expands cursor result (t ∷ ts) out h =
      let (definition, found, h₁) = >>=-eq-ok (own variables t.name) _ out h in
      let (allowed, free, h₂) = >>=-eq-ok (guard stack t.name definition) _ out h₁ in
      let (inner, expanded, h₃) = >>=-eq-ok (expand allowed (stack ++ (t.name ∷ []))) _ out h₂ in
      (
        (
          definition,
          own-eq-ok variables t.name definition found,
          (
            inner,
            subst (λ (d : Text). expand d (stack ++ (t.name ∷ [])) ≡ ok inner)
                (sym (guard-eq-ok stack t.name definition allowed free)) expanded,
          ),
        ),
        replace-Expands t.to (result ++ (slice value cursor t.from ++ inner)) ts out h₃,
      )

abbrev pub Some : (Text → Type 0) → List Token → Type 0
Some P [] = ⊥
Some P (t ∷ ts) = P t.name ⊎ Some P ts

-- Names of which each is undefined or is defined by a text that names one of them again.
abbrev pub IsCircular : Variables → (Text → Type 0) → Type 0
IsCircular variables P =
    (name definition : Text)
    → P name
    → variables name ≡ some definition
    → Some P (template_tokens definition)

module _ (variables : Variables) (P : Text → Type 0) (circle : IsCircular variables P) where
  Some-Expands :
      (expand : Text → List Text → Result) (stack : List Text)
      → ((v : Text) (s : List Text) (out : Text) → Some P (template_tokens v) → expand v s ≢ ok out)
      → (ts : List Token) → Some P ts
      → All (λ t. Expands expand variables stack t.name) ts
      → ⊥
  Some-Expands expand stack never [] s _ = elim s [ ]
  Some-Expands expand stack never (t ∷ ts) (inl p) ((definition, found, (inner, e)), _) =
      never definition (stack ++ (t.name ∷ [])) inner (circle t.name definition p found) e
  Some-Expands expand stack never (t ∷ ts) (inr ps) (_, es) =
      Some-Expands expand stack never ts ps es

  resolve_from_circular :
      (fuel : ℕ) (value : Text) (stack : List Text) (out : Text)
      → Some P (template_tokens value)
      → resolve_from fuel variables value stack ≢ ok out
  unfolding resolve_from
  resolve_from_circular zero value stack out s h = absurd (cc)
  resolve_from_circular (suc fuel) value stack out s h =
      Some-Expands (resolve_from fuel variables) stack (resolve_from_circular fuel)
        (template_tokens value) s
        (replace-Expands (resolve_from fuel variables) variables value stack 0 []
          (template_tokens value) out h)

failure_of :
    (r : Result)
    → ((out : Text) → r ≢ ok out)
    → r ≢ err out_of_fuel
    → (e : Failure) × (r ≡ err e) × (e ≢ out_of_fuel)
failure_of (ok t) h k = absurd (h t refl)
failure_of (err e) h k = (e, refl, λ p. k (ap err p))

-- Among the names of a set let each defined one be defined by a text that names one of the set
-- again. A text that names one of them is refused, as not defined or circular, and never expanded.
pub resolve_circular :
    (variables : Variables) (P : Text → Type 0) (value : Text)
    → IsCircular variables P
    → Some P (template_tokens value)
    → (e : Failure) × (resolve_environment_value value variables ≡ err e) × (e ≢ out_of_fuel)
resolve_circular variables P value circle s =
    failure_of _
      (unfold resolve_environment_value in
        λ out. resolve_from_circular variables P circle (suc max_depth) value [] out s)
      (resolve_environment_value_total value variables)
