-- ===== src/Resolve/Tests.antt =====
-- Variables that refer to one another, and the theorems at work on them.
use purr.Common.{
  ◌≡◌, ◌≢◌, refl, sym, ap, ◌∙◌, ◌⊎◌, inl, inr, none, some, List, [], ◌∷◌, Text, codes, text_eq,
  arith, trim, if◌then◌else◌,
}
use mathlib.Core.Path.{subst}
use purr.Template.{template_tokens}
use purr.Template.RoundTrip.{Part, written, referenced, render}
use purr.Resolve.{
  Failure, out_of_fuel, circular, not_defined, ok, err, Variables, resolve_from,
  resolve_environment_value,
}
use purr.Resolve.Total.{resolve_environment_value_total}
use purr.Resolve.Cycles.{IsCircular, Some, resolve_circular}
use purr.Resolve.Parts.{reference_value, expand_parts, resolve_from-render}

abbrev variables : Variables
variables name =
    if text_eq name (codes "host")
    then some (codes "https://{{ domain }}")
    else if text_eq name (codes "domain")
    then some (codes "x.io")
    else if text_eq name (codes "a")
    then some (codes "-{{b}}")
    else if text_eq name (codes "b")
    then some (codes "{{a}}")
    else none

expands : resolve_environment_value (codes "{{host}}/u") variables ≡ ok (codes "https://x.io/u")
unfolding resolve_environment_value template_tokens trim
expands = refl

misses : resolve_environment_value (codes "{{port}}") variables ≡ err (not_defined (codes "port"))
unfolding resolve_environment_value template_tokens trim
misses = refl

circles : resolve_environment_value (codes "{{a}}") variables ≡ err (circular (codes "a"))
unfolding resolve_environment_value template_tokens trim
circles = refl

abbrev InCircle : Text → Type 0
InCircle name = (name ≡ codes "a") ⊎ (name ≡ codes "b")

circle : IsCircular variables InCircle
unfolding template_tokens trim
circle name definition (inl p) e =
    let q : codes "-{{b}}" ≡ definition = cc (sym (ap variables p) ∙ e) in
    subst (λ (d : Text). Some InCircle (template_tokens d)) q (inl (inr refl))
circle name definition (inr p) e =
    let q : codes "{{a}}" ≡ definition = cc (sym (ap variables p) ∙ e) in
    subst (λ (d : Text). Some InCircle (template_tokens d)) q (inl (inl refl))

resolve_circular_example :
    (e : Failure) × (resolve_environment_value (codes "{{a}}") variables ≡ err e)
    × (e ≢ out_of_fuel)
unfolding template_tokens trim
resolve_circular_example =
    resolve_circular variables InCircle (codes "{{a}}") circle (inl (inl refl))

abbrev parts : List Part
parts = written (codes "https://") ∷ referenced (codes " domain ") ∷ []

resolve_from-render_example :
    resolve_from 2 variables (render parts) []
    ≡ expand_parts (reference_value (resolve_from 1 variables) variables []) parts
resolve_from-render_example = resolve_from-render 1 variables [] parts (ground arith)

resolve_environment_value_total_example :
    resolve_environment_value (codes "{{a}}") variables ≢ err out_of_fuel
resolve_environment_value_total_example = resolve_environment_value_total (codes "{{a}}") variables
