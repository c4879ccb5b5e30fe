-- ===== src/Template/Tests.antt =====
-- Template texts that can be followed by hand, and the theorems at work on them.
use purr.Common.{
  Text, false, ◌≡◌, refl, true, List, [], ◌∷◌, map, codes, arith, trim, All, is_space,
}
use purr.Template.{
  template_tokens, template_segments, is_pure_template_reference, classify_expression, template,
  mixed, plain,
}
use purr.Template.Segments.{texts, template_segments-texts}
use purr.Template.Placed.{Placed, template_tokens-Placed}
use purr.Template.RoundTrip.{
  Part, written, referenced, render, names, IsPart, template_tokens-render,
}

-- White space round a name is left out; a brace too many on the left is passed over.
scans :
    map (λ t. t.name) (template_tokens (codes "{{ host }}/{{{id}}?q={{}}&x={{ }}"))
    ≡ codes "host" ∷ codes "id" ∷ [] ∷ []
unfolding template_tokens trim
scans = refl

masks :
    map (λ s. s.text) (template_segments (codes "a b{{c}}") true)
    ≡ (0x2022 ∷ 0x20 ∷ 0x2022 ∷ []) ∷ codes "{{c}}" ∷ []
unfolding template_segments template_tokens is_space
masks = refl

pure :
    classify_expression (codes " {{ token }} ") ≡ template (codes " {{ token }} ") (codes "token")
unfolding classify_expression is_pure_template_reference template_tokens trim
pure = refl

joined : classify_expression (codes "Bearer {{t}}") ≡ mixed (codes "Bearer {{t}}")
unfolding classify_expression is_pure_template_reference template_tokens trim
joined = refl

no_template : classify_expression (codes "{{}}") ≡ plain (codes "{{}}")
unfolding classify_expression is_pure_template_reference template_tokens trim
no_template = refl

abbrev parts : List Part
parts = written (codes "/u/") ∷ referenced (codes " id ") ∷ written (codes "}}") ∷ []

parts-IsPart : All IsPart parts
parts-IsPart = ground arith

template_tokens-render_example : map (λ t. t.name) (template_tokens (render parts)) ≡ names parts
template_tokens-render_example = template_tokens-render parts parts-IsPart

abbrev sample : Text
sample = codes "https://{{ host }}/x"

template_segments-texts_example : texts (template_segments sample false) ≡ sample
template_segments-texts_example = template_segments-texts sample

template_tokens-Placed_example : Placed sample 0 (template_tokens sample)
template_tokens-Placed_example = template_tokens-Placed sample
