-- ===== src/Template.antt =====
-- src/domain/template-expression.ts: the `{{ name }}` tokens of a text, and what follows from them.
-- A text is the list of its UTF-16 code units, so an index is a JavaScript string index.
pub mod Run
pub mod Placed
pub mod Segments
pub mod RoundTrip
pub mod Pure
mod Tests
use purr.Common.{
  ℕ, zero, suc, ◌+◌, ◌-◌, Bool, true, false, ◌&&◌, ◌||◌, not, Option, none, some, List, [], ◌∷◌,
  ◌++◌, map, Text, is_space, trim, truthy, nat_eq, ltb, length, take, drop, if◌then◌else◌,
}

pub record Token : Type 0 where
  pub from : ℕ
  pub to : ℕ
  pub text : Text
  pub name : Text

abbrev pub is_brace : ℕ → Bool
is_brace c = nat_eq c b'{' || nat_eq c b'}'

-- The longest run of `[^{}]`.
abbrev pub name_run : Text → Text
name_run [] = []
name_run (c ∷ s) = if is_brace c then [] else c ∷ name_run s

abbrev pub closes : Text → Bool
closes (a ∷ b ∷ _) = nat_eq a b'}' && nat_eq b b'}'
closes _ = false

-- `/{{\s*([^{}]+?)\s*}}/` at the start of a text: what stands between the braces. The group and the
-- white space around it share one run, since `\s` matches no brace; the run may be all white space,
-- of which the group then takes the last character.
pub token_at : Text → Option Text
token_at (a ∷ b ∷ s) =
    if nat_eq a b'{'
      && nat_eq b b'{'
      && truthy (name_run s)
      && closes (drop (length (name_run s)) s)
    then some (name_run s)
    else none
token_at _ = none

abbrev pub token : ℕ → Text → Text → Token
token at run s = record {
  from = at;
  to = at + (length run + 4);
  text = take (length run + 4) s;
  name = trim run;
}

-- `matchAll`: from left to right, going on behind each match. `skip` units are still to be passed.
unfoldable pub scan : ℕ → ℕ → Text → List Token
unfolding token_at
scan at skip [] = []
scan at (suc skip) (c ∷ s) = scan (at + 1) skip s
scan at zero (c ∷ s) = elim (token_at (c ∷ s)) [
  | none ↦ scan (at + 1) 0 s
  | some run ↦ token at run (c ∷ s) ∷ scan (at + 1) (length run + 3) s
]

unfoldable pub template_tokens : Text → List Token
unfolding scan token_at
template_tokens value = scan 0 0 value

-- `value.slice(a, b)`, for a ≤ b
abbrev pub slice : Text → ℕ → ℕ → Text
slice value a b = take (b - a) (drop a value)

pub record Segment : Type 0 where
  pub text : Text
  pub variable : Bool

abbrev pub bullet : ℕ
bullet = 0x2022

abbrev pub masked : Text → Text
masked s = map (λ c. if is_space c then c else bullet) s

abbrev pub literal : Bool → Text → Segment
literal mask s = record { text = if mask then masked s else s; variable = false }

-- The loop of `templateSegments`.
pub segments_from : Text → Bool → ℕ → List Token → List Segment
segments_from value mask from [] =
    if ltb from (length value) then literal mask (drop from value) ∷ [] else []
segments_from value mask from (t ∷ ts) =
    (if ltb from t.from then literal mask (slice value from t.from) ∷ [] else [])
    ++ (record { text = t.text; variable = true } ∷ segments_from value mask t.to ts)

unfoldable pub template_segments : Text → Bool → List Segment
unfolding segments_from
template_segments value mask = segments_from value mask 0 (template_tokens value)

abbrev pub is_pure : Text → List Token → Bool
is_pure value (t ∷ []) =
    truthy t.name
    && not (truthy (trim (slice value 0 t.from)))
    && not (truthy (trim (drop t.to value)))
is_pure value _ = false

unfoldable pub is_pure_template_reference : Text → Bool
is_pure_template_reference value = is_pure value (template_tokens value)

pub data Classification : Type 0 where
  template : Text → Text → Classification
  mixed : Text → Classification
  plain : Text → Classification

abbrev pub classified : Text → Bool → List Token → Classification
classified value true (t ∷ _) = template value t.name
classified value true [] = plain value
classified value false (_ ∷ _) = mixed value
classified value false [] = plain value

unfoldable pub classify_expression : Text → Classification
classify_expression value =
    classified value (is_pure_template_reference value) (template_tokens value)
