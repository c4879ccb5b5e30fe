-- ===== src/Resolve.antt =====
-- src/shared/lib/resolve-variables.ts: a text with each `{{name}}` replaced by the variable's value,
-- whose own references are replaced first.
pub mod Total
pub mod Cycles
pub mod Parts
mod Tests
use purr.Common.{
  ℕ, zero, suc, ◌+◌, Bool, true, false, ◌||◌, Option, none, some, List, [], ◌∷◌, ◌++◌, Text,
  text_eq, leb, length, drop, any, if◌then◌else◌,
}
use purr.Template.{Token, template_tokens, slice}

-- The errors that the function throws, with the name that the message shows. `out_of_fuel` is the
-- model's own.
pub data Failure : Type 0 where
  not_defined : Text → Failure
  circular : Text → Failure
  out_of_fuel : Failure

pub data Result : Type 0 where
  ok : Text → Result
  err : Failure → Result

infixl 5 ◌>>=◌
abbrev pub ◌>>=◌ : Result → (Text → Result) → Result
ok t >>= k = k t
err e >>= k = err e

-- `Record<string, string>`: the own properties.
abbrev pub Variables : Type 0
Variables = Text → Option Text

abbrev pub own : Variables → Text → Result
own variables key = elim (variables key) [ none ↦ err (not_defined key) | some value ↦ ok value ]

abbrev pub max_depth : ℕ
max_depth = 32

abbrev pub guard : List Text → Text → Text → Result
guard stack key value =
    if any (text_eq key) stack || leb max_depth (length stack) then err (circular key) else ok value

-- The loop over the tokens; `expand` is the recursive call.
pub replace :
    (expand : Text → List Text → Result) (variables : Variables) (value : Text) (stack : List Text)
    → (cursor : ℕ) (result : Text) → List Token
    → Result
replace expand variables value stack cursor result [] = ok (result ++ drop cursor value)
replace expand variables value stack cursor result (t ∷ ts) = do
  definition ← own variables t.name
  allowed ← guard stack t.name definition
  inner ← expand allowed (stack ++ (t.name ∷ []))
  replace expand variables value stack t.to (result ++ (slice value cursor t.from ++ inner)) ts

-- `resolveEnvironmentValue`, on fuel.
pub resolve_from : ℕ → Variables → Text → List Text → Result
unfolding replace
resolve_from zero variables value stack = err out_of_fuel
resolve_from (suc fuel) variables value stack =
    replace (resolve_from fuel variables) variables value stack 0 [] (template_tokens value)

unfoldable pub resolve_environment_value : Text → Variables → Result
unfolding resolve_from
resolve_environment_value value variables = resolve_from (suc max_depth) variables value []
