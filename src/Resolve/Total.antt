-- ===== src/Resolve/Total.antt =====
-- The depth limit ends every expansion before the fuel does.
use purr.Common.{
  ℕ, zero, suc, ◌+◌, ◌≤◌, ◌≡◌, ◌≢◌, refl, List, [], ◌∷◌, ◌++◌, arith, Text, length, length-append,
}
use purr.Template.{Token, template_tokens, slice}
use purr.Resolve.{
  out_of_fuel, Result, ok, err, Variables, own, guard, max_depth, replace, resolve_from, ◌>>=◌,
  resolve_environment_value,
}

bind-ne-out_of_fuel :
    (m : Result) (k : Text → Result)
    → m ≢ err out_of_fuel
    → ((t : Text) → m ≡ ok t → k t ≢ err out_of_fuel)
    → (m >>= k) ≢ err out_of_fuel
bind-ne-out_of_fuel (ok t) k hm hk = hk t refl
bind-ne-out_of_fuel (err e) k hm hk = hm

own-ne-out_of_fuel : (variables : Variables) (key : Text) → own variables key ≢ err out_of_fuel
own-ne-out_of_fuel variables key = ground arith

guard-ne-out_of_fuel : (stack : List Text) (key v : Text) → guard stack key v ≢ err out_of_fuel
guard-ne-out_of_fuel stack key v = ground arith

guard-ok-room :
    (stack : List Text) (key v w : Text) → guard stack key v ≡ ok w → suc (length stack) ≤ max_depth
guard-ok-room stack key v w h = ground arith

module _ (expand : Text → List Text → Result) (variables : Variables) (value : Text)
    (stack : List Text)
    (deeper : (v key : Text)
      → suc (length stack) ≤ max_depth
      → expand v (stack ++ (key ∷ [])) ≢ err out_of_fuel) where
  replace-ne-out_of_fuel :
      (cursor : ℕ) (result : Text) (ts : List Token)
      → replace expand variables value stack cursor result ts ≢ err out_of_fuel
  unfolding replace
  replace-ne-out_of_fuel cursor result [] = cc
  replace-ne-out_of_fuel cursor result (t ∷ ts) =
      bind-ne-out_of_fuel _ _ (own-ne-out_of_fuel variables t.name) λ definition found.
        bind-ne-out_of_fuel _ _ (guard-ne-out_of_fuel stack t.name definition) λ allowed free.
          bind-ne-out_of_fuel _ _
            (deeper allowed t.name (guard-ok-room stack t.name definition allowed free))
            λ inner expanded.
              replace-ne-out_of_fuel t.to (result ++ (slice value cursor t.from ++ inner)) ts

resolve_from-ne-out_of_fuel :
    (fuel : ℕ) (variables : Variables) (value : Text) (stack : List Text)
    → length stack ≤ max_depth
    → suc max_depth ≤ fuel + length stack
    → resolve_from fuel variables value stack ≢ err out_of_fuel
unfolding resolve_from
resolve_from-ne-out_of_fuel zero variables value stack h k = absurd (omega arith)
resolve_from-ne-out_of_fuel (suc fuel) variables value stack h k =
    replace-ne-out_of_fuel (resolve_from fuel variables) variables value stack
      (λ v key room.
        resolve_from-ne-out_of_fuel fuel variables v (stack ++ (key ∷ []))
          (omega (arith, length-append stack (key ∷ [])))
          (omega (arith, length-append stack (key ∷ []))))
      0 [] (template_tokens value)

-- Whatever the variables, the expansion of a text ends: with a text, or with the error that a name
-- is not defined or circular.
pub resolve_environment_value_total :
    (value : Text) (variables : Variables)
    → resolve_environment_value value variables ≢ err out_of_fuel
unfolding resolve_environment_value
resolve_environment_value_total value variables =
    resolve_from-ne-out_of_fuel (suc max_depth) variables value [] (omega arith) (omega arith)
