-- ===== src/Project/Checks.antt =====
-- src/domain/project.ts: the errors of the checks, and how one check follows another.
use purr.Common.{Bool, true, false, Option, none, some, List, [], ◌∷◌}

-- What the checks throw.
pub data ProjectError : Type 0 where
  invalid_definition plain_credential cookie_not_sensitive secret_not_sensitive : ProjectError
  runtime_secret foreign_secret foreign_variable : ProjectError
  duplicate_resources duplicate_configuration auth_inherits duplicate_variable_names : ProjectError
  duplicate_variable_ids duplicate_environment_names : ProjectError
  sensitive_static plain_static external_not_sensitive : ProjectError
  missing_request missing_environment missing_duration missing_profile missing_schema : ProjectError
  duplicate_environment_variable_names environment_not_static : ProjectError
  folder_cycle missing_folder : ProjectError
  out_of_fuel : ProjectError

-- A check ends with the error that it throws, or with none and the next one runs.
infixr 20 ◌or_else◌
abbrev pub ◌or_else◌ : Option ProjectError → Option ProjectError → Option ProjectError
none or_else e = e
some x or_else e = some x

abbrev pub throw_if : Bool → ProjectError → Option ProjectError
throw_if true e = some e
throw_if false e = none

unfoldable pub each {ℓ} : {A : Type ℓ} → (A → Option ProjectError) → List A → Option ProjectError
each f [] = none
each f (x ∷ xs) = f x or_else each f xs

abbrev pub each_some {ℓ} : {A : Type ℓ} → (A → Option ProjectError) → Option A → Option ProjectError
each_some f none = none
each_some f (some x) = f x
