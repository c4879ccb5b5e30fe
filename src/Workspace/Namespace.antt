-- ===== src/Workspace/Namespace.antt =====
-- src/features/workspaces/model/workspace.ts: which variable a name stands for. The maps of the source go from
-- a variable's trimmed name to the variable, so a map is the list of its values in the order of insertion.
pub mod Latest
pub mod Checked
mod Tests
use purr.Common.{
  ℕ, Bool, true, false, ◌&&◌, ◌||◌, not, Option, none, some, List, [], ◌∷◌, ◌++◌, String, Text,
  trim, truthy, text_eq, is_id, find, keep, any, nat_eq, is_some, ◌===◌, if◌then◌else◌,
}
use purr.Variable.{Variable, VariableValue, static, dynamic, external, Environment}
use purr.Workspace.{Workspace}

abbrev pub name_of : Variable → Text
name_of v = trim v.name

abbrev pub is_named : Text → Variable → Bool
is_named name v = text_eq (name_of v) name

-- `map.get(name)` and `map.set(variable.name.trim(), variable)`
abbrev pub get : List Variable → Text → Option Variable
get m name = find (is_named name) m

unfoldable pub set : List Variable → Variable → List Variable
set [] v = v ∷ []
set (x ∷ m) v = if is_named (name_of v) x then v ∷ m else x ∷ set m v

abbrev pub is_enabled : Option Variable → Bool
is_enabled none = false
is_enabled (some v) = v.enabled

-- The loop of `getVariableNamespace`.
unfoldable pub add_variables : List Variable → List Variable → List Variable
unfolding set
add_variables m [] = m
add_variables m (v ∷ vs) =
    add_variables
      (if truthy (name_of v) && (v.enabled || not (is_enabled (get m (name_of v))))
        then set m v
        else m)
      vs

abbrev pub variables_or_none : Option Environment → List Variable
variables_or_none none = []
variables_or_none (some e) = e.variables

-- `workspace.environments.find((environment) => environment.id === environmentId)?.variables ?? []`
abbrev pub environment_variables : Workspace → Option String → List Variable
environment_variables w environment_id =
    variables_or_none (find (λ e. is_id environment_id (Environment.id e)) w.environments)

unfoldable pub get_variable_namespace : Workspace → List Variable → Option String → List Variable
unfolding add_variables
get_variable_namespace w global_variables environment_id =
    keep (λ v. truthy (name_of v)) global_variables
    ++ add_variables [] (w.variables ++ environment_variables w environment_id)

-- The loop of `getEffectiveVariables`.
unfoldable pub set_enabled : List Variable → List Variable → List Variable
unfolding set
set_enabled m [] = m
set_enabled m (v ∷ vs) = set_enabled (if v.enabled then set m v else m) vs

unfoldable pub get_effective_variables : Workspace → List Variable → Option String → List Variable
unfolding get_variable_namespace set_enabled
get_effective_variables w global_variables environment_id =
    set_enabled [] (get_variable_namespace w global_variables environment_id)

abbrev pub static_value : Variable → Option Text
static_value v = elim v.value [ static value ref ↦ some value | _ ↦ none ]

-- `Object.fromEntries`: of two entries with one key the later counts.
unfoldable pub own_value : List Variable → Text → Option Text
own_value [] name = none
own_value (v ∷ vs) name =
    let later = own_value vs name in
    if is_some later then later else if is_named name v then static_value v else none

-- The value that `getEffectiveVariableValues` gives a name.
unfoldable pub get_effective_variable_value :
    Workspace → List Variable → Option String → Text → Option Text
unfolding get_effective_variables own_value
get_effective_variable_value w global_variables environment_id name =
    own_value (get_effective_variables w global_variables environment_id) name

pub data EnvironmentError : Type 0 where
  no_name not_static bad_name : EnvironmentError
  repeated : Text → EnvironmentError

abbrev pub has_brace : Text → Bool
has_brace s = any (λ c. nat_eq c b'{' || nat_eq c b'}') s

-- One variable of `validateEnvironment`, with what the loop does next.
abbrev pub validate_entry :
    List Text → Variable → (List Text → Option EnvironmentError) → Option EnvironmentError
validate_entry seen v next = elim v.value [
  | static value ref ↦
      if not (truthy (name_of v)) && not (truthy value)
      then next seen
      else if not (truthy (name_of v)) || has_brace (name_of v)
      then some bad_name
      else if any (text_eq (name_of v)) seen
      then some (repeated (name_of v))
      else next (name_of v ∷ seen)
  | _ ↦ some not_static
]

unfoldable pub validate_variables : List Variable → List Text → Option EnvironmentError
validate_variables [] seen = none
validate_variables (v ∷ vs) seen = validate_entry seen v (validate_variables vs)

unfoldable pub validate_environment : Environment → Option EnvironmentError
unfolding validate_variables
validate_environment e =
    if truthy (trim e.name) then validate_variables e.variables [] else some no_name
