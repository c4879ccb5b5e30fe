-- ===== src/Workspace/Namespace/Latest.antt =====
-- The variable that a name stands for is the latest enabled one of that name.
use purr.Common.{
  text_eq_refl, eq_of_text_eq, ◌≡◌, refl, ap, ◌∙◌, true, ◌&&◌, Option, none, some, List, [], ◌∷◌,
  ◌++◌, arith, String, Text, truthy, keep, if◌then◌else◌,
}
use purr.Variable.{Variable}
use purr.Workspace.{Workspace}
use purr.Workspace.Namespace.{
  name_of, is_named, get, set, is_enabled, add_variables, environment_variables,
  get_variable_namespace, set_enabled, get_effective_variables, static_value, own_value,
  get_effective_variable_value,
}

abbrev pub or_earlier {ℓ} : {A : Type ℓ} → Option A → Option A → Option A
or_earlier none b = b
or_earlier (some a) b = some a

abbrev pub this_one : Text → Variable → Option Variable
this_one name v = if v.enabled && is_named name v then some v else none

-- The last enabled variable of the name.
abbrev pub latest : Text → List Variable → Option Variable
latest name [] = none
latest name (v ∷ vs) = or_earlier (latest name vs) (this_one name v)

get-set :
    (m : List Variable) (v : Variable) (n : Text)
    → get (set m v) n ≡ (if is_named n v then some v else get m n)
unfolding set
get-set [] v n = refl
get-set (x ∷ m) v n = ground (
  arith,
  get-set m v n,
  eq_of_text_eq (name_of x) (name_of v),
  eq_of_text_eq (name_of x) n,
  eq_of_text_eq (name_of v) n,
  text_eq_refl (name_of v),
)

get-set_enabled :
    (m vs : List Variable) (n : Text)
    → get (set_enabled m vs) n ≡ or_earlier (latest n vs) (get m n)
unfolding set_enabled
get-set_enabled m [] n = refl
get-set_enabled m (v ∷ vs) n =
    ground (arith, get-set m v n, get-set_enabled (set m v) vs n, get-set_enabled m vs n)

-- No two values of a map have one name.
abbrev Unrepeated : List Variable → Type 0
Unrepeated [] = Unit
Unrepeated (x ∷ m) = (get m (name_of x) ≡ none) × Unrepeated m

set-Unrepeated : (m : List Variable) (v : Variable) → Unrepeated m → Unrepeated (set m v)
unfolding set
set-Unrepeated [] v h = (refl, tt)
set-Unrepeated (x ∷ m) v h = ground (
  arith,
  get-set m v (name_of x),
  set-Unrepeated m v h.1,
  eq_of_text_eq (name_of x) (name_of v),
  eq_of_text_eq (name_of v) (name_of x),
  text_eq_refl (name_of v),
)

latest-Unrepeated :
    (m : List Variable) (n : Text)
    → Unrepeated m
    → latest n m ≡ (if is_enabled (get m n) then get m n else none)
latest-Unrepeated [] n h = refl
latest-Unrepeated (x ∷ m) n h =
    ground (arith, latest-Unrepeated m n h.1, eq_of_text_eq (name_of x) n)

-- What a map holds for a name, where it is enabled.
abbrev live : List Variable → Text → Option Variable
live m n = if is_enabled (get m n) then get m n else none

add_variables-Unrepeated : (m vs : List Variable) → Unrepeated m → Unrepeated (add_variables m vs)
unfolding add_variables
add_variables-Unrepeated m [] h = h
add_variables-Unrepeated m (v ∷ vs) h = ground (
  arith,
  add_variables-Unrepeated (set m v) vs (set-Unrepeated m v h),
  add_variables-Unrepeated m vs h,
)

live-add_variables :
    (m vs : List Variable) (n : Text)
    → truthy n ≡ true
    → live (add_variables m vs) n ≡ or_earlier (latest n vs) (live m n)
unfolding add_variables
live-add_variables m [] n t = refl
live-add_variables m (v ∷ vs) n t = ground (
  arith,
  get-set m v n,
  live-add_variables (set m v) vs n t,
  live-add_variables m vs n t,
  eq_of_text_eq (name_of v) n,
)

latest-append :
    (xs ys : List Variable) (n : Text)
    → latest n (xs ++ ys) ≡ or_earlier (latest n ys) (latest n xs)
latest-append [] ys n = ground arith
latest-append (x ∷ xs) ys n = ground (arith, latest-append xs ys n)

latest-keep :
    (vs : List Variable) (n : Text)
    → truthy n ≡ true
    → latest n (keep (λ v. truthy (name_of v)) vs) ≡ latest n vs
latest-keep [] n t = refl
latest-keep (v ∷ vs) n t = ground (arith, latest-keep vs n t, eq_of_text_eq (name_of v) n)

-- All the variables in order: the application's, the workspace's and the environment's.
abbrev pub all_variables : Workspace → List Variable → Option String → List Variable
all_variables w globals environment_id =
    globals ++ (w.variables ++ environment_variables w environment_id)

-- The effective variable of a name that is not blank is the latest enabled one of that name, where those of
-- the environment come after the workspace's, and these after the application's.
pub get-get_effective_variables :
    (w : Workspace) (globals : List Variable) (environment_id : Option String) (n : Text)
    → truthy n ≡ true
    → get (get_effective_variables w globals environment_id) n
      ≡ latest n (all_variables w globals environment_id)
unfolding get_effective_variables get_variable_namespace
get-get_effective_variables w globals environment_id n t =
    let own = w.variables ++ environment_variables w environment_id in
    ground (
      arith,
      get-set_enabled [] (get_variable_namespace w globals environment_id) n,
      latest-append (keep (λ v. truthy (name_of v)) globals) (add_variables [] own) n,
      latest-append globals own n,
      latest-keep globals n t,
      latest-Unrepeated (add_variables [] own) n (add_variables-Unrepeated [] own tt),
      live-add_variables [] own n t,
    )

set_enabled-Unrepeated : (m vs : List Variable) → Unrepeated m → Unrepeated (set_enabled m vs)
unfolding set_enabled
set_enabled-Unrepeated m [] h = h
set_enabled-Unrepeated m (v ∷ vs) h = ground (
  arith,
  set_enabled-Unrepeated (set m v) vs (set-Unrepeated m v h),
  set_enabled-Unrepeated m vs h,
)

abbrev pub optional_value : Option Variable → Option Text
optional_value none = none
optional_value (some v) = static_value v

own_value-get :
    (m : List Variable) (n : Text) → Unrepeated m → own_value m n ≡ optional_value (get m n)
unfolding own_value
own_value-get [] n h = refl
own_value-get (x ∷ m) n h = ground (arith, own_value-get m n h.1, eq_of_text_eq (name_of x) n)

-- The value that a name that is not blank stands for is the one of the latest enabled variable of that
-- name, the environment's before the workspace's and these before the application's; there is none if
-- that variable is not static, even where an earlier one of that name is.
pub get_effective_variable_value-latest :
    (w : Workspace) (globals : List Variable) (environment_id : Option String) (n : Text)
    → truthy n ≡ true
    → get_effective_variable_value w globals environment_id n
      ≡ optional_value (latest n (all_variables w globals environment_id))
unfolding get_effective_variable_value get_effective_variables
get_effective_variable_value-latest w globals environment_id n t =
    own_value-get _ n
      (set_enabled-Unrepeated [] (get_variable_namespace w globals environment_id) tt)
    ∙ ap optional_value (get-get_effective_variables w globals environment_id n t)
