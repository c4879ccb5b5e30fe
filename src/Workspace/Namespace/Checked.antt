-- ===== src/Workspace/Namespace/Checked.antt =====
-- What an environment that passes `validateEnvironment` satisfies.
use purr.Common.{
  Different, text_eq_refl, eq_of_text_eq, ◌≡◌, refl, Bool, true, false, ◌&&◌, ◌||◌, not, none, List,
  [], ◌∷◌, arith, Text, trim, truthy, text_eq, map, keep, any, all,
}
use purr.Variable.{Variable, static, Environment}
use purr.Workspace.Namespace.{name_of, has_brace, validate_variables, validate_environment}

-- A static variable whose name is not blank and has no brace, or a blank row.
abbrev pub is_proper : Variable → Bool
is_proper v = elim v.value [
  | static value ref ↦
      (truthy (name_of v) && not (has_brace (name_of v)))
      || (not (truthy (name_of v)) && not (truthy value))
  | _ ↦ false
]

-- The names that are not blank.
abbrev pub filled_names : List Variable → List Text
filled_names vs = keep truthy (map name_of vs)

validate_variables-proper :
    (vs : List Variable) (seen : List Text)
    → validate_variables vs seen ≡ none
    → all is_proper vs ≡ true
unfolding validate_variables
validate_variables-proper [] seen h = refl
validate_variables-proper (v ∷ vs) seen h =
    ground
      (arith, validate_variables-proper vs seen, validate_variables-proper vs (name_of v ∷ seen))

validate_variables-fresh :
    (vs : List Variable) (seen : List Text) (n : Text)
    → validate_variables vs seen ≡ none
    → any (text_eq n) seen ≡ true
    → any (text_eq n) (filled_names vs) ≡ false
unfolding validate_variables
validate_variables-fresh [] seen n h k = refl
validate_variables-fresh (v ∷ vs) seen n h k = ground (
  arith,
  validate_variables-fresh vs seen n,
  validate_variables-fresh vs (name_of v ∷ seen) n,
  eq_of_text_eq n (name_of v),
)

validate_variables-Different :
    (vs : List Variable) (seen : List Text)
    → validate_variables vs seen ≡ none
    → Different text_eq (filled_names vs)
unfolding validate_variables
validate_variables-Different [] seen h = tt
validate_variables-Different (v ∷ vs) seen h = ground (
  arith,
  validate_variables-Different vs seen,
  validate_variables-Different vs (name_of v ∷ seen),
  validate_variables-fresh vs (name_of v ∷ seen) (name_of v),
  text_eq_refl (name_of v),
)

-- An environment that `validateEnvironment` accepts has a name that is not blank; its variables are all
-- static, each with a name that is not blank and has no brace, but for blank rows; and no two of the names
-- that are not blank are equal.
pub validate_environment-proper :
    (e : Environment)
    → validate_environment e ≡ none
    → (truthy (trim e.name) ≡ true)
      × (all is_proper e.variables ≡ true)
      × Different text_eq (filled_names e.variables)
unfolding validate_environment
validate_environment-proper e h =
    ground
      (arith, validate_variables-proper e.variables [], validate_variables-Different e.variables [])
