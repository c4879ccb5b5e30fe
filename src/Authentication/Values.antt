-- ===== src/Authentication/Values.antt =====
-- src/features/request-workbench/model/request-auth.ts: `resolveAuthValue`, a value with its templates
-- replaced, once every variable that it uses has its secret at hand.
use purr.Common.{
  ℕ, zero, suc, Bool, true, false, Option, none, some, List, [], ◌∷◌, Text, any, text_eq, length,
  if◌then◌else◌,
}
use purr.Request.{
  keep_value, delete_value, set_value, SecretStatus, unresolved, available, missing, unavailable,
  SecretFieldState,
}
use purr.Template.{Token, template_tokens}
use purr.Resolve
use purr.Resolve.{resolve_environment_value}
use purr.Authentication.{
  AuthContext, entry, own_entries, Found, nothing, inherited_member, own_entry, look_up,
  unknown_secret, not_a_text, out_of_fuel, secret_unavailable, variable_not_defined,
  variable_circular, Outcome, ok, err, ◌>>=◌, ◌>>◌,
}

abbrev pub status_to_report : SecretStatus → SecretStatus
status_to_report unresolved = unavailable
status_to_report available = unavailable
status_to_report s = s

abbrev pub is_available : SecretStatus → Bool
is_available available = true
is_available _ = false

-- `throw new SecretUnavailableError`, where the state of a field does not let it be read.
abbrev pub require_state : SecretFieldState → Outcome (Unit {0})
require_state s = elim s.edit [
  | some (set_value v) ↦ ok tt
  | some delete_value ↦ err (secret_unavailable s.ref missing)
  | some keep_value ↦
      if is_available s.status
      then ok tt
      else err (secret_unavailable s.ref (status_to_report s.status))
  | none ↦
      if is_available s.status
      then ok tt
      else err (secret_unavailable s.ref (status_to_report s.status))
]

abbrev pub require_optional : Option SecretFieldState → Outcome (Unit {0})
require_optional none = ok tt
require_optional (some s) = require_state s

-- A member of `Object.prototype` is taken for a state, with neither an edit, nor a reference nor a status.
abbrev pub require_found : Found SecretFieldState → Outcome (Unit {0})
require_found nothing = ok tt
require_found inherited_member = err unknown_secret
require_found (own_entry s) = require_state s

-- `?? ""`, and what the next `templateTokens` throws.
abbrev pub found_value : Found Text → Outcome Text
found_value nothing = ok []
found_value inherited_member = err not_a_text
found_value (own_entry v) = ok v

abbrev pub seen : List Text → Text → Bool
seen visited name = any (text_eq name) visited

-- The loop of `check` over the tokens of an expression, which passes the names visited on; `expand` is
-- the recursive call.
unfoldable pub check_tokens :
    (expand : Text → List Text → Outcome (List Text))
    → AuthContext
    → List Token
    → List Text
    → Outcome (List Text)
check_tokens expand context [] visited = ok visited
check_tokens expand context (t ∷ ts) visited =
    let fresh =
      (require_found (look_up context.variable_states t.name)
        >> ((found_value (look_up context.variables t.name) >>= λ value.
              expand value (t.name ∷ visited))
            >>= check_tokens expand context ts)) in
    let known = check_tokens expand context ts visited in
    if seen visited t.name then known else fresh

unfoldable pub check_from : ℕ → AuthContext → Text → List Text → Outcome (List Text)
unfolding check_tokens
check_from zero context expression visited = err out_of_fuel
check_from (suc fuel) context expression visited =
    check_tokens (check_from fuel context) context (template_tokens expression) visited

-- The depth is bounded by the number of variables: only a variable's value has names of its own.
unfoldable pub check : AuthContext → Text → Outcome (List Text)
unfolding check_from
check context expression =
    check_from (suc (suc (length (own_entries context.variables)))) context expression []

abbrev pub from_resolve : Resolve.Result → Outcome Text
from_resolve (Resolve.ok value) = ok value
from_resolve (Resolve.err (Resolve.not_defined name)) = err (variable_not_defined name)
from_resolve (Resolve.err (Resolve.circular name)) = err (variable_circular name)
from_resolve (Resolve.err Resolve.out_of_fuel) = err out_of_fuel

unfoldable pub resolve_auth_value : Text → AuthContext → Outcome Text
unfolding check resolve_environment_value
resolve_auth_value value context = check context value >>= λ visited.
    from_resolve (resolve_environment_value value (entry (own_entries context.variables)))
