-- ===== src/Authentication/Tests.antt =====
-- src/features/request-workbench/model/request-auth.ts: authentication at concrete inputs.
use purr.Common.{◌≡◌, refl, true, ◌∷◌, none, some, [], codes, trim}
use purr.Request.{create_request_auth, api_key, inherit, is_no_auth, header}
use purr.Template.{template_tokens}
use purr.Authentication.{
  Shared, AuthProfile, AuthContext, err, not_a_text, unknown_secret, inherit_cycle,
}
use purr.Authentication.Inherit.{resolve_auth}
use purr.Authentication.Values.{resolve_auth_value}
use purr.Authentication.Binding.{AuthBinding, Platform, get_auth_binding}
use purr.Authentication.Ends.{IsEnd, resolve_auth_total}
use purr.Authentication.Checks.{IsRead, resolve_auth_value_total}
use purr.Authentication.Safe.{IsSafe, get_auth_binding-IsSafe, get_auth_binding_explicit}

abbrev platform : Platform
platform = record { base64_utf8 = λ s. s; encode_uri_component = λ s. some s; now = 7 }

abbrev inheriting : Shared
inheriting = record { address = 1; auth = record create_request_auth { type = inherit } }

abbrev api_key_auth : Shared
api_key_auth = record {
  address = 2;
  auth = record create_request_auth {
    type = api_key;
    api_key = record { name = codes "X-Key"; value = codes "{{key}}"; placement = header };
  };
}

abbrev profile : Shared → AuthProfile
profile auth = record { address = 9; id = "p"; name = codes "p"; auth = auth }

abbrev context : AuthContext
context = record {
  schema = none;
  workspace = some (profile api_key_auth);
  workspace_profiles = [];
  environment = none;
  variables = some ((codes "key", codes "k3y") ∷ []);
  variable_states = none;
}

abbrev bound : AuthBinding
bound = record { target = header; name = codes "X-Key"; value = codes "k3y" }

inherited : (get_auth_binding platform inheriting context).binding ≡ some bound
unfolding get_auth_binding template_tokens
inherited = refl

cyclic :
    (resolve_auth inheriting
      (record context { environment = some (profile inheriting); workspace = none })).error
    ≡ some inherit_cycle
unfolding resolve_auth
cyclic = refl

resolve_auth_total_example : IsEnd (resolve_auth inheriting context)
resolve_auth_total_example = resolve_auth_total inheriting context

resolve_auth_value_total_example : IsRead (resolve_auth_value (codes "a{{key}}") context)
resolve_auth_value_total_example = resolve_auth_value_total (codes "a{{key}}") context

-- A name that every object has: taken for a text when there are no states, and for a state when there are.
member_as_text : resolve_auth_value (codes "{{constructor}}") context ≡ err not_a_text
unfolding resolve_auth_value template_tokens trim
member_as_text = refl

member_as_state :
    resolve_auth_value (codes "{{ toString }}") (record context { variable_states = some [] })
    ≡ err unknown_secret
unfolding resolve_auth_value template_tokens trim
member_as_state = refl

get_auth_binding-IsSafe_example : IsSafe platform bound
get_auth_binding-IsSafe_example =
    get_auth_binding-IsSafe platform inheriting context bound inherited

none_bound :
    (get_auth_binding platform (record { address = 3; auth = create_request_auth }) context).binding
    ≡ none
unfolding get_auth_binding
none_bound = refl

none_failed :
    (get_auth_binding platform (record { address = 3; auth = create_request_auth }) context).error
    ≡ none
unfolding get_auth_binding
none_failed = refl

get_auth_binding_explicit_example :
    is_no_auth
      (resolve_auth (record { address = 3; auth = create_request_auth }) context).auth.auth.type
    ≡ true
get_auth_binding_explicit_example =
    get_auth_binding_explicit platform (record { address = 3; auth = create_request_auth }) context
      none_bound none_failed
