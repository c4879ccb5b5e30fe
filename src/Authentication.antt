-- ===== src/Authentication.antt =====
-- src/features/request-workbench/model/request-auth.ts: from the authentication of a draft to the header,
-- query parameter or cookie of the request. Objects are compared by identity in `resolveAuth`, so an
-- object that may be shared carries an address. Base 64 and the encoding of cookies are the platform's.
pub mod Inherit
pub mod Values
pub mod Binding
pub mod Ends
pub mod Checks
pub mod Safe
mod Tests
use purr.Common.{
  ℕ, zero, suc, Bool, true, false, ◌&&◌, ◌||◌, not, Option, none, some, List, [], ◌∷◌, String, Text,
  codes, text_eq, any, find, nat_eq, head?, length, ◌===◌, is_some, if◌then◌else◌,
}
use purr.Request.{RequestAuth, InheritSource, SecretFieldState, SecretStatus}

-- An object, known by its address.
pub record Shared : Type 0 where
  pub address : ℕ
  pub auth : RequestAuth

pub record AuthProfile : Type 0 where
  pub address : ℕ
  pub id : String
  pub name : Text
  pub auth : Shared

-- The records by name of the source are lists of entries, in which the first of a name counts, or are not
-- there at all.
pub record AuthContext : Type 0 where
  pub schema : Option AuthProfile
  pub workspace : Option AuthProfile
  pub workspace_profiles : List AuthProfile
  pub environment : Option AuthProfile
  pub variables : Option (List (Text × Text))
  pub variable_states : Option (List (Text × SecretFieldState))

abbrev pub entry {ℓ} : {A : Type ℓ} → List (Text × A) → Text → Option A
entry [] name = none
entry ((key, value) ∷ entries) name = if text_eq key name then some value else entry entries name

abbrev pub own_entries {ℓ} : {A : Type ℓ} → Option (List (Text × A)) → List (Text × A)
own_entries none = []
own_entries (some entries) = entries

-- What `record?.[name]` comes to: nothing, a member of `Object.prototype`, or an entry of the record.
pub data Found {ℓ} (A : Type ℓ) : Type ℓ where
  nothing : Found A
  inherited_member : Found A
  own_entry : A → Found A

abbrev pub object_members : List Text
object_members =
    codes "constructor"
    ∷ codes "__defineGetter__"
    ∷ codes "__defineSetter__"
    ∷ codes "hasOwnProperty"
    ∷ codes "__lookupGetter__"
    ∷ codes "__lookupSetter__"
    ∷ codes "isPrototypeOf"
    ∷ codes "propertyIsEnumerable"
    ∷ codes "toString"
    ∷ codes "valueOf"
    ∷ codes "__proto__"
    ∷ codes "toLocaleString"
    ∷ []

abbrev pub member_or {ℓ} : {A : Type ℓ} → Bool → Option A → Found A
member_or inherits (some value) = own_entry value
member_or inherits none = if inherits then inherited_member else nothing

abbrev pub look_up {ℓ} : {A : Type ℓ} → Option (List (Text × A)) → Text → Found A
look_up none name = nothing
look_up (some entries) name = member_or (any (text_eq name) object_members) (entry entries name)

-- `unknown_secret` is the error of a secret that is given no reference and no status, and `not_a_text` the
-- `TypeError` of `templateTokens` on what is no text.
pub data AuthError : Type 0 where
  inherit_cycle no_profile no_authentication : AuthError
  out_of_fuel : AuthError
  secret_unavailable : (ref : String) → (status : SecretStatus) → AuthError
  unknown_secret not_a_text : AuthError
  variable_not_defined variable_circular : Text → AuthError
  empty_token token_whitespace bad_prefix : AuthError
  no_credentials colon_in_username : AuthError
  no_api_key bad_api_key_name forbidden_header : AuthError
  no_access_token token_expired control_character : AuthError
  uri_error : AuthError

pub data Outcome {ℓ} (A : Type ℓ) : Type ℓ where
  ok : A → Outcome A
  err : AuthError → Outcome A

infixl 5 ◌>>=◌ ◌>>◌
abbrev pub ◌>>=◌ {ℓ κ} : {A : Type ℓ} {B : Type κ} → Outcome A → (A → Outcome B) → Outcome B
ok a >>= k = k a
err e >>= k = err e

abbrev pub ◌>>◌ {ℓ} : {B : Type ℓ} → Outcome (Unit {0}) → Outcome B → Outcome B
m >> k = m >>= λ _. k

abbrev pub refuse_if : Bool → AuthError → Outcome (Unit {0})
refuse_if true e = err e
refuse_if false e = ok tt
