-- ===== src/Project/Patterns.antt =====
-- src/domain/project.ts: the patterns of identifiers and names, each a test on code units.
use purr.Common.{
  starts_with, ℕ, Bool, true, false, ◌&&◌, ◌||◌, not, [], ◌∷◌, String, Text, codes, truthy, leb,
  nat_eq, all, length, drop,
}

abbrev pub is_lower : ℕ → Bool
is_lower c = leb b'a' c && leb c b'z'

abbrev pub is_upper : ℕ → Bool
is_upper c = leb b'A' c && leb c b'Z'

abbrev pub is_digit : ℕ → Bool
is_digit c = leb b'0' c && leb c b'9'

abbrev pub is_alphanumeric : ℕ → Bool
is_alphanumeric c = is_lower c || is_upper c || is_digit c

-- `[a-zA-Z0-9_-]`
abbrev pub is_id_char : ℕ → Bool
is_id_char c = is_alphanumeric c || nat_eq c b'_' || nat_eq c b'-'

-- `[._-]`
abbrev pub is_separator : ℕ → Bool
is_separator c = nat_eq c b'.' || nat_eq c b'_' || nat_eq c b'-'

abbrev pub has_length : ℕ → ℕ → Text → Bool
has_length least most s = leb least (length s) && leb (length s) most

-- `entityId`
abbrev pub is_entity_id : String → Bool
is_entity_id id = has_length 1 128 (codes id) && all is_id_char (codes id)

-- `secretRefSchema`
abbrev pub is_secret_ref : Text → Bool
is_secret_ref ref =
    has_length 1 512 ref
    && starts_with (codes "purr/") ref
    && truthy (drop 5 ref)
    && all (λ c. is_id_char c || nat_eq c b'/') (drop 5 ref)

abbrev pub first_is : (ℕ → Bool) → Text → Bool
first_is p [] = false
first_is p (c ∷ s) = p c

-- `z.string().min(1).max(64).regex(/^[a-z][a-z0-9._-]*$/)`
abbrev pub is_trace_propagation : Text → Bool
is_trace_propagation s =
    has_length 1 64 s
    && first_is is_lower s
    && all (λ c. is_lower c || is_digit c || is_separator c) s

-- `/^[A-Z][A-Z0-9_-]*$/`
abbrev pub is_method : Text → Bool
is_method s =
    first_is is_upper s && all (λ c. is_upper c || is_digit c || nat_eq c b'_' || nat_eq c b'-') s

-- `(?:[._-][a-z0-9]+)*$`, after a character that is or is not a separator.
pub is_provider_tail : Bool → Text → Bool
is_provider_tail separated [] = not separated
is_provider_tail separated (c ∷ s) =
    ((is_lower c || is_digit c) && is_provider_tail false s)
    || (not separated && is_separator c && is_provider_tail true s)

-- `integrationProviderIdSchema`
unfoldable pub is_provider_id : Text → Bool
unfolding is_provider_tail
is_provider_id s = has_length 1 128 s && first_is is_lower s && is_provider_tail false (drop 1 s)

-- `integrationCredentialKeySchema`
abbrev pub is_credential_key : Text → Bool
is_credential_key s = has_length 1 64 s && first_is is_lower s && all is_id_char s
