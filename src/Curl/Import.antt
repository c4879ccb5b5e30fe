-- ===== src/Curl/Import.antt =====
-- src/features/request-workbench/model/curl-import.ts: `importCurl`.
use purr.Common.{
  ℕ, zero, suc, ◌+◌, Bool, true, false, ◌&&◌, ◌||◌, not, Option, none, some, List, [], ◌∷◌, ◌++◌,
  String, Text, codes, text_eq, starts_with, drop_text, before, after?, has_char, trim, truthy, any,
  map, length, leb, nat_eq, head?, if◌then◌else◌,
}
use purr.Request.{Header, plain_header}
use purr.Request.Query
use purr.Request.Query.{get_request_query_params_from_url, max}

pub data CurlError : Type 0 where
  unterminated_quote not_curl no_method no_url : CurlError
  invalid_header : Text → CurlError

pub data Result {ℓ} (A : Type ℓ) : Type ℓ where
  ok : A → Result A
  err : CurlError → Result A

infixl 5 ◌>>=◌
abbrev pub ◌>>=◌ {ℓ κ} : {A : Type ℓ} {B : Type κ} → Result A → (A → Result B) → Result B
ok a >>= k = k a
err e >>= k = err e

-- `URLSearchParams` and the ids of parameters, `atob` with `TextDecoder`, `toUpperCase`, what `Number` reads
-- of an id `url-encoded-…`, the template literals that write ids, and the boundary drawn at random.
pub record Web : Type 0 where
  pub query : Query.Web
  pub decode_base64 : Text → Option Text
  pub to_upper : Text → Text
  pub field_number : String → Option ℕ
  pub numbered_field : ℕ → String
  pub numbered_header : ℕ → String
  pub boundary : Text

abbrev pub text_or : Option Text → Text
text_or none = []
text_or (some s) = s

pub record OptionValue : Type 0 where
  pub value : Text
  pub consumed : ℕ

-- `optionValue`, of a token and the next one.
unfoldable pub option_value : Text → Option Text → Text → Text → Option OptionValue
option_value token next short long =
    if text_eq token short || text_eq token long
    then some (record { value = text_or next; consumed = 1 })
    else if starts_with (long ++ (b'=' ∷ [])) token
    then some (record { value = drop_text (length long + 1) token; consumed = 0 })
    else if nat_eq (length short) 2 && starts_with short token && not (leb (length token) 2)
    then some (record { value = drop_text 2 token; consumed = 0 })
    else none

-- Letters of ASCII in lower case, as a regular expression with the flag `i` compares them.
abbrev pub fold_ascii : ℕ → ℕ
fold_ascii c = if leb b'A' c && leb c b'Z' then c + 32 else c

-- `sensitiveHeaderName.test(name)`
unfoldable pub is_sensitive : Text → Bool
is_sensitive name =
    any (text_eq (map fold_ascii name)) (
      codes "authorization"
      ∷ codes "proxy-authorization"
      ∷ codes "cookie"
      ∷ codes "set-cookie"
      ∷ [])

-- The local variables of the loop.
pub record Parsed : Type 0 where
  pub method : Option Text
  pub url : Text
  pub use_get : Bool
  pub use_head : Bool
  pub user_credentials : Text
  pub oauth_bearer : Text
  pub headers : List Header
  pub data_parts : List Text

abbrev pub nothing_parsed : Parsed
nothing_parsed = record {
  method = none;
  url = [];
  use_get = false;
  use_head = false;
  user_credentials = [];
  oauth_bearer = [];
  headers = [];
  data_parts = [];
}

abbrev pub or_else {ℓ} : {A : Type ℓ} → Option A → Option A → Option A
or_else none b = b
or_else (some a) b = some a

abbrev ignored_value_options : List Text
ignored_value_options =
    codes "-m" ∷ codes "--max-time" ∷ codes "--connect-timeout" ∷ codes "--proxy" ∷ []

module _ (web : Web) where
  unfoldable pub append_header : List Header → Text → Text → List Header
  unfolding is_sensitive
  append_header headers name value =
      headers
      ++ (record (plain_header (web.numbered_header (length headers + 1)) name value true) {
        secret = is_sensitive name;
      }
          ∷ [])

  -- What the tokens of each option do, with the tokens that they use up.
  abbrev on_request : Parsed → OptionValue → Result (Parsed × ℕ)
  on_request p o =
      if truthy o.value
      then ok (record p { method = some (web.to_upper o.value) }, o.consumed)
      else err no_method

  abbrev on_header : Parsed → OptionValue → Result (Parsed × ℕ)
  on_header p o =
      if truthy (before b':' o.value) && has_char b':' o.value
      then ok (
        record p {
          headers =
              append_header p.headers (trim (before b':' o.value))
                (trim (text_or (after? b':' o.value)));
        },
        o.consumed,
      )
      else err (invalid_header o.value)

  abbrev on_cookie : Parsed → OptionValue → Result (Parsed × ℕ)
  on_cookie p o = ok (
    if has_char b'=' o.value
        then record p { headers = append_header p.headers (codes "Cookie") o.value }
        else p,
    o.consumed,
  )

  -- The tokens without a value, and the ones without a meaning.
  abbrev on_flag : Parsed → Text → Result (Parsed × ℕ)
  on_flag p token =
      if text_eq token (codes "-G") || text_eq token (codes "--get")
      then ok (record p { use_get = true }, 0)
      else if text_eq token (codes "-I") || text_eq token (codes "--head")
      then ok (record p { use_head = true }, 0)
      else if any (text_eq token) ignored_value_options
      then ok (p, 1)
      else if not (starts_with (codes "-") token) && not (truthy p.url)
      then ok (record p { url = token }, 0)
      else ok (p, 0)

  abbrev on_some :
      Option OptionValue
      → (OptionValue → Result (Parsed × ℕ))
      → Result (Parsed × ℕ)
      → Result (Parsed × ℕ)
  on_some none f r = r
  on_some (some o) f r = f o

  abbrev body_option : Text → Option Text → Option OptionValue
  body_option token next = or_else (option_value token next (codes "-d") (codes "--data")) (
      or_else (option_value token next [] (codes "--data-raw")) (
        or_else (option_value token next [] (codes "--data-binary"))
          (option_value token next [] (codes "--data-urlencode"))))

  -- The body of the loop.
  unfoldable pub parse_step : Parsed → Text → Option Text → Result (Parsed × ℕ)
  unfolding option_value append_header before after? has_char trim
  parse_step p token next =
      on_some (option_value token next (codes "-X") (codes "--request")) (on_request p) (
        on_some (option_value token next (codes "-H") (codes "--header")) (on_header p) (
          on_some (option_value token next (codes "-u") (codes "--user"))
            (λ o. ok (record p { user_credentials = o.value }, o.consumed))
            (on_some (option_value token next [] (codes "--oauth2-bearer"))
              (λ o. ok (record p { oauth_bearer = o.value }, o.consumed))
              (on_some (option_value token next (codes "-A") (codes "--user-agent"))
                (λ o. ok (
                  record p { headers = append_header p.headers (codes "User-Agent") o.value },
                  o.consumed,
                ))
                (on_some (option_value token next (codes "-e") (codes "--referer"))
                  (λ o. ok (
                    record p { headers = append_header p.headers (codes "Referer") o.value },
                    o.consumed,
                  ))
                  (on_some (option_value token next (codes "-b") (codes "--cookie")) (on_cookie p) (
                    on_some (body_option token next)
                      (λ o.
                        ok (record p { data_parts = p.data_parts ++ (o.value ∷ []) }, o.consumed))
                      (on_some (option_value token next [] (codes "--url"))
                        (λ o. ok (record p { url = o.value }, o.consumed)) (on_flag p token)))))))))

  -- The loop; the number is of tokens to pass over.
  unfoldable pub parse_tokens : ℕ → List Text → Parsed → Result Parsed
  unfolding parse_step
  parse_tokens skip [] p = ok p
  parse_tokens (suc skip) (token ∷ tokens) p = parse_tokens skip tokens p
  parse_tokens zero (token ∷ tokens) p =
      parse_step p token (head? tokens) >>= λ (next, consumed). parse_tokens consumed tokens next
