-- ===== src/Curl/Tests.antt =====
-- src/features/request-workbench/model/curl-import.ts: commands at concrete inputs.
use purr.Common.{
  ◌+◌, ◌≡◌, refl, true, none, some, [], ◌∷◌, codes, All, has_char, is_space, trim, all, trim_start,
  ℕ, map, leb, ◌-◌, ◌&&◌, if◌then◌else◌,
}
use purr.Request.{RequestDraft, empty_draft}
use purr.Curl.Shell.{Snapshot, tokenize_shell, format_curl_request, scan, step}
use purr.Curl.Quotes.{is_plain}
use purr.Curl.Words.{curl_words, tokenize_shell-format_curl}
use purr.Curl.Import.{Web, ok, err, no_url, parse_tokens, parse_step, option_value}
use purr.Curl.Build.{CurlImport, import_curl}
use purr.Curl.Trip.{IsHeader, IsOrdinary, IsKept, import_curl-format_curl}

-- The upper case of the letters of ASCII.
abbrev upper : ℕ → ℕ
upper c = if leb b'a' c && leb c b'z' then c - 32 else c

abbrev web : Web
web = record {
  query = record {
    id_number = λ s. none;
    numbered_id = λ n. "param-1";
    plus = ◌+◌;
    parse_query = λ s. [];
    format_query = λ es. [];
  };
  decode_base64 = λ s. none;
  to_upper = map upper;
  field_number = λ s. none;
  numbered_field = λ n. "url-encoded-1";
  numbered_header = λ n. "header-1";
  boundary = codes "purr-1";
}

abbrev sent : Snapshot
sent = record {
  method = codes "PUT";
  url = codes "https://a.b/it's";
  headers = (codes "Accept", codes "text/*; q=\"1\"") ∷ (codes "X-Note", codes "o'clock") ∷ [];
  body = codes "a\\b 'c'";
}

abbrev base : RequestDraft
base = empty_draft (codes "purr-0")

plain : all is_plain (codes "PUT") ≡ true
unfolding is_space
plain = refl

sent-IsHeader : All (IsHeader web) sent.headers
unfolding has_char trim trim_start is_space
sent-IsHeader = ((refl, refl, refl, refl), ((refl, refl, refl, refl), tt))

sent-IsOrdinary : All (IsOrdinary web) sent.headers
sent-IsOrdinary = (refl, (refl, tt))

tokenize_shell-format_curl_example :
    tokenize_shell (format_curl_request sent) ≡ some (curl_words sent)
tokenize_shell-format_curl_example = tokenize_shell-format_curl sent refl plain refl

import_curl-format_curl_example :
    (i : CurlImport) × (import_curl web (format_curl_request sent) base ≡ ok i) × IsKept web sent i
import_curl-format_curl_example =
    import_curl-format_curl web base sent refl plain refl refl sent-IsHeader sent-IsOrdinary

lower_case_method : web.to_upper (codes "put") ≡ codes "PUT"
lower_case_method = refl

-- A word that is empty is lost, and the next one takes its place.
empty_word :
    tokenize_shell (codes "curl -d '' a.b") ≡ some (codes "curl" ∷ codes "-d" ∷ codes "a.b" ∷ [])
unfolding tokenize_shell scan step is_space
empty_word = refl

no_address : import_curl web (codes "curl -d '' a.b") base ≡ err no_url
unfolding import_curl parse_tokens parse_step option_value tokenize_shell scan step is_space
no_address = refl
