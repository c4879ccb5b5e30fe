-- ===== src/Curl/Shell.antt =====
-- src/features/request-workbench/model/curl-import.ts: `tokenizeShell`, which splits a command into words;
-- and src/features/request-workbench/model/request-code.ts: `formatCurlRequest`, which writes one.
use purr.Common.{
  ℕ, Bool, true, false, ◌||◌, ◌&&◌, not, Option, none, some, List, [], ◌∷◌, ◌++◌, Text, codes,
  is_space, trim, nat_eq, map, if◌then◌else◌,
}

-- The local variables of the loop.
pub record Scan : Type 0 where
  pub tokens : List Text
  pub token : Text
  pub quote : Option ℕ
  pub escaped : Bool

abbrev pub pushed : List Text → Text → List Text
pushed tokens [] = tokens
pushed tokens (c ∷ token) = tokens ++ ((c ∷ token) ∷ [])

abbrev pub added : Scan → ℕ → Scan
added st c = record st { token = st.token ++ (c ∷ []) }

abbrev step_quoted : Scan → ℕ → ℕ → Scan
step_quoted st q c = if nat_eq c q then record st { quote = none } else added st c

abbrev step_bare : Scan → ℕ → Scan
step_bare st c =
    if nat_eq c b'\'' || nat_eq c b'"'
    then record st { quote = some c }
    else if is_space c
    then record st { tokens = pushed st.tokens st.token; token = [] }
    else added st c

abbrev is_single : Option ℕ → Bool
is_single none = false
is_single (some q) = nat_eq q b'\''

-- The body of the loop.
unfoldable pub step : Scan → ℕ → Scan
unfolding is_space
step st c =
    if st.escaped
    then record (if nat_eq c b'\n' then st else added st c) { escaped = false }
    else if nat_eq c b'\\' && not (is_single st.quote)
    then record st { escaped = true }
    else elim st.quote [ some q ↦ step_quoted st q c | none ↦ step_bare st c ]

unfoldable pub scan : Text → Scan → Scan
scan [] st = st
scan (c ∷ s) st = scan s (step st c)

abbrev pub start : Scan
start = record { tokens = []; token = []; quote = none; escaped = false }

-- After the loop; `none` is the error of a quote that is not closed.
abbrev pub finish : Scan → Option (List Text)
finish st = elim st.quote [
  | some q ↦ none
  | none ↦ some (pushed st.tokens (if st.escaped then st.token ++ (b'\\' ∷ []) else st.token))
]

unfoldable pub tokenize_shell : Text → Option (List Text)
unfolding scan trim
tokenize_shell value = finish (scan (trim value) start)

-- `value.replace(/'/g, "'\\''")`
unfoldable pub escape_quotes : Text → Text
escape_quotes [] = []
escape_quotes (c ∷ s) =
    if nat_eq c b'\'' then codes "'\\''" ++ escape_quotes s else c ∷ escape_quotes s

unfoldable pub shell_quote : Text → Text
unfolding escape_quotes
shell_quote value = b'\'' ∷ (escape_quotes value ++ (b'\'' ∷ []))

-- A request as it was sent, with the text of `requestBody`.
pub record Snapshot : Type 0 where
  pub method : Text
  pub url : Text
  pub headers : List (Text × Text)
  pub body : Text

abbrev pub header_text : Text × Text → Text
header_text (name, value) = name ++ (codes ": " ++ value)

abbrev pub header_line : Text × Text → Text
header_line h = codes "  --header " ++ shell_quote (header_text h)

abbrev pub body_lines : Text → List Text
body_lines [] = []
body_lines (c ∷ body) = (codes "  --data-binary " ++ shell_quote (c ∷ body)) ∷ []

-- `[first, ...lines].join(" \\\n")`
unfoldable pub join_lines : Text → List Text → Text
join_lines first [] = first
join_lines first (line ∷ lines) = first ++ (codes " \\\n" ++ join_lines line lines)

unfoldable pub format_curl_request : Snapshot → Text
unfolding shell_quote join_lines
format_curl_request request = join_lines (codes "curl") (
    (codes "  --request " ++ request.method)
    ∷ (map header_line request.headers
        ++ (body_lines request.body ++ ((codes "  " ++ shell_quote request.url) ∷ []))))
