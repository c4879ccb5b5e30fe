-- ===== src/Curl/Words.antt =====
-- The words of a command that `formatCurlRequest` wrote.
use mathlib.Core.List.{append_assoc, append-nil, reverse, reverse-append, reverse-reverse}
use purr.Common.{
  ℕ, ◌≡◌, refl, sym, ap, ◌∙◌, true, false, some, List, [], ◌∷◌, ◌++◌, Text, codes, is_space, trim,
  trim_start, truthy, all, map,
}
use purr.Curl.Quotes.{bare, is_plain, scan-append, scan-plain, scan-shell_quote}
use purr.Curl.Shell.{
  step, scan, start, finish, tokenize_shell, escape_quotes, shell_quote, Snapshot, header_text,
  header_line, body_lines, join_lines, format_curl_request,
}

-- What a text adds to the words, after a word that is not complete.
abbrev Ends : Text → List Text → Type 0
Ends s ws =
    (tokens : List Text) (token : Text)
    → truthy token ≡ true
    → finish (scan s (bare tokens token)) ≡ some (tokens ++ (token ∷ ws))

Ends-nil : Ends [] []
unfolding scan
Ends-nil tokens [] h = absurd (cc)
Ends-nil tokens (c ∷ token) h = refl

-- A line adds some words and starts the next one.
abbrev IsLine : Text → List Text → Text → Type 0
IsLine line ws last = (tokens : List Text) → scan line (bare tokens []) ≡ bare (tokens ++ ws) last

separated :
    (tokens : List Text) (token : Text)
    → truthy token ≡ true
    → scan (codes " \\\n") (bare tokens token) ≡ bare (tokens ++ (token ∷ [])) []
unfolding scan step is_space
separated tokens [] h = absurd (cc)
separated tokens (c ∷ token) h = refl

Ends-line :
    (line s : Text) (before ws : List Text) (last : Text)
    → truthy last ≡ true
    → IsLine line before last
    → Ends s ws
    → Ends (codes " \\\n" ++ (line ++ s)) (before ++ (last ∷ ws))
Ends-line line s before ws last h l e tokens token k =
    ap finish (
      scan-append (codes " \\\n") (line ++ s) (bare tokens token)
      ∙ (ap (scan (line ++ s)) (separated tokens token k)
          ∙ (scan-append line s (bare (tokens ++ (token ∷ [])) [])
              ∙ ap (scan s) (l (tokens ++ (token ∷ []))))))
    ∙ (e ((tokens ++ (token ∷ [])) ++ before) last h ∙ ap some (regroup tokens before))
  where
    regroup :
        (tokens before : List Text)
        → ((tokens ++ (token ∷ [])) ++ before) ++ (last ∷ ws)
          ≡ tokens ++ (token ∷ (before ++ (last ∷ ws)))
    regroup tokens before =
        append_assoc (tokens ++ (token ∷ [])) before (last ∷ ws)
        ∙ append_assoc tokens (token ∷ []) (before ++ (last ∷ ws))

abbrev OptionLine : Text → Text → Type 0
OptionLine text word =
    (tokens : List Text) → scan text (bare tokens []) ≡ bare (tokens ++ (word ∷ [])) []

header-option : OptionLine (codes "  --header ") (codes "--header")
unfolding scan step is_space
header-option tokens = refl

data-option : OptionLine (codes "  --data-binary ") (codes "--data-binary")
unfolding scan step is_space
data-option tokens = refl

request-option : OptionLine (codes "  --request ") (codes "--request")
unfolding scan step is_space
request-option tokens = refl

spaces : (tokens : List Text) → scan (codes "  ") (bare tokens []) ≡ bare (tokens ++ []) []
unfolding scan step is_space
spaces tokens = ap (λ ts. bare ts []) (sym (append-nil tokens))

-- A beginning that leaves complete words, with a value behind it.
quoted-IsLine :
    (text w : Text) (ws : List Text)
    → ((tokens : List Text) → scan text (bare tokens []) ≡ bare (tokens ++ ws) [])
    → IsLine (text ++ shell_quote w) ws w
quoted-IsLine text w ws o tokens =
    scan-append text (shell_quote w) (bare tokens [])
    ∙ (ap (scan (shell_quote w)) (o tokens) ∙ scan-shell_quote w (tokens ++ ws) [])

plain-IsLine :
    (text w : Text) (ws : List Text)
    → ((tokens : List Text) → scan text (bare tokens []) ≡ bare (tokens ++ ws) [])
    → all is_plain w ≡ true
    → IsLine (text ++ w) ws w
plain-IsLine text w ws o h tokens =
    scan-append text w (bare tokens [])
    ∙ (ap (scan w) (o tokens) ∙ scan-plain w (tokens ++ ws) [] h)

-- The lines behind the first.
abbrev tail_text : List Text → Text
tail_text [] = []
tail_text (line ∷ lines) = codes " \\\n" ++ (line ++ tail_text lines)

join_lines-tail :
    (first : Text) (lines : List Text) → join_lines first lines ≡ first ++ tail_text lines
unfolding join_lines
join_lines-tail first [] = sym (append-nil first)
join_lines-tail first (line ∷ lines) =
    ap (λ s. first ++ (codes " \\\n" ++ s)) (join_lines-tail line lines)

abbrev pub header_words : List (Text × Text) → List Text → List Text
header_words [] ws = ws
header_words (h ∷ hs) ws = codes "--header" ∷ header_text h ∷ header_words hs ws

abbrev pub body_words : Text → List Text → List Text
body_words [] ws = ws
body_words (c ∷ body) ws = codes "--data-binary" ∷ (c ∷ body) ∷ ws

-- The words that a request is written as.
abbrev pub curl_words : Snapshot → List Text
curl_words r =
    codes "curl"
    ∷ codes "--request"
    ∷ r.method
    ∷ header_words r.headers (body_words r.body (r.url ∷ []))

header_text-truthy : (h : Text × Text) → truthy (header_text h) ≡ true
header_text-truthy ([], value) = refl
header_text-truthy (c ∷ name, value) = refl

Ends-headers :
    (hs : List (Text × Text)) (lines : List Text) (ws : List Text)
    → Ends (tail_text lines) ws
    → Ends (tail_text (map header_line hs ++ lines)) (header_words hs ws)
Ends-headers [] lines ws e = e
Ends-headers (h ∷ hs) lines ws e =
    Ends-line (header_line h) (tail_text (map header_line hs ++ lines)) (codes "--header" ∷ [])
      (header_words hs ws) (header_text h) (header_text-truthy h)
      (quoted-IsLine (codes "  --header ") (header_text h) (codes "--header" ∷ []) header-option)
      (Ends-headers hs lines ws e)

Ends-body :
    (body : Text) (lines ws : List Text)
    → Ends (tail_text lines) ws
    → Ends (tail_text (body_lines body ++ lines)) (body_words body ws)
Ends-body [] lines ws e = e
Ends-body (c ∷ body) lines ws e =
    Ends-line (codes "  --data-binary " ++ shell_quote (c ∷ body)) (tail_text lines)
      (codes "--data-binary" ∷ []) ws (c ∷ body) refl
      (quoted-IsLine (codes "  --data-binary ") (c ∷ body) (codes "--data-binary" ∷ []) data-option)
      e

abbrev url_line : Snapshot → Text
url_line r = codes "  " ++ shell_quote r.url

abbrev request_line : Snapshot → Text
request_line r = codes "  --request " ++ r.method

abbrev all_lines : Snapshot → List Text
all_lines r =
    request_line r ∷ (map header_line r.headers ++ (body_lines r.body ++ (url_line r ∷ [])))

format-lines : (r : Snapshot) → format_curl_request r ≡ codes "curl" ++ tail_text (all_lines r)
unfolding format_curl_request
format-lines r = join_lines-tail (codes "curl") (all_lines r)

curl-plain : all is_plain (codes "curl") ≡ true
unfolding is_space
curl-plain = refl

scan-curl_words :
    (r : Snapshot)
    → truthy r.method ≡ true
    → all is_plain r.method ≡ true
    → truthy r.url ≡ true
    → finish (scan (format_curl_request r) start) ≡ some (curl_words r)
scan-curl_words r m p u =
    ap (λ s. finish (scan s start)) (format-lines r)
    ∙ (ap finish (
          scan-append (codes "curl") (tail_text (all_lines r)) start
          ∙ ap (scan (tail_text (all_lines r))) (scan-plain (codes "curl") [] [] curl-plain))
        ∙ Ends-line (request_line r) _ (codes "--request" ∷ []) _ r.method m
            (plain-IsLine (codes "  --request ") r.method (codes "--request" ∷ []) request-option p)
            (Ends-headers r.headers _ _ (
              Ends-body r.body (url_line r ∷ []) _ (
                Ends-line (url_line r) [] [] [] r.url u (quoted-IsLine (codes "  ") r.url [] spaces)
                  Ends-nil)))
            [] (codes "curl") refl)

-- A text that starts and ends with a character that is no space is left as it is.
trim_lem :
    (c d : ℕ) (s : Text)
    → is_space c ≡ false
    → is_space d ≡ false
    → trim (c ∷ (s ++ (d ∷ []))) ≡ c ∷ (s ++ (d ∷ []))
unfolding trim trim_start
trim_lem c d s h k =
    rw (h, reverse-append (c ∷ s) (d ∷ []), k)
      (ap reverse (sym (reverse-append (c ∷ s) (d ∷ []))) ∙ reverse-reverse (c ∷ (s ++ (d ∷ []))))

-- A text that ends with a quote.
abbrev IsClosed : Text → Type 0
IsClosed s = (m : Text) × (s ≡ m ++ (b'\'' ∷ []))

IsClosed-append : (s t : Text) → IsClosed t → IsClosed (s ++ t)
IsClosed-append s t (m, e) = (s ++ m, ap (λ u. s ++ u) e ∙ sym (append_assoc s m (b'\'' ∷ [])))

IsClosed-tail :
    (lines : List Text) (line : Text) → IsClosed line → IsClosed (tail_text (lines ++ (line ∷ [])))
IsClosed-tail [] line h = IsClosed-append (codes " \\\n") (line ++ []) (rw (append-nil line) h)
IsClosed-tail (l ∷ lines) line h =
    IsClosed-append (codes " \\\n") (l ++ tail_text (lines ++ (line ∷ [])))
      (IsClosed-append l (tail_text (lines ++ (line ∷ []))) (IsClosed-tail lines line h))

IsClosed-quote : (text w : Text) → IsClosed (text ++ shell_quote w)
unfolding shell_quote
IsClosed-quote text w = IsClosed-append text _ (b'\'' ∷ escape_quotes w, refl)

trim-IsClosed : (c : ℕ) (s : Text) → is_space c ≡ false → IsClosed s → trim (c ∷ s) ≡ c ∷ s
unfolding is_space
trim-IsClosed c s h (m, e) = rw e (trim_lem c b'\'' m h refl)

lines-IsClosed : (r : Snapshot) → IsClosed (tail_text (all_lines r))
lines-IsClosed r =
    rw (← append_assoc (map header_line r.headers) (body_lines r.body) (url_line r ∷ [])) (
      IsClosed-tail (request_line r ∷ (map header_line r.headers ++ body_lines r.body)) (url_line r)
        (IsClosed-quote (codes "  ") r.url))

c_no_space : is_space b'c' ≡ false
unfolding is_space
c_no_space = refl

trimmed : (r : Snapshot) → trim (format_curl_request r) ≡ format_curl_request r
trimmed r = rw (format-lines r) (
    trim-IsClosed b'c' (codes "url" ++ tail_text (all_lines r)) c_no_space
      (IsClosed-append (codes "url") (tail_text (all_lines r)) (lines-IsClosed r)))

-- The command that is written for a request is split into the words it was made of: the method, a word
-- for each header, the body if there is one and the URL, whatever quotes, spaces, backslashes or line
-- breaks they have, as long as the URL is not empty and the method is a word that needs no quotes.
pub tokenize_shell-format_curl :
    (r : Snapshot)
    → truthy r.method ≡ true
    → all is_plain r.method ≡ true
    → truthy r.url ≡ true
    → tokenize_shell (format_curl_request r) ≡ some (curl_words r)
unfolding tokenize_shell
tokenize_shell-format_curl r m p u =
    ap (λ s. finish (scan s start)) (trimmed r) ∙ scan-curl_words r m p u
