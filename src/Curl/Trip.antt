-- ===== src/Curl/Trip.antt =====
-- The request that is imported from a command that was written for one.
use mathlib.Core.List.{append_assoc, append-nil, map-append}
use purr.Common.{
  ℕ, ◌≡◌, refl, sym, ap, ◌∙◌, true, false, Option, none, some, List, [], ◌∷◌, ◌++◌, arith, Text,
  codes, text_eq, lower, before, after?, has_char, before-append, after-append, has_char-append,
  trim, truthy, nat_eq, all, map, find, All,
}
use purr.Request.{RequestDraft, Header}
use purr.Curl.Shell.{Snapshot, header_text, format_curl_request}
use purr.Curl.Quotes.{is_plain}
use purr.Curl.Words.{header_words, body_words, tokenize_shell-format_curl}
use purr.Curl.Import.{
  Web, ok, ◌>>=◌, option_value, Parsed, nothing_parsed, append_header, parse_step, parse_tokens,
}
use purr.Curl.Build.{CurlImport, built, build, from_words, import_curl, is_named}

-- A token that is no option is the value of none.
module _ (c : ℕ) (u : Text) (next : Option Text) (h : nat_eq c b'-' ≡ false) where
  no_option : (short long : Text) → option_value (c ∷ u) next (b'-' ∷ short) (b'-' ∷ long) ≡ none
  unfolding option_value
  no_option short long = ground (arith, h)

  no_long_option : (long : Text) → option_value (c ∷ u) next [] (b'-' ∷ long) ≡ none
  unfolding option_value
  no_long_option long = ground (arith, h)

  parse_step-url :
      (web : Web) (p : Parsed)
      → truthy p.url ≡ false
      → parse_step web p (c ∷ u) next ≡ ok (record p { url = c ∷ u }, 0)
  unfolding parse_step
  parse_step-url web p k =
      rw
        (
          no_option (codes "X") (codes "-request"),
          no_option (codes "H") (codes "-header"),
          no_option (codes "u") (codes "-user"),
          no_long_option (codes "-oauth2-bearer"),
          no_option (codes "A") (codes "-user-agent"),
          no_option (codes "e") (codes "-referer"),
          no_option (codes "b") (codes "-cookie"),
          no_option (codes "d") (codes "-data"),
          no_long_option (codes "-data-raw"),
          no_long_option (codes "-data-binary"),
          no_long_option (codes "-data-urlencode"),
          no_long_option (codes "-url"),
          h,
          flip,
          k,
        )
        refl
    where
      flip : nat_eq b'-' c ≡ false
      flip = ground (arith, h)

module _ (web : Web) where
  parse_step-request :
      (p : Parsed) (m : Text)
      → truthy m ≡ true
      → parse_step web p (codes "--request") (some m)
        ≡ ok (record p { method = some (web.to_upper m) }, 1)
  unfolding parse_step option_value
  parse_step-request p m h = rw h refl

  parse_step-data :
      (p : Parsed) (d : Text)
      → parse_step web p (codes "--data-binary") (some d)
        ≡ ok (record p { data_parts = p.data_parts ++ (d ∷ []) }, 1)
  unfolding parse_step option_value
  parse_step-data p d = refl

  -- A header as it is written.
  abbrev pub IsHeader : Text × Text → Type 0
  IsHeader (name, value) =
      (truthy name ≡ true)
      × (has_char b':' name ≡ false)
      × (trim name ≡ name)
      × (trim (b' ' ∷ value) ≡ value)

  before-header_text :
      (name value : Text)
      → has_char b':' name ≡ false
      → before b':' (header_text (name, value)) ≡ name
  unfolding before
  before-header_text name value n =
      before-append b':' name (codes ": " ++ value) n ∙ append-nil name

  after-header_text :
      (name value : Text)
      → has_char b':' name ≡ false
      → after? b':' (header_text (name, value)) ≡ some (b' ' ∷ value)
  unfolding after?
  after-header_text name value n = after-append b':' name (codes ": " ++ value) n

  has_char-header_text : (name value : Text) → has_char b':' (header_text (name, value)) ≡ true
  unfolding has_char
  has_char-header_text name value = ground (arith, has_char-append b':' name (codes ": " ++ value))

  parse_step-header :
      (p : Parsed) (h : Text × Text)
      → IsHeader h
      → parse_step web p (codes "--header") (some (header_text h))
        ≡ ok (record p { headers = append_header web p.headers h.0 h.1 }, 1)
  unfolding parse_step option_value
  parse_step-header p (name, value) (t, n, tn, tv) =
      rw
        (
          before-header_text name value n,
          after-header_text name value n,
          has_char-header_text name value,
          t,
          tn,
          tv,
        )
        refl

  parse_tokens-two :
      (p q : Parsed) (a b : Text) (ts : List Text)
      → parse_step web p a (some b) ≡ ok (q, 1)
      → parse_tokens web 0 (a ∷ b ∷ ts) p ≡ parse_tokens web 0 ts q
  unfolding parse_tokens
  parse_tokens-two p q a b ts h = rw h refl

  parse_tokens-last :
      (p q : Parsed) (a : Text)
      → parse_step web p a none ≡ ok (q, 0)
      → parse_tokens web 0 (a ∷ []) p ≡ ok q
  unfolding parse_tokens
  parse_tokens-last p q a h = rw h refl

  abbrev with_headers : List Header → List (Text × Text) → List Header
  with_headers headers [] = headers
  with_headers headers (h ∷ hs) = with_headers (append_header web headers h.0 h.1) hs

  parse_tokens-headers :
      (hs : List (Text × Text)) (ws : List Text) (p : Parsed)
      → All IsHeader hs
      → parse_tokens web 0 (header_words hs ws) p
        ≡ parse_tokens web 0 ws (record p { headers = with_headers p.headers hs })
  parse_tokens-headers [] ws p a = refl
  parse_tokens-headers (h ∷ hs) ws p (i, is) =
      parse_tokens-two p _ (codes "--header") (header_text h) (header_words hs ws)
        (parse_step-header p h i)
      ∙ parse_tokens-headers hs ws (record p { headers = append_header web p.headers h.0 h.1 }) is

  abbrev data_of : Text → List Text
  data_of [] = []
  data_of (c ∷ body) = (c ∷ body) ∷ []

  parse_tokens-body :
      (body : Text) (ws : List Text) (p : Parsed)
      → p.data_parts ≡ []
      → parse_tokens web 0 (body_words body ws) p
        ≡ parse_tokens web 0 ws (record p { data_parts = data_of body })
  parse_tokens-body [] ws p e = rw (sym e) refl
  parse_tokens-body (c ∷ body) ws p e =
      parse_tokens-two p _ (codes "--data-binary") (c ∷ body) ws (parse_step-data p (c ∷ body))
      ∙ ap (λ d. parse_tokens web 0 ws (record p { data_parts = d ++ ((c ∷ body) ∷ []) })) e

  -- The options of a request.
  abbrev parsed_of : Snapshot → Parsed
  parsed_of r = record nothing_parsed {
    method = some (web.to_upper r.method);
    url = r.url;
    headers = with_headers [] r.headers;
    data_parts = data_of r.body;
  }

  abbrev pub IsUrl : Text → Type 0
  IsUrl [] = false ≡ true
  IsUrl (c ∷ s) = nat_eq c b'-' ≡ false

  parse_tokens-curl_words :
      (r : Snapshot)
      → truthy r.method ≡ true
      → All IsHeader r.headers
      → IsUrl r.url
      → parse_tokens web 0
          (codes "--request" ∷ r.method ∷ header_words r.headers (body_words r.body (r.url ∷ [])))
          nothing_parsed
        ≡ ok (parsed_of r)
  parse_tokens-curl_words r m hs u =
      parse_tokens-two nothing_parsed _ (codes "--request") r.method _
        (parse_step-request nothing_parsed r.method m)
      ∙ (parse_tokens-headers r.headers _
            (record nothing_parsed { method = some (web.to_upper r.method) }) hs
          ∙ (parse_tokens-body r.body (r.url ∷ []) _ refl ∙ at_url r.url u))
    where
      at_url :
          (url : Text)
          → IsUrl url
          → parse_tokens web 0 (url ∷ []) (record (parsed_of r) { url = [] })
            ≡ ok (record (parsed_of r) { url = url })
      at_url [] h = absurd (cc)
      at_url (c ∷ s) h = parse_tokens-last _ _ (c ∷ s) (parse_step-url c s none h web _ refl)

  abbrev pub header_pair : Header → Text × Text
  header_pair h = (h.name, h.value)

  pairs-with_headers :
      (headers : List Header) (hs : List (Text × Text))
      → map header_pair (with_headers headers hs) ≡ map header_pair headers ++ hs
  unfolding append_header
  pairs-with_headers headers [] = sym (append-nil (map header_pair headers))
  pairs-with_headers headers (h ∷ hs) =
      pairs-with_headers (append_header web headers h.0 h.1) hs
      ∙ (ap (λ l. l ++ hs) (map-append header_pair headers _)
          ∙ append_assoc (map header_pair headers) (h ∷ []) hs)

  -- A header that is not `Authorization`, which would become the authentication of the request.
  abbrev pub IsOrdinary : Text × Text → Type 0
  IsOrdinary (name, value) = text_eq (map lower name) (codes "authorization") ≡ false

  find-append_header :
      (headers : List Header) (name value : Text)
      → text_eq (map lower name) (codes "authorization") ≡ false
      → find (is_named (codes "authorization")) headers ≡ none
      → find (is_named (codes "authorization")) (append_header web headers name value) ≡ none
  unfolding append_header
  find-append_header headers name value n h = find-append headers _ h (rw n refl)
    where
      find-append :
          (headers others : List Header)
          → find (is_named (codes "authorization")) headers ≡ none
          → find (is_named (codes "authorization")) others ≡ none
          → find (is_named (codes "authorization")) (headers ++ others) ≡ none
      find-append [] others h k = k
      find-append (g ∷ headers) others h k = ground (arith, h, k, find-append headers others)

  find-with_headers :
      (hs : List (Text × Text)) (headers : List Header)
      → All IsOrdinary hs
      → find (is_named (codes "authorization")) headers ≡ none
      → find (is_named (codes "authorization")) (with_headers headers hs) ≡ none
  find-with_headers [] headers o h = h
  find-with_headers (g ∷ hs) headers (n, o) h =
      find-with_headers hs (append_header web headers g.0 g.1) o
        (find-append_header headers g.0 g.1 n h)

  -- What the importer is to keep of a request.
  abbrev pub IsKept : Snapshot → CurlImport → Type 0
  IsKept r i =
      (i.request.method ≡ r.method)
      × (i.request.url ≡ r.url)
      × (map header_pair i.request.headers ≡ r.headers)

  built-IsKept :
      (base : RequestDraft) (r : Snapshot)
      → web.to_upper r.method ≡ r.method
      → All IsOrdinary r.headers
      → IsKept r (built web base (parsed_of r))
  unfolding built
  built-IsKept base r up o =
      (up, refl, rw (find-with_headers r.headers [] o refl) (pairs-with_headers [] r.headers))

  IsUrl-truthy : (s : Text) → IsUrl s → truthy s ≡ true
  IsUrl-truthy [] h = h
  IsUrl-truthy (c ∷ s) h = refl

  -- A request that was written as a curl command and imported again keeps its method, its URL and its
  -- headers, in order, whatever characters they have and whatever the body: when the method is in upper
  -- case and a word that needs no quotes, the URL is not empty and starts with no `-`, and each header has a
  -- name, without a colon, and no spaces around name and value, and is not `Authorization`.
  pub import_curl-format_curl :
      (base : RequestDraft) (r : Snapshot)
      → truthy r.method ≡ true
      → all is_plain r.method ≡ true
      → web.to_upper r.method ≡ r.method
      → IsUrl r.url
      → All IsHeader r.headers
      → All IsOrdinary r.headers
      → (i : CurlImport) × (import_curl web (format_curl_request r) base ≡ ok i) × IsKept r i
  unfolding import_curl
  import_curl-format_curl base r m p up u h o = (
    built web base (parsed_of r),
    ap (from_words web base) (tokenize_shell-format_curl r m p (IsUrl-truthy r.url u))
        ∙ (ap (λ q. q >>= build web base) (parse_tokens-curl_words r m h u)
            ∙ rw (IsUrl-truthy r.url u) refl),
    built-IsKept base r up o,
  )
