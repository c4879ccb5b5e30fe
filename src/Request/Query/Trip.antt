-- ===== src/Request/Query/Trip.antt =====
-- The query parameters of a URL that was written from parameters.
use purr.Common.{
  ◌&&◌, true, ℕ, suc, ◌≡◌, refl, ap, ◌∙◌, Bool, false, not, Option, none, some, List, [], ◌∷◌, ◌++◌,
  arith, Text, has_char, before, after?, before-append, after-append, has_char-before,
  has_char-before_other, keep, all, is_well_formed, map, find,
}
use purr.Request.{Param}
use mathlib.Core.List.{append-nil}
use purr.Request.Query.{
  hash_text, text_or_empty, Web, without_hash, hash_of, query_of, base_of, counts, is_populated,
  pair_of, question, params_from, query_params, get_request_query_params_from_url,
  apply_request_query_params_to_url, spare_or, create_empty_request_query_param,
  get_highest_query_param_id,
}

base-has_hash : (url : Text) → has_char b'#' (base_of url) ≡ false
base-has_hash url = has_char-before_other b'?' b'#' (without_hash url) (has_char-before b'#' url)

base-has_question : (url : Text) → has_char b'?' (base_of url) ≡ false
base-has_question url = has_char-before b'?' (without_hash url)

before-hash_text : (o : Option Text) → before b'#' (hash_text o) ≡ []
unfolding before
before-hash_text none = refl
before-hash_text (some rest) = refl

after-hash_text : (o : Option Text) → after? b'#' (hash_text o) ≡ o
unfolding after?
after-hash_text none = refl
after-hash_text (some rest) = refl

question-has_hash : (q : Text) → has_char b'#' q ≡ false → has_char b'#' (question q) ≡ false
unfolding has_char
question-has_hash [] h = h
question-has_hash (c ∷ q) h = ground (arith, h)

before-question : (q : Text) → before b'?' (question q ++ []) ≡ []
unfolding before
before-question [] = refl
before-question (c ∷ q) = refl

after-question : (q : Text) → text_or_empty (after? b'?' (question q ++ [])) ≡ q
unfolding after?
after-question [] = refl
after-question (c ∷ q) = append-nil (c ∷ q)

-- The parts of a URL that was put together.
module _ (url q : Text) (free : has_char b'#' q ≡ false) where
  abbrev joined : Text
  joined = base_of url ++ (question q ++ hash_of url)

  without_hash-joined : without_hash joined ≡ base_of url ++ (question q ++ [])
  without_hash-joined =
      rw
        (
          before-append b'#' (base_of url) (question q ++ hash_of url) (base-has_hash url),
          before-append b'#' (question q) (hash_of url) (question-has_hash q free),
          before-hash_text (after? b'#' url),
        )
        refl

  hash_of-joined : hash_of joined ≡ hash_of url
  hash_of-joined =
      rw
        (
          after-append b'#' (base_of url) (question q ++ hash_of url) (base-has_hash url),
          after-append b'#' (question q) (hash_of url) (question-has_hash q free),
          after-hash_text (after? b'#' url),
        )
        refl

  base_of-joined : base_of joined ≡ base_of url
  base_of-joined =
      rw
        (
          without_hash-joined,
          before-append b'?' (base_of url) (question q ++ []) (base-has_question url),
          before-question q,
        )
        (append-nil (base_of url))

  query_of-joined : query_of joined ≡ q
  query_of-joined =
      rw
        (
          without_hash-joined,
          after-append b'?' (base_of url) (question q ++ []) (base-has_question url),
        )
        (after-question q)

abbrev pub is_enabled : Param → Bool
is_enabled p = p.enabled

-- The parameters made of entries are enabled, and have the entries' names and values.
pairs-params_from :
    (web : Web) (highest index : ℕ) (populated : List Param) (entries : List (Text × Text))
    (spare : Param)
    → spare.enabled ≡ false
    → map pair_of
        (keep is_enabled (params_from web highest index populated entries ++ (spare ∷ [])))
      ≡ entries
unfolding params_from
pairs-params_from web highest index populated [] spare off = rw off refl
pairs-params_from web highest index [] (e ∷ entries) spare off =
    ap (λ es. e ∷ es) (pairs-params_from web highest (suc index) [] entries spare off)
pairs-params_from web highest index (p ∷ populated) (e ∷ entries) spare off =
    ap (λ es. e ∷ es) (pairs-params_from web highest (suc index) populated entries spare off)

spare-enabled : (o : Option Param) (p : Param) → p.enabled ≡ false → (spare_or o p).enabled ≡ false
spare-enabled none p h = h
spare-enabled (some q) p h = refl

-- A name and a value that `URLSearchParams` reads back.
abbrev pub is_well_formed_entry : Text × Text → Bool
is_well_formed_entry (key, value) = is_well_formed key && is_well_formed value

module _ (web : Web)
    (parse_format : (entries : List (Text × Text))
      → all is_well_formed_entry entries ≡ true
      → web.parse_query (web.format_query entries) ≡ entries)
    (format_free : (entries : List (Text × Text))
      → has_char b'#' (web.format_query entries) ≡ false) where
  -- A URL that parameters were written to, read again: where `URLSearchParams` reads back what it wrote
  -- of well-formed texts and writes no `#`, and the texts are well-formed, the enabled parameters that are read have the names and values, in order, of those
  -- that were enabled and had a name, whatever parameters the reader held before.
  pub get_request_query_params-apply :
      (url : Text) (params current : List Param)
      → all is_well_formed_entry (map pair_of (keep counts params)) ≡ true
      → map pair_of (
          keep is_enabled (
            get_request_query_params_from_url web
              (apply_request_query_params_to_url web url params)
              current))
        ≡ map pair_of (keep counts params)
  unfolding get_request_query_params_from_url query_params apply_request_query_params_to_url
      create_empty_request_query_param
  get_request_query_params-apply url params current w =
      pairs-params_from web (get_highest_query_param_id web current) 0 (keep is_populated current) _
        _ (spare-enabled (find (λ p. not (is_populated p)) current) _ refl)
      ∙ (ap web.parse_query (
            query_of-joined url (web.format_query (map pair_of (keep counts params)))
              (format_free _))
          ∙ parse_format (map pair_of (keep counts params)) w)

  -- Writing parameters keeps the rest of the URL: what is written last is all that counts.
  apply_request_query_params_to_url_again :
      (url : Text) (params others : List Param)
      → apply_request_query_params_to_url web
          (apply_request_query_params_to_url web url params)
          others
        ≡ apply_request_query_params_to_url web url others
  unfolding apply_request_query_params_to_url
  apply_request_query_params_to_url_again url params others =
      rw
        (
          base_of-joined url (web.format_query (map pair_of (keep counts params))) (format_free _),
          hash_of-joined url (web.format_query (map pair_of (keep counts params))) (format_free _),
        )
        refl
