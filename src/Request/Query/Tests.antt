-- ===== src/Request/Query/Tests.antt =====
-- src/features/request-workbench/model/request.ts: query parameters at concrete inputs. The functions of
-- the platform are made up here: a query is written with a mark before each character.
use purr.Common.{
  all, ℕ, zero, suc, ◌+◌, ◌-◌, ◌≡◌, refl, ap, true, false, some, List, [], ◌∷◌, arith, String, Text,
  codes, has_char, map, keep, nat_eq, trim, includes, Distinct, length, ◌≤◌, after?, before,
}
use purr.Request.{Param, empty_param}
use purr.Request.Query.{
  Web, counts, pair_of, get_request_query_params_from_url, apply_request_query_params_to_url,
  get_highest_query_param_id, highest_from, query_of,
}
use purr.Request.Query.Trip.{is_well_formed_entry, is_enabled, get_request_query_params-apply}
use purr.Request.Query.Numbers.{max_safe_integer}
use purr.Request.Query.Populated.{ids}
use purr.Request.Query.Ids.{get_request_query_params-Distinct}

abbrev ones : ℕ → String
ones zero = String.[]
ones (suc n) = String.◌∷◌ "a" (ones n)

abbrev size : String → ℕ
size String.[] = 0
size (String.◌∷◌ c s) = suc (size s)

size-ones : (n : ℕ) → some (size (ones n)) ≡ some n
size-ones zero = refl
size-ones (suc n) = ground (arith, size-ones n)

abbrev marked : ℕ → Text → Text → Text
marked mark [] rest = rest
marked mark (c ∷ s) rest = mark ∷ (c + 100) ∷ marked mark s rest

abbrev to_key : ℕ → List (Text × Text) → List (Text × Text)
to_key c [] = []
to_key c ((k, v) ∷ es) = (c ∷ k, v) ∷ es

abbrev to_value : ℕ → List (Text × Text) → List (Text × Text)
to_value c [] = []
to_value c ((k, v) ∷ es) = (k, c ∷ v) ∷ es

abbrev parse : Text → List (Text × Text)
parse [] = []
parse (zero ∷ s) = ([], []) ∷ parse s
parse (suc zero ∷ c ∷ s) = to_key (c - 100) (parse s)
parse (suc (suc m) ∷ c ∷ s) = to_value (c - 100) (parse s)
parse _ = []

abbrev format : List (Text × Text) → Text
format [] = []
format ((k, v) ∷ es) = marked 1 k (marked 2 v (0 ∷ format es))

minus : (c : ℕ) → (c + 100) - 100 ≡ c
minus c = omega arith

parse-values :
    (v s : Text) (es : List (Text × Text))
    → parse s ≡ ([], []) ∷ es
    → parse (marked 2 v s) ≡ ([], v) ∷ es
parse-values [] s es h = h
parse-values (c ∷ v) s es h = rw (parse-values v s es h, minus c) refl

parse-keys :
    (k v s : Text) (es : List (Text × Text))
    → parse s ≡ ([], v) ∷ es
    → parse (marked 1 k s) ≡ (k, v) ∷ es
parse-keys [] v s es h = h
parse-keys (c ∷ k) v s es h = rw (parse-keys k v s es h, minus c) refl

parse-format : (es : List (Text × Text)) → parse (format es) ≡ es
parse-format [] = refl
parse-format ((k, v) ∷ es) =
    parse-keys k v (marked 2 v (0 ∷ format es)) es
      (parse-values v (0 ∷ format es) es (ap (λ es. ([], []) ∷ es) (parse-format es)))

marked-free :
    (mark : ℕ) (s rest : Text)
    → nat_eq b'#' mark ≡ false
    → has_char b'#' rest ≡ false
    → has_char b'#' (marked mark s rest) ≡ false
unfolding has_char
marked-free mark [] rest m h = h
marked-free mark (c ∷ s) rest m h = ground (arith, m, marked-free mark s rest m h)

format-free : (es : List (Text × Text)) → has_char b'#' (format es) ≡ false
unfolding has_char
format-free [] = refl
format-free ((k, v) ∷ es) =
    marked-free 1 k (marked 2 v (0 ∷ format es)) refl
      (marked-free 2 v (0 ∷ format es) refl (ground (arith, format-free es)))

abbrev web : Web
web = record {
  id_number = λ s. some (size s);
  numbered_id = ones;
  plus = ◌+◌;
  parse_query = parse;
  format_query = format;
}

abbrev limit : Param
limit = record (empty_param "a") { key = codes "limit"; value = codes "3"; enabled = true }

abbrev unused : Param
unused = record (empty_param "aa") { key = codes "page" }

abbrev two : List Param
two = limit ∷ unused ∷ []

abbrev url : Text
url = codes "https://a.b/c?old#part"

counted : all is_well_formed_entry (map pair_of (keep counts two)) ≡ true
unfolding counts trim
counted = refl

get_request_query_params-apply_example :
    map pair_of (
      keep is_enabled
        (get_request_query_params_from_url web (apply_request_query_params_to_url web url two) two))
    ≡ (codes "limit", codes "3") ∷ []
unfolding counts trim
get_request_query_params-apply_example =
    get_request_query_params-apply web (λ es w. parse-format es) format-free url two two counted

two-Distinct : Distinct (ids two)
unfolding includes
two-Distinct = (refl, (refl, tt))

two-fits :
    get_highest_query_param_id web two + length (web.parse_query (query_of url)) + 1
    ≤ max_safe_integer
unfolding get_highest_query_param_id highest_from after? before
two-fits = omega arith

get_request_query_params-Distinct_example :
    Distinct (ids (get_request_query_params_from_url web url two))
get_request_query_params-Distinct_example =
    get_request_query_params-Distinct web (λ n h. size-ones n) (λ a b h. refl) url two two-fits
      two-Distinct

applied : apply_request_query_params_to_url web url [] ≡ codes "https://a.b/c#part"
unfolding apply_request_query_params_to_url
applied = refl
