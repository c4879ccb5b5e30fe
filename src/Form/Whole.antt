-- ===== src/Form/Whole.antt =====
-- A valid form is sent whole, and no name in it breaks out of its line.
use mathlib.Core.Path.{subst}
use purr.Common.{
  ℕ, ◌+◌, ◌≡◌, refl, sym, Option, none, some, [], ◌∷◌, ◌++◌, arith, Text, codes, nat_eq,
  if◌then◌else◌, inl, inr, ◌⊎◌,
}
use purr.Request.{File}
use purr.Form.{escape_disposition, escaped, without_breaks, disposition, mime, crlf, part_headers}

-- How often a character stands in a text.
abbrev pub count : ℕ → Text → ℕ
count c [] = 0
count c (d ∷ s) = (if nat_eq c d then 1 else 0) + count c s

count-append : (c : ℕ) (s t : Text) → count c (s ++ t) ≡ count c s + count c t
count-append c [] t = omega arith
count-append c (d ∷ s) t = omega (arith, count-append c s t)

-- A carriage return or a line feed.
abbrev pub IsBreak : ℕ → Type 0
IsBreak c = (c ≡ 13) ⊎ (c ≡ 10)

count-escape_disposition : (c : ℕ) (s : Text) → IsBreak c → count c (escape_disposition s) ≡ 0
unfolding escape_disposition
count-escape_disposition c [] b = refl
count-escape_disposition c (d ∷ s) b = omega (
  arith,
  count-append c (escaped d) (escape_disposition s),
  one c d b,
  count-escape_disposition c s b,
)
  where
    one : (c d : ℕ) → IsBreak c → count c (escaped d) ≡ 0
    one c d (inl e) = rw e (ground arith)
    one c d (inr e) = rw e (ground arith)

count-without_breaks : (c : ℕ) (s : Text) → IsBreak c → count c (without_breaks s) ≡ 0
unfolding without_breaks
count-without_breaks c [] b = refl
count-without_breaks c (d ∷ s) (inl e) = ground (arith, e, count-without_breaks c s (inl e))
count-without_breaks c (d ∷ s) (inr e) = ground (arith, e, count-without_breaks c s (inr e))

-- The text of a part's headers behind the disposition, and behind the boundary.
abbrev behind_disposition : Option File → Text
behind_disposition file =
    crlf ++ (codes "Content-Type: " ++ (without_breaks (mime file) ++ (crlf ++ crlf)))

abbrev behind_boundary : Text → Option File → Text
behind_boundary key file =
    crlf ++ (codes "Content-Disposition: " ++ (disposition key file ++ behind_disposition file))

returns-disposition : (key : Text) (file : Option File) → count 13 (disposition key file) ≡ 0
returns-disposition key none = omega (
  arith,
  count-append 13 (escape_disposition key) (codes "\""),
  count-escape_disposition 13 key (inl refl),
)
returns-disposition key (some file) = omega (
  arith,
  count-append 13 (escape_disposition key)
      (codes "\"; filename=\"" ++ (escape_disposition file.name ++ codes "\"")),
  count-append 13 (escape_disposition file.name) (codes "\""),
  count-escape_disposition 13 key (inl refl),
  count-escape_disposition 13 file.name (inl refl),
)

returns-part_headers :
    (boundary key : Text) (file : Option File)
    → count 13 boundary ≡ 0
    → count 13 (part_headers boundary key file) ≡ 4
unfolding part_headers
returns-part_headers boundary key file h = omega (
  arith,
  h,
  count-append 13 boundary (behind_boundary key file),
  count-append 13 (disposition key file) (behind_disposition file),
  count-append 13 (without_breaks (mime file)) (crlf ++ crlf),
  returns-disposition key file,
  count-without_breaks 13 (mime file) (inl refl),
)

feeds-disposition : (key : Text) (file : Option File) → count 10 (disposition key file) ≡ 0
feeds-disposition key none = omega (
  arith,
  count-append 10 (escape_disposition key) (codes "\""),
  count-escape_disposition 10 key (inr refl),
)
feeds-disposition key (some file) = omega (
  arith,
  count-append 10 (escape_disposition key)
      (codes "\"; filename=\"" ++ (escape_disposition file.name ++ codes "\"")),
  count-append 10 (escape_disposition file.name) (codes "\""),
  count-escape_disposition 10 key (inr refl),
  count-escape_disposition 10 file.name (inr refl),
)

feeds-part_headers :
    (boundary key : Text) (file : Option File)
    → count 10 boundary ≡ 0
    → count 10 (part_headers boundary key file) ≡ 4
unfolding part_headers
feeds-part_headers boundary key file h = omega (
  arith,
  h,
  count-append 10 boundary (behind_boundary key file),
  count-append 10 (disposition key file) (behind_disposition file),
  count-append 10 (without_breaks (mime file)) (crlf ++ crlf),
  feeds-disposition key file,
  count-without_breaks 10 (mime file) (inr refl),
)

-- A part has four carriage returns and four line feeds in its headers, whatever the names of its field and file
-- and the type of the file have: no name adds a header to the part, where the boundary has no line break.
pub part_headers-breaks :
    (c : ℕ) (boundary key : Text) (file : Option File)
    → IsBreak c
    → count c boundary ≡ 0
    → count c (part_headers boundary key file) ≡ 4
part_headers-breaks c boundary key file (inl e) =
    subst (λ n. count n boundary ≡ 0 → count n (part_headers boundary key file) ≡ 4) (sym e)
      (returns-part_headers boundary key file)
part_headers-breaks c boundary key file (inr e) =
    subst (λ n. count n boundary ≡ 0 → count n (part_headers boundary key file) ≡ 4) (sym e)
      (feeds-part_headers boundary key file)
