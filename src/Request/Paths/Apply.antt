-- ===== src/Request/Paths/Apply.antt =====
-- What becomes of the path when its parameters get their values.
use purr.Common.{
  ℕ, ◌≡◌, ◌≢◌, refl, ap, ◌∙◌, Bool, false, not, ◌||◌, none, some, List, [], ◌∷◌, ◌++◌, arith, Text,
  nat_eq, keep, is_some, All, Option-cases, inl, inr, if◌then◌else◌, any,
}
use mathlib.Core.List.{append-nil}
use purr.Request.{PathParam}
use purr.Request.Paths.{
  Web, ends_path, path_of, suffix_of, push, split, join, name_of, and_name, names, path_names,
  value_of, substitute, substitute_name, apply_request_path_params_to_url,
}

-- A character that a segment cannot have.
abbrev parts : ℕ → Bool
parts c = nat_eq c b'/' || ends_path c

-- A segment of a path.
abbrev pub IsSegment : Text → Type 0
IsSegment s = any parts s ≡ false

IsSegment-push :
    (c : ℕ) (ss : List Text) → parts c ≡ false → All IsSegment ss → All IsSegment (push c ss)
IsSegment-push c [] h hs = (ground arith, tt)
IsSegment-push c (s ∷ ss) h (k, hs) = (ground arith, hs)

IsSegment-split : (s : Text) → All IsSegment (split (path_of s))
unfolding split path_of
IsSegment-split [] = (refl, tt)
IsSegment-split (c ∷ s) = ground (arith, IsSegment-push c (split (path_of s)), IsSegment-split s)

split-append : (s t : Text) → IsSegment s → split (s ++ (b'/' ∷ t)) ≡ s ∷ split t
unfolding split
split-append [] t h = refl
split-append (c ∷ s) t h = ground (arith, split-append s t)

split-segment : (s : Text) → IsSegment s → split s ≡ s ∷ []
unfolding split
split-segment [] h = refl
split-segment (c ∷ s) h = ground (arith, split-segment s)

split-join : (s : Text) (ss : List Text) → All IsSegment (s ∷ ss) → split (join (s ∷ ss)) ≡ s ∷ ss
unfolding join
split-join s [] (h, hs) = split-segment s h
split-join s (t ∷ ss) (h, hs) =
    split-append s (join (t ∷ ss)) h ∙ ap (λ r. s ∷ r) (split-join t ss hs)

-- A text without the start of a suffix, before one.
path_of-append : (s t : Text) → any ends_path s ≡ false → path_of (s ++ t) ≡ s ++ path_of t
unfolding path_of
path_of-append [] t h = refl
path_of-append (c ∷ s) t h = ground (arith, path_of-append s t)

suffix_of-append : (s t : Text) → any ends_path s ≡ false → suffix_of (s ++ t) ≡ suffix_of t
unfolding suffix_of
suffix_of-append [] t h = refl
suffix_of-append (c ∷ s) t h = ground (arith, suffix_of-append s t)

path_of-suffix_of : (s : Text) → path_of (suffix_of s) ≡ []
unfolding path_of suffix_of
path_of-suffix_of [] = refl
path_of-suffix_of (c ∷ s) = ground (arith, path_of-suffix_of s)

suffix_of-suffix_of : (s : Text) → suffix_of (suffix_of s) ≡ suffix_of s
unfolding suffix_of
suffix_of-suffix_of [] = refl
suffix_of-suffix_of (c ∷ s) = ground (arith, suffix_of-suffix_of s)

ends_path-append : (s t : Text) → any ends_path (s ++ t) ≡ (any ends_path s || any ends_path t)
ends_path-append [] t = refl
ends_path-append (c ∷ s) t = ground (arith, ends_path-append s t)

ends_path-segment : (s : Text) → IsSegment s → any ends_path s ≡ false
ends_path-segment [] h = refl
ends_path-segment (c ∷ s) h = ground (arith, ends_path-segment s)

ends_path-join : (ss : List Text) → All IsSegment ss → any ends_path (join ss) ≡ false
unfolding join
ends_path-join [] h = refl
ends_path-join (s ∷ []) (h, hs) = ends_path-segment s h
ends_path-join (s ∷ t ∷ ss) (h, hs) = ground (
  arith,
  ends_path-append s (b'/' ∷ join (t ∷ ss)),
  ends_path-segment s h,
  ends_path-join (t ∷ ss) hs,
)

-- The names whose parameters have no value.
abbrev pub is_unset : List PathParam → Text → Bool
is_unset params key = not (is_some (value_of params key))

module _ (web : Web)
    (encoded_free : (s t : Text) → web.encode_uri_component s ≡ some t → IsSegment t)
    (encoded_nameless : (s t : Text) → web.encode_uri_component s ≡ some t → name_of t ≡ none) where
  -- One segment: it stays one, and its name is gone when it has a value.
  abbrev IsDone : List PathParam → Text → Text → Type 0
  IsDone params s t =
      IsSegment t
      × ((rest : List Text)
          → and_name (name_of t) (keep (is_unset params) rest)
            ≡ keep (is_unset params) (and_name (name_of s) rest))

  untouched :
      (params : List PathParam) (s t : Text)
      → t ≡ s
      → IsSegment s
      → ((key : Text) → name_of s ≡ some key → value_of params key ≡ none)
      → IsDone params s t
  untouched params s t same h unset = rw same (
    h,
    λ rest. elim (Option-cases (name_of s)) [
      | inl nameless ↦ rw nameless refl
      | inr (key, named) ↦ rw named (ground (arith, unset key named))
    ],
  )

  substitute_name-IsDone :
      (params : List PathParam) (s t : Text)
      → IsSegment s
      → substitute_name web params s (name_of s) ≡ some t
      → IsDone params s t
  substitute_name-IsDone params s t h e = elim (Option-cases (name_of s)) [
    | inl nameless ↦
        untouched params s t (ground (arith, e, nameless)) h
          (λ key named. ground (arith, nameless, named))
    | inr (key, named) ↦ elim (Option-cases (value_of params key)) [
      | inl unset ↦
          untouched params s t (ground (arith, e, named, unset)) h
            (λ other also. ground (arith, named, also, unset))
      | inr (value, found) ↦ (
        encoded_free value t (ground (arith, e, named, found)),
        λ rest.
            rw (named, encoded_nameless value t (ground (arith, e, named, found)))
              (ground (arith, found)),
      )
    ]
  ]

  substitute-lem :
      (params : List PathParam) (ss ts : List Text)
      → All IsSegment ss
      → substitute web params ss ≡ some ts
      → All IsSegment ts × (ss ≢ [] → ts ≢ []) × (names ts ≡ keep (is_unset params) (names ss))
  unfolding substitute names
  substitute-lem params [] ts h e = rw (is_nil) (tt, (λ n. n), refl)
    where
      is_nil : ts ≡ []
      is_nil = ground (arith, e)
  substitute-lem params (s ∷ ss) ts (h, hs) e =
      elim (Option-cases (substitute_name web params s (name_of s))) [
        | inl failed ↦ absurd (ground (arith, e, failed))
        | inr (t, done) ↦ elim (Option-cases (substitute web params ss)) [
          | inl failed ↦ absurd (ground (arith, e, done, failed))
          | inr (others, rest) ↦
              both t others (ground (arith, e, done, rest))
                (substitute_name-IsDone params s t h done) (substitute-lem params ss others hs rest)
        ]
      ]
    where
      both :
          (t : Text) (others : List Text)
          → ts ≡ t ∷ others
          → IsDone params s t
          → All IsSegment others
            × (ss ≢ [] → others ≢ [])
            × (names others ≡ keep (is_unset params) (names ss))
          → All IsSegment ts
            × (s ∷ ss ≢ [] → ts ≢ [])
            × (names ts ≡ keep (is_unset params) (and_name (name_of s) (names ss)))
      both t others same (i, n) (is, m, ns) =
          rw same ((i, is), (λ _ (q : t ∷ others ≡ []). absurd (cc)), rw ns (n (names ss)))

  split-join_of_nonempty : (ss : List Text) → ss ≢ [] → All IsSegment ss → split (join ss) ≡ ss
  split-join_of_nonempty [] n h = absurd (n refl)
  split-join_of_nonempty (s ∷ ss) n h = split-join s ss h

  push-nonempty : (c : ℕ) (ss : List Text) → push c ss ≢ []
  push-nonempty c [] = λ (q : (c ∷ []) ∷ [] ≡ []). absurd (cc)
  push-nonempty c (s ∷ ss) = λ (q : (c ∷ s) ∷ ss ≡ []). absurd (cc)

  split-nonempty : (s : Text) → split s ≢ []
  unfolding split
  split-nonempty [] = λ (q : [] ∷ [] ≡ []). absurd (cc)
  split-nonempty (c ∷ s) = λ (q : (if nat_eq c b'/' then [] ∷ split s else push c (split s)) ≡ []).
      ground (arith, q, push-nonempty c (split s))

  -- Once a URL has its values, the names left in its path are those without a value, in order, and what
  -- follows the path is as before, where an encoded text has no slash, no `?`, no `#` and is no name
  -- itself.
  pub apply_request_path_params-names :
      (url result : Text) (params : List PathParam)
      → apply_request_path_params_to_url web url params ≡ some result
      → (path_names result ≡ keep (is_unset params) (path_names url))
        × (suffix_of result ≡ suffix_of url)
  unfolding apply_request_path_params_to_url path_names
  apply_request_path_params-names url result params e =
      elim (Option-cases (substitute web params (split (path_of url)))) [
        | inl failed ↦ absurd (ground (arith, e, failed))
        | inr (ts, done) ↦
            finish ts (ground (arith, e, done))
              (substitute-lem params (split (path_of url)) ts (IsSegment-split url) done)
      ]
    where
      finish :
          (ts : List Text)
          → result ≡ join ts ++ suffix_of url
          → All IsSegment ts
            × (split (path_of url) ≢ [] → ts ≢ [])
            × (names ts ≡ keep (is_unset params) (names (split (path_of url))))
          → (path_names result ≡ keep (is_unset params) (path_names url))
            × (suffix_of result ≡ suffix_of url)
      finish ts same (is, n, ns) = rw same (
        rw
            (
              path_of-append (join ts) (suffix_of url) (ends_path-join ts is),
              path_of-suffix_of url,
              append-nil (join ts),
              split-join_of_nonempty ts (n (split-nonempty (path_of url))) is,
            )
            ns,
        suffix_of-append (join ts) (suffix_of url) (ends_path-join ts is) ∙ suffix_of-suffix_of url,
      )
