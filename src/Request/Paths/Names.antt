-- ===== src/Request/Paths/Names.antt =====
-- The parameters that are read from the path of a URL.
use purr.Common.{
  ℕ, suc, ◌≡◌, refl, ap, some, List, [], ◌∷◌, arith, Text, eq_of_text_eq, Option-cases, inl, inr,
  ◌+◌,
}
use purr.Request.{PathParam}
use purr.Request.Paths.{
  Web, take_named, params_of_names, highest_from, path_names, get_request_path_params_from_url,
}

abbrev pub keys : List PathParam → List Text
keys [] = []
keys (p ∷ ps) = p.key ∷ keys ps

take_named-key :
    (key : Text) (ps : List PathParam) (p : PathParam) (rest : List PathParam)
    → take_named key ps ≡ some (p, rest)
    → p.key ≡ key
unfolding take_named
take_named-key key [] p rest h = absurd (cc)
take_named-key key (q ∷ ps) p rest h = elim (Option-cases (take_named key ps)) [
  | inl gone ↦ ground (arith, gone, h, eq_of_text_eq q.key key)
  | inr ((r, others), found) ↦
      ground (arith, found, h, eq_of_text_eq q.key key, take_named-key key ps r others)
]

module _ (web : Web) where
  keys-params_of_names :
      (next : ℕ) (names : List Text) (remaining : List PathParam)
      → keys (params_of_names web next names remaining) ≡ names
  unfolding params_of_names
  keys-params_of_names next [] remaining = refl
  keys-params_of_names next (key ∷ names) remaining =
      elim (Option-cases (take_named key remaining)) [
        | inl gone ↦ rw gone (ap (λ ks. key ∷ ks) (keys-params_of_names (suc next) names remaining))
        | inr ((p, rest), found) ↦
            rw (found, take_named-key key remaining p rest found)
              (ap (λ ks. key ∷ ks) (keys-params_of_names (suc next) names rest))
      ]

  -- The parameters read from a URL are named as the path names them, in its order, one for each place
  -- where it does, whatever parameters there were before.
  pub get_request_path_params-keys :
      (url : Text) (current : List PathParam)
      → keys (get_request_path_params_from_url web url current) ≡ path_names url
  unfolding get_request_path_params_from_url
  get_request_path_params-keys url current =
      keys-params_of_names (highest_from web 0 current + 1) (path_names url) current
