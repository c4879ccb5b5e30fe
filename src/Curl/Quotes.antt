-- ===== src/Curl/Quotes.antt =====
-- How the tokenizer reads plain and quoted text.
use mathlib.Core.List.{append_assoc, append-nil}
use purr.Common.{
  ℕ, ◌≡◌, refl, sym, ap, ◌∙◌, Bool, true, false, ◌||◌, not, none, some, List, [], ◌∷◌, ◌++◌, arith,
  Text, codes, is_space, nat_eq, all, Bool-cases, inl, inr, ◌⊎◌,
}
use purr.Curl.Shell.{Scan, step, scan, escape_quotes, shell_quote}

abbrev pub bare : List Text → Text → Scan
bare tokens token = record { tokens = tokens; token = token; quote = none; escaped = false }

abbrev quoted : List Text → Text → Scan
quoted tokens token = record { tokens = tokens; token = token; quote = some b'\''; escaped = false }

pub scan-append : (s t : Text) (st : Scan) → scan (s ++ t) st ≡ scan t (scan s st)
unfolding scan
scan-append [] t st = refl
scan-append (c ∷ s) t st = scan-append s t (step st c)

scan-nil : (st : Scan) → scan [] st ≡ st
unfolding scan
scan-nil st = refl

scan-cons : (c : ℕ) (s : Text) (st : Scan) → scan (c ∷ s) st ≡ scan s (step st c)
unfolding scan
scan-cons c s st = refl

-- A character that stands for itself outside quotes.
abbrev pub is_plain : ℕ → Bool
is_plain c = not (is_space c || nat_eq c b'\\' || nat_eq c b'\'' || nat_eq c b'"')

step-plain :
    (tokens : List Text) (token : Text) (c : ℕ)
    → is_plain c ≡ true
    → step (bare tokens token) c ≡ bare tokens (token ++ (c ∷ []))
unfolding step
step-plain tokens token c h = ground (arith, h)

pub scan-plain :
    (w : Text) (tokens : List Text) (token : Text)
    → all is_plain w ≡ true
    → scan w (bare tokens token) ≡ bare tokens (token ++ w)
scan-plain [] tokens token h =
    scan-nil (bare tokens token) ∙ ap (bare tokens) (sym (append-nil token))
scan-plain (c ∷ w) tokens token h =
    scan-cons c w (bare tokens token)
    ∙ (ap (scan w) (step-plain tokens token c (ground (arith, h)))
        ∙ (scan-plain w tokens (token ++ (c ∷ [])) (ground (arith, h))
            ∙ ap (bare tokens) (append_assoc token (c ∷ []) w)))

step-quoted :
    (tokens : List Text) (token : Text) (c : ℕ)
    → nat_eq c b'\'' ≡ false
    → step (quoted tokens token) c ≡ quoted tokens (token ++ (c ∷ []))
unfolding step
step-quoted tokens token c h = ground (arith, h)

scan-quote :
    (tokens : List Text) (token s : Text)
    → scan (codes "'\\''" ++ s) (quoted tokens token)
      ≡ scan s (quoted tokens (token ++ (b'\'' ∷ [])))
unfolding scan step
scan-quote tokens token s = refl

escape_quotes-cons :
    (c : ℕ) (w : Text)
    → (nat_eq c b'\'' ≡ false) × (escape_quotes (c ∷ w) ≡ c ∷ escape_quotes w)
      ⊎ (c ≡ b'\'') × (escape_quotes (c ∷ w) ≡ codes "'\\''" ++ escape_quotes w)
unfolding escape_quotes
escape_quotes-cons c w = elim (Bool-cases (nat_eq c b'\'')) [
  | inl mark ↦ inr (ground (arith, mark), rw mark refl)
  | inr other ↦ inl (other, rw other refl)
]

nil_quotes :
    (tokens : List Text) (token : Text)
    → scan (escape_quotes []) (quoted tokens token) ≡ quoted tokens token
unfolding escape_quotes scan
nil_quotes tokens token = refl

scan-escape_quotes :
    (w : Text) (tokens : List Text) (token : Text)
    → scan (escape_quotes w) (quoted tokens token) ≡ quoted tokens (token ++ w)
scan-escape_quotes [] tokens token =
    nil_quotes tokens token ∙ ap (quoted tokens) (sym (append-nil token))
scan-escape_quotes (c ∷ w) tokens token = elim (escape_quotes-cons c w) [
  | inl (other, e) ↦ rw e (
      scan-cons c (escape_quotes w) (quoted tokens token)
      ∙ (ap (scan (escape_quotes w)) (step-quoted tokens token c other)
          ∙ (scan-escape_quotes w tokens (token ++ (c ∷ []))
              ∙ ap (quoted tokens) (append_assoc token (c ∷ []) w))))
  | inr (mark, e) ↦ rw e (
      scan-quote tokens token (escape_quotes w)
      ∙ (scan-escape_quotes w tokens (token ++ (b'\'' ∷ []))
          ∙ (ap (quoted tokens) (append_assoc token (b'\'' ∷ []) w)
              ∙ ap (λ d. quoted tokens (token ++ (d ∷ w))) (sym mark))))
]

pub scan-shell_quote :
    (w : Text) (tokens : List Text) (token : Text)
    → scan (shell_quote w) (bare tokens token) ≡ bare tokens (token ++ w)
unfolding shell_quote scan step
scan-shell_quote w tokens token =
    scan-append (escape_quotes w) (b'\'' ∷ []) (quoted tokens token)
    ∙ ap (scan (b'\'' ∷ [])) (scan-escape_quotes w tokens token)
