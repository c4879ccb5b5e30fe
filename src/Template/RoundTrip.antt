-- ===== src/Template/RoundTrip.antt =====
-- Tokens of a text that was put together from literals and references.
use purr.Common.{
  ℕ, ◌+◌, ◌≡◌, refl, ◌∙◌, true, false, none, List, [], ◌∷◌, ◌++◌, arith, map, ap, Text, length,
  length-append, nat_eq, trim, truthy, All,
}
use mathlib.Core.List.{append_assoc}
use purr.Template.{Token, token, token_at, scan, template_tokens}
use purr.Template.Run.{NoBrace, token_at_of_run}

-- Text in which no token can begin.
abbrev pub NoOpen : Text → Type 0
NoOpen s = All (λ c. nat_eq c b'{' ≡ false) s

abbrev pub reference : Text → Text → Text
reference run rest = b'{' ∷ b'{' ∷ (run ++ (b'}' ∷ b'}' ∷ rest))

token_at_of_other : (c : ℕ) (s : Text) → nat_eq c b'{' ≡ false → token_at (c ∷ s) ≡ none
unfolding token_at
token_at_of_other c [] h = refl
token_at_of_other c (d ∷ s) h = ground arith

pub scan-NoOpen :
    (at : ℕ) (pre rest : Text)
    → NoOpen pre
    → scan at 0 (pre ++ rest) ≡ scan (at + length pre) 0 rest
unfolding scan
scan-NoOpen at [] rest h = ap (λ (n : ℕ). scan n 0 rest) (omega arith)
scan-NoOpen at (c ∷ pre) rest (h, hs) =
    rw (token_at_of_other c (pre ++ rest) h, scan)
      (scan-NoOpen (at + 1) pre rest hs ∙ ap (λ (n : ℕ). scan n 0 rest) (omega arith))

scan-skip :
    (at : ℕ) (pre rest : Text) → scan at (length pre) (pre ++ rest) ≡ scan (at + length pre) 0 rest
unfolding scan
scan-skip at [] rest = ap (λ (n : ℕ). scan n 0 rest) (omega arith)
scan-skip at (c ∷ pre) rest =
    scan-skip (at + 1) pre rest ∙ ap (λ (n : ℕ). scan n 0 rest) (omega arith)

pub scan-reference :
    (at : ℕ) (run rest : Text)
    → NoBrace run
    → truthy run ≡ true
    → scan at 0 (reference run rest)
      ≡ token at run (reference run rest) ∷ scan (at + (length run + 4)) 0 rest
unfolding scan
scan-reference at run rest h t =
    rw (token_at_of_run run rest h t, scan)
      (ap (λ (ts : List Token). token at run (reference run rest) ∷ ts) behind)
  where
    body : Text
    body = b'{' ∷ (run ++ (b'}' ∷ b'}' ∷ []))

    body-length : length body ≡ length run + 3
    body-length = omega (arith, length-append run (b'}' ∷ b'}' ∷ []))

    body-append : body ++ rest ≡ b'{' ∷ (run ++ (b'}' ∷ b'}' ∷ rest))
    body-append = ap (λ (s : Text). b'{' ∷ s) (append_assoc run (b'}' ∷ b'}' ∷ []) rest)

    behind :
        scan (at + 1) (length run + 3) (b'{' ∷ (run ++ (b'}' ∷ b'}' ∷ rest)))
        ≡ scan (at + (length run + 4)) 0 rest
    behind =
        rw (← body-length, ← body-append)
          (scan-skip (at + 1) body rest
            ∙ ap (λ (n : ℕ). scan n 0 rest) (omega (arith, body-length)))

pub data Part : Type 0 where
  written : Text → Part
  referenced : Text → Part

abbrev pub render : List Part → Text
render [] = []
render (written s ∷ ps) = s ++ render ps
render (referenced run ∷ ps) = reference run (render ps)

abbrev pub names : List Part → List Text
names [] = []
names (written s ∷ ps) = names ps
names (referenced run ∷ ps) = trim run ∷ names ps

abbrev pub IsPart : Part → Type 0
IsPart (written s) = NoOpen s
IsPart (referenced run) = NoBrace run × (truthy run ≡ true)

scan-render :
    (at : ℕ) (ps : List Part) → All IsPart ps → map (λ t. t.name) (scan at 0 (render ps)) ≡ names ps
scan-render at [] h = unfold scan in refl
scan-render at (written s ∷ ps) (h, hs) =
    rw (scan-NoOpen at s (render ps) h) (scan-render (at + length s) ps hs)
scan-render at (referenced run ∷ ps) ((h, t), hs) =
    rw (scan-reference at run (render ps) h t)
      (ap (λ (ns : List Text). trim run ∷ ns) (scan-render (at + (length run + 4)) ps hs))

-- Of a text put together from literals without `{` and references `{{run}}`, whose runs are not
-- empty and hold no brace, the tokens are the references in order, each named by its trimmed run.
pub template_tokens-render :
    (ps : List Part) → All IsPart ps → map (λ t. t.name) (template_tokens (render ps)) ≡ names ps
unfolding template_tokens
template_tokens-render ps h = scan-render 0 ps h
