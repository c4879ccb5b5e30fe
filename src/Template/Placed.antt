-- ===== src/Template/Placed.antt =====
-- Where `template_tokens` finds its tokens.
use purr.Common.{
  ℕ, zero, suc, ◌+◌, ◌≤◌, ◌≡◌, refl, some, List, [], ◌∷◌, ◌++◌, arith, ap, Text, true, length,
  length-append, take, drop, Option-cases, inl, inr, trim, truthy,
}
use purr.Template.{Token, token, token_at, scan, template_tokens, slice}
use purr.Template.Run.{NoBrace, token_at-eq, token_at-IsRun}
use native.Mathlib.Numerals.{add-one, towards_suc}

-- The tokens lie one behind the other between `from` and the end of the text, and each is a slice
-- of the text that spells two braces, a run without braces, and two braces.
pub record IsToken (value : Text) (t : Token) : Type 0 where
  pub run : Text
  pub nonempty : truthy run ≡ true
  pub plain : NoBrace run
  pub spells : t.text ≡ b'{' ∷ b'{' ∷ (run ++ (b'}' ∷ b'}' ∷ []))
  pub name : t.name ≡ trim run
  pub at : t.text ≡ slice value t.from t.to
  pub ends : t.to ≡ t.from + length t.text

abbrev pub Placed : Text → ℕ → List Token → Type 0
Placed value from [] = from ≤ length value
Placed value from (t ∷ ts) = (from ≤ t.from) × IsToken value t × Placed value t.to ts

drop-suc : (n : ℕ) (v : Text) (c : ℕ) (s : Text) → drop n v ≡ c ∷ s → drop (suc n) v ≡ s
drop-suc zero [] c s e = cc e
drop-suc zero (x ∷ v) c s e = cc e
drop-suc (suc n) [] c s e = cc e
drop-suc (suc n) (x ∷ v) c s e = drop-suc n v c s e

drop-add-one : (n : ℕ) (v : Text) (c : ℕ) (s : Text) → drop n v ≡ c ∷ s → drop (n + 1) v ≡ s
drop-add-one n v c s e = rw add-one (drop-suc n v c s e)

take-run :
    (run rest : Text)
    → take (suc (suc (length run))) (run ++ (b'}' ∷ b'}' ∷ rest)) ≡ run ++ (b'}' ∷ b'}' ∷ [])
take-run [] rest = refl
take-run (c ∷ run) rest = ap (λ r. c ∷ r) (take-run run rest)

-- The text of a match.
take-token :
    (s run : Text)
    → token_at s ≡ some run
    → take (length run + 4) s ≡ b'{' ∷ b'{' ∷ (run ++ (b'}' ∷ b'}' ∷ []))
take-token s run h =
    let (rest, e) = token_at-eq s run h in
    rw e (simp towards_suc (ap (λ (r : Text). b'{' ∷ b'{' ∷ r) (take-run run rest)))

length-token : (run : Text) → length (b'{' ∷ b'{' ∷ (run ++ (b'}' ∷ b'}' ∷ []))) ≡ length run + 4
length-token run = omega (arith, length-append run (b'}' ∷ b'}' ∷ []))

token_at-IsToken :
    (value : Text) (at : ℕ) (s run : Text)
    → token_at s ≡ some run
    → drop at value ≡ s
    → IsToken value (token at run s)
token_at-IsToken value at s run h e = record {
  run = run;
  nonempty = (token_at-IsRun s run h).1;
  plain = (token_at-IsRun s run h).0;
  spells = take-token s run h;
  name = refl;
  at = rw e (ap (λ (n : ℕ). take n s) (omega arith));
  ends = rw (take-token s run h, length-token run);
}

token_at_fits : (s run : Text) → token_at s ≡ some run → length run + 4 ≤ length s
token_at_fits s run h =
    let (rest, e) = token_at-eq s run h in
    omega (arith, ap length e, length-append run (b'}' ∷ b'}' ∷ rest))

scan-Placed :
    (value : Text) (from at skip : ℕ) (s : Text)
    → drop at value ≡ s
    → at + length s ≡ length value
    → skip ≤ length s
    → from ≤ at + skip
    → Placed value from (scan at skip s)
unfolding scan
scan-Placed value from at skip [] e l k f = omega arith
scan-Placed value from at (suc skip) (c ∷ s) e l k f =
    scan-Placed value from (at + 1) skip s (drop-add-one at value c s e) (omega arith) (omega arith)
      (omega arith)
scan-Placed value from at zero (c ∷ s) e l k f = elim (Option-cases (token_at (c ∷ s))) [
  | inl miss ↦
      rw (miss, scan)
        (scan-Placed value from (at + 1) 0 s (drop-add-one at value c s e) (omega arith)
          (omega arith) (omega arith))
  | inr (run, hit) ↦
      rw (hit, scan)
        (
          omega arith,
          token_at-IsToken value at (c ∷ s) run hit e,
          scan-Placed value (at + (length run + 4)) (at + 1) (length run + 3) s
              (drop-add-one at value c s e) (omega arith)
              (omega (arith, token_at_fits (c ∷ s) run hit)) (omega arith),
        )
]

-- The tokens of a text lie one behind the other inside it, each is the slice that its bounds name,
-- spells `{{`, a run without braces that is not empty, and `}}`, and has the trimmed run for a name.
pub template_tokens-Placed : (value : Text) → Placed value 0 (template_tokens value)
unfolding template_tokens
template_tokens-Placed value =
    scan-Placed value 0 0 0 value refl (omega arith) (omega arith) (omega arith)
