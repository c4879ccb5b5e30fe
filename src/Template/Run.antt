-- ===== src/Template/Run.antt =====
-- What `token_at` finds.
use purr.Common.{
  ◌≡◌, refl, true, false, some, [], ◌∷◌, ◌++◌, arith, ap, Text, truthy, length, drop, All,
  Bool-cases, inl, inr,
}
use purr.Template.{is_brace, name_run, closes, token_at}

-- A text with no brace in it.
abbrev pub NoBrace : Text → Type 0
NoBrace s = All (λ c. is_brace c ≡ false) s

pub name_run-NoBrace : (s : Text) → NoBrace (name_run s)
name_run-NoBrace [] = tt
name_run-NoBrace (c ∷ s) = ground (arith, name_run-NoBrace s)

closes-eq : (s : Text) → closes s ≡ true → (rest : Text) × (s ≡ b'}' ∷ b'}' ∷ rest)
closes-eq [] h = absurd (cc)
closes-eq (a ∷ []) h = absurd (cc)
closes-eq (a ∷ b ∷ s) h = (s, ground arith)

name_run-closes :
    (s : Text)
    → closes (drop (length (name_run s)) s) ≡ true
    → (rest : Text) × (s ≡ name_run s ++ (b'}' ∷ b'}' ∷ rest))
name_run-closes [] h = absurd (cc)
name_run-closes (c ∷ s) h = elim (Bool-cases (is_brace c)) [
  | inl brace ↦ let (rest, e) = closes-eq (c ∷ s) (ground arith) in (rest, ground arith)
  | inr plain ↦
      let (rest, e) = name_run-closes s (ground arith) in (rest, rw plain (ap (λ r. c ∷ r) e))
]

-- A match spells the text: two braces, the run, two braces, and a rest.
pub token_at-eq :
    (s run : Text)
    → token_at s ≡ some run
    → (rest : Text) × (s ≡ b'{' ∷ b'{' ∷ (run ++ (b'}' ∷ b'}' ∷ rest)))
unfolding token_at
token_at-eq [] run h = absurd (cc)
token_at-eq (a ∷ []) run h = absurd (cc)
token_at-eq (a ∷ b ∷ s) run h =
    let (rest, e) = name_run-closes s (ground arith) in (rest, ground (arith, e))

name_run_of_NoBrace : (run rest : Text) → NoBrace run → name_run (run ++ (b'}' ∷ rest)) ≡ run
name_run_of_NoBrace [] rest h = refl
name_run_of_NoBrace (c ∷ run) rest h = ground (arith, name_run_of_NoBrace run rest h.1)

drop-append_self : (xs ys : Text) → drop (length xs) (xs ++ ys) ≡ ys
drop-append_self [] ys = refl
drop-append_self (x ∷ xs) ys = drop-append_self xs ys

-- Such a text is matched.
pub token_at_of_run :
    (run rest : Text)
    → NoBrace run
    → truthy run ≡ true
    → token_at (b'{' ∷ b'{' ∷ (run ++ (b'}' ∷ b'}' ∷ rest))) ≡ some run
unfolding token_at
token_at_of_run run rest h t =
    rw (name_run_of_NoBrace run (b'}' ∷ rest) h, drop-append_self run (b'}' ∷ b'}' ∷ rest), t)

-- The run of a match is not empty and has no brace.
pub token_at-IsRun : (s run : Text) → token_at s ≡ some run → NoBrace run × (truthy run ≡ true)
unfolding token_at
token_at-IsRun [] run h = absurd (cc)
token_at-IsRun (a ∷ []) run h = absurd (cc)
token_at-IsRun (a ∷ b ∷ s) run h = ground (arith, name_run-NoBrace s)
