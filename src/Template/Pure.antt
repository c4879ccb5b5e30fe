-- ===== src/Template/Pure.antt =====
-- Which texts `isPureTemplateReference` accepts.
use purr.Common.{
  ℕ, ◌+◌, ◌-◌, ◌≡◌, refl, sym, ◌∙◌, ◌↔◌, true, false, List, [], ◌∷◌, ◌++◌, arith, ap, ap₂,
  length-append, Text, length, take, drop, trim, is_space, truthy, IsBlank, trim-IsBlank,
  IsBlank_of_trim,
}
use mathlib.Core.List.{append_assoc, append-nil}
use purr.Template.{Token, token, scan, template_tokens, slice, is_pure, is_pure_template_reference}
use purr.Template.Run.{NoBrace}
use purr.Template.Placed.{Placed, template_tokens-Placed}
use purr.Template.Segments.{slice-append-drop}
use purr.Template.RoundTrip.{NoOpen, reference, scan-NoOpen, scan-reference}

IsBlank-NoOpen : (s : Text) → IsBlank s → NoOpen s
unfolding is_space
IsBlank-NoOpen [] h = tt
IsBlank-NoOpen (c ∷ s) (h, hs) = (ground arith, IsBlank-NoOpen s hs)

take-append_self : (xs ys : Text) → take (length xs) (xs ++ ys) ≡ xs
take-append_self [] ys = refl
take-append_self (x ∷ xs) ys = ap (λ (r : Text). x ∷ r) (take-append_self xs ys)

drop-append_self : (xs ys : Text) → drop (length xs) (xs ++ ys) ≡ ys
drop-append_self [] ys = refl
drop-append_self (x ∷ xs) ys = drop-append_self xs ys

-- A reference alone in its text, but for white space around it.
pub record IsPure (value : Text) : Type 0 where
  pub pre : Text
  pub run : Text
  pub post : Text
  pub spells : value ≡ pre ++ reference run post
  pub before : IsBlank pre
  pub plain : NoBrace run
  pub named : truthy (trim run) ≡ true
  pub after : IsBlank post

falsy-eq-nil : (s : Text) → truthy s ≡ false → s ≡ []
falsy-eq-nil [] h = refl
falsy-eq-nil (c ∷ s) h = absurd (cc)

is_pure-IsPure :
    (value : Text) (ts : List Token) → Placed value 0 ts → is_pure value ts ≡ true → IsPure value
is_pure-IsPure value [] h e = absurd (cc)
is_pure-IsPure value (t ∷ u ∷ ts) h e = absurd (cc)
is_pure-IsPure value (t ∷ []) (le, tok, fits) e = record {
  pre = slice value 0 t.from;
  run = tok.run;
  post = drop t.to value;
  spells =
      sym (slice-append-drop value 0 t.from (omega arith))
      ∙ ap (λ (x : Text). slice value 0 t.from ++ x)
          (sym (slice-append-drop value t.from t.to (omega (arith, tok.ends)))
            ∙ ap (λ (x : Text). x ++ drop t.to value) (sym tok.at ∙ tok.spells)
            ∙ ap (λ (x : Text). b'{' ∷ b'{' ∷ x)
                (append_assoc tok.run (b'}' ∷ b'}' ∷ []) (drop t.to value)));
  before = IsBlank_of_trim _ (falsy-eq-nil _ (ground arith));
  plain = tok.plain;
  named = ground (arith, tok.name);
  after = IsBlank_of_trim _ (falsy-eq-nil _ (ground arith));
}

scan-post : (at : ℕ) (post : Text) → NoOpen post → scan at 0 post ≡ []
scan-post at post h =
    ap (scan at 0) (sym (append-nil post)) ∙ scan-NoOpen at post [] h ∙ unfold scan in refl

-- The one token of such a text.
tokens_of_IsPure :
    (pre run post : Text)
    → IsBlank pre
    → NoBrace run
    → truthy run ≡ true
    → IsBlank post
    → template_tokens (pre ++ reference run post) ≡ token (length pre) run (reference run post) ∷ []
unfolding template_tokens
tokens_of_IsPure pre run post hpre hrun t hpost =
    scan-NoOpen 0 pre (reference run post) (IsBlank-NoOpen pre hpre)
    ∙ ap (λ (n : ℕ). scan n 0 (reference run post))
        (let e : 0 + length pre ≡ length pre = omega arith in e)
    ∙ scan-reference (length pre) run post hrun t
    ∙ ap (λ (ts : List Token). token (length pre) run (reference run post) ∷ ts)
        (scan-post (length pre + (length run + 4)) post (IsBlank-NoOpen post hpost))

drop-reference :
    (pre run post : Text) → drop (length pre + (length run + 4)) (pre ++ reference run post) ≡ post
drop-reference pre run post =
    ap₂ (λ (n : ℕ) (s : Text). drop n s) size text ∙ drop-append_self (pre ++ inner) post
  where
    inner : Text
    inner = b'{' ∷ b'{' ∷ (run ++ (b'}' ∷ b'}' ∷ []))

    text : pre ++ reference run post ≡ (pre ++ inner) ++ post
    text =
        ap (λ (s : Text). pre ++ (b'{' ∷ b'{' ∷ s)) (sym (append_assoc run (b'}' ∷ b'}' ∷ []) post))
        ∙ sym (append_assoc pre inner post)

    size : length pre + (length run + 4) ≡ length (pre ++ inner)
    size = omega (arith, length-append pre inner, length-append run (b'}' ∷ b'}' ∷ []))

truthy_of_trim : (run : Text) → truthy (trim run) ≡ true → truthy run ≡ true
unfolding trim
truthy_of_trim [] h = absurd (cc h)
truthy_of_trim (c ∷ run) h = refl

slice-pre : (pre rest : Text) → slice (pre ++ rest) 0 (length pre) ≡ pre
slice-pre pre rest =
    ap (λ (n : ℕ). take n (pre ++ rest)) (let e : length pre - 0 ≡ length pre = omega arith in e)
    ∙ take-append_self pre rest

is_pure_of_IsPure :
    (pre run post : Text)
    → IsBlank pre
    → truthy (trim run) ≡ true
    → IsBlank post
    → is_pure (pre ++ reference run post) (token (length pre) run (reference run post) ∷ []) ≡ true
is_pure_of_IsPure pre run post hpre named hpost = rw (
  named,
  slice-pre pre (reference run post),
  drop-reference pre run post,
  trim-IsBlank pre hpre,
  trim-IsBlank post hpost,
)

-- A value is a pure template reference exactly if it is one `{{run}}`, white space around it aside,
-- whose run has no brace and is not blank.
is_pure_template_reference_iff :
    (value : Text) → (is_pure_template_reference value ≡ true) ↔ IsPure value
unfolding is_pure_template_reference
is_pure_template_reference_iff value = (
  is_pure-IsPure value (template_tokens value) (template_tokens-Placed value),
  λ p.
      rw
        (
          p.spells,
          tokens_of_IsPure p.pre p.run p.post p.before p.plain (truthy_of_trim p.run p.named)
              p.after,
        )
        (is_pure_of_IsPure p.pre p.run p.post p.before p.named p.after),
)
