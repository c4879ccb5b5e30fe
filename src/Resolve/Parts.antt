-- ===== src/Resolve/Parts.antt =====
-- Expansion of a text that was put together from literals and references, with no indices.
use purr.Common.{
  ℕ, suc, ◌+◌, ◌-◌, ◌≡◌, refl, sym, ◌∙◌, ap, ap₂, List, [], ◌∷◌, ◌++◌, arith, Text, All, length,
  length-append, take, drop, trim,
}
use mathlib.Core.Path.{fun_ext}
use mathlib.Core.List.{append_assoc, append-nil}
use purr.Template.{scan, template_tokens, slice}
use purr.Template.RoundTrip.{
  Part, written, referenced, render, reference, IsPart, scan-NoOpen, scan-reference,
}
use purr.Resolve.{Result, ok, err, ◌>>=◌, Variables, own, guard, replace, resolve_from}

-- What a reference stands for.
abbrev pub reference_value : (Text → List Text → Result) → Variables → List Text → Text → Result
reference_value expand variables stack key = do
  definition ← own variables key
  allowed ← guard stack key definition
  expand allowed (stack ++ (key ∷ []))

abbrev pub expand_parts : (Text → Result) → List Part → Result
expand_parts value [] = ok []
expand_parts value (written s ∷ ps) = do rest ← expand_parts value ps; ok (s ++ rest)
expand_parts value (referenced run ∷ ps) = do
  inner ← value (trim run)
  rest ← expand_parts value ps
  ok (inner ++ rest)

>>=_assoc : (m : Result) (f g : Text → Result) → ((m >>= f) >>= g) ≡ (m >>= λ a. f a >>= g)
>>=_assoc (ok a) f g = refl
>>=_assoc (err e) f g = refl

>>=_cong : (m : Result) (f g : Text → Result) → ((a : Text) → f a ≡ g a) → (m >>= f) ≡ (m >>= g)
>>=_cong m f g h = ap (λ (k : Text → Result). m >>= k) (fun_ext h)

abbrev after : Text → Result → Result
after s m = m >>= λ r. ok (s ++ r)

after-after : (a b : Text) (m : Result) → after a (after b m) ≡ after (a ++ b) m
after-after a b (ok r) = ap ok (sym (append_assoc a b r))
after-after a b (err e) = refl

after-nil : (m : Result) → after [] m ≡ m
after-nil (ok r) = refl
after-nil (err e) = refl

drop-append_self : (xs ys : Text) → drop (length xs) (xs ++ ys) ≡ ys
drop-append_self [] ys = refl
drop-append_self (x ∷ xs) ys = drop-append_self xs ys

take-append_self : (xs ys : Text) → take (length xs) (xs ++ ys) ≡ xs
take-append_self [] ys = refl
take-append_self (x ∷ xs) ys = ap (λ (r : Text). x ∷ r) (take-append_self xs ys)

-- The slice behind `done`, as long as `pend`.
slice-middle :
    (done pend rest : Text)
    → slice (done ++ (pend ++ rest)) (length done) (length done + length pend) ≡ pend
slice-middle done pend rest =
    ap₂ (λ (n : ℕ) (s : Text). take n s)
      (let e : length done + length pend - length done ≡ length pend = omega arith in e)
      (drop-append_self done (pend ++ rest))
    ∙ take-append_self pend rest

-- A reference, as the text that a token spells.
abbrev spelled : Text → Text
spelled run = b'{' ∷ b'{' ∷ (run ++ (b'}' ∷ b'}' ∷ []))

spelled-append : (run rest : Text) → reference run rest ≡ spelled run ++ rest
spelled-append run rest =
    ap (λ (s : Text). b'{' ∷ b'{' ∷ s) (sym (append_assoc run (b'}' ∷ b'}' ∷ []) rest))

length-spelled : (run : Text) → length (spelled run) ≡ length run + 4
length-spelled run = omega (arith, length-append run (b'}' ∷ b'}' ∷ []))

module _ (expand : Text → List Text → Result) (variables : Variables) (stack : List Text) where
  reference_value-bind :
      (key : Text) (f : Text → Result)
      → (reference_value expand variables stack key >>= f) ≡ (
          own variables key >>= λ definition.
          guard stack key definition >>= λ allowed. expand allowed (stack ++ (key ∷ [])) >>= f)
  reference_value-bind key f =
      >>=_assoc (own variables key) _ f
      ∙ >>=_cong (own variables key) _ _ (λ definition. >>=_assoc (guard stack key definition) _ f)

  after-reference :
      (before key : Text) (m : Result)
      → after before (reference_value expand variables stack key >>= λ inner. after inner m)
        ≡ (reference_value expand variables stack key >>= λ inner. after (before ++ inner) m)
  after-reference before key m =
      >>=_assoc (reference_value expand variables stack key) (λ inner. after inner m) _
      ∙ >>=_cong (reference_value expand variables stack key) _ _
          (λ inner. after-after before inner m)

  replace-parts :
      (done pend : Text) (value result : Text) (ps : List Part)
      → value ≡ done ++ (pend ++ render ps)
      → All IsPart ps
      → replace expand variables value stack
          (length done)
          result
          (scan (length done + length pend) 0 (render ps))
        ≡ after (result ++ pend) (expand_parts (reference_value expand variables stack) ps)
  unfolding replace
  replace-parts done pend value result [] e h =
      unfold scan in
      ap (λ (s : Text). ok (result ++ s))
        (ap (drop (length done)) e ∙ drop-append_self done (pend ++ []))
      ∙ ap ok (sym (append_assoc result pend []))
  replace-parts done pend value result (written s ∷ ps) e (h, hs) =
      ap (replace expand variables value stack (length done) result) (
        scan-NoOpen (length done + length pend) s (render ps) h
        ∙ ap (λ (n : ℕ). scan n 0 (render ps)) (omega (arith, length-append pend s)))
      ∙ replace-parts done (pend ++ s) value result ps
          (e ∙ ap (λ (r : Text). done ++ r) (sym (append_assoc pend s (render ps)))) hs
      ∙ ap (λ (r : Text). after r (expand_parts (reference_value expand variables stack) ps))
          (sym (append_assoc result pend s))
      ∙ sym (after-after (result ++ pend) s _)
  replace-parts done pend value result (referenced run ∷ ps) e ((h, t), hs) =
      ap (replace expand variables value stack (length done) result)
        (scan-reference (length done + length pend) run (render ps) h t)
      ∙ sym (reference_value-bind (trim run) _)
      ∙ >>=_cong (reference_value expand variables stack (trim run)) _ _
          (behind λ r. replace-parts passed [] value r ps shape hs)
      ∙ sym (after-reference (result ++ pend) (trim run) _)
    where
      passed : Text
      passed = done ++ (pend ++ spelled run)

      length-passed : length passed ≡ length done + length pend + (length run + 4)
      length-passed = omega (
        arith,
        length-append done (pend ++ spelled run),
        length-append pend (spelled run),
        length-spelled run,
      )

      shape : value ≡ passed ++ render ps
      shape =
          e
          ∙ ap (λ (r : Text). done ++ (pend ++ r)) (spelled-append run (render ps))
          ∙ ap (λ (r : Text). done ++ r) (sym (append_assoc pend (spelled run) (render ps)))
          ∙ sym (append_assoc done (pend ++ spelled run) (render ps))

      rest : Result
      rest = expand_parts (reference_value expand variables stack) ps

      middle : slice value (length done) (length done + length pend) ≡ pend
      middle =
          ap (λ (v : Text). slice v (length done) (length done + length pend)) e
          ∙ slice-middle done pend (reference run (render ps))

      behind :
          ((r : Text)
            → replace expand variables value stack
                (length passed)
                r
                (scan (length passed + 0) 0 (render ps))
              ≡ after (r ++ []) rest)
          → (inner : Text)
          → replace expand variables value stack
              (length done + length pend + (length run + 4))
              (result ++ (slice value (length done) (length done + length pend) ++ inner))
              (scan (length done + length pend + (length run + 4)) 0 (render ps))
            ≡ after ((result ++ pend) ++ inner) rest
      behind ih inner =
          ap₂
            (λ (m n : ℕ).
              replace expand variables value stack m
                (result ++ (slice value (length done) (length done + length pend) ++ inner))
                (scan n 0 (render ps)))
            (sym length-passed)
            (let same : length done + length pend + (length run + 4) ≡ length passed + 0 =
                omega (arith, length-passed) in
              same)
          ∙ ih (result ++ (slice value (length done) (length done + length pend) ++ inner))
          ∙ ap (λ (r : Text). after r rest)
              (append-nil _
                ∙ ap (λ (r : Text). result ++ (r ++ inner)) middle
                ∙ sym (append_assoc result pend inner))

-- Expanding a text put together from literals without `{` and references is putting together the
-- literals and the expansions of what the references name, at any depth of the expansion.
pub resolve_from-render :
    (fuel : ℕ) (variables : Variables) (stack : List Text) (ps : List Part)
    → All IsPart ps
    → resolve_from (suc fuel) variables (render ps) stack
      ≡ expand_parts (reference_value (resolve_from fuel variables) variables stack) ps
unfolding resolve_from template_tokens
resolve_from-render fuel variables stack ps h =
    replace-parts (resolve_from fuel variables) variables stack [] [] (render ps) [] ps refl h
    ∙ after-nil (expand_parts (reference_value (resolve_from fuel variables) variables stack) ps)
