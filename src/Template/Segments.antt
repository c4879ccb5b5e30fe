-- ===== src/Template/Segments.antt =====
-- `templateSegments` cuts a text without loss, and masking hides the literals alone.
use purr.Common.{
  ℕ, zero, suc, ◌+◌, ◌-◌, ◌≤◌, ◌≡◌, refl, sym, ◌∙◌, Bool, true, false, ◌||◌, List, [], ◌∷◌, ◌++◌,
  arith, map, ap, ap₂, ◌≡⟨◌⟩◌, ◌∎, Text, length, drop, take-append-drop, concat, is_space, nat_eq,
  ltb, All, if◌then◌else◌, Bool-cases, inl, inr,
}
use mathlib.Core.List.{append_assoc, append-nil, map-append}
use purr.Template.{
  Token, Segment, template_tokens, slice, segments_from, template_segments, masked, literal, bullet,
}
use purr.Template.Placed.{Placed, template_tokens-Placed}

abbrev pub texts : List Segment → Text
texts ss = concat (map (λ s. s.text) ss)

drop-nil : (n : ℕ) → drop {A = ℕ} n [] ≡ []
drop-nil zero = refl
drop-nil (suc n) = refl

drop-drop : (a b : ℕ) (v : Text) → drop a (drop b v) ≡ drop (b + a) v
drop-drop a zero v = ap (λ (n : ℕ). drop n v) (omega arith)
drop-drop a (suc b) [] = drop-nil a ∙ sym (drop-nil (suc b + a))
drop-drop a (suc b) (x ∷ v) =
    drop-drop a b v
    ∙ ap (λ (n : ℕ). drop n (x ∷ v)) (let e : suc (b + a) ≡ suc b + a = omega arith in e)

drop-all : (n : ℕ) (v : Text) → length v ≤ n → drop n v ≡ []
drop-all zero [] h = refl
drop-all zero (x ∷ v) h = absurd (omega arith)
drop-all (suc n) [] h = refl
drop-all (suc n) (x ∷ v) h = drop-all n v (omega arith)

-- A text from `a` on is its slice up to `b` and the text from `b` on.
pub slice-append-drop : (v : Text) (a b : ℕ) → a ≤ b → slice v a b ++ drop b v ≡ drop a v
slice-append-drop v a b h =
    let e : drop (b - a) (drop a v) ≡ drop b v =
      drop-drop (b - a) a v ∙ ap (λ (n : ℕ). drop n v) (omega arith) in
    rw (← e) (take-append-drop (b - a) (drop a v))

texts-append : (xs ys : List Segment) → texts (xs ++ ys) ≡ texts xs ++ texts ys
texts-append [] ys = refl
texts-append (x ∷ xs) ys = simp (texts-append xs ys, append_assoc)

-- The segment between two tokens, or none.
gap-texts :
    (v : Text) (a b : ℕ)
    → a ≤ b
    → texts (if ltb a b then literal false (slice v a b) ∷ [] else []) ≡ slice v a b
gap-texts v a b h = elim (Bool-cases (ltb a b)) [
  | inl less ↦ rw less (append-nil _)
  | inr same ↦ rw same (let e : b - a ≡ 0 = ground arith in rw e refl)
]

segments_from-texts :
    (value : Text) (from : ℕ) (ts : List Token)
    → Placed value from ts
    → texts (segments_from value false from ts) ≡ drop from value
unfolding segments_from
segments_from-texts value from [] h = elim (Bool-cases (ltb from (length value))) [
  | inl less ↦ rw less (append-nil _)
  | inr same ↦ rw same (sym (drop-all from value (ground arith)))
]
segments_from-texts value from (t ∷ ts) (le, tok, h) =
    texts (segments_from value false from (t ∷ ts))
    ≡⟨ texts-append (if ltb from t.from then literal false (slice value from t.from) ∷ [] else [])
        _ ⟩
      texts (if ltb from t.from then literal false (slice value from t.from) ∷ [] else [])
      ++ (t.text ++ texts (segments_from value false t.to ts))
    ≡⟨ ap₂ (λ (x y : Text). x ++ (t.text ++ y)) (gap-texts value from t.from le)
        (segments_from-texts value t.to ts h) ⟩
      slice value from t.from ++ (t.text ++ drop t.to value)
    ≡⟨ ap (λ (x : Text). slice value from t.from ++ (x ++ drop t.to value)) tok.at ⟩
      slice value from t.from ++ (slice value t.from t.to ++ drop t.to value)
    ≡⟨ ap (λ (x : Text). slice value from t.from ++ x)
        (slice-append-drop value t.from t.to (omega (arith, tok.ends))) ⟩
      slice value from t.from ++ drop t.from value
    ≡⟨ slice-append-drop value from t.from le ⟩ drop from value ∎

-- The texts of the segments of a value, put together, are the value.
pub template_segments-texts : (value : Text) → texts (template_segments value false) ≡ value
unfolding template_segments
template_segments-texts value =
    segments_from-texts value 0 (template_tokens value) (template_tokens-Placed value)

-- What masking does to a segment: a variable is kept, a literal is masked.
abbrev pub hidden : Segment → Segment
hidden s = if s.variable then s else record { text = masked s.text; variable = false }

map-append_if :
    (b : Bool) (s : Text)
    → map hidden (if b then literal false s ∷ [] else []) ≡ (if b then literal true s ∷ [] else [])
map-append_if b s = ground arith

segments_from-hidden :
    (value : Text) (from : ℕ) (ts : List Token)
    → segments_from value true from ts ≡ map hidden (segments_from value false from ts)
unfolding segments_from
segments_from-hidden value from [] = sym (map-append_if (ltb from (length value)) (drop from value))
segments_from-hidden value from (t ∷ ts) =
    ap₂ (λ (x y : List Segment). x ++ (record { text = t.text; variable = true } ∷ y))
      (sym (map-append_if (ltb from t.from) (slice value from t.from)))
      (segments_from-hidden value t.to ts)
    ∙ sym (map-append _ _ _)

-- A masked text is as long, and each of its units is white space or a bullet.
masked-hides :
    (s : Text)
    → (length (masked s) ≡ length s) × All (λ c. (is_space c || nat_eq c bullet) ≡ true) (masked s)
masked-hides [] = (refl, tt)
masked-hides (c ∷ s) = let (len, rest) = masked-hides s in (omega arith, (ground arith, rest))

abbrev pub IsHidden : Segment → Type 0
IsHidden s = (s.variable ≡ false) → All (λ c. (is_space c || nat_eq c bullet) ≡ true) s.text

hidden-IsHidden : (ss : List Segment) → All IsHidden (map hidden ss)
hidden-IsHidden [] = tt
hidden-IsHidden (s ∷ ss) = (
  elim (Bool-cases s.variable) [
    | inl kept ↦ rw kept (λ e. absurd (cc))
    | inr lost ↦ rw lost (λ _. (masked-hides s.text).1)
  ],
  hidden-IsHidden ss,
)

-- With masking the segments are those without it, variables kept and literals masked; each literal
-- then holds white space and bullets alone.
template_segments-masked :
    (value : Text)
    → (template_segments value true ≡ map hidden (template_segments value false))
      × All IsHidden (template_segments value true)
unfolding template_segments
template_segments-masked value =
    let e = segments_from-hidden value 0 (template_tokens value) in
    (e, rw e (hidden-IsHidden (segments_from value false 0 (template_tokens value))))
