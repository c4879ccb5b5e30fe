-- ===== src/Common/Strings.antt =====
-- Text that the program takes apart, as the list of its code units.
use Prim.Native.Nat.{ℕ, zero, suc, ◌+◌}
use mathlib.Core.Path.{◌≡◌, refl}
use mathlib.Core.Option.{Option, none, some}
use native.Mathlib.Omega.{arith}
use Prim.Native.Char.{code}
use Prim.Native.String.{String}
use mathlib.Core.Bool.{Bool, true, false, ◌||◌, ◌&&◌, not}
use mathlib.Core.List.{List, [], ◌∷◌, reverse}
use purr.Common.Tests.{if◌then◌else◌, leb, nat_eq}

abbrev pub Text : Type 0
Text = List ℕ

abbrev pub codes : String → Text
codes String.[] = []
codes (String.◌∷◌ c s) = code c ∷ codes s

-- White space and line terminators of ECMAScript, which `\s` and `trim` read.
unfoldable pub is_space : ℕ → Bool
is_space c =
    (leb 9 c && leb c 13)
    || nat_eq c 32
    || nat_eq c 0xa0
    || nat_eq c 0x1680
    || (leb 0x2000 c && leb c 0x200a)
    || nat_eq c 0x2028
    || nat_eq c 0x2029
    || nat_eq c 0x202f
    || nat_eq c 0x205f
    || nat_eq c 0x3000
    || nat_eq c 0xfeff

unfoldable pub trim_start : Text → Text
unfolding is_space
trim_start [] = []
trim_start (c ∷ s) = if is_space c then trim_start s else c ∷ s

-- `s.trim()`
unfoldable pub trim : Text → Text
unfolding trim_start
trim s = reverse (trim_start (reverse (trim_start s)))

-- A string is true in a test unless it is empty.
abbrev pub truthy : Text → Bool
truthy [] = false
truthy (_ ∷ _) = true

abbrev pub text_eq : Text → Text → Bool
text_eq [] [] = true
text_eq (a ∷ s) (b ∷ t) = nat_eq a b && text_eq s t
text_eq _ _ = false

-- `toLowerCase`, as far as a comparison with ASCII text sees it: the Kelvin sign is the only other
-- character whose lower case is an ASCII letter.
abbrev pub lower : ℕ → ℕ
lower c = if leb b'A' c && leb c b'Z' then c + 32 else if nat_eq c 0x212a then b'k' else c

-- `s.startsWith(p)`
abbrev pub starts_with : Text → Text → Bool
starts_with [] s = true
starts_with (p ∷ ps) [] = false
starts_with (p ∷ ps) (c ∷ s) = nat_eq p c && starts_with ps s

-- `s.slice(n)`
abbrev pub drop_text : ℕ → Text → Text
drop_text zero s = s
drop_text (suc n) [] = []
drop_text (suc n) (c ∷ s) = drop_text n s

-- `s.includes(c)` of one character.
unfoldable pub has_char : ℕ → Text → Bool
has_char c [] = false
has_char c (d ∷ s) = nat_eq c d || has_char c s

-- The text before the first `c`, and the text behind it, if there is one: `s.split(c, 1)[0]`.
unfoldable pub before : ℕ → Text → Text
before c [] = []
before c (d ∷ s) = if nat_eq c d then [] else d ∷ before c s

unfoldable pub after? : ℕ → Text → Option Text
after? c [] = none
after? c (d ∷ s) = if nat_eq c d then some s else after? c s

pub text_eq_refl : (s : Text) → text_eq s s ≡ true
text_eq_refl [] = refl
text_eq_refl (c ∷ s) = ground (arith, text_eq_refl s)

pub eq_of_text_eq : (s t : Text) → text_eq s t ≡ true → s ≡ t
eq_of_text_eq [] [] h = refl
eq_of_text_eq [] (c ∷ t) h = absurd (cc)
eq_of_text_eq (c ∷ s) [] h = absurd (cc)
eq_of_text_eq (c ∷ s) (d ∷ t) h = ground (arith, eq_of_text_eq s t)

-- A text without lone surrogates: `s.isWellFormed()`; the Boolean tells of a high one just before.
abbrev pub well_formed_from : Bool → Text → Bool
well_formed_from pending [] = not pending
well_formed_from pending (c ∷ s) =
    let low = leb 0xdc00 c && leb c 0xdfff in
    (if pending then low else not low) && well_formed_from (leb 0xd800 c && leb c 0xdbff) s

abbrev pub is_well_formed : Text → Bool
is_well_formed s = well_formed_from false s
