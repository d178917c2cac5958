-- ===== src/Prelude/Text.antt =====
-- Go strings that hold valid UTF-8, as their code points. Bytewise comparison of such strings is
-- comparison of their code points; byte lengths and byte offsets are written out.
use Prim.Native.Char.{code}
use Prim.Native.String.{String}
use anchorix.Prelude.Tests.{ltb, leb, ◌==◌, if◌then◌else◌}
use Prim.Native.Nat.{ℕ, ◌+◌}
use mathlib.Core.Path.{◌≡◌, refl}
use mathlib.Core.Logic.{◌↔◌}
use mathlib.Core.Bool.{Bool, true, false, ◌&&◌, ◌||◌}
use mathlib.Core.List.{List, [], ◌∷◌, reverse}
use native.Mathlib.Omega.{arith}

abbrev pub Text : Type 0
Text = List ℕ

abbrev pub codes : String → Text
codes String.[] = []
codes (String.◌∷◌ c s) = code c ∷ codes s

unfoldable pub text_eq : Text → Text → Bool
text_eq [] [] = true
text_eq (a ∷ s) (b ∷ t) = (a == b) && text_eq s t
text_eq _ _ = false

-- Go's `<` on strings
unfoldable pub text_lt : Text → Text → Bool
text_lt [] [] = false
text_lt [] (b ∷ t) = true
text_lt (a ∷ s) [] = false
text_lt (a ∷ s) (b ∷ t) =
    let rest = text_lt s t in if ltb a b then true else if ltb b a then false else rest

-- the bytes of one code point
unfoldable pub rune_len : ℕ → ℕ
rune_len c = if ltb c 0x80 then 1 else if ltb c 0x800 then 2 else if ltb c 0x10000 then 3 else 4

-- `len(s)`
unfoldable pub byte_len : Text → ℕ
unfolding rune_len
byte_len [] = 0
byte_len (c ∷ s) = rune_len c + byte_len s

-- `unicode.IsSpace`
unfoldable pub is_space : ℕ → Bool
is_space c =
    (leb 9 c && leb c 13)
    || c == 0x20
    || c == 0x85
    || c == 0xa0
    || c == 0x1680
    || (leb 0x2000 c && leb c 0x200a)
    || c == 0x2028
    || c == 0x2029
    || c == 0x202f
    || c == 0x205f
    || c == 0x3000

unfoldable pub trim_left : Text → Text
unfolding is_space
trim_left [] = []
trim_left (c ∷ s) = if is_space c then trim_left s else c ∷ s

-- `strings.TrimSpace`
unfoldable pub trim_space : Text → Text
unfolding trim_left
trim_space s = reverse (trim_left (reverse (trim_left s)))

unfoldable pub is_empty : Text → Bool
is_empty [] = true
is_empty (_ ∷ _) = false

pub text_eq_refl : (s : Text) → text_eq s s ≡ true
unfolding text_eq
text_eq_refl [] = refl
text_eq_refl (a ∷ s) = ground (arith, text_eq_refl s)

pub eq_of_text_eq : (s t : Text) → text_eq s t ≡ true → s ≡ t
unfolding text_eq
eq_of_text_eq [] [] h = refl
eq_of_text_eq [] (b ∷ t) h = cc
eq_of_text_eq (a ∷ s) [] h = cc
eq_of_text_eq (a ∷ s) (b ∷ t) h = ground (arith, eq_of_text_eq s t)

pub text_lt_irrefl : (s : Text) → text_lt s s ≡ false
unfolding text_lt
text_lt_irrefl [] = refl
text_lt_irrefl (a ∷ s) = ground (arith, text_lt_irrefl s)

pub text_lt_trans : (r s t : Text) → text_lt r s ≡ true → text_lt s t ≡ true → text_lt r t ≡ true
unfolding text_lt
text_lt_trans [] [] t p q = cc
text_lt_trans [] (b ∷ s) [] p q = cc
text_lt_trans [] (b ∷ s) (c ∷ t) p q = refl
text_lt_trans (a ∷ r) [] t p q = cc
text_lt_trans (a ∷ r) (b ∷ s) [] p q = cc
text_lt_trans (a ∷ r) (b ∷ s) (c ∷ t) p q = ground (arith, text_lt_trans r s t)

pub text_lt_connex : (s t : Text) → text_lt s t ≡ false → text_lt t s ≡ false → s ≡ t
unfolding text_lt
text_lt_connex [] [] p q = refl
text_lt_connex [] (b ∷ t) p q = cc
text_lt_connex (a ∷ s) [] p q = cc
text_lt_connex (a ∷ s) (b ∷ t) p q = ground (arith, text_lt_connex s t)

pub text_lt_cotrans :
    (r s t : Text) → text_lt r s ≡ false → text_lt s t ≡ false → text_lt r t ≡ false
unfolding text_lt
text_lt_cotrans [] [] t p q = q
text_lt_cotrans [] (b ∷ s) t p q = cc
text_lt_cotrans (a ∷ r) [] [] p q = refl
text_lt_cotrans (a ∷ r) [] (c ∷ t) p q = cc
text_lt_cotrans (a ∷ r) (b ∷ s) [] p q = refl
text_lt_cotrans (a ∷ r) (b ∷ s) (c ∷ t) p q = ground (arith, text_lt_cotrans r s t)

pub text_eq_iff : (s t : Text) → (text_eq s t ≡ true) ↔ (s ≡ t)
text_eq_iff s t = (eq_of_text_eq s t, λ e. rw (← e) (text_eq_refl s))
