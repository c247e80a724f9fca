-- ===== src/Prelude/Strings.antt =====
-- JavaScript strings as lists of UTF-16 code units: hexadecimal identities, lower case, trimming.
use Prim.Native.Nat.{ℕ, ◌+◌, ◌%◌}
use Prim.Native.Char.{code}
use Prim.Native.String.{String}
use mathlib.Core.Path.{◌≡◌, refl}
use mathlib.Core.Logic.{◌↔◌, ◌≢◌, inl, inr}
use mathlib.Core.Bool.{Bool, true, false, ◌&&◌, ◌||◌}
use mathlib.Core.List.{List, [], ◌∷◌, map, reverse}
use native.Mathlib.Omega.{arith}
use parly_relayer.Prelude.Tests.{if◌then◌else◌, leb, ltb, ◌==◌, Bool-cases}
use parly_relayer.Prelude.Lists.{length, all}

abbrev pub Text : Type 0
Text = List ℕ

-- A literal of ASCII characters.
abbrev pub codes : String → Text
codes String.[] = []
codes (String.◌∷◌ c s) = code c ∷ codes s

unfoldable pub text_eq : Text → Text → Bool
text_eq [] [] = true
text_eq (a ∷ s) (b ∷ t) = (a == b) && text_eq s t
text_eq _ _ = false

pub text_eq_iff : (s t : Text) → (text_eq s t ≡ true) ↔ (s ≡ t)
unfolding text_eq
text_eq_iff [] [] = ground arith
text_eq_iff [] (b ∷ t) = ground arith
text_eq_iff (a ∷ s) [] = ground arith
text_eq_iff (a ∷ s) (b ∷ t) = ground (arith, text_eq_iff s t)

pub text_eq_refl : (s : Text) → text_eq s s ≡ true
text_eq_refl s = (text_eq_iff s s).1 refl

pub text_eq-differs : (s t : Text) → s ≢ t → text_eq s t ≡ false
text_eq-differs s t differ = elim (Bool-cases (text_eq s t)) [
  | inl same ↦ absurd (differ ((text_eq_iff s t).0 same))
  | inr other ↦ other
]

-- `[a-fA-F0-9]` and `[a-f0-9]`.
unfoldable pub is_lower_hex_digit : ℕ → Bool
is_lower_hex_digit c = (leb b'0' c && leb c b'9') || (leb b'a' c && leb c b'f')

unfoldable pub is_hex_digit : ℕ → Bool
unfolding is_lower_hex_digit
is_hex_digit c = is_lower_hex_digit c || (leb b'A' c && leb c b'F')

-- `/^0x[…]{n}$/` for a class of characters.
unfoldable pub is_prefixed : (ℕ → Bool) → ℕ → Text → Bool
is_prefixed p n (x ∷ y ∷ s) = (x == b'0') && (y == b'x') && (length s == n) && all p s
is_prefixed p n _ = false

unfoldable pub is_bytes32 : Text → Bool
unfolding is_prefixed is_hex_digit
is_bytes32 t = is_prefixed is_hex_digit 64 t

unfoldable pub is_lower_bytes32 : Text → Bool
unfolding is_prefixed is_lower_hex_digit
is_lower_bytes32 t = is_prefixed is_lower_hex_digit 64 t

unfoldable pub is_address : Text → Bool
unfolding is_prefixed is_hex_digit
is_address t = is_prefixed is_hex_digit 40 t

-- `/^0x(?:[a-fA-F0-9]{2})*$/`
unfoldable pub is_hex_bytes : Text → Bool
unfolding is_hex_digit
is_hex_bytes (x ∷ y ∷ s) = (x == b'0') && (y == b'x') && (length s % 2 == 0) && all is_hex_digit s
is_hex_bytes _ = false

-- `toLowerCase` on ASCII text, which is what the source lowers: hexadecimal identities.
unfoldable pub lower_char : ℕ → ℕ
lower_char c = if leb b'A' c && leb c b'Z' then c + 32 else c

unfoldable pub to_lower : Text → Text
unfolding lower_char
to_lower t = map lower_char t

lower_char_idem : (c : ℕ) → lower_char (lower_char c) ≡ lower_char c
unfolding lower_char
lower_char_idem c = ground arith

pub to_lower_idem : (t : Text) → to_lower (to_lower t) ≡ to_lower t
unfolding to_lower
to_lower_idem [] = refl
to_lower_idem (c ∷ t) = cc (lower_char_idem c, to_lower_idem t)

-- The white space and line terminators that `trim` removes.
unfoldable pub is_space : ℕ → Bool
is_space c =
    (leb 9 c && leb c 13)
    || c == 32
    || c == 160
    || c == 0x1680
    || (leb 0x2000 c && leb c 0x200a)
    || c == 0x2028
    || c == 0x2029
    || c == 0x202f
    || c == 0x205f
    || c == 0x3000
    || c == 0xfeff

trim_start : Text → Text
trim_start [] = []
trim_start (c ∷ t) = if is_space c then trim_start t else c ∷ t

unfoldable pub trim : Text → Text
unfolding trim_start is_space
trim t = reverse (trim_start (reverse (trim_start t)))

-- The truth value of a string.
abbrev pub is_nonempty : Text → Bool
is_nonempty [] = false
is_nonempty (c ∷ t) = true

-- The order of texts by their code units.
unfoldable pub text_ltb : Text → Text → Bool
text_ltb [] [] = false
text_ltb [] (b ∷ t) = true
text_ltb (a ∷ s) [] = false
text_ltb (a ∷ s) (b ∷ t) = ltb a b || (a == b && text_ltb s t)
