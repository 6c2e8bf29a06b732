-- ===== src/Prelude/Text.antt =====
-- Go strings as texts: emptiness, blankness after `strings.TrimSpace`, and the byte order.
use Prim.Native.String.{String}
use Prim.Native.Char.{code}
use mathlib.Core.Bool.{Bool, true, false, not, ◌&&◌, ◌||◌}
use text.Mathlib.Text.{◌==◌ as str_eq}
use Prim.Native.Nat.{ℕ, suc, ◌-◌}
use mathlib.Core.Path.{◌≡◌, refl}
use native.Mathlib.Omega.{arith}
use meta_pulse.Prelude.Tests.{leb, ltb, ◌==◌, if◌then◌else◌}
pub use text.Mathlib.Text.{◌==◌ as text_eq}
pub use text.Mathlib.TextEquality.{eq_iff as text_eq_iff}

-- `s == ""`
abbrev pub is_empty : String → Bool
is_empty s = str_eq s ""

-- `unicode.IsSpace`, on a code point.
unfoldable pub is_space : ℕ → Bool
is_space c =
    (leb 9 c && leb c 13)
    || c == 32
    || c == 133
    || c == 160
    || c == 5760
    || (leb 8192 c && leb c 8202)
    || c == 8232
    || c == 8233
    || c == 8239
    || c == 8287
    || c == 12288

-- `strings.TrimSpace(s) == ""`: nothing but white space.
unfoldable pub is_blank : String → Bool
unfolding is_space
is_blank String.[] = true
is_blank (String.◌∷◌ c s) = is_space (code c) && is_blank s

-- `a < b` on strings. The order of UTF-8 bytes is the order of the code points.
unfoldable pub text_lt : String → String → Bool
text_lt String.[] String.[] = false
text_lt String.[] (String.◌∷◌ d t) = true
text_lt (String.◌∷◌ c s) String.[] = false
text_lt (String.◌∷◌ c s) (String.◌∷◌ d t) =
    if ltb (code c) (code d) then true else (code c == code d) && text_lt s t

-- The order is a strict one, and total up to equality.
pub text_lt-asym : (s t : String) → text_lt s t ≡ true → text_lt t s ≡ false
unfolding text_lt
text_lt-asym String.[] String.[] h = cc
text_lt-asym String.[] (String.◌∷◌ d t) h = refl
text_lt-asym (String.◌∷◌ c s) String.[] h = cc
text_lt-asym (String.◌∷◌ c s) (String.◌∷◌ d t) h = ground (arith, text_lt-asym s t)

pub text_lt-neg_trans :
    (s t u : String) → text_lt s t ≡ false → text_lt t u ≡ false → text_lt s u ≡ false
unfolding text_lt
text_lt-neg_trans s t String.[] h k = text_lt-nil s
  where
    text_lt-nil : (s : String) → text_lt s String.[] ≡ false
    text_lt-nil String.[] = refl
    text_lt-nil (String.◌∷◌ c s) = refl
text_lt-neg_trans s String.[] (String.◌∷◌ e u) h k = cc
text_lt-neg_trans String.[] (String.◌∷◌ d t) (String.◌∷◌ e u) h k = cc
text_lt-neg_trans (String.◌∷◌ c s) (String.◌∷◌ d t) (String.◌∷◌ e u) h k =
    ground (arith, text_lt-neg_trans s t u)

-- Whether the last character is white space; `b` answers for an empty text.
unfoldable pub ends_in_space : Bool → String → Bool
unfolding is_space
ends_in_space b String.[] = b
ends_in_space b (String.◌∷◌ c s) = ends_in_space (is_space (code c)) s

unfoldable pub starts_with_space : String → Bool
unfolding is_space
starts_with_space String.[] = false
starts_with_space (String.◌∷◌ c s) = is_space (code c)

-- `utf8.RuneCountInString`
unfoldable pub rune_count : String → ℕ
rune_count String.[] = 0
rune_count (String.◌∷◌ c s) = suc (rune_count s)

-- `s == strings.TrimSpace(s) && s != "" && utf8.RuneCountInString(s) <= max`
unfoldable pub is_valid_text : ℕ → String → Bool
unfolding starts_with_space ends_in_space rune_count
is_valid_text max s =
    not (starts_with_space s)
    && not (ends_in_space false s)
    && not (is_empty s)
    && leb (rune_count s) max

unfoldable pub is_hex_digit : ℕ → Bool
is_hex_digit c = (leb 48 c && leb c 57) || (leb 65 c && leb c 70) || (leb 97 c && leb c 102)

-- 64 hexadecimal digits: the length test and `hex.DecodeString`.
unfoldable pub is_hex : String → Bool
unfolding is_hex_digit
is_hex String.[] = true
is_hex (String.◌∷◌ c s) = is_hex_digit (code c) && is_hex s

unfoldable pub is_digest : String → Bool
unfolding rune_count is_hex
is_digest s = rune_count s == 64 && is_hex s

unfoldable pub trim_left : String → String
unfolding is_space
trim_left String.[] = String.[]
trim_left (String.◌∷◌ c s) =
    let rest = trim_left s in if is_space (code c) then rest else String.◌∷◌ c s

unfoldable pub trim_right : String → String
unfolding is_space
trim_right String.[] = String.[]
trim_right (String.◌∷◌ c s) =
    let rest = trim_right s in
    if is_space (code c) && is_empty rest then String.[] else String.◌∷◌ c rest

-- `strings.TrimSpace`
unfoldable pub trim_space : String → String
unfolding trim_left trim_right
trim_space s = trim_right (trim_left s)

-- The bytes of a character in UTF-8.
abbrev width : ℕ → ℕ
width c = if ltb c 128 then 1 else if ltb c 2048 then 2 else if ltb c 65536 then 3 else 4

-- The first bytes of a text, less those of a character that does not fit whole.
unfoldable pub take_bytes : ℕ → String → String
take_bytes n String.[] = String.[]
take_bytes n (String.◌∷◌ c s) =
    let rest = take_bytes (n - width (code c)) s in
    if ltb n (width (code c)) then String.[] else String.◌∷◌ c rest

-- `strings.HasPrefix(s, prefix)`
unfoldable pub has_prefix : String → String → Bool
has_prefix String.[] s = true
has_prefix (String.◌∷◌ c p) String.[] = false
has_prefix (String.◌∷◌ c p) (String.◌∷◌ d s) = code c == code d && has_prefix p s
