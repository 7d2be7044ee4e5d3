-- ===== src/Ical/Text.antt =====
-- What apps/api/src/channel-sync/ical-parse.ts uses of JavaScript's strings: `trim`, `toUpperCase`,
-- comparison, and the character classes of its regular expressions.
use Prim.Native.Char.{code}
use Prim.Native.String.{String}
use sambung.Common.{
  ℕ, ◌+◌, ◌-◌, ◌*◌, Bool, true, false, ◌&&◌, ◌||◌, Option, none, some, List, [], ◌∷◌, ◌++◌, ltb,
  leb, ◌==◌, if◌then◌else◌,
}

abbrev pub Text : Type 0
Text = List ℕ

-- The code points of a literal.
abbrev pub codes : String → Text
codes String.[] = []
codes (String.◌∷◌ c s) = code c ∷ codes s

abbrev pub text_eq : Text → Text → Bool
text_eq [] [] = true
text_eq [] (d ∷ ds) = false
text_eq (c ∷ cs) [] = false
text_eq (c ∷ cs) (d ∷ ds) = c == d && text_eq cs ds

-- `a <= b` on strings.
abbrev pub text_le : Text → Text → Bool
text_le [] ds = true
text_le (c ∷ cs) [] = false
text_le (c ∷ cs) (d ∷ ds) = ltb c d || c == d && text_le cs ds

-- `\s`, and what `trim` removes: white space and line terminators.
abbrev pub is_space : ℕ → Bool
is_space c =
    leb 9 c && leb c 13
    || c == 32
    || c == 0xa0
    || c == 0x1680
    || leb 0x2000 c && leb c 0x200a
    || c == 0x2028
    || c == 0x2029
    || c == 0x202f
    || c == 0x205f
    || c == 0x3000
    || c == 0xfeff

abbrev pub is_digit : ℕ → Bool
is_digit c = leb b'0' c && leb c b'9'

abbrev pub trim_start : Text → Text
trim_start [] = []
trim_start (c ∷ cs) = let rest = trim_start cs in if is_space c then rest else c ∷ cs

abbrev cons_unless : Bool → ℕ → Text → Text
cons_unless true c [] = []
cons_unless _ c cs = c ∷ cs

abbrev pub trim_end : Text → Text
trim_end [] = []
trim_end (c ∷ cs) = cons_unless (is_space c) c (trim_end cs)

abbrev pub trim : Text → Text
trim t = trim_end (trim_start t)

-- The letters beyond ASCII whose upper case has a letter of ASCII are here. Any other stays as it is,
-- which no comparison with an ASCII text can tell.
abbrev pub upper_letter : ℕ → Text
upper_letter c =
    if leb b'a' c && leb c b'z'
    then (c - 32) ∷ []
    else if c == 0xdf
    then codes "SS"
    else if c == 0x131
    then codes "I"
    else if c == 0x149
    then 0x2bc ∷ b'N' ∷ []
    else if c == 0x17f
    then codes "S"
    else if c == 0x1f0
    then b'J' ∷ 0x30c ∷ []
    else if c == 0x1e96
    then b'H' ∷ 0x331 ∷ []
    else if c == 0x1e97
    then b'T' ∷ 0x308 ∷ []
    else if c == 0x1e98
    then b'W' ∷ 0x30a ∷ []
    else if c == 0x1e99
    then b'Y' ∷ 0x30a ∷ []
    else if c == 0x1e9a
    then b'A' ∷ 0x2be ∷ []
    else if c == 0xfb00
    then codes "FF"
    else if c == 0xfb01
    then codes "FI"
    else if c == 0xfb02
    then codes "FL"
    else if c == 0xfb03
    then codes "FFI"
    else if c == 0xfb04
    then codes "FFL"
    else if c == 0xfb05 || c == 0xfb06
    then codes "ST"
    else c ∷ []

-- `toUpperCase`
unfoldable pub upper : Text → Text
upper [] = []
upper (c ∷ cs) = upper_letter c ++ upper cs

-- The value of a row of digits: `Number`.
abbrev pub digit : ℕ → ℕ
digit c = c - b'0'

abbrev pub two_digits : ℕ → ℕ → ℕ
two_digits a b = digit a * 10 + digit b

abbrev pub four_digits : ℕ → ℕ → ℕ → ℕ → ℕ
four_digits a b c d = two_digits a b * 100 + two_digits c d

-- The part before the first `sep`, and the part after it if there is one.
abbrev pub before_first : ℕ → Text → Text
before_first sep [] = []
before_first sep (c ∷ cs) = let rest = before_first sep cs in if c == sep then [] else c ∷ rest

abbrev pub after_first : ℕ → Text → Option Text
after_first sep [] = none
after_first sep (c ∷ cs) = let rest = after_first sep cs in if c == sep then some cs else rest
