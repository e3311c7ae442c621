-- ===== src/Common/Text.antt =====
-- JavaScript's methods on texts: `length`, `trim`, `split`, and the order of `sort` (by code
-- points, as it is for texts without surrogates).
pub mod Laws
use Prim.Native.Nat.{ℕ, ◌+◌}
use Prim.Native.Char.{Char, code}
use Prim.Native.String.{String, [], ◌∷◌, compare}
use mathlib.Core.Bool.{Bool, true, false, ◌||◌, ◌&&◌}
use mathlib.Core.List.{List}
use text.Mathlib.Text.{is_lt}
use skillhunt.Common.Tests.{if◌then◌else◌, ltb, leb, nat_beq}

-- `text.length`: the number of UTF-16 code units.
abbrev pub utf16_length : String → ℕ
utf16_length [] = 0
utf16_length (c ∷ s) = (if ltb (code c) 65536 then 1 else 2) + utf16_length s

-- White space and line terminators.
abbrev pub is_blank : Char → Bool
is_blank c =
    let n = code c in
    (leb 9 n && leb n 13)
    || nat_beq n 32
    || nat_beq n 160
    || nat_beq n 5760
    || (leb 8192 n && leb n 8202)
    || nat_beq n 8232
    || nat_beq n 8233
    || nat_beq n 8239
    || nat_beq n 8287
    || nat_beq n 12288
    || nat_beq n 65279

abbrev pub trim_start : String → String
trim_start [] = []
trim_start (c ∷ s) = if is_blank c then trim_start s else c ∷ s

abbrev pub keep_unless_last : Char → String → String
keep_unless_last c [] = if is_blank c then [] else c ∷ []
keep_unless_last c (d ∷ s) = c ∷ d ∷ s

abbrev pub trim_end : String → String
trim_end [] = []
trim_end (c ∷ s) = keep_unless_last c (trim_end s)

abbrev pub trim : String → String
trim s = trim_end (trim_start s)

abbrev pub is_char : Char → Char → Bool
is_char separator c = nat_beq (code c) (code separator)

abbrev pub prepend : Char → List String → List String
prepend c List.[] = List.[]
prepend c (List.◌∷◌ s parts) = List.◌∷◌ (c ∷ s) parts

-- `text.split(separator)`, for a separator of one character
abbrev pub split_on : Char → String → List String
split_on separator [] = List.◌∷◌ [] List.[]
split_on separator (c ∷ s) =
    let rest = split_on separator s in
    if is_char separator c then List.◌∷◌ [] rest else prepend c rest

-- Does the first stand strictly before the second in a sorted array?
abbrev pub precedes : String → String → Bool
precedes s t = is_lt (compare s t)
