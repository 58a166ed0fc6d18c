-- ===== src/Prelude/Strings.antt =====
-- Texts as the crates take them apart: `trim`, `lines`, `split_once`, `replace`,
-- `to_ascii_lowercase`. A `String` is a list of Unicode scalar values.
pub mod Lines
pub mod Bytes
use Prim.Native.Char.{Char, code, char}
use Prim.Native.String
use Prim.Native.String.{◌++◌}
use package.codex_shuttle.Prelude.Tests.{◌==◌, nat_eq, leb, if◌then◌else◌}
use Prim.Native.Nat.{ℕ, ◌+◌}
use Prim.Native.String.{String}
use mathlib.Core.Bool.{Bool, true, false, ◌&&◌, ◌||◌}
use mathlib.Core.Option.{Option, none, some}
use mathlib.Core.List.{List, [], ◌∷◌, map}

-- `str::chars`, as numbers.
unfoldable pub codes : String → List ℕ
codes String.[] = []
codes (String.◌∷◌ c s) = code c ∷ codes s

-- `char::is_whitespace`: the Unicode property White_Space.
unfoldable pub is_whitespace : ℕ → Bool
is_whitespace c =
    (leb 9 c && leb c 13)
    || c == 32
    || c == 0x85
    || c == 0xa0
    || c == 0x1680
    || (leb 0x2000 c && leb c 0x200a)
    || c == 0x2028
    || c == 0x2029
    || c == 0x202f
    || c == 0x205f
    || c == 0x3000

unfoldable pub is_empty : String → Bool
is_empty String.[] = true
is_empty (String.◌∷◌ c s) = false

-- `str::trim_start`
unfoldable pub trim_start : String → String
trim_start String.[] = String.[]
trim_start (String.◌∷◌ c s) =
    let rest = trim_start s in if is_whitespace (code c) then rest else String.◌∷◌ c s

-- `str::trim_end`
unfoldable pub trim_end : String → String
unfolding is_empty
trim_end String.[] = String.[]
trim_end (String.◌∷◌ c s) =
    let rest = trim_end s in
    if is_whitespace (code c) && is_empty rest then String.[] else String.◌∷◌ c rest

unfoldable pub trim : String → String
trim s = trim_end (trim_start s)

push_front : Char → List String → List String
push_front c [] = String.◌∷◌ c String.[] ∷ []
push_front c (line ∷ lines) = String.◌∷◌ c line ∷ lines

-- `str::split_inclusive('\n')`: each piece ends with its line feed, but for the last.
unfoldable pub split_inclusive : String → List String
unfolding push_front
split_inclusive String.[] = []
split_inclusive (String.◌∷◌ c s) =
    let rest = split_inclusive s in
    if code c == 10 then String.◌∷◌ c String.[] ∷ rest else push_front c rest

-- `str::strip_suffix` of one character.
unfoldable pub strip_last : ℕ → String → Option String
strip_last k String.[] = none
strip_last k (String.◌∷◌ c String.[]) = if code c == k then some String.[] else none
strip_last k (String.◌∷◌ c (String.◌∷◌ d s)) = elim (strip_last k (String.◌∷◌ d s)) [
  | none ↦ none
  | some front ↦ some (String.◌∷◌ c front)
]

-- A piece without its line feed, and then without one carriage return.
unfoldable pub strip_break : String → String
strip_break piece = elim (strip_last 10 piece) [
  | none ↦ piece
  | some line ↦ elim (strip_last 13 line) [ none ↦ line | some front ↦ front ]
]

-- `str::lines`
unfoldable pub split_lines : String → List String
split_lines s = map strip_break (split_inclusive s)

-- `str::split_once` at the first character that passes the test.
unfoldable pub split_once : (ℕ → Bool) → String → Option (String × String)
split_once p String.[] = none
split_once p (String.◌∷◌ c s) =
    let later = split_once p s in
    if p (code c)
    then some (String.[], s)
    else elim later [ none ↦ none | some (front, back) ↦ some (String.◌∷◌ c front, back) ]

-- `str::replace` of one character.
unfoldable pub replace_char : ℕ → String → String → String
replace_char k by String.[] = String.[]
replace_char k by (String.◌∷◌ c s) =
    let rest = replace_char k by s in if code c == k then by ++ rest else String.◌∷◌ c rest

-- The lower-case letters in the places of the upper-case ones.
lower_letters : List (ℕ × Char)
lower_letters =
    (b'A', "a")
    ∷ (b'B', "b")
    ∷ (b'C', "c")
    ∷ (b'D', "d")
    ∷ (b'E', "e")
    ∷ (b'F', "f")
    ∷ (b'G', "g")
    ∷ (b'H', "h")
    ∷ (b'I', "i")
    ∷ (b'J', "j")
    ∷ (b'K', "k")
    ∷ (b'L', "l")
    ∷ (b'M', "m")
    ∷ (b'N', "n")
    ∷ (b'O', "o")
    ∷ (b'P', "p")
    ∷ (b'Q', "q")
    ∷ (b'R', "r")
    ∷ (b'S', "s")
    ∷ (b'T', "t")
    ∷ (b'U', "u")
    ∷ (b'V', "v")
    ∷ (b'W', "w")
    ∷ (b'X', "x")
    ∷ (b'Y', "y")
    ∷ (b'Z', "z")
    ∷ []

char_in : Char → List (ℕ × Char) → Char
char_in c [] = c
char_in c ((upper, lower) ∷ others) =
    let later = char_in c others in if code c == upper then lower else later

-- `str::to_ascii_lowercase`
unfoldable pub to_ascii_lowercase : String → String
unfolding lower_letters char_in
to_ascii_lowercase String.[] = String.[]
to_ascii_lowercase (String.◌∷◌ c s) = String.◌∷◌ (char_in c lower_letters) (to_ascii_lowercase s)

-- The pieces between characters that pass the test.
split_at : (ℕ → Bool) → String → List String
split_at p String.[] = "" ∷ []
split_at p (String.◌∷◌ c s) =
    let rest = split_at p s in
    if p (code c)
    then "" ∷ rest
    else elim rest [ [] ↦ String.◌∷◌ c "" ∷ [] | ◌∷◌ piece pieces ↦ String.◌∷◌ c piece ∷ pieces ]

not_empty : List String → List String
unfolding is_empty
not_empty [] = []
not_empty (piece ∷ pieces) =
    let rest = not_empty pieces in if is_empty piece then rest else piece ∷ rest

-- `str::split_whitespace`
unfoldable pub split_words : String → List String
unfolding split_at not_empty is_whitespace
split_words s = not_empty (split_at is_whitespace s)
