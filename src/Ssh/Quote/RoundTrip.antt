-- ===== src/Ssh/Quote/RoundTrip.antt =====
-- `quote_value` and the reading of one argument.
use Prim.Native.Char.{Char, code}
use Prim.Native.String
use Prim.Native.String.{◌++◌}
use text.Mathlib.TextEquality.{Char-path}
use codex_shuttle.Prelude.{
  ℕ, ◌≤◌, String, ◌≡◌, ◌≢◌, refl, sym, ap, subst, ◌∙◌, inl, inr, Bool, true, false, ◌||◌, Option,
  none, some, arith, ◌==◌, nat_eq, if◌then◌else◌, List, [], ◌∷◌, any, all, ok, Bool-cases,
  >>=-eq-ok,
}
use codex_shuttle.Prelude.Text.{bytes}
use codex_shuttle.Prelude.Strings.{codes, replace_char, is_empty}
use codex_shuttle.Prelude.Strings.Bytes.{any-bytes, all-bytes}
use codex_shuttle.Prelude.Strings.Lines.{IsLine, IsLine-append, is_break}
use codex_shuttle.Core.Names.{is_ascii_whitespace}
use codex_shuttle.Ssh.Quote.{is_forbidden, reject_newline, is_plain, quoted, quote_value}

prepend : Char → Option String → Option String
prepend c none = none
prepend c (some s) = some (String.◌∷◌ c s)

-- The reading of a text behind its opening quote: a backslash takes a quote or a backslash as it stands,
-- and the closing quote is the last character. The flag says that a backslash was read.
read_quoted : Bool → String → Option String
unfolding prepend is_empty
read_quoted escaped String.[] = none
read_quoted true (String.◌∷◌ c s) =
    let later = read_quoted false s in
    if code c == b'"' || code c == b'\\' then prepend c later else none
read_quoted false (String.◌∷◌ c s) =
    let escaped = read_quoted true s in
    let later = read_quoted false s in
    if code c == b'\\'
    then escaped
    else if code c == b'"'
    then (if is_empty s then some "" else none)
    else prepend c later

-- What a bare word may not hold: it would end the word, or quote or escape.
is_special : ℕ → Bool
is_special c = c == 32 || c == 9 || c == b'"' || c == b'\'' || c == b'\\' || c == b'#'

read_bare : String → Option String
unfolding prepend is_special
read_bare String.[] = some String.[]
read_bare (String.◌∷◌ c s) =
    let rest = read_bare s in if is_special (code c) then none else prepend c rest

-- The one argument that a text stands for: a text in double quotes, or a bare word that is not empty.
unfoldable pub read_argument : String → Option String
unfolding read_quoted read_bare
read_argument String.[] = none
read_argument (String.◌∷◌ c s) =
    let quoted_text = read_quoted false s in
    let bare = read_bare (String.◌∷◌ c s) in if code c == b'"' then quoted_text else bare

-- No single quote stands in the text.
abbrev pub IsUnquoted : String → Type 0
IsUnquoted value = any (λ c. c == b'\'') (codes value) ≡ false

abbrev escape : String → String
escape value = replace_char b'"' "\\\"" (replace_char b'\\' "\\\\" value)

read_quoted-escape : (value : String) → read_quoted false (escape value ++ "\"") ≡ some value
unfolding read_quoted replace_char
read_quoted-escape String.[] = refl
read_quoted-escape (String.◌∷◌ c s) = elim (Bool-cases (code c == b'\\')) [
  | inl slash ↦
      rw
        (
          slash,
          String.append.cons,
          String.append.cons,
          String.append.cons,
          String.append.nil,
          String.append.cons,
          read_quoted-escape s,
        )
        (ap (λ d. some (String.◌∷◌ d s)) (Char-path "\\" c (ground arith)))
  | inr other ↦ elim (Bool-cases (code c == b'"')) [
    | inl quote ↦
        rw
          (
            other,
            quote,
            String.append.cons,
            String.append.cons,
            String.append.cons,
            String.append.nil,
            String.append.cons,
            read_quoted-escape s,
          )
          (ap (λ d. some (String.◌∷◌ d s)) (Char-path "\"" c (ground arith)))
    | inr plain ↦ rw (other, plain, String.append.cons, other, plain, read_quoted-escape s) refl
  ]
]

is_plain-high : (b : ℕ) → 128 ≤ b → is_plain b ≡ true
unfolding is_plain is_ascii_whitespace
is_plain-high b h = ground arith

is_forbidden-high : (b : ℕ) → 128 ≤ b → is_forbidden b ≡ false
unfolding is_forbidden
is_forbidden-high b h = ground arith

forbidden-break : (c : ℕ) → is_forbidden c ≡ false → is_break c ≡ false
unfolding is_forbidden
forbidden-break c h = ground arith

any-weaken :
    (p q : ℕ → Bool)
    → ((c : ℕ) → p c ≡ false → q c ≡ false)
    → (cs : List ℕ) → any p cs ≡ false
    → any q cs ≡ false
any-weaken p q f [] h = refl
any-weaken p q f (c ∷ cs) h = rw (f c (ground arith), any-weaken p q f cs (ground arith)) refl

-- A value that `reject_newline` accepts stands on one line.
pub reject_newline-IsLine : (value : String) → reject_newline value ≡ ok tt → IsLine value
unfolding reject_newline
reject_newline-IsLine value h =
    any-weaken is_forbidden is_break forbidden-break (codes value)
      (sym (any-bytes is_forbidden is_forbidden-high value) ∙ ground arith)

pub replace_char-IsLine :
    (k : ℕ) (by s : String) → IsLine by → IsLine s → IsLine (replace_char k by s)
unfolding replace_char codes
replace_char-IsLine k by String.[] h hs = refl
replace_char-IsLine k by (String.◌∷◌ c s) h hs = elim (Bool-cases (code c == k)) [
  | inl same ↦ rw same (IsLine-append by _ h (replace_char-IsLine k by s h (ground arith)))
  | inr other ↦ rw (other, replace_char-IsLine k by s h (ground arith)) (ground arith)
]

pub quoted-IsLine : (value : String) → IsLine value → IsLine (quoted value)
unfolding quoted codes
quoted-IsLine value h = elim (Bool-cases (all is_plain (bytes value))) [
  | inl plain ↦ rw plain h
  | inr other ↦ rw other (
      IsLine-append "\"" (escape value ++ "\"") refl (
        IsLine-append (escape value) "\""
          (replace_char-IsLine b'"' _ _ refl (replace_char-IsLine b'\\' _ _ refl h)) refl))
]

plain_word :
    (c : Char) (s : String)
    → all is_plain (codes (String.◌∷◌ c s)) ≡ true
    → IsUnquoted (String.◌∷◌ c s)
    → (is_special (code c) ≡ false)
      × ((code c == b'"') ≡ false)
      × (all is_plain (codes s) ≡ true)
      × IsUnquoted s
unfolding codes is_plain is_special is_ascii_whitespace
plain_word c s h k = (ground arith, ground arith, ground arith, ground arith)

read_bare-plain :
    (value : String)
    → all is_plain (codes value) ≡ true
    → IsUnquoted value
    → read_bare value ≡ some value
unfolding read_bare
read_bare-plain String.[] h k = refl
read_bare-plain (String.◌∷◌ c s) h k =
    let (ordinary, bare, rest, others) = plain_word c s h k in
    rw (read_bare, ordinary, read_bare-plain s rest others) refl

other_branch : (b : Bool) (x y : Option String) → b ≡ false → (if b then x else y) ≡ y
other_branch true x y h = cc
other_branch false x y h = refl

read_argument-plain :
    (value : String)
    → all is_plain (codes value) ≡ true
    → IsUnquoted value
    → value ≢ ""
    → read_argument value ≡ some value
unfolding read_argument
read_argument-plain String.[] h k n = elim (n refl) [ ]
read_argument-plain (String.◌∷◌ c s) h k n =
    let (ordinary, bare, rest, others) = plain_word c s h k in
    other_branch _ _ _ bare ∙ read_bare-plain (String.◌∷◌ c s) h k

read_argument-quoted :
    (value : String) → IsUnquoted value → value ≢ "" → read_argument (quoted value) ≡ some value
unfolding quoted read_argument
read_argument-quoted value k n = elim (Bool-cases (all is_plain (bytes value))) [
  | inl plain ↦
      rw (quoted, plain)
        (read_argument-plain value (sym (all-bytes is_plain is_plain-high value) ∙ plain) k n)
  | inr other ↦ rw (quoted, other, String.append.cons, String.append.nil) (read_quoted-escape value)
]

-- A value that `quote_value` accepts is written on one line, and, unless it is empty or holds a single
-- quote, it is read back from there as that one argument by `read_argument`, which takes a text in
-- double quotes with its escapes, or a bare word without blanks, quotes, backslashes and `#`.
pub read_argument-quote_value :
    (value written : String)
    → value ≢ ""
    → IsUnquoted value
    → quote_value value ≡ ok written
    → IsLine written × (read_argument written ≡ some value)
unfolding quote_value
read_argument-quote_value value written n k h =
    let (u, accepted, same) = >>=-eq-ok (reject_newline value) _ h in
    let written_eq : quoted value ≡ written = ground arith in
    subst (λ t. IsLine t × (read_argument t ≡ some value)) written_eq
      (quoted-IsLine value (reject_newline-IsLine value accepted), read_argument-quoted value k n)
