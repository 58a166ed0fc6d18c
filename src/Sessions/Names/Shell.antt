-- ===== src/Sessions/Names/Shell.antt =====
-- `shell_quote` and the quoting rules of a POSIX shell.
use Prim.Native.Char.{Char, code}
use Prim.Native.String
use Prim.Native.String.{◌++◌}
use text.Mathlib.TextEquality.{Char-path}
use codex_shuttle.Prelude.{
  String, ◌≡◌, refl, ap, inl, inr, ◌||◌, Option, none, some, arith, ◌==◌, nat_eq, if◌then◌else◌,
  Bool-cases,
}
use codex_shuttle.Prelude.Strings.{replace_char}
use codex_shuttle.Sessions.Names.{shell_quote}

-- Where a POSIX shell stands in a word: outside quotes, after `'`, or after `"`.
pub data Quoting : Type 0 where
  bare single double : Quoting

prepend : Char → Option String → Option String
prepend c none = none
prepend c (some s) = some (String.◌∷◌ c s)

-- The word that a POSIX shell reads, if nothing in it is expanded: between single quotes every
-- character stands for itself; between double quotes a dollar, a backquote and a backslash do not.
read_word : Quoting → String → Option String
unfolding prepend
read_word bare String.[] = some String.[]
read_word single String.[] = none
read_word double String.[] = none
read_word bare (String.◌∷◌ c s) =
    let in_single = read_word single s in
    let in_double = read_word double s in
    if code c == b'\'' then in_single else if code c == b'"' then in_double else none
read_word single (String.◌∷◌ c s) =
    let closed = read_word bare s in
    let inside = read_word single s in if code c == b'\'' then closed else prepend c inside
read_word double (String.◌∷◌ c s) =
    let closed = read_word bare s in
    let inside = read_word double s in
    if code c == b'"'
    then closed
    else if code c == b'$' || code c == b'`' || code c == b'\\'
    then none
    else prepend c inside

-- A shell's one word that is written as this text.
unfoldable pub shell_word : String → Option String
unfolding read_word
shell_word text = read_word bare text

read_word-replace_char :
    (value : String) → read_word single (replace_char b'\'' "'\"'\"'" value ++ "'") ≡ some value
unfolding read_word replace_char
read_word-replace_char String.[] = refl
read_word-replace_char (String.◌∷◌ c s) = elim (Bool-cases (code c == b'\'')) [
  | inl quote ↦
      rw
        (
          quote,
          String.append.cons,
          String.append.cons,
          String.append.cons,
          String.append.cons,
          String.append.cons,
          String.append.cons,
          String.append.cons,
          String.append.cons,
          String.append.cons,
          String.append.cons,
          String.append.nil,
          read_word-replace_char s,
        )
        (ap (λ d. some (String.◌∷◌ d s)) (Char-path "'" c (ground arith)))
  | inr other ↦ rw (other, String.append.cons, other, read_word-replace_char s) refl
]

-- By the quoting rules of a POSIX shell, as `shell_word` states them, a quoted text is one word that
-- is the text, whatever characters it holds.
pub shell_word-shell_quote : (value : String) → shell_word (shell_quote value) ≡ some value
unfolding shell_word shell_quote
shell_word-shell_quote value =
    rw (String.append.cons, String.append.nil) (read_word-replace_char value)
