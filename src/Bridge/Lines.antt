-- ===== src/Bridge/Lines.antt =====
-- crates/cxs-bridge/src/lib.rs: `read_bounded_line` and `write_line`. A reader is the list of buffers
-- that `fill_buf` will return, an empty one or none at the end of the stream.
pub mod Chunks
use codex_shuttle.Prelude.{
  ℕ, ◌+◌, Bool, true, false, List, [], ◌∷◌, ◌++◌, Option, none, some, ◌==◌, nat_eq, ltb,
  if◌then◌else◌, length, ok, err,
}
use codex_shuttle.Bridge.Errors.{Fallible, line_too_long}

abbrev pub newline : ℕ
newline = 10

-- The bytes up to the first newline, that newline included, and the bytes after it.
unfoldable pub cut : List ℕ → Option (List ℕ × List ℕ)
cut [] = none
cut (b ∷ bs) =
    let later = cut bs in
    if b == newline
    then some (b ∷ [], bs)
    else elim later [ none ↦ none | some (head, rest) ↦ some (b ∷ head, rest) ]

-- `Vec::pop`
unfoldable pub pop : List ℕ → List ℕ
pop [] = []
pop (b ∷ []) = []
pop (b ∷ c ∷ bs) = b ∷ pop (c ∷ bs)

unfoldable pub ends_in_cr : List ℕ → Bool
ends_in_cr [] = false
ends_in_cr (b ∷ []) = b == 13
ends_in_cr (b ∷ c ∷ bs) = ends_in_cr (c ∷ bs)

-- The newline goes, and then one carriage return.
unfoldable pub trim_line : List ℕ → List ℕ
unfolding pop ends_in_cr
trim_line line = let line' = pop line in if ends_in_cr line' then pop line' else line'

unfoldable pub at_end : List ℕ → List (List ℕ) → Fallible (Option (List ℕ) × List (List ℕ))
at_end [] rest = ok (none, rest)
at_end (b ∷ bs) rest = ok (some (b ∷ bs), rest)

-- What `consume` leaves of a buffer is the next buffer.
unfoldable pub put_back : List ℕ → List (List ℕ) → List (List ℕ)
put_back [] rest = rest
put_back (b ∷ bs) rest = (b ∷ bs) ∷ rest

-- The loop, with the bytes that `line` holds so far.
unfoldable pub read_line : ℕ → List (List ℕ) → List ℕ → Fallible (Option (List ℕ) × List (List ℕ))
unfolding cut trim_line at_end put_back
read_line maximum [] line = at_end line []
read_line maximum ([] ∷ rest) line = at_end line rest
read_line maximum ((b ∷ bs) ∷ rest) line = elim (cut (b ∷ bs)) [
  | none ↦
      if ltb maximum (length line + length (b ∷ bs))
      then err (line_too_long maximum)
      else read_line maximum rest (line ++ b ∷ bs)
  | some (head, left) ↦
      if ltb maximum (length line + length head)
      then err (line_too_long maximum)
      else ok (some (trim_line (line ++ head)), put_back left rest)
]

unfoldable pub read_bounded_line : ℕ → List (List ℕ) → Fallible (Option (List ℕ) × List (List ℕ))
unfolding read_line
read_bounded_line maximum reader = read_line maximum reader []

-- The bytes that `write_line` puts on the stream.
unfoldable pub write_line : List ℕ → List ℕ
write_line line = line ++ newline ∷ []
