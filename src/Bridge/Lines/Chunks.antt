-- ===== src/Bridge/Lines/Chunks.antt =====
-- `read_bounded_line` and the division of a stream into buffers.
use mathlib.Core.List.{append-nil, append_assoc}
use codex_shuttle.Prelude.{
  ℕ, ◌+◌, ◌≤◌, ◌<◌, ◌≡◌, refl, sym, ap, ◌∙◌, inl, inr, false, List, [], ◌∷◌, ◌++◌, Option, none,
  some, arith, nat_eq, ltb, if◌then◌else◌, length, length-append, ok, err, All, Bool-cases,
  Option-cases,
}
use codex_shuttle.Bridge.Errors.{Fallible, line_too_long}
use codex_shuttle.Bridge.Lines.{
  newline, cut, pop, ends_in_cr, trim_line, at_end, put_back, read_line, read_bounded_line,
  write_line,
}

abbrev pub join : List (List ℕ) → List ℕ
join [] = []
join (c ∷ cs) = c ++ join cs

-- A last line with no newline.
abbrev pub unended : List ℕ → Option (List ℕ)
unended [] = none
unended (b ∷ bs) = some (b ∷ bs)

-- The same by the bytes alone: the line that a stream of these bytes begins with, and what is left.
unfoldable pub first_line : ℕ → List ℕ → Fallible (Option (List ℕ) × List ℕ)
first_line maximum bs = elim (cut bs) [
  | none ↦ if ltb maximum (length bs) then err (line_too_long maximum) else ok (unended bs, [])
  | some (head, rest) ↦
      if ltb maximum (length head)
      then err (line_too_long maximum)
      else ok (some (trim_line head), rest)
]

-- The result over buffers, seen as bytes.
abbrev pub flat : Fallible (Option (List ℕ) × List (List ℕ)) → Fallible (Option (List ℕ) × List ℕ)
flat (ok (line, rest)) = ok (line, join rest)
flat (err e) = err e

abbrev behind : List ℕ → Option (List ℕ × List ℕ) → Option (List ℕ × List ℕ)
behind xs none = none
behind xs (some (head, rest)) = some (xs ++ head, rest)

cut-append : (xs ys : List ℕ) → cut xs ≡ none → cut (xs ++ ys) ≡ behind xs (cut ys)
unfolding cut
cut-append [] ys h = ground arith
cut-append (x ∷ xs) ys h = ground (arith, cut-append xs ys)

abbrev tail_of : List ℕ → List ℕ
tail_of [] = []
tail_of (x ∷ xs) = xs

cut-append_some :
    (xs ys head rest : List ℕ)
    → cut xs ≡ some (head, rest)
    → cut (xs ++ ys) ≡ some (head, rest ++ ys)
unfolding cut
cut-append_some [] ys head rest h = cc
cut-append_some (x ∷ xs) ys head rest h = ground (arith, cut-append_some xs ys (tail_of head) rest)

join-put_back :
    (left : List ℕ) (rest : List (List ℕ)) → join (put_back left rest) ≡ left ++ join rest
unfolding put_back
join-put_back [] rest = refl
join-put_back (b ∷ bs) rest = refl

first_line-none :
    (maximum : ℕ) (bs : List ℕ)
    → cut bs ≡ none
    → length bs ≤ maximum
    → first_line maximum bs ≡ ok (unended bs, [])
unfolding first_line
first_line-none maximum bs h k = rw (h, first_line) (ground arith)

first_line-some :
    (maximum : ℕ) (bs head rest : List ℕ)
    → cut bs ≡ some (head, rest)
    → first_line maximum bs ≡ (
        if ltb maximum (length head)
        then err (line_too_long maximum)
        else ok (some (trim_line head), rest))
unfolding first_line
first_line-some maximum bs head rest h = rw (h, first_line)

-- A prefix with no newline that is too long by itself makes the line too long.
first_line_long :
    (maximum : ℕ) (xs ys : List ℕ)
    → cut xs ≡ none
    → maximum < length xs
    → first_line maximum (xs ++ ys) ≡ err (line_too_long maximum)
unfolding first_line
first_line_long maximum xs ys h k = elim (Option-cases (cut ys)) [
  | inl e ↦
      let c : cut (xs ++ ys) ≡ none = cut-append xs ys h ∙ ap (behind xs) e in
      rw (c, first_line) (ground (arith, length-append xs ys))
  | inr ((head, rest), e) ↦
      let c : cut (xs ++ ys) ≡ some (xs ++ head, rest) = cut-append xs ys h ∙ ap (behind xs) e in
      first_line-some maximum (xs ++ ys) (xs ++ head) rest c ∙ ground (arith, length-append xs head)
]

-- A buffer as `fill_buf` returns it before the end of the stream.
abbrev pub IsFilled : List ℕ → Type 0
IsFilled [] = ⊥
IsFilled (b ∷ bs) = Unit {0}

flat-at_end : (line : List ℕ) → flat (at_end line []) ≡ ok (unended line, [])
unfolding at_end
flat-at_end [] = refl
flat-at_end (b ∷ bs) = refl

module _ (maximum b : ℕ) (bs : List ℕ) (rest : List (List ℕ)) (line : List ℕ) where
  read_line-none :
      cut (b ∷ bs) ≡ none
      → read_line maximum ((b ∷ bs) ∷ rest) line ≡ (
          if ltb maximum (length line + length (b ∷ bs))
          then err (line_too_long maximum)
          else read_line maximum rest (line ++ b ∷ bs))
  unfolding read_line
  read_line-none e = rw (e, read_line)

  read_line-some :
      (head left : List ℕ)
      → cut (b ∷ bs) ≡ some (head, left)
      → read_line maximum ((b ∷ bs) ∷ rest) line ≡ (
          if ltb maximum (length line + length head)
          then err (line_too_long maximum)
          else ok (some (trim_line (line ++ head)), put_back left rest))
  unfolding read_line
  read_line-some head left e = rw (e, read_line)

flat-read_line :
    (maximum : ℕ) (reader : List (List ℕ)) (line : List ℕ)
    → All IsFilled reader
    → cut line ≡ none
    → length line ≤ maximum
    → flat (read_line maximum reader line) ≡ first_line maximum (line ++ join reader)
unfolding read_line
flat-read_line maximum [] line f n k =
    flat-at_end line
    ∙ sym (ap (first_line maximum) (append-nil line) ∙ first_line-none maximum line n k)
flat-read_line maximum ([] ∷ rest) line f n k = absurd f.0
flat-read_line maximum ((b ∷ bs) ∷ rest) line (_, f) n k = elim (Option-cases (cut (b ∷ bs))) [
  | inl e ↦
      let joined : cut (line ++ b ∷ bs) ≡ none = cut-append line (b ∷ bs) n ∙ ap (behind line) e in
      let size = length-append line (b ∷ bs) in
      ap flat (read_line-none maximum b bs rest line e)
      ∙ elim (Bool-cases (ltb maximum (length line + length (b ∷ bs)))) [
        | inl long ↦ rw long (
            sym (
              ap (first_line maximum) (sym (append_assoc line (b ∷ bs) (join rest)))
              ∙ first_line_long maximum (line ++ b ∷ bs) (join rest) joined (ground arith)))
        | inr short ↦ rw short (
            flat-read_line maximum rest (line ++ b ∷ bs) f joined (ground arith)
            ∙ ap (first_line maximum) (append_assoc line (b ∷ bs) (join rest)))
      ]
  | inr ((head, left), e) ↦
      let cut_all : cut (line ++ join ((b ∷ bs) ∷ rest)) ≡ some (line ++ head, left ++ join rest) =
        cut-append line (join ((b ∷ bs) ∷ rest)) n
        ∙ ap (behind line) (cut-append_some (b ∷ bs) (join rest) head left e) in
      ap flat (read_line-some maximum b bs rest line head left e)
      ∙ ground (
        arith,
        length-append line head,
        join-put_back left rest,
        first_line-some maximum (line ++ join ((b ∷ bs) ∷ rest)) (line ++ head) (left ++ join rest)
            cut_all,
      )
]

-- However the stream is cut into buffers, `read_bounded_line` returns the line, the error or the end
-- that the bytes alone determine, and leaves exactly the bytes behind it for the next call.
pub read_bounded_line-first_line :
    (maximum : ℕ) (reader : List (List ℕ))
    → All IsFilled reader
    → flat (read_bounded_line maximum reader) ≡ first_line maximum (join reader)
unfolding read_bounded_line
read_bounded_line-first_line maximum reader f =
    flat-read_line maximum reader [] f (unfold cut in refl) (omega arith)

cut-newline : (rest : List ℕ) → cut (newline ∷ rest) ≡ some (newline ∷ [], rest)
unfolding cut
cut-newline rest = refl

cut-line :
    (l rest : List ℕ) → cut l ≡ none → cut (l ++ newline ∷ rest) ≡ some (l ++ newline ∷ [], rest)
cut-line l rest h = cut-append l (newline ∷ rest) h ∙ ap (behind l) (cut-newline rest)

pop-append : (l : List ℕ) (b : ℕ) → pop (l ++ b ∷ []) ≡ l
unfolding pop
pop-append [] b = refl
pop-append (x ∷ []) b = refl
pop-append (x ∷ y ∷ l) b = ap (◌∷◌ x) (pop-append (y ∷ l) b)

trim_line-newline : (l : List ℕ) → ends_in_cr l ≡ false → trim_line (l ++ newline ∷ []) ≡ l
unfolding trim_line
trim_line-newline l h = rw (pop-append l newline) (rw h)

-- A line that `write_line` has written is read back as it was, and the rest of the stream is left
-- for the next call, if it has no newline, does not end in a carriage return and is shorter than the
-- limit.
pub read_bounded_line-write_line :
    (maximum : ℕ) (reader : List (List ℕ)) (l rest : List ℕ)
    → All IsFilled reader
    → join reader ≡ write_line l ++ rest
    → cut l ≡ none
    → ends_in_cr l ≡ false
    → length l < maximum
    → flat (read_bounded_line maximum reader) ≡ ok (some l, rest)
unfolding write_line
read_bounded_line-write_line maximum reader l rest f same n cr short =
    read_bounded_line-first_line maximum reader f
    ∙ ap (first_line maximum) (same ∙ append_assoc l (newline ∷ []) rest)
    ∙ first_line-some maximum (l ++ newline ∷ rest) (l ++ newline ∷ []) rest (cut-line l rest n)
    ∙ ground (arith, length-append l (newline ∷ []), trim_line-newline l cr)
