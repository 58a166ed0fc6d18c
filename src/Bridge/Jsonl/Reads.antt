-- ===== src/Bridge/Jsonl/Reads.antt =====
-- crates/cxs-bridge/src/lib.rs: the two reads of `relay_jsonl` that its `select!` runs side by side.
-- A read holds the part of its line that it has consumed; when the other read returns first, `select!`
-- drops it with that part, and the next turn starts both anew. The end of a stream is not part of it.
use codex_shuttle.Prelude.{
  ℕ, ◌+◌, ◌≡◌, refl, sym, ap, ◌∙◌, inl, inr, Bool, true, false, ◌&&◌, List, [], ◌∷◌, ◌++◌, Option,
  none, some, ltb, length, map, arith, if◌then◌else◌, Bool-cases, ok, err, ◌>>=◌, >>=-eq-ok, subst,
}
use mathlib.Core.List.{append-nil, append_assoc}
use codex_shuttle.Bridge.Errors.{Fallible, line_too_long}
use codex_shuttle.Bridge.Lines.{trim_line}

pub data Side : Type 0 where
  client server : Side

-- What a read consumes of one buffer: all of it, or a line's end with its newline.
pub data Taken : Type 0 where
  part line_end : Side → List ℕ → Taken

-- The local `line` of the two reads.
pub record Reads : Type 0 where
  pub client_line : List ℕ
  pub server_line : List ℕ

abbrev pub no_reads : Reads
no_reads = record { client_line = []; server_line = [] }

unfoldable pub line_of : Side → Reads → List ℕ
line_of client reads = reads.client_line
line_of server reads = reads.server_line

unfoldable pub with_line : Side → List ℕ → Reads → Reads
with_line client line reads = record reads { client_line = line }
with_line server line reads = record reads { server_line = line }

-- What a read returns, if it does, and the reads afterwards.
unfoldable pub take : ℕ → Taken → Reads → Fallible (Option (Side × List ℕ) × Reads)
unfolding line_of with_line trim_line
take maximum (part side bs) reads =
    let line = line_of side reads in
    if ltb maximum (length line + length bs)
    then err (line_too_long maximum)
    else ok (none, with_line side (line ++ bs) reads)
take maximum (line_end side bs) reads =
    let line = line_of side reads in
    if ltb maximum (length line + length bs)
    then err (line_too_long maximum)
    else ok (some (side, trim_line (line ++ bs)), no_reads)

unfoldable pub add_found : Option (Side × List ℕ) → List (Side × List ℕ) → List (Side × List ℕ)
add_found none more = more
add_found (some found) more = found ∷ more

-- The lines that the turns of the loop get, one after another.
unfoldable pub lines_read : ℕ → List Taken → Reads → Fallible (List (Side × List ℕ) × Reads)
unfolding take add_found
lines_read maximum [] reads = ok ([], reads)
lines_read maximum (taken ∷ others) reads = do
  (found, next) ← take maximum taken reads
  (more, last) ← lines_read maximum others next
  ok (add_found found more, last)

-- The client's lines among those that are returned, and the client's bytes among those taken.
abbrev pub client_lines : List (Side × List ℕ) → List (List ℕ)
client_lines [] = []
client_lines ((client, line) ∷ more) = line ∷ client_lines more
client_lines ((server, line) ∷ more) = client_lines more

abbrev pub client_bytes : List Taken → List ℕ
client_bytes [] = []
client_bytes (part client bs ∷ others) = bs ++ client_bytes others
client_bytes (line_end client bs ∷ others) = bs ++ client_bytes others
client_bytes (part server bs ∷ others) = client_bytes others
client_bytes (line_end server bs ∷ others) = client_bytes others

abbrev pub concat : List (List ℕ) → List ℕ
concat [] = []
concat (bs ∷ more) = bs ++ concat more

abbrev pub is_nil : List ℕ → Bool
is_nil [] = true
is_nil (b ∷ bs) = false

-- No line of the server is completed while the client's read holds a part of a line.
abbrev pub uninterrupted : List ℕ → List Taken → Bool
uninterrupted line [] = true
uninterrupted line (part client bs ∷ others) = uninterrupted (line ++ bs) others
uninterrupted line (line_end client bs ∷ others) = uninterrupted [] others
uninterrupted line (part server bs ∷ others) = uninterrupted line others
uninterrupted line (line_end server bs ∷ others) = is_nil line && uninterrupted [] others

take-ok :
    (maximum : ℕ) (taken : Taken) (reads next : Reads) (found : Option (Side × List ℕ))
    → take maximum taken reads ≡ ok (found, next)
    → Path
        (Option (Side × List ℕ) × Reads)
        (found, next)
        (elim taken [
          | part side bs ↦ (none, with_line side (line_of side reads ++ bs) reads)
          | line_end side bs ↦ (some (side, trim_line (line_of side reads ++ bs)), no_reads)
        ])
unfolding take
take-ok maximum (part side bs) reads next found h =
    elim (Bool-cases (ltb maximum (length (line_of side reads) + length bs))) [
      | inl long ↦ cc (rw (take, long) at h)
      | inr fits ↦ cc (rw (take, fits) at h)
    ]
take-ok maximum (line_end side bs) reads next found h =
    elim (Bool-cases (ltb maximum (length (line_of side reads) + length bs))) [
      | inl long ↦ cc (rw (take, long) at h)
      | inr fits ↦ cc (rw (take, fits) at h)
    ]

-- The client's lines as they were taken, with their ends, and what the running read holds.
abbrev pub ReadsAll : List ℕ → List Taken → List (Side × List ℕ) → Reads → Type 0
ReadsAll line taken found last =
    (ends : List (List ℕ)) × (client_lines found ≡ map trim_line ends)
    × (concat ends ++ last.client_line ≡ line ++ client_bytes taken)

pair_inj :
    {a b : List (Side × List ℕ)} {c d : Reads}
    → ◌≡◌ {A = Fallible (List (Side × List ℕ) × Reads)} (ok (a, c)) (ok (b, d))
    → Path (List (Side × List ℕ) × Reads) (a, c) (b, d)
pair_inj h = ground arith

is_nil-eq : (line : List ℕ) → is_nil line ≡ true → line ≡ []
is_nil-eq [] h = refl
is_nil-eq (b ∷ bs) h = cc

-- One turn more.
turn-ReadsAll :
    (taken : Taken) (others : List Taken) (reads next last : Reads) (found : Option (Side × List ℕ))
    (more : List (Side × List ℕ))
    → Path
        (Option (Side × List ℕ) × Reads)
        (found, next)
        (elim taken [
          | part side bs ↦ (none, with_line side (line_of side reads ++ bs) reads)
          | line_end side bs ↦ (some (side, trim_line (line_of side reads ++ bs)), no_reads)
        ])
    → uninterrupted reads.client_line (taken ∷ others) ≡ true
    → (uninterrupted next.client_line others ≡ true → ReadsAll next.client_line others more last)
    → ReadsAll reads.client_line (taken ∷ others) (add_found found more) last
unfolding add_found with_line line_of
turn-ReadsAll (part client bs) others reads next last found more e quiet rest =
    let now = ap (λ p. p.1) e in
    let (ends, lines, bytes) =
      rest (ap (λ (r : Reads). uninterrupted r.client_line others) now ∙ quiet) in
    subst (λ f. ReadsAll reads.client_line (part client bs ∷ others) (add_found f more) last)
      (sym (ap (λ p. p.0) e))
      (
        ends,
        lines,
        bytes
            ∙ ap (λ (r : Reads). r.client_line ++ client_bytes others) now
            ∙ append_assoc reads.client_line bs (client_bytes others),
      )
turn-ReadsAll (line_end client bs) others reads next last found more e quiet rest =
    let now = ap (λ p. p.1) e in
    let (ends, lines, bytes) =
      rest (ap (λ (r : Reads). uninterrupted r.client_line others) now ∙ quiet) in
    subst (λ f. ReadsAll reads.client_line (line_end client bs ∷ others) (add_found f more) last)
      (sym (ap (λ p. p.0) e))
      (
        (reads.client_line ++ bs) ∷ ends,
        ap (λ ls. trim_line (reads.client_line ++ bs) ∷ ls) lines,
        append_assoc (reads.client_line ++ bs) (concat ends) last.client_line
            ∙ ap (λ x. (reads.client_line ++ bs) ++ x)
                (bytes ∙ ap (λ (r : Reads). r.client_line ++ client_bytes others) now)
            ∙ append_assoc reads.client_line bs (client_bytes others),
      )
turn-ReadsAll (part server bs) others reads next last found more e quiet rest =
    let now = ap (λ p. p.1) e in
    let (ends, lines, bytes) =
      rest (ap (λ (r : Reads). uninterrupted r.client_line others) now ∙ quiet) in
    subst (λ f. ReadsAll reads.client_line (part server bs ∷ others) (add_found f more) last)
      (sym (ap (λ p. p.0) e))
      (ends, lines, bytes ∙ ap (λ (r : Reads). r.client_line ++ client_bytes others) now)
turn-ReadsAll (line_end server bs) others reads next last found more e quiet rest =
    let now = ap (λ p. p.1) e in
    let empty : reads.client_line ≡ [] = is_nil-eq reads.client_line (ground (arith, quiet)) in
    let (ends, lines, bytes) =
      rest (ap (λ (r : Reads). uninterrupted r.client_line others) now ∙ ground (arith, quiet)) in
    subst (λ f. ReadsAll reads.client_line (line_end server bs ∷ others) (add_found f more) last)
      (sym (ap (λ p. p.0) e))
      (
        ends,
        lines,
        bytes
            ∙ ap (λ (r : Reads). r.client_line ++ client_bytes others) now
            ∙ ap (λ x. x ++ client_bytes others) (sym empty),
      )

-- As long as no line of the server is completed while the client's read holds a part of a line, the
-- lines that the loop gets from the client are, with their ends, exactly the bytes that were taken from
-- the client, in their order, up to the part that the running read holds.
pub lines_read-ReadsAll :
    (maximum : ℕ) (taken : List Taken) (reads last : Reads) (found : List (Side × List ℕ))
    → uninterrupted reads.client_line taken ≡ true
    → lines_read maximum taken reads ≡ ok (found, last)
    → ReadsAll reads.client_line taken found last
unfolding lines_read
lines_read-ReadsAll maximum [] reads last found quiet h =
    let same = pair_inj h in
    subst (λ (p : List (Side × List ℕ) × Reads). ReadsAll reads.client_line [] p.0 p.1) same
      ([], refl, sym (append-nil reads.client_line))
lines_read-ReadsAll maximum (first ∷ others) reads last found quiet h =
    let (now, taken_now, h₁) = >>=-eq-ok (take maximum first reads) _ h in
    let (rest, later, h₂) = >>=-eq-ok (lines_read maximum others now.1) _ h₁ in
    subst
      (λ (p : List (Side × List ℕ) × Reads). ReadsAll reads.client_line (first ∷ others) p.0 p.1)
      (pair_inj h₂)
      (turn-ReadsAll first others reads now.1 rest.1 now.0 rest.0
        (take-ok maximum first reads now.1 now.0 taken_now) quiet
        (λ still. lines_read-ReadsAll maximum others now.1 rest.1 rest.0 still later))
