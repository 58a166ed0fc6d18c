-- ===== src/Ssh/Snapshot/Parse.antt =====
-- `parse_ssh_g`, key by key.
use text.Mathlib.TextEquality.{eq_iff}
use codex_shuttle.Prelude.{
  ℕ, ◌+◌, String, ◌≡◌, refl, sym, ap, ◌∙◌, inl, inr, Bool, true, false, List, [], ◌∷◌, ◌++◌, Option,
  none, some, arith, ◌==◌, string_eq, if◌then◌else◌, all, all-append, ok, Bool-cases, Option-cases,
  >>=-eq-ok,
}
use codex_shuttle.Prelude.Assoc.{lookup, lookup-insert}
use codex_shuttle.Prelude.Strings.{
  trim, split_lines, split_once, is_whitespace, is_empty, to_ascii_lowercase,
}
use codex_shuttle.Ssh.Quote.{reject_newline}
use codex_shuttle.Ssh.Snapshot.{Values, push, push_value, parse_line, parse_lines, parse_ssh_g}
use codex_shuttle.Ssh.Render.Block.{is_acceptable, reject_newline-eq}

-- A line that is not blank, as a lower-case key and its value; nothing for a line with no blank inside.
unfoldable pub line_entry : String → Option (String × String)
line_entry line = elim (split_once is_whitespace (trim line)) [
  | none ↦ none
  | some (key, rest) ↦
      if is_empty (trim line) then none else some (to_ascii_lowercase key, trim rest)
]

unfoldable pub entry_value : String → Option (String × String) → List String
entry_value asked none = []
entry_value asked (some (key, value)) = if key == asked then value ∷ [] else []

-- The values of one key, in the order of its lines.
unfoldable pub values_of : String → List String → List String
unfolding entry_value
values_of key [] = []
values_of key (line ∷ lines) = entry_value key (line_entry line) ++ values_of key lines

-- What a map holds under a key, with more values at the end.
unfoldable pub extended : Option (List String) → List String → Option (List String)
extended found [] = found
extended none (value ∷ more) = some (value ∷ more)
extended (some items) (value ∷ more) = some (items ++ value ∷ more)

push-append : (value : String) (items : List String) → push value items ≡ items ++ value ∷ []
unfolding push
push-append value [] = refl
push-append value (item ∷ items) = ap (λ rest. item ∷ rest) (push-append value items)

append_assoc : (xs ys zs : List String) → (xs ++ ys) ++ zs ≡ xs ++ (ys ++ zs)
append_assoc [] ys zs = refl
append_assoc (x ∷ xs) ys zs = ap (λ rest. x ∷ rest) (append_assoc xs ys zs)

append_nil : (xs : List String) → xs ++ [] ≡ xs
append_nil [] = refl
append_nil (x ∷ xs) = ap (λ rest. x ∷ rest) (append_nil xs)

extended-append :
    (found : Option (List String)) (first second : List String)
    → extended (extended found first) second ≡ extended found (first ++ second)
unfolding extended
extended-append found [] second = refl
extended-append found (x ∷ xs) [] = rw append_nil refl
extended-append none (x ∷ xs) (y ∷ ys) = refl
extended-append (some items) (x ∷ xs) (y ∷ ys) = ap some (append_assoc items (x ∷ xs) (y ∷ ys))

lookup-push_value :
    (key asked value : String) (values : Values)
    → lookup asked (push_value key value values)
      ≡ extended (lookup asked values) (entry_value asked (some (key, value)))
unfolding extended entry_value push_value
lookup-push_value key asked value values = elim (Bool-cases (key == asked)) [
  | inl same ↦ elim (Option-cases (lookup key values)) [
    | inl absent ↦
        rw
          (
            push_value,
            absent,
            lookup-insert key asked,
            same,
            sym ((eq_iff key asked).0 same),
            absent,
          )
          refl
    | inr (items, present) ↦
        rw
          (
            push_value,
            present,
            lookup-insert key asked,
            same,
            sym ((eq_iff key asked).0 same),
            present,
          )
          (ap some (push-append value items))
  ]
  | inr other ↦ elim (Option-cases (lookup key values)) [
    | inl absent ↦ rw (push_value, absent, lookup-insert key asked, other) refl
    | inr (items, present) ↦ rw (push_value, present, lookup-insert key asked, other) refl
  ]
]

is_empty-split_once :
    (p : ℕ → Bool) (line : String) (pair : String × String)
    → split_once p line ≡ some pair
    → is_empty line ≡ false
unfolding split_once is_empty
is_empty-split_once p String.[] pair h = cc
is_empty-split_once p (String.◌∷◌ c s) pair h = refl

entry-acceptable :
    (asked key value : String) {u : Unit {0}}
    → reject_newline value ≡ ok u
    → all is_acceptable (entry_value asked (some (key, value))) ≡ true
unfolding entry_value
entry-acceptable asked key value h = elim (Bool-cases (is_acceptable value)) [
  | inl good ↦ ground arith
  | inr bad ↦ cc (rw (reject_newline-eq value, bad) at h)
]

-- A line that is read adds its entry, and its value is acceptable.
parse_line-ok :
    (index : ℕ) (line : String) (values given : Values)
    → (if is_empty (trim line) then ok values else parse_line index (trim line) values) ≡ ok given
    → ((asked : String)
        → lookup asked given ≡ extended (lookup asked values) (entry_value asked (line_entry line)))
      × ((asked : String) → all is_acceptable (entry_value asked (line_entry line)) ≡ true)
unfolding parse_line line_entry entry_value extended
parse_line-ok index line values given h =
    elim (Option-cases (split_once is_whitespace (trim line))) [
      | inl absent ↦ elim (Bool-cases (is_empty (trim line))) [
        | inl blank ↦
            let same = rw blank at h in
            rw (line_entry, absent)
              ((λ asked. ap (lookup asked) (ground (arith, same))), λ asked. refl)
        | inr other ↦ cc (rw (parse_line, other, absent) at h)
      ]
      | inr ((key, rest), present) ↦
          let shown = is_empty-split_once is_whitespace (trim line) (key, rest) present in
          let (u, accepted, same) =
            >>=-eq-ok (reject_newline (trim rest))
              (λ _. ok (push_value (to_ascii_lowercase key) (trim rest) values))
              (rw (parse_line, shown, present) at h) in
          rw (line_entry, present, shown)
            (
              (λ asked.
                  ap (lookup asked) (ground (arith, same))
                  ∙ lookup-push_value (to_ascii_lowercase key) asked (trim rest) values),
              λ asked. entry-acceptable asked (to_ascii_lowercase key) (trim rest) accepted,
            )
    ]

parse_lines-ok :
    (index : ℕ) (lines : List String) (values given : Values)
    → parse_lines index lines values ≡ ok given
    → ((asked : String)
        → lookup asked given ≡ extended (lookup asked values) (values_of asked lines))
      × ((asked : String) → all is_acceptable (values_of asked lines) ≡ true)
unfolding parse_lines values_of extended
parse_lines-ok index [] values given h =
    ((λ asked. ap (lookup asked) (ground arith)), λ asked. refl)
parse_lines-ok index (line ∷ lines) values given h =
    let (middle, first, rest) =
      >>=-eq-ok (if is_empty (trim line) then ok values else parse_line index (trim line) values)
        (λ values'. parse_lines (index + 1) lines values') h in
    let (found, good) = parse_line-ok index line values middle first in
    let (found', good') = parse_lines-ok (index + 1) lines middle given rest in
    (
      (λ asked.
          found' asked
          ∙ rw (found asked) (extended-append _ (entry_value asked (line_entry line)) _)),
      λ asked. rw (all-append, good asked, good' asked) refl,
    )

-- `values_of`, or nothing where the key has no line.
unfoldable pub listed : List String → Option (List String)
listed [] = none
listed (value ∷ more) = some (value ∷ more)

extended-none : (values : List String) → extended none values ≡ listed values
unfolding extended listed
extended-none [] = refl
extended-none (value ∷ more) = refl

-- Whatever `parse_ssh_g` accepts, it maps each key, in lower case, to the trimmed values of all lines
-- with that key, in their order, and holds no key without a line; no value holds a forbidden
-- character.
pub parse_ssh_g-values_of :
    (text : String) (given : Values) (key : String)
    → parse_ssh_g text ≡ ok given
    → (lookup key given ≡ listed (values_of key (split_lines text)))
      × (all is_acceptable (values_of key (split_lines text)) ≡ true)
unfolding parse_ssh_g lookup
parse_ssh_g-values_of text given key h =
    let (found, good) = parse_lines-ok 0 (split_lines text) [] given h in
    (found key ∙ extended-none (values_of key (split_lines text)), good key)
