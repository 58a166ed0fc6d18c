-- ===== src/Ssh/Render/Block.antt =====
-- The block that one profile has in the managed SSH configuration, as a list of lines, and the
-- lemmas that carry each step of `render_host` to its lines.
use Prim.Native.String.{◌++◌}
use text.Mathlib.TextLemmas.{append_assoc, append-nil}
use codex_shuttle.Prelude.{
  String, ◌≡◌, refl, sym, inl, inr, Bool, not, List, [], ◌∷◌, ◌++◌ as list_append, Option, none,
  some, map, arith, ◌==◌, string_eq, if◌then◌else◌, any, all, all-append, All, Result, ok, err,
  ◌>>=◌, Bool-cases, Option-cases,
}
use codex_shuttle.Prelude.Assoc.{lookup}
use codex_shuttle.Prelude.Text.{bytes}
use codex_shuttle.Prelude.Strings.Lines.{unlines, unlines-append}
use codex_shuttle.Ssh.{SshError, forbidden_control_character}
use codex_shuttle.Ssh.Quote.{is_forbidden, reject_newline, quoted, quote_value}
use codex_shuttle.Ssh.Snapshot.{SshSnapshot}
use codex_shuttle.Ssh.Render.{
  directives, directive_name, is_inherited, not_inherited, is_skipped, is_raw, argument_text,
  append_value, append_values, append_source_values, append_keys, append_proxy_command,
}

-- No forbidden control character stands in the value.
unfoldable pub is_acceptable : String → Bool
is_acceptable value = not (any is_forbidden (bytes value))

module _ {A : Type 0} where
  abbrev pub filter : (A → Bool) → List A → List A
  filter p [] = []
  filter p (x ∷ xs) = let rest = filter p xs in if p x then x ∷ rest else rest

-- What the host says of a key and the generated alias does not inherit: for identity files value by
-- value, for another key the whole list or nothing.
unfoldable pub own_values : SshSnapshot → String → List String
own_values snapshot key = elim (lookup key snapshot.values) [
  | none ↦ []
  | some values ↦
      let inherited = lookup key snapshot.inherited_values in
      filter (λ value. not (is_skipped key value))
        (if is_inherited inherited values
          then []
          else if key == "identityfile"
          then not_inherited inherited values
          else values)
]

abbrev pub name_of : String → String
name_of key = elim (lookup key directives) [ none ↦ "" | some name ↦ name ]

-- How a value stands in the file.
unfoldable pub written : String → String → String
written key value = if is_raw key then value else quoted value

abbrev pub directive_line : String → String → String
directive_line name text = "  " ++ name ++ " " ++ text

abbrev pub key_lines : SshSnapshot → String → List String
key_lines snapshot key =
    map (λ value. directive_line (name_of key) (written key value)) (own_values snapshot key)

abbrev pub concat_map : {A : Type 0} → (String → List A) → List String → List A
concat_map f [] = []
concat_map f (key ∷ keys) = list_append (f key) (concat_map f keys)

abbrev pub own_command : Option String → List String
own_command none = []
own_command (some proxy_command) = if proxy_command == "none" then [] else proxy_command ∷ []

abbrev pub proxy_line : String → String
proxy_line command = "  ProxyCommand " ++ command

-- One outcome for a list of values: the text with their lines, or the refusal.
abbrev pub accepted : List String → String → Result SshError String
accepted values text = if all is_acceptable values then ok text else err forbidden_control_character

pub reject_newline-eq :
    (value : String)
    → reject_newline value
      ≡ (if is_acceptable value then ok tt else err forbidden_control_character)
unfolding reject_newline is_acceptable
reject_newline-eq value = ground arith

pub quote_value-eq : (value : String) → quote_value value ≡ accepted (value ∷ []) (quoted value)
unfolding quote_value
quote_value-eq value = rw (reject_newline-eq value) (ground arith)

argument_text-eq :
    (key value : String) → argument_text key value ≡ accepted (value ∷ []) (written key value)
unfolding argument_text written
argument_text-eq key value = elim (Bool-cases (is_raw key)) [
  | inl raw ↦ rw (raw, reject_newline-eq value) (ground arith)
  | inr other ↦ rw other (quote_value-eq value)
]

line-append :
    (o a n b w c r : String) → (o ++ a ++ n ++ b ++ w ++ c) ++ r ≡ o ++ (a ++ n ++ b ++ w) ++ c ++ r
line-append o a n b w c r =
    rw
      (
        append_assoc o,
        append_assoc a,
        append_assoc n,
        append_assoc b,
        append_assoc w,
        append_assoc a,
        append_assoc n,
        append_assoc b,
      )
      refl

module _ (key name : String) where
  abbrev line_of : String → String
  line_of value = directive_line name (written key value)

  abbrev kept : List String → List String
  kept values = filter (λ value. not (is_skipped key value)) values

  append_values-eq :
      (values : List String) (output : String)
      → append_values key name values output
        ≡ accepted (kept values) (output ++ unlines (map line_of (kept values)))
  unfolding append_values append_value unlines
  append_values-eq [] output = rw append-nil refl
  append_values-eq (value ∷ values) output = elim (Bool-cases (is_skipped key value)) [
    | inl skipped ↦ rw skipped (append_values-eq values output)
    | inr taken ↦
        rw (taken, argument_text-eq key value)
          (elim (Bool-cases (is_acceptable value)) [
            | inl good ↦
                rw
                  (
                    good,
                    append_values-eq values,
                    line-append output "  " name " " (written key value) "\n"
                        (unlines (map line_of (kept values))),
                  )
                  refl
            | inr bad ↦ rw bad refl
          ])
  ]

-- A key that `directive_name` knows.
abbrev pub IsKnown : String → Type 0
IsKnown key = directive_name key ≡ ok (name_of key)

pub append_source_values-eq :
    (snapshot : SshSnapshot) (key output : String)
    → IsKnown key
    → append_source_values snapshot key output
      ≡ accepted (own_values snapshot key) (output ++ unlines (key_lines snapshot key))
unfolding append_source_values own_values unlines
append_source_values-eq snapshot key output known =
    elim (Option-cases (lookup key snapshot.values)) [
      | inl absent ↦ rw (append_source_values, own_values, absent, append-nil) refl
      | inr (values, present) ↦
          rw (append_source_values, own_values, present)
            (elim (Bool-cases (is_inherited (lookup key snapshot.inherited_values) values)) [
              | inl same ↦ rw (same, append-nil) refl
              | inr other ↦ rw (other, known) (append_values-eq key (name_of key) _ output)
            ])
    ]

pub accepted-bind :
    (first second : List String) (text : String) (next : String → Result SshError String)
    (last : String)
    → next text ≡ accepted second last
    → (accepted first text >>= next) ≡ accepted (list_append first second) last
accepted-bind first second text next last h =
    rw all-append (elim (Bool-cases (all is_acceptable first)) [
      | inl good ↦ rw (good, h) refl
      | inr bad ↦ rw bad refl
    ])

pub append_keys-eq :
    (snapshot : SshSnapshot) (keys : List String) (output : String)
    → All IsKnown keys
    → append_keys snapshot keys output
      ≡ accepted
          (concat_map (own_values snapshot) keys)
          (output ++ unlines (concat_map (key_lines snapshot) keys))
unfolding append_keys unlines
append_keys-eq snapshot [] output h = rw append-nil refl
append_keys-eq snapshot (key ∷ keys) output (h, hs) =
    rw (append_source_values-eq snapshot key output h) (
      accepted-bind (own_values snapshot key) _ _ _ _ (
        rw
          (
            unlines-append,
            sym (
                append_assoc output (unlines (key_lines snapshot key))
                  (unlines (concat_map (key_lines snapshot) keys))),
          )
          (append_keys-eq snapshot keys _ hs)))

pub append_proxy_command-eq :
    (command : Option String) (output : String)
    → append_proxy_command command output
      ≡ accepted (own_command command) (output ++ unlines (map proxy_line (own_command command)))
unfolding append_proxy_command unlines
append_proxy_command-eq none output = rw append-nil refl
append_proxy_command-eq (some c) output = elim (Bool-cases (c == "none")) [
  | inl skipped ↦ rw (skipped, append-nil) refl
  | inr other ↦
      rw (other, reject_newline-eq c, append-nil, append_assoc "  ProxyCommand " c "\n")
        (ground arith)
]
