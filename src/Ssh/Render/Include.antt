-- ===== src/Ssh/Render/Include.antt =====
-- `ensure_managed_include` on a configuration that is there.
use Prim.Native.String.{◌++◌}
use Prim.Native.String
use text.Mathlib.TextLemmas.{append_assoc}
use codex_shuttle.Prelude.{
  String, ◌≡◌, refl, inl, inr, true, false, some, ◌==◌, string_eq, any, Bool-cases,
}
use codex_shuttle.Prelude.Strings.{
  codes, split_lines, trim, trim_start, trim_end, is_whitespace, is_empty,
}
use codex_shuttle.Prelude.Strings.Lines.{split_lines-line}
use codex_shuttle.Ssh.Render.{include_line, ensure_managed_include}

-- Some line of the configuration, without the blanks around it, includes the managed file.
abbrev pub IncludesManaged : String → Type 0
IncludesManaged text = any (λ line. trim line == include_line) (split_lines text) ≡ true

include_line-first : (text : String) → IncludesManaged (include_line ++ "\n" ++ text)
unfolding codes trim trim_start trim_end is_whitespace is_empty
include_line-first text = rw (split_lines-line include_line text refl) refl

included_kept : (text : String) → IncludesManaged text → ensure_managed_include (some text) ≡ text
unfolding ensure_managed_include
included_kept text h = rw h refl

included-IncludesManaged : (text : String) → IncludesManaged (include_line ++ "\n\n" ++ text)
included-IncludesManaged text = rw (append_assoc "\n" "\n" text) (include_line-first ("\n" ++ text))

included_added :
    (text : String)
    → any (λ line. trim line == include_line) (split_lines text) ≡ false
    → ensure_managed_include (some text) ≡ include_line ++ "\n\n" ++ text
unfolding ensure_managed_include
included_added text h = rw h refl

-- Afterwards the configuration includes the managed file, a second run changes nothing, and the text
-- that was there is kept, unchanged or below the new include line.
pub ensure_managed_include-IncludesManaged :
    (existing : String)
    → IncludesManaged (ensure_managed_include (some existing))
      × (ensure_managed_include (some (ensure_managed_include (some existing)))
          ≡ ensure_managed_include (some existing))
      × ((added : String) × (ensure_managed_include (some existing) ≡ added ++ existing))
ensure_managed_include-IncludesManaged existing =
    elim (Bool-cases (any (λ line. trim line == include_line) (split_lines existing))) [
      | inl found ↦
          rw (included_kept existing found, included_kept existing found)
            (found, refl, ("", rw String.append.nil refl))
      | inr missing ↦
          rw
            (
              included_added existing missing,
              included_kept (include_line ++ "\n\n" ++ existing)
                  (included-IncludesManaged existing),
            )
            (
              included-IncludesManaged existing,
              refl,
              (include_line ++ "\n\n", rw (append_assoc include_line "\n\n" existing) refl),
            )
    ]
