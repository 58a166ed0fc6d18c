-- ===== src/Prelude/Strings/Lines.antt =====
-- Texts of lines, and reading them line by line.
use Prim.Native.Nat.{ℕ}
use Prim.Native.String
use Prim.Native.String.{String, ◌++◌}
use text.Mathlib.TextLemmas.{append_assoc}
use mathlib.Core.Path.{◌≡◌, refl, subst}
use mathlib.Core.Bool.{Bool, false, ◌||◌}
use mathlib.Core.Option.{none, some}
use mathlib.Core.List.{List, [], ◌∷◌, ◌++◌ as list_append}
use native.Mathlib.Omega.{arith}
use package.codex_shuttle.Prelude.Tests.{◌==◌, nat_eq}
use package.codex_shuttle.Prelude.Lists.{any, any-append, All}
use package.codex_shuttle.Prelude.Strings.{
  codes, push_front, split_inclusive, split_lines, strip_last, strip_break,
}

abbrev pub is_break : ℕ → Bool
is_break c = c == 10 || c == 13

-- No line break stands in the text.
abbrev pub IsLine : String → Type 0
IsLine s = any is_break (codes s) ≡ false

-- Each line with its line feed.
unfoldable pub unlines : List String → String
unlines [] = String.[]
unlines (line ∷ lines) = line ++ "\n" ++ unlines lines

pub codes-append : (s t : String) → codes (s ++ t) ≡ list_append (codes s) (codes t)
unfolding codes
codes-append String.[] t = rw String.append.nil refl
codes-append (String.◌∷◌ c s) t = rw (String.append.cons, codes-append s t) refl

pub IsLine-append : (s t : String) → IsLine s → IsLine t → IsLine (s ++ t)
IsLine-append s t h k = rw (codes-append, any-append, h, k) refl

pub unlines-append : (ks ls : List String) → unlines (list_append ks ls) ≡ unlines ks ++ unlines ls
unfolding unlines
unlines-append [] ls = rw String.append.nil refl
unlines-append (k ∷ ks) ls = rw (unlines-append ks ls, append_assoc, append_assoc) refl

strip_last-line : (s : String) → IsLine s → strip_last 13 s ≡ none
unfolding strip_last codes
strip_last-line String.[] h = refl
strip_last-line (String.◌∷◌ c String.[]) h = ground arith
strip_last-line (String.◌∷◌ c (String.◌∷◌ d s)) h =
    rw (strip_last-line (String.◌∷◌ d s) (ground arith)) refl

strip_last-append : (s : String) → strip_last 10 (s ++ "\n") ≡ some s
unfolding strip_last
strip_last-append String.[] = refl
strip_last-append (String.◌∷◌ c String.[]) = rw String.append.cons refl
strip_last-append (String.◌∷◌ c (String.◌∷◌ d s)) =
    let later : strip_last 10 (String.◌∷◌ d (s ++ "\n")) ≡ some (String.◌∷◌ d s) =
      subst (λ t. strip_last 10 t ≡ some (String.◌∷◌ d s)) (String.append.cons d s "\n")
        (strip_last-append (String.◌∷◌ d s)) in
    rw (String.append.cons, String.append.cons, strip_last, later) refl

split_inclusive-line :
    (s t : String) → IsLine s → split_inclusive (s ++ "\n" ++ t) ≡ (s ++ "\n") ∷ split_inclusive t
unfolding split_inclusive push_front codes
split_inclusive-line String.[] t h =
    rw (String.append.nil String.[], String.append.nil, String.append.cons)
      (rw String.append.nil refl)
split_inclusive-line (String.◌∷◌ c s) t h =
    rw (String.append.cons, split_inclusive-line s t (ground arith), String.append.cons c s "\n")
      (ground arith)

strip_break-line : (s : String) → IsLine s → strip_break (s ++ "\n") ≡ s
unfolding strip_break
strip_break-line s h = rw (strip_break, strip_last-append s, strip_last-line s h) refl

pub split_lines-line : (s t : String) → IsLine s → split_lines (s ++ "\n" ++ t) ≡ s ∷ split_lines t
unfolding split_lines
split_lines-line s t h = rw (split_inclusive-line s t h, strip_break-line s h) refl

pub split_lines-unlines :
    (lines : List String) → All IsLine lines → split_lines (unlines lines) ≡ lines
unfolding unlines split_lines split_inclusive
split_lines-unlines [] h = refl
split_lines-unlines (line ∷ lines) (h, hs) =
    rw (split_lines-line line (unlines lines) h, split_lines-unlines lines hs) refl
