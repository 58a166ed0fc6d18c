-- ===== src/Ssh/Remote/Facts.antt =====
-- `query_remote` on the output of its script.
use Prim.Native.Char.{code}
use Prim.Native.String
use Prim.Native.String.{◌++◌}
use text.Mathlib.TextLemmas.{append_assoc}
use codex_shuttle.Prelude.{
  ℕ, String, ◌≡◌, refl, inl, inr, Bool, true, false, List, [], ◌∷◌, ◌++◌ as list_append, some, ◌==◌,
  nat_eq, string_eq, any, All, ok, Bool-cases,
}
use codex_shuttle.Prelude.Assoc.{lookup, insert, remove}
use codex_shuttle.Prelude.Strings.{codes, split_once}
use codex_shuttle.Prelude.Strings.Lines.{IsLine, IsLine-append, unlines, split_lines-unlines}
use codex_shuttle.Ssh.{Ssh}
use codex_shuttle.Ssh.Snapshot.{batch_arguments}
use codex_shuttle.Ssh.Remote.{
  RemoteFacts, remote_script, take_fact, collect_facts, read_facts, succeeded, query_remote,
}

-- The first character that passes the test splits the text.
split_once-append :
    (p : ℕ → Bool) (front back : String)
    → any p (codes front) ≡ false
    → p b'=' ≡ true
    → split_once p (front ++ "=" ++ back) ≡ some (front, back)
unfolding split_once codes
split_once-append p String.[] back h k =
    rw (String.append.nil, String.append.cons, String.append.nil, k) refl
split_once-append p (String.◌∷◌ c s) back h k = elim (Bool-cases (p (code c))) [
  | inl here ↦ cc (rw here at h)
  | inr later ↦ rw (String.append.cons, later, split_once-append p s back (rw later at h) k) refl
]

-- What the script prints on the remote host.
abbrev pub fact_lines : RemoteFacts → List String
fact_lines facts =
    ("home=" ++ facts.home) ∷ ("kernel=" ++ facts.kernel) ∷ ("arch=" ++ facts.arch) ∷ []

abbrev pub IsFacts : RemoteFacts → Type 0
IsFacts facts = IsLine facts.home × IsLine facts.kernel × IsLine facts.arch

collect_facts-fact_lines :
    (facts : RemoteFacts)
    → collect_facts (fact_lines facts) []
      ≡ ("home", facts.home) ∷ ("kernel", facts.kernel) ∷ ("arch", facts.arch) ∷ []
unfolding collect_facts insert codes
collect_facts-fact_lines facts =
    rw
      (
        collect_facts,
        append_assoc "home" "=" facts.home,
        split_once-append (λ c. c == b'=') "home" facts.home refl refl,
        append_assoc "kernel" "=" facts.kernel,
        split_once-append (λ c. c == b'=') "kernel" facts.kernel refl refl,
        append_assoc "arch" "=" facts.arch,
        split_once-append (λ c. c == b'=') "arch" facts.arch refl refl,
      )
      refl

fact_lines-IsLine : (facts : RemoteFacts) → IsFacts facts → All IsLine (fact_lines facts)
unfolding codes
fact_lines-IsLine facts (home, kernel, arch) = (
  IsLine-append "home=" facts.home refl home,
  (
    IsLine-append "kernel=" facts.kernel refl kernel,
    (IsLine-append "arch=" facts.arch refl arch, tt),
  ),
)

read_facts-fact_lines :
    (facts : RemoteFacts) → IsFacts facts → read_facts (unlines (fact_lines facts)) ≡ ok facts
unfolding read_facts take_fact lookup remove
read_facts-fact_lines facts h =
    rw
      (
        split_lines-unlines (fact_lines facts) (fact_lines-IsLine facts h),
        collect_facts-fact_lines facts,
      )
      refl

-- If the host is accepted and `ssh` runs the script to a successful end, with the three facts printed
-- as the script prints them, each on its line, then `query_remote` returns those facts.
pub query_remote-fact_lines :
    (ssh : Ssh) (host stderr : String) (arguments : List String) (facts : RemoteFacts)
    → IsFacts facts
    → batch_arguments host ≡ ok arguments
    → ssh (list_append arguments (remote_script ∷ []))
      ≡ some
          (record { success = true; stdout = some (unlines (fact_lines facts)); stderr = stderr })
    → query_remote ssh host ≡ ok facts
unfolding query_remote succeeded
query_remote-fact_lines ssh host stderr arguments facts h valid ran =
    rw (valid, ran) (read_facts-fact_lines facts h)
