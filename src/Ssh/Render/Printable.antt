-- ===== src/Ssh/Render/Printable.antt =====
-- The names that the profile store accepts, as texts of the managed configuration.
use Prim.Native.String.{◌++◌}
use codex_shuttle.Prelude.{
  ℕ, ◌≤◌, String, ◌≡◌, refl, sym, ◌∙◌, true, false, List, [], ◌∷◌, arith, nat_eq, any, all, All, ok,
}
use codex_shuttle.Prelude.Text.{bytes}
use codex_shuttle.Prelude.Strings.{codes}
use codex_shuttle.Prelude.Strings.Bytes.{any-bytes}
use codex_shuttle.Prelude.Strings.Lines.{IsLine, IsLine-append, is_break}
use codex_shuttle.Core.Names.{
  is_name_byte, is_ascii_alphanumeric, is_ascii_digit, validate_profile_name, validate_name_bytes,
  validate_host_alias,
}
use codex_shuttle.Core.Names.Safety.{IsHostArgument, IsWordByte, validate_host_alias-IsHostArgument}
use codex_shuttle.Core.Profile.{Profile}
use codex_shuttle.Ssh.Render.Refines.{IsPrintable}

is_break-high : (b : ℕ) → 128 ≤ b → is_break b ≡ false
is_break-high b h = ground arith

bytes-IsLine : (s : String) → any is_break (bytes s) ≡ false → IsLine s
bytes-IsLine s h = sym (any-bytes is_break is_break-high s) ∙ h

words-break : (bs : List ℕ) → All IsWordByte bs → any is_break bs ≡ false
words-break [] h = refl
words-break (b ∷ bs) (h, hs) = ground (arith, words-break bs hs)

host-break : (bs : List ℕ) → IsHostArgument bs → any is_break bs ≡ false
host-break [] h = refl
host-break (b ∷ bs) (first, rest, short) = words-break (b ∷ bs) rest

host_alias-IsLine : (host : String) → validate_host_alias host ≡ ok tt → IsLine host
host_alias-IsLine host h =
    bytes-IsLine host (host-break (bytes host) (validate_host_alias-IsHostArgument host h))

name_byte-break : (b : ℕ) → is_name_byte b ≡ true → is_break b ≡ false
unfolding is_name_byte is_ascii_alphanumeric is_ascii_digit
name_byte-break b h = ground arith

names-break : (bs : List ℕ) → all is_name_byte bs ≡ true → any is_break bs ≡ false
names-break [] h = refl
names-break (b ∷ bs) h = rw (name_byte-break b (ground arith), names-break bs (ground arith)) refl

name_bytes-break : (bs : List ℕ) → validate_name_bytes bs ≡ ok tt → any is_break bs ≡ false
unfolding validate_name_bytes is_name_byte
name_bytes-break [] h = cc
name_bytes-break (b ∷ bs) h = names-break (b ∷ bs) (ground arith)

profile_name-IsLine : (name : String) → validate_profile_name name ≡ ok tt → IsLine name
unfolding validate_profile_name
profile_name-IsLine name h = bytes-IsLine name (name_bytes-break (bytes name) h)

-- A profile whose name and host the validators accept, with the alias that the store derives from the
-- name, has only texts that stand on one line.
pub validated-IsPrintable :
    (profile : Profile)
    → validate_profile_name profile.name ≡ ok tt
    → validate_host_alias profile.source_host ≡ ok tt
    → profile.app_alias ≡ "cxs-" ++ profile.name
    → IsPrintable profile
unfolding codes
validated-IsPrintable profile name host alias = (
  profile_name-IsLine profile.name name,
  host_alias-IsLine profile.source_host host,
  rw alias (IsLine-append "cxs-" profile.name refl (profile_name-IsLine profile.name name)),
)
