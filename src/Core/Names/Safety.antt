-- ===== src/Core/Names/Safety.antt =====
-- The validators of crates/cxs-core/src/lib.rs, on the texts that they accept.
use codex_shuttle.Prelude.{
  ℕ, ◌≤◌, ◌<◌, String, ◌≡◌, ◌≢◌, Bool, true, false, ◌||◌, List, [], ◌∷◌, arith, ◌==◌, nat_eq, ltb,
  length, all, any, All, ok,
}
use codex_shuttle.Prelude.Text.{bytes}
use codex_shuttle.Core.Names.{
  is_ascii_alphanumeric, is_ascii_whitespace, is_ascii_control, is_name_byte, validate_name_bytes,
  validate_profile_name, starts_with_dash, validate_host_alias, validate_thread_id,
  random_high_port,
}

-- A byte that may stand in a path component: not a slash and not NUL.
abbrev pub IsComponentByte : ℕ → Type 0
IsComponentByte b = (b ≢ b'/') × (b ≢ 0) × (b < 128)

module _ {P : ℕ → Type 0} (p : ℕ → Bool) where
  All-all : ((b : ℕ) → p b ≡ true → P b) → (bs : List ℕ) → all p bs ≡ true → All P bs
  All-all f [] h = tt
  All-all f (b ∷ bs) h = (f b (ground arith), All-all f bs (ground arith))

  All-any : ((b : ℕ) → p b ≡ false → P b) → (bs : List ℕ) → any p bs ≡ false → All P bs
  All-any f [] h = tt
  All-any f (b ∷ bs) h = (f b (ground arith), All-any f bs (ground arith))

name_byte_safe : (b : ℕ) → is_name_byte b ≡ true → IsComponentByte b
unfolding is_name_byte
name_byte_safe b h = ground arith

-- The first byte is neither a dot nor a dash, so the name is no relative path and no option.
abbrev pub IsProfileName : List ℕ → Type 0
IsProfileName [] = ⊥
IsProfileName (b ∷ bs) =
    IsComponentByte b × (b ≢ b'.') × (b ≢ b'-') × All IsComponentByte bs × (length bs < 48)

name_bytes-IsProfileName : (bs : List ℕ) → validate_name_bytes bs ≡ ok tt → IsProfileName bs
unfolding validate_name_bytes is_ascii_alphanumeric
name_bytes-IsProfileName [] h = cc
name_bytes-IsProfileName (b ∷ bs) h = (
  ground arith,
  ground arith,
  ground arith,
  All-all is_name_byte name_byte_safe bs (ground arith),
  ground arith,
)

-- An accepted profile name is one safe path component of 1 to 48 bytes: no byte is a slash, NUL or
-- outside ASCII, and it begins with neither a dot nor a dash.
pub validate_profile_name-IsProfileName :
    (name : String) → validate_profile_name name ≡ ok tt → IsProfileName (bytes name)
unfolding validate_profile_name
validate_profile_name-IsProfileName name h = name_bytes-IsProfileName (bytes name) h

-- A byte that OpenSSH and the shell take as part of one word.
abbrev pub IsWordByte : ℕ → Type 0
IsWordByte b = (b ≢ 0) × (b ≢ 32) × (b ≢ 9) × (b ≢ 10) × (b ≢ 12) × (b ≢ 13)

safe-IsWordByte : (b : ℕ) → (is_ascii_whitespace b || b == 0) ≡ false → IsWordByte b
unfolding is_ascii_whitespace
safe-IsWordByte b h = ground arith

-- An SSH argument that cannot be read as an option.
abbrev pub IsHostArgument : List ℕ → Type 0
IsHostArgument [] = ⊥
IsHostArgument (b ∷ bs) = (b ≢ b'-') × All IsWordByte (b ∷ bs) × (length bs < 255)

host_bytes-IsHostArgument :
    (bs : List ℕ)
    → (length bs == 0 || ltb 255 (length bs)) ≡ false
    → (starts_with_dash bs || any (λ b. is_ascii_whitespace b || b == 0) bs) ≡ false
    → IsHostArgument bs
unfolding starts_with_dash
host_bytes-IsHostArgument [] h k = cc
host_bytes-IsHostArgument (b ∷ bs) h k = (
  ground arith,
  All-any (λ c. is_ascii_whitespace c || c == 0) safe-IsWordByte (b ∷ bs) (ground arith),
  ground arith,
)

-- An accepted host alias is one word of 1 to 255 bytes with no blank and no NUL, and is no option.
pub validate_host_alias-IsHostArgument :
    (host : String) → validate_host_alias host ≡ ok tt → IsHostArgument (bytes host)
unfolding validate_host_alias
validate_host_alias-IsHostArgument host h =
    host_bytes-IsHostArgument (bytes host) (ground arith) (ground arith)

control_byte_safe : (b : ℕ) → is_ascii_control b ≡ false → (32 ≤ b) × (b ≢ 127)
unfolding is_ascii_control
control_byte_safe b h = ground arith

abbrev pub IsThreadId : List ℕ → Type 0
IsThreadId bs = (0 < length bs) × (length bs ≤ 256) × All (λ b. (32 ≤ b) × (b ≢ 127)) bs

-- An accepted thread id has 1 to 256 bytes, none of which is a control character.
pub validate_thread_id-IsThreadId :
    (thread_id : String) → validate_thread_id thread_id ≡ ok tt → IsThreadId (bytes thread_id)
unfolding validate_thread_id
validate_thread_id-IsThreadId thread_id h = (
  ground arith,
  ground arith,
  All-any is_ascii_control control_byte_safe (bytes thread_id) (ground arith),
)

-- The remote port lies between 30000 and 59999, so that the u16 sum does not wrap.
pub random_high_port_bounds :
    (b₀ b₁ : ℕ)
    → b₀ < 256
    → b₁ < 256
    → (30000 ≤ random_high_port b₀ b₁) × (random_high_port b₀ b₁ < 60000)
unfolding random_high_port
random_high_port_bounds b₀ b₁ h k = omega arith
