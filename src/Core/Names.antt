-- ===== src/Core/Names.antt =====
-- crates/cxs-core/src/lib.rs: the validators of profile names, host aliases and thread ids, the
-- shape of a token, the socket path limit and the random port.
pub mod Safety
use codex_shuttle.Prelude.{
  ℕ, suc, ◌+◌, ◌*◌, ◌%◌, String, Bool, true, false, not, ◌&&◌, ◌||◌, List, [], ◌∷◌, ◌==◌, nat_eq,
  ltb, leb, if◌then◌else◌, length, all, any, Result, ok, err,
}
use codex_shuttle.Prelude.Text.{bytes}

unfoldable pub is_ascii_digit : ℕ → Bool
is_ascii_digit b = leb b'0' b && leb b b'9'

unfoldable pub is_ascii_alphanumeric : ℕ → Bool
unfolding is_ascii_digit
is_ascii_alphanumeric b =
    is_ascii_digit b || (leb b'a' b && leb b b'z') || (leb b'A' b && leb b b'Z')

unfoldable pub is_ascii_hexdigit : ℕ → Bool
unfolding is_ascii_digit
is_ascii_hexdigit b = is_ascii_digit b || (leb b'a' b && leb b b'f') || (leb b'A' b && leb b b'F')

-- space, tab, line feed, form feed, carriage return
unfoldable pub is_ascii_whitespace : ℕ → Bool
is_ascii_whitespace b = b == 32 || b == 9 || b == 10 || b == 12 || b == 13

unfoldable pub is_ascii_control : ℕ → Bool
is_ascii_control b = ltb b 32 || b == 127

pub data NameError : Type 0 where
  invalid_length invalid_start invalid_character : NameError

-- What a profile name holds after its first byte.
unfoldable pub is_name_byte : ℕ → Bool
unfolding is_ascii_alphanumeric
is_name_byte b = is_ascii_alphanumeric b || (b == b'.' || b == b'_' || b == b'-')

unfoldable pub validate_name_bytes : List ℕ → Result NameError (Unit {0})
validate_name_bytes [] = err invalid_length
validate_name_bytes (first ∷ rest) =
    if ltb 48 (length (first ∷ rest))
    then err invalid_length
    else if not (is_ascii_alphanumeric first)
    then err invalid_start
    else if not (all is_name_byte rest)
    then err invalid_character
    else ok tt

unfoldable pub validate_profile_name : String → Result NameError (Unit {0})
unfolding validate_name_bytes
validate_profile_name name = validate_name_bytes (bytes name)

pub data HostError : Type 0 where
  host_length host_unsafe : HostError

unfoldable pub starts_with_dash : List ℕ → Bool
starts_with_dash [] = false
starts_with_dash (b ∷ bs) = b == b'-'

unfoldable pub validate_host_alias : String → Result HostError (Unit {0})
unfolding starts_with_dash
validate_host_alias host =
    let bs = bytes host in
    if length bs == 0 || ltb 255 (length bs)
    then err host_length
    else if starts_with_dash bs || any (λ b. is_ascii_whitespace b || b == 0) bs
    then err host_unsafe
    else ok tt

pub data ThreadIdError : Type 0 where
  thread_id_length thread_id_control : ThreadIdError

unfoldable pub validate_thread_id : String → Result ThreadIdError (Unit {0})
validate_thread_id thread_id =
    let bs = bytes thread_id in
    if length bs == 0 || ltb 256 (length bs)
    then err thread_id_length
    else if any is_ascii_control bs
    then err thread_id_control
    else ok tt

-- The test of `read_token` on the trimmed contents of the token file.
unfoldable pub is_token : List ℕ → Bool
is_token bs = length bs == 64 && all is_ascii_hexdigit bs

pub data SocketPathError : Type 0 where
  socket_path_too_long : ℕ → SocketPathError

unfoldable pub ensure_unix_socket_path_is_short : String → Result SocketPathError (Unit {0})
ensure_unix_socket_path_is_short path =
    let n = length (bytes path) in if ltb 100 n then err (socket_path_too_long n) else ok tt

-- The port from two random bytes, in the u16 arithmetic of the source.
unfoldable pub random_high_port : ℕ → ℕ → ℕ
random_high_port b₀ b₁ = let value = b₀ * 256 + b₁ in (30000 + value % 30000) % 65536
