-- ===== src/Mux/Channel.antt =====
-- crates/cxs-mux/src/lib.rs: channel kinds and the five-byte header that names them.
use codex_shuttle.Prelude.{
  ℕ, zero, suc, ◌≡◌, refl, ◌↔◌, Bool, true, false, ◌&&◌, List, [], ◌∷◌, ◌++◌, Option, none, some,
  arith, ◌==◌, nat_eq, if◌then◌else◌, take, Result, ok, err,
}

pub data Role : Type 0 where
  bridge agent : Role

pub data Mode : Type 0 where
  client server : Mode

unfoldable pub yamux_mode : Role → Mode
yamux_mode bridge = client
yamux_mode agent = server

pub data ChannelKind : Type 0 where
  app exec host : ChannelKind

unfoldable pub code : ChannelKind → ℕ
code app = 1
code exec = 2
code host = 3

pub data MuxError : Type 0 where
  unknown_kind : ℕ → MuxError
  header_timeout header_closed incompatible_protocol receiver_closed session_closed : MuxError
  connection_failed connection_closed : MuxError

unfoldable pub from_code : ℕ → Result MuxError ChannelKind
from_code c =
    if c == 1
    then ok app
    else if c == 2
    then ok exec
    else if c == 3
    then ok host
    else err (unknown_kind c)

abbrev pub stream_magic : List ℕ
stream_magic = b'C' ∷ b'X' ∷ b'S' ∷ b'2' ∷ []

abbrev pub stream_header_bytes : ℕ
stream_header_bytes = 5

-- What `MuxHandle::open` writes at the head of a new stream.
unfoldable pub stream_header : ChannelKind → List ℕ
unfolding code
stream_header kind = stream_magic ++ code kind ∷ []

-- `read_exact` of `stream_header_bytes` bytes from a stream that then closes; `none` if it is short.
unfoldable pub read_exact : ℕ → List ℕ → Option (List ℕ × List ℕ)
read_exact zero bs = some ([], bs)
read_exact (suc n) [] = none
read_exact (suc n) (b ∷ bs) = elim (read_exact n bs) [
  | none ↦ none
  | some (head, rest) ↦ some (b ∷ head, rest)
]

unfoldable pub bytes_eq : List ℕ → List ℕ → Bool
bytes_eq [] [] = true
bytes_eq (a ∷ s) (b ∷ t) = a == b && bytes_eq s t
bytes_eq _ _ = false

pub bytes_eq_iff : (s t : List ℕ) → (bytes_eq s t ≡ true) ↔ (s ≡ t)
unfolding bytes_eq
bytes_eq_iff [] [] = ground arith
bytes_eq_iff (a ∷ s) (b ∷ t) = ground (arith, bytes_eq_iff s t)
bytes_eq_iff [] (b ∷ t) = ground arith
bytes_eq_iff (a ∷ s) [] = ground arith

-- `header[STREAM_MAGIC.len()]`; a shorter header is not met.
unfoldable pub kind_byte : List ℕ → ℕ
kind_byte (_ ∷ _ ∷ _ ∷ _ ∷ k ∷ _) = k
kind_byte _ = 0

unfoldable pub header_kind : List ℕ → Result MuxError ChannelKind
unfolding bytes_eq from_code kind_byte
header_kind header =
    if bytes_eq (take 4 header) stream_magic
    then from_code (kind_byte header)
    else err incompatible_protocol

unfoldable pub identify_kind : Option (List ℕ × List ℕ) → Result MuxError (ChannelKind × List ℕ)
unfolding header_kind
identify_kind none = err header_closed
identify_kind (some (header, rest)) = elim (header_kind header) [
  | ok kind ↦ ok (kind, rest)
  | err e ↦ err e
]

-- `identify_inbound` up to the delivery: the kind, and the bytes that the receiver will read.
-- `none` is a header that does not come within the time limit.
unfoldable pub identify : Option (List ℕ) → Result MuxError (ChannelKind × List ℕ)
unfolding identify_kind read_exact
identify none = err header_timeout
identify (some bs) = identify_kind (read_exact stream_header_bytes bs)

-- The peer reads the kind that `open` wrote, and then exactly the payload.
pub identify-stream_header :
    (kind : ChannelKind) (payload : List ℕ)
    → identify (some (stream_header kind ++ payload)) ≡ ok (kind, payload)
unfolding identify stream_header
identify-stream_header app payload = refl
identify-stream_header exec payload = refl
identify-stream_header host payload = refl

from_code-code : (c : ℕ) (kind : ChannelKind) → from_code c ≡ ok kind → code kind ≡ c
unfolding from_code code
from_code-code c kind h = ground arith

-- No other bytes are taken for a channel: what is identified began with the header of its kind.
pub identify-ok :
    (bs payload : List ℕ) (kind : ChannelKind)
    → identify (some bs) ≡ ok (kind, payload)
    → bs ≡ stream_header kind ++ payload
unfolding identify stream_header from_code
identify-ok (a ∷ b ∷ c ∷ d ∷ k ∷ rest) payload kind h = ground (arith, from_code-code k kind)
identify-ok [] payload kind h = cc
identify-ok (a ∷ []) payload kind h = cc
identify-ok (a ∷ b ∷ []) payload kind h = cc
identify-ok (a ∷ b ∷ c ∷ []) payload kind h = cc
identify-ok (a ∷ b ∷ c ∷ d ∷ []) payload kind h = cc
