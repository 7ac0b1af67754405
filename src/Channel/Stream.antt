-- ===== src/Channel/Stream.antt =====
-- The framing of the TCP channel in src/agents_protocol/channels.py: what `send` writes for a message
-- and what `_process_stream` reads. Bytes are numbers below 256; a stream that ends is a list of bytes.
use agents_protocol.Prelude.{
  ℕ, zero, suc, ◌+◌, ◌*◌, ◌/◌, Option, none, some, List, [], ◌∷◌, ◌++◌, ltb, leb, if◌then◌else◌,
  length, take, drop,
}
use Prim.Native.Nat.{◌%◌}

abbrev pub Bytes : Type 0
Bytes = List ℕ

-- struct.pack(">I", n) for a number below 2 ** 32
unfoldable pub pack : ℕ → Bytes
pack n = n / 16777216 ∷ n / 65536 % 256 ∷ n / 256 % 256 ∷ n % 256 ∷ []

-- struct.unpack(">I", raw)[0] for four bytes
unfoldable pub unpack : Bytes → ℕ
unpack (a ∷ b ∷ c ∷ d ∷ []) = a * 16777216 + b * 65536 + c * 256 + d
unpack _ = 0

-- What `send` writes; `struct.pack` raises where the length is 2 ** 32 or more.
unfoldable pub frame : Bytes → Option Bytes
unfolding pack
frame payload =
    if ltb (length payload) 4294967296 then some (pack (length payload) ++ payload) else none

-- 10 * 1024 * 1024
abbrev pub max_length : ℕ
max_length = 10485760

-- reader.readexactly(n); `none` stands for `IncompleteReadError`.
unfoldable pub read_exactly : ℕ → Bytes → Option (Bytes × Bytes)
read_exactly n bytes = if leb n (length bytes) then some (take n bytes, drop n bytes) else none

-- The round of the loop after the payload was read; `go_on` is the rest of the loop.
unfoldable pub after_payload : (Bytes → List Bytes) → Option (Bytes × Bytes) → List Bytes
after_payload go_on none = []
after_payload go_on (some (payload, later)) = payload ∷ go_on later

-- The round after the length was read: a message that is too long ends the loop.
unfoldable pub after_length : (Bytes → List Bytes) → Option (Bytes × Bytes) → List Bytes
unfolding read_exactly unpack after_payload
after_length go_on none = []
after_length go_on (some (raw_msglen, rest)) =
    if ltb max_length (unpack raw_msglen)
    then []
    else after_payload go_on (read_exactly (unpack raw_msglen) rest)

-- The payloads that the loop reads from the stream before it ends, in order.
unfoldable pub read_frames : ℕ → Bytes → List Bytes
unfolding after_length
read_frames zero bytes = []
read_frames (suc fuel) bytes = after_length (read_frames fuel) (read_exactly 4 bytes)

-- Each round takes at least the four bytes of a length, so the stream's length is fuel enough.
unfoldable pub process_stream : Bytes → List Bytes
unfolding read_frames
process_stream bytes = read_frames (length bytes) bytes
