-- ===== src/Network.antt =====
-- TcpConnection of include/network/connection.h and src/network/connection.cpp: messages on a byte
-- stream, each behind its length in four bytes, the most significant first.
pub mod Framing
use raft_distributed_consens.Prelude.{
  ℕ, zero, suc, ◌+◌, ◌*◌, ◌/◌, ◌%◌, ◌^◌, List, [], ◌∷◌, ◌++◌, Option, none, some, Bytes, ltb,
  length, if◌then◌else◌, ◌>>=◌,
}

-- `htonl` of the size, as `memcpy` lays it out; the cast to `uint32_t` wraps around.
unfoldable pub header : ℕ → Bytes
header size =
    let n = size % 2 ^ 32 in n / 2 ^ 24 ∷ n / 2 ^ 16 % 256 ∷ n / 2 ^ 8 % 256 ∷ n % 256 ∷ []

-- What `send` writes for a message that is serialized to `payload`, which has less than 4 GB, as
-- Protobuf serializes no message of 2 GB or more.
unfoldable pub frame : Bytes → Bytes
unfolding header
frame payload = header (length payload) ++ payload

-- Exactly `n` bytes of the stream; `none` is an end of the stream before them.
unfoldable pub read_exactly : ℕ → Bytes → Option (Bytes × Bytes)
read_exactly zero s = some ([], s)
read_exactly (suc n) [] = none
read_exactly (suc n) (c ∷ s) = do rest ← read_exactly n s; some (c ∷ rest.0, rest.1)

abbrev pub max_body : ℕ
max_body = 10 * 1024 * 1024

-- `readMessage` on what is left of the stream: the body that is handed on, and the rest. `none` is a
-- connection that is closed.
unfoldable pub read_message : Bytes → Option (Bytes × Bytes)
unfolding read_exactly
read_message (b3 ∷ b2 ∷ b1 ∷ b0 ∷ s) =
    let body_len = b3 * 2 ^ 24 + b2 * 2 ^ 16 + b1 * 2 ^ 8 + b0 in
    let body = read_exactly body_len s in if ltb max_body body_len then none else body
read_message _ = none
