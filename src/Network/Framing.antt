-- ===== src/Network/Framing.antt =====
-- A message that is sent is the message that is read, up to the limit on its size.
use raft_distributed_consens.Network.{read_exactly, read_message, frame, header, max_body}
use raft_distributed_consens.Prelude.{
  ℕ, ◌+◌, ◌*◌, ◌/◌, ◌%◌, ◌^◌, [], ◌∷◌, ◌++◌, none, some, Bytes, ltb, length, if◌then◌else◌, ◌<◌,
  ◌≤◌, ◌≡◌, refl, arith, ◌∙◌,
}

pub read_exactly-append : (b s : Bytes) → read_exactly (length b) (b ++ s) ≡ some (b, s)
unfolding read_exactly
read_exactly-append [] s = refl
read_exactly-append (c ∷ b) s = rw (read_exactly-append b s) refl

-- The four bytes give back the size.
pub header_value :
    (n : ℕ)
    → n < 2 ^ 32
    → n % 2 ^ 32 / 2 ^ 24 * 2 ^ 24
        + n % 2 ^ 32 / 2 ^ 16 % 256 * 2 ^ 16
        + n % 2 ^ 32 / 2 ^ 8 % 256 * 2 ^ 8
        + n % 2 ^ 32 % 256
      ≡ n
header_value n h = omega arith

read_message-frame_eq :
    (payload s : Bytes)
    → length payload < 2 ^ 32
    → read_message (frame payload ++ s)
      ≡ (if ltb max_body (length payload) then none else some (payload, s))
unfolding read_message frame header
read_message-frame_eq payload s h =
    rw (header_value (length payload) h, read_exactly-append payload s) refl

-- A message of at most 10 MB is read as it was sent, and the stream goes on behind it.
pub read_message-frame :
    (payload s : Bytes)
    → length payload ≤ max_body
    → read_message (frame payload ++ s) ≡ some (payload, s)
read_message-frame payload s h = read_message-frame_eq payload s (omega arith) ∙ ground arith

-- A message above 10 MB, which `send` does not refuse, closes the receiver's connection.
pub too_large_closes :
    (payload s : Bytes)
    → max_body < length payload
    → length payload < 2 ^ 32
    → read_message (frame payload ++ s) ≡ none
too_large_closes payload s h k = read_message-frame_eq payload s k ∙ ground arith
