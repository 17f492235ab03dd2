-- ===== src/Exchange.antt =====
-- One attempt of RaftClient::runCommand (src/client/raft_client.cpp) over a connection, and the
-- session of a gateway (src/gateway/session.cpp) as the other end of it. The response that a request
-- has to wait for, until its entry is applied, is an argument; the waits are left out.
pub mod Redirect
use raft_distributed_consens.Client.{Attempt, failed, answered}
use raft_distributed_consens.Gateway.{
  ClientProto, Session, reading, waiting, closed, respond, read_loop,
}
use raft_distributed_consens.Network.{frame, read_exactly}
use raft_distributed_consens.Node.{Node}
use raft_distributed_consens.Messages.{ClientRequest, ClientResponse}
use raft_distributed_consens.External.{External}
use raft_distributed_consens.Prelude.{
  ℕ, suc, ◌+◌, ◌*◌, ◌^◌, List, [], ◌∷◌, Option, none, some, Bytes, length,
}

abbrev pub parse_reply : ClientProto → Option (Bytes × Bytes) → Attempt
parse_reply proto none = failed
parse_reply proto (some (reply_buf, rest)) = answered (proto.parse_response reply_buf)

-- The reply, which may have any length; an end of the stream is an exception.
unfoldable pub read_reply : ClientProto → Bytes → Attempt
read_reply proto (b3 ∷ b2 ∷ b1 ∷ b0 ∷ s) =
    let reply_len = b3 * 2 ^ 24 + b2 * 2 ^ 16 + b1 * 2 ^ 8 + b0 in
    parse_reply proto (read_exactly reply_len s)
read_reply proto _ = failed

-- What a connection gives back for what is written to it; `none` is an exception.
unfoldable pub attempt : ClientProto → ClientRequest → (Bytes → Option Bytes) → Attempt
attempt proto req connection = elim (connection (frame (proto.serialize_request req))) [
  | none ↦ failed
  | some reply ↦ read_reply proto reply
]

-- The session after its callback, if it waits for it.
abbrev pub called_back : ClientProto → Option ClientResponse → Session → Session
called_back proto later session = elim session.status [
  | waiting ↦ elim later [ none ↦ session | some resp ↦ respond proto session resp ]
  | reading ↦ session
  | closed ↦ session
]

-- What comes back to a client that has sent one request: the one write that was started. Without a
-- write there is a timeout. More than one would take more than one request.
abbrev pub received : Session → Option Bytes
received session = elim session.started [
  | [] ↦ none
  | written ∷ more ↦ elim more [ [] ↦ some written | _ ∷ _ ↦ none ]
]

module _ {Db : Type 0} ⦃env : External Db⦄ where
  -- The session at the other end of a connection, after what is written to it. Where the request
  -- waits for its callback, the callback is called with `later`; `none` is a callback that does not
  -- come within the client's timeout.
  unfoldable pub gateway : ClientProto → ℕ → Node Db → Option ClientResponse → Bytes → Option Bytes
  gateway proto callback n later input =
      let start : Session = record { input = input; started = []; status = reading } in
      received (called_back proto later (read_loop (suc (length input)) proto callback n start).1)
