-- ===== src/Gateway.antt =====
-- Session of src/gateway/session.cpp: a connection of a client, whose requests are handed to the
-- node one at a time. The stream is what the client sends until it closes the connection; accepting
-- connections and the threads are left out.
pub mod Service
pub mod Ends
use raft_distributed_consens.Network.{frame, read_message}
use raft_distributed_consens.Requests.{process_client_request}
use raft_distributed_consens.Node.{Node}
use raft_distributed_consens.Messages.{ClientRequest, ClientResponse}
use raft_distributed_consens.External.{External}
use raft_distributed_consens.Prelude.{
  ℕ, zero, suc, List, [], ◌∷◌, ◌++◌, Option, none, some, Bytes, ◌≡◌,
}

-- `SerializeToString` and `ParseFromArray` for the messages between client and gateway; `none` is
-- a failure, and the client, which does not look for a failure, takes what is in the message then. A
-- message that was serialized is parsed back.
pub record ClientProto : Type 0 where
  pub serialize_request : ClientRequest → Bytes
  pub parse_request : Bytes → Option ClientRequest
  pub serialize_response : ClientResponse → Bytes
  pub parse_response : Bytes → ClientResponse
  pub parse-serialize_request : (r : ClientRequest) → parse_request (serialize_request r) ≡ some r
  pub parse-serialize_response : (r : ClientResponse) → parse_response (serialize_response r) ≡ r

-- A read is under way, a callback is waited for, or the connection is closed.
pub data Status : Type 0 where
  reading waiting closed : Status

-- `started` are the buffers that were handed to `async_write`, in order. Two writes may be under way
-- at once, and then their bytes may be mixed on the connection: nothing is said of the bytes.
pub record Session : Type 0 where
  pub input : Bytes
  pub started : List Bytes
  pub status : Status

-- The callback: a write of the response is started, and the next request is read without waiting
-- for that write to end.
unfoldable pub respond : ClientProto → Session → ClientResponse → Session
respond proto session resp = record session {
  started = session.started ++ (frame (proto.serialize_response resp) ∷ []);
  status = reading;
}

module _ {Db : Type 0} ⦃env : External Db⦄ where
  -- `readLoop` up to the next read. A response may come at once, from `processClientRequest` itself.
  unfoldable pub read_request : ClientProto → ℕ → Node Db → Session → Node Db × Session
  read_request proto callback n session = elim (read_message session.input) [
    | none ↦ (n, record session { status = closed })
    | some (body, rest) ↦ elim (proto.parse_request body) [
      | none ↦ (n, record session { input = rest; status = closed })
      | some req ↦
          let (n', response) = process_client_request n req callback in
          let read : Session = record session { input = rest; status = waiting } in
          elim response [ none ↦ (n', read) | some resp ↦ (n', respond proto read resp) ]
    ]
  ]

  -- At most `fuel` reads, as long as responses come at once.
  unfoldable pub read_loop : ℕ → ClientProto → ℕ → Node Db → Session → Node Db × Session
  unfolding read_request
  read_loop zero proto callback n session = (n, session)
  read_loop (suc fuel) proto callback n session = elim session.status [
    | waiting ↦ (n, session)
    | closed ↦ (n, session)
    | reading ↦
        let (n', session') = read_request proto callback n session in
        read_loop fuel proto callback n' session'
  ]
