-- ===== src/Requests.antt =====
-- src/raft/request_handler.cpp: a request of a client. Responses to callbacks are returned.
pub mod Handling
pub mod KeepsLog
pub mod LogRun
pub mod Saved
pub mod SavedRun
use raft_distributed_consens.Prelude.{
  ℕ, ◌+◌, List, [], ◌∷◌, Option, none, some, true, false, not, ℤ, Bytes, codes, bytes_eq, is_empty,
  if◌then◌else◌,
}
use raft_distributed_consens.Messages.{ClientRequest, ClientResponse, LogEntry}
use raft_distributed_consens.External.{External}
use raft_distributed_consens.Storage.{append_log, get_request_result}
use raft_distributed_consens.Node.{Node, is_leader}

-- `count`, `find` and `erase` of the map of callbacks.
unfoldable pub find_callback : Bytes → List (Bytes × ℕ) → Option ℕ
find_callback id [] = none
find_callback id ((j, callback) ∷ rest) =
    if bytes_eq j id then some callback else find_callback id rest

unfoldable pub erase_callback : Bytes → List (Bytes × ℕ) → List (Bytes × ℕ)
erase_callback id [] = []
erase_callback id ((j, callback) ∷ rest) =
    let others = erase_callback id rest in if bytes_eq j id then others else (j, callback) ∷ others

abbrev pub not_leader : ℤ → ClientResponse
not_leader leader_id = record {
  success = false;
  result = codes "Not Leader";
  leader_hint = leader_id;
}

module _ {Db : Type 0} ⦃env : External Db⦄ where
  -- The checks before the lock is taken: a response, if they give one.
  unfoldable pub early_response : Node Db → ClientRequest → Option ClientResponse
  early_response n req =
      if not (is_leader n.state)
      then some (not_leader n.leader_id)
      else if not (is_empty (get_request_result n.storage req.request_id))
      then some (record {
        success = true;
        result = get_request_result n.storage req.request_id;
        leader_hint = n.leader_id;
      })
      else none

  abbrev pub new_entry : Node Db → ClientRequest → LogEntry
  new_entry n req = record { term = n.current_term; index = n.last_log_index + 1; command = req }

  -- The part that holds the lock.
  unfoldable pub append_request : Node Db → ClientRequest → ℕ → Node Db × Option ClientResponse
  append_request n req callback =
      if not (is_leader n.state)
      then (n, some (not_leader n.leader_id))
      else elim (find_callback req.request_id n.pending_callbacks) [
        | some _ ↦ (n, none)
        | none ↦ (
          record n {
            storage = append_log n.storage (new_entry n req);
            last_log_index = n.last_log_index + 1;
            last_log_term = n.current_term;
            pending_callbacks = (req.request_id, callback) ∷ n.pending_callbacks;
          },
          none,
        )
      ]

  -- Both, where no other thread comes between; the response is for the given callback.
  unfoldable pub process_client_request :
      Node Db → ClientRequest → ℕ → Node Db × Option ClientResponse
  process_client_request n req callback = elim (early_response n req) [
    | some response ↦ (n, some response)
    | none ↦ append_request n req callback
  ]
