-- ===== src/Requests/Handling.antt =====
-- What a client's request does to the leader, and which response it gets.
use raft_distributed_consens.Prelude.{
  ◌⊎◌, bytes_eq_iff, ℕ, ◌+◌, List, [], ◌∷◌, none, some, not, Bytes, bytes_eq, bytes_eq_self,
  is_empty, if◌then◌else◌, ◌==◌, ◌≡◌, ◌≢◌, refl, arith, Bool-cases, Option-cases, inl, inr,
}
use raft_distributed_consens.Messages.{ClientRequest}
use raft_distributed_consens.External.{External}
use raft_distributed_consens.Storage.HardState.{get_request_result-save_hard_state}
use raft_distributed_consens.Election.{start_election}
use raft_distributed_consens.Storage.{get_log_entry, get_request_result}
use raft_distributed_consens.Storage.Log.{get_log_entry-append_log}
use raft_distributed_consens.Node.{Node, leader, is_leader, become_follower, become_leader}
use raft_distributed_consens.Replication.LogShape.{IsLogOk, appended-IsLogOk}
use raft_distributed_consens.Requests.{
  find_callback, erase_callback, not_leader, early_response, new_entry, append_request,
  process_client_request,
}

-- Only the callbacks of the given request are erased.
pub find-erase_callback :
    (r j : Bytes) (m : List (Bytes × ℕ))
    → find_callback j (erase_callback r m) ≡ (if bytes_eq r j then none else find_callback j m)
unfolding find_callback erase_callback
find-erase_callback r j [] = ground arith
find-erase_callback r j ((i, callback) ∷ m) =
    ground (arith, find-erase_callback r j m, bytes_eq_iff i r, bytes_eq_iff i j, bytes_eq_iff r j)

find_callback_head :
    (r : Bytes) (callback : ℕ) (m : List (Bytes × ℕ))
    → find_callback r ((r, callback) ∷ m) ≡ some callback
unfolding find_callback
find_callback_head r callback m = rw (bytes_eq_self r)

module _ {Db : Type 0} ⦃env : External Db⦄ where
  -- A new request on the leader: no response yet, one entry at the end of the log in the current
  -- term, the rest of the log as it was, and the callback waits.
  process_client_request_new :
      (n : Node Db) (req : ClientRequest) (callback i : ℕ)
      → n.state ≡ leader
      → get_request_result n.storage req.request_id ≡ []
      → find_callback req.request_id n.pending_callbacks ≡ none
      → let (n', response) = process_client_request n req callback in
        (response ≡ none)
        × (n'.last_log_index ≡ n.last_log_index + 1)
        × (get_log_entry n'.storage i
            ≡ (if n.last_log_index + 1 == i then new_entry n req else get_log_entry n.storage i))
        × (find_callback req.request_id n'.pending_callbacks ≡ some callback)
  unfolding process_client_request early_response append_request is_empty
  process_client_request_new n req callback i lead fresh idle = ground (
    arith,
    get_log_entry-append_log n.storage (new_entry n req) i,
    find_callback_head req.request_id callback n.pending_callbacks,
  )

  -- A request that is refused, answered from history or in flight changes nothing.
  process_client_request_unchanged :
      (n : Node Db) (req : ClientRequest) (callback : ℕ)
      → ((n.state ≢ leader)
          ⊎ (get_request_result n.storage req.request_id ≢ [])
          ⊎ (find_callback req.request_id n.pending_callbacks ≢ none))
      → (process_client_request n req callback).0 ≡ n
  unfolding process_client_request early_response append_request is_empty
  process_client_request_unchanged n req callback why = ground arith

  -- A node that does not lead refuses, and names the leader that it knows.
  pub process_client_request_redirect :
      (n : Node Db) (req : ClientRequest) (callback : ℕ)
      → n.state ≢ leader
      → (process_client_request n req callback).1 ≡ some (not_leader n.leader_id)
  unfolding process_client_request early_response
  process_client_request_redirect n req callback h = ground arith

  -- If memory describes the stored log, then it does so after a client's request.
  pub process_client_request-IsLogOk :
      (n : Node Db) (req : ClientRequest) (callback : ℕ)
      → IsLogOk n
      → IsLogOk (process_client_request n req callback).0
  unfolding process_client_request append_request
  process_client_request-IsLogOk n req callback ok = elim (Option-cases (early_response n req)) [
    | inr (response, e) ↦ rw (e, process_client_request) ok
    | inl e ↦ elim (Bool-cases (not (is_leader n.state))) [
      | inl other ↦ rw (e, process_client_request) (rw other ok)
      | inr lead ↦ elim (Option-cases (find_callback req.request_id n.pending_callbacks)) [
        | inr (old, waits) ↦ rw (e, process_client_request) (rw lead (rw waits ok))
        | inl free ↦
            rw (e, process_client_request)
              (rw lead (
                rw free (
                  appended-IsLogOk
                    (record n {
                      pending_callbacks = (req.request_id, callback) ∷ n.pending_callbacks;
                    })
                    (n.last_log_index + 1) (new_entry n req) refl n.storage)))
      ]
    ]
  ]

  in_flight :
      (n : Node Db) (req : ClientRequest) (callback old : ℕ)
      → n.state ≡ leader
      → get_request_result n.storage req.request_id ≡ []
      → find_callback req.request_id n.pending_callbacks ≡ some old
      → process_client_request n req callback ≡ (n, none)
  unfolding process_client_request early_response append_request is_empty
  in_flight n req callback old lead fresh waits = ground arith

  -- The node that steps down, campaigns and is elected.
  abbrev pub reelected : Node Db → ℕ → ℕ → Node Db
  reelected n term now = become_leader (start_election (become_follower n term) now).0

  -- A callback outlives the leadership of its node. When the node leads again and the request has
  -- no result, a retry of the request is swallowed: no response, and no entry is appended.
  pub retry_swallowed :
      (n : Node Db) (request : ClientRequest) (callback old term now : ℕ)
      → find_callback request.request_id n.pending_callbacks ≡ some old
      → get_request_result n.storage request.request_id ≡ []
      → ((reelected n term now).state ≡ leader)
        × (process_client_request (reelected n term now) request callback
            ≡ (reelected n term now, none))
  unfolding become_follower become_leader start_election
  retry_swallowed n request callback old term now h fresh = (
    refl,
    in_flight (reelected n term now) request callback old refl
        (rw (get_request_result-save_hard_state, get_request_result-save_hard_state) fresh) h,
  )
