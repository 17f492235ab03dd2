-- ===== src/Client.antt =====
-- RaftClient of src/client/raft_client.cpp: the request of a command, its attempts and the choice of
-- the node.
-- What a connection brings is a parameter; logging, the waits and the latency are left out.
pub mod Retry
use raft_distributed_consens.Messages.{ClientResponse, ClientRequest, transfer, get_balance}
use raft_distributed_consens.Text.{to_string}
use raft_distributed_consens.Prelude.{
  ℕ, zero, suc, ◌+◌, ◌%◌, List, [], ◌∷◌, Option, none, some, Bool, true, false, ℤ, eq_ℤ, minus_one,
  length, if◌then◌else◌, Bytes, codes, bytes_eq, ◌++◌, pos,
}

-- What an attempt brings: an exception, or a response.
pub data Attempt : Type 0 where
  failed : Attempt
  answered : ClientResponse → Attempt

-- The request that `sendCommand` builds; `rand` is what `std::rand` gives. A field that is not set
-- has its default.
unfoldable pub send_command : ℤ → ℕ → Bytes → ℤ → Bytes → Bytes → ClientRequest
send_command id rand key value type sender =
    let request_id : Bytes = to_string id ++ codes "-" ++ to_string (pos rand) in
    if bytes_eq type (codes "TRANSFER")
    then record {
      request_id = request_id;
      type = transfer;
      sender_id = sender;
      receiver_id = key;
      amount = value;
    }
    else record {
      request_id = request_id;
      type = get_balance;
      sender_id = key;
      receiver_id = [];
      amount = pos 0;
    }

-- The position of the first peer with an id, counted from `i`.
unfoldable pub find_peer : ℤ → ℕ → List (ℤ × ℕ) → Option ℕ
find_peer id i [] = none
find_peer id i ((j, port) ∷ peers) = if eq_ℤ j id then some i else find_peer id (i + 1) peers

abbrev pub next_peer : List (ℤ × ℕ) → ℕ → ℕ
next_peer peers current = (current + 1) % length peers

-- `current_leader_index_` after a response without success: the hint, if there is one, or the next
-- peer. A hint that names no peer changes nothing.
unfoldable pub redirect : List (ℤ × ℕ) → ℕ → ClientResponse → ℕ
redirect peers current resp =
    if eq_ℤ resp.leader_hint minus_one
    then next_peer peers current
    else elim (find_peer resp.leader_hint 0 peers) [ none ↦ current | some i ↦ i ]

-- The loop of `runCommand`: at most `attempts` of them, where `network` gives what the next attempt
-- at a position brings. The position for the next request, and whether there was a success.
unfoldable pub run_attempts : ℕ → List (ℤ × ℕ) → (ℕ → ℕ → Attempt) → ℕ → ℕ × Bool
unfolding redirect
run_attempts zero peers network current = (current, false)
run_attempts (suc attempts) peers network current = elim (network attempts current) [
  | failed ↦ run_attempts attempts peers network (next_peer peers current)
  | answered resp ↦ elim (resp.success) [
    | true ↦ (current, true)
    | false ↦ run_attempts attempts peers network (redirect peers current resp)
  ]
]

abbrev pub max_retries : ℕ
max_retries = 5

unfoldable pub run_command : List (ℤ × ℕ) → (ℕ → ℕ → Attempt) → ℕ → ℕ × Bool
unfolding run_attempts
run_command peers network current = run_attempts max_retries peers network current
