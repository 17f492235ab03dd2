-- ===== src/Node.antt =====
-- RaftNode of include/raft/node.h and src/raft/node.cpp: the state that `mutex_` protects, the
-- constructor, and the two changes of role that the other parts share (src/raft/election.cpp).
-- A handler that holds the lock is one function from the state to the next. Logging, the gRPC
-- server and the threads themselves are left out; time is an argument, in milliseconds.
pub mod Roles
pub mod Recovery
pub mod Peers
pub mod Lifecycle
use raft_distributed_consens.Prelude.{
  ℕ, zero, suc, ◌+◌, ◌<◌, List, [], ◌∷◌, Option, none, some, Bool, true, false, Bytes, ℤ, pos,
  minus_one, eq_ℤ, leb_ℤ, ltb, if◌then◌else◌, ◌>>=◌,
}
use raft_distributed_consens.Messages.{LogEntry}
use raft_distributed_consens.External.{External}
use raft_distributed_consens.Storage.{
  Store, load_hard_state, save_hard_state, get_last_log_index, get_log_entry,
  get_last_applied_index,
}

pub record ClusterConfig : Type 0 where
  pub my_id : ℤ
  pub tcp_port : ℕ
  pub rpc_port : ℕ
  pub peers : List (ℤ × Bytes)

pub data Role : Type 0 where
  follower candidate leader : Role

-- The tests `state_ == …`.
abbrev pub is_follower : Role → Bool
is_follower follower = true
is_follower _ = false

abbrev pub is_candidate : Role → Bool
is_candidate candidate = true
is_candidate _ = false

abbrev pub is_leader : Role → Bool
is_leader leader = true
is_leader _ = false

-- A `std::map` from node ids that is only read by `[]`: a key that is missing has the default.
abbrev pub update {ℓ} : {A : Type ℓ} → (ℤ → A) → ℤ → A → ℤ → A
update m id a j = if eq_ℤ id j then a else m j

-- `pending_callbacks` holds the number of a callback for each request that waits for one, and
-- `peer_stubs` the keys of the map of stubs, in ascending order.
pub record Node (Db : Type 0) : Type 0 where
  pub config : ClusterConfig
  pub storage : Store Db
  pub peer_stubs : List ℤ
  pub current_term : ℕ
  pub voted_for : ℤ
  pub last_log_index : ℕ
  pub last_log_term : ℕ
  pub state : Role
  pub leader_id : ℤ
  pub running : Bool
  pub commit_index : ℕ
  pub last_applied : ℕ
  pub last_heartbeat_time : ℕ
  pub next_index : ℤ → ℕ
  pub match_index : ℤ → ℕ
  pub pending_callbacks : List (Bytes × ℕ)
  pub replication_active : ℤ → Bool

-- A new key in an ordered map.
insert_stub : ℤ → List ℤ → List ℤ
insert_stub id [] = id ∷ []
insert_stub id (j ∷ ids) =
    let rest = insert_stub id ids in
    if eq_ℤ id j then j ∷ ids else if leb_ℤ id j then id ∷ j ∷ ids else j ∷ rest

-- The loop of the constructor over the peers.
unfoldable pub stubs : ℤ → List (ℤ × Bytes) → List ℤ → List ℤ
unfolding insert_stub
stubs my_id [] ids = ids
stubs my_id ((id, address) ∷ peers) ids =
    stubs my_id peers (if eq_ℤ id my_id then ids else insert_stub id ids)

-- The loop of `becomeLeader` over the peers.
unfoldable pub set_all : ℕ → List (ℤ × Bytes) → (ℤ → ℕ) → ℤ → ℕ
set_all v [] m = m
set_all v ((id, address) ∷ peers) m = set_all v peers (update m id v)

module _ {Db : Type 0} ⦃env : External Db⦄ where
  -- The constructor. `none` is an exception of `std::stoi` on what the database holds.
  unfoldable pub make_node : ClusterConfig → Store Db → ℕ → Option (Node Db)
  make_node config storage now = do
    hard_state ← load_hard_state storage
    last_applied ← get_last_applied_index storage
    let last_log_index = get_last_log_index storage
    some (record {
      config = config;
      storage = storage;
      peer_stubs = stubs config.my_id config.peers [];
      current_term = hard_state.0;
      voted_for = hard_state.1;
      last_log_index = last_log_index;
      last_log_term =
          if ltb 0 last_log_index then (get_log_entry storage last_log_index).term else 0;
      state = follower;
      leader_id = minus_one;
      running = false;
      commit_index = 0;
      last_applied = last_applied;
      last_heartbeat_time = now;
      next_index = λ _. 0;
      match_index = λ _. 0;
      pending_callbacks = [];
      replication_active = λ _. false;
    })

  -- `running_` of `start` and `stop`.
  unfoldable pub start : Node Db → Node Db
  start n = if n.running then n else record n { running = true }

  unfoldable pub stop : Node Db → Node Db
  stop n = record n { running = false }

  unfoldable pub become_follower : Node Db → ℕ → Node Db
  become_follower n term = record n {
    state = follower;
    current_term = term;
    voted_for = minus_one;
    storage = save_hard_state n.storage term minus_one;
  }

  -- `if (args.term() > currentTerm_) becomeFollower(args.term());`, as two handlers begin.
  unfoldable pub observe_term : Node Db → ℕ → Node Db
  observe_term n term = if ltb n.current_term term then become_follower n term else n

  unfoldable pub become_leader : Node Db → Node Db
  become_leader n =
      if is_candidate n.state
      then record n {
        state = leader;
        leader_id = n.config.my_id;
        next_index = set_all (n.last_log_index + 1) n.config.peers n.next_index;
        match_index = set_all 0 n.config.peers n.match_index;
      }
      else n
