-- ===== src/Examples/Mains.antt =====
-- The main program with three nodes on disks that hold the first account.
use raft_distributed_consens.Examples.Environment.{Pairs, environment}
use raft_distributed_consens.Main.{NodeConfig, construct_node, raft_config, rpc_peers, start_nodes}
use raft_distributed_consens.Main.Console.{check_user}
use raft_distributed_consens.Main.FirstStart.{first_start, first_rows}
use raft_distributed_consens.Text.{to_string}
use raft_distributed_consens.Storage.{
  open_store, initialize_genesis_data, load_hard_state, get_last_applied_index, get_last_log_index,
}
use raft_distributed_consens.Storage.Keys.{key_bytes, acct}
use raft_distributed_consens.Node.{Node, follower, stubs, make_node}
use raft_distributed_consens.Prelude.{
  ℤ, List, [], ◌∷◌, pos, minus_one, codes, false, some, Bytes, ◌≡◌, refl, bytes_eq, arith,
}

abbrev pub node_config : ℤ → NodeConfig
node_config v = record { id = v; rpc_port = 50051; tcp_port = 9001; host = codes "h" }

abbrev pub node_configs : List NodeConfig
node_configs = node_config (pos 1) ∷ node_config (pos 2) ∷ node_config (pos 3) ∷ []

abbrev pub disk : Bytes → Pairs
disk path = (key_bytes (acct (codes "1")), codes "1000") ∷ []

abbrev pub built : ℤ → Node Pairs
built v = record {
  config = raft_config node_configs (node_config v);
  storage = record { db = disk []; last_log_index_cache = 0 };
  peer_stubs = stubs v (rpc_peers node_configs) [];
  current_term = 0;
  voted_for = minus_one;
  last_log_index = 0;
  last_log_term = 0;
  state = follower;
  leader_id = minus_one;
  running = false;
  commit_index = 0;
  last_applied = 0;
  last_heartbeat_time = 0;
  next_index = λ _. 0;
  match_index = λ _. 0;
  pending_callbacks = [];
  replication_active = λ _. false;
}

pub construct_node-built :
    (v : ℤ) → construct_node node_configs disk 0 (node_config v) ≡ some (built v)
unfolding bytes_eq key_bytes construct_node open_store initialize_genesis_data make_node
    load_hard_state get_last_applied_index get_last_log_index
construct_node-built v = refl

abbrev blank : Bytes → Pairs
blank path = []

first_start_example :
    (nodes : List (Node Pairs)) × (start_nodes node_configs blank 5 node_configs ≡ some nodes)
    × (check_user (to_string (pos 7)) nodes ≡ some (first_rows node_configs))
first_start_example =
    first_start node_configs blank 5 7 (λ path k. refl) (omega arith) (omega arith)
