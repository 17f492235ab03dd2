-- ===== src/Main.antt =====
-- src/main.cpp: the configuration of the nodes, their construction, and the clients.
-- The configuration file has been read, and `disk` is what is stored at each path. Logging, the menu
-- and the gateways' threads are left out.
pub mod Boot
pub mod Console
pub mod FirstStart
use raft_distributed_consens.Node.{Node, ClusterConfig, make_node, start}
use raft_distributed_consens.Storage.{Store, open_store, initialize_genesis_data}
use raft_distributed_consens.External.{External}
use raft_distributed_consens.Text.{to_string}
use raft_distributed_consens.Prelude.{
  ℕ, List, [], ◌∷◌, ◌++◌, Option, some, ◌>>=◌, Bytes, codes, ℤ, pos,
}

pub record NodeConfig : Type 0 where
  pub id : ℤ
  pub rpc_port : ℕ
  pub tcp_port : ℕ
  pub host : Bytes

-- Every node of the configuration, the node itself included.
unfoldable pub rpc_peers : List NodeConfig → List (ℤ × Bytes)
rpc_peers [] = []
rpc_peers (peer ∷ peers) =
    (peer.id, peer.host ++ codes ":" ++ to_string (pos peer.rpc_port)) ∷ rpc_peers peers

unfoldable pub raft_config : List NodeConfig → NodeConfig → ClusterConfig
raft_config node_configs cfg = record {
  my_id = cfg.id;
  tcp_port = cfg.tcp_port;
  rpc_port = cfg.rpc_port;
  peers = rpc_peers node_configs;
}

unfoldable pub tcp_peers : List NodeConfig → List (ℤ × ℕ)
tcp_peers [] = []
tcp_peers (cfg ∷ configs) = (cfg.id, cfg.tcp_port) ∷ tcp_peers configs

abbrev pub db_path : NodeConfig → Bytes
db_path cfg = codes "data/node_" ++ to_string cfg.id

module _ {Db : Type 0} ⦃env : External Db⦄ where
  -- The storage of a node with the first accounts, and the node on it.
  unfoldable pub construct_node : List NodeConfig → (Bytes → Db) → ℕ → NodeConfig → Option (Node Db)
  unfolding raft_config
  construct_node node_configs disk now cfg = do
    storage ← open_store (disk (db_path cfg))
    make_node (raft_config node_configs cfg) (initialize_genesis_data storage) now

  -- The loop over the nodes. `none` is an exception of one of the constructors.
  unfoldable pub start_nodes :
      List NodeConfig → (Bytes → Db) → ℕ → List NodeConfig → Option (List (Node Db))
  unfolding construct_node
  start_nodes node_configs disk now [] = some []
  start_nodes node_configs disk now (cfg ∷ configs) = do
    node ← construct_node node_configs disk now cfg
    nodes ← start_nodes node_configs disk now configs
    some (start node ∷ nodes)
