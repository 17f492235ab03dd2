-- ===== src/Main/Boot.antt =====
-- The cluster that the main program builds is one in which elections are safe.
use raft_distributed_consens.Cluster.Safety.{Run-Reach, election_safety}
use raft_distributed_consens.Main.{NodeConfig, rpc_peers, raft_config, construct_node}
use raft_distributed_consens.Cluster.{Cluster, unsent, Starts, Run, first}
use raft_distributed_consens.Election.{votes_needed}
use raft_distributed_consens.Node.Peers.{elem, ids}
use raft_distributed_consens.Node.Recovery.{make_node-fields, bind-some}
use raft_distributed_consens.Node.{Node, make_node, ClusterConfig, leader}
use raft_distributed_consens.Storage.{Store, open_store, initialize_genesis_data}
use raft_distributed_consens.External.{External}
use raft_distributed_consens.Prelude.{
  ℕ, ◌+◌, ◌*◌, List, [], ◌∷◌, some, false, true, Bytes, ℤ, minus_one, length, ◌≡◌, refl, arith,
  subst, sym,
}

abbrev pub node_ids : List NodeConfig → List ℤ
node_ids [] = []
node_ids (cfg ∷ configs) = cfg.id ∷ node_ids configs

ids-rpc_peers : (configs : List NodeConfig) → ids (rpc_peers configs) ≡ node_ids configs
unfolding rpc_peers
ids-rpc_peers [] = refl
ids-rpc_peers (cfg ∷ configs) = rw (ids-rpc_peers configs) refl

length-rpc_peers : (configs : List NodeConfig) → length (rpc_peers configs) ≡ length configs
unfolding rpc_peers
length-rpc_peers [] = refl
length-rpc_peers (cfg ∷ configs) = omega (arith, length-rpc_peers configs)

length-node_ids : (configs : List NodeConfig) → length (node_ids configs) ≡ length configs
length-node_ids [] = refl
length-node_ids (cfg ∷ configs) = omega (arith, length-node_ids configs)

-- In a program that runs 2k + 1 nodes each node waits for k + 2 votes, its own included: one more
-- than the majority k + 1.
votes_needed-raft_config :
    (configs : List NodeConfig) (cfg : NodeConfig) (k : ℕ)
    → length configs ≡ 2 * k + 1
    → votes_needed (raft_config configs cfg) ≡ k + 2
unfolding votes_needed raft_config
votes_needed-raft_config configs cfg k h = omega (arith, length-rpc_peers configs)

module _ {Db : Type 0} ⦃env : External Db⦄ where
  construct_node-config :
      (configs : List NodeConfig) (disk : Bytes → Db) (now : ℕ) (cfg : NodeConfig) (n : Node Db)
      → construct_node configs disk now cfg ≡ some n
      → n.config ≡ raft_config configs cfg
  unfolding construct_node
  construct_node-config configs disk now cfg n h =
      let (storage, opened, made) = bind-some (open_store (disk _)) h in
      (make_node-fields (raft_config configs cfg) (initialize_genesis_data storage) now n made).0

  construct_node-make_node :
      (configs : List NodeConfig) (disk : Bytes → Db) (now : ℕ) (cfg : NodeConfig) (n : Node Db)
      → construct_node configs disk now cfg ≡ some n
      → (storage : Store Db) × (now : ℕ) × (make_node n.config storage now ≡ some n)
  unfolding construct_node
  construct_node-make_node configs disk now cfg n h =
      let (storage, opened, made) = bind-some (open_store (disk _)) h in
      let base = initialize_genesis_data storage in
      let config = construct_node-config configs disk now cfg n h in
      (base, now, subst (λ (c : ClusterConfig). make_node c base now ≡ some n) (sym config) made)

  -- The nodes before any of them has been started.
  abbrev pub unstarted : (ℤ → Node Db) → Cluster Db
  unstarted nodes = record {
    nodes = nodes;
    phase = λ c t p. unsent;
    votes = λ c t. 0;
    led = λ c t. false;
    appends = [];
  }

  pub construct_node-Starts :
      (configs : List NodeConfig) (disk : Bytes → Db) (now : ℕ) (cfg : ℤ → NodeConfig)
      (nodes : ℤ → Node Db)
      → ((v : ℤ) → (cfg v).id ≡ v)
      → ((v : ℤ) → construct_node configs disk now (cfg v) ≡ some (nodes v))
      → elem minus_one (node_ids configs) ≡ false
      → Starts (node_ids configs) (unstarted nodes)
  unfolding raft_config
  construct_node-Starts configs disk now cfg nodes names built proper = record {
    made = λ v. construct_node-make_node configs disk now (cfg v) (nodes v) (built v);
    quiet = λ c t p. refl;
    uncounted = λ c t. refl;
    unled = λ c t. refl;
    silent = refl;
    named = λ v.
        ground (arith, construct_node-config configs disk now (cfg v) (nodes v) (built v), names v);
    listed = λ v p h.
        let config = construct_node-config configs disk now (cfg v) (nodes v) (built v) in
        subst (λ (ps : List ℤ). elem p ps ≡ true) (ids-rpc_peers configs)
          (subst (λ (c : ClusterConfig). elem p (ids c.peers) ≡ true) config h);
    sized = λ v.
        let config = construct_node-config configs disk now (cfg v) (nodes v) (built v) in
        rw config omega (arith, length-rpc_peers configs, length-node_ids configs);
    proper = proper;
  }

  -- In a cluster of the nodes that the main program constructs, each at its id and whatever is on
  -- the disks, a term has at most one leader: if a node leads after some steps, and a node leads in
  -- the same term then or after any further steps, then they are the same node. No node of the
  -- configuration has the id -1, which stands for no vote; an id that is not in the configuration
  -- stands for a node that nobody asks.
  pub booted_election_safety :
      (configs : List NodeConfig) (disk : Bytes → Db) (now : ℕ) (cfg : ℤ → NodeConfig)
      (nodes : ℤ → Node Db) {s t : Cluster Db} (c d : ℤ)
      → ((v : ℤ) → (cfg v).id ≡ v)
      → ((v : ℤ) → construct_node configs disk now (cfg v) ≡ some (nodes v))
      → elem minus_one (node_ids configs) ≡ false
      → Run (node_ids configs) (unstarted nodes) s
      → Run (node_ids configs) s t
      → (s.nodes c).state ≡ leader
      → (t.nodes d).state ≡ leader
      → (s.nodes c).current_term ≡ (t.nodes d).current_term
      → c ≡ d
  booted_election_safety configs disk now cfg nodes c d names built proper run later leads reigns
        same =
      let started = construct_node-Starts configs disk now cfg nodes names built proper in
      election_safety (node_ids configs) c d (Run-Reach (node_ids configs) (first started) run)
        later leads reigns same
