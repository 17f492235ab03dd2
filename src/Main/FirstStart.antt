-- ===== src/Main/FirstStart.antt =====
-- The nodes of the main program on empty disks.
use raft_distributed_consens.Main.Console.{Row, check_user, check_node, role_str}
use raft_distributed_consens.Main.{NodeConfig, db_path, raft_config, construct_node, start_nodes}
use raft_distributed_consens.Node.{Node, ClusterConfig, make_node, start, stubs, follower}
use raft_distributed_consens.Storage.Genesis.{genesis_balances, at-initialize_genesis_data}
use raft_distributed_consens.Storage.Keys.{
  Key, key_bytes, key_eq, acct, meta_term, meta_vote, sys_last_applied,
}
use raft_distributed_consens.Storage.{
  Store, at, open_store, read_int, get_last_log_index, get_last_applied_index, load_hard_state,
  initialize_genesis_data,
}
use raft_distributed_consens.Text.{to_string}
use raft_distributed_consens.External.{External}
use raft_distributed_consens.Prelude.{
  ℕ, ◌≤◌, List, [], ◌∷◌, none, some, Bytes, codes, pos, minus_one, false, ◌≡◌, inl, inr,
  Option-cases, refl, ◌∙◌,
}

-- What is printed for an account when nothing has happened yet.
abbrev first_row : NodeConfig → Row
first_row cfg = record {
  node = cfg.id;
  role = codes "FOLLOWER";
  balance = pos 100000;
  log_index = 0;
}

abbrev pub first_rows : List NodeConfig → List Row
first_rows [] = []
first_rows (cfg ∷ configs) = first_row cfg ∷ first_rows configs

module _ {Db : Type 0} ⦃env : External Db⦄ where
  open env.rocks use {get}

  abbrev pub IsEmpty : Db → Type 0
  IsEmpty db = (k : Bytes) → get db k ≡ none

  abbrev empty_store : Db → Store Db
  empty_store db = record { db = db; last_log_index_cache = 0 }

  -- A node that was started for the first time, on the storage `s`.
  abbrev first_node : ClusterConfig → Store Db → ℕ → Node Db
  first_node config s now = record {
    config = config;
    storage = s;
    peer_stubs = stubs config.my_id config.peers [];
    current_term = 0;
    voted_for = minus_one;
    last_log_index = 0;
    last_log_term = 0;
    state = follower;
    leader_id = minus_one;
    running = false;
    commit_index = 0;
    last_applied = 0;
    last_heartbeat_time = now;
    next_index = λ _. 0;
    match_index = λ _. 0;
    pending_callbacks = [];
    replication_active = λ _. false;
  }

  open_store-IsEmpty : (db : Db) → IsEmpty db → open_store db ≡ some (empty_store db)
  unfolding open_store read_int
  open_store-IsEmpty db e = rw (e _) refl

  make_node-first :
      (config : ClusterConfig) (s : Store Db) (now : ℕ)
      → s.last_log_index_cache ≡ 0
      → at s meta_term ≡ none
      → at s meta_vote ≡ none
      → at s sys_last_applied ≡ none
      → make_node config s now ≡ some (first_node config s now)
  unfolding make_node load_hard_state get_last_applied_index read_int get_last_log_index
  make_node-first config s now short no_term no_vote unapplied =
      rw (short, no_term, no_vote, unapplied) refl

  genesis-cache :
      (s : Store Db) → (initialize_genesis_data s).last_log_index_cache ≡ s.last_log_index_cache
  unfolding initialize_genesis_data
  genesis-cache s = elim (Option-cases (at s (acct (codes "1")))) [
    | inl fresh ↦ rw (fresh, initialize_genesis_data) refl
    | inr (v, there) ↦ rw (there, initialize_genesis_data) refl
  ]

  -- The node that the main program makes of an empty disk.
  abbrev first_of : List NodeConfig → Db → ℕ → NodeConfig → Node Db
  first_of configs db now cfg =
      start (first_node (raft_config configs cfg) (initialize_genesis_data (empty_store db)) now)

  construct_node-first :
      (configs : List NodeConfig) (disk : Bytes → Db) (now : ℕ) (cfg : NodeConfig)
      → IsEmpty (disk (db_path cfg))
      → let config = raft_config configs cfg in
        let s = initialize_genesis_data (empty_store (disk (db_path cfg))) in
        construct_node configs disk now cfg ≡ some (first_node config s now)
  unfolding construct_node
  construct_node-first configs disk now cfg e =
      let db = disk (db_path cfg) in
      let s = initialize_genesis_data (empty_store db) in
      let gone : (k : Key) → ((a : Bytes) → key_eq (acct a) k ≡ false) → at s k ≡ none =
        λ k other. at-initialize_genesis_data (empty_store db) k other ∙ e (key_bytes k) in
      let made : make_node (raft_config configs cfg) s now
          ≡ some (first_node (raft_config configs cfg) s now) =
        make_node-first (raft_config configs cfg) s now (genesis-cache (empty_store db))
          (gone meta_term (λ a. refl)) (gone meta_vote (λ a. refl))
          (gone sys_last_applied (λ a. refl)) in
      rw (open_store-IsEmpty db e, made) refl

  check_node-first :
      (configs : List NodeConfig) (db : Db) (now j : ℕ) (cfg : NodeConfig)
      → IsEmpty db
      → 1 ≤ j
      → j ≤ 9000
      → check_node (to_string (pos j)) (first_of configs db now cfg) ≡ some (first_row cfg)
  unfolding check_node start get_last_log_index raft_config role_str
  check_node-first configs db now j cfg e low high =
      elim (genesis_balances (empty_store db) j low high) [
        | inl (fresh, holds) ↦ rw (holds, genesis-cache (empty_store db)) refl
        | inr (there, kept) ↦ absurd (there (e _))
      ]

  first_start_lem :
      (all configs : List NodeConfig) (disk : Bytes → Db) (now j : ℕ)
      → ((path : Bytes) → IsEmpty (disk path))
      → 1 ≤ j
      → j ≤ 9000
      → (nodes : List (Node Db)) × (start_nodes all disk now configs ≡ some nodes)
        × (check_user (to_string (pos j)) nodes ≡ some (first_rows configs))
  unfolding start_nodes check_user
  first_start_lem all [] disk now j e low high = ([], refl, refl)
  first_start_lem all (cfg ∷ configs) disk now j e low high =
      let (nodes, started, rows) = first_start_lem all configs disk now j e low high in
      (
        first_of all (disk (db_path cfg)) now cfg ∷ nodes,
        rw (construct_node-first all disk now cfg (e _), started) refl,
        rw (check_node-first all (disk (db_path cfg)) now j cfg (e _) low high, rows) refl,
      )

  -- On empty disks the main program starts all nodes, and a check of any of the accounts 1 to 9000
  -- then prints a row for each node of the configuration, in its order: a follower with the balance
  -- 100000 and an empty log.
  pub first_start :
      (configs : List NodeConfig) (disk : Bytes → Db) (now j : ℕ)
      → ((path : Bytes) → IsEmpty (disk path))
      → 1 ≤ j
      → j ≤ 9000
      → (nodes : List (Node Db)) × (start_nodes configs disk now configs ≡ some nodes)
        × (check_user (to_string (pos j)) nodes ≡ some (first_rows configs))
  first_start configs disk now j = first_start_lem configs configs disk now j
