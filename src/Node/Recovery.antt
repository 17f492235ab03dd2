-- ===== src/Node/Recovery.antt =====
-- A restart: the constructors of RocksDBStore and RaftNode on what a node has left on disk.
use raft_distributed_consens.Replication.LogShape.{IsLogOk}
use raft_distributed_consens.Node.Roles.{IsPersisted}
use raft_distributed_consens.Node.{Node, follower, make_node, stubs, ClusterConfig}
use raft_distributed_consens.Storage.Keys.{
  sys_last_log_index, sys_last_applied, meta_term, meta_vote,
}
use raft_distributed_consens.Storage.{
  Store, at, read_int, open_store, get_last_log_index, get_last_applied_index, get_log_entry,
  load_hard_state,
}
use raft_distributed_consens.External.{External}
use raft_distributed_consens.Text.RoundTrip.{stoi-to_string}
use raft_distributed_consens.Text.{to_string}
use raft_distributed_consens.Prelude.{
  ℕ, ℤ, pos, Option, some, ◌≡◌, refl, arith, ap, ◌>>=◌, [], false, ltb, if◌then◌else◌, minus_one,
  none, IsInt, sym, inl, inr, ◌⊎◌, Bytes,
}

pub bind-some :
    {A B : Type 0} (x : Option A) {f : A → Option B} {y : B}
    → (x >>= f) ≡ some y
    → (a : A) × (x ≡ some a) × (f a ≡ some y)
bind-some none h = cc
bind-some (some a) h = (a, refl, h)

-- What is on disk for a number: its text, or nothing while it has its first value.
abbrev pub IsText : Option Bytes → ℤ → ℤ → Type 0
IsText o first z = ((o ≡ some (to_string z)) × IsInt z) ⊎ ((o ≡ none) × (z ≡ first))

IsText-read_int : (o : Option Bytes) (first z : ℤ) → IsText o first z → read_int first o ≡ some z
unfolding read_int
IsText-read_int o first z (inl (text, fits)) = rw text (stoi-to_string z fits)
IsText-read_int o first z (inr (missing, same)) = rw missing (ap some (sym same))

module _ {Db : Type 0} ⦃env : External Db⦄ where
  -- The disk of a node has the text of its term and vote, of the index of its last entry and of its
  -- applied index; each may be missing while it has its first value.
  pub record IsOnDisk (n : Node Db) : Type 0 where
    pub term : IsText (at n.storage meta_term) (pos 0) (pos n.current_term)
    pub vote : IsText (at n.storage meta_vote) minus_one n.voted_for
    pub last : IsText (at n.storage sys_last_log_index) (pos 0) (pos n.last_log_index)
    pub applied : IsText (at n.storage sys_last_applied) (pos 0) (pos n.last_applied)

  -- What the constructors read on such a disk.
  module _ (n : Node Db) (disk : IsOnDisk n) where
    IsOnDisk-hard_state : load_hard_state n.storage ≡ some (n.current_term, n.voted_for)
    unfolding load_hard_state
    IsOnDisk-hard_state =
        rw
          (
            IsText-read_int (at n.storage meta_term) _ _ disk.term,
            IsText-read_int (at n.storage meta_vote) _ _ disk.vote,
          )
          refl

    IsOnDisk-applied : get_last_applied_index n.storage ≡ some n.last_applied
    unfolding get_last_applied_index
    IsOnDisk-applied = rw (IsText-read_int (at n.storage sys_last_applied) _ _ disk.applied) refl

    IsOnDisk-open_store :
        n.storage.last_log_index_cache ≡ n.last_log_index → open_store n.storage.db ≡ some n.storage
    unfolding open_store
    IsOnDisk-open_store cached =
        rw (IsText-read_int (at n.storage sys_last_log_index) _ _ disk.last)
          (ap (λ (i : ℕ). some (record n.storage { last_log_index_cache = i })) (sym cached))

  -- Opening the database of a node and constructing a node on it.
  abbrev pub restarted : Node Db → ℕ → Option (Node Db)
  restarted n now = do s ← open_store n.storage.db; make_node n.config s now

  -- A node comes back from a restart with its term, its vote, its applied index and its storage,
  -- with each entry of its log and all accounts, as a follower that has committed nothing, and its
  -- memory describes the stored log. Its memory described the log before, and the disk has the text
  -- of the term, the vote and the two indices, or nothing for one that still has its first value.
  pub restart_restores :
      (n : Node Db) (now : ℕ)
      → IsLogOk n
      → IsOnDisk n
      → (n' : Node Db) × (restarted n now ≡ some n')
        × (n'.current_term ≡ n.current_term)
        × (n'.voted_for ≡ n.voted_for)
        × (n'.last_log_index ≡ n.last_log_index)
        × (n'.last_applied ≡ n.last_applied)
        × (n'.storage ≡ n.storage)
        × (n'.state ≡ follower)
        × (n'.commit_index ≡ 0)
        × IsLogOk n'
  unfolding make_node get_last_log_index
  restart_restores n now ok disk =
      let last = n.storage.last_log_index_cache in
      let n' : Node Db = record {
        config = n.config;
        storage = n.storage;
        peer_stubs = stubs n.config.my_id n.config.peers [];
        current_term = n.current_term;
        voted_for = n.voted_for;
        last_log_index = last;
        last_log_term = if ltb 0 last then (get_log_entry n.storage last).term else 0;
        state = follower;
        leader_id = minus_one;
        running = false;
        commit_index = 0;
        last_applied = n.last_applied;
        last_heartbeat_time = now;
        next_index = λ _. 0;
        match_index = λ _. 0;
        pending_callbacks = [];
        replication_active = λ _. false;
      } in
      (
        n',
        rw
            (
              IsOnDisk-open_store n disk ok.cached,
              IsOnDisk-hard_state n disk,
              IsOnDisk-applied n disk,
            )
            refl,
        refl,
        refl,
        ok.cached,
        refl,
        refl,
        refl,
        refl,
        record { cached = refl; last_term = λ h. ground arith },
      )

  -- What the constructor makes is a follower with the term and vote on disk and a stub for each
  -- other peer.
  pub make_node-fields :
      (config : ClusterConfig) (s : Store Db) (now : ℕ) (n : Node Db)
      → make_node config s now ≡ some n
      → (n.config ≡ config)
        × (n.peer_stubs ≡ stubs config.my_id config.peers [])
        × (n.state ≡ follower)
        × (load_hard_state s ≡ some (n.current_term, n.voted_for))
  unfolding make_node
  make_node-fields config s now n h = ground (arith, h)

  open_store-db : (s : Store Db) (t : Store Db) → open_store s.db ≡ some t → t.db ≡ s.db
  unfolding open_store
  open_store-db s t h = ground (arith, h)

  load_hard_state-db : (s t : Store Db) → s.db ≡ t.db → load_hard_state s ≡ load_hard_state t
  unfolding load_hard_state
  load_hard_state-db s t h = rw h refl

  -- A node whose hard state was saved restarts with its term and its vote.
  pub restarted-fields :
      (n n' : Node Db) (now : ℕ)
      → IsPersisted n
      → restarted n now ≡ some n'
      → (n'.config ≡ n.config)
        × (n'.peer_stubs ≡ stubs n.config.my_id n.config.peers [])
        × (n'.state ≡ follower)
        × (n'.current_term ≡ n.current_term)
        × (n'.voted_for ≡ n.voted_for)
  restarted-fields n n' now persisted h =
      let (s, opened, made) = bind-some (open_store n.storage.db) h in
      let same = load_hard_state-db s n.storage (open_store-db n.storage s opened) in
      let fields = make_node-fields n.config s now n' made in
      ground (arith, fields, same, persisted)
