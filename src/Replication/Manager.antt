-- ===== src/Replication/Manager.antt =====
-- `runReplicationManager` of src/raft/replication.cpp: the passes of the replication thread over the
-- peers, and the detached threads that it starts, which the busy flags of the peers hold back.
pub mod Workers
use raft_distributed_consens.Prelude.{
  ℕ, ◌+◌, List, [], ◌∷◌, ◌++◌, Bool, true, false, ℤ, eq_ℤ, if◌then◌else◌, ◌≡◌, ◌↔◌, ◌≤◌,
}
use raft_distributed_consens.External.{External}
use raft_distributed_consens.Node.{Node, is_leader, make_node}
use raft_distributed_consens.Replication.{claim_peer, release_peer}

-- The node, the peers that are left of the pass, and the peer of each worker: a thread that was
-- started and has not yet marked its peer as done.
pub record Manager (Db : Type 0) : Type 0 where
  pub node : Node Db
  pub target_peers : List ℤ
  pub workers : List ℤ

module _ {Db : Type 0} ⦃env : External Db⦄ where
  -- Step 1: the peers of a pass; none if the node does not lead.
  unfoldable pub begin_pass : Manager Db → Manager Db
  begin_pass m = record m {
    target_peers = if is_leader m.node.state then m.node.peer_stubs else [];
  }

  -- Step 2, for the next peer.
  unfoldable pub visit_peer : Manager Db → ℤ → List ℤ → Manager Db
  unfolding claim_peer
  visit_peer m peer rest =
      let claimed = claim_peer m.node peer in
      record {
        node = claimed.0;
        target_peers = rest;
        workers = if claimed.1 then peer ∷ m.workers else m.workers;
      }

  -- A worker's last locked part. The workers before and after it go on.
  unfoldable pub finish_worker : Manager Db → List ℤ → ℤ → List ℤ → Manager Db
  finish_worker m before peer after = record m {
    node = release_peer m.node peer;
    workers = before ++ after;
  }

  -- The steps of the thread and of its workers, and those of the node's other parts, which leave the
  -- flags as they are.
  pub data ManagerStep (m : Manager Db) : Manager Db → Type 0 where
    begins_pass : m.node.running ≡ true → m.target_peers ≡ [] → ManagerStep m (begin_pass m)
    visits :
        {peer : ℤ} {rest : List ℤ}
        → m.target_peers ≡ peer ∷ rest
        → ManagerStep m (visit_peer m peer rest)
    finishes :
        (before : List ℤ) (peer : ℤ) (after : List ℤ)
        → m.workers ≡ before ++ (peer ∷ after)
        → ManagerStep m (finish_worker m before peer after)
    changes :
        (node : Node Db)
        → ((peer : ℤ) → node.replication_active peer ≡ m.node.replication_active peer)
        → ManagerStep m (record m { node = node })

  -- From a node without workers, such as one that was constructed.
  pub data Managed : Manager Db → Type 0 where
    idle :
        {node : Node Db}
        → ((peer : ℤ) → node.replication_active peer ≡ false)
        → Managed (record { node = node; target_peers = []; workers = [] })
    then_step : {m m' : Manager Db} → Managed m → ManagerStep m m' → Managed m'
