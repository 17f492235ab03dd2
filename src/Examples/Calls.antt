-- ===== src/Examples/Calls.antt =====
-- A leader and a peer with an empty log, with calls that are lost.
use raft_distributed_consens.Replication.Manager.Workers.{workers_of, one_worker}
use raft_distributed_consens.Replication.Manager.{
  Manager, begin_pass, visit_peer, Managed, idle, then_step, begins_pass, visits,
}
use raft_distributed_consens.Replication.Leader.{IsCommitted}
use raft_distributed_consens.Replication.{count_matches}
use raft_distributed_consens.Messages.{LogEntry}
use raft_distributed_consens.Node.Peers.{elem}
use raft_distributed_consens.Rpc.Commit.{IsPending, quorum_commits}
use raft_distributed_consens.Examples.Environment.{Pairs, environment}
use raft_distributed_consens.Examples.Nodes.{
  fresh, head, fresh-IsLogOk, holder-entry, holder-Indexed,
}
use raft_distributed_consens.Node.{Node, leader}
use raft_distributed_consens.Rpc.{
  Fate, unserved, unanswered, answered, replicate, replicate_all, answers_to,
}
use raft_distributed_consens.Storage.{get_log_entry}
use raft_distributed_consens.Rpc.Calls.{IsWhole, LogMatches}
use raft_distributed_consens.Rpc.CatchUp.{caught_up}
use raft_distributed_consens.Prelude.{
  ℕ, List, [], ◌∷◌, some, pos, ◌≡◌, refl, arith, ℤ, eq_ℤ, true, inl, ap, ◌≤◌, ◌<◌, ◌↔◌,
}

abbrev elected : Node Pairs
elected = record head { match_index = λ _. 0 }

elected-IsWhole : IsWhole elected.storage 1
elected-IsWhole = record {
  indexed = holder-Indexed;
  intact = λ j low high. ground (arith, holder-entry j);
}

fresh-LogMatches : LogMatches elected.storage 1 fresh
fresh-LogMatches = λ j low high le same. absurd (omega arith)

abbrev cycles : List (Fate × ℕ)
cycles =
    (answered, 11)
    ∷ (unserved, 12)
    ∷ (unanswered, 13)
    ∷ (answered, 14)
    ∷ (answered, 15)
    ∷ (answered, 16)
    ∷ []

caught_up_example :
    (nodes : Node Pairs × Node Pairs) × (replicate cycles (pos 2) elected fresh ≡ some nodes)
    × (nodes.0.state ≡ leader)
    × (nodes.0.next_index (pos 2) ≡ 2)
    × (1 ≤ nodes.1.last_log_index)
    × ((j : ℕ) → 0 < j → j ≤ 1 → get_log_entry nodes.1.storage j ≡ get_log_entry elected.storage j)
caught_up_example =
    caught_up cycles (pos 2) elected fresh refl elected-IsWhole refl (omega arith) (omega arith)
      fresh-IsLogOk (omega arith) fresh-LogMatches (λ j low high le same. absurd (omega arith))
      (omega arith)

-- A leader with one entry, which it has sent to nobody, and two peers.
abbrev proposer : Node Pairs
proposer = record head { next_index = λ _. 1; match_index = λ _. 0 }

abbrev both : List ℤ
both = pos 2 ∷ pos 3 ∷ []

abbrev schedule : List (ℤ × Fate × ℕ)
schedule =
    (pos 2, answered, 11)
    ∷ (pos 3, unserved, 11)
    ∷ (pos 3, answered, 12)
    ∷ (pos 2, answered, 13)
    ∷ (pos 3, answered, 14)
    ∷ (pos 2, unanswered, 15)
    ∷ (pos 3, answered, 16)
    ∷ (pos 2, answered, 17)
    ∷ []

proposer-IsCommitted : IsCommitted proposer
unfolding count_matches eq_ℤ
proposer-IsCommitted = λ j le c. ground (arith, c)

fresh-IsPending : (p : ℤ) → IsPending proposer fresh p
fresh-IsPending p = record {
  known = omega arith;
  unsent = omega arith;
  held = inl refl;
  peer_ok = fresh-IsLogOk;
  young = omega arith;
  matches = fresh-LogMatches;
}

enough_answers : (p : ℤ) → elem p both ≡ true → (elem p both ≡ true) × (3 ≤ answers_to p schedule)
enough_answers p listed = (listed, ground (arith, listed))

quorum_commits_example :
    (done : Node Pairs × (ℤ → Node Pairs)) × (replicate_all schedule proposer (λ _. fresh)
      ≡ some done)
    × (done.0.state ≡ leader)
    × (1 ≤ done.0.commit_index)
unfolding count_matches eq_ℤ
quorum_commits_example =
    quorum_commits both both schedule proposer (λ _. fresh) refl elected-IsWhole (omega arith)
      (ap (λ (e : LogEntry). e.term) (holder-entry 1)) proposer-IsCommitted
      (λ p listed. fresh-IsPending p)
      (refl, (refl, (refl, (refl, (refl, (refl, (refl, (refl, tt)))))))) enough_answers
      (omega arith)

-- The leader starts a thread for each of its peers.
abbrev visited : Manager Pairs
visited =
    visit_peer (begin_pass (record { node = proposer; target_peers = []; workers = [] })) (pos 2)
      (pos 3 ∷ [])

visited-Managed : Managed visited
unfolding begin_pass
visited-Managed = then_step (then_step (idle (λ peer. refl)) (begins_pass refl refl)) (visits refl)

one_worker_example :
    (workers_of (pos 2) visited.workers ≤ 1)
    × ((visited.node.replication_active (pos 2) ≡ true) ↔ (workers_of (pos 2) visited.workers ≡ 1))
one_worker_example = one_worker (pos 2) visited-Managed
