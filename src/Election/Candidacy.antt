-- ===== src/Election/Candidacy.antt =====
-- The candidate: its term and vote are on disk before it asks for votes, and it leads only with
-- the votes that it needs.
use raft_distributed_consens.Prelude.{
  ◌∙◌, sym, ℕ, ◌+◌, ◌*◌, ◌<◌, some, true, ℤ, int_bound, IsInt, minus_one, length, ◌≡◌, ◌≢◌, refl,
  arith,
}
use raft_distributed_consens.Messages.{RequestVoteReply}
use raft_distributed_consens.External.{External}
use raft_distributed_consens.Storage.{load_hard_state}
use raft_distributed_consens.Storage.HardState.{load-save_hard_state}
use raft_distributed_consens.Node.{
  Node, ClusterConfig, candidate, leader, become_follower, become_leader,
}
use raft_distributed_consens.Node.Roles.{
  IsPersisted, IsPeer, set_all-IsPeer, become_follower-IsPersisted,
}
use raft_distributed_consens.Election.{
  save_hard_state, votes_needed, begin_election, persist_election, start_election,
  handle_vote_reply,
}

-- Two sets of `votes_needed` peers share a peer: together they exceed the cluster.
pub votes_needed-majority : (config : ClusterConfig) → length config.peers < 2 * votes_needed config
unfolding votes_needed
votes_needed-majority config = omega arith

-- In a cluster of 2k + 1 nodes which lists all its nodes as peers, k + 2 votes are needed: one
-- more than the majority k + 1.
pub votes_needed_odd :
    (config : ClusterConfig) (k : ℕ) → length config.peers ≡ 2 * k + 1 → votes_needed config ≡ k + 2
unfolding votes_needed
votes_needed_odd config k h = omega arith

module _ {Db : Type 0} ⦃env : External Db⦄ where
  -- When `startElection` ends, the candidate's new term and its vote for itself are on disk, if
  -- both are in the range of `int` and no other thread came between.
  pub start_election-IsPersisted :
      (n : Node Db) (now : ℕ)
      → n.current_term + 1 < int_bound
      → IsInt n.config.my_id
      → IsPersisted (start_election n now).0
  unfolding start_election
  start_election-IsPersisted n now h k =
      load-save_hard_state n.storage (n.current_term + 1) n.config.my_id h k

  -- The save without the lock: if the node learns of a greater term between the read of the
  -- values and the save, then the disk is left with the old term and a vote in it. The terms and the
  -- node's id are in the range of `int`.
  pub persist_election_stale :
      (n : Node Db) (now term : ℕ)
      → n.current_term + 1 < term
      → term < int_bound
      → IsInt n.config.my_id
      → let n' = (begin_election n now).0 in
        let late = persist_election (become_follower n' term) n'.current_term n'.voted_for in
        (late.current_term ≡ term)
        × (load_hard_state late.storage ≡ some (n.current_term + 1, n.config.my_id))
        × ¬ IsPersisted late
  unfolding begin_election persist_election become_follower
  persist_election_stale n now term h k m =
      let loaded =
        load-save_hard_state (save_hard_state n.storage term minus_one) (n.current_term + 1)
          n.config.my_id (omega arith) m in
      (refl, loaded, λ e. ground (arith, sym loaded ∙ e))

  -- A node that did not lead leads after a reply only if it is still a candidate in the term of
  -- the request, the reply grants a vote, and this vote is the last one needed. It then starts
  -- with every peer at the end of its own log.
  handle_vote_reply_elects :
      (n : Node Db) (saved_term votes : ℕ) (reply : RequestVoteReply) (id : ℤ)
      → n.state ≢ leader
      → (handle_vote_reply n saved_term votes reply).0.state ≡ leader
      → IsPeer id n.config.peers
      → (n.state ≡ candidate)
        × (n.current_term ≡ saved_term)
        × (reply.vote_granted ≡ true)
        × (votes + 1 ≡ votes_needed n.config)
        × ((handle_vote_reply n saved_term votes reply).0.current_term ≡ saved_term)
        × ((handle_vote_reply n saved_term votes reply).0.next_index id ≡ n.last_log_index + 1)
        × ((handle_vote_reply n saved_term votes reply).0.match_index id ≡ 0)
  unfolding handle_vote_reply become_leader become_follower
  handle_vote_reply_elects n saved_term votes reply id h e peer = ground (
    arith,
    set_all-IsPeer (n.last_log_index + 1) n.config.peers n.next_index id peer,
    set_all-IsPeer 0 n.config.peers n.match_index id peer,
  )

  -- If the term and the vote in memory are on disk before a reply to RequestVote is handled, then
  -- they are on disk afterwards; the term of the reply must be in the range of `int`.
  pub handle_vote_reply-IsPersisted :
      (n : Node Db) (saved_term votes : ℕ) (reply : RequestVoteReply)
      → reply.term < int_bound
      → IsPersisted n
      → IsPersisted (handle_vote_reply n saved_term votes reply).0
  unfolding handle_vote_reply become_leader
  handle_vote_reply-IsPersisted n saved_term votes reply h p =
      ground (arith, become_follower-IsPersisted n reply.term)
