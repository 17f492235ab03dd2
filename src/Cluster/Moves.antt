-- ===== src/Cluster/Moves.antt =====
-- What each handler does to the part of a node that elections are about: role, term and vote.
use raft_distributed_consens.Replication.Follower.{append_all-SameRole}
use raft_distributed_consens.Cluster.{
  Internal, persist, append_replied, snapshot_replied, snapshot_installed, requested, applied,
  stored, claimed, released, started, stopped,
}
use raft_distributed_consens.Execution.{notify, maybe_compact}
use raft_distributed_consens.Requests.{process_client_request, append_request}
use raft_distributed_consens.Transfer.{handle_snapshot_reply, handle_install_snapshot}
use raft_distributed_consens.Replication.{
  handle_append_reply, backtrack, on_success, note_match, advance_commit, handle_append_entries,
  claim_peer, release_peer, follow_leader, learn_commit,
}
use raft_distributed_consens.Election.{
  votes_needed, persist_election, handle_vote_reply, handle_request_vote, decide_vote, can_vote,
}
use raft_distributed_consens.Node.{
  Node, follower, candidate, leader, start, stop, become_follower, become_leader, observe_term,
}
use raft_distributed_consens.External.{External}
use raft_distributed_consens.Messages.{
  RequestVoteArgs, RequestVoteReply, AppendEntriesArgs, AppendEntriesReply, InstallSnapshotArgs,
  LogEntry, ClientRequest,
}
use raft_distributed_consens.Prelude.{
  ℕ, ◌+◌, ◌<◌, List, [], ◌∷◌, true, false, ℤ, minus_one, eq_ℤ_iff, ◌≡◌, ◌≢◌, ◌⊎◌, arith,
}

module _ {Db : Type 0} where
  -- The configuration and the peers never change.
  abbrev pub Kept : Node Db → Node Db → Type 0
  Kept n n' = (n'.config ≡ n.config) × (n'.peer_stubs ≡ n.peer_stubs)

  abbrev pub Same : Node Db → Node Db → Type 0
  Same n n' =
      (n'.state ≡ n.state) × (n'.current_term ≡ n.current_term) × (n'.voted_for ≡ n.voted_for)

  -- The node has stepped down in a later term.
  abbrev pub Later : Node Db → Node Db → Type 0
  Later n n' = (n.current_term < n'.current_term) × (n'.state ≡ follower)

  abbrev pub Calm : Node Db → Node Db → Type 0
  Calm n n' = Kept n n' × (Same n n' ⊎ Later n n')

  -- The node has given its vote in the term of the request.
  abbrev pub Grants : Node Db → RequestVoteArgs → Node Db → Type 0
  Grants n args n' =
      (n'.current_term ≡ args.term)
      × (n'.voted_for ≡ args.candidate_id)
      × (((n.current_term < args.term) × (n'.state ≡ follower))
          ⊎ ((n.current_term ≡ args.term)
              × (n'.state ≡ n.state)
              × ((n.voted_for ≡ minus_one) ⊎ (n.voted_for ≡ args.candidate_id))))

  -- The candidate has counted a vote, and leads if it was the last one needed.
  abbrev pub Counts : Node Db → ℕ → ℕ → Node Db → Type 0
  Counts n term votes n' =
      (n.state ≡ candidate)
      × (n.current_term ≡ term)
      × (n'.current_term ≡ n.current_term)
      × (n'.voted_for ≡ n.voted_for)
      × ((n'.state ≡ candidate) ⊎ ((n'.state ≡ leader) × (votes + 1 ≡ votes_needed n.config)))

  -- A candidate or leader has learnt of the leader of its term.
  abbrev pub Yields : Node Db → ℕ → Node Db → Type 0
  Yields n term n' =
      (n.state ≢ follower)
      × (term ≡ n.current_term)
      × (n'.current_term ≡ n.current_term)
      × (n'.state ≡ follower)

module _ {Db : Type 0} ⦃env : External Db⦄ where
  append_reply-Calm :
      (n : Node Db) (peer : ℤ) (sent_term : ℕ) (entries : List LogEntry)
      (reply : AppendEntriesReply)
      → Calm n (handle_append_reply n peer sent_term entries reply)
  unfolding handle_append_reply backtrack become_follower on_success note_match advance_commit
  append_reply-Calm n peer sent_term [] reply = ground arith
  append_reply-Calm n peer sent_term (e ∷ es) reply = ground arith

  install_snapshot-Calm :
      (n : Node Db) (args : InstallSnapshotArgs) (now : ℕ)
      → Calm n (handle_install_snapshot n args now).0
  unfolding handle_install_snapshot observe_term become_follower
  install_snapshot-Calm n args now = ground arith

  client_request-Calm :
      (n : Node Db) (request : ClientRequest) (callback : ℕ)
      → Calm n (process_client_request n request callback).0
  unfolding process_client_request append_request
  client_request-Calm n request callback = ground arith

  pub Internal-Calm : {n n' : Node Db} → Internal n n' → Calm n n'
  unfolding persist_election handle_snapshot_reply note_match become_follower notify maybe_compact
      claim_peer release_peer start stop
  Internal-Calm {n} (persist term voted_for) = ground arith
  Internal-Calm {n} (append_replied peer sent_term entries reply) =
      append_reply-Calm n peer sent_term entries reply
  Internal-Calm {n} (snapshot_replied peer last_index reply) = ground arith
  Internal-Calm {n} (snapshot_installed args now) = install_snapshot-Calm n args now
  Internal-Calm {n} (requested request callback) = client_request-Calm n request callback
  Internal-Calm {n} (applied entry msg) = ground arith
  Internal-Calm {n} (stored storage) = ground arith
  Internal-Calm {n} (claimed peer) = ground arith
  Internal-Calm {n} (released peer) = ground arith
  Internal-Calm {n} started = ground arith
  Internal-Calm {n} stopped = ground arith

  pub request_vote_move :
      (n : Node Db) (args : RequestVoteArgs) (now : ℕ)
      → let (n', reply) = handle_request_vote n args now in
        Kept n n'
        × (((reply.vote_granted ≡ false) × (Same n n' ⊎ Later n n'))
            ⊎ ((reply.vote_granted ≡ true) × Grants n args n'))
  unfolding handle_request_vote observe_term become_follower decide_vote can_vote
  request_vote_move n args now =
      ground (arith, eq_ℤ_iff n.voted_for minus_one, eq_ℤ_iff n.voted_for args.candidate_id)

  pub vote_reply_move :
      (n : Node Db) (term votes : ℕ) (reply : RequestVoteReply)
      → let (n', votes') = handle_vote_reply n term votes reply in
        Kept n n'
        × (((votes' ≡ votes) × (Same n n' ⊎ Later n n'))
            ⊎ ((votes' ≡ votes + 1) × (reply.vote_granted ≡ true) × Counts n term votes n'))
  unfolding handle_vote_reply become_leader become_follower
  vote_reply_move n term votes reply = ground arith

  pub append_move :
      (n : Node Db) (args : AppendEntriesArgs) (now : ℕ)
      → let n' = (handle_append_entries n args now).0 in
        Kept n n' × (Same n n' ⊎ Later n n' ⊎ Yields n args.term n')
  unfolding handle_append_entries follow_leader become_follower learn_commit
  append_move n args now =
      ground
        (arith, append_all-SameRole (follow_leader n args now) args.prev_log_index args.entries)
