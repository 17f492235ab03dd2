-- ===== src/Election.antt =====
-- src/raft/election.cpp: the election timer, the candidate and the voter.
pub mod Voting
pub mod Candidacy
pub mod Timer
use raft_distributed_consens.Prelude.{
  ℕ, ◌+◌, ◌-◌, ◌/◌, List, Bool, true, false, ◌&&◌, ◌||◌, not, ℤ, minus_one, eq_ℤ, ltb, leb, ◌==◌,
  if◌then◌else◌, length, Option, none, some, ◌∷◌, [],
}
use raft_distributed_consens.Messages.{RequestVoteArgs, RequestVoteReply}
use raft_distributed_consens.External.{External}
use raft_distributed_consens.Storage.{save_hard_state}
use raft_distributed_consens.Node.{
  Node, ClusterConfig, candidate, is_candidate, is_leader, observe_term, become_follower,
  become_leader,
}

-- `(config_.peers.size() + 1) / 2 + 1`
unfoldable pub votes_needed : ClusterConfig → ℕ
votes_needed config = (length config.peers + 1) / 2 + 1

-- What `startElection` collects under the lock for the requests that it sends.
pub record Campaign : Type 0 where
  pub args : RequestVoteArgs
  pub target_peers : List ℤ

abbrev pub listed : Option Campaign → List Campaign → List Campaign
listed none campaigns = campaigns
listed (some campaign) campaigns = campaign ∷ campaigns

module _ {Db : Type 0} ⦃env : External Db⦄ where
  -- `runElectionTimer` after a sleep of `timeout`: is an election to be started?
  unfoldable pub timer_fires : Node Db → ℕ → ℕ → Bool
  timer_fires n now timeout =
      if is_leader n.state then false else leb timeout (now - n.last_heartbeat_time)

  -- The part of `startElection` that holds the lock.
  unfoldable pub begin_election : Node Db → ℕ → Node Db × Campaign
  begin_election n now =
      let n' : Node Db = record n {
        state = candidate;
        current_term = n.current_term + 1;
        voted_for = n.config.my_id;
        last_heartbeat_time = now;
      } in
      (
        n',
        record {
          args = record {
            term = n'.current_term;
            candidate_id = n.config.my_id;
            last_log_index = n.last_log_index;
            last_log_term = n.last_log_term;
          };
          target_peers = n.peer_stubs;
        },
      )

  -- The call of `saveHardState` that follows without the lock, with the values that it has read.
  unfoldable pub persist_election : Node Db → ℕ → ℤ → Node Db
  persist_election n term voted_for = record n {
    storage = save_hard_state n.storage term voted_for;
  }

  -- Both, where no other thread comes between.
  unfoldable pub start_election : Node Db → ℕ → Node Db × Campaign
  unfolding begin_election persist_election
  start_election n now =
      let (n', campaign) = begin_election n now in
      (persist_election n' n'.current_term n'.voted_for, campaign)

  -- A round of `runElectionTimer`, which has slept from `began` for `timeout` and has come to the
  -- lock `late` milliseconds after that: the campaign, if it starts one. No other thread comes
  -- between the test of the timer and `startElection`.
  unfoldable pub timer_pass : Node Db → ℕ → ℕ → ℕ → Node Db × Option Campaign
  unfolding timer_fires start_election
  timer_pass n began timeout late =
      let now = began + timeout + late in
      let started = start_election n now in
      if timer_fires n now timeout then (started.0, some started.1) else (n, none)

  -- The loop of `runElectionTimer`, for some rounds in which no other thread comes between: each has
  -- its timeout and its delay, and begins when the one before has ended. The campaigns that it starts.
  unfoldable pub run_election_timer : Node Db → ℕ → List (ℕ × ℕ) → Node Db × List Campaign
  unfolding timer_pass
  run_election_timer n began [] = (n, [])
  run_election_timer n began ((timeout, late) ∷ rounds) =
      let (n', started) = timer_pass n began timeout late in
      let (n'', later) = run_election_timer n' (began + timeout + late) rounds in
      if n.running then (n'', listed started later) else (n, [])

  -- The thread of one request, when its reply has come; `votes` is `*votesReceived`.
  unfoldable pub handle_vote_reply : Node Db → ℕ → ℕ → RequestVoteReply → Node Db × ℕ
  handle_vote_reply n saved_term votes reply =
      if not (is_candidate n.state) || not (n.current_term == saved_term)
      then (n, votes)
      else if ltb n.current_term reply.term
      then (become_follower n reply.term, votes)
      else if reply.vote_granted
      then (if votes + 1 == votes_needed n.config then become_leader n else n, votes + 1)
      else (n, votes)

  unfoldable pub is_log_up_to_date : Node Db → RequestVoteArgs → Bool
  is_log_up_to_date n args =
      if ltb n.last_log_term args.last_log_term
      then true
      else args.last_log_term == n.last_log_term && leb n.last_log_index args.last_log_index

  unfoldable pub can_vote : Node Db → RequestVoteArgs → Bool
  can_vote n args = eq_ℤ n.voted_for minus_one || eq_ℤ n.voted_for args.candidate_id

  -- Rules 3 and 4, at the term of the candidate.
  unfoldable pub decide_vote : Node Db → RequestVoteArgs → ℕ → Node Db × RequestVoteReply
  unfolding is_log_up_to_date can_vote
  decide_vote n args now =
      if can_vote n args && is_log_up_to_date n args
      then (
        record n {
          voted_for = args.candidate_id;
          storage = save_hard_state n.storage n.current_term args.candidate_id;
          last_heartbeat_time = now;
        },
        record { term = n.current_term; vote_granted = true },
      )
      else (n, record { term = n.current_term; vote_granted = false })

  unfoldable pub handle_request_vote : Node Db → RequestVoteArgs → ℕ → Node Db × RequestVoteReply
  handle_request_vote n args now =
      if ltb args.term n.current_term
      then (n, record { term = n.current_term; vote_granted = false })
      else decide_vote (observe_term n args.term) args now
