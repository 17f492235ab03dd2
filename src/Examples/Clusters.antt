-- ===== src/Examples/Clusters.antt =====
-- The cluster of the main program's three nodes, in which the node 1 is elected by the nodes 2 and 3.
use raft_distributed_consens.Main.{rpc_peers, raft_config}
use raft_distributed_consens.Main.Boot.{
  node_ids, unstarted, construct_node-Starts, booted_election_safety,
}
use raft_distributed_consens.Examples.Mains.{
  node_configs, disk, node_config, built, construct_node-built,
}
use raft_distributed_consens.Replication.{Round, begin_round, make_append_args}
use raft_distributed_consens.Cluster.Safety.{election_safety, appends_one_leader, Run-Reach}
use raft_distributed_consens.Examples.Environment.{Pairs, environment}
use raft_distributed_consens.Cluster.{
  Run, request, campaign, send, first, next, Reach, answered, Cluster, asked, Starts,
  campaign_begins, vote_requested, vote_replied, reply, after, here,
}
use raft_distributed_consens.Election.{
  begin_election, handle_request_vote, handle_vote_reply, votes_needed, decide_vote,
}
use raft_distributed_consens.Messages.{AppendEntriesArgs, RequestVoteArgs, RequestVoteReply}
use raft_distributed_consens.Node.{
  leader, stubs, become_leader, observe_term, become_follower, set_all,
}
use raft_distributed_consens.Prelude.{inr, inl, eq_ℤ, ℤ, List, ◌∷◌, pos, true, some, ◌≡◌, refl}

abbrev members : List ℤ
members = node_ids node_configs

abbrev at_rest : Cluster Pairs
at_rest = unstarted built

at_rest-Starts : Starts members at_rest
unfolding eq_ℤ
at_rest-Starts =
    construct_node-Starts node_configs disk 0 node_config built (λ v. refl) construct_node-built
      refl

abbrev ballot : RequestVoteArgs
ballot = record { term = 1; candidate_id = pos 1; last_log_index = 0; last_log_term = 0 }

abbrev grant : RequestVoteReply
grant = record { term = 1; vote_granted = true }

-- The node 1 begins its campaign; the nodes 2 and 3 give it their votes.
abbrev opened : Cluster Pairs
opened = campaign_begins at_rest (pos 1) 7

abbrev voted : Cluster Pairs
voted = vote_requested (vote_requested opened (pos 1) 1 (pos 2) ballot 8) (pos 1) 1 (pos 3) ballot 9

abbrev elected : Cluster Pairs
elected = vote_replied (vote_replied voted (pos 1) 1 (pos 2) grant) (pos 1) 1 (pos 3) grant

asked_second : opened.phase (pos 1) 1 (pos 2) ≡ asked ballot
unfolding raft_config rpc_peers campaign_begins begin_election stubs eq_ℤ
asked_second = refl

asked_third :
    (vote_requested opened (pos 1) 1 (pos 2) ballot 8).phase (pos 1) 1 (pos 3) ≡ asked ballot
unfolding raft_config rpc_peers campaign_begins begin_election stubs eq_ℤ vote_requested
asked_third = refl

granted_second : voted.phase (pos 1) 1 (pos 2) ≡ answered grant
unfolding campaign_begins begin_election eq_ℤ vote_requested handle_request_vote decide_vote
    observe_term become_follower
granted_second = refl

granted_third :
    (vote_replied voted (pos 1) 1 (pos 2) grant).phase (pos 1) 1 (pos 3) ≡ answered grant
unfolding campaign_begins begin_election eq_ℤ vote_requested handle_request_vote vote_replied
    decide_vote observe_term become_follower
granted_third = refl

leads : (elected.nodes (pos 1)).state ≡ leader
unfolding raft_config rpc_peers campaign_begins begin_election eq_ℤ vote_requested
    handle_request_vote vote_replied handle_vote_reply votes_needed become_leader
leads = refl

elected-Run : Run members at_rest elected
unfolding eq_ℤ
elected-Run =
    let started : Run members at_rest opened = after {t = at_rest} here (campaign (pos 1) 7 refl) in
    let asked_one = after started (request (pos 1) 1 (pos 2) ballot 8 asked_second) in
    let asked_both : Run members at_rest voted =
      after asked_one (request (pos 1) 1 (pos 3) ballot 9 asked_third) in
    let told_one = after asked_both (reply (pos 1) 1 (pos 2) grant granted_second) in
    after told_one (reply (pos 1) 1 (pos 3) grant granted_third)

elected-Reach : Reach members elected
elected-Reach = Run-Reach members (first at_rest-Starts) elected-Run

-- Its rival in the next term.
abbrev later : Cluster Pairs
later = campaign_begins elected (pos 2) 20

still_leads : (later.nodes (pos 1)).state ≡ leader
unfolding campaign_begins begin_election eq_ℤ
still_leads = leads

same_term : (elected.nodes (pos 1)).current_term ≡ (later.nodes (pos 1)).current_term
unfolding campaign_begins begin_election eq_ℤ
same_term = refl

election_safety_example : pos 1 ≡ pos 1
unfolding eq_ℤ
election_safety_example =
    election_safety members (pos 1) (pos 1) elected-Reach
      (after {t = elected} {u = later} here (campaign (pos 2) 20 refl)) leads still_leads same_term

booted_election_safety_example : pos 1 ≡ pos 1
unfolding eq_ℤ
booted_election_safety_example =
    booted_election_safety node_configs disk 0 node_config built (pos 1) (pos 1) (λ v. refl)
      construct_node-built refl elected-Run
      (after {t = elected} {u = later} here (campaign (pos 2) 20 refl)) leads still_leads same_term

abbrev heartbeat : Round
heartbeat = record {
  next_idx = 1;
  current_term = 1;
  commit_index = 0;
  last_log_index = 0;
  my_id = pos 1;
}

begins :
    (begin_round (elected.nodes (pos 1)) (pos 2) ≡ some heartbeat)
    × (begin_round (elected.nodes (pos 1)) (pos 3) ≡ some heartbeat)
unfolding begin_round campaign_begins begin_election eq_ℤ vote_requested handle_request_vote
    vote_replied handle_vote_reply votes_needed become_leader set_all rpc_peers raft_config
begins = (refl, refl)

abbrev sent : AppendEntriesArgs
sent = make_append_args (built (pos 1)).storage 0 heartbeat

abbrev beating : Cluster Pairs
beating = record elected { appends = sent ∷ sent ∷ elected.appends }

beating-Reach : Reach members beating
beating-Reach =
    next (next elected-Reach (send (pos 1) (pos 2) heartbeat (built (pos 1)).storage 0 begins.0))
      (send (pos 1) (pos 3) heartbeat (built (pos 1)).storage 0 begins.1)

appends_one_leader_example : sent.leader_id ≡ sent.leader_id
appends_one_leader_example =
    appends_one_leader members sent sent beating-Reach (inl refl) (inr (inl refl)) refl
