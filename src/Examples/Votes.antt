-- ===== src/Examples/Votes.antt =====
-- Elections in a cluster of three.
use raft_distributed_consens.Election.Timer.{silent_campaigns, TermsFrom}
use raft_distributed_consens.Requests.Saved.{IsSaved}
use raft_distributed_consens.Requests.SavedRun.{Handlers-IsSaved}
use raft_distributed_consens.Requests.LogRun.{none_yet, then_one, stood, voted}
use raft_distributed_consens.Replication.LogShape.{IsLogOk, become_follower-IsLogOk}
use raft_distributed_consens.Node.Recovery.{IsOnDisk, restarted, restart_restores}
use raft_distributed_consens.Storage.Keys.{
  Key, sys_last_applied, sys_last_log_index, meta_term, meta_vote,
}
use raft_distributed_consens.Storage.Log.{at-append_log}
use raft_distributed_consens.Storage.HardState.{at-save_hard_state}
use raft_distributed_consens.Replication.{
  handle_append_entries, follow_leader, append_all, learn_commit, is_consistent,
}
use raft_distributed_consens.Replication.Agreement.{second_vote}
use raft_distributed_consens.Examples.Nodes.{
  fresh, holder, holder-IsLogOk, first_entry, empty_store,
}
use raft_distributed_consens.Examples.Environment.{Pairs, environment}
use raft_distributed_consens.Election.Candidacy.{persist_election_stale}
use raft_distributed_consens.Election.Voting.{MayVote, UpToDate, vote_granted_iff}
use raft_distributed_consens.Election.{
  begin_election, persist_election, handle_request_vote, start_election, run_election_timer,
}
use raft_distributed_consens.Storage.{at, save_hard_state, load_hard_state}
use raft_distributed_consens.Node.Roles.{IsPersisted, become_follower-IsPersisted}
use raft_distributed_consens.Node.{Node, candidate, become_follower, follower}
use raft_distributed_consens.Messages.{RequestVoteArgs, RequestVoteReply, AppendEntriesArgs}
use raft_distributed_consens.Prelude.{
  inl, ◌≢◌, pos, ◌≡◌, refl, arith, true, inr, some, ◌↔◌, [], ◌∙◌, minus_one, ℕ, List, length, ◌∷◌,
}

abbrev ask : RequestVoteArgs
ask = record { term = 2; candidate_id = pos 2; last_log_index = 0; last_log_term = 0 }

abbrev runner : Node Pairs
runner = record fresh { state = candidate; current_term = 2; voted_for = pos 1 }

abbrev grant : RequestVoteReply
grant = record { term = 2; vote_granted = true }

vote_granted_iff_example :
    ((handle_request_vote fresh ask 7).1.vote_granted ≡ true)
    ↔ (MayVote fresh ask × UpToDate fresh ask)
vote_granted_iff_example = vote_granted_iff fresh ask 7

-- A node that has its term on disk stands for election, and is asked for its vote.
abbrev on_disk : Node Pairs
on_disk = become_follower fresh 1

on_disk-IsSaved : IsSaved on_disk
on_disk-IsSaved =
    (become_follower-IsPersisted fresh 1 (omega arith), unfold become_follower in omega arith)

Handlers-IsSaved_example : IsSaved (handle_request_vote (start_election on_disk 6).0 ask 7).0
unfolding become_follower
Handlers-IsSaved_example =
    Handlers-IsSaved (then_one (then_one none_yet (stood 6)) (voted ask 7))
      ((tt, (omega arith, omega arith)), (omega arith, omega arith)) on_disk-IsSaved

persist_election_stale_example :
    let n' = (begin_election fresh 7).0 in
    let late = persist_election (become_follower n' 5) n'.current_term n'.voted_for in
    (late.current_term ≡ 5) × (load_hard_state late.storage ≡ some (2, pos 1)) × ¬ IsPersisted late
persist_election_stale_example =
    persist_election_stale fresh 7 5 (omega arith) (omega arith) (omega arith)

-- The leader of term 2, and another node that asks for votes in it.
abbrev heard : AppendEntriesArgs
heard = record {
  term = 2;
  leader_id = pos 3;
  prev_log_index = 0;
  prev_log_term = 0;
  entries = [];
  leader_commit = 0;
}

runner-UpToDate : UpToDate (handle_append_entries runner heard 7).0 ask
unfolding handle_append_entries follow_leader become_follower append_all learn_commit is_consistent
runner-UpToDate = inr (refl, omega arith)

second_vote_example :
    let after = handle_request_vote (handle_append_entries runner heard 7).0 ask 8 in
    (after.1.vote_granted ≡ true) × (after.0.current_term ≡ 2) × (after.0.voted_for ≢ pos 1)
second_vote_example =
    second_vote runner heard ask 7 8 refl refl refl refl (λ e. ground arith) runner-UpToDate

-- A node with one entry whose term is on disk.
abbrev saved : Node Pairs
saved = become_follower holder 1

saved-IsOnDisk : IsOnDisk saved
unfolding become_follower save_hard_state
saved-IsOnDisk =
    let text : (k : Key) → at saved.storage k ≡ _ =
      λ k. at-save_hard_state holder.storage 1 minus_one k in
    record {
      term = inl (text meta_term, omega arith);
      vote = inl (text meta_vote, omega arith);
      last = inl (
        text sys_last_log_index ∙ at-append_log empty_store first_entry sys_last_log_index,
        omega arith,
      );
      applied =
          inr
            (text sys_last_applied ∙ at-append_log empty_store first_entry sys_last_applied, refl);
    }

restart_restores_example :
    (n' : Node Pairs) × (restarted saved 9 ≡ some n')
    × (n'.current_term ≡ saved.current_term)
    × (n'.voted_for ≡ saved.voted_for)
    × (n'.last_log_index ≡ saved.last_log_index)
    × (n'.last_applied ≡ saved.last_applied)
    × (n'.storage ≡ saved.storage)
    × (n'.state ≡ follower)
    × (n'.commit_index ≡ 0)
    × IsLogOk n'
restart_restores_example =
    restart_restores saved 9 (become_follower-IsLogOk holder 1 holder-IsLogOk) saved-IsOnDisk

-- Two rounds of the election timer of a node that hears nothing.
abbrev quiet_rounds : List (ℕ × ℕ)
quiet_rounds = (150, 0) ∷ (300, 2) ∷ []

silent_campaigns_example :
    let (n', campaigns) = run_election_timer fresh 0 quiet_rounds in
    (length campaigns ≡ 2) × TermsFrom 1 campaigns × (n'.current_term ≡ 3)
silent_campaigns_example = silent_campaigns quiet_rounds fresh 0 refl (λ e. cc) (omega arith)
