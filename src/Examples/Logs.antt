-- ===== src/Examples/Logs.antt =====
-- Replication of one entry in a cluster of three, and requests of a client.
use raft_distributed_consens.Election.{begin_election}
use raft_distributed_consens.Requests.LogRun.{
  Handlers-IsLogOk, none_yet, then_one, appended, campaigned, requested,
}
use raft_distributed_consens.Replication.Agreement.{replicated}
use raft_distributed_consens.Examples.Nodes.{
  fresh, holder, head, empty_store, first_entry, payment, fresh-IsLogOk, holder-Indexed,
}
use raft_distributed_consens.Examples.Environment.{Pairs, environment}
use raft_distributed_consens.Transfer.Installation.{install_snapshot_regress}
use raft_distributed_consens.Transfer.{handle_install_snapshot}
use raft_distributed_consens.Requests.Handling.{retry_swallowed, reelected}
use raft_distributed_consens.Requests.{process_client_request, find_callback}
use raft_distributed_consens.Replication.Leader.{IsHeld, advance_commit_safe}
use raft_distributed_consens.Replication.Follower.{
  HoldsPrev, append_success_iff, append_success_log,
}
use raft_distributed_consens.Replication.LogShape.{IsLogOk, appended-IsLogOk, Holds}
use raft_distributed_consens.Replication.{
  Round, make_append_args, advance_commit, handle_append_entries,
}
use raft_distributed_consens.Storage.{get_log_entry, append_log, get_request_result, result_of}
use raft_distributed_consens.Node.{Node, leader}
use raft_distributed_consens.Messages.{AppendEntriesArgs, InstallSnapshotArgs, empty_entry}
use raft_distributed_consens.Prelude.{
  [], ◌∷◌, none, pos, ◌≡◌, ◌⊎◌, ◌≤◌, refl, arith, true, inl, ◌<◌, ◌↔◌, All, codes, bytes_eq,
}

abbrev batch : AppendEntriesArgs
batch = record {
  term = 1;
  leader_id = pos 1;
  prev_log_index = 0;
  prev_log_term = 0;
  entries = first_entry ∷ [];
  leader_commit = 0;
}

batch_taken : (handle_append_entries fresh batch 7).1.success ≡ true
batch_taken = (append_success_iff fresh batch 7 fresh-IsLogOk).1 (omega arith, inl refl)

append_success_iff_example :
    ((handle_append_entries fresh batch 7).1.success ≡ true)
    ↔ ((1 ≤ batch.term) × HoldsPrev fresh batch)
append_success_iff_example = append_success_iff fresh batch 7 fresh-IsLogOk

append_success_log_example :
    let n' = (handle_append_entries fresh batch 7).0 in
    (1 ≤ n'.last_log_index)
    × All (Holds fresh n') (first_entry ∷ [])
    × (get_log_entry n'.storage 0 ≡ get_log_entry empty_store 0)
append_success_log_example =
    append_success_log fresh batch 7 0 fresh-IsLogOk (refl, tt) batch_taken (omega arith)

-- Entries, a campaign of the node's own, and a request of a client.
abbrev entered : Node Pairs
entered = (handle_append_entries fresh batch 7).0

abbrev campaigning : Node Pairs
campaigning = (begin_election entered 8).0

Handlers-IsLogOk_example : IsLogOk (process_client_request campaigning payment 4).0
Handlers-IsLogOk_example = Handlers-IsLogOk fresh-IsLogOk (
    then_one (then_one (then_one none_yet (appended batch 7 (refl, tt))) (campaigned 8))
      (requested payment 4))

advance_commit_safe_example :
    (0 ≤ (advance_commit head).commit_index)
    × (((advance_commit head).commit_index ≡ 0) ⊎ IsHeld head (advance_commit head).commit_index)
advance_commit_safe_example = advance_commit_safe head

abbrev round : Round
round = record {
  next_idx = 1;
  current_term = 1;
  commit_index = 0;
  last_log_index = 1;
  my_id = pos 1;
}

no_result : get_request_result empty_store (codes "r1") ≡ []
unfolding get_request_result result_of
no_result = refl

abbrev waiting : Node Pairs
waiting = record fresh { pending_callbacks = (codes "r1", 4) ∷ [] }

retry_swallowed_example :
    ((reelected waiting 3 7).state ≡ leader)
    × (process_client_request (reelected waiting 3 7) payment 5 ≡ (reelected waiting 3 7, none))
retry_swallowed_example =
    retry_swallowed waiting payment 5 4 3 7 (unfold find_callback bytes_eq in refl) no_result

abbrev snapshot_args : InstallSnapshotArgs
snapshot_args = record {
  term = 1;
  leader_id = pos 1;
  last_included_index = 1;
  last_included_term = 1;
  snapshot_data = [];
  offset = 0;
  done = true;
}

-- Two entries, both committed.
abbrev ahead : Node Pairs
ahead = record fresh {
  storage = append_log holder.storage (record first_entry { index = 2 });
  last_log_index = 2;
  last_log_term = 1;
  commit_index = 2;
}

ahead-IsLogOk : IsLogOk ahead
ahead-IsLogOk =
    appended-IsLogOk (record fresh { commit_index = 2 }) 2 (record first_entry { index = 2 }) refl
      holder.storage

install_snapshot_regress_example :
    let n' = (handle_install_snapshot ahead snapshot_args 7).0 in
    (n'.commit_index < 2) × (get_log_entry n'.storage 2 ≡ empty_entry)
install_snapshot_regress_example =
    install_snapshot_regress ahead snapshot_args 7 2 ahead-IsLogOk (omega arith) (omega arith)
      (omega arith) (omega arith) (omega arith)

replicated_example :
    let done = handle_append_entries fresh (make_append_args holder.storage 0 round) 7 in
    (done.1.success ≡ true)
    × ((get_log_entry done.0.storage 1).term ≡ (get_log_entry holder.storage 1).term)
unfolding make_append_args
replicated_example =
    replicated holder.storage fresh 0 round 7 1 refl holder-Indexed fresh-IsLogOk (omega arith)
      (inl refl) (omega arith) (omega arith)
