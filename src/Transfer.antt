-- ===== src/Transfer.antt =====
-- src/raft/snapshot.cpp: a snapshot is sent to a peer that is too far behind, and installed there.
pub mod Installation
use raft_distributed_consens.Prelude.{ℕ, ◌+◌, true, ℤ, pos, codes, ltb, leb, if◌then◌else◌}
use raft_distributed_consens.Messages.{
  LogEntry, InstallSnapshotArgs, InstallSnapshotReply, get_balance,
}
use raft_distributed_consens.External.{External}
use raft_distributed_consens.Storage.{Store, append_log, truncate_log}
use raft_distributed_consens.Storage.Snapshot.{SnapshotData, apply_snapshot}
use raft_distributed_consens.Node.{Node, is_leader, observe_term, become_follower}
use raft_distributed_consens.Replication.{note_match}

-- The log entry that stands for the snapshot in the receiver's log.
abbrev pub anchor : ℕ → ℕ → LogEntry
anchor index term = record {
  term = term;
  index = index;
  command = record {
    request_id = codes "SNAPSHOT_ANCHOR";
    type = get_balance;
    sender_id = codes "SYSTEM_ANCHOR";
    receiver_id = codes "";
    amount = pos 0;
  };
}

module _ {Db : Type 0} ⦃env : External Db⦄ where
  -- The arguments that `sendSnapshot` sends, from the snapshot that it took before.
  unfoldable pub make_snapshot_args : Node Db → SnapshotData → InstallSnapshotArgs
  make_snapshot_args n snap = record {
    term = n.current_term;
    leader_id = n.config.my_id;
    last_included_index = snap.last_index;
    last_included_term = snap.last_term;
    snapshot_data = snap.contents;
    offset = 0;
    done = true;
  }

  -- What `sendSnapshot` does when the reply has come.
  unfoldable pub handle_snapshot_reply : Node Db → ℤ → ℕ → InstallSnapshotReply → Node Db
  handle_snapshot_reply n peer last_index reply =
      if ltb n.current_term reply.term
      then become_follower n reply.term
      else if is_leader n.state
      then note_match n peer last_index
      else n

  -- The storage after an installation: the state machine is replaced, the log behind the snapshot
  -- is cut off, and the anchor is written.
  unfoldable pub install : Store Db → InstallSnapshotArgs → Store Db
  install s args =
      append_log
        (truncate_log
          (apply_snapshot s args.snapshot_data args.last_included_index args.last_included_term)
          (args.last_included_index + 1))
        (anchor args.last_included_index args.last_included_term)

  -- The reply has the term from before `becomeFollower`, unless the snapshot is installed.
  unfoldable pub handle_install_snapshot :
      Node Db → InstallSnapshotArgs → ℕ → Node Db × InstallSnapshotReply
  handle_install_snapshot n args now =
      if ltb args.term n.current_term
      then (n, record { term = n.current_term })
      else let n' : Node Db = record (observe_term n args.term) {
        last_heartbeat_time = now;
        leader_id = args.leader_id;
      } in
        if leb args.last_included_index n'.last_applied
        then (n', record { term = n.current_term })
        else (
          record n' {
            storage = install n'.storage args;
            last_log_index = args.last_included_index;
            last_log_term = args.last_included_term;
            last_applied = args.last_included_index;
            commit_index = args.last_included_index;
          },
          record { term = n'.current_term },
        )
