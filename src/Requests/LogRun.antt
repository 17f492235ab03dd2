-- ===== src/Requests/LogRun.antt =====
-- A node keeps its log in memory and on disk in agreement, whichever handlers run in which order.
use raft_distributed_consens.Requests.KeepsLog.{
  keeps-IsLogOk, save_hard_state-cache, voted-KeepsLog, counted-KeepsLog, append_replied-KeepsLog,
  snapshot_replied-KeepsLog, executed-KeepsLog,
}
use raft_distributed_consens.Execution.{execute_entry, notify, maybe_compact}
use raft_distributed_consens.Requests.Handling.{process_client_request-IsLogOk}
use raft_distributed_consens.Transfer.Installation.{handle_install_snapshot-IsLogOk}
use raft_distributed_consens.Replication.Follower.{handle_append_entries-IsLogOk}
use raft_distributed_consens.Replication.LogShape.{
  IsLogOk, Consecutive, get_log_entry-save_hard_state,
}
use raft_distributed_consens.Requests.{process_client_request}
use raft_distributed_consens.Transfer.{handle_install_snapshot, handle_snapshot_reply}
use raft_distributed_consens.Replication.{
  handle_append_entries, handle_append_reply, claim_peer, release_peer,
}
use raft_distributed_consens.Election.{
  begin_election, persist_election, handle_vote_reply, handle_request_vote, start_election,
}
use raft_distributed_consens.Storage.{Store}
use raft_distributed_consens.Node.{Node, start, stop}
use raft_distributed_consens.External.{External}
use raft_distributed_consens.Messages.{
  RequestVoteArgs, RequestVoteReply, AppendEntriesArgs, AppendEntriesReply, InstallSnapshotArgs,
  InstallSnapshotReply, LogEntry, ClientRequest,
}
use raft_distributed_consens.Prelude.{ℕ, List, ℤ, ◌≡◌, arith, refl, Bytes, some, ◌≤◌, ◌+◌}

module _ {Db : Type 0} ⦃env : External Db⦄ where
  -- One handler, or one entry of the executor. The entries of an AppendEntries have the indices that
  -- follow the one before them; an entry that is executed is in the log.
  pub data Handled (n : Node Db) : Node Db → Type 0 where
    appended :
        (args : AppendEntriesArgs) (now : ℕ)
        → Consecutive args.prev_log_index args.entries
        → Handled n (handle_append_entries n args now).0
    installed :
        (args : InstallSnapshotArgs) (now : ℕ) → Handled n (handle_install_snapshot n args now).0
    requested :
        (request : ClientRequest) (callback : ℕ)
        → Handled n (process_client_request n request callback).0
    voted : (args : RequestVoteArgs) (now : ℕ) → Handled n (handle_request_vote n args now).0
    counted :
        (term votes : ℕ) (reply : RequestVoteReply)
        → Handled n (handle_vote_reply n term votes reply).0
    campaigned : (now : ℕ) → Handled n (begin_election n now).0
    persisted : (term : ℕ) (voted_for : ℤ) → Handled n (persist_election n term voted_for)
    stood : (now : ℕ) → Handled n (start_election n now).0
    append_replied :
        (peer : ℤ) (sent_term : ℕ) (entries : List LogEntry) (reply : AppendEntriesReply)
        → Handled n (handle_append_reply n peer sent_term entries reply)
    snapshot_replied :
        (peer : ℤ) (last_index : ℕ) (reply : InstallSnapshotReply)
        → Handled n (handle_snapshot_reply n peer last_index reply)
    claimed : (peer : ℤ) → Handled n (claim_peer n peer).0
    released : (peer : ℤ) → Handled n (release_peer n peer)
    executed :
        (entry : LogEntry) (storage : Store Db) (result_msg : Bytes)
        → entry.index ≤ n.last_log_index
        → execute_entry n.storage entry ≡ some (storage, result_msg)
        → Handled n (maybe_compact (notify (record n { storage = storage }) entry result_msg).0)
    started : Handled n (start n)
    stopped : Handled n (stop n)

  pub data Handlers (n : Node Db) : Node Db → Type 0 where
    none_yet : Handlers n n
    then_one : {m k : Node Db} → Handlers n m → Handled m k → Handlers n k

  Handled-IsLogOk : {n n' : Node Db} → IsLogOk n → Handled n n' → IsLogOk n'
  unfolding begin_election persist_election start_election claim_peer release_peer start stop
  Handled-IsLogOk {n} ok (appended args now c) = handle_append_entries-IsLogOk n args now ok c
  Handled-IsLogOk {n} ok (installed args now) = handle_install_snapshot-IsLogOk n args now ok
  Handled-IsLogOk {n} ok (requested request callback) =
      process_client_request-IsLogOk n request callback ok
  Handled-IsLogOk {n} ok (voted args now) = keeps-IsLogOk n _ (voted-KeepsLog n args now) ok
  Handled-IsLogOk {n} ok (counted term votes reply) =
      keeps-IsLogOk n _ (counted-KeepsLog n term votes reply) ok
  Handled-IsLogOk {n} ok (campaigned now) = keeps-IsLogOk n _ (refl, refl, refl, refl) ok
  Handled-IsLogOk {n} ok (persisted term voted_for) =
      keeps-IsLogOk n _
        (
          save_hard_state-cache n.storage term voted_for,
          refl,
          refl,
          get_log_entry-save_hard_state n.storage term voted_for n.last_log_index,
        )
        ok
  Handled-IsLogOk {n} ok (stood now) =
      keeps-IsLogOk n _
        (
          save_hard_state-cache n.storage (n.current_term + 1) n.config.my_id,
          refl,
          refl,
          get_log_entry-save_hard_state n.storage (n.current_term + 1) n.config.my_id
              n.last_log_index,
        )
        ok
  Handled-IsLogOk {n} ok (append_replied peer sent_term entries reply) =
      keeps-IsLogOk n _ (append_replied-KeepsLog n peer sent_term entries reply) ok
  Handled-IsLogOk {n} ok (snapshot_replied peer last_index reply) =
      keeps-IsLogOk n _ (snapshot_replied-KeepsLog n peer last_index reply) ok
  Handled-IsLogOk {n} ok (claimed peer) = keeps-IsLogOk n _ (ground arith) ok
  Handled-IsLogOk {n} ok (released peer) = keeps-IsLogOk n _ (ground arith) ok
  Handled-IsLogOk {n} ok (executed entry storage result_msg low h) =
      keeps-IsLogOk n _ (executed-KeepsLog n entry storage result_msg low h) ok
  Handled-IsLogOk {n} ok started = keeps-IsLogOk n _ (ground arith) ok
  Handled-IsLogOk {n} ok stopped = keeps-IsLogOk n _ (ground arith) ok

  -- If memory describes the stored log, then it does so after any handlers of votes, entries,
  -- snapshots and client requests, any entries that the executor applies, and any starts, stops and
  -- campaigns, in any order. The entries of each AppendEntries have the indices that follow the one
  -- before them, and what is applied is not above the end of the log.
  pub Handlers-IsLogOk : {n n' : Node Db} → IsLogOk n → Handlers n n' → IsLogOk n'
  Handlers-IsLogOk ok none_yet = ok
  Handlers-IsLogOk ok (then_one run step) = Handled-IsLogOk (Handlers-IsLogOk ok run) step
