-- ===== src/Requests/KeepsLog.antt =====
-- The handlers that leave the log alone: of votes, of replies, and the executor with its compaction
-- (src/raft/election.cpp, replication.cpp, snapshot.cpp, execution.cpp).
use raft_distributed_consens.Storage.Accounts.{at-apply_transaction}
use raft_distributed_consens.Storage.Keys.{log}
use raft_distributed_consens.Node.Recovery.{bind-some}
use raft_distributed_consens.Storage.Log.{get_log_entry-compact_log}
use raft_distributed_consens.Execution.{execute_entry, notify, maybe_compact, outcome}
use raft_distributed_consens.Replication.LogShape.{IsLogOk, get_log_entry-save_hard_state}
use raft_distributed_consens.Transfer.{handle_snapshot_reply}
use raft_distributed_consens.Replication.{
  handle_append_reply, backtrack, on_success, note_match, advance_commit,
}
use raft_distributed_consens.Election.{handle_vote_reply, handle_request_vote, decide_vote}
use raft_distributed_consens.Storage.{
  get_log_entry, save_hard_state, Store, apply_transaction, compact_log, entry_of,
}
use raft_distributed_consens.Node.{Node, become_follower, become_leader, observe_term}
use raft_distributed_consens.External.{External}
use raft_distributed_consens.Messages.{
  RequestVoteArgs, RequestVoteReply, AppendEntriesReply, InstallSnapshotReply, LogEntry,
}
use raft_distributed_consens.Prelude.{
  ℕ, List, [], ◌∷◌, ℤ, ◌≡◌, arith, refl, minus_one, Bytes, some, ◌≤◌, ◌-◌, ap, subst, ◌∙◌,
}

module _ {Db : Type 0} ⦃env : External Db⦄ where
  -- A handler that leaves the log alone in memory and on disk.
  abbrev pub KeepsLog : Node Db → Node Db → Type 0
  KeepsLog n n' =
      (n'.storage.last_log_index_cache ≡ n.storage.last_log_index_cache)
      × (n'.last_log_index ≡ n.last_log_index)
      × (n'.last_log_term ≡ n.last_log_term)
      × (get_log_entry n'.storage n.last_log_index ≡ get_log_entry n.storage n.last_log_index)

  pub keeps-IsLogOk : (n n' : Node Db) → KeepsLog n n' → IsLogOk n → IsLogOk n'
  keeps-IsLogOk n n' keeps ok = record {
    cached = ground (arith, ok.cached, keeps);
    last_term = ground (arith, ok.last_term, keeps);
  }

  pub save_hard_state-cache :
      (s : Store Db) (term : ℕ) (voted_for : ℤ)
      → (save_hard_state s term voted_for).last_log_index_cache ≡ s.last_log_index_cache
  unfolding save_hard_state
  save_hard_state-cache s term voted_for = refl

  pub voted-KeepsLog :
      (n : Node Db) (args : RequestVoteArgs) (now : ℕ)
      → KeepsLog n (handle_request_vote n args now).0
  unfolding handle_request_vote observe_term become_follower decide_vote
  voted-KeepsLog n args now =
      let stepped_down = save_hard_state n.storage args.term minus_one in
      ground (
        arith,
        save_hard_state-cache n.storage args.term minus_one,
        save_hard_state-cache n.storage n.current_term args.candidate_id,
        save_hard_state-cache stepped_down args.term args.candidate_id,
        get_log_entry-save_hard_state n.storage args.term minus_one n.last_log_index,
        get_log_entry-save_hard_state n.storage n.current_term args.candidate_id n.last_log_index,
        get_log_entry-save_hard_state stepped_down args.term args.candidate_id n.last_log_index,
      )

  become_follower-KeepsLog : (n : Node Db) (term : ℕ) → KeepsLog n (become_follower n term)
  unfolding become_follower
  become_follower-KeepsLog n term = (
    save_hard_state-cache n.storage term minus_one,
    refl,
    refl,
    get_log_entry-save_hard_state n.storage term minus_one n.last_log_index,
  )

  pub counted-KeepsLog :
      (n : Node Db) (term votes : ℕ) (reply : RequestVoteReply)
      → KeepsLog n (handle_vote_reply n term votes reply).0
  unfolding handle_vote_reply become_leader
  counted-KeepsLog n term votes reply = ground (arith, become_follower-KeepsLog n reply.term)

  pub append_replied-KeepsLog :
      (n : Node Db) (peer : ℤ) (sent_term : ℕ) (entries : List LogEntry)
      (reply : AppendEntriesReply)
      → KeepsLog n (handle_append_reply n peer sent_term entries reply)
  unfolding handle_append_reply backtrack on_success note_match advance_commit
  append_replied-KeepsLog n peer sent_term [] reply =
      ground (arith, become_follower-KeepsLog n reply.term)
  append_replied-KeepsLog n peer sent_term (e ∷ es) reply =
      ground (arith, become_follower-KeepsLog n reply.term)

  pub snapshot_replied-KeepsLog :
      (n : Node Db) (peer : ℤ) (last_index : ℕ) (reply : InstallSnapshotReply)
      → KeepsLog n (handle_snapshot_reply n peer last_index reply)
  unfolding handle_snapshot_reply note_match
  snapshot_replied-KeepsLog n peer last_index reply =
      ground (arith, become_follower-KeepsLog n reply.term)

  get_log_entry-apply_transaction :
      (s : Store Db) (e : LogEntry) (x y : ℤ) (msg : Bytes) (i : ℕ)
      → get_log_entry (apply_transaction s e x y msg) i ≡ get_log_entry s i
  unfolding get_log_entry
  get_log_entry-apply_transaction s e x y msg i =
      ap (entry_of env.proto) (at-apply_transaction s e x y msg (log i) ∙ ground arith)

  execute_entry-log :
      (s t : Store Db) (entry : LogEntry) (result_msg : Bytes) (i : ℕ)
      → execute_entry s entry ≡ some (t, result_msg)
      → (t.last_log_index_cache ≡ s.last_log_index_cache) × (get_log_entry t i ≡ get_log_entry s i)
  unfolding execute_entry
  execute_entry-log s t entry result_msg i h =
      let (o, ran, made) = bind-some (outcome s entry.command.type entry.command) h in
      let moved : Store Db =
        apply_transaction s entry o.sender_new_bal o.receiver_new_bal o.result_msg in
      let same : moved ≡ t = cc in
      subst
        (λ (u : Store Db).
          (u.last_log_index_cache ≡ s.last_log_index_cache)
          × (get_log_entry u i ≡ get_log_entry s i))
        same
        (
          unfold apply_transaction in refl,
          get_log_entry-apply_transaction s entry o.sender_new_bal o.receiver_new_bal o.result_msg
              i,
        )

  compacted-KeepsLog :
      (n : Node Db) → n.last_applied ≤ n.last_log_index → KeepsLog n (maybe_compact n)
  unfolding maybe_compact compact_log
  compacted-KeepsLog n low =
      ground (arith, get_log_entry-compact_log n.storage (n.last_applied - 100) n.last_log_index)

  notify-log :
      (n : Node Db) (entry : LogEntry) (result_msg : Bytes)
      → let n' = (notify n entry result_msg).0 in
        (n'.storage ≡ n.storage)
        × (n'.last_applied ≡ entry.index)
        × (n'.last_log_index ≡ n.last_log_index)
        × (n'.last_log_term ≡ n.last_log_term)
  unfolding notify
  notify-log n entry result_msg = ground arith

  pub executed-KeepsLog :
      (n : Node Db) (entry : LogEntry) (storage : Store Db) (result_msg : Bytes)
      → entry.index ≤ n.last_log_index
      → execute_entry n.storage entry ≡ some (storage, result_msg)
      → KeepsLog n (maybe_compact (notify (record n { storage = storage }) entry result_msg).0)
  executed-KeepsLog n entry storage result_msg low h =
      let done : Node Db = (notify (record n { storage = storage }) entry result_msg).0 in
      let noted = notify-log (record n { storage = storage }) entry result_msg in
      let kept = compacted-KeepsLog done (ground (arith, noted, low)) in
      let ran = execute_entry-log n.storage storage entry result_msg n.last_log_index h in
      ground (arith, noted, kept, ran)
