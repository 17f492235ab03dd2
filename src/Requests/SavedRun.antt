-- ===== src/Requests/SavedRun.antt =====
-- A node keeps its term and vote on disk, whichever handlers run in which order.
use raft_distributed_consens.Prelude.{
  ℕ, ◌+◌, ◌<◌, List, [], ◌∷◌, ℤ, some, int_bound, IsInt, ◌≡◌, arith, Option-cases, inl, inr, Bytes,
  Option, none, ◌-◌, subst,
}
use raft_distributed_consens.Messages.{
  LogEntry, ClientRequest, RequestVoteArgs, RequestVoteReply, AppendEntriesReply,
  InstallSnapshotReply,
}
use raft_distributed_consens.External.{External}
use raft_distributed_consens.Node.{become_leader, Node, become_follower, observe_term, start, stop}
use raft_distributed_consens.Storage.{Store}
use raft_distributed_consens.Storage.Persistence.{
  SameHard, append_log-SameHard, compact_log-SameHard, apply_transaction-SameHard, IsStateText,
}
use raft_distributed_consens.Election.{
  handle_request_vote, handle_vote_reply, start_election, decide_vote,
}
use raft_distributed_consens.Election.Voting.{handle_request_vote-IsPersisted}
use raft_distributed_consens.Election.Candidacy.{
  start_election-IsPersisted, handle_vote_reply-IsPersisted,
}
use raft_distributed_consens.Replication.{
  handle_append_reply, backtrack, on_success, note_match, advance_commit, claim_peer, release_peer,
  last_index,
}
use raft_distributed_consens.Transfer.{handle_snapshot_reply}
use raft_distributed_consens.Requests.{process_client_request, append_request, new_entry}
use raft_distributed_consens.Execution.{execute_entry, notify, maybe_compact, outcome}
use raft_distributed_consens.Requests.LogRun.{
  Handled, appended, installed, requested, voted, counted, campaigned, persisted, stood,
  append_replied, snapshot_replied, claimed, released, executed, started, stopped, Handlers,
  none_yet, then_one,
}
use raft_distributed_consens.Requests.Saved.{
  IsSaved, Apart, Apart-IsSaved, become_follower-IsSaved, appended-IsSaved, installed-IsSaved,
}

module _ {Db : Type 0} ⦃env : External Db⦄ where
  voted-IsSaved :
      (n : Node Db) (args : RequestVoteArgs) (now : ℕ)
      → args.term < int_bound
      → IsInt args.candidate_id
      → IsSaved n
      → IsSaved (handle_request_vote n args now).0
  voted-IsSaved n args now h k (p, bound) = (
    handle_request_vote-IsPersisted n args now h k bound p,
    unfold handle_request_vote decide_vote observe_term become_follower in ground arith,
  )

  counted-IsSaved :
      (n : Node Db) (term votes : ℕ) (reply : RequestVoteReply)
      → reply.term < int_bound
      → IsSaved n
      → IsSaved (handle_vote_reply n term votes reply).0
  counted-IsSaved n term votes reply h (p, bound) = (
    handle_vote_reply-IsPersisted n term votes reply h p,
    unfold handle_vote_reply become_follower become_leader in ground arith,
  )

  stood-IsSaved :
      (n : Node Db) (now : ℕ)
      → n.current_term + 1 < int_bound
      → IsInt n.config.my_id
      → IsSaved (start_election n now).0
  stood-IsSaved n now h k = (start_election-IsPersisted n now h k, unfold start_election in h)

  advance_commit-Apart : (n : Node Db) → Apart n (advance_commit n)
  unfolding advance_commit
  advance_commit-Apart n = ground arith

  append_replied-IsSaved :
      (n : Node Db) (peer : ℤ) (sent_term : ℕ) (entries : List LogEntry)
      (reply : AppendEntriesReply)
      → reply.term < int_bound
      → IsSaved n
      → IsSaved (handle_append_reply n peer sent_term entries reply)
  unfolding handle_append_reply on_success backtrack note_match
  append_replied-IsSaved n peer sent_term [] reply h ok =
      ground (arith, become_follower-IsSaved n reply.term h)
  append_replied-IsSaved n peer sent_term (e ∷ es) reply h ok =
      let noted = note_match n peer (last_index e es) in
      ground (
        arith,
        become_follower-IsSaved n reply.term h,
        Apart-IsSaved noted (advance_commit noted) (advance_commit-Apart noted) ok,
      )

  snapshot_replied-IsSaved :
      (n : Node Db) (peer : ℤ) (last_index : ℕ) (reply : InstallSnapshotReply)
      → reply.term < int_bound
      → IsSaved n
      → IsSaved (handle_snapshot_reply n peer last_index reply)
  unfolding handle_snapshot_reply note_match
  snapshot_replied-IsSaved n peer last_index reply h ok =
      ground (arith, become_follower-IsSaved n reply.term h)

  requested-Apart :
      (n : Node Db) (request : ClientRequest) (callback : ℕ)
      → Apart n (process_client_request n request callback).0
  unfolding process_client_request append_request
  requested-Apart n request callback =
      ground (arith, append_log-SameHard n.storage (new_entry n request))

  notify-Apart : (n : Node Db) (e : LogEntry) (msg : Bytes) → Apart n (notify n e msg).0
  unfolding notify
  notify-Apart n e msg = ground arith

  maybe_compact-Apart : (n : Node Db) → Apart n (maybe_compact n)
  unfolding maybe_compact
  maybe_compact-Apart n = ground (arith, compact_log-SameHard n.storage (n.last_applied - 100))

  AllSame : Store Db → Option (Store Db × Bytes) → Type 0
  AllSame s none = Unit {0}
  AllSame s (some (t, msg)) = SameHard s t

  execute_entry-SameHard : (s : Store Db) (e : LogEntry) → AllSame s (execute_entry s e)
  unfolding execute_entry AllSame
  execute_entry-SameHard s e = elim (Option-cases (outcome s e.command.type e.command)) [
    | inl failed ↦ rw failed tt
    | inr (o, ran) ↦
        rw ran (apply_transaction-SameHard s e o.sender_new_bal o.receiver_new_bal o.result_msg)
  ]

  executed-Apart :
      (n : Node Db) (entry : LogEntry) (storage : Store Db) (result_msg : Bytes)
      → execute_entry n.storage entry ≡ some (storage, result_msg)
      → Apart n (maybe_compact (notify (record n { storage = storage }) entry result_msg).0)
  unfolding AllSame
  executed-Apart n entry storage result_msg h =
      let same : SameHard n.storage storage =
        subst (AllSame n.storage) h (execute_entry-SameHard n.storage entry) in
      let told = notify-Apart (record n { storage = storage }) entry result_msg in
      let done = maybe_compact-Apart (notify (record n { storage = storage }) entry result_msg).0 in
      ground (arith, same, told, done)

  -- What a step needs for its term and vote to be loaded again: numbers in the range of `int`, the
  -- accounts and results as the only content of a snapshot, and no thread between a campaign and its
  -- save.
  abbrev pub Saves : {n n' : Node Db} → Handled n n' → Type 0
  Saves (appended args now c) = args.term < int_bound
  Saves (installed args now) = (args.term < int_bound) × IsStateText args.snapshot_data
  Saves (voted args now) = (args.term < int_bound) × IsInt args.candidate_id
  Saves (counted term votes reply) = reply.term < int_bound
  Saves (append_replied peer sent_term entries reply) = reply.term < int_bound
  Saves (snapshot_replied peer last_index reply) = reply.term < int_bound
  Saves {n} (stood now) = (n.current_term + 1 < int_bound) × IsInt n.config.my_id
  Saves (campaigned now) = ⊥
  Saves (persisted term voted_for) = ⊥
  Saves _ = Unit {0}

  Handled-IsSaved : {n n' : Node Db} (step : Handled n n') → Saves step → IsSaved n → IsSaved n'
  unfolding claim_peer release_peer start stop
  Handled-IsSaved {n} (appended args now c) h ok = appended-IsSaved n args now h ok
  Handled-IsSaved {n} (installed args now) (h, apart) ok = installed-IsSaved n args now h apart ok
  Handled-IsSaved {n} (requested request callback) h ok =
      Apart-IsSaved n (process_client_request n request callback).0
        (requested-Apart n request callback) ok
  Handled-IsSaved {n} (voted args now) (h, k) ok = voted-IsSaved n args now h k ok
  Handled-IsSaved {n} (counted term votes reply) h ok = counted-IsSaved n term votes reply h ok
  Handled-IsSaved {n} (campaigned now) h ok = absurd h
  Handled-IsSaved {n} (persisted term voted_for) h ok = absurd h
  Handled-IsSaved {n} (stood now) (h, k) ok = stood-IsSaved n now h k
  Handled-IsSaved {n} (append_replied peer sent_term entries reply) h ok =
      append_replied-IsSaved n peer sent_term entries reply h ok
  Handled-IsSaved {n} (snapshot_replied peer last_index reply) h ok =
      snapshot_replied-IsSaved n peer last_index reply h ok
  Handled-IsSaved {n} (claimed peer) h ok = ground (arith, ok)
  Handled-IsSaved {n} (released peer) h ok = ground (arith, ok)
  Handled-IsSaved {n} (executed entry storage result_msg low run) h ok =
      Apart-IsSaved n (maybe_compact (notify (record n { storage = storage }) entry result_msg).0)
        (executed-Apart n entry storage result_msg run) ok
  Handled-IsSaved {n} started h ok = ground (arith, ok)
  Handled-IsSaved {n} stopped h ok = ground (arith, ok)

  -- Every step of a run.
  abbrev pub AllSaves : {n n' : Node Db} → Handlers n n' → Type 0
  AllSaves none_yet = Unit {0}
  AllSaves (then_one run step) = AllSaves run × Saves step

  -- If a node's term and vote are on disk, then they are there after any handlers of votes, entries,
  -- snapshots and client requests, any replies and any entries that the executor applies, and any
  -- starts, stops and campaigns, in any order. Terms and ids are in the range of `int`, a snapshot
  -- holds accounts and results only, and no other thread comes between a campaign and its save.
  pub Handlers-IsSaved :
      {n n' : Node Db} (run : Handlers n n') → AllSaves run → IsSaved n → IsSaved n'
  Handlers-IsSaved none_yet all ok = ok
  Handlers-IsSaved (then_one run step) (all, h) ok =
      Handled-IsSaved step h (Handlers-IsSaved run all ok)
