-- ===== src/Replication/Agreement.antt =====
-- A round of replication from the leader's log to the follower's, and the vote of a candidate that
-- learns of the leader.
use raft_distributed_consens.Replication.Leader.{Indexed, make_append_args_batch}
use raft_distributed_consens.Replication.Follower.{
  HoldsPrev, append_success_iff, append_success_log, append_all-SameRole,
}
use raft_distributed_consens.Replication.LogShape.{IsLogOk, Holds}
use raft_distributed_consens.Replication.{
  Round, batch_limit, read_entries, make_append_args, handle_append_entries, follow_leader,
  learn_commit,
}
use raft_distributed_consens.Election.Voting.{UpToDate, vote_granted_iff, vote_granted_effect}
use raft_distributed_consens.Election.{handle_request_vote}
use raft_distributed_consens.Node.{Node, candidate, become_follower}
use raft_distributed_consens.Storage.{Store, get_log_entry}
use raft_distributed_consens.External.{External}
use raft_distributed_consens.Messages.{LogEntry, AppendEntriesArgs, RequestVoteArgs}
use native.Mathlib.Decide.{dec_lt}
use raft_distributed_consens.Prelude.{
  ℕ, zero, suc, ◌+◌, ◌-◌, ◌<◌, ◌≤◌, min, true, ◌≡◌, ◌≢◌, arith, All, ap, sym, subst, ◌∙◌, inl, inr,
  minus_one,
}

module _ {Db : Type 0} ⦃env : External Db⦄ where
  -- A property of the entries that were read is one of the entries in the log.
  All-read_entries :
      (P : LogEntry → Type 0) (s : Store Db) (count i j : ℕ)
      → All P (read_entries s count i)
      → i ≤ j
      → j < i + count
      → P (get_log_entry s j)
  unfolding read_entries
  All-read_entries P s zero i j all low high = absurd (omega arith)
  All-read_entries P s (suc count) i j all low high = elim (dec_lt i j) [
    | no here ↦ subst (λ (k : ℕ). P (get_log_entry s k)) (omega arith) all.0
    | yes above ↦ All-read_entries P s count (i + 1) j all.1 (omega arith) (omega arith)
  ]

  Holds-term :
      (n n' : Node Db) (e : LogEntry)
      → Holds n n' e
      → (get_log_entry n'.storage e.index).term ≡ e.term
  Holds-term n n' e (inl stored) = ap (λ (x : LogEntry). x.term) stored
  Holds-term n n' e (inr (low, term, kept)) = ap (λ (x : LogEntry). x.term) kept ∙ term

  -- A follower that is not ahead in terms, has an intact log and holds the entry before the batch
  -- takes the batch that the leader makes for it: at each index of the batch its log then has the
  -- term that the leader's log has there. The leader's entries must stand at their own indices.
  pub replicated :
      (s : Store Db) (n : Node Db) (prev : ℕ) (r : Round) (now j : ℕ)
      → r.next_idx ≡ prev + 1
      → Indexed s prev r.last_log_index
      → IsLogOk n
      → n.current_term ≤ r.current_term
      → HoldsPrev n (make_append_args s prev r)
      → prev < j
      → j ≤ prev + min batch_limit (r.last_log_index - prev)
      → let done = handle_append_entries n (make_append_args s prev r) now in
        (done.1.success ≡ true) × ((get_log_entry done.0.storage j).term ≡ (get_log_entry s j).term)
  unfolding make_append_args
  replicated s n prev r now j next indexed ok term holds low high =
      let args = make_append_args s prev r in
      let taken : (handle_append_entries n args now).1.success ≡ true =
        (append_success_iff n args now ok).1 (term, holds) in
      let (last, all, below) =
        append_success_log n args now prev ok (make_append_args_batch s prev r next indexed).0 taken
          (omega arith) in
      let n' : Node Db = (handle_append_entries n args now).0 in
      let here : Holds n n' (get_log_entry s j) =
        All-read_entries (Holds n n') s (min batch_limit (r.last_log_index + 1 - r.next_idx))
          r.next_idx j all (omega arith) (omega arith) in
      (
        taken,
        ap (λ (k : ℕ). (get_log_entry n'.storage k).term) (sym (indexed j low (omega arith)))
            ∙ Holds-term n n' (get_log_entry s j) here,
      )

  -- A candidate that is told of the leader of its term has no vote any more.
  vote_forgotten :
      (n : Node Db) (args : AppendEntriesArgs) (now : ℕ)
      → n.state ≡ candidate
      → args.term ≡ n.current_term
      → let n' = (handle_append_entries n args now).0 in
        (n'.current_term ≡ n.current_term) × (n'.voted_for ≡ minus_one)
  unfolding handle_append_entries follow_leader become_follower learn_commit
  vote_forgotten n args now stands heard =
      ground
        (arith, append_all-SameRole (follow_leader n args now) args.prev_log_index args.entries)

  -- A candidate that has voted for itself and is told of the leader of its term forgets its vote: it
  -- grants the next request of that term, if the log of the asking node is up to date with its own.
  pub second_vote :
      (n : Node Db) (args : AppendEntriesArgs) (ask : RequestVoteArgs) (now later : ℕ)
      → n.state ≡ candidate
      → n.voted_for ≡ n.config.my_id
      → args.term ≡ n.current_term
      → ask.term ≡ n.current_term
      → ask.candidate_id ≢ n.config.my_id
      → UpToDate (handle_append_entries n args now).0 ask
      → let after = handle_request_vote (handle_append_entries n args now).0 ask later in
        (after.1.vote_granted ≡ true)
        × (after.0.current_term ≡ n.current_term)
        × (after.0.voted_for ≢ n.voted_for)
  second_vote n args ask now later stands self heard asked other newer =
      let (term, free) = vote_forgotten n args now stands heard in
      let granted =
        (vote_granted_iff (handle_append_entries n args now).0 ask later).1
          (inr (term ∙ sym asked, inl free), newer) in
      let (at_term, to_asker, reply) =
        vote_granted_effect (handle_append_entries n args now).0 ask later granted in
      (granted, at_term ∙ asked, λ e. other (sym to_asker ∙ e ∙ self))
