-- ===== src/Rpc/Turns.antt =====
-- One cycle of replication to a peer: what the peer's log holds after a call, and where the leader
-- takes the peer to be after the reply.
use native.Mathlib.Decide.{dec_lt}
use native.Mathlib.Decide.{dec_lt}
use raft_distributed_consens.Prelude.{
  eq_ℤ, ℕ, ◌+◌, ◌-◌, ◌≤◌, ◌<◌, min, List, [], ◌∷◌, ℤ, true, false, length, ◌≡◌, ap, ◌∙◌, arith,
  eq_ℤ_iff,
}
use raft_distributed_consens.Messages.{LogEntry, AppendEntriesArgs, AppendEntriesReply}
use raft_distributed_consens.External.{External}
use raft_distributed_consens.Storage.{Store, get_log_entry}
use raft_distributed_consens.Node.{Node, leader, become_follower}
use raft_distributed_consens.Replication.{
  Round, batch_limit, make_append_args, handle_append_entries, handle_append_reply, follow_leader,
  learn_commit, last_index, on_success, note_match, backtrack, advance_commit,
}
use raft_distributed_consens.Replication.LogShape.{IsLogOk, Consecutive}
use raft_distributed_consens.Replication.Leader.{
  Indexed, make_append_args_batch, advance_commit_books,
}
use raft_distributed_consens.Replication.Follower.{
  HoldsPrev, append_success_iff, append_success_log, append_all-SameRole, follow_leader-log,
  follow_leader-last,
}
use raft_distributed_consens.Replication.Agreement.{replicated}

last_index-Consecutive :
    (i : ℕ) (e : LogEntry) (es : List LogEntry)
    → Consecutive i (e ∷ es)
    → last_index e es ≡ i + 1 + length es
unfolding last_index
last_index-Consecutive i e [] c = omega (arith, c.0)
last_index-Consecutive i e (e' ∷ es) c = omega (arith, last_index-Consecutive (i + 1) e' es c.1)

-- What a batch adds.
abbrev pub sent_count : ℕ → Round → ℕ
sent_count prev r = min batch_limit (r.last_log_index - prev)

module _ {Db : Type 0} ⦃env : External Db⦄ where
  -- The peer's log has the leader's terms up to `m`.
  abbrev pub Agrees : Store Db → Node Db → ℕ → Type 0
  Agrees s f m =
      (m ≤ f.last_log_index)
      × ((j : ℕ) → 0 < j → j ≤ m → (get_log_entry f.storage j).term ≡ (get_log_entry s j).term)

  pub served_term :
      (f : Node Db) (args : AppendEntriesArgs) (now : ℕ)
      → f.current_term ≤ args.term
      → let served = handle_append_entries f args now in
        (served.0.current_term ≡ args.term) × (served.1.term ≡ args.term)
  unfolding handle_append_entries follow_leader become_follower learn_commit
  served_term f args now h =
      ground
        (arith, append_all-SameRole (follow_leader f args now) args.prev_log_index args.entries)

  -- A refusal leaves the log as it was.
  pub refused-log :
      (f : Node Db) (args : AppendEntriesArgs) (now : ℕ)
      → (handle_append_entries f args now).1.success ≡ false
      → let f' = (handle_append_entries f args now).0 in
        (f'.last_log_index ≡ f.last_log_index)
        × ((j : ℕ) → get_log_entry f'.storage j ≡ get_log_entry f.storage j)
  unfolding handle_append_entries
  refused-log f args now h = (
    ground (arith, follow_leader-last f args now),
    λ j. ground (arith, follow_leader-log f args now j),
  )

  module _ (s : Store Db) (prev : ℕ) (r : Round) (next : r.next_idx ≡ prev + 1)
      (indexed : Indexed s 0 r.last_log_index) where
    abbrev above_prev : Indexed s prev r.last_log_index
    above_prev = λ j low high. indexed j (omega arith) high

    pub taken-Agrees :
        (f : Node Db) (now : ℕ)
        → IsLogOk f
        → f.current_term ≤ r.current_term
        → HoldsPrev f (make_append_args s prev r)
        → Agrees s f prev
        → Agrees s
            (handle_append_entries f (make_append_args s prev r) now).0
            (prev + sent_count prev r)
    unfolding make_append_args
    taken-Agrees f now ok term holds agrees =
        let args = make_append_args s prev r in
        let (follows, count) = make_append_args_batch s prev r next above_prev in
        let taken : (handle_append_entries f args now).1.success ≡ true =
          (append_success_iff f args now ok).1 (term, holds) in
        (
          omega (arith, count, (append_success_log f args now 0 ok follows taken (omega arith)).0),
          λ j low high. elim (dec_lt prev j) [
            | yes above ↦
                (replicated s f prev r now j next above_prev ok term holds above (omega arith)).1
            | no below ↦
                ap (λ (e : LogEntry). e.term)
                  (append_success_log f args now j ok follows taken (omega arith)).2
                ∙ agrees.1 j low (omega arith)
          ],
        )

  -- What a reply leaves alone in a leader whose term it has: all but the commit index and where the
  -- peer is.
  abbrev Leads : Node Db → Node Db → Type 0
  Leads m n =
      (m.state ≡ n.state)
      × (m.storage ≡ n.storage)
      × (m.last_log_index ≡ n.last_log_index)
      × (m.current_term ≡ n.current_term)
      × (m.config ≡ n.config)

  advance_commit-Leads : (n : Node Db) → Leads (advance_commit n) n
  unfolding advance_commit
  advance_commit-Leads n = ground arith

  module _ (l : Node Db) (peer : ℤ) (leads : l.state ≡ leader) where
    pub replied-Leads :
        (entries : List LogEntry) (reply : AppendEntriesReply)
        → reply.term ≡ l.current_term
        → Leads (handle_append_reply l peer l.current_term entries reply) l
    unfolding handle_append_reply on_success note_match backtrack
    replied-Leads [] reply same = ground arith
    replied-Leads (e ∷ es) reply same =
        ground (arith, advance_commit-Leads (note_match l peer (last_index e es)))

    -- After a refusal the leader goes one entry back,
    pub replied_refused :
        (entries : List LogEntry) (reply : AppendEntriesReply)
        → reply.term ≡ l.current_term
        → reply.success ≡ false
        → 1 < l.next_index peer
        → let l' = handle_append_reply l peer l.current_term entries reply in
          (l'.next_index peer + 1 ≡ l.next_index peer) × (l'.match_index peer ≡ l.match_index peer)
    unfolding handle_append_reply backtrack
    replied_refused entries reply same refused more = ground (arith, eq_ℤ_iff peer peer)

    -- after a success it goes on behind what it has sent.
    pub replied_taken :
        (entries : List LogEntry) (reply : AppendEntriesReply) (prev : ℕ)
        → reply.term ≡ l.current_term
        → reply.success ≡ true
        → Consecutive prev entries
        → l.next_index peer ≡ prev + 1
        → l.match_index peer ≤ prev
        → let l' = handle_append_reply l peer l.current_term entries reply in
          (l'.next_index peer ≡ prev + length entries + 1)
          × (l'.match_index peer ≤ prev + length entries)
          × (0 < length entries → l'.match_index peer ≡ prev + length entries)
          × (length entries ≡ 0 → l'.match_index peer ≡ l.match_index peer)
    unfolding handle_append_reply on_success note_match
    replied_taken [] reply prev same taken follows next behind = ground arith
    replied_taken (e ∷ es) reply prev same taken follows next behind = ground (
      arith,
      advance_commit_books (note_match l peer (last_index e es)) peer,
      last_index-Consecutive prev e es follows,
      eq_ℤ_iff peer peer,
    )

    -- The other peers are where they were.
    pub replied_others :
        (entries : List LogEntry) (reply : AppendEntriesReply) (other : ℤ)
        → eq_ℤ peer other ≡ false
        → let l' = handle_append_reply l peer l.current_term entries reply in
          (l'.next_index other ≡ l.next_index other) × (l'.match_index other ≡ l.match_index other)
    unfolding handle_append_reply on_success note_match backtrack become_follower
    replied_others [] reply other differ = ground arith
    replied_others (e ∷ es) reply other differ =
        ground (arith, advance_commit_books (note_match l peer (last_index e es)) other)
