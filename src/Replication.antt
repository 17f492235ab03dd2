-- ===== src/Replication.antt =====
-- src/raft/replication.cpp: a leader's work for one peer, and the follower's side of AppendEntries.
-- `replicateToPeer` takes the lock three times and reads the database in between; each part is a
-- function of its own.
pub mod LogShape
pub mod Follower
pub mod Leader
pub mod Agreement
pub mod Manager
use raft_distributed_consens.Prelude.{
  ℕ, zero, suc, ◌+◌, ◌-◌, ◌/◌, List, [], ◌∷◌, Option, none, some, Bool, true, false, ◌&&◌, ◌||◌,
  not, ℤ, Bytes, eq_ℤ, ltb, leb, ◌==◌, if◌then◌else◌, length, max, min,
}
use raft_distributed_consens.Messages.{LogEntry, AppendEntriesArgs, AppendEntriesReply}
use raft_distributed_consens.External.{External}
use raft_distributed_consens.Storage.{Store, get_log_entry, append_log, truncate_log}
use raft_distributed_consens.Node.{Node, is_leader, is_follower, update, become_follower}

abbrev pub batch_limit : ℕ
batch_limit = 100

-- What the second locked part of `replicateToPeer` copies.
pub record Round : Type 0 where
  pub next_idx : ℕ
  pub current_term : ℕ
  pub commit_index : ℕ
  pub last_log_index : ℕ
  pub my_id : ℤ

-- Peers, other than the node itself, that hold the entry `n`.
unfoldable pub count_matches : ℤ → (ℤ → ℕ) → ℕ → List (ℤ × Bytes) → ℕ
count_matches my_id match_index n [] = 0
count_matches my_id match_index n ((id, address) ∷ peers) =
    (if not (eq_ℤ id my_id) && leb n (match_index id) then 1 else 0)
    + count_matches my_id match_index n peers

-- The index of the last of the entries that were sent.
unfoldable pub last_index : LogEntry → List LogEntry → ℕ
last_index e [] = e.index
last_index e (e' ∷ es) = last_index e' es

module _ {Db : Type 0} ⦃env : External Db⦄ where
  -- One peer's turn in `runReplicationManager`: is a thread to be started, and mark it busy.
  unfoldable pub claim_peer : Node Db → ℤ → Node Db × Bool
  claim_peer n peer =
      if n.replication_active peer
      then (n, false)
      else (record n { replication_active = update n.replication_active peer true }, true)

  -- The thread's last step.
  unfoldable pub release_peer : Node Db → ℤ → Node Db
  release_peer n peer = record n { replication_active = update n.replication_active peer false }

  -- The first locked part: the index before the first entry to send. A leader's next index is
  -- at least 1.
  unfoldable pub prev_index : Node Db → ℤ → Option ℕ
  prev_index n peer = if is_leader n.state then some (n.next_index peer - 1) else none

  -- The test that follows, on the database: is the peer to be sent a snapshot?
  unfoldable pub needs_snapshot : Store Db → ℕ → Bool
  needs_snapshot s prev = ltb 0 prev && (get_log_entry s prev).term == 0

  -- The second locked part.
  unfoldable pub begin_round : Node Db → ℤ → Option Round
  begin_round n peer =
      if is_leader n.state
      then some (record {
        next_idx = n.next_index peer;
        current_term = n.current_term;
        commit_index = n.commit_index;
        last_log_index = n.last_log_index;
        my_id = n.config.my_id;
      })
      else none

  -- `count` entries from `i` on.
  unfoldable pub read_entries : Store Db → ℕ → ℕ → List LogEntry
  read_entries s zero i = []
  read_entries s (suc count) i = get_log_entry s i ∷ read_entries s count (i + 1)

  -- Phase 2: from `next_idx` to the last entry, `batch_limit` of them at most.
  unfoldable pub make_append_args : Store Db → ℕ → Round → AppendEntriesArgs
  unfolding read_entries
  make_append_args s prev r = record {
    term = r.current_term;
    leader_id = r.my_id;
    prev_log_index = prev;
    prev_log_term = if ltb 0 prev then (get_log_entry s prev).term else 0;
    entries = read_entries s (min batch_limit (r.last_log_index + 1 - r.next_idx)) r.next_idx;
    leader_commit = r.commit_index;
  }

  -- The loop `for (int N = lastLogIndex_; N > commitIndex_; N--)`.
  unfoldable pub find_commit : Node Db → ℕ → Option ℕ
  find_commit n zero = none
  find_commit n (suc m) =
      let rest = find_commit n m in
      if leb (suc m) n.commit_index
      then none
      else if not ((get_log_entry n.storage (suc m)).term == n.current_term)
      then rest
      else if ltb ((length n.config.peers + 1) / 2)
          (1 + count_matches n.config.my_id n.match_index (suc m) n.config.peers)
      then some (suc m)
      else rest

  unfoldable pub advance_commit : Node Db → Node Db
  advance_commit n = elim (find_commit n n.last_log_index) [
    | none ↦ n
    | some index ↦ record n { commit_index = index }
  ]

  -- The peer has taken the entries up to `last_sent_index`.
  unfoldable pub note_match : Node Db → ℤ → ℕ → Node Db
  note_match n peer last_sent_index =
      let matched = max (n.match_index peer) last_sent_index in
      record n {
        match_index = update n.match_index peer matched;
        next_index = update n.next_index peer (matched + 1);
      }

  -- The peer has refused.
  unfoldable pub backtrack : Node Db → ℤ → Node Db
  backtrack n peer =
      if ltb 1 (n.next_index peer)
      then record n { next_index = update n.next_index peer (n.next_index peer - 1) }
      else n

  unfoldable pub on_success : Node Db → ℤ → List LogEntry → Node Db
  unfolding note_match advance_commit
  on_success n peer [] = n
  on_success n peer (e ∷ es) = advance_commit (note_match n peer (last_index e es))

  -- Phase 4, when the reply to what was sent in `sent_term` has come.
  unfoldable pub handle_append_reply :
      Node Db → ℤ → ℕ → List LogEntry → AppendEntriesReply → Node Db
  unfolding on_success backtrack
  handle_append_reply n peer sent_term entries reply =
      if not (is_leader n.state) || not (n.current_term == sent_term)
      then n
      else if ltb n.current_term reply.term
      then become_follower n reply.term
      else if reply.success
      then on_success n peer entries
      else backtrack n peer

  -- Step 2 of `handleAppendEntries`: the sender is the leader of its term.
  unfoldable pub follow_leader : Node Db → AppendEntriesArgs → ℕ → Node Db
  follow_leader n args now =
      let n' : Node Db = record n { last_heartbeat_time = now; leader_id = args.leader_id } in
      if ltb n.current_term args.term
      then become_follower n' args.term
      else if not (is_follower n.state)
      then become_follower n' args.term
      else n'

  -- Step 3: does the log hold the entry before the new ones?
  unfoldable pub is_consistent : Node Db → AppendEntriesArgs → Bool
  is_consistent n args =
      if not (ltb 0 args.prev_log_index)
      then true
      else if ltb n.last_log_index args.prev_log_index
      then false
      else (if args.prev_log_index == n.last_log_index
          then n.last_log_term
          else (get_log_entry n.storage args.prev_log_index).term)
        == args.prev_log_term

  -- A round of the loop of step 4, for the entry at `index`.
  unfoldable pub append_entry : Node Db → ℕ → LogEntry → Node Db
  append_entry n index e =
      if leb index n.last_log_index
      then (if (get_log_entry n.storage index).term == e.term then n else record n {
        storage = append_log (truncate_log n.storage index) e;
        last_log_index = index;
        last_log_term = e.term;
      })
      else record n {
        storage = append_log n.storage e;
        last_log_index = index;
        last_log_term = e.term;
      }

  unfoldable pub append_all : Node Db → ℕ → List LogEntry → Node Db
  append_all n index [] = n
  append_all n index (e ∷ es) = append_all (append_entry n (index + 1) e) (index + 1) es

  -- Step 5.
  unfoldable pub learn_commit : Node Db → ℕ → Node Db
  learn_commit n leader_commit =
      if ltb n.commit_index leader_commit
      then record n { commit_index = min leader_commit n.last_log_index }
      else n

  unfoldable pub handle_append_entries :
      Node Db → AppendEntriesArgs → ℕ → Node Db × AppendEntriesReply
  handle_append_entries n args now =
      if ltb args.term n.current_term
      then (n, record { term = n.current_term; success = false })
      else let n' = follow_leader n args now in
        if is_consistent n' args
        then (
          learn_commit (append_all n' args.prev_log_index args.entries) args.leader_commit,
          record { term = n'.current_term; success = true },
        )
        else (n', record { term = n'.current_term; success = false })
