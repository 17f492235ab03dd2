-- ===== src/Replication/Leader.antt =====
-- The leader: what it sends, what it commits, and how it follows each peer's log.
use native.Mathlib.Decide.{dec_lt}
use raft_distributed_consens.Prelude.{
  true, eq_ℤ, eq_ℤ_iff, Option-cases, ℕ, zero, suc, ◌+◌, ◌-◌, ◌/◌, ◌≤◌, ◌<◌, List, [], ◌∷◌, none,
  some, ℤ, All, Bytes, Bool-cases, not, ◌&&◌, leb, length, min, ◌≡◌, ◌≢◌, ◌⊎◌, refl, ap, arith, inl,
  inr,
}
use raft_distributed_consens.Messages.{LogEntry, AppendEntriesReply}
use raft_distributed_consens.External.{External}
use raft_distributed_consens.Storage.{Store, get_log_entry}
use raft_distributed_consens.Node.{Node, become_follower}
use raft_distributed_consens.Replication.{
  batch_limit, Round, count_matches, last_index, read_entries, make_append_args, find_commit,
  advance_commit, note_match, backtrack, on_success, handle_append_reply,
}
use raft_distributed_consens.Replication.LogShape.{Consecutive}

same_key : (m : ℤ → ℕ) (a b : ℤ) → eq_ℤ a b ≡ true → m a ≡ m b
same_key m a b h = ap m ((eq_ℤ_iff a b).0 h)

-- Some of the members of a list, in its order.
pub data Chosen : List (ℤ × Bytes) → List (ℤ × Bytes) → Type 0 where
  nobody : Chosen [] []
  passed :
      {p : ℤ × Bytes} {some_peers peers : List (ℤ × Bytes)}
      → Chosen some_peers peers
      → Chosen some_peers (p ∷ peers)
  taken :
      {p : ℤ × Bytes} {some_peers peers : List (ℤ × Bytes)}
      → Chosen some_peers peers
      → Chosen (p ∷ some_peers) (p ∷ peers)

-- Peers that count as holders of the entry `i`, so many of them: other than the node itself, and
-- known to hold the log up to `i` at least.
abbrev pub Holders : ℤ → (ℤ → ℕ) → ℕ → List (ℤ × Bytes) → ℕ → Type 0
Holders my_id match_index i peers count =
    (holders : List (ℤ × Bytes)) × Chosen holders peers
    × All (λ p. (p.0 ≢ my_id) × (i ≤ match_index p.0)) holders
    × (length holders ≡ count)

count_matches-Holders :
    (my_id : ℤ) (m : ℤ → ℕ) (i : ℕ) (peers : List (ℤ × Bytes))
    → Holders my_id m i peers (count_matches my_id m i peers)
unfolding count_matches
count_matches-Holders my_id m i [] = ([], nobody, tt, refl)
count_matches-Holders my_id m i ((id, address) ∷ peers) =
    let (holders, among, hold, count) = count_matches-Holders my_id m i peers in
    elim (Bool-cases (not (eq_ℤ id my_id) && leb i (m id))) [
      | inl holds ↦ rw holds (
        (id, address) ∷ holders,
        taken among,
        ((ground (arith, eq_ℤ_iff id my_id, holds), ground (arith, holds)), hold),
        omega (arith, count),
      )
      | inr lacks ↦ rw lacks (holders, passed among, hold, omega (arith, count))
    ]

module _ {Db : Type 0} ⦃env : External Db⦄ where
  -- An entry of the leader's own term that a quorum holds, the leader included.
  abbrev pub Committable : Node Db → ℕ → Type 0
  Committable n i =
      ((get_log_entry n.storage i).term ≡ n.current_term)
      × ((length n.config.peers + 1) / 2
          < 1 + count_matches n.config.my_id n.match_index i n.config.peers)

  -- The loop finds an index above the commit index that may be committed,
  find_commit_sound :
      (n : Node Db) (top i : ℕ)
      → find_commit n top ≡ some i
      → (n.commit_index < i) × (i ≤ top) × Committable n i
  unfolding find_commit
  find_commit_sound n zero i h = cc
  find_commit_sound n (suc m) i h = ground (arith, find_commit_sound n m i)

  -- none that is greater, and some if there is one.
  module _ (n : Node Db) (j : ℕ) (below : n.commit_index < j) (c : Committable n j) where
    find_commit_greatest : (top i : ℕ) → j ≤ top → find_commit n top ≡ some i → j ≤ i
    unfolding find_commit
    find_commit_greatest zero i above h = absurd (omega arith)
    find_commit_greatest (suc m) i above h = ground (arith, find_commit_greatest m i)

    find_commit-ne-none : (top : ℕ) → j ≤ top → find_commit n top ≢ none
    unfolding find_commit
    find_commit-ne-none zero above h = absurd (omega arith)
    find_commit-ne-none (suc m) above h = ground (arith, find_commit-ne-none m)

  -- An entry of the current term in the log, which more than half of the peers and the node hold.
  abbrev pub IsHeld : Node Db → ℕ → Type 0
  IsHeld n i =
      (i ≤ n.last_log_index)
      × ((get_log_entry n.storage i).term ≡ n.current_term)
      × ((count : ℕ) × Holders n.config.my_id n.match_index i n.config.peers count
          × ((length n.config.peers + 1) / 2 < 1 + count))

  -- When a leader looks for an entry to commit, its commit index does not move back, and it moves
  -- only to an entry of the current term, at or below the end of the log, that a quorum holds: among
  -- the configured peers there are some, all of them other than the node and with a match index at
  -- or above the entry, which together with the node are more than (peers + 1) / 2.
  pub advance_commit_safe :
      (n : Node Db)
      → (n.commit_index ≤ (advance_commit n).commit_index)
        × (((advance_commit n).commit_index ≡ n.commit_index)
            ⊎ IsHeld n (advance_commit n).commit_index)
  unfolding advance_commit
  advance_commit_safe n = elim (Option-cases (find_commit n n.last_log_index)) [
    | inl stuck ↦ rw (stuck, advance_commit) (omega arith, inl refl)
    | inr (i, found) ↦
        let (above, top, (own, quorum)) = find_commit_sound n n.last_log_index i found in
        let peers = n.config.peers in
        let count : ℕ = count_matches n.config.my_id n.match_index i peers in
        let holders = count_matches-Holders n.config.my_id n.match_index i peers in
        rw (found, advance_commit) (omega arith, inr (top, own, (count, holders, quorum)))
  ]

  -- An entry of the current term in the log that a quorum holds is committed by the next pass.
  advance_commit_complete :
      (n : Node Db) (j : ℕ)
      → j ≤ n.last_log_index
      → Committable n j
      → j ≤ (advance_commit n).commit_index
  unfolding advance_commit
  advance_commit_complete n j h c = elim (dec_lt n.commit_index j) [
    | no old ↦ omega (arith, (advance_commit_safe n).0)
    | yes new ↦ elim (Option-cases (find_commit n n.last_log_index)) [
      | inl stuck ↦ absurd (find_commit-ne-none n j new c n.last_log_index h stuck)
      | inr (i, found) ↦
          rw (found, advance_commit) (find_commit_greatest n j new c n.last_log_index i h found)
    ]
  ]

  -- A log in which each entry stands at its own index, above `low` and up to `high`.
  abbrev pub Indexed : Store Db → ℕ → ℕ → Type 0
  Indexed s low high = (j : ℕ) → low < j → j ≤ high → (get_log_entry s j).index ≡ j

  pub read_entries-Consecutive :
      (s : Store Db) (count prev : ℕ)
      → Indexed s prev (prev + count)
      → Consecutive prev (read_entries s count (prev + 1))
  unfolding read_entries
  read_entries-Consecutive s zero prev h = tt
  read_entries-Consecutive s (suc count) prev h = (
    h (prev + 1) (omega arith) (omega arith),
    read_entries-Consecutive s count (prev + 1) (λ j low high. h j (omega arith) (omega arith)),
  )

  pub length-read_entries : (s : Store Db) (count i : ℕ) → length (read_entries s count i) ≡ count
  unfolding read_entries
  length-read_entries s zero i = refl
  length-read_entries s (suc count) i = ap suc (length-read_entries s count (i + 1))

  -- In a log whose entries stand at their own indices, the batch for a peer whose next index is
  -- `prev + 1` has the indices that follow `prev`, and reaches to the end of the log or has 100
  -- entries.
  pub make_append_args_batch :
      (s : Store Db) (prev : ℕ) (r : Round)
      → r.next_idx ≡ prev + 1
      → Indexed s prev r.last_log_index
      → let args = make_append_args s prev r in
        Consecutive args.prev_log_index args.entries
        × (length args.entries ≡ min batch_limit (r.last_log_index - prev))
  unfolding make_append_args
  make_append_args_batch s prev r e h =
      let count : ℕ = min batch_limit (r.last_log_index + 1 - r.next_idx) in
      (
        rw e (
            read_entries-Consecutive s (min batch_limit (r.last_log_index + 1 - (prev + 1))) prev
              (λ j low high. h j low (omega arith))),
        omega (arith, length-read_entries s count r.next_idx),
      )

  pub advance_commit_books :
      (n : Node Db) (id : ℤ)
      → ((advance_commit n).next_index id ≡ n.next_index id)
        × ((advance_commit n).match_index id ≡ n.match_index id)
  unfolding advance_commit
  advance_commit_books n id = ground arith

  on_success_books :
      (n : Node Db) (peer id : ℤ) (entries : List LogEntry)
      → 0 < n.next_index id
      → (0 < (on_success n peer entries).next_index id)
        × (n.match_index id ≤ (on_success n peer entries).match_index id)
  unfolding on_success note_match
  on_success_books n peer id [] h = omega arith
  on_success_books n peer id (e ∷ es) h = ground (
    arith,
    advance_commit_books (note_match n peer (last_index e es)) id,
    same_key n.match_index peer id,
  )

  -- A reply keeps the leader's books in order: the next index of a peer stays positive, and what a
  -- peer is known to hold never shrinks.
  handle_append_reply_books :
      (n : Node Db) (peer id : ℤ) (sent_term : ℕ) (entries : List LogEntry)
      (reply : AppendEntriesReply)
      → 0 < n.next_index id
      → let n' = handle_append_reply n peer sent_term entries reply in
        (0 < n'.next_index id) × (n.match_index id ≤ n'.match_index id)
  unfolding handle_append_reply backtrack become_follower
  handle_append_reply_books n peer id sent_term entries reply h =
      ground (arith, on_success_books n peer id entries, eq_ℤ_iff peer id)

  -- Every entry that may be committed has been.
  abbrev pub IsCommitted : Node Db → Type 0
  IsCommitted n = (j : ℕ) → j ≤ n.last_log_index → Committable n j → j ≤ n.commit_index

  advance_commit-Committable :
      (n : Node Db) (j : ℕ)
      → Committable (advance_commit n) j
      → j ≤ (advance_commit n).last_log_index
      → Committable n j × (j ≤ n.last_log_index)
  unfolding advance_commit
  advance_commit-Committable n j c le = elim (Option-cases (find_commit n n.last_log_index)) [
    | inl stuck ↦ ground (arith, c)
    | inr (i, found) ↦ ground (arith, c)
  ]

  pub advance_commit-IsCommitted : (n : Node Db) → IsCommitted (advance_commit n)
  advance_commit-IsCommitted n = λ j le c.
      let (was, below) = advance_commit-Committable n j c le in
      advance_commit_complete n j below was
