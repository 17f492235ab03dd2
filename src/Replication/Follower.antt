-- ===== src/Replication/Follower.antt =====
-- The follower: when AppendEntries succeeds, and what the log holds afterwards.
use raft_distributed_consens.Prelude.{
  ℕ, ◌+◌, ◌≤◌, ◌<◌, List, [], ◌∷◌, true, ltb, not, length, All, minus_one, ◌≡◌, ◌↔◌, ◌⊎◌, refl, ap,
  ◌∙◌, arith, Bool-cases, inl, inr,
}
use raft_distributed_consens.Messages.{LogEntry, AppendEntriesArgs}
use raft_distributed_consens.External.{External}
use raft_distributed_consens.Storage.{get_log_entry}
use raft_distributed_consens.Node.{Node, become_follower, follower, is_follower}
use raft_distributed_consens.Replication.{
  follow_leader, is_consistent, append_entry, append_all, learn_commit, handle_append_entries,
}
use raft_distributed_consens.Replication.LogShape.{
  IsLogOk, Consecutive, become_follower-IsLogOk, get_log_entry-save_hard_state, append_all-below,
  append_all-Holds, Holds, append_all-IsLogOk, append_all-last,
}

module _ {Db : Type 0} ⦃env : External Db⦄ where
  -- The log holds the entry that the new entries follow.
  abbrev pub HoldsPrev : Node Db → AppendEntriesArgs → Type 0
  HoldsPrev n args =
      (args.prev_log_index ≡ 0)
      ⊎ ((args.prev_log_index ≤ n.last_log_index)
          × ((get_log_entry n.storage args.prev_log_index).term ≡ args.prev_log_term))

  -- With the last term cached rightly the test is the one on the stored log.
  is_consistent_iff :
      (n : Node Db) (args : AppendEntriesArgs)
      → IsLogOk n
      → (is_consistent n args ≡ true) ↔ HoldsPrev n args
  unfolding is_consistent
  is_consistent_iff n args ok =
      (λ h. ground (arith, ok.last_term), λ h. ground (arith, ok.last_term))

  pub follow_leader-log :
      (n : Node Db) (args : AppendEntriesArgs) (now i : ℕ)
      → get_log_entry (follow_leader n args now).storage i ≡ get_log_entry n.storage i
  unfolding follow_leader become_follower
  follow_leader-log n args now i =
      ground (arith, get_log_entry-save_hard_state n.storage args.term minus_one i)

  pub follow_leader-last :
      (n : Node Db) (args : AppendEntriesArgs) (now : ℕ)
      → (follow_leader n args now).last_log_index ≡ n.last_log_index
  unfolding follow_leader become_follower
  follow_leader-last n args now = ground arith

  follow_leader-IsLogOk :
      (n : Node Db) (args : AppendEntriesArgs) (now : ℕ)
      → IsLogOk n
      → IsLogOk (follow_leader n args now)
  unfolding follow_leader
  follow_leader-IsLogOk n args now ok =
      let noted : IsLogOk (record n { last_heartbeat_time = now; leader_id = args.leader_id }) =
        record { cached = ok.cached; last_term = ok.last_term } in
      elim (Bool-cases (ltb n.current_term args.term)) [
        | inl new ↦ rw new (become_follower-IsLogOk _ args.term noted)
        | inr known ↦ elim (Bool-cases (not (is_follower n.state))) [
          | inl other ↦ rw known (rw other (become_follower-IsLogOk _ args.term noted))
          | inr same ↦ rw known (rw same noted)
        ]
      ]

  -- Where memory describes the stored log, AppendEntries succeeds exactly if the sender's term is not old and the log holds the entry
  -- before the new ones.
  pub append_success_iff :
      (n : Node Db) (args : AppendEntriesArgs) (now : ℕ)
      → IsLogOk n
      → ((handle_append_entries n args now).1.success ≡ true)
        ↔ ((n.current_term ≤ args.term) × HoldsPrev n args)
  unfolding handle_append_entries
  append_success_iff n args now ok = (
    λ h. ground (
      arith,
      is_consistent_iff (follow_leader n args now) args (follow_leader-IsLogOk n args now ok),
      follow_leader-log n args now args.prev_log_index,
      follow_leader-last n args now,
    ),
    λ h. ground (
      arith,
      is_consistent_iff (follow_leader n args now) args (follow_leader-IsLogOk n args now ok),
      follow_leader-log n args now args.prev_log_index,
      follow_leader-last n args now,
    ),
  )

  -- The state after a success.
  append_success_state :
      (n : Node Db) (args : AppendEntriesArgs) (now : ℕ)
      → (handle_append_entries n args now).1.success ≡ true
      → (handle_append_entries n args now).0
        ≡ learn_commit
            (append_all (follow_leader n args now) args.prev_log_index args.entries)
            args.leader_commit
  unfolding handle_append_entries
  append_success_state n args now h = ground arith

  pub learn_commit-storage : (n : Node Db) (c : ℕ) → (learn_commit n c).storage ≡ n.storage
  unfolding learn_commit
  learn_commit-storage n c = ground arith

  pub learn_commit-last :
      (n : Node Db) (c : ℕ) → (learn_commit n c).last_log_index ≡ n.last_log_index
  unfolding learn_commit
  learn_commit-last n c = ground arith

  -- If memory describes the stored log and the entries have the indices that follow the one before
  -- them, then after a success the log reaches the end of the batch, holds each entry of the batch,
  -- command included, at the entry's index, unless it had an entry of the same term there, which it
  -- then still has, and is unchanged below the batch.
  pub append_success_log :
      (n : Node Db) (args : AppendEntriesArgs) (now j : ℕ)
      → IsLogOk n
      → Consecutive args.prev_log_index args.entries
      → (handle_append_entries n args now).1.success ≡ true
      → j ≤ args.prev_log_index
      → let n' = (handle_append_entries n args now).0 in
        (args.prev_log_index + length args.entries ≤ n'.last_log_index)
        × All (Holds n n') args.entries
        × (get_log_entry n'.storage j ≡ get_log_entry n.storage j)
  append_success_log n args now j ok c h below =
      let before = follow_leader n args now in
      let last : args.prev_log_index ≤ before.last_log_index =
        ground (arith, (append_success_iff n args now ok).0 h, follow_leader-last n args now) in
      let after = append_all before args.prev_log_index args.entries in
      rw (append_success_state n args now h, learn_commit-storage, learn_commit-last)
        (
          append_all-last before args.prev_log_index args.entries last,
          append_all-Holds n before args.prev_log_index args.entries c (λ k high low.
              (omega (arith, follow_leader-last n args now), follow_leader-log n args now k)),
          append_all-below before args.prev_log_index args.entries j c below
              ∙ follow_leader-log n args now j,
        )

  learn_commit-IsLogOk : (n : Node Db) (c : ℕ) → IsLogOk n → IsLogOk (learn_commit n c)
  unfolding learn_commit
  learn_commit-IsLogOk n c ok = elim (Bool-cases (ltb n.commit_index c)) [
    | inl more ↦ rw more (record { cached = ok.cached; last_term = ok.last_term })
    | inr none_new ↦ rw none_new ok
  ]

  -- If memory describes the stored log, then it does so after any AppendEntries whose entries have
  -- the indices that follow the one before them.
  pub handle_append_entries-IsLogOk :
      (n : Node Db) (args : AppendEntriesArgs) (now : ℕ)
      → IsLogOk n
      → Consecutive args.prev_log_index args.entries
      → IsLogOk (handle_append_entries n args now).0
  unfolding handle_append_entries
  handle_append_entries-IsLogOk n args now ok c =
      let before = follow_leader-IsLogOk n args now ok in
      elim (Bool-cases (ltb args.term n.current_term)) [
        | inl old ↦ rw old ok
        | inr young ↦ elim (Bool-cases (is_consistent (follow_leader n args now) args)) [
          | inl holds ↦ rw young (
              rw holds (
                learn_commit-IsLogOk _ args.leader_commit
                  (append_all-IsLogOk _ args.prev_log_index args.entries c before)))
          | inr lacks ↦ rw young (rw lacks before)
        ]
      ]

  -- What the log is no part of: role, term, leader, vote, time of the last heartbeat, configuration
  -- and peers.
  abbrev SameRole : Node Db → Node Db → Type 0
  SameRole m n =
      (m.state ≡ n.state)
      × (m.current_term ≡ n.current_term)
      × (m.leader_id ≡ n.leader_id)
      × (m.voted_for ≡ n.voted_for)
      × (m.last_heartbeat_time ≡ n.last_heartbeat_time)
      × (m.config ≡ n.config)
      × (m.peer_stubs ≡ n.peer_stubs)

  append_entry-SameRole : (n : Node Db) (i : ℕ) (e : LogEntry) → SameRole (append_entry n i e) n
  unfolding append_entry
  append_entry-SameRole n i e = ground arith

  pub append_all-SameRole :
      (n : Node Db) (i : ℕ) (es : List LogEntry) → SameRole (append_all n i es) n
  unfolding append_all
  append_all-SameRole n i [] = (refl, refl, refl, refl, refl, refl, refl)
  append_all-SameRole n i (e ∷ es) =
      let rest = append_all-SameRole (append_entry n (i + 1) e) (i + 1) es in
      let here = append_entry-SameRole n (i + 1) e in
      (
        rest.0 ∙ here.0,
        rest.1 ∙ here.1,
        rest.2 ∙ here.2,
        rest.3 ∙ here.3,
        rest.4 ∙ here.4,
        rest.5 ∙ here.5,
        rest.6 ∙ here.6,
      )

  -- After a request that is not old the node follows the sender in the sender's term, whether or
  -- not its log is consistent.
  append_follows :
      (n : Node Db) (args : AppendEntriesArgs) (now : ℕ)
      → n.current_term ≤ args.term
      → let n' = (handle_append_entries n args now).0 in
        (n'.state ≡ follower)
        × (n'.current_term ≡ args.term)
        × (n'.leader_id ≡ args.leader_id)
        × (n'.last_heartbeat_time ≡ now)
  unfolding handle_append_entries follow_leader become_follower learn_commit
  append_follows n args now h =
      ground
        (arith, append_all-SameRole (follow_leader n args now) args.prev_log_index args.entries)

  learn_commit-follow_leader :
      (n : Node Db) (args : AppendEntriesArgs) (now c : ℕ)
      → n.commit_index < c
      → c ≤ n.last_log_index
      → (learn_commit (follow_leader n args now) c).commit_index ≡ c
  unfolding learn_commit follow_leader become_follower
  learn_commit-follow_leader n args now c h k = ground arith

  -- A heartbeat makes a follower commit entries that it has not compared with the leader's: all
  -- up to the leader's commit index that its own log has above the entry that was checked.
  heartbeat_commits_unchecked :
      (n : Node Db) (args : AppendEntriesArgs) (now : ℕ)
      → IsLogOk n
      → n.current_term ≤ args.term
      → HoldsPrev n args
      → args.entries ≡ []
      → args.prev_log_index < args.leader_commit
      → args.leader_commit ≤ n.last_log_index
      → n.commit_index < args.leader_commit
      → let n' = (handle_append_entries n args now).0 in
        (n'.commit_index ≡ args.leader_commit)
        × (args.prev_log_index < n'.commit_index)
        × (get_log_entry n'.storage n'.commit_index ≡ get_log_entry n.storage n'.commit_index)
  unfolding append_all
  heartbeat_commits_unchecked n args now ok h p e above known behind =
      let before = follow_leader n args now in
      let state : (handle_append_entries n args now).0 ≡ learn_commit before args.leader_commit =
        append_success_state n args now ((append_success_iff n args now ok).1 (h, p))
        ∙ ap
            (λ (es : List LogEntry).
              learn_commit (append_all before args.prev_log_index es) args.leader_commit)
            e in
      let commit = learn_commit-follow_leader n args now args.leader_commit behind known in
      rw (state, learn_commit-storage)
        (
          commit,
          rw commit above,
          follow_leader-log n args now (learn_commit before args.leader_commit).commit_index,
        )
