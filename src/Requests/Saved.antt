-- ===== src/Requests/Saved.antt =====
-- The handlers that leave a node's term and vote on disk as they are in memory.
use raft_distributed_consens.Prelude.{
  ℕ, ◌+◌, ◌<◌, List, [], ◌∷◌, int_bound, ltb, leb, ◌≡◌, refl, arith, ◌∙◌, Bool-cases, inl, inr,
}
use raft_distributed_consens.Messages.{LogEntry, AppendEntriesArgs, InstallSnapshotArgs}
use raft_distributed_consens.External.{External}
use raft_distributed_consens.Node.{Node, observe_term, become_follower}
use raft_distributed_consens.Node.Roles.{
  IsPersisted, become_follower-IsPersisted, observe_term-IsPersisted,
}
use raft_distributed_consens.Storage.{Store, truncate_log}
use raft_distributed_consens.Storage.Snapshot.{apply_snapshot}
use raft_distributed_consens.Storage.Persistence.{
  SameHard, SameHard-load_hard_state, append_log-SameHard, truncate_log-SameHard, IsStateText,
  apply_snapshot-SameHard,
}
use raft_distributed_consens.Replication.{
  append_entry, append_all, follow_leader, learn_commit, handle_append_entries, is_consistent,
}
use raft_distributed_consens.Transfer.{install, handle_install_snapshot, anchor}

module _ {Db : Type 0} ⦃env : External Db⦄ where
  -- Term and vote in memory and on disk agree, and a term that is saved can be loaded.
  abbrev pub IsSaved : Node Db → Type 0
  IsSaved n = IsPersisted n × (n.current_term < int_bound)

  -- A change that leaves the term and the vote alone, in memory and on disk.
  abbrev pub Apart : Node Db → Node Db → Type 0
  Apart n n' =
      (n'.current_term ≡ n.current_term)
      × (n'.voted_for ≡ n.voted_for)
      × SameHard n.storage n'.storage

  pub Apart-IsSaved : (n n' : Node Db) → Apart n n' → IsSaved n → IsSaved n'
  Apart-IsSaved n n' (term, vote, hard) (p, bound) =
      (SameHard-load_hard_state n.storage n'.storage hard ∙ p ∙ ground arith, ground arith)

  append_entry-Apart : (n : Node Db) (i : ℕ) (e : LogEntry) → Apart n (append_entry n i e)
  unfolding append_entry
  append_entry-Apart n i e = ground (
    arith,
    append_log-SameHard n.storage e,
    append_log-SameHard (truncate_log n.storage i) e,
    truncate_log-SameHard n.storage i,
  )

  append_all-Apart : (n : Node Db) (i : ℕ) (es : List LogEntry) → Apart n (append_all n i es)
  unfolding append_all
  append_all-Apart n i [] = (refl, refl, (refl, refl))
  append_all-Apart n i (e ∷ es) = ground (
    arith,
    append_entry-Apart n (i + 1) e,
    append_all-Apart (append_entry n (i + 1) e) (i + 1) es,
  )

  pub become_follower-IsSaved :
      (n : Node Db) (term : ℕ) → term < int_bound → IsSaved (become_follower n term)
  become_follower-IsSaved n term h =
      (become_follower-IsPersisted n term h, unfold become_follower in h)

  observe_term-IsSaved :
      (n : Node Db) (term : ℕ) → term < int_bound → IsSaved n → IsSaved (observe_term n term)
  observe_term-IsSaved n term h (p, bound) =
      (observe_term-IsPersisted n term h p, unfold observe_term become_follower in ground arith)

  follow_leader-IsSaved :
      (n : Node Db) (args : AppendEntriesArgs) (now : ℕ)
      → args.term < int_bound
      → IsSaved n
      → IsSaved (follow_leader n args now)
  unfolding follow_leader
  follow_leader-IsSaved n args now h (p, bound) =
      let n' : Node Db = record n { last_heartbeat_time = now; leader_id = args.leader_id } in
      ground (arith, become_follower-IsSaved n' args.term h)

  learn_commit-Apart : (n : Node Db) (c : ℕ) → Apart n (learn_commit n c)
  unfolding learn_commit
  learn_commit-Apart n c = ground arith

  pub appended-IsSaved :
      (n : Node Db) (args : AppendEntriesArgs) (now : ℕ)
      → args.term < int_bound
      → IsSaved n
      → IsSaved (handle_append_entries n args now).0
  unfolding handle_append_entries
  appended-IsSaved n args now h ok =
      let before = follow_leader n args now in
      let saved = follow_leader-IsSaved n args now h ok in
      let added = append_all before args.prev_log_index args.entries in
      elim (Bool-cases (ltb args.term n.current_term)) [
        | inl old ↦ rw old ok
        | inr young ↦ elim (Bool-cases (is_consistent before args)) [
          | inr lacks ↦ rw (young, lacks) saved
          | inl holds ↦
              rw (young, holds)
                (Apart-IsSaved added (learn_commit added args.leader_commit)
                  (learn_commit-Apart added args.leader_commit)
                  (Apart-IsSaved before added
                    (append_all-Apart before args.prev_log_index args.entries) saved))
        ]
      ]

  install-SameHard :
      (s : Store Db) (args : InstallSnapshotArgs)
      → IsStateText args.snapshot_data
      → SameHard s (install s args)
  unfolding install
  install-SameHard s args apart = ground (
    arith,
    apply_snapshot-SameHard s args.snapshot_data args.last_included_index args.last_included_term,
    truncate_log-SameHard
        (apply_snapshot s args.snapshot_data args.last_included_index args.last_included_term)
        (args.last_included_index + 1),
    append_log-SameHard
        (truncate_log
          (apply_snapshot s args.snapshot_data args.last_included_index args.last_included_term)
          (args.last_included_index + 1))
        (anchor args.last_included_index args.last_included_term),
  )

  pub installed-IsSaved :
      (n : Node Db) (args : InstallSnapshotArgs) (now : ℕ)
      → args.term < int_bound
      → IsStateText args.snapshot_data
      → IsSaved n
      → IsSaved (handle_install_snapshot n args now).0
  unfolding handle_install_snapshot
  installed-IsSaved n args now h apart ok =
      let seen = observe_term n args.term in
      let (p, bound) = observe_term-IsSaved n args.term h ok in
      let hard = install-SameHard seen.storage args apart in
      elim (Bool-cases (ltb args.term n.current_term)) [
        | inl old ↦ rw old ok
        | inr young ↦ elim (Bool-cases (leb args.last_included_index seen.last_applied)) [
          | inl known ↦ rw (young, known) (p, bound)
          | inr fresh ↦
              rw (young, fresh)
                (SameHard-load_hard_state seen.storage (install seen.storage args) hard ∙ p, bound)
        ]
      ]
