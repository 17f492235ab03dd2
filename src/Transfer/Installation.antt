-- ===== src/Transfer/Installation.antt =====
-- What installing a snapshot leaves on a node.
use raft_distributed_consens.Prelude.{
  ℕ, ◌≤◌, ◌<◌, false, ltb, leb, ◌==◌, if◌then◌else◌, ℤ, ◌≡◌, refl, ap, ◌∙◌, arith, Bool-cases, inl,
  inr,
}
use raft_distributed_consens.Messages.{LogEntry, empty_entry, InstallSnapshotArgs}
use raft_distributed_consens.External.{External}
use raft_distributed_consens.Storage.{Store, get_log_entry, append_log}
use raft_distributed_consens.Storage.Snapshot.{apply_snapshot}
use raft_distributed_consens.Storage.Log.{get_log_entry-append_log, get_log_entry-truncate_log}
use raft_distributed_consens.Node.{Node, observe_term, become_follower}
use raft_distributed_consens.Replication.LogShape.{IsLogOk, become_follower-IsLogOk}
use raft_distributed_consens.Transfer.{anchor, install, handle_install_snapshot}

module _ {Db : Type 0} ⦃env : External Db⦄ where
  -- The log is left with the anchor at the snapshot's index and with nothing above it up to the
  -- former end of the log.
  install-log :
      (s : Store Db) (args : InstallSnapshotArgs) (i : ℕ)
      → args.last_included_index ≤ i
      → i ≤ s.last_log_index_cache
      → get_log_entry (install s args) i ≡ (
          if args.last_included_index == i
          then anchor args.last_included_index args.last_included_term
          else empty_entry)
  unfolding install apply_snapshot
  install-log s args i low high =
      rw (get_log_entry-append_log, get_log_entry-truncate_log) (ground arith)

  install-anchor :
      (s : Store Db) (args : InstallSnapshotArgs)
      → get_log_entry (install s args) args.last_included_index
        ≡ anchor args.last_included_index args.last_included_term
  unfolding install
  install-anchor s args = rw get_log_entry-append_log (ground arith)

  observe_term-last_applied :
      (n : Node Db) (term : ℕ) → (observe_term n term).last_applied ≡ n.last_applied
  unfolding observe_term become_follower
  observe_term-last_applied n term = ground arith

  observe_term-IsLogOk : (n : Node Db) (term : ℕ) → IsLogOk n → IsLogOk (observe_term n term)
  unfolding observe_term
  observe_term-IsLogOk n term ok = elim (Bool-cases (ltb n.current_term term)) [
    | inl new ↦ rw new (become_follower-IsLogOk n term ok)
    | inr old ↦ rw old ok
  ]

  observe_term-last_log_index :
      (n : Node Db) (term : ℕ) → (observe_term n term).last_log_index ≡ n.last_log_index
  unfolding observe_term become_follower
  observe_term-last_log_index n term = ground arith

  -- A snapshot above the applied index, of a term that is not old, is installed as a whole: its index becomes the end of the
  -- log, the applied and the committed index, and the stored log has its term there.
  pub install_snapshot_effect :
      (n : Node Db) (args : InstallSnapshotArgs) (now : ℕ)
      → n.current_term ≤ args.term
      → n.last_applied < args.last_included_index
      → let n' = (handle_install_snapshot n args now).0 in
        (n'.last_log_index ≡ args.last_included_index)
        × (n'.last_log_term ≡ args.last_included_term)
        × (n'.last_applied ≡ args.last_included_index)
        × (n'.commit_index ≡ args.last_included_index)
        × (get_log_entry n'.storage args.last_included_index
            ≡ anchor args.last_included_index args.last_included_term)
  unfolding handle_install_snapshot
  install_snapshot_effect n args now h k =
      let current : ltb args.term n.current_term ≡ false = ground arith in
      let fresh : leb args.last_included_index (observe_term n args.term).last_applied ≡ false =
        ground (arith, observe_term-last_applied n args.term) in
      rw (current, fresh)
        (refl, refl, refl, refl, install-anchor (observe_term n args.term).storage args)

  keep_log :
      (n : Node Db) (now : ℕ) (leader : ℤ)
      → IsLogOk n
      → IsLogOk (record n { last_heartbeat_time = now; leader_id = leader })
  keep_log n now leader ok = record { cached = ok.cached; last_term = ok.last_term }

  -- If memory describes the stored log, then it does so after InstallSnapshot, whatever the
  -- arguments.
  pub handle_install_snapshot-IsLogOk :
      (n : Node Db) (args : InstallSnapshotArgs) (now : ℕ)
      → IsLogOk n
      → IsLogOk (handle_install_snapshot n args now).0
  unfolding handle_install_snapshot
  handle_install_snapshot-IsLogOk n args now ok = elim (Bool-cases (ltb args.term n.current_term)) [
    | inl stale ↦ rw stale ok
    | inr current ↦
        elim (Bool-cases (leb args.last_included_index (observe_term n args.term).last_applied)) [
          | inl old ↦
              rw (current, old)
                (keep_log (observe_term n args.term) now args.leader_id
                  (observe_term-IsLogOk n args.term ok))
          | inr fresh ↦
              rw (current, fresh)
                (record {
                  cached = unfold install append_log in refl;
                  last_term = λ _.
                      ap (λ (e : LogEntry). e.term)
                        (install-anchor (observe_term n args.term).storage args);
                })
        ]
  ]

  -- A snapshot above the applied index but below the committed one takes committed entries away:
  -- the commit index moves back, and the entries above the snapshot are gone from the log.
  pub install_snapshot_regress :
      (n : Node Db) (args : InstallSnapshotArgs) (now i : ℕ)
      → IsLogOk n
      → n.current_term ≤ args.term
      → n.last_applied < args.last_included_index
      → args.last_included_index < i
      → i ≤ n.commit_index
      → i ≤ n.last_log_index
      → let n' = (handle_install_snapshot n args now).0 in
        (n'.commit_index < i) × (get_log_entry n'.storage i ≡ empty_entry)
  unfolding handle_install_snapshot
  install_snapshot_regress n args now i ok h k low committed high =
      let current : ltb args.term n.current_term ≡ false = ground arith in
      let fresh : leb args.last_included_index (observe_term n args.term).last_applied ≡ false =
        ground (arith, observe_term-last_applied n args.term) in
      let cached : i ≤ (observe_term n args.term).storage.last_log_index_cache = ground (
        arith,
        (observe_term-IsLogOk n args.term ok).cached,
        observe_term-last_log_index n args.term,
      ) in
      let above : (args.last_included_index == i) ≡ false = ground arith in
      rw (current, fresh)
        (
          low,
          install-log (observe_term n args.term).storage args i (omega arith) cached
              ∙ rw above refl,
        )
