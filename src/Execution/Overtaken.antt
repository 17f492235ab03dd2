-- ===== src/Execution/Overtaken.antt =====
-- A snapshot that is installed while the executor holds a batch that it has fetched before.
use raft_distributed_consens.Execution.{apply_entries}
use raft_distributed_consens.Execution.Accounts.{Represents}
use raft_distributed_consens.Execution.Batch.{
  ledger_step, ledger_run, AllSafe, apply_entry_refines, apply_entries_refines,
}
use raft_distributed_consens.Execution.Ledger.{Ledger}
use raft_distributed_consens.External.{External}
use raft_distributed_consens.Messages.{LogEntry, InstallSnapshotArgs}
use raft_distributed_consens.Node.{Node}
use raft_distributed_consens.Replication.LogShape.{Consecutive}
use raft_distributed_consens.Transfer.{handle_install_snapshot}
use raft_distributed_consens.Transfer.Installation.{install_snapshot_effect}
use raft_distributed_consens.Prelude.{
  ℕ, ◌+◌, ◌≤◌, ◌<◌, List, ◌∷◌, some, length, ◌≡◌, arith, subst, sym, ◌∙◌, ap,
}

module _ {Db : Type 0} ⦃env : External Db⦄ where
  -- If the executor has fetched a batch and a snapshot that has the batch's effect, and ends at or
  -- behind its last entry, is installed before it goes on, then the batch is applied a second time,
  -- on the accounts of the snapshot, and the applied index goes back to the end of the batch.
  pub batch_applied_twice :
      (n : Node Db) (args : InstallSnapshotArgs) (now : ℕ) (b : Ledger) (e : LogEntry)
      (es : List LogEntry)
      → n.current_term ≤ args.term
      → n.last_applied < args.last_included_index
      → Consecutive n.last_applied (e ∷ es)
      → n.last_applied + length (e ∷ es) ≤ args.last_included_index
      → Represents (handle_install_snapshot n args now).0.storage (ledger_run b (e ∷ es))
      → AllSafe (ledger_run b (e ∷ es)) (e ∷ es)
      → let n' = (handle_install_snapshot n args now).0 in
        (n'.last_applied ≡ args.last_included_index)
        × ((n'' : Node Db) × (apply_entries n' (e ∷ es) ≡ some n'')
            × Represents n''.storage (ledger_run (ledger_run b (e ∷ es)) (e ∷ es))
            × (n''.last_applied ≡ n.last_applied + length (e ∷ es)))
  unfolding apply_entries
  batch_applied_twice n args now b e es young behind (next, follows) covered r
        (safe, bound, later) =
      let installed = install_snapshot_effect n args now young behind in
      let n' : Node Db = (handle_install_snapshot n args now).0 in
      let twice = ledger_run b (e ∷ es) in
      let (n1, o, run, r1, resumes, applied) = apply_entry_refines n' twice e r safe bound in
      let (n2, run', r2, resumes', applied') =
        apply_entries_refines es n1 (ledger_step twice e.command.type e.command) r1 later
          (subst (λ i. Consecutive i es) (sym (applied ∙ next)) follows)
          (resumes ∙ ap some (sym applied)) in
      (installed.2, (n2, rw run run', r2, omega (arith, applied', applied, next)))
