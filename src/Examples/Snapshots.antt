-- ===== src/Examples/Snapshots.antt =====
-- A snapshot that has the effect of the payment, installed on a node that is about to apply it.
use raft_distributed_consens.Examples.Environment.{Pairs, environment}
use raft_distributed_consens.Examples.Nodes.{fresh, first_entry, empty_store}
use raft_distributed_consens.Execution.{apply_entries}
use raft_distributed_consens.Execution.Accounts.{Represents}
use raft_distributed_consens.Execution.Batch.{ledger_run}
use raft_distributed_consens.Execution.Ledger.{Ledger}
use raft_distributed_consens.Execution.Overtaken.{batch_applied_twice}
use raft_distributed_consens.Messages.{InstallSnapshotArgs}
use raft_distributed_consens.Node.{Node, observe_term}
use raft_distributed_consens.Storage.{Store, get_balance, read_int, truncate_log}
use raft_distributed_consens.Storage.Keys.{key_bytes, acct, bytes_eq-key_bytes}
use raft_distributed_consens.Storage.Log.{at-append_log, at-truncate_log}
use raft_distributed_consens.Storage.Snapshot.{render, state_entries, is_state_key, apply_snapshot}
use raft_distributed_consens.Storage.Snapshot.Lines.{Clean}
use raft_distributed_consens.Storage.Snapshot.Transfer.{at-apply_snapshot}
use raft_distributed_consens.Text.{to_string}
use raft_distributed_consens.Text.RoundTrip.{stoi-to_string}
use raft_distributed_consens.Transfer.{handle_install_snapshot, install, anchor}
use raft_distributed_consens.Prelude.{
  [], ◌∷◌, some, pos, codes, bytes_eq, starts_with, true, if◌then◌else◌, ◌≡◌, ◌+◌, refl, arith, ap,
  ◌∙◌,
}

-- The accounts before the payment of 30, and a store that holds those after it.
abbrev before : Ledger
before a = if bytes_eq (codes "1") a then 100 else 0

abbrev source : Store Pairs
source = record {
  db =
      (key_bytes (acct (codes "1")), to_string (pos 70))
      ∷ (key_bytes (acct (codes "2")), to_string (pos 30))
      ∷ [];
  last_log_index_cache = 0;
}

source-Represents : Represents source (ledger_run before (first_entry ∷ []))
unfolding get_balance read_int bytes_eq
source-Represents a =
    rw
      (
        bytes_eq-key_bytes (acct (codes "1")) (acct a),
        bytes_eq-key_bytes (acct (codes "2")) (acct a),
      )
      (ground (arith, stoi-to_string (pos 70) (omega arith), stoi-to_string (pos 30) (omega arith)))

source-Clean : Clean (state_entries source.db)
unfolding state_entries is_state_key starts_with key_bytes to_string
source-Clean = (
  ((refl, (refl, (refl, (refl, (refl, (refl, tt)))))), (refl, (refl, tt))),
  (((refl, (refl, (refl, (refl, (refl, (refl, tt)))))), (refl, (refl, tt))), tt),
)

abbrev snapshot : InstallSnapshotArgs
snapshot = record {
  term = 1;
  leader_id = pos 2;
  last_included_index = 1;
  last_included_term = 1;
  snapshot_data = render (state_entries source.db);
  offset = 0;
  done = true;
}

installed-Represents :
    Represents
      (handle_install_snapshot fresh snapshot 7).0.storage
      (ledger_run before (first_entry ∷ []))
unfolding handle_install_snapshot observe_term install get_balance bytes_eq key_bytes
installed-Represents a =
    let cleared = apply_snapshot empty_store (render (state_entries source.db)) 1 1 in
    ap (read_int (pos 0)) (
      at-append_log (truncate_log cleared 2) (anchor 1 1) (acct a)
      ∙ at-truncate_log cleared 2 (acct a)
      ∙ at-apply_snapshot source empty_store 1 1 (acct a) source-Clean)
    ∙ source-Represents a

batch_applied_twice_example :
    let n' = (handle_install_snapshot fresh snapshot 7).0 in
    let once = ledger_run before (first_entry ∷ []) in
    (n'.last_applied ≡ 1)
    × ((n'' : Node Pairs) × (apply_entries n' (first_entry ∷ []) ≡ some n'')
        × Represents n''.storage (ledger_run once (first_entry ∷ []))
        × (n''.last_applied ≡ 0 + 1))
unfolding bytes_eq
batch_applied_twice_example =
    batch_applied_twice fresh snapshot 7 before first_entry [] (omega arith) (omega arith)
      (refl, tt) (omega arith) installed-Represents ((30, refl, omega arith), omega arith, tt)
