-- ===== src/Examples/Stores.antt =====
-- Text, keys, the log and snapshots of a small database.
use raft_distributed_consens.Storage.Snapshot.Survival.{NoLine, balance_survives}
use raft_distributed_consens.Storage.Batch.{append_each, append_logs_one_by_one}
use raft_distributed_consens.Network.Framing.{read_message-frame}
use raft_distributed_consens.Network.{frame, read_message}
use raft_distributed_consens.Examples.Nodes.{empty_store, first_entry}
use raft_distributed_consens.Examples.Environment.{
  Pairs, environment, print_result, print_result_tagged,
}
use raft_distributed_consens.Storage.Snapshot.Corruption.{snapshot_forgets}
use raft_distributed_consens.Storage.Snapshot.Lines.{Clean}
use raft_distributed_consens.Storage.Snapshot.{render, state_entries, is_state_key, apply_snapshot}
use raft_distributed_consens.Storage.Keys.{acct, key_bytes, log}
use raft_distributed_consens.Storage.{Store, at, get_request_result, append_logs, get_balance}
use raft_distributed_consens.Messages.{CommandResult}
use raft_distributed_consens.Prelude.{
  bytes_eq, [], ◌∷◌, some, ◌≡◌, refl, arith, codes, starts_with, ◌++◌,
}

-- A database with one account.
abbrev source : Store Pairs
source = record { db = (codes "acct:1", codes "70") ∷ []; last_log_index_cache = 0 }

source-Clean : Clean (state_entries ((codes "acct:1", codes "70") ∷ []))
unfolding state_entries is_state_key starts_with
source-Clean = (((refl, (refl, (refl, (refl, (refl, (refl, tt)))))), (refl, (refl, tt))), tt)

abbrev done : CommandResult
done = record { result_message = codes "Success"; executed_at_index = 3 }

abbrev served : Store Pairs
served = record { db = (codes "req:r1", print_result done) ∷ []; last_log_index_cache = 0 }

snapshot_forgets_example :
    (get_request_result served (codes "r1") ≡ codes "Success")
    × (get_request_result
          (apply_snapshot empty_store (render (state_entries served.db)) 5 2)
          (codes "r1")
        ≡ [])
unfolding state_entries is_state_key starts_with key_bytes print_result_tagged
snapshot_forgets_example =
    snapshot_forgets served empty_store 5 2 [] (codes "r1") done (λ e. ground arith) refl tt
      (refl, (refl, (refl, (refl, (refl, (refl, tt))))))
      (refl, (refl, (refl, (refl, (refl, (refl, (refl, (refl, tt))))))))

read_message-frame_example :
    read_message (frame (codes "hello") ++ codes "rest") ≡ some (codes "hello", codes "rest")
read_message-frame_example = read_message-frame (codes "hello") (codes "rest") (omega arith)

append_logs_one_by_one_example :
    let es = first_entry ∷ record first_entry { index = 2 } ∷ [] in
    (at (append_logs empty_store es) (log 2) ≡ at (append_each empty_store es) (log 2))
    × ((append_logs empty_store es).last_log_index_cache
        ≡ (append_each empty_store es).last_log_index_cache)
append_logs_one_by_one_example =
    append_logs_one_by_one empty_store (first_entry ∷ record first_entry { index = 2 } ∷ []) (log 2)
      (refl, (refl, tt))

-- An account before a result.
abbrev paid : Store Pairs
paid = record {
  db = (codes "acct:1", codes "70") ∷ (codes "req:r1", print_result done) ∷ [];
  last_log_index_cache = 0;
}

result_apart :
    NoLine (key_bytes (acct (codes "1"))) (render ((codes "req:r1", print_result done) ∷ []))
unfolding render key_bytes bytes_eq
result_apart = (refl, (refl, (refl, (refl, tt))))

balance_survives_example :
    get_balance (apply_snapshot empty_store (render (state_entries paid.db)) 5 2) (codes "1")
    ≡ get_balance paid (codes "1")
unfolding state_entries is_state_key starts_with key_bytes bytes_eq
balance_survives_example =
    balance_survives paid empty_store 5 2 ((codes "acct:1", codes "70") ∷ [])
      ((codes "req:r1", print_result done) ∷ []) (codes "1") refl source-Clean refl result_apart
