-- ===== src/Execution.antt =====
-- src/raft/execution.cpp: the executor applies committed entries to the accounts.
pub mod Accounts
pub mod Ledger
pub mod Money
pub mod Batch
pub mod Rounds
pub mod Overtaken
pub mod PaidTwice
use raft_distributed_consens.Prelude.{
  ℕ, ◌+◌, ◌-◌, ◌%◌, List, [], ◌∷◌, ◌++◌, Option, none, some, Bool, ◌||◌, ℤ, minus_one, ◌+ℤ◌, ◌-ℤ◌,
  leb_ℤ, Bytes, codes, bytes_eq, contains, ltb, ◌==◌, if◌then◌else◌, min, ◌>>=◌,
}
use raft_distributed_consens.Text.{to_string}
use raft_distributed_consens.Messages.{RequestType, ClientRequest, ClientResponse, LogEntry}
use raft_distributed_consens.External.{External}
use raft_distributed_consens.Storage.{Store, get_balance, apply_transaction, compact_log}
use raft_distributed_consens.Node.{Node}
use raft_distributed_consens.Replication.{read_entries}
use raft_distributed_consens.Requests.{find_callback, erase_callback}

-- The local variables that the read and logic phases leave.
pub record Outcome : Type 0 where
  pub result_msg : Bytes
  pub sender_new_bal : ℤ
  pub receiver_new_bal : ℤ

-- The logic phase for a transfer.
unfoldable pub transfer_outcome : ℤ → ℤ → ℤ → Outcome
transfer_outcome sender_bal receiver_bal amount =
    if leb_ℤ amount sender_bal
    then record {
      result_msg = codes "Success";
      sender_new_bal = sender_bal -ℤ amount;
      receiver_new_bal = receiver_bal +ℤ amount;
    }
    else record {
      result_msg = codes "Insufficient Funds";
      sender_new_bal = minus_one;
      receiver_new_bal = minus_one;
    }

abbrev pub balance_outcome : ℤ → Outcome
balance_outcome current_bal = record {
  result_msg = codes "Balance: " ++ to_string current_bal;
  sender_new_bal = minus_one;
  receiver_new_bal = minus_one;
}

-- `result_msg == "Success" || result_msg.find("Balance") != npos`
unfoldable pub is_success : Bytes → Bool
is_success result_msg =
    bytes_eq result_msg (codes "Success") || contains result_msg (codes "Balance")

module _ {Db : Type 0} ⦃env : External Db⦄ where
  -- The read and logic phases.
  unfoldable pub outcome : Store Db → RequestType → ClientRequest → Option Outcome
  outcome s RequestType.transfer cmd = do
    sender_bal ← get_balance s cmd.sender_id
    receiver_bal ← get_balance s cmd.receiver_id
    some (transfer_outcome sender_bal receiver_bal cmd.amount)
  outcome s RequestType.get_balance cmd = do
    current_bal ← get_balance s cmd.sender_id
    some (balance_outcome current_bal)

  -- Phases A to C for one entry, without the lock.
  unfoldable pub execute_entry : Store Db → LogEntry → Option (Store Db × Bytes)
  execute_entry s entry = do
    o ← outcome s entry.command.type entry.command
    some (apply_transaction s entry o.sender_new_bal o.receiver_new_bal o.result_msg, o.result_msg)

  -- The entries that are fetched under the lock.
  unfoldable pub fetch_entries : Node Db → List LogEntry
  fetch_entries n =
      read_entries n.storage (min 100 (n.commit_index - n.last_applied)) (n.last_applied + 1)

  -- The notification, under the lock: a callback and its response, if one waits.
  unfoldable pub notify : Node Db → LogEntry → Bytes → Node Db × Option (ℕ × ClientResponse)
  notify n entry result_msg =
      let n' : Node Db = record n { last_applied = entry.index } in
      elim (find_callback entry.command.request_id n.pending_callbacks) [
        | none ↦ (n', none)
        | some callback ↦ (
          record n' {
            pending_callbacks = erase_callback entry.command.request_id n.pending_callbacks;
          },
          some (
            callback,
            record {
              success = is_success result_msg;
              result = result_msg;
              leader_hint = n.leader_id;
            },
          ),
        )
      ]

  -- Every 1000 entries the log is compacted, but for the last 100.
  unfoldable pub maybe_compact : Node Db → Node Db
  maybe_compact n =
      if n.last_applied % 1000 == 0
      then (if ltb 0 (n.last_applied - 100)
          then record n { storage = compact_log n.storage (n.last_applied - 100) }
          else n)
      else n

  -- One entry, where no other thread comes between.
  unfoldable pub apply_entry : Node Db → LogEntry → Option (Node Db × Option (ℕ × ClientResponse))
  unfolding notify
  apply_entry n entry = do
    done ← execute_entry n.storage entry
    let notified = notify (record n { storage = done.0 }) entry done.1
    some (maybe_compact notified.0, notified.1)

  -- The loop over a batch, without the responses.
  unfoldable pub apply_entries : Node Db → List LogEntry → Option (Node Db)
  apply_entries n [] = some n
  apply_entries n (e ∷ es) = do done ← apply_entry n e; apply_entries done.0 es
